-- ===== src/Transfer/Stream/Complete.antt =====
-- backend/src/transfer/transfer.cpp, HandleFile: when a stream is acknowledged, nothing is missing.
use space_station.Prelude.{
  >>=-eq-ok, All, Bool, Bool-cases, List, [], ap, arith, false, guard, inl, inr, length, ok,
  ok-injective, replicate, subst, suc, sym, true, zero, ℕ, ◌<◌, ◌∙◌, ◌∷◌, ◌≡◌, ◌≤◌,
}
use space_station.Transfer.Stream.Missing.{start_stream-Writing}
use space_station.Transfer.Receive.{read_all}
use space_station.Transfer.Manifest.{stream_frame_mismatch, invalid_stream_frame, stream_mismatch}
use space_station.Transfer.Receive.Integrity.{Verified, count_missing, none_missing}
use space_station.Transfer.Stream.Writing.{Writing, write_loop-Writing}
use space_station.Transfer.Stream.Frames.{
  inflate_loop, After, end_stream, ended, receive_stream, receive_frame, receive_frames,
  is_complete, Stream, after, same_upload, is_valid_frame, input_used, again, frame_fuel,
  start_stream,
}
use space_station.Transfer.Scan.{Signature, Progress}
use space_station.Transfer.Stream.{
  Inflated, Request, Writer, Frame, StreamStart, write_decoded, expected_length, missing_from,
  matches_start,
}
use space_station.Prelude.Bytes.{Bytes, bytes_eq, text}

module _ (sha256 : Bytes → Bytes) {Z : Type 0} (inflate : Z → Bytes → Inflated Z) (r : Request)
    (sizes : All (λ (s : Signature). (0 < s.size) × (s.size ≤ r.chunk_size)) r.signatures) where
  inflate_loop-Writing :
      (fuel : ℕ) (w : Writer) (z : Z) (input : Bytes) (found : Writer × Z × Bool)
      → Writing sha256 r sizes w
      → inflate_loop sha256 inflate r fuel w z input ≡ ok found
      → Writing sha256 r sizes found.0
  unfolding inflate_loop
  inflate_loop-Writing zero w z input found v h = cc
  inflate_loop-Writing (suc fuel) w z input found v h =
      let d = inflate z input in
      let (w', written, h₁) = >>=-eq-ok (write_decoded sha256 r w d.produced) _ h in
      let (next, follows, h₂) = >>=-eq-ok (after d) _ h₁ in
      let (v', _) =
        write_loop-Writing sha256 r sizes (length d.produced) w w' d.produced v
          (unfold write_decoded in written) in
      go next w' v' (λ u. inflate_loop-Writing fuel w' d.inflater d.rest found u) h₂
    where
      go :
          (next : After) (w' : Writer)
          → Writing sha256 r sizes w'
          → (Writing sha256 r sizes w'
              → inflate_loop sha256 inflate r fuel w'
                  (inflate z input).inflater
                  (inflate z input).rest
                ≡ ok found
              → Writing sha256 r sizes found.0)
          → (elim next [
            | ended ↦ ok (w', (inflate z input).inflater, true)
            | input_used ↦ ok (w', (inflate z input).inflater, false)
            | again ↦
                inflate_loop sha256 inflate r fuel w'
                  (inflate z input).inflater
                  (inflate z input).rest
          ])
            ≡ ok found
          → Writing sha256 r sizes found.0
      go ended w' u ih e =
          subst (λ (x : Writer × Z × Bool). Writing sha256 r sizes x.0) (ok-injective e) u
      go input_used w' u ih e =
          subst (λ (x : Writer × Z × Bool). Writing sha256 r sizes x.0) (ok-injective e) u
      go again w' u ih e = ih u e

  receive_frame-Writing :
      (expected : ℕ) (st st' : Stream Z) (f : Frame)
      → Writing sha256 r sizes st.writer
      → receive_frame sha256 inflate r expected st f ≡ ok st'
      → Writing sha256 r sizes st'.writer
  unfolding receive_frame
  receive_frame-Writing expected st st' f v h =
      let (_, mine, h₁) =
        >>=-eq-ok (guard (same_upload sha256 inflate r f) stream_frame_mismatch) _ h in
      let (_, valid, h₂) =
        >>=-eq-ok (guard (is_valid_frame sha256 inflate r expected st f) invalid_stream_frame) _
          h₁ in
      let (encoded, read, h₃) = >>=-eq-ok (read_all f.wire f.body_length) _ h₂ in
      let (found, inflated, h₄) =
        >>=-eq-ok
          (inflate_loop sha256 inflate r (frame_fuel sha256 inflate r expected encoded) st.writer
            st.inflater encoded)
          _ h₃ in
      subst (λ (x : Stream Z). Writing sha256 r sizes x.writer) (ok-injective h₄)
        (inflate_loop-Writing _ st.writer st.inflater encoded found v inflated)

  end_stream_complete :
      (expected : ℕ) (st st' : Stream Z) (f : Frame)
      → end_stream sha256 inflate r expected st f ≡ ok st'
      → (st ≡ st') × (st.writer.remaining ≡ 0) × (st.writer.total_written ≡ expected)
  unfolding end_stream is_complete
  end_stream_complete expected st st' f h = ground arith

  receive_frames-Writing :
      (expected : ℕ) (st st' : Stream Z) (fs : List Frame)
      → Writing sha256 r sizes st.writer
      → receive_frames sha256 inflate r expected st fs ≡ ok st'
      → Writing sha256 r sizes st'.writer × (st'.writer.remaining ≡ 0)
  unfolding receive_frames
  receive_frames-Writing expected st st' [] v h = cc
  receive_frames-Writing expected st st' (f ∷ fs) v h =
      elim (Bool-cases (bytes_eq f.kind (text "streamEnd"))) [
        | inl last ↦
            let (e, done, _) = end_stream_complete expected st st' f (rw last at h) in
            subst (λ (x : Stream Z). Writing sha256 r sizes x.writer × (x.writer.remaining ≡ 0)) e
              (v, done)
        | inr more ↦
            let (mid, e, h') =
              >>=-eq-ok (receive_frame sha256 inflate r expected st f)
                (λ t. receive_frames sha256 inflate r expected t fs) (rw more at h) in
            receive_frames-Writing expected mid st' fs (receive_frame-Writing expected st mid f v e)
              h'
      ]

  -- If the server acknowledges the end of a continuous stream, then every block of the temporary file
  -- has the hash that was announced for it, and none is missing: for blocks of 1 byte up to the block
  -- size, from a plan whose matched blocks are verified and counted, and for any frames of the client
  -- and any behaviour of inflate.
  pub receive_stream-Verified :
      (z : Z) (p : Progress) (remaining : ℕ) (s : StreamStart) (frames : List Frame) (st : Stream Z)
      → Verified sha256 r.signatures r.chunk_size p
      → remaining ≡ count_missing p.matched
      → receive_stream sha256 inflate r z p remaining s frames ≡ ok st
      → Verified sha256 r.signatures r.chunk_size st.writer.progress
        × (st.writer.progress.matched ≡ replicate (length r.signatures) true)
  unfolding receive_stream
  receive_stream-Verified z p remaining s frames st v c h =
      let (expected, summed, h₁) = >>=-eq-ok (expected_length r (missing_from 0 p.matched) 0) _ h in
      let (_, agreed, h₂) = >>=-eq-ok (guard (matches_start r s expected) stream_mismatch) _ h₁ in
      let (w, done) =
        receive_frames-Writing expected (start_stream sha256 inflate r z p remaining) st frames
          (start_stream-Writing sha256 r sizes inflate z p remaining v c) h₂ in
      (
        w.verified,
        none_missing st.writer.progress.matched (sym w.counted ∙ done)
            ∙ ap (λ n. replicate n true) w.verified.same_length,
      )
