-- ===== src/Transfer/Stream/Ends.antt =====
-- backend/src/transfer/transfer.cpp, HandleFile: the receipt of a continuous stream comes to an end.
use space_station.Prelude.{
  All, Bool, Bool-cases, List, Result, [], ap, arith, err, false, guard, inl, inr, length, ltb, ok,
  refl, subst, suc, sym, true, zero, ℕ, ◌+◌, ◌-◌, ◌<◌, ◌∙◌, ◌∷◌, ◌≡◌, ◌≢◌, ◌≤◌, ◌⊎◌,
}
use space_station.Transfer.Stream.Missing.{start_stream-Writing}
use mathlib.Core.Bool.{false≢true}
use space_station.Transfer.Receive.Integrity.{Verified, count_missing}
use space_station.Transfer.Manifest.{
  stream_frame_mismatch, invalid_stream_frame, still_running, stream_incomplete, stream_mismatch,
}
use space_station.Transfer.Stream.Writing.{Started, Writing, write_loop-Writing}
use space_station.Transfer.Stream.Blocks.{size_of}
use space_station.Transfer.Scan.{Signature, Progress}
use space_station.Transfer.Stream.Counting.{
  Returns, todo_size, Counted, Returns->>=, write_loop-Counted, Returns-guard, is_running,
}
use space_station.Transfer.Receive.{read_all}
use space_station.Transfer.Stream.Frames.{
  after, inflate_fails, After, again, inflate_loop, receive_frame, frame_fuel, ended, Stream,
  input_used, same_upload, is_valid_frame, receive_stream, receive_frames, end_stream, is_complete,
  start_stream,
}
use space_station.Transfer.Stream.{
  expected_length, Inflated, Request, Error, fine, write_decoded, Writer, max_file_size, write_loop,
  Frame, StreamStart, missing_from, matches_start,
}
use space_station.Prelude.Bytes.{Bytes, bytes_eq, text}

-- What zlib documents of inflate: it does not give back more input than it was given, and it returns
-- Z_OK only if some input was used or some output made.
abbrev pub Progresses : {Z : Type 0} → (Z → Bytes → Inflated Z) → Type 0
Progresses {Z} inflate =
    (z : Z) (input : Bytes)
    → (length (inflate z input).rest ≤ length input)
      × ((inflate z input).code ≡ fine
          → length (inflate z input).rest < length input + length (inflate z input).produced)

after-again : {Z : Type 0} (d : Inflated Z) → after d ≡ ok again → d.code ≡ fine
unfolding after inflate_fails
after-again d h = ground arith

after-Returns : {Z : Type 0} (d : Inflated Z) → Returns (λ (n : After). Unit {0}) (after d)
unfolding after
after-Returns d = ground arith

read_all-Returns : (wire : Bytes) (n : ℕ) → Returns (λ (b : Bytes). Unit {0}) (read_all wire n)
unfolding read_all
read_all-Returns wire n = ground arith

expected_length-Returns :
    (r : Request) (is : List ℕ) (sum : ℕ)
    → Returns (λ n. n ≡ sum + todo_size r is) (expected_length r is sum)
unfolding expected_length
expected_length-Returns r [] sum = omega arith
expected_length-Returns r (i ∷ is) sum = elim (Bool-cases (ltb (max_file_size - size_of r i) sum)) [
  | inl over ↦ rw over refl
  | inr fits ↦ rw fits (
      go (expected_length r is (sum + size_of r i))
        (expected_length-Returns r is (sum + size_of r i)))
]
  where
    go :
        (m : Result Error ℕ)
        → Returns (λ n. n ≡ sum + size_of r i + todo_size r is) m
        → Returns (λ n. n ≡ sum + (size_of r i + todo_size r is)) m
    go (ok n) h = omega (arith, h)
    go (err e) h = h

module _ (sha256 : Bytes → Bytes) {Z : Type 0} (inflate : Z → Bytes → Inflated Z)
    (progresses : Progresses inflate) (r : Request)
    (sizes : All (λ (s : Signature). (0 < s.size) × (s.size ≤ r.chunk_size)) r.signatures) where
  -- The state of the writer between two calls.
  record Open (expected : ℕ) (w : Writer) : Type 0 where
    writing : Writing sha256 r sizes w
    counted : Counted r expected w

  within : (expected : ℕ) (w : Writer) → Open expected w → w.total_written ≤ expected
  within expected w o = go w.todo refl
    where
      go : (todo : List ℕ) → w.todo ≡ todo → w.total_written ≤ expected
      go [] e =
          let b : w.block_written ≡ 0 = subst (Started sha256 r sizes w) e o.writing.started in
          let c = sym (ap (λ is. w.total_written + todo_size r is) e) ∙ o.counted in
          omega (arith, b, c)
      go (i ∷ rest) e =
          let (below, long, same) = subst (Started sha256 r sizes w) e o.writing.started in
          let c = sym (ap (λ is. w.total_written + todo_size r is) e) ∙ o.counted in
          omega (arith, below, c)

  write_decoded-Open :
      (expected : ℕ) (w : Writer) (decoded : Bytes)
      → Open expected w
      → Returns
          (λ w'. Open expected w' × (w'.total_written ≡ w.total_written + length decoded))
          (write_decoded sha256 r w decoded)
  unfolding write_decoded
  write_decoded-Open expected w decoded o =
      go (write_loop sha256 r (length decoded) w decoded) refl (
        write_loop-Counted sha256 r sizes (length decoded) expected w decoded (omega arith)
          o.writing o.counted)
    where
      go :
          (m : Result Error Writer)
          → write_loop sha256 r (length decoded) w decoded ≡ m
          → Returns (Counted r expected) m
          → Returns
              (λ w'. Open expected w' × (w'.total_written ≡ w.total_written + length decoded))
              m
      go (err e) h c = c
      go (ok w') h c =
          let (v, more) =
            write_loop-Writing sha256 r sizes (length decoded) w w' decoded o.writing h in
          (record { writing = v; counted = c }, more)

  inflate_loop-Open :
      (fuel expected : ℕ) (w : Writer) (z : Z) (input : Bytes)
      → Open expected w
      → length input + expected < fuel + w.total_written
      → Returns
          (λ (found : Writer × Z × Bool). Open expected found.0)
          (inflate_loop sha256 inflate r fuel w z input)
  unfolding inflate_loop
  inflate_loop-Open zero expected w z input o enough =
      absurd (omega (arith, enough, within expected w o))
  inflate_loop-Open (suc fuel) expected w z input o enough =
      let d = inflate z input in
      Returns->>= _ (λ (found : Writer × Z × Bool). Open expected found.0)
        (write_decoded sha256 r w d.produced) _ (write_decoded-Open expected w d.produced o)
        (λ w' e u.
          Returns->>= (λ (n : After). Unit {0})
            (λ (found : Writer × Z × Bool). Open expected found.0) (after d) _ (after-Returns d)
            (λ next f t. go w' u (inflate_loop-Open fuel expected w' d.inflater d.rest u.0) next f))
    where
      go :
          (w' : Writer)
          → (Open expected w'
              × (w'.total_written ≡ w.total_written + length (inflate z input).produced))
          → (length (inflate z input).rest + expected < fuel + w'.total_written
              → Returns
                  (λ (found : Writer × Z × Bool). Open expected found.0)
                  (inflate_loop sha256 inflate r fuel w'
                    (inflate z input).inflater
                    (inflate z input).rest))
          → (next : After) → after (inflate z input) ≡ ok next
          → Returns
              (λ (found : Writer × Z × Bool). Open expected found.0)
              (elim next [
                | ended ↦ ok (w', (inflate z input).inflater, true)
                | input_used ↦ ok (w', (inflate z input).inflater, false)
                | again ↦
                    inflate_loop sha256 inflate r fuel w'
                      (inflate z input).inflater
                      (inflate z input).rest
              ])
      go w' u ih ended f = u.0
      go w' u ih input_used f = u.0
      go w' u ih again f =
          ih (omega (arith, enough, u.1, (progresses z input).1 (after-again (inflate z input) f)))

  receive_frame-Open :
      (expected : ℕ) (st : Stream Z) (f : Frame)
      → Open expected st.writer
      → Returns
          (λ (st' : Stream Z). Open expected st'.writer)
          (receive_frame sha256 inflate r expected st f)
  unfolding receive_frame frame_fuel
  receive_frame-Open expected st f o =
      Returns->>= _ (λ (st' : Stream Z). Open expected st'.writer)
        (guard (same_upload sha256 inflate r f) stream_frame_mismatch) _
        (Returns-guard _ stream_frame_mismatch refl)
        (λ u e g.
          Returns->>= _ (λ (st' : Stream Z). Open expected st'.writer)
            (guard (is_valid_frame sha256 inflate r expected st f) invalid_stream_frame) _
            (Returns-guard _ invalid_stream_frame refl)
            (λ u' e' g'.
              Returns->>= (λ (b : Bytes). Unit {0}) (λ (st' : Stream Z). Open expected st'.writer)
                (read_all f.wire f.body_length) _ (read_all-Returns f.wire f.body_length)
                (λ encoded e'' t.
                  Returns->>= (λ (found : Writer × Z × Bool). Open expected found.0)
                    (λ (st' : Stream Z). Open expected st'.writer)
                    (inflate_loop sha256 inflate r (frame_fuel sha256 inflate r expected encoded)
                      st.writer st.inflater encoded)
                    _ (inflate_loop-Open _ expected st.writer st.inflater encoded o (omega arith))
                    (λ found f' o'. o'))))

  receive_frames-Returns :
      (expected : ℕ) (st : Stream Z) (fs : List Frame)
      → Open expected st.writer
      → Returns (λ (st' : Stream Z). Unit {0}) (receive_frames sha256 inflate r expected st fs)
  unfolding receive_frames end_stream
  receive_frames-Returns expected st [] o = refl
  receive_frames-Returns expected st (f ∷ fs) o =
      elim (Bool-cases (bytes_eq f.kind (text "streamEnd"))) [
        | inl last ↦ rw last (
            Returns->>= _ (λ (st' : Stream Z). Unit {0})
              (guard (same_upload sha256 inflate r f) stream_frame_mismatch) _
              (Returns-guard _ stream_frame_mismatch refl)
              (λ u e g.
                Returns->>= _ (λ (st' : Stream Z). Unit {0})
                  (guard (is_complete sha256 inflate r expected st f) stream_incomplete) _
                  (Returns-guard _ stream_incomplete refl) (λ u' e' g'. tt)))
        | inr more ↦ rw more (
            Returns->>= (λ (st' : Stream Z). Open expected st'.writer)
              (λ (st' : Stream Z). Unit {0}) (receive_frame sha256 inflate r expected st f)
              (λ st'. receive_frames sha256 inflate r expected st' fs)
              (receive_frame-Open expected st f o)
              (λ st' e o'. receive_frames-Returns expected st' fs o'))
      ]

  -- The receipt of a continuous stream comes to an end, with a result or an error of the code, and
  -- never for want of fuel: for blocks of 1 byte up to the block size, from a plan whose matched
  -- blocks are verified and counted, for any frames of the client, if inflate does not give back more
  -- input than it was given and makes progress whenever it returns Z_OK.
  pub receive_stream-ends :
      (z : Z) (p : Progress) (remaining : ℕ) (s : StreamStart) (frames : List Frame)
      → Verified sha256 r.signatures r.chunk_size p
      → remaining ≡ count_missing p.matched
      → ((st : Stream Z) × (receive_stream sha256 inflate r z p remaining s frames ≡ ok st))
        ⊎ ((e : Error) × (receive_stream sha256 inflate r z p remaining s frames ≡ err e)
            × (e ≢ still_running))
  unfolding receive_stream
  receive_stream-ends z p remaining s frames v c =
      result (receive_stream sha256 inflate r z p remaining s frames) refl (
        Returns->>= (λ n. n ≡ 0 + todo_size r (missing_from 0 p.matched))
          (λ (st : Stream Z). Unit {0}) (expected_length r (missing_from 0 p.matched) 0) _
          (expected_length-Returns r (missing_from 0 p.matched) 0)
          (λ expected e summed.
            Returns->>= _ (λ (st : Stream Z). Unit {0})
              (guard (matches_start r s expected) stream_mismatch) _
              (Returns-guard _ stream_mismatch refl)
              (λ u e' g.
                receive_frames-Returns expected (start_stream sha256 inflate r z p remaining) frames
                  (record {
                    writing = start_stream-Writing sha256 r sizes inflate z p remaining v c;
                    counted = unfold start_stream in omega (arith, summed);
                  }))))
    where
      result :
          (m : Result Error (Stream Z))
          → receive_stream sha256 inflate r z p remaining s frames ≡ m
          → Returns (λ (st : Stream Z). Unit {0}) m
          → ((st : Stream Z) × (receive_stream sha256 inflate r z p remaining s frames ≡ ok st))
            ⊎ ((e : Error) × (receive_stream sha256 inflate r z p remaining s frames ≡ err e)
                × (e ≢ still_running))
      result (ok st) h t = inl (st, h)
      result (err e) h t = inr (e, h, λ k. false≢true (sym t ∙ ap is_running k))
