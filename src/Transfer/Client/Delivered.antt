-- ===== src/Transfer/Client/Delivered.antt =====
-- backend/src/transfer/transfer.cpp: the server takes every block that the client sends.
use space_station.Prelude.{
  ==_iff, ==_refl, Bool, List, Option, [], ap, arith, false, inl, inr, length-set, ok, refl, sym,
  true, ℕ, ◌*◌, ◌++◌, ◌<◌, ◌==◌, ◌∙◌, ◌∷◌, ◌≡◌, ◌≤◌, ◌⊎◌,
}
use space_station.Transfer.Stream.Missing.{
  missing_from-Pending_all, missing_from-Ascending, length-missing_from,
}
use space_station.Transfer.Client.Announced.{build_loop-block, sizes_max}
use space_station.Transfer.Stream.Blocks.{Pending, Ascending, Pending-set}
use space_station.Transfer.Receive.Integrity.{Verified}
use space_station.Transfer.Stream.{missing_from}
use space_station.Transfer.Receive.Complete.{Inv, receive_all-Verified}
use space_station.Transfer.Manifest.{max_chunk_body}
use space_station.Transfer.Receive.{
  State, receive_chunk, receive_all, matches_session, store_block, is_valid_chunk, decode_body,
}
use space_station.Transfer.Client.Coding.{
  GivesBack, take-length-take, encode_block-Coded, valid_intro, decode_body-Coded,
}
use space_station.Transfer.Client.{
  start_file, Request, send_chunk, send_chunks, Chunk, no_signature, no_compression, encode_block,
  signature_of, zlib, build_signatures, Signature,
}
use space_station.Prelude.Bytes.{Bytes, bytes_eq, text, bytes_eq_refl}
use mathlib.Core.List.{append-nil, append_assoc}
use space_station.Prelude.{length, take, get_or, drop, length-take, replicate}

-- The signatures are those of the content's blocks.
abbrev pub Announces : (Bytes → Bytes) → Request → Bytes → Type 0
Announces sha256 r content =
    (i : ℕ)
    → i < length r.signatures
    → (get_or r.signatures i no_signature
        ≡ signature_of sha256 (take r.chunk_size (drop (i * r.chunk_size) content)))
      × (0 < length (take r.chunk_size (drop (i * r.chunk_size) content)))

module _ (sha256 : Bytes → Bytes) (compress : Bytes → Option Bytes)
    (uncompress : Bytes → ℕ → Option Bytes) (back : GivesBack compress uncompress)
    (supports_zlib : Bool) (r : Request) (content : Bytes) (announces : Announces sha256 r content)
    (small : r.chunk_size ≤ max_chunk_body) where
  abbrev block_at : ℕ → Bytes
  block_at i = take r.chunk_size (drop (i * r.chunk_size) content)

  -- The message of a block.
  abbrev message : ℕ → Chunk
  message i = record {
    kind = text "chunk";
    session_id = r.session_id;
    file_id = r.file_id;
    chunk_index = i;
    body_length = length (encode_block compress supports_zlib (block_at i)).1;
    uncompressed_length = length (block_at i);
    compression_algorithm = (encode_block compress supports_zlib (block_at i)).0;
    target_offset = i * r.chunk_size;
    strong_hash = sha256 (block_at i);
    wire = (encode_block compress supports_zlib (block_at i)).1;
  }

  send_chunk-message :
      (i : ℕ)
      → i < length r.signatures
      → send_chunk compress supports_zlib r content i ≡ ok (message i)
  unfolding send_chunk
  send_chunk-message i below =
      let (e, _) = announces i below in
      rw
        (
          e,
          take-length-take r.chunk_size (drop (i * r.chunk_size) content),
          ==_refl (length (block_at i)),
        )
        refl

  coded_message :
      (i : ℕ)
      → 0 < length (block_at i)
      → (0 < (message i).body_length)
        × (((bytes_eq (message i).compression_algorithm no_compression ≡ true)
              × ((message i).body_length ≡ length (block_at i)))
            ⊎ ((bytes_eq (message i).compression_algorithm no_compression ≡ false)
                × (bytes_eq (message i).compression_algorithm zlib ≡ true)
                × ((message i).body_length < length (block_at i))))
  coded_message i some_body =
      elim (encode_block-Coded compress uncompress back supports_zlib (block_at i)) [
        | inl (plain, same) ↦
            let e = ap length same in
            (
              omega (arith, e, some_body),
              inl (ap (λ a. bytes_eq a no_compression) plain ∙ bytes_eq_refl no_compression, e),
            )
        | inr (zipped, more, less, _) ↦ (
          more,
          inr (
            ap (λ a. bytes_eq a no_compression) zipped ∙ unfold bytes_eq in refl,
            ap (λ a. bytes_eq a zlib) zipped ∙ bytes_eq_refl zlib,
            less,
          ),
        )
      ]

  message_received :
      (st : State) (i : ℕ)
      → i < length r.signatures
      → get_or st.progress.matched i false ≡ false
      → receive_chunk sha256 uncompress r st (message i)
        ≡ ok (store_block sha256 uncompress r st i (block_at i))
  unfolding receive_chunk matches_session
  message_received st i below new =
      let (e, some_body) = announces i below in
      let (more, coded) = coded_message i some_body in
      let sized : length (block_at i) ≤ r.chunk_size =
        omega (arith, length-take r.chunk_size (drop (i * r.chunk_size) content)) in
      let valid : is_valid_chunk r st.progress (message i) ≡ true =
        valid_intro r st.progress (message i) below new coded
          (ap (λ (s : Signature). s.size) (sym e)) refl more (omega (arith, sized, small))
          (ap (λ (s : Signature). bytes_eq (sha256 (block_at i)) s.strong) e
            ∙ bytes_eq_refl (sha256 (block_at i))) in
      let decoded : decode_body uncompress (message i) ≡ ok (block_at i) =
        decode_body-Coded uncompress (message i) (block_at i)
          (encode_block-Coded compress uncompress back supports_zlib (block_at i)) refl refl
          some_body in
      let hashed : bytes_eq (sha256 (block_at i)) (get_or r.signatures i no_signature).strong
          ≡ true =
        ap (λ (s : Signature). bytes_eq (sha256 (block_at i)) s.strong) e
        ∙ bytes_eq_refl (sha256 (block_at i)) in
      rw
        (
          bytes_eq_refl (text "chunk"),
          bytes_eq_refl r.session_id,
          bytes_eq_refl r.file_id,
          valid,
          decoded,
          hashed,
        )
        refl

  -- The messages of the blocks in `is` are taken one after the other.
  send_chunks_received :
      (is : List ℕ) (st : State)
      → length st.progress.matched ≡ length r.signatures
      → Pending st.progress.matched is
      → Ascending is
      → st.remaining ≡ length is
      → (cs : List Chunk) × (send_chunks compress supports_zlib r content is ≡ ok cs)
        × ((st' : State) × (receive_all sha256 uncompress r st cs ≡ ok st')
            × (st'.acknowledged ≡ st.acknowledged ++ is))
  unfolding send_chunks receive_all
  send_chunks_received [] st long pending ascending count =
      ([], refl, (st, rw ((==_iff st.remaining 0).1 count) refl, sym (append-nil st.acknowledged)))
  send_chunks_received (i ∷ is) st long pending ascending count =
      let below : i < length r.signatures = omega (arith, pending.0.0, long) in
      let next = store_block sha256 uncompress r st i (block_at i) in
      let (cs, sent, (st', received, acked)) =
        send_chunks_received is next
          (unfold store_block in length-set st.progress.matched i true ∙ long)
          (unfold store_block in Pending-set st.progress.matched i is ascending.0 pending.1)
          ascending.1 (unfold store_block in omega (arith, count)) in
      let some_left : st.remaining == 0 ≡ false = positive st.remaining (omega (arith, count)) in
      (
        message i ∷ cs,
        rw (send_chunk-message i below, sent) refl,
        (
          st',
          rw (some_left, message_received st i below pending.0.1) received,
          acked ∙ unfold store_block in append_assoc st.acknowledged (i ∷ []) is,
        ),
      )
    where
      positive : (n : ℕ) → 0 < n → n == 0 ≡ false
      positive n h = ground arith

-- The server takes everything that the client sends for its plan, and nothing is missing then: for any
-- plan whose matched blocks are verified and counted, for a file announced by the client with blocks of
-- 1 byte up to the greatest body of a message, if uncompress gives back what compress2 was given, the
-- client sends a message for each missing block, the server's loop over them ends without an error, it
-- has acknowledged just the missing blocks, in order, and every block of the temporary file has its hash.
pub upload_delivered :
    (sha256 : Bytes → Bytes) (compress : Bytes → Option Bytes)
    (uncompress : Bytes → ℕ → Option Bytes) (supports_zlib : Bool) (chunk_size : ℕ)
    (session_id file_id name content : Bytes) (st : State)
    → GivesBack compress uncompress
    → 0 < chunk_size
    → chunk_size ≤ max_chunk_body
    → Inv sha256 (start_file sha256 chunk_size session_id file_id name content) st
    → (cs : List Chunk) × (send_chunks compress supports_zlib
          (start_file sha256 chunk_size session_id file_id name content)
          content
          (missing_from 0 st.progress.matched)
        ≡ ok cs)
      × ((st' : State) × (receive_all sha256 uncompress
              (start_file sha256 chunk_size session_id file_id name content)
              st
              cs
            ≡ ok st')
          × (st'.acknowledged ≡ st.acknowledged ++ missing_from 0 st.progress.matched)
          × Verified sha256 (build_signatures sha256 chunk_size content) chunk_size st'.progress
          × (st'.progress.matched
              ≡ replicate (length (build_signatures sha256 chunk_size content)) true))
unfolding start_file
upload_delivered sha256 compress uncompress supports_zlib chunk_size session_id file_id name content
      st back positive small v =
    let r = start_file sha256 chunk_size session_id file_id name content in
    let todo = missing_from 0 st.progress.matched in
    let announces : Announces sha256 r content =
      unfold build_signatures in
      (λ i below. build_loop-block sha256 chunk_size positive (length content) content i below) in
    let (cs, sent, (st', received, acked)) =
      send_chunks_received sha256 compress uncompress back supports_zlib r content announces small
        todo st v.verified.same_length (missing_from-Pending_all st.progress.matched)
        (missing_from-Ascending 0 st.progress.matched)
        (v.counted ∙ sym (length-missing_from 0 st.progress.matched)) in
    let (verified, full) =
      receive_all-Verified sha256 uncompress r st st' cs
        (unfold build_signatures in sizes_max sha256 chunk_size (length content) content) v
        received in
    (cs, sent, (st', received, acked, verified, full))
