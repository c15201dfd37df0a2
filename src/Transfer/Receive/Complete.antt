-- ===== src/Transfer/Receive/Complete.antt =====
-- backend/src/transfer/transfer.cpp: when the loop over the chunks ends, nothing is missing.
use space_station.Prelude.{
  >>=-eq-ok, All, Bool-cases, List, Option, [], ap, arith, false, get_or, guard, guard-eq-ok, inl,
  inr, length, length-take, ok, replicate, subst, suc, sym, take, true, ℕ, ◌*◌, ◌<◌, ◌==◌, ◌∙◌, ◌∷◌,
  ◌≡◌, ◌≤◌, ==_iff,
}
use space_station.Transfer.Scan.{no_signature, Progress, Signature}
use space_station.Transfer.Receive.Integrity.{
  Verified, count_missing, none_missing, count_missing-set, write-Verified,
}
use space_station.Transfer.Receive.{
  State, receive_chunk, read_all, decompress_zlib, is_valid_chunk, Chunk, store_block, decode_body,
  zlib, matches_session, receive_all,
}
use space_station.Transfer.Manifest.{Request, session_mismatch, invalid_chunk, hash_mismatch}
use space_station.Prelude.Bytes.{Bytes, bytes_eq, bytes_eq_sound}

-- The state between two chunks.
pub record Inv (sha256 : Bytes → Bytes) (r : Request) (st : State) : Type 0 where
  pub verified : Verified sha256 r.signatures r.chunk_size st.progress
  pub counted : st.remaining ≡ count_missing st.progress.matched

-- What the tests of a chunk's description give.
valid_facts :
    (r : Request) (p : Progress) (c : Chunk)
    → is_valid_chunk r p c ≡ true
    → (c.chunk_index < length r.signatures)
      × (get_or p.matched c.chunk_index false ≡ false)
      × (c.uncompressed_length ≡ (get_or r.signatures c.chunk_index no_signature).size)
      × (bytes_eq c.compression_algorithm zlib ≡ false → c.body_length ≡ c.uncompressed_length)
      × (c.target_offset ≡ c.chunk_index * r.chunk_size)
unfolding is_valid_chunk
valid_facts r p c h = ground arith

decompress_zlib-length :
    (uncompress : Bytes → ℕ → Option Bytes) (encoded : Bytes) (n : ℕ) (body : Bytes)
    → decompress_zlib uncompress encoded n ≡ ok body
    → length body ≡ n
unfolding decompress_zlib
decompress_zlib-length uncompress encoded n body h = ground arith

decode_body-length :
    (uncompress : Bytes → ℕ → Option Bytes) (c : Chunk) (body : Bytes)
    → (bytes_eq c.compression_algorithm zlib ≡ false → c.body_length ≡ c.uncompressed_length)
    → decode_body uncompress c ≡ ok body
    → length body ≡ c.uncompressed_length
unfolding decode_body read_all
decode_body-length uncompress c body p h = ground (
  arith,
  decompress_zlib-length uncompress (take c.body_length c.wire) c.uncompressed_length body,
  length-take c.body_length c.wire,
)

module _ (sha256 : Bytes → Bytes) (uncompress : Bytes → ℕ → Option Bytes) (r : Request) where
  -- What the tests of a chunk that was accepted give.
  accepted :
      (st st' : State) (c : Chunk)
      → receive_chunk sha256 uncompress r st c ≡ ok st'
      → (body : Bytes) × (st' ≡ store_block sha256 uncompress r st c.chunk_index body)
        × (length body ≡ (get_or r.signatures c.chunk_index no_signature).size)
        × (sha256 body ≡ (get_or r.signatures c.chunk_index no_signature).strong)
        × (c.chunk_index < length r.signatures)
        × (get_or st.progress.matched c.chunk_index false ≡ false)
  unfolding receive_chunk
  accepted st st' c h =
      let (_, session, h₁) = >>=-eq-ok (guard (matches_session r c) session_mismatch) _ h in
      let (_, valid, h₂) = >>=-eq-ok (guard (is_valid_chunk r st.progress c) invalid_chunk) _ h₁ in
      let (body, decoded, h₃) = >>=-eq-ok (decode_body uncompress c) _ h₂ in
      let (_, same, h₄) =
        >>=-eq-ok
          (guard (bytes_eq (sha256 body) (get_or r.signatures c.chunk_index no_signature).strong)
            hash_mismatch)
          _ h₃ in
      let (below, new, size, plain, _) = valid_facts r st.progress c (guard-eq-ok _ _ valid) in
      (
        body,
        (cc h₄),
        decode_body-length uncompress c body plain decoded ∙ size,
        bytes_eq_sound _ _ (guard-eq-ok _ _ same),
        below,
        new,
      )

  receive_chunk-Inv :
      (st st' : State) (c : Chunk)
      → All (λ (s : Signature). s.size ≤ r.chunk_size) r.signatures
      → receive_chunk sha256 uncompress r st c ≡ ok st'
      → Inv sha256 r st
      → Inv sha256 r st' × (suc st'.remaining ≡ st.remaining)
  receive_chunk-Inv st st' c sizes h v =
      let (body, e, hl, hh, below, new) = accepted st st' c h in
      let one_less =
        count_missing-set st.progress.matched c.chunk_index (omega (arith, v.verified.same_length))
          new in
      subst (λ (t : State). Inv sha256 r t × (suc t.remaining ≡ st.remaining)) (sym e)
        (
          record {
            verified =
                unfold store_block in
                write-Verified sha256 r.signatures r.chunk_size sizes st.progress c.chunk_index body
                  _ hl hh v.verified;
            counted = unfold store_block in omega (arith, v.counted);
          },
          unfold store_block in omega (arith, v.counted),
        )

  loop :
      (st st' : State) (cs : List Chunk)
      → All (λ (s : Signature). s.size ≤ r.chunk_size) r.signatures
      → Inv sha256 r st
      → receive_all sha256 uncompress r st cs ≡ ok st'
      → Inv sha256 r st' × (st'.remaining ≡ 0)
  unfolding receive_all
  loop st st' [] sizes v h = elim (Bool-cases (st.remaining == 0)) [
    | inl z ↦
        let e : st ≡ st' = ground arith in
        (subst (Inv sha256 r) e v, (ap (λ (t : State). t.remaining) (sym e) ∙ (==_iff _ _).0 z))
    | inr nz ↦ ground arith
  ]
  loop st st' (c ∷ cs) sizes v h = elim (Bool-cases (st.remaining == 0)) [
    | inl z ↦
        let e : st ≡ st' = ground arith in
        (subst (Inv sha256 r) e v, (ap (λ (t : State). t.remaining) (sym e) ∙ (==_iff _ _).0 z))
    | inr nz ↦
        let (mid, e, h') =
          >>=-eq-ok (receive_chunk sha256 uncompress r st c)
            (λ t. receive_all sha256 uncompress r t cs) (rw nz at h) in
        loop mid st' cs sizes (receive_chunk-Inv st mid c sizes e v).0 h'
  ]

  -- If the chunk loop ends without an error, then every block of the temporary file has the hash
  -- that was announced for it, and none is missing: for an announcement whose blocks are no longer
  -- than the block size, from a plan whose matched blocks are verified and counted, and for any
  -- messages of the client.
  pub receive_all-Verified :
      (st st' : State) (cs : List Chunk)
      → All (λ (s : Signature). s.size ≤ r.chunk_size) r.signatures
      → Inv sha256 r st
      → receive_all sha256 uncompress r st cs ≡ ok st'
      → Verified sha256 r.signatures r.chunk_size st'.progress
        × (st'.progress.matched ≡ replicate (length r.signatures) true)
  receive_all-Verified st st' cs sizes v h = finish st' (loop st st' cs sizes v h)
    where
      finish :
          (t : State)
          → Inv sha256 r t × (t.remaining ≡ 0)
          → Verified sha256 r.signatures r.chunk_size t.progress
            × (t.progress.matched ≡ replicate (length r.signatures) true)
      finish t (w, z) = (
        w.verified,
        none_missing t.progress.matched (sym w.counted ∙ z)
            ∙ ap (λ n. replicate n true) w.verified.same_length,
      )
