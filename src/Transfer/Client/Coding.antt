-- ===== src/Transfer/Client/Coding.antt =====
-- backend/src/transfer/transfer.cpp: a body that the client codes is one that the server decodes.
use space_station.Prelude.{
  ==_refl, Bool, Bool-cases, List, Option, [], ap, arith, false, get_or, inl, inr, leb, length, ltb,
  none, ok, refl, some, suc, take, true, zero, ℕ, ◌*◌, ◌<◌, ◌==◌, ◌∙◌, ◌∷◌, ◌≡◌, ◌≤◌, ◌⊎◌,
}
use space_station.Transfer.Manifest.{max_chunk_body}
use space_station.Transfer.Scan.{Progress}
use space_station.Prelude.Bytes.{Bytes, bytes_eq_refl, bytes_eq}
use space_station.Transfer.Client.{
  encode_block, try_compress_zlib, chosen, shorter, no_compression, Request, zlib, Chunk,
  no_signature,
}
use space_station.Transfer.Receive.{is_valid_chunk, decode_body, read_all, decompress_zlib}

-- What zlib documents: uncompress gives back what compress2 was given.
abbrev pub GivesBack : (Bytes → Option Bytes) → (Bytes → ℕ → Option Bytes) → Type 0
GivesBack compress uncompress =
    (content compressed : Bytes)
    → compress content ≡ some compressed
    → uncompress compressed (length content) ≡ some content

take_all : {A : Type 0} (xs : List A) → take (length xs) xs ≡ xs
take_all [] = refl
take_all (x ∷ xs) = ap (λ ys. x ∷ ys) (take_all xs)

pub take-length-take : {A : Type 0} (n : ℕ) (xs : List A) → take (length (take n xs)) xs ≡ take n xs
take-length-take zero xs = refl
take-length-take (suc n) [] = refl
take-length-take (suc n) (x ∷ xs) = ap (λ ys. x ∷ ys) (take-length-take n xs)

-- How a chunk says that its body is coded.
abbrev pub Coded : (Bytes → ℕ → Option Bytes) → Bytes → Bytes × Bytes → Type 0
Coded uncompress block coded =
    ((coded.0 ≡ no_compression) × (coded.1 ≡ block))
    ⊎ ((coded.0 ≡ zlib)
        × (0 < length coded.1)
        × (length coded.1 < length block)
        × (uncompress coded.1 (length block) ≡ some block))

-- What TryCompressZlib returns.
abbrev Compressed : (Bytes → ℕ → Option Bytes) → Bytes → Bytes → Type 0
Compressed uncompress block compressed =
    (length compressed < length block) × (uncompress compressed (length block) ≡ some block)

chosen-Coded :
    (uncompress : Bytes → ℕ → Option Bytes) (block compressed : Bytes)
    → (compressed ≡ []) ⊎ Compressed uncompress block compressed
    → Coded uncompress block (chosen block compressed)
unfolding chosen
chosen-Coded uncompress block [] h = rw (bytes_eq_refl []) (inl (refl, refl))
chosen-Coded uncompress block (x ∷ xs) h =
    let e : bytes_eq (x ∷ xs) [] ≡ false = unfold bytes_eq in refl in
    rw e (elim h [
      | inl k ↦ absurd (omega (arith, ap length k))
      | inr k ↦ inr (refl, omega arith, k.0, k.1)
    ])

try_compress_zlib-Compressed :
    (compress : Bytes → Option Bytes) (uncompress : Bytes → ℕ → Option Bytes)
    → GivesBack compress uncompress
    → (block : Bytes)
    → (try_compress_zlib compress block ≡ [])
      ⊎ Compressed uncompress block (try_compress_zlib compress block)
unfolding try_compress_zlib shorter
try_compress_zlib-Compressed compress uncompress back block =
    elim (Bool-cases (length block == 0)) [
      | inl empty ↦ rw empty (inl refl)
      | inr full ↦ rw full (go (compress block) refl)
    ]
  where
    go :
        (o : Option Bytes)
        → compress block ≡ o
        → (shorter block o ≡ []) ⊎ Compressed uncompress block (shorter block o)
    go none e = inl refl
    go (some compressed) e = elim (Bool-cases (leb (length block) (length compressed))) [
      | inl long ↦ rw long (inl refl)
      | inr short ↦ rw short (inr (less _ _ short, back block compressed e))
    ]
      where
        less : (a b : ℕ) → leb a b ≡ false → b < a
        less a b h = ground arith

pub encode_block-Coded :
    (compress : Bytes → Option Bytes) (uncompress : Bytes → ℕ → Option Bytes)
    → GivesBack compress uncompress
    → (supports_zlib : Bool) (block : Bytes)
    → Coded uncompress block (encode_block compress supports_zlib block)
unfolding encode_block
encode_block-Coded compress uncompress back false block =
    chosen-Coded uncompress block [] (inl refl)
encode_block-Coded compress uncompress back true block =
    chosen-Coded uncompress block (try_compress_zlib compress block)
      (try_compress_zlib-Compressed compress uncompress back block)

pub valid_intro :
    (r : Request) (p : Progress) (c : Chunk)
    → c.chunk_index < length r.signatures
    → get_or p.matched c.chunk_index false ≡ false
    → ((bytes_eq c.compression_algorithm no_compression ≡ true)
        × (c.body_length ≡ c.uncompressed_length))
      ⊎ ((bytes_eq c.compression_algorithm no_compression ≡ false)
          × (bytes_eq c.compression_algorithm zlib ≡ true)
          × (c.body_length < c.uncompressed_length))
    → c.uncompressed_length ≡ (get_or r.signatures c.chunk_index no_signature).size
    → c.target_offset ≡ c.chunk_index * r.chunk_size
    → 0 < c.body_length
    → c.uncompressed_length ≤ max_chunk_body
    → bytes_eq c.strong_hash (get_or r.signatures c.chunk_index no_signature).strong ≡ true
    → is_valid_chunk r p c ≡ true
unfolding is_valid_chunk
valid_intro r p c below new (inl (plain, same)) size offset some_body short strong = ground arith
valid_intro r p c below new (inr (coded, zipped, less)) size offset some_body short strong =
    ground arith

-- The server reads back the block.
pub decode_body-Coded :
    (uncompress : Bytes → ℕ → Option Bytes) (c : Chunk) (block : Bytes)
    → Coded uncompress block (c.compression_algorithm, c.wire)
    → c.body_length ≡ length c.wire
    → c.uncompressed_length ≡ length block
    → 0 < length block
    → decode_body uncompress c ≡ ok block
unfolding decode_body read_all decompress_zlib
decode_body-Coded uncompress c block (inl (plain, same)) body size some_body =
    let e : bytes_eq c.compression_algorithm zlib ≡ false =
      ap (λ a. bytes_eq a zlib) plain ∙ unfold bytes_eq in refl in
    rw (body, irreflexive (length c.wire), take_all c.wire, e) (ap ok same)
  where
    irreflexive : (n : ℕ) → ltb n n ≡ false
    irreflexive n = ground arith
decode_body-Coded uncompress c block (inr (zipped, _, _, back)) body size some_body =
    let e : bytes_eq c.compression_algorithm zlib ≡ true =
      ap (λ a. bytes_eq a zlib) zipped ∙ bytes_eq_refl zlib in
    rw
      (
        body,
        irreflexive (length c.wire),
        take_all c.wire,
        e,
        size,
        nonzero (length block) some_body,
        back,
        ==_refl (length block),
      )
      refl
  where
    irreflexive : (n : ℕ) → ltb n n ≡ false
    irreflexive n = ground arith

    nonzero : (n : ℕ) → 0 < n → n == 0 ≡ false
    nonzero n h = ground arith
