-- ===== src/Transfer/Receive/Integrity.antt =====
-- backend/src/transfer/transfer.cpp: a block that is marked as matched holds bytes whose hash is the
-- announced one, however it came there.
use space_station.Prelude.{
  ==_iff, All, Bool, Bool-cases, List, [], ap, arith, false, get_or, get_or-set_ne, inl, inr,
  length, length-set, ltb, ltb→le, ltb→lt, not, refl, replicate, set, suc, sym, true, zero, ℕ, ◌&&◌,
  ◌*◌, ◌+◌, ◌<◌, ◌==◌, ◌∙◌, ◌∷◌, ◌≡◌, ◌≢◌, ◌≤◌, ◌⊎◌,
}
use space_station.Transfer.Disk.{slice, write_at, slice-write_at, slice-write_at_apart}
use space_station.Prelude.Bytes.{Bytes, bytes_eq, bytes_eq_sound}
use space_station.Transfer.Scan.{Signature, Progress, no_signature, try_targets}

and_right : (a b : Bool) → (a && b) ≡ true → b ≡ true
and_right a b h = ground arith

-- `matched`, `output` against the announced blocks.
pub record Verified (sha256 : Bytes → Bytes) (signatures : List Signature) (chunk_size : ℕ)
    (p : Progress) : Type 0 where
  pub same_length : length p.matched ≡ length signatures
  pub hashed :
      (i : ℕ)
      → get_or p.matched i false ≡ true
      → sha256 (slice p.output (i * chunk_size) (get_or signatures i no_signature).size)
        ≡ (get_or signatures i no_signature).strong

mul_mono : (i j c : ℕ) → i ≤ j → i * c ≤ j * c
mul_mono i j c h = grind arith

next_block : (i j c : ℕ) → i < j → i * c + c ≤ j * c
next_block i j c h = omega (arith, mul_mono (i + 1) j c (omega arith))

lt_of_le_ne : {i j : ℕ} → j ≤ i → i ≢ j → j < i
lt_of_le_ne h n = ground arith

pub blocks_apart :
    (i j c s t : ℕ) → i ≢ j → s ≤ c → t ≤ c → (i * c + s ≤ j * c) ⊎ (j * c + t ≤ i * c)
blocks_apart i j c s t h hs ht = elim (Bool-cases (ltb i j)) [
  | inl low ↦ inl (omega (arith, next_block i j c (ltb→lt i j low)))
  | inr high ↦ inr (omega (arith, next_block j i c (lt_of_le_ne (ltb→le i j high) h)))
]

pub size_at :
    (c : ℕ) (ss : List Signature) (i : ℕ)
    → All (λ (s : Signature). s.size ≤ c) ss
    → (get_or ss i no_signature).size ≤ c
size_at c [] i h = omega arith
size_at c (s ∷ ss) zero h = h.0
size_at c (s ∷ ss) (suc i) h = size_at c ss i h.1

pub size_max :
    (c : ℕ) (ss : List Signature)
    → All (λ (s : Signature). (0 < s.size) × (s.size ≤ c)) ss
    → All (λ (s : Signature). s.size ≤ c) ss
size_max c [] h = tt
size_max c (s ∷ ss) h = (h.0.1, size_max c ss h.1)

module _ (sha256 : Bytes → Bytes) (signatures : List Signature) (chunk_size : ℕ)
    (sizes : All (λ (s : Signature). s.size ≤ chunk_size) signatures) where
  -- Writing a block of the announced size and hash where it belongs, and marking it.
  pub write-Verified :
      (p : Progress) (index : ℕ) (body : Bytes) (n : ℕ)
      → length body ≡ (get_or signatures index no_signature).size
      → sha256 body ≡ (get_or signatures index no_signature).strong
      → Verified sha256 signatures chunk_size p
      → Verified sha256 signatures chunk_size (record {
        matched = set p.matched index true;
        output = write_at p.output (index * chunk_size) body;
        matched_bytes = n;
      })
  write-Verified p index body n hl hh v = record {
    same_length = length-set p.matched index true ∙ v.same_length;
    hashed = λ i m. elim (Bool-cases (index == i)) [
      | inl same ↦
          let e : index ≡ i = (==_iff index i).0 same in
          rw (← e) (
            ap
              (λ k.
                sha256 (slice (write_at p.output (index * chunk_size) body) (index * chunk_size) k))
              (sym hl)
            ∙ ap sha256 (slice-write_at p.output (index * chunk_size) body)
            ∙ hh)
      | inr other ↦
          let ne : index ≢ i = (λ e. ground arith) in
          ap sha256 (
            slice-write_at_apart p.output (index * chunk_size) body (i * chunk_size)
              (get_or signatures i no_signature).size
              (blocks_apart i index chunk_size _ (length body) (λ e. ne (sym e))
                (size_at chunk_size signatures i sizes)
                (rw hl (size_at chunk_size signatures index sizes))))
          ∙ v.hashed i (sym (get_or-set_ne p.matched index i true false ne) ∙ m)
    ];
  }

  -- A scan of a file on the server, for a table whose targets have the window's size.
  pub try_targets-Verified :
      (targets : List ℕ) (ordered : Bytes) (p : Progress)
      → All (λ t. (get_or signatures t no_signature).size ≡ length ordered) targets
      → Verified sha256 signatures chunk_size p
      → Verified sha256 signatures chunk_size
          (try_targets sha256 signatures chunk_size targets ordered p)
  unfolding try_targets
  try_targets-Verified [] ordered p h v = v
  try_targets-Verified (t ∷ ts) ordered p h v =
      elim (Bool-cases (
        not (get_or p.matched t false)
        && bytes_eq (get_or signatures t no_signature).strong (sha256 ordered))) [
          | inl hit ↦ rw hit (
              try_targets-Verified ts ordered _ h.1 (
                write-Verified p t ordered _ (sym h.0)
                  (sym (bytes_eq_sound _ _ (and_right _ _ hit))) v))
          | inr miss ↦ rw miss (try_targets-Verified ts ordered p h.1 v)
        ]

-- What is still missing.
abbrev pub count_missing : List Bool → ℕ
count_missing [] = 0
count_missing (true ∷ ms) = count_missing ms
count_missing (false ∷ ms) = suc (count_missing ms)

pub count_missing-set :
    (ms : List Bool) (i : ℕ)
    → i < length ms
    → get_or ms i false ≡ false
    → suc (count_missing (set ms i true)) ≡ count_missing ms
count_missing-set [] i h e = absurd (omega arith)
count_missing-set (true ∷ ms) zero h e = cc
count_missing-set (false ∷ ms) zero h e = refl
count_missing-set (true ∷ ms) (suc i) h e = count_missing-set ms i (omega arith) e
count_missing-set (false ∷ ms) (suc i) h e = ap suc (count_missing-set ms i (omega arith) e)

pub none_missing : (ms : List Bool) → count_missing ms ≡ 0 → ms ≡ replicate (length ms) true
none_missing [] h = refl
none_missing (true ∷ ms) h = ap (λ l. true ∷ l) (none_missing ms h)
none_missing (false ∷ ms) h = absurd (omega arith)
