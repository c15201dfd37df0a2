-- ===== src/Transfer/Stream/Blocks.antt =====
-- backend/src/transfer/transfer.cpp, HandleFile: what a write within a block that is missing leaves alone.
use mathlib.Core.Bool.{false≢true}
use space_station.Prelude.{
  ==_iff, All, Bool, Bool-cases, List, [], ap, ap₂, arith, false, get_or, get_or-set_ne, inl, inr,
  length, length-set, set, subst, suc, sym, true, zero, ℕ, ◌*◌, ◌++◌, ◌+◌, ◌<◌, ◌==◌, ◌∙◌, ◌∷◌, ◌≡◌,
  ◌≢◌, ◌≤◌, ◌⊎◌,
}
use space_station.Transfer.Receive.Integrity.{size_at, Verified, blocks_apart, size_max}
use space_station.Transfer.Manifest.{Request}
use space_station.Prelude.Bytes.{Bytes}
use space_station.Transfer.Disk.{File, slice, write_at, slice-write_at_apart, slice-write_at}
use space_station.Transfer.Scan.{Signature, no_signature, Progress}

-- An index list in order.
abbrev pub Ascending : List ℕ → Type 0
Ascending [] = Unit {0}
Ascending (i ∷ is) = All (λ j. i < j) is × Ascending is

-- The blocks that are not matched.
abbrev pub Pending : List Bool → List ℕ → Type 0
Pending matched is = All (λ i. (i < length matched) × (get_or matched i false ≡ false)) is

pub Pending-set :
    (ms : List Bool) (i : ℕ) (js : List ℕ)
    → All (λ j. i < j) js
    → Pending ms js
    → Pending (set ms i true) js
Pending-set ms i [] a p = tt
Pending-set ms i (j ∷ js) a p =
    let ne : i ≢ j = (λ e. omega (arith, a.0, e)) in
    (
      (omega (arith, p.0.0, length-set ms i true), get_or-set_ne ms i j true false ne ∙ p.0.1),
      Pending-set ms i js a.1 p.1,
    )

slice-append : (f : File) (o a b : ℕ) → slice f o (a + b) ≡ slice f o a ++ slice f (o + a) b
unfolding slice
slice-append f o zero b =
    let e : b ≡ 0 + b = omega arith in
    let e' : o ≡ o + 0 = omega arith in ap (slice f o) (sym e) ∙ ap (λ k. slice f k b) e'
slice-append f o (suc a) b =
    let e : suc a + b ≡ suc (a + b) = omega arith in
    let e' : o + 1 + a ≡ o + suc a = omega arith in
    ap (slice f o) e
    ∙ ap (λ xs. f.at o ∷ xs)
        (slice-append f (o + 1) a b ∙ ap (λ k. slice f (o + 1) a ++ slice f k b) e')

-- A write behind `n` bytes that were read.
pub slice-grown :
    (f : File) (o n : ℕ) (part : Bytes)
    → slice (write_at f (o + n) part) o (n + length part) ≡ slice f o n ++ part
slice-grown f o n part =
    slice-append (write_at f (o + n) part) o n (length part)
    ∙ ap₂ (λ x y. x ++ y) (slice-write_at_apart f (o + n) part o n (inl (omega arith)))
        (slice-write_at f (o + n) part)

pub size_min :
    (ss : List Signature) (i c : ℕ)
    → All (λ (s : Signature). (0 < s.size) × (s.size ≤ c)) ss
    → i < length ss
    → 0 < (get_or ss i no_signature).size
size_min [] i c h l = absurd (omega arith)
size_min (s ∷ ss) zero c h l = h.0.0
size_min (s ∷ ss) (suc i) c h l = size_min ss i c h.1 (omega arith)

abbrev pub size_of : Request → ℕ → ℕ
size_of r i = (get_or r.signatures i no_signature).size

module _ (sha256 : Bytes → Bytes) (r : Request)
    (sizes : All (λ (s : Signature). (0 < s.size) × (s.size ≤ r.chunk_size)) r.signatures) where
  most : (i : ℕ) → size_of r i ≤ r.chunk_size
  most i = size_at r.chunk_size r.signatures i (size_max r.chunk_size r.signatures sizes)

  -- Bytes that are written into a block that is not matched.
  pub part-Verified :
      (p : Progress) (i n : ℕ) (part : Bytes)
      → n + length part ≤ size_of r i
      → get_or p.matched i false ≡ false
      → Verified sha256 r.signatures r.chunk_size p
      → Verified sha256 r.signatures r.chunk_size
          (record p { output = write_at p.output (i * r.chunk_size + n) part })
  part-Verified p i n part fits free v = record {
    same_length = v.same_length;
    hashed = λ j m.
        let ne : j ≢ i =
          (λ e. false≢true (sym free ∙ ap (λ k. get_or p.matched k false) (sym e) ∙ m)) in
        ap sha256 (
          slice-write_at_apart p.output (i * r.chunk_size + n) part (j * r.chunk_size) (size_of r j)
            (beside j i (size_of r j) (size_of r i) n (length part) fits
              (blocks_apart j i r.chunk_size (size_of r j) (size_of r i) ne (most j) (most i))))
        ∙ v.hashed j m;
  }
    where
      beside :
          (j k s t n l : ℕ)
          → n + l ≤ t
          → (j * r.chunk_size + s ≤ k * r.chunk_size) ⊎ (k * r.chunk_size + t ≤ j * r.chunk_size)
          → (j * r.chunk_size + s ≤ k * r.chunk_size + n)
            ⊎ (k * r.chunk_size + n + l ≤ j * r.chunk_size)
      beside j k s t n l f (inl h) = inl (omega arith)
      beside j k s t n l f (inr h) = inr (omega arith)

  -- A block whose bytes have the announced hash is marked.
  pub mark-Verified :
      (p : Progress) (i : ℕ)
      → sha256 (slice p.output (i * r.chunk_size) (size_of r i))
        ≡ (get_or r.signatures i no_signature).strong
      → Verified sha256 r.signatures r.chunk_size p
      → Verified sha256 r.signatures r.chunk_size (record p { matched = set p.matched i true })
  mark-Verified p i h v = record {
    same_length = length-set p.matched i true ∙ v.same_length;
    hashed = λ j m. elim (Bool-cases (i == j)) [
      | inl same ↦
          subst
            (λ k.
              sha256 (slice p.output (k * r.chunk_size) (size_of r k))
              ≡ (get_or r.signatures k no_signature).strong)
            ((==_iff i j).0 same) h
      | inr other ↦
          let ne : i ≢ j = (λ e. ground arith) in
          v.hashed j (sym (get_or-set_ne p.matched i j true false ne) ∙ m)
    ];
  }
