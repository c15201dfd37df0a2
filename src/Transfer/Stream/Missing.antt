-- ===== src/Transfer/Stream/Missing.antt =====
-- backend/src/transfer/transfer.cpp, HandleFile: the list of the blocks that are missing.
use space_station.Prelude.{
  All, Bool, List, [], ap, arith, false, get_or, length, refl, suc, sym, true, ℕ, ◌+◌, ◌<◌, ◌∙◌,
  ◌∷◌, ◌≡◌, ◌≤◌,
}
use space_station.Transfer.Stream.Writing.{Writing, Started-new}
use space_station.Transfer.Stream.Frames.{start_stream}
use space_station.Transfer.Scan.{Signature, Progress}
use space_station.Transfer.Receive.Integrity.{count_missing, Verified}
use space_station.Transfer.Stream.Blocks.{Ascending, Pending}
use space_station.Prelude.Bytes.{Bytes}
use space_station.Transfer.Stream.{missing_from, Request, Inflated}

-- `ms` is the rest of `all` from `index` on.
abbrev RestOf : List Bool → ℕ → List Bool → Type 0
RestOf all index ms =
    ((k : ℕ) → get_or all (index + k) false ≡ get_or ms k false) × (length all ≡ index + length ms)

rest_of_next :
    (all : List Bool) (index : ℕ) (m : Bool) (ms : List Bool)
    → RestOf all index (m ∷ ms)
    → RestOf all (index + 1) ms
rest_of_next all index m ms (h, l) = (
  (λ k.
      let e : index + 1 + k ≡ index + suc k = omega arith in
      ap (λ j. get_or all j false) e ∙ h (suc k)),
  omega (arith, l),
)

missing_from-Pending :
    (all : List Bool) (index : ℕ) (ms : List Bool)
    → RestOf all index ms
    → Pending all (missing_from index ms)
unfolding missing_from
missing_from-Pending all index [] h = tt
missing_from-Pending all index (true ∷ ms) h =
    missing_from-Pending all (index + 1) ms (rest_of_next all index true ms h)
missing_from-Pending all index (false ∷ ms) h =
    let e : index ≡ index + 0 = omega arith in
    (
      (omega (arith, h.1), ap (λ j. get_or all j false) e ∙ h.0 0),
      missing_from-Pending all (index + 1) ms (rest_of_next all index false ms h),
    )

missing_from_least :
    (index low : ℕ) (ms : List Bool) → low ≤ index → All (λ j. low ≤ j) (missing_from index ms)
unfolding missing_from
missing_from_least index low [] h = tt
missing_from_least index low (true ∷ ms) h = missing_from_least (index + 1) low ms (omega arith)
missing_from_least index low (false ∷ ms) h =
    (h, missing_from_least (index + 1) low ms (omega arith))

pub missing_from-Ascending : (index : ℕ) (ms : List Bool) → Ascending (missing_from index ms)
unfolding missing_from
missing_from-Ascending index [] = tt
missing_from-Ascending index (true ∷ ms) = missing_from-Ascending (index + 1) ms
missing_from-Ascending index (false ∷ ms) = (
  missing_from_least (index + 1) (suc index) ms (omega arith),
  missing_from-Ascending (index + 1) ms,
)

pub length-missing_from :
    (index : ℕ) (ms : List Bool) → length (missing_from index ms) ≡ count_missing ms
unfolding missing_from
length-missing_from index [] = refl
length-missing_from index (true ∷ ms) = length-missing_from (index + 1) ms
length-missing_from index (false ∷ ms) = ap suc (length-missing_from (index + 1) ms)

whole : (ms : List Bool) → RestOf ms 0 ms
whole ms = ((λ k. let e : 0 + k ≡ k = omega arith in ap (λ j. get_or ms j false) e), omega arith)

pub missing_from-Pending_all : (ms : List Bool) → Pending ms (missing_from 0 ms)
missing_from-Pending_all ms = missing_from-Pending ms 0 ms (whole ms)

module _ (sha256 : Bytes → Bytes) (r : Request)
    (sizes : All (λ (s : Signature). (0 < s.size) × (s.size ≤ r.chunk_size)) r.signatures) where
  -- The state when the stream starts.
  pub start_stream-Writing :
      {Z : Type 0} (inflate : Z → Bytes → Inflated Z) (z : Z) (p : Progress) (remaining : ℕ)
      → Verified sha256 r.signatures r.chunk_size p
      → remaining ≡ count_missing p.matched
      → Writing sha256 r sizes (start_stream sha256 inflate r z p remaining).writer
  unfolding start_stream
  start_stream-Writing inflate z p remaining v c =
      let pending = missing_from-Pending p.matched 0 p.matched (whole p.matched) in
      record {
        verified = v;
        counted = c;
        as_many = length-missing_from 0 p.matched ∙ sym c;
        pending = pending;
        ascending = missing_from-Ascending 0 p.matched;
        started =
            Started-new sha256 r sizes (start_stream sha256 inflate r z p remaining).writer
              (missing_from 0 p.matched) refl refl v.same_length pending;
      }
