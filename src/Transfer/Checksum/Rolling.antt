-- ===== src/Transfer/Checksum/Rolling.antt =====
-- backend/src/transfer/transfer.cpp: the rolled checksum is the checksum of the moved window.
use space_station.Prelude.{
  [], ap, arith, length, length-append, ℕ, ◌%◌, ◌*◌, ◌++◌, ◌+◌, ◌<◌, ◌^◌, ◌∙◌, ◌∷◌, ◌≡◌,
}
use space_station.Prelude.Bytes.{Bytes}
use space_station.Transfer.Checksum.{weak_loop, low16, weak_checksum, roll, join16}

-- The two sums without wrapping: the bytes, and the bytes each times its distance from the end.
total : Bytes → ℕ
total [] = 0
total (x ∷ xs) = x + total xs

weighted : Bytes → ℕ
weighted [] = 0
weighted (x ∷ xs) = length (x ∷ xs) * x + weighted xs

weak_loop_sums :
    (xs : Bytes) (a b : ℕ)
    → weak_loop xs (a % 2 ^ 16) (b % 2 ^ 16) ≡ ((a + total xs) % 2 ^ 16, (b + weighted xs) % 2 ^ 16)
unfolding weak_loop total weighted
weak_loop_sums [] a b = ground arith
weak_loop_sums (x ∷ xs) a b =
    let p = length (x ∷ xs) * x in
    let first : low16 ((a % 2 ^ 16 + x) % 2 ^ 32) ≡ (a + x) % 2 ^ 16 = omega arith in
    let second : low16 ((b % 2 ^ 16 + p % 2 ^ 64 % 2 ^ 32) % 2 ^ 32) ≡ (b + p) % 2 ^ 16 =
      omega arith in
    let last : ◌≡◌ {A = ℕ × ℕ} ((a + x + total xs) % 2 ^ 16, (b + p + weighted xs) % 2 ^ 16)
        ((a + (x + total xs)) % 2 ^ 16, (b + (p + weighted xs)) % 2 ^ 16) =
      ground arith in
    (λ i. weak_loop xs (first i) (second i)) ∙ weak_loop_sums xs (a + x) (b + p) ∙ last

-- The checksum in closed form.
weak_checksum_sums :
    (xs : Bytes) → weak_checksum xs ≡ join16 (weighted xs % 2 ^ 16) (total xs % 2 ^ 16)
unfolding weak_checksum
weak_checksum_sums xs = rw (weak_loop_sums xs 0 0) (omega arith)

total-append : (xs : Bytes) (y : ℕ) → total (xs ++ y ∷ []) ≡ total xs + y
unfolding total
total-append [] y = omega arith
total-append (x ∷ xs) y = omega (arith, total-append xs y)

weighted-append : (xs : Bytes) (y : ℕ) → weighted (xs ++ y ∷ []) ≡ weighted xs + total xs + y
unfolding weighted total
weighted-append [] y = omega arith
weighted-append (x ∷ xs) y = omega (
  arith,
  weighted-append xs y,
  length-append xs (y ∷ []),
  ap (λ (n : ℕ). n * x) (length-append xs (y ∷ [])),
)

-- For a window that starts with the byte `old`: when it moves by one byte, to `next`, the update of
-- its checksum gives the checksum of the new window computed afresh, wrapping included.
pub roll-weak_checksum :
    (old next : ℕ) (rest : Bytes)
    → old < 256
    → next < 256
    → roll (length (old ∷ rest)) (weak_checksum (old ∷ rest)) old next
      ≡ weak_checksum (rest ++ next ∷ [])
unfolding roll total weighted
roll-weak_checksum old next rest ho hn =
    rw
      (
        weak_checksum_sums (old ∷ rest),
        weak_checksum_sums (rest ++ next ∷ []),
        total-append rest next,
        weighted-append rest next,
      )
      (omega arith)
