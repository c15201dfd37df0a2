-- ===== src/Transfer/Scan/Ring.antt =====
-- backend/src/transfer/transfer.cpp, ScanCandidate: the ring buffer reads as the window, oldest byte
-- first, and one turn of the loop moves that window by one byte.
use native.Mathlib.Nat.{mod-eq_of_lt}
use space_station.Prelude.{
  Bool-cases, [], ap, ap₂, arith, get_or, inl, inr, length, length-append, ltb, ltb→le, ltb→lt,
  refl, set, suc, sym, zero, ℕ, ◌%◌, ◌++◌, ◌+◌, ◌-◌, ◌<◌, ◌∙◌, ◌∷◌, ◌≡◌,
}
use space_station.Prelude.Bytes.{Bytes}
use space_station.Transfer.Scan.{order}

get_or-append_left : (xs ys : Bytes) (i : ℕ) → i < length xs → get_or (xs ++ ys) i 0 ≡ get_or xs i 0
get_or-append_left [] ys i h = absurd (omega arith)
get_or-append_left (x ∷ xs) ys zero h = refl
get_or-append_left (x ∷ xs) ys (suc i) h = get_or-append_left xs ys i (omega arith)

pub get_or-append_right :
    (xs ys : Bytes) (i : ℕ) → get_or (xs ++ ys) (length xs + i) 0 ≡ get_or ys i 0
get_or-append_right [] ys i = let e : 0 + i ≡ i = omega arith in ap (λ j. get_or ys j 0) e
get_or-append_right (x ∷ xs) ys i =
    let e : suc (length xs) + i ≡ suc (length xs + i) = omega arith in
    ap (λ j. get_or (x ∷ (xs ++ ys)) j 0) e ∙ get_or-append_right xs ys i

pub set-append :
    (xs : Bytes) (y z : ℕ) (ys : Bytes) → set (xs ++ y ∷ ys) (length xs) z ≡ xs ++ z ∷ ys
set-append [] y z ys = refl
set-append (x ∷ xs) y z ys = ap (λ l. x ∷ l) (set-append xs y z ys)

-- Reading on from a position, with no wrap.
order-straight :
    (window : Bytes) (start index : ℕ) (e : Bytes)
    → ((k : ℕ)
        → k < length e
        → get_or window ((start + (index + k)) % length window) 0 ≡ get_or e k 0)
    → order window start index (length e) ≡ e
unfolding order
order-straight window start index [] h = refl
order-straight window start index (x ∷ e) h =
    let here : index ≡ index + 0 = omega arith in
    ap₂ (λ y ys. y ∷ ys)
      (ap (λ j. get_or window ((start + j) % length window) 0) here ∙ h 0 (omega arith))
      (order-straight window start (index + 1) e (λ k b.
        let there : index + 1 + k ≡ index + suc k = omega arith in
        ap (λ j. get_or window ((start + j) % length window) 0) there ∙ h (suc k) (omega arith)))

mod_low : (a b k n : ℕ) → n ≡ a + b → k < b → (a + (0 + k)) % n ≡ a + k
mod_low a b k n e h = let s : a + (0 + k) ≡ a + k = omega arith in rw s (mod-eq_of_lt (omega arith))

mod_high : (a b j n : ℕ) → n ≡ a + b → j < a → (a + (0 + (b + j))) % n ≡ j
mod_high a b j n e h = grind arith

rotated_low :
    (pre post : Bytes) (k : ℕ)
    → k < length post
    → get_or (pre ++ post) ((length pre + (0 + k)) % length (pre ++ post)) 0
      ≡ get_or (post ++ pre) k 0
rotated_low pre post k h =
    ap (λ j. get_or (pre ++ post) j 0)
      (mod_low (length pre) (length post) k (length (pre ++ post)) (length-append pre post) h)
    ∙ get_or-append_right pre post k
    ∙ sym (get_or-append_left post pre k h)

rotated_high :
    (pre post : Bytes) (j : ℕ)
    → j < length pre
    → get_or (pre ++ post) ((length pre + (0 + (length post + j))) % length (pre ++ post)) 0
      ≡ get_or (post ++ pre) (length post + j) 0
rotated_high pre post j h =
    ap (λ j. get_or (pre ++ post) j 0)
      (mod_high (length pre) (length post) j (length (pre ++ post)) (length-append pre post) h)
    ∙ get_or-append_left pre post j h
    ∙ sym (get_or-append_right post pre j)

rotated_at :
    (pre post : Bytes) (k : ℕ)
    → k < length (post ++ pre)
    → get_or (pre ++ post) ((length pre + (0 + k)) % length (pre ++ post)) 0
      ≡ get_or (post ++ pre) k 0
rotated_at pre post k h = elim (Bool-cases (ltb k (length post))) [
  | inl low ↦ rotated_low pre post k (ltb→lt _ _ low)
  | inr high ↦
      let b = ltb→le k (length post) high in
      let e : k ≡ length post + (k - length post) = omega arith in
      rw e (rotated_high pre post (k - length post) (omega (arith, length-append post pre)))
]

-- The ring that is cut before `ring_start` reads as the second part, then the first.
pub order-rotate :
    (pre post : Bytes) → order (pre ++ post) (length pre) 0 (length (pre ++ post)) ≡ post ++ pre
order-rotate pre post =
    let e : length (pre ++ post) ≡ length (post ++ pre) =
      omega (arith, length-append pre post, length-append post pre) in
    ap (order (pre ++ post) (length pre) 0) e
    ∙ order-straight (pre ++ post) (length pre) 0 (post ++ pre) (rotated_at pre post)
