-- ===== src/Transfer/Stream/Counting.antt =====
-- backend/src/transfer/transfer.cpp, HandleFile: `write_decoded` does not run out of fuel, and the bytes
-- it has written and those it still expects are always as many.
use space_station.Prelude.{
  ==_iff, All, Bool, Bool-cases, List, Result, [], ap, arith, drop, err, false, get_or, guard, inl,
  inr, length, length-drop, length-take, min, ok, refl, subst, suc, sym, take, true, zero, ℕ, ◌+◌,
  ◌-◌, ◌<◌, ◌==◌, ◌>>=◌, ◌∙◌, ◌∷◌, ◌≡◌, ◌≤◌,
}
use space_station.Transfer.Stream.Writing.{Writing, Started, write_turn-Writing}
use space_station.Transfer.Scan.{Signature, no_signature}
use space_station.Transfer.Stream.{
  Writer, finish_block, write_loop, write_turn, write_part, next_block,
}
use space_station.Transfer.Stream.Blocks.{size_of}
use space_station.Transfer.Manifest.{Error, Request, still_running, hash_mismatch}
use space_station.Prelude.Bytes.{Bytes, bytes_eq}

abbrev pub is_running : Error → Bool
is_running still_running = true
is_running _ = false

-- A computation that does not run out of fuel, and what holds when it returns.
abbrev pub Returns : {A : Type 0} → (A → Type 0) → Result Error A → Type 0
Returns P (ok a) = P a
Returns P (err e) = is_running e ≡ false

pub Returns->>= :
    {A B : Type 0} (P : A → Type 0) (Q : B → Type 0) (m : Result Error A) (f : A → Result Error B)
    → Returns P m
    → ((a : A) → m ≡ ok a → P a → Returns Q (f a))
    → Returns Q (m >>= f)
Returns->>= P Q (ok a) f h k = k a refl h
Returns->>= P Q (err e) f h k = h

pub Returns-guard :
    (b : Bool) (e : Error) → is_running e ≡ false → Returns (λ (u : Unit {0}). b ≡ true) (guard b e)
Returns-guard true e h = refl
Returns-guard false e h = h

abbrev pub todo_size : Request → List ℕ → ℕ
todo_size r [] = 0
todo_size r (i ∷ is) = size_of r i + todo_size r is

abbrev pub Counted : Request → ℕ → Writer → Type 0
Counted r expected w = w.total_written + todo_size r w.todo ≡ expected + w.block_written

module _ (sha256 : Bytes → Bytes) (r : Request)
    (sizes : All (λ (s : Signature). (0 < s.size) × (s.size ≤ r.chunk_size)) r.signatures) where
  finish_block-Counted :
      (expected : ℕ) (w : Writer) (i : ℕ) (rest : List ℕ)
      → w.total_written + (size_of r i + todo_size r rest) ≡ expected + w.block_written
      → w.block_written ≡ size_of r i
      → Returns (Counted r expected) (finish_block sha256 r w i rest)
  unfolding finish_block next_block
  finish_block-Counted expected w i rest c full =
      Returns->>= _ (Counted r expected)
        (guard (bytes_eq (sha256 w.hashed) (get_or r.signatures i no_signature).strong)
          hash_mismatch)
        (λ _. ok (next_block sha256 r w i rest)) (Returns-guard _ hash_mismatch refl)
        (λ u e g. omega (arith, c, full))

  write_turn-Counted :
      (expected : ℕ) (w : Writer) (i : ℕ) (rest : List ℕ) (part : Bytes)
      → Counted r expected w
      → w.todo ≡ i ∷ rest
      → Returns (Counted r expected) (write_turn sha256 r w i rest part)
  unfolding write_turn
  write_turn-Counted expected w i rest part c e =
      let t = write_part sha256 r w i part in
      let c' : w.total_written + (size_of r i + todo_size r rest) ≡ expected + w.block_written =
        sym (ap (λ is. w.total_written + todo_size r is) e) ∙ c in
      let d : t.total_written + (size_of r i + todo_size r rest) ≡ expected + t.block_written =
        unfold write_part in omega (arith, c') in
      let e' : t.todo ≡ i ∷ rest = unfold write_part in e in
      elim (Bool-cases (t.block_written == size_of r i)) [
        | inl full ↦ rw full (finish_block-Counted expected t i rest d ((==_iff _ _).0 full))
        | inr room ↦ rw room (ap (λ is. t.total_written + todo_size r is) e' ∙ d)
      ]

  -- Each turn of `write_decoded` uses at least one byte.
  pub write_loop-Counted :
      (fuel expected : ℕ) (w : Writer) (decoded : Bytes)
      → length decoded ≤ fuel
      → Writing sha256 r sizes w
      → Counted r expected w
      → Returns (Counted r expected) (write_loop sha256 r fuel w decoded)
  unfolding write_loop
  write_loop-Counted fuel expected w [] enough v c = c
  write_loop-Counted zero expected w (x ∷ xs) enough v c = absurd (omega (arith, enough))
  write_loop-Counted (suc fuel) expected w (x ∷ xs) enough v c =
      go (λ n t k u d. write_loop-Counted fuel expected t (drop n (x ∷ xs)) k u d) w.todo refl
    where
      go :
          ((n : ℕ) (t : Writer)
            → length (drop n (x ∷ xs)) ≤ fuel
            → Writing sha256 r sizes t
            → Counted r expected t
            → Returns (Counted r expected) (write_loop sha256 r fuel t (drop n (x ∷ xs))))
          → (todo : List ℕ) → w.todo ≡ todo
          → Returns (Counted r expected) (write_loop sha256 r (suc fuel) w (x ∷ xs))
      go ih [] e = rw (e, write_loop) refl
      go ih (i ∷ rest) e =
          let count = min (length (x ∷ xs)) (size_of r i - w.block_written) in
          let (below, long, same) = subst (Started sha256 r sizes w) e v.started in
          rw (e, write_loop)
            (Returns->>= (Counted r expected) (Counted r expected)
              (write_turn sha256 r w i rest (take count (x ∷ xs)))
              (λ t. write_loop sha256 r fuel t (drop count (x ∷ xs)))
              (write_turn-Counted expected w i rest (take count (x ∷ xs)) c e)
              (λ t turned d.
                ih count t (omega (arith, length-drop count (x ∷ xs), enough, below))
                  (write_turn-Writing sha256 r sizes w t i rest (take count (x ∷ xs)) v e
                    (omega (arith, length-take count (x ∷ xs))) turned).0
                  d))
