-- ===== src/Transfer/Disk.antt =====
-- backend/src/transfer/transfer.cpp: the temporary file that HandleFile opens as `output`, as the
-- code uses it: seekp and write. A write past the end grows the file, and bytes never written read
-- as 0, as after resize_file.
use space_station.Prelude.{
  [], ap, ap₂, arith, get_or, if◌then◌else◌, leb, length, ltb, max, refl, suc, zero, ℕ, ◌&&◌, ◌+◌,
  ◌-◌, ◌<◌, ◌∙◌, ◌∷◌, ◌≡◌, ◌≤◌, ◌⊎◌,
}
use space_station.Prelude.Bytes.{Bytes}

pub record File : Type 0 where
  pub size : ℕ
  pub at : ℕ → ℕ

-- output.seekp(offset); output.write(data, size)
unfoldable pub write_at : File → ℕ → Bytes → File
write_at f offset content = record {
  size = max f.size (offset + length content);
  at = λ k.
      if leb offset k && ltb k (offset + length content)
      then get_or content (k - offset) 0
      else f.at k;
}

-- The `n` bytes from an offset on.
unfoldable pub slice : File → ℕ → ℕ → Bytes
slice f offset zero = []
slice f offset (suc n) = f.at offset ∷ slice f (offset + 1) n

-- All of the file, as Sha256File reads it.
abbrev pub contents : File → Bytes
contents f = slice f 0 f.size

slice-eq :
    (f g : File) (o n : ℕ)
    → ((k : ℕ) → o ≤ k → k < o + n → f.at k ≡ g.at k)
    → slice f o n ≡ slice g o n
unfolding slice
slice-eq f g o zero h = refl
slice-eq f g o (suc n) h =
    ap₂ (λ x xs. x ∷ xs) (h o (omega arith) (omega arith))
      (slice-eq f g (o + 1) n (λ k a b. h k (omega arith) (omega arith)))

-- A write leaves what lies beside it.
pub slice-write_at_apart :
    (f : File) (o : ℕ) (d : Bytes) (p n : ℕ)
    → (p + n ≤ o) ⊎ (o + length d ≤ p)
    → slice (write_at f o d) p n ≡ slice f p n
unfolding write_at
slice-write_at_apart f o d p n h = slice-eq (write_at f o d) f p n (λ k a b. ground arith)

slice-read :
    (f : File) (o : ℕ) (e : Bytes)
    → ((k : ℕ) → k < length e → f.at (o + k) ≡ get_or e k 0)
    → slice f o (length e) ≡ e
unfolding slice
slice-read f o [] h = refl
slice-read f o (x ∷ e) h =
    let here : o ≡ o + 0 = omega arith in
    ap₂ (λ y ys. y ∷ ys) (ap f.at here ∙ h 0 (omega arith))
      (slice-read f (o + 1) e (λ k b.
        let there : o + 1 + k ≡ o + suc k = omega arith in ap f.at there ∙ h (suc k) (omega arith)))

-- What is written is read back.
pub slice-write_at : (f : File) (o : ℕ) (d : Bytes) → slice (write_at f o d) o (length d) ≡ d
unfolding write_at
slice-write_at f o d = slice-read (write_at f o d) o d (λ k b.
    let back : o + k - o ≡ k = omega arith in ground (arith, ap (λ (j : ℕ). get_or d j 0) back))
