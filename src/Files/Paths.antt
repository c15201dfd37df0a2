-- ===== src/Files/Paths.antt =====
-- backend/src/files/file_manager_service.cpp: paths, which are the names below the root.
use space_station.Prelude.{
  Bool, Bool-cases, List, [], ap, ap₂, arith, false, inl, inr, length, length-append, not, refl,
  true, ◌&&◌, ◌++◌, ◌↔◌, ◌∷◌, ◌≡◌, ◌≢◌,
}
use mathlib.Core.Bool.{false≢true}
use space_station.Prelude.Bytes.{Bytes, bytes_eq, bytes_eq_refl, bytes_eq_sound}

abbrev pub FilePath : Type 0
FilePath = List Bytes

-- std::filesystem::path's operator==, for absolute paths without repeated separators.
unfoldable pub path_eq : FilePath → FilePath → Bool
path_eq [] [] = true
path_eq [] (y ∷ ys) = not true
path_eq (x ∷ xs) [] = not true
path_eq (x ∷ xs) (y ∷ ys) = bytes_eq x y && path_eq xs ys

pub path_eq_sound : (p q : FilePath) → path_eq p q ≡ true → p ≡ q
unfolding path_eq
path_eq_sound [] [] h = refl
path_eq_sound [] (y ∷ ys) h = cc
path_eq_sound (x ∷ xs) [] h = cc
path_eq_sound (x ∷ xs) (y ∷ ys) h = elim (Bool-cases (bytes_eq x y)) [
  | inl e ↦ ap₂ (λ a b. a ∷ b) (bytes_eq_sound x y e) (path_eq_sound xs ys (rw e at h))
  | inr ne ↦ let k : false ≡ true = rw ne at h in absurd (false≢true k)
]

pub path_eq_refl : (p : FilePath) → path_eq p p ≡ true
unfolding path_eq
path_eq_refl [] = refl
path_eq_refl (x ∷ xs) = rw (bytes_eq_refl x) (path_eq_refl xs)

pub path_eq_apart : (p q : FilePath) → p ≢ q → path_eq p q ≡ false
path_eq_apart p q n = elim (Bool-cases (path_eq p q)) [
  | inl e ↦ absurd (n (path_eq_sound p q e))
  | inr e ↦ e
]

-- IsWithin
unfoldable pub is_within : FilePath → FilePath → Bool
is_within candidate [] = true
is_within [] (part ∷ parent) = not true
is_within (c ∷ candidate) (part ∷ parent) = bytes_eq c part && is_within candidate parent

-- IsWithin accepts the paths that continue the parent's.
pub is_within_iff :
    (p q : FilePath) → (is_within p q ≡ true) ↔ ((rest : FilePath) × (p ≡ q ++ rest))
unfolding is_within
is_within_iff p q = (there p q, λ e. rw e.1 (back q e.0))
  where
    there : (p q : FilePath) → is_within p q ≡ true → (rest : FilePath) × (p ≡ q ++ rest)
    there p [] h = (p, refl)
    there [] (y ∷ ys) h = absurd (false≢true h)
    there (x ∷ xs) (y ∷ ys) h = elim (Bool-cases (bytes_eq x y)) [
      | inl e ↦
          let (rest, f) = there xs ys (rw e at h) in
          (rest, ap₂ (λ a b. a ∷ b) (bytes_eq_sound x y e) f)
      | inr ne ↦ let k : false ≡ true = rw ne at h in absurd (false≢true k)
    ]

    back : (q rest : FilePath) → is_within (q ++ rest) q ≡ true
    back [] rest = refl
    back (y ∷ ys) rest = rw (bytes_eq_refl y) (back ys rest)

pub child_apart : (p : FilePath) (name : Bytes) → p ++ name ∷ [] ≢ p
child_apart p name e = omega (arith, ap length e, length-append p (name ∷ []))

pub child-injective : (p : FilePath) (a b : Bytes) → p ++ a ∷ [] ≡ p ++ b ∷ [] → a ≡ b
child-injective [] a b e = cc
child-injective (x ∷ xs) a b e = child-injective xs a b (tail-eq e)
  where
    tail_of : FilePath → FilePath
    tail_of [] = []
    tail_of (y ∷ ys) = ys

    tail-eq : {y : Bytes} {ys zs : FilePath} → y ∷ ys ≡ y ∷ zs → ys ≡ zs
    tail-eq h = ap tail_of h
