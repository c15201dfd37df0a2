-- ===== src/Files/Copies.antt =====
-- backend/src/files/file_manager_service.cpp: KeepBothPath, the name for a second copy.
use space_station.Prelude.{
  ==_iff, Bool, Bool-cases, Option, Result, [], ap, arith, drop, err, false, if◌then◌else◌, inl,
  inr, length, none, ok, ok-injective, some, suc, sym, take, true, zero, ℕ, ◌++◌, ◌+◌, ◌<◌, ◌==◌,
  ◌||◌, ◌∙◌, ◌∷◌, ◌≡◌, ◌≢◌, ◌≤◌,
}
use mathlib.Core.Bool.{false≢true}
use space_station.Files.Names.{Error, no_free_name}
use space_station.Authenticator.Totp.{decimal}
use space_station.Files.Paths.{FilePath}
use space_station.Files.Disk.{Fs, exists_here}
use space_station.Prelude.Bytes.{Bytes, bytes_eq, text}

-- Where the last dot of a name stands.
unfoldable pub last_dot : Bytes → Option ℕ
last_dot [] = none
last_dot (c ∷ cs) = elim (last_dot cs) [
  | some i ↦ some (suc i)
  | none ↦ if c == b'.' then some 0 else none
]

-- Where the extension of a file name starts: path::extension knows none in "." and "..", and none that
-- starts the name.
unfoldable pub extension_start : Bytes → ℕ
extension_start name =
    if bytes_eq name (text ".") || bytes_eq name (text "..")
    then length name
    else elim (last_dot name) [ none ↦ length name | some i ↦ if i == 0 then length name else i ]

unfoldable pub stem : Bytes → Bytes
stem name = take (extension_start name) name

unfoldable pub extension : Bytes → Bytes
extension name = drop (extension_start name) name

-- `index == 1 ? " copy" : " copy " + std::to_string(index)`; index has at most 4 digits.
unfoldable pub copy_suffix : ℕ → Bytes
copy_suffix index = if index == 1 then text " copy" else text " copy " ++ decimal 4 index

unfoldable pub candidate_name : Bytes → Bool → ℕ → Bytes
candidate_name name directory index =
    if directory
    then name ++ copy_suffix index
    else stem name ++ copy_suffix index ++ extension name

-- The loop from `index` on, with `left` more turns.
unfoldable pub keep_both_loop : Fs → FilePath → Bytes → Bool → ℕ → ℕ → Result Error Bytes
keep_both_loop fs parent name directory zero index = err no_free_name
keep_both_loop fs parent name directory (suc left) index =
    let candidate = candidate_name name directory index in
    let later = keep_both_loop fs parent name directory left (index + 1) in
    if exists_here (fs (parent ++ candidate ∷ [])) then later else ok candidate

-- KeepBothPath, of the item `name` in the folder `parent`.
unfoldable pub keep_both_path : Fs → FilePath → Bytes → Bool → Result Error Bytes
keep_both_path fs parent name directory = keep_both_loop fs parent name directory 9999 1

keep_both_loop-free :
    (fs : Fs) (parent : FilePath) (name : Bytes) (directory : Bool) (left index : ℕ) (found : Bytes)
    → keep_both_loop fs parent name directory left index ≡ ok found
    → (exists_here (fs (parent ++ found ∷ [])) ≡ false)
      × ((i : ℕ) × (index ≤ i)
          × (i < index + left)
          × (found ≡ candidate_name name directory i)
          × ((j : ℕ)
              → index ≤ j
              → j < i
              → exists_here (fs (parent ++ candidate_name name directory j ∷ [])) ≡ true))
unfolding keep_both_loop
keep_both_loop-free fs parent name directory zero index found h = cc
keep_both_loop-free fs parent name directory (suc left) index found h =
    elim (Bool-cases (exists_here (fs (parent ++ candidate_name name directory index ∷ [])))) [
      | inr free ↦
          let e : candidate_name name directory index ≡ found = ok-injective (rw free at h) in
          (
            ap (λ x. exists_here (fs (parent ++ x ∷ []))) (sym e) ∙ free,
            (index, omega arith, omega arith, sym e, λ j m k. absurd (omega (arith, m, k))),
          )
      | inl taken ↦
          let (free, (i, low, high, e, first)) =
            keep_both_loop-free fs parent name directory left (index + 1) found (rw taken at h) in
          (
            free,
            (
              i,
              omega (arith, low),
              omega (arith, high),
              e,
              λ j m k. elim (Bool-cases (j == index)) [
                | inl here ↦
                    ap (λ x. exists_here (fs (parent ++ candidate_name name directory x ∷ [])))
                      ((==_iff j index).0 here)
                    ∙ taken
                | inr apart ↦
                    first j (later j index m (λ x. false≢true (sym apart ∙ (==_iff j index).1 x))) k
              ],
            ),
          )
    ]
  where
    later : (a b : ℕ) → b ≤ a → a ≢ b → b + 1 ≤ a
    later a b m n = ground arith

-- The name that KeepBothPath returns is free, and it is the first free one among the candidates, which
-- are numbered from 1 to 9999.
pub keep_both_path-first :
    (fs : Fs) (parent : FilePath) (name : Bytes) (directory : Bool) (found : Bytes)
    → keep_both_path fs parent name directory ≡ ok found
    → (exists_here (fs (parent ++ found ∷ [])) ≡ false)
      × ((i : ℕ) × (1 ≤ i)
          × (i ≤ 9999)
          × (found ≡ candidate_name name directory i)
          × ((j : ℕ)
              → 1 ≤ j
              → j < i
              → exists_here (fs (parent ++ candidate_name name directory j ∷ [])) ≡ true))
unfolding keep_both_path
keep_both_path-first fs parent name directory found h =
    let (free, (i, low, high, e, first)) =
      keep_both_loop-free fs parent name directory 9999 1 found h in
    (free, (i, low, omega (arith, high), e, first))
