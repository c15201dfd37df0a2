-- ===== src/Files/Names.antt =====
-- backend/src/files/file_manager_service.cpp: the tests of names and of upload ids.
use space_station.Prelude.{
  ==_iff, >>=-eq-ok, All, Bool, Bool-cases, Result, [], all_of, arith, false, guard, guard-eq-ok,
  inl, inr, length, ltb, not, ok, ok-injective, sym, true, ℕ, ◌==◌, ◌>>◌, ◌||◌, ◌∙◌, ◌∷◌, ◌≡◌, ◌≢◌,
}
use mathlib.Core.Bool.{false≢true}
use space_station.Prelude.Bytes.{Bytes, text, bytes_eq, is_alnum, bytes_eq_iff}

-- What the service throws.
pub data Error : Type 0 where
  not_absolute unreadable_path not_a_directory invalid_name invalid_upload_id : Error
  invalid_range cannot_create_temporary not_contiguous cannot_open_temporary write_failed : Error
  cannot_check same_name_directory cannot_overwrite cannot_finish : Error
  nothing_selected invalid_policy is_root into_itself same_place name_exists no_free_name : Error
  cannot_create cannot_replace cannot_copy cannot_move cannot_remove : Error

-- `name.find(c) != npos`
unfoldable pub contains : ℕ → Bytes → Bool
contains c [] = not true
contains c (x ∷ xs) = x == c || contains c xs

-- ValidateName
unfoldable pub validate_name : Bytes → Result Error Bytes
validate_name name = do
  guard
      (not (
        bytes_eq name []
        || bytes_eq name (text ".")
        || bytes_eq name (text "..")
        || contains b'/' name
        || contains 92 name
        || contains 0 name))
      invalid_name
  ok name

-- ValidateUploadId
unfoldable pub validate_upload_id : Bytes → Result Error (Unit {0})
validate_upload_id id =
    guard
      (not (
        bytes_eq id []
        || ltb 80 (length id)
        || not (all_of (λ c. is_alnum c || c == b'-' || c == b'_') id)))
      invalid_upload_id

contains-All : (c : ℕ) (xs : Bytes) → contains c xs ≡ false → All (λ x. x ≢ c) xs
unfolding contains
contains-All c [] h = tt
contains-All c (x ∷ xs) h = elim (Bool-cases (x == c)) [
  | inl e ↦ let k : true ≡ false = rw e at h in absurd (false≢true (sym k))
  | inr ne ↦ (λ e. false≢true (sym ne ∙ (==_iff x c).1 e), contains-All c xs (rw ne at h))
]

-- A name that is one component of a path.
pub record Component (name : Bytes) : Type 0 where
  pub nonempty : name ≢ []
  pub not_here : name ≢ text "."
  pub not_above : name ≢ text ".."
  pub no_separator : All (λ c. c ≢ b'/') name
  pub no_backslash : All (λ c. c ≢ 92) name
  pub no_end : All (λ c. c ≢ 0) name

pub neither : (a b : Bool) → not (a || b) ≡ true → (not a ≡ true) × (b ≡ false)
neither a b h = ground arith

differs : (xs ys : Bytes) → bytes_eq xs ys ≡ false → xs ≢ ys
differs xs ys h e = false≢true (sym h ∙ (bytes_eq_iff xs ys).1 e)

pub denied : (a : Bool) → not a ≡ true → a ≡ false
denied a h = ground arith

pub validate_name-Component :
    (name n : Bytes) → validate_name name ≡ ok n → (n ≡ name) × Component name
unfolding validate_name
validate_name-Component name n h =
    let (_, passed, h₁) = >>=-eq-ok (guard _ invalid_name) _ h in
    let (a, no_end) = neither _ _ (guard-eq-ok _ _ passed) in
    let (b, no_backslash) = neither _ _ a in
    let (c, no_separator) = neither _ _ b in
    let (d, not_above) = neither _ _ c in
    let (e, not_here) = neither _ _ d in
    (
      sym (ok-injective h₁),
      record {
        nonempty = differs name [] (denied _ e);
        not_here = differs name (text ".") not_here;
        not_above = differs name (text "..") not_above;
        no_separator = contains-All b'/' name no_separator;
        no_backslash = contains-All 92 name no_backslash;
        no_end = contains-All 0 name no_end;
      },
    )
