-- ===== src/Files/Transfer/Keeps.antt =====
-- backend/src/files/file_manager_service.cpp, Transfer: what is there stays there.
use space_station.Prelude.{
  Bool, Bool-cases, [], ap, err, false, inl, inr, not, ok, refl, sym, true, ◌&&◌, ◌++◌, ◌∙◌, ◌∷◌,
  ◌≡◌, ◌≢◌,
}
use space_station.Files.Copies.{keep_both_path-first}
use mathlib.Core.List.{append_assoc, append-nil}
use mathlib.Core.Bool.{false≢true}
use space_station.Files.Names.{Error, cannot_copy, cannot_move}
use space_station.Files.Transfer.{
  settle, move_item, placed, place, transfer_entry, Result, copy_item, checked, Luck, Policy, Entry,
  Renamed, replace, path_of, Bytes, is_keep_both, keep_both_path, keep_both, done, on_error,
  refused, other_device, skip,
}
use space_station.Files.Paths.{FilePath, is_within, is_within_iff, path_eq}
use space_station.Files.Disk.{
  Fs, exists_here, fails, copy_tree, copy_tree-apart, move_tree-apart, remove_tree-apart,
  remove_tree,
}

-- The path and all that it lies in exist.
abbrev pub Present : Fs → FilePath → Type 0
Present fs q = (a : FilePath) → is_within q a ≡ true → exists_here (fs a) ≡ true

pub is_within_trans :
    (a b c : FilePath) → is_within a b ≡ true → is_within b c ≡ true → is_within a c ≡ true
is_within_trans a b c h k =
    let (r, e) = (is_within_iff a b).0 h in
    let (s, f) = (is_within_iff b c).0 k in
    (is_within_iff a c).1 (s ++ r, e ∙ ap (λ x. x ++ r) f ∙ append_assoc c s r)

pub is_within_refl : (q : FilePath) → is_within q q ≡ true
is_within_refl q = (is_within_iff q q).1 ([], sym (append-nil q))

pub absent_apart :
    (fs : Fs) (a target : FilePath)
    → Present fs a
    → exists_here (fs target) ≡ false
    → is_within a target ≡ false
absent_apart fs a target here absent = elim (Bool-cases (is_within a target)) [
  | inr apart ↦ apart
  | inl within ↦ absurd (false≢true (sym absent ∙ here target within))
]

checked-fs : (b : Bool) (e : Error) (fs : Fs) → (checked b e fs).0 ≡ fs
checked-fs true e fs = refl
checked-fs false e fs = refl

placed-fs :
    (source target : FilePath) (r : Fs × Result Error (Unit {0})) → (placed source target r).0 ≡ r.0
unfolding placed
placed-fs source target (fs, err e) = refl
placed-fs source target (fs, ok u) = refl

-- A path outside the target, and outside the source of a move.
abbrev Outside : Bool → FilePath → FilePath → FilePath → Type 0
Outside move source target a =
    (is_within a target ≡ false) × (move ≡ true → is_within a source ≡ false)

pub move_item-keeps :
    (luck : Luck) (fs : Fs) (source target a : FilePath)
    → is_within a target ≡ false
    → is_within a source ≡ false
    → (move_item luck fs source target).0 a ≡ fs a
unfolding move_item
move_item-keeps luck fs source target a t s = go luck.renamed refl
  where
    copied : copy_tree luck.copied fs source target a ≡ fs a
    copied = copy_tree-apart luck.copied fs source target a t

    go : (r : Renamed) → luck.renamed ≡ r → (move_item luck fs source target).0 a ≡ fs a
    go done e = rw (e, move_item) (move_tree-apart fs source target a t s)
    go refused e = rw (e, move_item) refl
    go other_device e = elim (Bool-cases (fails luck.copied)) [
      | inl f ↦ rw (e, move_item, f) copied
      | inr f ↦
          rw (e, move_item, f)
            (ap (λ (x : Fs). x a)
                (checked-fs (fails luck.removed) cannot_move
                  (remove_tree luck.removed (copy_tree luck.copied fs source target) source))
              ∙ remove_tree-apart luck.removed (copy_tree luck.copied fs source target) source a s
              ∙ copied)
    ]

place-keeps :
    (luck : Luck) (move : Bool) (fs : Fs) (source target a : FilePath)
    → Outside move source target a
    → (place luck move fs source target).0 a ≡ fs a
unfolding place copy_item
place-keeps luck true fs source target a o =
    ap (λ (x : Fs). x a) (placed-fs source target (move_item luck fs source target))
    ∙ move_item-keeps luck fs source target a o.0 (o.1 refl)
place-keeps luck false fs source target a o =
    ap (λ (x : Fs). x a)
      (placed-fs source target (copy_item luck fs source target)
        ∙ checked-fs (fails luck.copied) cannot_copy _)
    ∙ copy_tree-apart luck.copied fs source target a o.0

settle-keeps :
    (luck : Luck) (policy : Policy) (move : Bool) (fs : Fs) (source : Entry) (folder : FilePath)
    (directory : Bool) (a : FilePath)
    → policy ≢ replace
    → Present fs a
    → (move ≡ true → is_within a (path_of source) ≡ false)
    → (settle luck policy move fs source folder directory).0 a ≡ fs a
unfolding settle
settle-keeps luck on_error move fs source folder directory a n here s = refl
settle-keeps luck skip move fs source folder directory a n here s = refl
settle-keeps luck replace move fs source folder directory a n here s = absurd (n refl)
settle-keeps luck keep_both move fs source folder directory a n here s =
    go (keep_both_path fs folder source.name directory) refl
  where
    go :
        (m : Result Error Bytes)
        → keep_both_path fs folder source.name directory ≡ m
        → (settle luck keep_both move fs source folder directory).0 a ≡ fs a
    go (err e) h = rw (h, settle) refl
    go (ok name) h =
        let (free, _) = keep_both_path-first fs folder source.name directory name h in
        rw (h, settle)
          (place-keeps luck move fs (path_of source) (folder ++ name ∷ []) a
            (absent_apart fs a _ here free, s))

pub transfer_entry-keeps :
    (luck : Luck) (policy : Policy) (move : Bool) (fs : Fs) (source : Entry) (folder : FilePath)
    (directory : Bool) (a : FilePath)
    → policy ≢ replace
    → Present fs a
    → (move ≡ true → is_within a (path_of source) ≡ false)
    → (transfer_entry luck policy move fs source folder directory).0 a ≡ fs a
unfolding transfer_entry
transfer_entry-keeps luck policy move fs source folder directory a n here s =
    elim (Bool-cases (path_eq (path_of source) (folder ++ source.name ∷ []))) [
      | inl same ↦ elim (Bool-cases (not move && is_keep_both policy)) [
        | inl both ↦
            rw (same, both)
              (settle-keeps luck keep_both move fs source folder directory a (λ x. cc) here s)
        | inr other ↦ rw (same, other) refl
      ]
      | inr apart ↦ elim (Bool-cases (exists_here (fs (folder ++ source.name ∷ [])))) [
        | inl there ↦
            rw (apart, there) (settle-keeps luck policy move fs source folder directory a n here s)
        | inr free ↦
            rw (apart, free)
              (place-keeps luck move fs (path_of source) (folder ++ source.name ∷ []) a
                (absent_apart fs a _ here free, s))
      ]
    ]
