-- ===== src/Files/Transfer.antt =====
-- backend/src/files/file_manager_service.cpp: Transfer, which copies or moves items into a folder.
pub mod Keeps
pub mod Whole
use space_station.Prelude.{
  Bool, Bool-cases, List, Option, Option-cases, Result, String, [], ap, ap₂, arith, err, false,
  fun_ext, guard, if◌then◌else◌, inl, inr, leb, ltb, map, max, min, none, not, ok, or_throw, refl,
  some, subst, suc, sym, true, zero, ℕ, ◌%◌, ◌&&◌, ◌*◌, ◌++◌, ◌+◌, ◌-◌, ◌/◌, ◌<◌, ◌==◌, ◌>>=◌, ◌>>◌,
  ◌^◌, ◌||◌, ◌↔◌, ◌∙◌, ◌∷◌, ◌≡◌, ◌≢◌, ◌≤◌, ◌⊎◌,
}
use space_station.Files.Copies.{keep_both_path}
use space_station.Files.Paths.{FilePath, path_eq, is_within}
use space_station.Files.Names.{
  Error, not_absolute, cannot_copy, cannot_move, is_root, nothing_selected, name_exists, same_place,
  invalid_policy, unreadable_path, into_itself, cannot_replace,
}
use space_station.Files.Disk.{
  Reached, Fs, move_tree, fails, is_directory, exists_here, copy_tree, remove_tree,
}
use space_station.Prelude.Bytes.{Bytes, bytes_eq, text}

-- conflict_policy
pub data Policy : Type 0 where
  on_error replace keep_both skip : Policy

unfoldable pub policy_of : Bytes → Option Policy
policy_of name =
    if bytes_eq name (text "error")
    then some on_error
    else if bytes_eq name (text "replace")
    then some replace
    else if bytes_eq name (text "keepBoth")
    then some keep_both
    else if bytes_eq name (text "skip")
    then some skip
    else none

-- A requested path: whether it is absolute, the path above its last name, and that name, if it is not
-- the root. The last name is an ordinary one: a path that ends in "." or ".." is not covered.
pub record Requested : Type 0 where
  pub absolute : Bool
  pub above : FilePath
  pub name : Option Bytes

-- An entry of a folder: its parent is canonical.
pub record Entry : Type 0 where
  pub parent : FilePath
  pub name : Bytes

abbrev pub path_of : Entry → FilePath
path_of e = e.parent ++ e.name ∷ []

-- How std::filesystem::rename ends.
pub data Renamed : Type 0 where
  done other_device refused : Renamed

-- What the operating system does with one item.
pub record Luck : Type 0 where
  pub cleared : Reached
  pub renamed : Renamed
  pub copied : Reached
  pub removed : Reached

pub data Status : Type 0 where
  completed skipped : Status

pub record Outcome : Type 0 where
  pub source : FilePath
  pub target : FilePath
  pub status : Status

abbrev pub is_keep_both : Policy → Bool
is_keep_both keep_both = true
is_keep_both on_error = not true
is_keep_both replace = not true
is_keep_both skip = not true

-- The file system with the error, or with nothing, if `failed` says so.
abbrev pub checked : Bool → Error → Fs → Fs × Result Error (Unit {0})
checked true e fs = (fs, err e)
checked false e fs = (fs, ok tt)

-- `rename`, or `copy` and `remove_all` from one device to another.
unfoldable pub move_item : Luck → Fs → FilePath → FilePath → Fs × Result Error (Unit {0})
move_item luck fs source target = elim luck.renamed [
  | done ↦ (move_tree fs source target, ok tt)
  | refused ↦ (fs, err cannot_move)
  | other_device ↦
      let copy = copy_tree luck.copied fs source target in
      if fails luck.copied
      then (copy, err cannot_move)
      else checked (fails luck.removed) cannot_move (remove_tree luck.removed copy source)
]

unfoldable pub copy_item : Luck → Fs → FilePath → FilePath → Fs × Result Error (Unit {0})
copy_item luck fs source target =
    checked (fails luck.copied) cannot_copy (copy_tree luck.copied fs source target)

unfoldable pub placed :
    FilePath → FilePath → Fs × Result Error (Unit {0}) → Fs × Result Error Outcome
placed source target (fs, err e) = (fs, err e)
placed source target (fs, ok u) =
    (fs, ok (record { source = source; target = target; status = completed }))

-- The last part of a turn.
unfoldable pub place : Luck → Bool → Fs → FilePath → FilePath → Fs × Result Error Outcome
place luck move fs source target =
    placed source target
      (if move then move_item luck fs source target else copy_item luck fs source target)

-- A target that exists.
unfoldable pub settle :
    Luck → Policy → Bool → Fs → Entry → FilePath → Bool → Fs × Result Error Outcome
settle luck on_error move fs source folder directory = (fs, err name_exists)
settle luck skip move fs source folder directory = (
  fs,
  ok (record { source = path_of source; target = folder ++ source.name ∷ []; status = skipped }),
)
settle luck keep_both move fs source folder directory =
    elim (keep_both_path fs folder source.name directory) [
      | err e ↦ (fs, err e)
      | ok name ↦ place luck move fs (path_of source) (folder ++ name ∷ [])
    ]
settle luck replace move fs source folder directory =
    let target = folder ++ source.name ∷ [] in
    let cleared = remove_tree luck.cleared fs target in
    if fails luck.cleared
    then (cleared, err cannot_replace)
    else place luck move cleared (path_of source) target

-- One turn of the loop, from the test of the target on.
unfoldable pub transfer_entry :
    Luck → Policy → Bool → Fs → Entry → FilePath → Bool → Fs × Result Error Outcome
transfer_entry luck policy move fs source folder directory =
    let target = folder ++ source.name ∷ [] in
    if path_eq (path_of source) target
    then (if not move && is_keep_both policy
        then settle luck keep_both move fs source folder directory
        else (fs, err same_place))
    else if exists_here (fs target)
    then settle luck policy move fs source folder directory
    else place luck move fs (path_of source) target

-- `results.push_back`, and the rest of the loop.
unfoldable pub noted : Outcome → Fs × Result Error (List Outcome) → Fs × Result Error (List Outcome)
noted outcome (fs, err e) = (fs, err e)
noted outcome (fs, ok outcomes) = (fs, ok (outcome ∷ outcomes))

unfoldable pub next_turn :
    Fs × Result Error Outcome
    → (Fs → Fs × Result Error (List Outcome))
    → Fs × Result Error (List Outcome)
next_turn (fs, err e) later = (fs, err e)
next_turn (fs, ok outcome) later = noted outcome (later fs)

module _ (canonical : FilePath → Option FilePath) where
  unfoldable pub find_entry : Fs → FilePath → Bytes → Result Error (Option Entry)
  find_entry fs above name = do
    parent ← or_throw (canonical above) unreadable_path
    guard (exists_here (fs (parent ++ name ∷ []))) unreadable_path
    ok (some (record { parent = parent; name = name }))

  -- ResolveEntry; the root has no name.
  unfoldable pub resolve_entry : Fs → Requested → Result Error (Option Entry)
  resolve_entry fs r = do
    guard r.absolute not_absolute
    elim r.name [ none ↦ ok none | some name ↦ find_entry fs r.above name ]

  -- The tests before the target is looked at.
  unfoldable pub check_source : Fs → FilePath → Requested → Result Error Entry
  check_source fs folder r = do
    found ← resolve_entry fs r
    source ← or_throw found is_root
    guard (not (is_directory (fs (path_of source)) && is_within folder (path_of source)))
        into_itself
    ok source

  unfoldable pub transfer_one :
      Luck → Policy → Bool → FilePath → Fs → Requested → Fs × Result Error Outcome
  transfer_one luck policy move folder fs r = elim (check_source fs folder r) [
    | err e ↦ (fs, err e)
    | ok source ↦
        transfer_entry luck policy move fs source folder (is_directory (fs (path_of source)))
  ]

  -- The loop, with what the operating system does with each item; the first error ends it.
  unfoldable pub transfer_loop :
      Policy → Bool → FilePath → Fs → List (Luck × Requested) → Fs × Result Error (List Outcome)
  transfer_loop policy move folder fs [] = (fs, ok [])
  transfer_loop policy move folder fs ((luck, r) ∷ rest) =
      next_turn (transfer_one luck policy move folder fs r)
        (λ fs'. transfer_loop policy move folder fs' rest)

  -- FileManagerService::Transfer; `folder` is what ResolveDirectory finds for the destination.
  unfoldable pub transfer :
      Bytes
      → Bool
      → Fs
      → Result Error FilePath
      → List (Luck × Requested)
      → Fs × Result Error (List Outcome)
  transfer conflict_policy move fs destination [] = (fs, err nothing_selected)
  transfer conflict_policy move fs destination (item ∷ items) = elim (policy_of conflict_policy) [
    | none ↦ (fs, err invalid_policy)
    | some policy ↦ elim destination [
      | err e ↦ (fs, err e)
      | ok folder ↦ transfer_loop policy move folder fs (item ∷ items)
    ]
  ]
