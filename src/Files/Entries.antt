-- ===== src/Files/Entries.antt =====
-- backend/src/files/file_manager_service.cpp: CreateDirectory, Rename, Remove and MoveToTrash.
pub mod Moves
use space_station.Prelude.{
  Bool, Bool-cases, List, Option, Option-cases, Result, String, [], ap, ap₂, arith, err, false,
  fun_ext, guard, if◌then◌else◌, inl, inr, leb, ltb, map, max, min, none, not, ok, or_throw, refl,
  some, subst, suc, sym, true, zero, ℕ, ◌%◌, ◌&&◌, ◌*◌, ◌++◌, ◌+◌, ◌-◌, ◌/◌, ◌<◌, ◌==◌, ◌>>=◌, ◌>>◌,
  ◌^◌, ◌||◌, ◌↔◌, ◌∙◌, ◌∷◌, ◌≡◌, ◌≢◌, ◌≤◌, ◌⊎◌,
}
use space_station.Files.Copies.{keep_both_path}
use space_station.Prelude.Bytes.{Bytes}
use space_station.Files.Names.{
  Error, validate_name, name_exists, cannot_move, is_root, cannot_remove, cannot_create,
}
use space_station.Files.Transfer.{
  Requested, Luck, Entry, resolve_entry, move_item, checked, path_of,
}
use space_station.Files.Paths.{FilePath}
use space_station.Files.Disk.{
  Fs, Reached, exists_here, is_directory, follow, fails, put, move_tree, directory, remove_tree,
}

unfoldable pub new_path : Result Error FilePath → Bytes → Result Error FilePath
new_path parent name = do folder ← parent; valid ← validate_name name; ok (folder ++ valid ∷ [])

-- CreateDirectory, in the folder that ResolveDirectory has found; `refused` is an error of the system.
unfoldable pub create_directory :
    Bool → Fs → Result Error FilePath → Bytes → Fs × Result Error (Unit {0})
create_directory refused fs parent name = elim (new_path parent name) [
  | err e ↦ (fs, err e)
  | ok destination ↦
      if is_directory (fs (follow fs destination))
      then (fs, err name_exists)
      else if refused || exists_here (fs destination)
      then (fs, err cannot_create)
      else (put fs destination (some directory), ok tt)
]

module _ (canonical : FilePath → Option FilePath) where
  -- The entry that is renamed, removed or put into the trash: not the root.
  unfoldable pub movable : Fs → Requested → Result Error Entry
  movable fs r = do found ← resolve_entry canonical fs r; or_throw found is_root

  -- The two paths of Rename.
  unfoldable pub rename_paths : Fs → Requested → Bytes → Result Error (Entry × FilePath)
  rename_paths fs r name = do
    source ← movable fs r
    new ← validate_name name
    guard (not (exists_here (fs (follow fs (source.parent ++ new ∷ []))))) name_exists
    ok (source, source.parent ++ new ∷ [])

  -- Rename
  unfoldable pub rename : Bool → Fs → Requested → Bytes → Fs × Result Error (Unit {0})
  rename refused fs r name = elim (rename_paths fs r name) [
    | err e ↦ (fs, err e)
    | ok paths ↦
        if refused then (fs, err cannot_move) else (move_tree fs (path_of paths.0) paths.1, ok tt)
  ]

  -- Remove, without the count that it returns.
  unfoldable pub remove : Reached → Fs → Requested → Fs × Result Error (Unit {0})
  remove reached fs r = elim (movable fs r) [
    | err e ↦ (fs, err e)
    | ok target ↦ checked (fails reached) cannot_remove (remove_tree reached fs (path_of target))
  ]

  -- The name of an item in the trash.
  unfoldable pub trash_name : Fs → FilePath → Entry → Result Error Bytes
  trash_name fs trash source =
      if exists_here (fs (trash ++ source.name ∷ []))
      then keep_both_path fs trash source.name (is_directory (fs (path_of source)))
      else ok source.name

  unfoldable pub trash_paths : FilePath → Fs → Requested → Result Error (Entry × FilePath)
  trash_paths trash fs r = do
    source ← movable fs r
    name ← trash_name fs trash source
    ok (source, trash ++ name ∷ [])

  -- One turn of the loop of MoveToTrash, into the folder `trash`.
  unfoldable pub trash_one : Luck → FilePath → Fs → Requested → Fs × Result Error (Unit {0})
  trash_one luck trash fs r = elim (trash_paths trash fs r) [
    | err e ↦ (fs, err e)
    | ok paths ↦ move_item luck fs (path_of paths.0) paths.1
  ]
