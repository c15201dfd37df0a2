-- ===== src/Files/Tests.antt =====
-- backend/src/files/file_manager_service.cpp: the theorems at concrete inputs.
use space_station.Prelude.{
  Bool, Option, [], arith, false, if◌then◌else◌, inl, none, ok, refl, some, subst, true, ℕ, ◌&&◌,
  ◌++◌, ◌<◌, ◌↔◌, ◌∷◌, ◌≡◌, ◌≢◌, ◌≤◌,
}
use mathlib.Core.Bool.{false≢true}
use space_station.Files.Entries.Moves.{trash_one-keeps, Moved, rename-Moved}
use space_station.Files.Upload.Accepted.{Accepted, write_upload_chunk-Accepted}
use space_station.Files.Transfer.Keeps.{Present}
use space_station.Files.Upload.Refusals.{write_upload_chunk-keeps, may_replace}
use space_station.Files.Names.{validate_upload_id, validate_name, Component, contains}
use space_station.Files.Transfer.Whole.{Spared, transfer-keeps}
use space_station.Files.Upload.Whole.{Arrived, send_parts, send_parts-whole}
use space_station.Files.Upload.Parts.{Ready, temporary_of, target, destination_of}
use space_station.Prelude.Bytes.{bytes_eq, Bytes, text, bytes_eq_sound}
use space_station.Files.Entries.{rename, trash_one, movable, rename_paths}
use space_station.Files.Transfer.{transfer, Entry, Requested, Luck, done, resolve_entry, find_entry}
use space_station.Files.Paths.{path_eq, FilePath, is_within, is_within_iff}
use space_station.Files.Copies.{
  keep_both_path, keep_both_loop, candidate_name, keep_both_path-first, copy_suffix, stem,
  extension, extension_start, last_dot,
}
use space_station.Files.Upload.{
  write_upload_chunk, Target, Faults, check_part, temporary_name, Part, no_faults,
  resolve_directory, is_in_range, reset_file, store_part, reports_failure, after_write, answer,
  append_content, landed_bytes,
}
use space_station.Files.Disk.{
  Fs, exists_here, directory, is_directory, file, follow, is_writable, read_file, write_file, put,
}

abbrev home : FilePath
home = text "home" ∷ []

abbrev notes : FilePath
notes = home ++ text "notes.txt" ∷ []

-- A folder with one file.
abbrev small_fs : Fs
small_fs q =
    if path_eq q []
    then some directory
    else if path_eq q home
    then some directory
    else if path_eq q notes
    then some (file (text "old"))
    else none

abbrev canonical_home : Bytes → Option FilePath
canonical_home path = some home

abbrev same_path : FilePath → Option FilePath
same_path p = some p

abbrev part : Part
part = record {
  upload_id = text "up-1";
  directory_path = text "/home";
  file_name = text "new.txt";
  offset = 0;
  total_size = 5;
  content = text "hel";
}

part-Ready : Ready canonical_home home part
part-Ready = record {
  id = unfold validate_upload_id bytes_eq in refl;
  absolute = refl;
  resolved = refl;
  name = unfold validate_name contains bytes_eq in refl;
  apart = unfold temporary_name in λ e. cc;
}

small_home : small_fs home ≡ some directory
unfolding path_eq bytes_eq
small_home = refl

new_absent : is_directory (small_fs (destination_of home part)) ≡ false
unfolding path_eq bytes_eq
new_absent = refl

part_absent : small_fs (temporary_of home part) ≡ none
unfolding path_eq bytes_eq temporary_name
part_absent = refl

send_parts-whole_example :
    Arrived canonical_home home part
      (text "hello")
      small_fs
      (send_parts canonical_home small_fs part (text "hel") (text "lo" ∷ []))
send_parts-whole_example =
    send_parts-whole canonical_home home small_fs part (text "hel") (text "lo" ∷ []) part-Ready
      small_home new_absent part_absent refl refl (omega arith, tt)

-- A write of which one byte is lost, with a report.
abbrev short_write : Faults
short_write = record no_faults { landed = some (2, true) }

abbrev part_target : Target
part_target = target home part

part_checked : check_part canonical_home small_fs part ≡ ok part_target
unfolding check_part validate_upload_id resolve_directory validate_name contains is_in_range path_eq
    bytes_eq
part_checked = refl

short_not_final :
    may_replace (write_upload_chunk canonical_home short_write small_fs part).1 ≡ false
unfolding write_upload_chunk check_part validate_upload_id resolve_directory validate_name contains
    is_in_range path_eq bytes_eq reset_file is_writable follow read_file write_file put store_part
    reports_failure temporary_name
short_not_final = refl

part_accepted :
    (write_upload_chunk canonical_home no_faults small_fs part).1
    ≡ ok (record { uploaded_bytes = 3; total_bytes = 5; complete = false })
unfolding write_upload_chunk check_part validate_upload_id resolve_directory validate_name contains
    is_in_range path_eq bytes_eq reset_file is_writable follow read_file write_file put store_part
    reports_failure temporary_name after_write answer append_content landed_bytes
part_accepted = refl

notes_apart : notes ≢ part_target.temporary
unfolding temporary_name
notes_apart e = cc

write_upload_chunk-keeps_example :
    (write_upload_chunk canonical_home short_write small_fs part).0 notes ≡ small_fs notes
write_upload_chunk-keeps_example =
    write_upload_chunk-keeps canonical_home short_write small_fs part part_target notes part_checked
      (inl part_absent) short_not_final notes_apart

write_upload_chunk-Accepted_example :
    (t : Target) × (check_part canonical_home small_fs part ≡ ok t)
    × Accepted small_fs part t (record { uploaded_bytes = 3; total_bytes = 5; complete = false })
write_upload_chunk-Accepted_example =
    write_upload_chunk-Accepted canonical_home no_faults small_fs part _ part_accepted

notes_copy : keep_both_path small_fs home (text "notes.txt") false ≡ ok (text "notes copy.txt")
unfolding keep_both_path keep_both_loop candidate_name copy_suffix stem extension extension_start
    last_dot path_eq bytes_eq
notes_copy = refl

keep_both_path-first_example :
    (exists_here (small_fs (home ++ text "notes copy.txt" ∷ [])) ≡ false)
    × ((i : ℕ) × (1 ≤ i)
        × (i ≤ 9999)
        × (text "notes copy.txt" ≡ candidate_name (text "notes.txt") false i)
        × ((j : ℕ)
            → 1 ≤ j
            → j < i
            → exists_here (small_fs (home ++ candidate_name (text "notes.txt") false j ∷ []))
              ≡ true))
keep_both_path-first_example =
    keep_both_path-first small_fs home (text "notes.txt") false (text "notes copy.txt") notes_copy

abbrev requested_notes : Requested
requested_notes = record { absolute = true; above = home; name = some (text "notes.txt") }

abbrev smooth : Luck
smooth = record { cleared = none; renamed = done; copied = none; removed = none }

policy_apart : bytes_eq (text "keepBoth") (text "replace") ≡ false
unfolding bytes_eq
policy_apart = refl

both : (a b : Bool) → (a && b) ≡ true → (a ≡ true) × (b ≡ true)
both a b h = ground arith

home-Present : Present small_fs home
unfolding is_within path_eq
home-Present [] w = refl
home-Present (x ∷ []) w =
    let e = bytes_eq_sound (text "home") x (both (bytes_eq (text "home") x) true w).0 in
    subst (λ y. exists_here (small_fs (y ∷ [])) ≡ true) e (unfold bytes_eq in refl)
home-Present (x ∷ y ∷ ys) w = absurd (false≢true (both (bytes_eq (text "home") x) false w).1)

notes-Present : Present small_fs notes
unfolding is_within path_eq
notes-Present [] w = refl
notes-Present (x ∷ []) w =
    let e = bytes_eq_sound (text "home") x (both (bytes_eq (text "home") x) true w).0 in
    subst (λ y. exists_here (small_fs (y ∷ [])) ≡ true) e (unfold bytes_eq in refl)
notes-Present (x ∷ y ∷ []) w =
    let (v, u) = both (bytes_eq (text "home") x) (bytes_eq (text "notes.txt") y && true) w in
    let e = bytes_eq_sound (text "home") x v in
    let f = bytes_eq_sound (text "notes.txt") y (both (bytes_eq (text "notes.txt") y) true u).0 in
    subst (λ z. exists_here (small_fs (z ∷ y ∷ [])) ≡ true) e
      (subst (λ z. exists_here (small_fs (text "home" ∷ z ∷ [])) ≡ true) f
        (unfold bytes_eq in refl))
notes-Present (x ∷ y ∷ z ∷ zs) w =
    let (_, u) = both (bytes_eq (text "home") x) (bytes_eq (text "notes.txt") y && false) w in
    absurd (false≢true (both (bytes_eq (text "notes.txt") y) false u).1)

transfer-keeps_example :
    (transfer same_path
        (text "keepBoth")
        false
        small_fs
        (ok home)
        ((smooth, requested_notes) ∷ [])).0
      notes
    ≡ small_fs notes
transfer-keeps_example =
    transfer-keeps same_path (text "keepBoth") false small_fs (ok home)
      ((smooth, requested_notes) ∷ []) notes policy_apart notes-Present (λ m. cc)

renamed_notes : (rename same_path false small_fs requested_notes (text "kept.txt")).1 ≡ ok tt
unfolding rename rename_paths movable resolve_entry find_entry validate_name contains follow path_eq
    bytes_eq
renamed_notes = refl

rename-Moved_example :
    (source : Entry) × (movable same_path small_fs requested_notes ≡ ok source)
    × Component (text "kept.txt")
    × Moved small_fs
        (rename same_path false small_fs requested_notes (text "kept.txt")).0
        source
        (source.parent ++ text "kept.txt" ∷ [])
rename-Moved_example =
    rename-Moved same_path false small_fs requested_notes (text "kept.txt") renamed_notes

home-Spared : Spared same_path home (smooth, requested_notes)
unfolding is_within bytes_eq
home-Spared parent name x y =
    subst (λ p. is_within home (p ++ name ∷ []) ≡ false) (some-injective x) refl
  where
    some-injective : {p q : FilePath} → ◌≡◌ {A = Option FilePath} (some p) (some q) → p ≡ q
    some-injective e = cc

trash_one-keeps_example :
    (trash_one same_path smooth (text "trash" ∷ []) small_fs requested_notes).0 home ≡ small_fs home
trash_one-keeps_example =
    trash_one-keeps same_path smooth (text "trash" ∷ []) small_fs requested_notes home home-Present
      home-Spared

is_within_iff_example : (is_within notes home ≡ true) ↔ ((rest : FilePath) × (notes ≡ home ++ rest))
is_within_iff_example = is_within_iff notes home
