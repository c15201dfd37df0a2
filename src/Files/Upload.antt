-- ===== src/Files/Upload.antt =====
-- backend/src/files/file_manager_service.cpp: WriteUploadChunk.
pub mod Parts
pub mod Whole
pub mod Refusals
pub mod Accepted
use space_station.Prelude.{
  Bool, Bool-cases, List, Option, Option-cases, Result, String, [], ap, ap₂, arith, err, false,
  fun_ext, guard, if◌then◌else◌, inl, inr, leb, length, ltb, map, max, min, none, not, ok, or_throw,
  refl, some, subst, suc, sym, take, true, zero, ℕ, ◌%◌, ◌&&◌, ◌*◌, ◌++◌, ◌+◌, ◌-◌, ◌/◌, ◌<◌, ◌==◌,
  ◌>>=◌, ◌>>◌, ◌^◌, ◌||◌, ◌↔◌, ◌∙◌, ◌∷◌, ◌≡◌, ◌≢◌, ◌≤◌, ◌⊎◌,
}
use space_station.Files.Names.{
  Error, validate_upload_id, not_contiguous, not_absolute, validate_name, cannot_check,
  invalid_range, cannot_open_temporary, cannot_create_temporary, same_name_directory,
  unreadable_path, write_failed, not_a_directory, cannot_overwrite, cannot_finish,
}
use space_station.Files.Disk.{
  Fs, write_file, read_file, is_writable, is_directory, exists_here, put, move_entry,
}
use space_station.Prelude.Bytes.{Bytes, text}
use space_station.Files.Paths.{FilePath}

-- What the operating system may refuse during one call, beside what the state of the file system
-- forbids. `landed` is how much of the content reaches the file, if not all of it, and whether the
-- stream then reports the failure: it does not when the buffer is only written out as it closes.
pub record Faults : Type 0 where
  pub reset : Bool
  pub append : Bool
  pub landed : Option (ℕ × Bool)
  pub status : Bool
  pub remove : Bool
  pub rename : Bool

abbrev pub no_faults : Faults
no_faults = record {
  reset = false;
  append = false;
  landed = none;
  status = false;
  remove = false;
  rename = false;
}

-- The arguments, the directory's path being absolute or not.
pub record Part : Type 0 where
  pub upload_id : Bytes
  pub directory_path : Bytes
  pub file_name : Bytes
  pub offset : ℕ
  pub total_size : ℕ
  pub content : Bytes

pub record Target : Type 0 where
  pub destination : FilePath
  pub temporary : FilePath

-- The answer.
pub record Uploaded : Type 0 where
  pub uploaded_bytes : ℕ
  pub total_bytes : ℕ
  pub complete : Bool

abbrev pub is_absolute : Bytes → Bool
is_absolute [] = not true
is_absolute (c ∷ cs) = c == b'/'

unfoldable pub temporary_name : Bytes → Bytes
temporary_name upload_id = text ".space-station-upload-" ++ upload_id ++ text ".part"

-- `content.size() > total_size - offset` after `offset > total_size`.
unfoldable pub is_in_range : Part → Bool
is_in_range p = not (ltb p.total_size p.offset || ltb (p.total_size - p.offset) (length p.content))

-- `offset == 0`: the temporary file is made empty.
unfoldable pub reset_file : Faults → Fs → FilePath → Part → Result Error Fs
reset_file f fs temporary p =
    if p.offset == 0
    then (guard (not f.reset && is_writable fs temporary) cannot_create_temporary
        >> ok (write_file fs temporary []))
    else ok fs

unfoldable pub landed_bytes : Option (ℕ × Bool) → Bytes → Bytes
landed_bytes none content = content
landed_bytes (some l) content = take l.0 content

unfoldable pub reports_failure : Option (ℕ × Bool) → Bool
reports_failure none = not true
reports_failure (some l) = l.1

-- The bytes are appended; the file stays changed when the write then fails.
unfoldable pub append_content : Faults → Fs → Target → Part → Bytes → Fs
append_content f fs t p stored =
    write_file fs t.temporary (stored ++ landed_bytes f.landed p.content)

-- The whole file is there: it takes the place of the destination.
unfoldable pub finish_upload : Faults → Fs → Target → Fs × Result Error (Unit {0})
finish_upload f fs t =
    if f.status
    then (fs, err cannot_check)
    else if is_directory (fs t.destination)
    then (fs, err same_name_directory)
    else if exists_here (fs t.destination) && f.remove
    then (fs, err cannot_overwrite)
    else let cleared = if exists_here (fs t.destination) then put fs t.destination none else fs in
      if f.rename || not (exists_here (cleared t.temporary))
      then (cleared, err cannot_finish)
      else (move_entry cleared t.temporary t.destination, ok tt)

unfoldable pub answer : Part → Uploaded
answer p =
    let uploaded = p.offset + length p.content in
    record {
      uploaded_bytes = uploaded;
      total_bytes = p.total_size;
      complete = uploaded == p.total_size;
    }

-- What the end of the upload is answered with.
unfoldable pub answered : Part → Fs × Result Error (Unit {0}) → Fs × Result Error Uploaded
answered p (fs, err e) = (fs, err e)
answered p (fs, ok done) = (fs, ok (answer p))

-- From `uploaded == total_size` on.
unfoldable pub after_write : Faults → Fs → Target → Part → Fs × Result Error Uploaded
after_write f fs t p =
    if p.offset + length p.content == p.total_size
    then answered p (finish_upload f fs t)
    else (fs, ok (answer p))

-- From the test of the offset on.
unfoldable pub store_part : Faults → Fs → Target → Part → Fs × Result Error Uploaded
store_part f fs t p = elim (read_file fs t.temporary) [
  | none ↦ (fs, err not_contiguous)
  | some stored ↦
      if not (length stored == p.offset)
      then (fs, err not_contiguous)
      else if f.append
      then (fs, err cannot_open_temporary)
      else if reports_failure f.landed
      then (append_content f fs t p stored, err write_failed)
      else after_write f (append_content f fs t p stored) t p
]

module _ (canonical : Bytes → Option FilePath) where
  -- ResolveDirectory of a path that is not empty, with std::filesystem::canonical as a parameter.
  unfoldable pub resolve_directory : Fs → Bytes → Result Error FilePath
  resolve_directory fs path = do
    guard (is_absolute path) not_absolute
    resolved ← or_throw (canonical path) unreadable_path
    guard (is_directory (fs resolved)) not_a_directory
    ok resolved

  unfoldable pub check_part : Fs → Part → Result Error Target
  check_part fs p = do
    validate_upload_id p.upload_id
    parent ← resolve_directory fs p.directory_path
    name ← validate_name p.file_name
    guard (is_in_range p) invalid_range
    ok (record {
      destination = parent ++ name ∷ [];
      temporary = parent ++ temporary_name p.upload_id ∷ [];
    })

  unfoldable pub write_upload_chunk : Faults → Fs → Part → Fs × Result Error Uploaded
  write_upload_chunk f fs p = elim (check_part fs p) [
    | err e ↦ (fs, err e)
    | ok t ↦ elim (reset_file f fs t.temporary p) [
      | err e ↦ (fs, err e)
      | ok reset ↦ store_part f reset t p
    ]
  ]
