-- ===== src/Transfer/HandleFile.antt =====
-- backend/src/transfer/transfer.cpp, HandleFile: a whole upload, from the announcement to the commit.
-- The mutex of the destination makes it run alone on that file.
pub mod Safety
pub mod Content
pub mod Honest
use space_station.Prelude.{
  Bool, Bool-cases, List, Option, Option-cases, Result, String, [], ap, ap₂, arith, err, false,
  fun_ext, guard, if◌then◌else◌, inl, inr, leb, length, ltb, map, max, min, none, not, ok, or_throw,
  refl, replicate, some, subst, suc, sym, true, zero, ℕ, ◌%◌, ◌&&◌, ◌*◌, ◌++◌, ◌+◌, ◌-◌, ◌/◌, ◌<◌,
  ◌==◌, ◌>>=◌, ◌>>◌, ◌^◌, ◌||◌, ◌↔◌, ◌∙◌, ◌∷◌, ◌≡◌, ◌≢◌, ◌≤◌, ◌⊎◌,
}
use space_station.Transfer.Stream.Frames.{receive_stream}
use space_station.Transfer.Scan.{Progress}
use space_station.Transfer.Stream.{Inflated, StreamStart, Frame}
use space_station.Transfer.Candidates.{find_blocks}
use space_station.Transfer.Receive.{State, Chunk, receive_all}
use space_station.Transfer.Disk.{File, contents}
use space_station.Transfer.Manifest.{
  Request, Error, check_manifest, connection_closed, missing_commit, write_failed,
  permissions_failed, rename_failed,
}
use space_station.Prelude.Bytes.{Bytes, bytes_eq, text}

-- The "commit" message.
pub record Commit : Type 0 where
  pub kind : Bytes
  pub session_id : Bytes
  pub file_id : Bytes

-- The messages between the plan and the commit: the first is a "streamStart", or any other.
pub data Body : Type 0 where
  in_chunks : List Chunk → Body
  in_stream : StreamStart → List Frame → Body

-- How the end of an upload goes: whether the permissions of the destination could be put on the temporary
-- file, whether it could be renamed, and whether the last answer could be written to the connection.
pub record Finish : Type 0 where
  pub permissions_set : Bool
  pub renamed : Bool
  pub answered : Bool

-- What the client and the disk bring: the files that could be searched, the missing blocks, the commit
-- message, if the connection lasts until then, and how the end goes.
pub record Upload : Type 0 where
  pub same_name : List Bytes
  pub others : List Bytes
  pub body : Body
  pub commit : Option Commit
  pub finish : Finish

-- The destination and the temporary file of one name.
pub record Disk : Type 0 where
  pub destination : Option File
  pub temporary : Option File

pub data Reply : Type 0 where
  committed rejected target_exists : Reply
  threw : Error → Reply

-- SendJson of the last answer, which throws when the connection does not take it.
unfoldable pub send_reply : Finish → Reply → Reply
send_reply o reply = if o.answered then reply else threw write_failed

-- From the permissions to the answer, for a file whose hash is right.
unfoldable pub put_in_place : Finish → Disk → File → Disk × Reply
unfolding send_reply
put_in_place o d f =
    if not o.permissions_set
    then (record d { temporary = none }, threw permissions_failed)
    else if not o.renamed
    then (record d { temporary = none }, threw rename_failed)
    else (record { destination = some f; temporary = none }, send_reply o committed)

unfoldable pub is_some : Option File → Bool
is_some none = false
is_some (some f) = true

-- A file that resize_file has just made.
abbrev pub blank : ℕ → File
blank n = record { size = n; at = λ _. 0 }

-- `remaining = missing_indices.size()`
unfoldable pub count_unmatched : List Bool → ℕ
count_unmatched [] = 0
count_unmatched (m ∷ ms) = let rest = count_unmatched ms in if m then rest else suc rest

unfoldable pub matches_commit : Request → Commit → Bool
matches_commit r c =
    bytes_eq c.kind (text "commit")
    && bytes_eq c.session_id r.session_id
    && bytes_eq c.file_id r.file_id

module _ (sha256 : Bytes → Bytes) (uncompress : Bytes → ℕ → Option Bytes) {Z : Type 0}
    (inflate : Z → Bytes → Inflated Z) (fresh_inflater : Z) where
  -- The state when the plan is sent.
  unfoldable pub plan : (ℕ → Bool) → Request → Upload → State
  unfolding count_unmatched
  plan few r u =
      let p = find_blocks sha256 r.signatures r.chunk_size few u.same_name u.others (record {
        matched = replicate (length r.signatures) false;
        output = blank r.file_size;
        matched_bytes = 0;
      }) in
      record { progress = p; remaining = count_unmatched p.matched; acknowledged = [] }

  -- `if (remaining > 0)`
  unfoldable pub receive_body : Request → State → Body → Result Error Progress
  receive_body r st body = if st.remaining == 0 then ok st.progress else elim body [
    | in_chunks cs ↦ do st' ← receive_all sha256 uncompress r st cs; ok st'.progress
    | in_stream s frames ↦ do
      end ← receive_stream sha256 inflate r fresh_inflater st.progress st.remaining s frames
      ok end.writer.progress
  ]

  -- From the plan to the last test.
  unfoldable pub receive_file : (ℕ → Bool) → Request → Upload → Result Error File
  receive_file few r u = do
    p ← receive_body r (plan few r u) u.body
    c ← or_throw u.commit connection_closed
    guard (matches_commit r c) missing_commit
    ok p.output

  -- The hash of the whole file, the rename and the last answer. TemporaryFileGuard removes the temporary
  -- file when the function is left, whatever the way; after the rename it is not there.
  unfoldable pub commit_file : Finish → Request → Disk → Result Error File → Disk × Reply
  commit_file o r d (err e) = (record d { temporary = none }, threw e)
  commit_file o r d (ok f) =
      if bytes_eq (sha256 (contents f)) r.full_hash
      then put_in_place o d f
      else (record d { temporary = none }, send_reply o rejected)

  unfoldable pub handle_file : Bool → (ℕ → Bool) → Request → Upload → Disk → Disk × Reply
  unfolding is_some
  handle_file overwrite few r u d = elim (check_manifest r) [
    | err e ↦ (d, threw e)
    | ok _ ↦
        if not overwrite && is_some d.destination
        then (d, send_reply u.finish target_exists)
        else commit_file u.finish r d (receive_file few r u)
  ]
