-- ===== src/Transfer/Tests.antt =====
-- backend/src/transfer/transfer.cpp: the theorems at concrete inputs. The hash is a toy of the right
-- length, and a compressed body is the body without a last byte that it repeats.
pub mod Streaming
pub mod Sending
pub mod Committing
use space_station.Transfer.HandleFile.{
  count_unmatched, matches_commit, commit_file, is_some, committed, threw, Finish, put_in_place,
  send_reply, in_chunks, receive_body,
}
use space_station.Prelude.{
  Bool, Bool-cases, List, Option, Option-cases, String, [], ap, ap₂, arith, drop, err, false,
  fun_ext, if◌then◌else◌, inl, inr, leb, length, ltb, map, max, min, none, not, ok, refl, replicate,
  some, subst, suc, sym, take, true, zero, ℕ, ◌%◌, ◌&&◌, ◌*◌, ◌++◌, ◌+◌, ◌-◌, ◌/◌, ◌<◌, ◌==◌, ◌>>=◌,
  ◌>>◌, ◌^◌, ◌||◌, ◌↔◌, ◌∙◌, ◌∷◌, ◌≡◌, ◌≢◌, ◌≤◌, ◌⊎◌,
}
use space_station.Transfer.Stream.Frames.{
  receive_stream, Stream, receive_frames, start_stream, receive_frame, is_valid_frame,
  max_stream_wire, inflate_loop, frame_fuel, after, inflate_fails, end_stream, is_complete,
}
use space_station.Transfer.Stream.Complete.{receive_stream-Verified}
use space_station.Transfer.Stream.Ends.{Progresses, receive_stream-ends}
use space_station.Transfer.Stream.{
  Inflated, stream_end, StreamStart, Frame, expected_length, missing_from, matches_start,
  write_decoded, write_loop, write_turn, write_part, finish_block, next_block,
}
use space_station.Transfer.Receive.Complete.{Inv, receive_all-Verified}
use space_station.Transfer.Checksum.Rolling.{roll-weak_checksum}
use space_station.Transfer.Scan.Windows.{scan_windows, scan_size-windows}
use space_station.Transfer.Candidates.Sound.{find_blocks-Verified}
use space_station.Transfer.Candidates.{
  find_blocks, scan_candidates, scan_candidate, scan_sizes, window_sizes, all_matched,
}
use space_station.Transfer.HandleFile.Safety.{Ends, handle_file-Ends}
use space_station.Prelude.Bytes.{Bytes, text, bytes_eq}
use space_station.Transfer.Receive.Integrity.{Verified}
use space_station.Transfer.Manifest.{
  Request, check_manifest, safe_file_name, is_unsafe, is_safe_identifier, expected_chunks,
  is_valid_signature, Error, still_running, write_failed,
}
use space_station.Transfer.Scan.{
  Progress, Signature, lookup_indices, scan_size, scan_loop, visit, try_targets, order,
}
use space_station.Transfer.Manifest.Bounds.{Accepted, check_manifest-Accepted}
use space_station.Transfer.Disk.{File, write_at, slice}
use space_station.Transfer.Receive.{
  Chunk, receive_all, State, store_block, receive_chunk, matches_session, is_valid_chunk,
  decode_body, read_all, decompress_zlib,
}
use space_station.Transfer.Checksum.{roll, weak_checksum}
use space_station.Transfer.HandleFile.{
  Commit, Upload, Disk, handle_file, blank, receive_file, plan, count_unmatched,
}

abbrev pub toy_hash : Bytes → Bytes
toy_hash xs = weak_checksum xs ∷ replicate 63 0

abbrev pub toy_uncompress : Bytes → ℕ → Option Bytes
toy_uncompress xs n = some (xs ++ replicate (n - length xs) 0)

-- A stream of which each byte stands for itself, and which ends with its input.
abbrev pub toy_inflate : Unit {0} → Bytes → Inflated (Unit {0})
toy_inflate z input = record { code = stream_end; rest = []; produced = input; inflater = tt }

abbrev pub block : Bytes
block = 10 ∷ 20 ∷ 0 ∷ 0 ∷ []

abbrev pub signature : Signature
signature = record { weak = weak_checksum block; strong = toy_hash block; size = 4 }

-- A file of one block of 4 bytes.
abbrev pub request : Request
request = record {
  session_id = text "session-1";
  file_id = text "file-001";
  name = text "log.txt";
  file_size = 4;
  chunk_size = 65536;
  full_hash = toy_hash block;
  signatures_is_array = true;
  signatures = signature ∷ [];
}

-- The block, compressed to two bytes.
abbrev chunk : Chunk
chunk = record {
  kind = text "chunk";
  session_id = text "session-1";
  file_id = text "file-001";
  chunk_index = 0;
  body_length = 2;
  uncompressed_length = 4;
  compression_algorithm = text "zlib";
  target_offset = 0;
  strong_hash = toy_hash block;
  wire = 10 ∷ 20 ∷ [];
}

abbrev pub commit_message : Commit
commit_message = record {
  kind = text "commit";
  session_id = text "session-1";
  file_id = text "file-001";
}

abbrev pub smooth : Finish
smooth = record { permissions_set = true; renamed = true; answered = true }

abbrev upload : Upload
upload = record {
  same_name = (10 ∷ 21 ∷ 0 ∷ 0 ∷ 0 ∷ []) ∷ [];
  others = [];
  body = in_chunks (chunk ∷ []);
  commit = some commit_message;
  finish = smooth;
}

abbrev old_file : File
old_file = record { size = 1; at = λ _. 7 }

abbrev pub occupied : Disk
occupied = record { destination = some old_file; temporary = none }

abbrev pub few_bytes : ℕ → Bool
few_bytes n = leb n 2

handle_file-Ends_example :
    Ends toy_hash true request occupied
      (handle_file toy_hash toy_uncompress toy_inflate tt true few_bytes request upload occupied).0
      (handle_file toy_hash toy_uncompress toy_inflate tt true few_bytes request upload occupied).1
handle_file-Ends_example =
    handle_file-Ends toy_hash toy_uncompress toy_inflate tt true few_bytes request upload occupied

request_passes : check_manifest request ≡ ok tt
unfolding check_manifest safe_file_name is_unsafe is_safe_identifier expected_chunks
    is_valid_signature bytes_eq
request_passes = refl

check_manifest-Accepted_example : Accepted request
check_manifest-Accepted_example = check_manifest-Accepted request request_passes

roll-weak_checksum_example :
    roll 3 (weak_checksum (250 ∷ 7 ∷ 90 ∷ [])) 250 13 ≡ weak_checksum (7 ∷ 90 ∷ 13 ∷ [])
roll-weak_checksum_example = roll-weak_checksum 250 13 (7 ∷ 90 ∷ []) (omega arith) (omega arith)

abbrev pub fresh : Progress
fresh = record { matched = false ∷ []; output = blank 4; matched_bytes = 0 }

abbrev haystack : Bytes
haystack = 1 ∷ 10 ∷ 20 ∷ 0 ∷ 0 ∷ 9 ∷ []

abbrev table : ℕ → List ℕ
table = lookup_indices (signature ∷ []) (false ∷ []) 0 4

scan_size-windows_example : scan_size toy_hash (signature ∷ []) 65536 table 4 haystack fresh ≡ (
    if ltb (length haystack) 4
    then fresh
    else scan_windows toy_hash
        (signature ∷ [])
        65536
        table
        (take 4 haystack)
        (drop 4 haystack)
        fresh)
scan_size-windows_example =
    scan_size-windows toy_hash (signature ∷ []) 65536 table 4 haystack fresh (omega arith)
      (omega arith, (omega arith, (omega arith, (omega arith, (omega arith, (omega arith, tt))))))

pub fresh-Verified : Verified toy_hash (signature ∷ []) 65536 fresh
fresh-Verified = record { same_length = refl; hashed = λ i e. ground arith }

find_blocks-Verified_example :
    Verified toy_hash
      (signature ∷ [])
      65536
      (find_blocks toy_hash (signature ∷ []) 65536 few_bytes [] (haystack ∷ []) fresh)
find_blocks-Verified_example =
    find_blocks-Verified toy_hash (signature ∷ []) 65536 (omega arith, tt) few_bytes []
      (haystack ∷ []) fresh fresh-Verified

abbrev waiting : State
waiting = record { progress = fresh; remaining = 1; acknowledged = [] }

waiting-Inv : Inv toy_hash request waiting
waiting-Inv = record { verified = fresh-Verified; counted = refl }

abbrev finished : State
finished = store_block toy_hash toy_uncompress request waiting 0 block

chunk_received : receive_all toy_hash toy_uncompress request waiting (chunk ∷ []) ≡ ok finished
unfolding receive_all receive_chunk matches_session is_valid_chunk decode_body read_all
    decompress_zlib bytes_eq weak_checksum store_block
chunk_received = refl

receive_all-Verified_example :
    Verified toy_hash (signature ∷ []) 65536 finished.progress
    × (finished.progress.matched ≡ replicate 1 true)
receive_all-Verified_example =
    receive_all-Verified toy_hash toy_uncompress request waiting finished (chunk ∷ [])
      (omega arith, tt) waiting-Inv chunk_received

upload_committed :
    (handle_file toy_hash toy_uncompress toy_inflate tt true few_bytes request upload occupied).1
    ≡ committed
unfolding receive_body handle_file check_manifest safe_file_name is_unsafe is_safe_identifier
    expected_chunks is_valid_signature bytes_eq receive_file plan find_blocks scan_candidates
    scan_candidate scan_sizes scan_size scan_loop visit try_targets lookup_indices window_sizes
    all_matched order receive_all receive_chunk matches_session is_valid_chunk decode_body read_all
    decompress_zlib weak_checksum store_block count_unmatched matches_commit commit_file write_at
    slice roll is_some put_in_place send_reply
upload_committed = refl

-- The connection is lost after the rename: the file is in place, and no answer arrives.
answer_lost :
    (handle_file toy_hash toy_uncompress toy_inflate tt true few_bytes request
      (record upload { finish = record smooth { answered = false } })
      occupied).1
    ≡ threw write_failed
unfolding receive_body handle_file check_manifest safe_file_name is_unsafe is_safe_identifier
    expected_chunks is_valid_signature bytes_eq receive_file plan find_blocks scan_candidates
    scan_candidate scan_sizes scan_size scan_loop visit try_targets lookup_indices window_sizes
    all_matched order receive_all receive_chunk matches_session is_valid_chunk decode_body read_all
    decompress_zlib weak_checksum store_block count_unmatched matches_commit commit_file write_at
    slice roll is_some put_in_place send_reply
answer_lost = refl
