-- ===== src/Transfer/Tests/Committing.antt =====
-- backend/src/transfer/transfer.cpp: the promise of an upload at a concrete one.
use space_station.Prelude.{
  List, Option, [], length, none, refl, replicate, some, true, ◌++◌, ◌-◌, ◌∷◌, ◌≡◌,
}
use space_station.Transfer.Tests.{
  smooth, occupied, commit_message, toy_uncompress, toy_inflate, few_bytes,
}
use space_station.Transfer.Manifest.{
  Request, check_manifest, safe_file_name, is_unsafe, is_safe_identifier, expected_chunks,
  is_valid_signature,
}
use space_station.Transfer.Candidates.{find_blocks, scan_candidates, all_matched}
use space_station.Transfer.Receive.{
  Chunk, receive_all, receive_chunk, matches_session, is_valid_chunk, decode_body, read_all,
  store_block,
}
use space_station.Transfer.Checksum.{weak_checksum}
use space_station.Transfer.Disk.{write_at, slice}
use space_station.Prelude.Bytes.{Bytes, text, bytes_eq}
use space_station.Transfer.HandleFile.Honest.{upload_of}
use space_station.Transfer.HandleFile.Content.{Delivers, handle_file-Delivers}
use space_station.Transfer.HandleFile.{
  Upload, in_chunks, handle_file, receive_body, receive_file, plan, count_unmatched, matches_commit,
  commit_file, is_some, committed, put_in_place, send_reply,
}
use space_station.Transfer.Client.{start_file, build_signatures, build_loop}

-- A hash that tells files of at most 63 bytes apart.
abbrev short_hash : Bytes → Bytes
short_hash xs = length xs ∷ xs ++ replicate (63 - length xs) 0

abbrev word : Bytes
word = 10 ∷ 20 ∷ []

abbrev word_upload : Upload
word_upload = record {
  same_name = [];
  others = [];
  body = in_chunks (
      record {
        kind = text "chunk";
        session_id = text "session-1";
        file_id = text "file-001";
        chunk_index = 0;
        body_length = 2;
        uncompressed_length = 2;
        compression_algorithm = text "none";
        target_offset = 0;
        strong_hash = short_hash word;
        wire = word;
      }
      ∷ []);
  commit = some commit_message;
  finish = smooth;
}

handle_file-Delivers_example :
    Delivers short_hash 65536 word occupied
      (handle_file short_hash toy_uncompress toy_inflate tt true few_bytes
        (start_file short_hash 65536 (text "session-1") (text "file-001") (text "log.txt") word)
        word_upload
        occupied).0
      (handle_file short_hash toy_uncompress toy_inflate tt true few_bytes
        (start_file short_hash 65536 (text "session-1") (text "file-001") (text "log.txt") word)
        word_upload
        occupied).1
handle_file-Delivers_example =
    handle_file-Delivers short_hash toy_uncompress toy_inflate tt true few_bytes 65536
      (text "session-1") (text "file-001") (text "log.txt") word word_upload occupied

word_committed :
    (handle_file short_hash toy_uncompress toy_inflate tt true few_bytes
      (start_file short_hash 65536 (text "session-1") (text "file-001") (text "log.txt") word)
      word_upload
      occupied).1
    ≡ committed
unfolding start_file build_signatures build_loop receive_body handle_file check_manifest
    safe_file_name is_unsafe is_safe_identifier expected_chunks is_valid_signature bytes_eq
    receive_file plan find_blocks scan_candidates all_matched receive_all receive_chunk
    matches_session is_valid_chunk decode_body read_all weak_checksum store_block count_unmatched
    matches_commit commit_file write_at slice is_some put_in_place send_reply
word_committed = refl

abbrev never : Bytes → Option Bytes
never xs = none

abbrev word_request : Request
word_request =
    start_file short_hash 65536 (text "session-1") (text "file-001") (text "log.txt") word

abbrev honest : List Chunk → Upload
honest cs = upload_of ((10 ∷ 21 ∷ []) ∷ []) [] (text "session-1") (text "file-001") cs
