-- ===== src/Transfer/HandleFile/Honest.antt =====
-- backend/src/transfer/transfer.cpp: an upload of the client runs through the server to its answer.
use space_station.Prelude.{Bool, List, none, some, true, ◌≡◌, ◌≢◌}
use space_station.Transfer.HandleFile.{
  Disk, File, Reply, Upload, committed, contents, in_chunks, rejected,
}
use space_station.Transfer.Receive.{Chunk}
use space_station.Prelude.Bytes.{Bytes, text}

-- The end of an upload whose blocks are all there, as the file `f`: it is committed, or its hash as a
-- whole is not the announced one and it is rejected.
pub data Settles (sha256 : Bytes → Bytes) (content : Bytes) (f : File) (d d' : Disk) (reply : Reply)
    : Type 0 where
  committed_as :
      reply ≡ committed
      → d'.destination ≡ some f
      → d'.temporary ≡ none
      → sha256 (contents f) ≡ sha256 content
      → Settles sha256 content f d d' reply
  rejected_as :
      reply ≡ rejected
      → d'.destination ≡ d.destination
      → d'.temporary ≡ none
      → sha256 (contents f) ≢ sha256 content
      → Settles sha256 content f d d' reply

-- The upload of a client that sends `cs` for the missing blocks and then the commit, on a connection
-- and a disk that do not fail.
abbrev pub upload_of : List Bytes → List Bytes → Bytes → Bytes → List Chunk → Upload
upload_of same_name others session_id file_id cs = record {
  same_name = same_name;
  others = others;
  body = in_chunks cs;
  commit = some (record { kind = text "commit"; session_id = session_id; file_id = file_id });
  finish = record { permissions_set = true; renamed = true; answered = true };
}
