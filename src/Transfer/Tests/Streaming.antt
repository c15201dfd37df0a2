-- ===== src/Transfer/Tests/Streaming.antt =====
-- backend/src/transfer/transfer.cpp: a continuous stream at work on a small upload.
use space_station.Prelude.{
  List, [], arith, err, none, ok, refl, replicate, some, true, ◌∷◌, ◌≡◌, ◌≢◌, ◌⊎◌,
}
use space_station.Transfer.Disk.{write_at}
use space_station.Transfer.Tests.{
  toy_inflate, toy_hash, block, signature, request, fresh, fresh-Verified,
}
use space_station.Transfer.HandleFile.{blank}
use space_station.Transfer.Manifest.{Error, still_running}
use space_station.Transfer.Receive.{read_all}
use space_station.Transfer.Checksum.{weak_checksum}
use space_station.Transfer.Stream.Complete.{receive_stream-Verified}
use space_station.Prelude.Bytes.{text, bytes_eq}
use space_station.Transfer.Stream.Frames.{
  receive_stream, Stream, receive_frames, start_stream, receive_frame, is_valid_frame,
  max_stream_wire, inflate_loop, frame_fuel, after, inflate_fails, end_stream, is_complete,
}
use space_station.Transfer.Stream.Ends.{Progresses, receive_stream-ends}
use space_station.Transfer.Receive.Integrity.{Verified}
use space_station.Transfer.Stream.{
  write_decoded, Frame, StreamStart, expected_length, missing_from, matches_start, write_loop,
  write_turn, write_part, finish_block, next_block,
}

abbrev stream_start : StreamStart
stream_start = record {
  session_id = text "session-1";
  file_id = text "file-001";
  compression_algorithm = text "zlib";
  uncompressed_length = 4;
}

-- The block in one frame, and the end of the stream.
abbrev stream_frames : List Frame
stream_frames =
    record {
      kind = text "streamData";
      session_id = text "session-1";
      file_id = text "file-001";
      sequence = some 0;
      body_length = 4;
      wire_bytes = none;
      wire = block;
    }
    ∷ record {
      kind = text "streamEnd";
      session_id = text "session-1";
      file_id = text "file-001";
      sequence = some 1;
      body_length = 0;
      wire_bytes = some 4;
      wire = [];
    }
    ∷ []

toy-Progresses : Progresses toy_inflate
toy-Progresses z input = (omega arith, λ e. cc)

receive_stream-ends_example :
    ((st : Stream (Unit {0})) × (receive_stream toy_hash toy_inflate request tt fresh 1 stream_start
          stream_frames
        ≡ ok st))
    ⊎ ((e : Error) × (receive_stream toy_hash toy_inflate request tt fresh 1 stream_start
            stream_frames
          ≡ err e)
        × (e ≢ still_running))
receive_stream-ends_example =
    receive_stream-ends toy_hash toy_inflate toy-Progresses request (omega arith, tt) tt fresh 1
      stream_start stream_frames fresh-Verified refl

abbrev after_stream : Stream (Unit {0})
after_stream = record {
  writer = record {
    progress = record {
      matched = true ∷ [];
      output = write_at (blank 4) 0 block;
      matched_bytes = 0;
    };
    remaining = 0;
    todo = [];
    block_written = 0;
    total_written = 4;
    hashed = block;
  };
  inflater = tt;
  finished = true;
  total_wire = 4;
  expected_sequence = 1;
  acknowledged = 0 ∷ [];
}

stream_received :
    receive_stream toy_hash toy_inflate request tt fresh 1 stream_start stream_frames
    ≡ ok after_stream
unfolding receive_stream expected_length missing_from matches_start receive_frames start_stream
    receive_frame is_valid_frame max_stream_wire inflate_loop frame_fuel write_decoded write_loop
    write_turn write_part finish_block next_block after inflate_fails end_stream is_complete
    read_all bytes_eq weak_checksum write_at
stream_received = refl

receive_stream-Verified_example :
    Verified toy_hash (signature ∷ []) 65536 after_stream.writer.progress
    × (after_stream.writer.progress.matched ≡ replicate 1 true)
receive_stream-Verified_example =
    receive_stream-Verified toy_hash toy_inflate request (omega arith, tt) tt fresh 1 stream_start
      stream_frames after_stream fresh-Verified refl stream_received
