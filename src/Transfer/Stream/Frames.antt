-- ===== src/Transfer/Stream/Frames.antt =====
-- backend/src/transfer/transfer.cpp, HandleFile: the loop over the frames of a continuous stream.
use space_station.Transfer.Stream.{fine, buffer_error, stream_end, other_error}
use space_station.Prelude.{
  Bool, List, Option, Result, [], err, guard, if◌then◌else◌, length, ltb, none, not, ok, some, suc,
  true, zero, ℕ, ◌&&◌, ◌++◌, ◌+◌, ◌-◌, ◌/◌, ◌==◌, ◌>>=◌, ◌>>◌, ◌^◌, ◌||◌, ◌∷◌,
}
use space_station.Transfer.Receive.{read_all}
use space_station.Transfer.Scan.{Progress}
use space_station.Transfer.Manifest.{
  Request, Error, trailing_data, still_running, stream_frame_mismatch, connection_closed,
  invalid_stream_frame, inflate_failed, max_stream_frame_body, stream_incomplete, stream_mismatch,
}
use space_station.Prelude.Bytes.{Bytes, bytes_eq, text}
use space_station.Transfer.Stream.{
  Inflated, Writer, Code, stream_buffer_size, stream_end, Frame, missing_from, StreamStart,
  expected_length, matches_start, write_decoded,
}

-- `max` where the default of a field is the greatest number.
abbrev pub greatest : ℕ
greatest = 2 ^ 64 - 1

abbrev pub or_default : ℕ → Option ℕ → ℕ
or_default d none = d
or_default d (some n) = n

-- The variables of the loop over the frames.
pub record Stream (Z : Type 0) : Type 0 where
  pub writer : Writer
  pub inflater : Z
  pub finished : Bool
  pub total_wire : ℕ
  pub expected_sequence : ℕ
  pub acknowledged : List ℕ

unfoldable pub max_stream_wire : ℕ → ℕ
max_stream_wire expected = expected + expected / 16 + stream_buffer_size

abbrev pub is_stream_end : Code → Bool
is_stream_end stream_end = true
is_stream_end _ = not true

-- `result != Z_OK && !(result == Z_BUF_ERROR && stream.avail_in == 0 && produced == 0)`
unfoldable pub inflate_fails : {Z : Type 0} → Inflated Z → Bool
inflate_fails d = elim d.code [
  | fine ↦ not true
  | buffer_error ↦ not (length d.rest == 0 && length d.produced == 0)
  | stream_end ↦ true
  | other_error ↦ true
]

-- What a call of inflate is followed by: the end of the stream, the end of this input, or one more
-- call.
pub data After : Type 0 where
  ended input_used again : After

unfoldable pub after : {Z : Type 0} → Inflated Z → Result Error After
after d =
    if is_stream_end d.code
    then (if length d.rest == 0 then ok ended else err trailing_data)
    else if inflate_fails d
    then err inflate_failed
    else if length d.rest == 0 && ltb (length d.produced) stream_buffer_size
    then ok input_used
    else ok again

module _ (sha256 : Bytes → Bytes) {Z : Type 0} (inflate : Z → Bytes → Inflated Z)
    (r : Request) where
  -- The inner `while (true)`: the writer, the inflater, and whether the stream has ended.
  unfoldable pub inflate_loop : ℕ → Writer → Z → Bytes → Result Error (Writer × Z × Bool)
  inflate_loop zero w z input = err still_running
  inflate_loop (suc fuel) w z input = do
    let d = inflate z input
    w' ← write_decoded sha256 r w d.produced
    next ← after d
    elim next [
      | ended ↦ ok (w', d.inflater, true)
      | input_used ↦ ok (w', d.inflater, not true)
      | again ↦ inflate_loop fuel w' d.inflater d.rest
    ]

  -- Enough for a frame: each call but the last uses a byte of input or puts out a byte, and not more
  -- bytes are put out than are expected.
  unfoldable pub frame_fuel : ℕ → Bytes → ℕ
  frame_fuel expected input = length input + expected + 2

  abbrev pub same_upload : Frame → Bool
  same_upload f = bytes_eq f.session_id r.session_id && bytes_eq f.file_id r.file_id

  unfoldable pub is_valid_frame : ℕ → Stream Z → Frame → Bool
  is_valid_frame expected st f = not (
      not (bytes_eq f.kind (text "streamData"))
      || st.finished
      || not (or_default greatest f.sequence == st.expected_sequence)
      || f.body_length == 0
      || ltb max_stream_frame_body f.body_length
      || ltb (max_stream_wire expected - st.total_wire) f.body_length)

  unfoldable pub receive_frame : ℕ → Stream Z → Frame → Result Error (Stream Z)
  receive_frame expected st f = do
    guard (same_upload f) stream_frame_mismatch
    guard (is_valid_frame expected st f) invalid_stream_frame
    encoded ← read_all f.wire f.body_length
    found ← inflate_loop (frame_fuel expected encoded) st.writer st.inflater encoded
    ok (record {
      writer = found.0;
      inflater = found.1;
      finished = st.finished || found.2;
      total_wire = st.total_wire + f.body_length;
      expected_sequence = st.expected_sequence + 1;
      acknowledged = st.acknowledged ++ st.expected_sequence ∷ [];
    })

  -- The tests of a "streamEnd" frame.
  unfoldable pub is_complete : ℕ → Stream Z → Frame → Bool
  is_complete expected st f = not (
      not st.finished
      || not (or_default 0 f.sequence == st.expected_sequence)
      || not (length st.writer.todo == 0)
      || not (st.writer.block_written == 0)
      || not (st.writer.total_written == expected)
      || not (st.writer.remaining == 0)
      || not (or_default greatest f.wire_bytes == st.total_wire))

  unfoldable pub end_stream : ℕ → Stream Z → Frame → Result Error (Stream Z)
  end_stream expected st f = do
    guard (same_upload f) stream_frame_mismatch
    guard (is_complete expected st f) stream_incomplete
    ok st

  -- The frames in the order of their arrival; their end is the end of the connection.
  unfoldable pub receive_frames : ℕ → Stream Z → List Frame → Result Error (Stream Z)
  receive_frames expected st [] = err connection_closed
  receive_frames expected st (f ∷ rest) =
      if bytes_eq f.kind (text "streamEnd")
      then end_stream expected st f
      else receive_frame expected st f >>= λ st'. receive_frames expected st' rest

  -- The state when the stream starts, for the inflater that `inflateInit` makes.
  unfoldable pub start_stream : Z → Progress → ℕ → Stream Z
  start_stream z p remaining = record {
    writer = record {
      progress = p;
      remaining = remaining;
      todo = missing_from 0 p.matched;
      block_written = 0;
      total_written = 0;
      hashed = [];
    };
    inflater = z;
    finished = not true;
    total_wire = 0;
    expected_sequence = 0;
    acknowledged = [];
  }

  unfoldable pub receive_stream :
      Z → Progress → ℕ → StreamStart → List Frame → Result Error (Stream Z)
  receive_stream z p remaining s frames = do
    expected ← expected_length r (missing_from 0 p.matched) 0
    guard (matches_start r s expected) stream_mismatch
    receive_frames expected (start_stream z p remaining) frames
