-- ===== src/Serial/Bounds.antt =====
-- backend/src/serial/serial_service.cpp, class Session: the queue and the backlog stay within their
-- limits.
use space_station.Prelude.{ℕ, ◌+◌, ◌≤◌, ◌≡◌, Bool, List, [], ◌∷◌, ok, length}
use space_station.Serial.Session.{
  next_write, queue_write, Session, max_queued_write_bytes, receive_data, fail, collected,
  max_backlog_bytes, with_subscriber,
}
use space_station.Prelude.Bytes.{Bytes}

abbrev pub total : List Bytes → ℕ
total [] = 0
total (x ∷ xs) = length x + total xs

-- The counter says how many bytes are queued, and neither the queue nor the backlog is too long.
pub record Bounded (s : Session) : Type 0 where
  pub counted : s.queued_write_bytes ≡ total s.writes
  pub queue_max : s.queued_write_bytes ≤ max_queued_write_bytes
  pub backlog_max : length s.backlog ≤ max_backlog_bytes

-- What may happen to a session: a write is queued or taken, data is read, the device fails.
pub data SessionStep (alive : ℕ → Bool) (s t : Session) : Type 0 where
  queues : (input : Bytes) → queue_write s input ≡ ok t → SessionStep alive s t
  takes : (next_write s).0 ≡ t → SessionStep alive s t
  receives : (input : Bytes) → (receive_data alive s input).0 ≡ t → SessionStep alive s t
  fails : (fail alive s).0 ≡ t → SessionStep alive s t
  joins :
      (id : Bytes) (c : ℕ)
      → collected alive (with_subscriber alive id c s) ≡ t
      → SessionStep alive s t
