-- ===== src/Serial/Session.antt =====
-- backend/src/serial/serial_service.cpp: SerialOptions::FromJson and class SerialService::Session. A
-- WebSocket connection is a number, and `alive` says which can still be sent to. The device is not
-- modelled: what it reads and whether it fails are inputs.
use space_station.Prelude.{
  ℕ, ◌+◌, ◌-◌, ◌*◌, Bool, true, false, not, ◌&&◌, List, [], ◌∷◌, ◌++◌, map, ltb, ◌>>◌, ◌==◌,
  if◌then◌else◌, length, Result, drop, guard, ok,
}
use space_station.Prelude.Dict.{Dict, insert}
use space_station.Prelude.Bytes.{bytes_eq, Bytes, text}
use space_station.Prelude.Int.{ℤ, clamp, pos, negsuc}

abbrev pub max_backlog_bytes : ℕ
max_backlog_bytes = 512 * 1024

abbrev pub max_queued_write_bytes : ℕ
max_queued_write_bytes = 1024 * 1024

pub record SerialOptions : Type 0 where
  pub baud_rate : ℕ
  pub data_bits : ℕ
  pub stop_bits : ℕ
  pub parity : Bytes
  pub flow_control : Bytes

-- SerialOptions::FromJson, given the fields with their defaults put in.
unfoldable pub from_json : ℤ → ℤ → ℤ → Bytes → Bytes → SerialOptions
from_json baud_rate data_bits stop_bits parity flow_control = record {
  baud_rate = clamp baud_rate 50 4_000_000;
  data_bits = clamp data_bits 5 8;
  stop_bits = elim stop_bits [ pos n ↦ if n == 2 then 2 else 1 | negsuc n ↦ 1 ];
  parity =
      if not (bytes_eq parity (text "none"))
        && not (bytes_eq parity (text "even"))
        && not (bytes_eq parity (text "odd"))
      then text "none"
      else parity;
  flow_control =
      if not (bytes_eq flow_control (text "none"))
        && not (bytes_eq flow_control (text "hardware"))
        && not (bytes_eq flow_control (text "software"))
      then text "none"
      else flow_control;
}

unfoldable pub same_options : SerialOptions → SerialOptions → Bool
same_options a b =
    a.baud_rate == b.baud_rate
    && a.data_bits == b.data_bits
    && a.stop_bits == b.stop_bits
    && bytes_eq a.parity b.parity
    && bytes_eq a.flow_control b.flow_control

pub record Session : Type 0 where
  pub options : SerialOptions
  pub plugin_session_id : Bytes
  pub running : Bool
  pub subscribers : Dict ℕ
  pub writes : List Bytes
  pub queued_write_bytes : ℕ
  pub backlog : Bytes

pub data Error : Type 0 where
  invalid_port unknown_port other_options cannot_open message_too_large not_open : Error
  session_closed disconnected queue_full : Error

pub data Effect : Type 0 where
  opened : ℕ → Bytes → Bytes → SerialOptions → ℕ → Effect
  content : ℕ → Bytes → Effect
  state : ℕ → ℕ → Bytes → Effect
  failed : ℕ → Effect
  register_session : Bytes → Bytes → Effect
  unregister_session : Bytes → Effect
  on_output : Bytes → Bytes → Effect

-- A session that was made and started.
unfoldable pub new_session : SerialOptions → Bytes → Session
new_session options plugin_session_id = record {
  options = options;
  plugin_session_id = plugin_session_id;
  running = true;
  subscribers = [];
  writes = [];
  queued_write_bytes = 0;
  backlog = [];
}

-- QueueWrite
unfoldable pub queue_write : Session → Bytes → Result Error Session
queue_write s input = do
  guard s.running disconnected
  guard (not (ltb max_queued_write_bytes (s.queued_write_bytes + length input))) queue_full
  ok (record s {
    queued_write_bytes = s.queued_write_bytes + length input;
    writes = s.writes ++ input ∷ [];
  })

-- The worker takes the first write.
unfoldable pub next_write : Session → Session × Bytes
next_write s = elim s.writes [
  | [] ↦ (s, [])
  | input ∷ rest ↦
      (record s { writes = rest; queued_write_bytes = s.queued_write_bytes - length input }, input)
]

unfoldable pub append_backlog : Bytes → Bytes → Bytes
append_backlog backlog input =
    let grown = backlog ++ input in
    if ltb max_backlog_bytes (length grown)
    then drop (length grown - max_backlog_bytes) grown
    else grown

module _ (alive : ℕ → Bool) where
  -- CollectConnections: the subscribers that stay; their connections are the result.
  unfoldable pub collect : Dict ℕ → Dict ℕ
  collect [] = []
  collect ((id, connection) ∷ rest) =
      let later = collect rest in if alive connection then (id, connection) ∷ later else later

  unfoldable pub collected : Session → Session
  collected s = record s { subscribers = collect s.subscribers }

  unfoldable pub to_all : (ℕ → Effect) → Session → List Effect
  to_all message s = map (λ e. message e.1) (collect s.subscribers)

  -- BroadcastState
  unfoldable pub broadcast_state : Bytes → Session → List Effect
  broadcast_state port s = to_all (λ c. state c (length (collect s.subscribers)) port) s

  -- Add: the subscriber's messages, then the state.
  unfoldable pub add_messages : Bytes → Bytes → ℕ → Session → List Effect
  add_messages port id connection s =
      opened connection id port s.options (length s.subscribers)
      ∷ ((if bytes_eq s.backlog [] then [] else content connection s.backlog ∷ [])
          ++ broadcast_state port s)

  unfoldable pub with_subscriber : Bytes → ℕ → Session → Session
  with_subscriber id connection s = record s { subscribers = insert id connection s.subscribers }

  -- What the worker does with data that the device has read.
  unfoldable pub receive_data : Session → Bytes → Session × List Effect
  receive_data s input =
      let s' = record s { backlog = append_backlog s.backlog input } in
      (
        collected s',
        (if bytes_eq s.plugin_session_id [] then [] else on_output s.plugin_session_id input ∷ [])
            ++ to_all (λ c. content c input) s',
      )

  -- Fail
  unfoldable pub fail : Session → Session × List Effect
  fail s = (collected (record s { running = false }), to_all failed s)
