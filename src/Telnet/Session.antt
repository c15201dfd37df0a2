-- ===== src/Telnet/Session.antt =====
-- backend/src/telnet/telnet_session.cpp: TelnetSession::Run after the connection stands, one
-- element of `rounds` for each turn of its loop. The end of the list is the stop request.
use space_station.Prelude.{Bool, List, [], false, if◌then◌else◌, true, ◌++◌, ◌∷◌}
use space_station.Telnet.Codec.{
  negotiation, window_size, will, escape_iac, terminal_type, naws, do_option, suppress_go_ahead,
}
use space_station.Prelude.Int.{ℤ}
use space_station.Prelude.Bytes.{Bytes}
use space_station.Telnet.Parser.{Parser, parse, initial}
use space_station.Telnet.Login.{wipe, Login, start_login, login, is_empty}

-- A queued command of Write or Resize.
pub record Command : Type 0 where
  pub resize : Bool
  pub bytes : Bytes
  pub columns : ℤ
  pub rows : ℤ

-- What select and recv report.
pub data Received : Type 0 where
  nothing closed failed : Received
  content : Bytes → Received

-- What the environment does in one turn: the commands that were queued, each with what SendAll
-- returns for it; the result of reading; whether the browser's connection still lives; and whether
-- a stop was requested by the end of the turn.
pub record Round : Type 0 where
  pub commands : List (Command × Bool)
  pub received : Received
  pub listening : Bool
  pub stopping : Bool

pub data Error : Type 0 where
  write_failed read_failed : Error

pub data Event : Type 0 where
  connecting connected closed_event : Event
  error : Error → Event

pub record Session : Type 0 where
  pub columns : ℤ
  pub rows : ℤ
  pub parser : Parser
  pub login_state : Login
  pub delivered : List Bytes

unfoldable pub command_bytes : Command → Bytes
command_bytes c = if c.resize then window_size c.columns c.rows else escape_iac c.bytes

abbrev pub push_sent : Parser → List Bytes → Parser
push_sent p buffers = record p { sent = p.sent ++ buffers }

-- The loop over the commands: each is handed to SendAll, and a failure throws.
unfoldable pub flush : Session → List (Command × Bool) → Session × Bool
flush s [] = (s, true)
flush s ((c, written) ∷ rest) =
    let s' = record s { parser = push_sent s.parser (command_bytes c ∷ []) } in
    let later = flush s' rest in if written then later else (s', false)

-- What follows the loop over the bytes of one read: the output goes to the browser and to the
-- login.
unfoldable pub deliver : Session → Bool → Parser → Session
deliver s listening p =
    let (l, buffers) = login s.login_state p.output in
    if is_empty p.output then record s { parser = p } else record s {
      parser = push_sent p buffers;
      login_state = l;
      delivered = if listening then s.delivered ++ p.output ∷ [] else s.delivered;
    }

-- A read of `count > 0` bytes. `output` is empty at its start.
unfoldable pub receive : Session → Bool → Bytes → Session
unfolding deliver
receive s listening input =
    deliver s listening (parse s.columns s.rows (record s.parser { output = [] }) input)

pub data Turn : Type 0 where
  goes_on : Session → Turn
  ends : Session → Turn
  throws : Session → Error → Turn

unfoldable pub read : Session → Bool → Received → Turn
read s listening nothing = goes_on s
read s listening closed = ends s
read s listening failed = throws s read_failed
read s listening (content input) = goes_on (receive s listening input)

unfoldable pub turn : Session → Round → Turn
turn s r =
    let (s', written) = flush s r.commands in
    if written then read s' r.listening r.received else throws s' write_failed

-- Both ends of Run overwrite the password.
abbrev pub forget : Session → Session
forget s = record s { login_state = record s.login_state { secret = wipe s.login_state.secret } }

abbrev unless_stopping : Bool → Event → List Event
unless_stopping stopping e = if stopping then [] else e ∷ []

unfoldable pub run : Session → List Round → Session × List Event
run s [] = (forget s, [])
run s (r ∷ rest) = elim (turn s r) [
  | goes_on s' ↦ run s' rest
  | ends s' ↦ (forget s', unless_stopping r.stopping closed_event)
  | throws s' e ↦ (forget s', unless_stopping r.stopping (error e))
]

-- The session when the connection stands: what Run sends first.
unfoldable pub opening : ℤ → ℤ → Bytes
opening columns rows =
    negotiation will terminal_type
    ++ negotiation will naws
    ++ negotiation do_option suppress_go_ahead
    ++ negotiation will suppress_go_ahead
    ++ window_size columns rows

unfoldable pub start : ℤ → ℤ → Bytes → Bytes → Session
start columns rows user secret = record {
  columns = columns;
  rows = rows;
  parser = push_sent initial (opening columns rows ∷ []);
  login_state = start_login user secret;
  delivered = [];
}
