-- ===== src/Telnet/Parser.antt =====
-- backend/src/telnet/telnet_session.cpp, TelnetSession::Run: the loop over the received bytes.
-- `sent` lists the buffers handed to SendAll, whose result the loop does not read.
use space_station.Prelude.{ℕ, Bool, false, ◌&&◌, ◌||◌, List, [], ◌∷◌, ◌++◌, ◌==◌, if◌then◌else◌}
use space_station.Prelude.Bytes.{Bytes, text}
use space_station.Prelude.Int.{ℤ}
use space_station.Telnet.Codec.{
  iac, dont, do_option, wont, will, sb, se, binary, echo, suppress_go_ahead, terminal_type, naws,
  terminal_type_is, terminal_type_send, negotiation, window_size,
}

pub data ParseState : Type 0 where
  in_data in_iac in_option in_sub in_sub_iac : ParseState

pub record Parser : Type 0 where
  pub parse_state : ParseState
  pub negotiation_action : ℕ
  pub subnegotiation : Bytes
  pub output : Bytes
  pub sent : List Bytes

abbrev pub initial : Parser
initial = record {
  parse_state = in_data;
  negotiation_action = 0;
  subnegotiation = [];
  output = [];
  sent = [];
}

-- The options that the session takes on when the peer offers, and when the peer asks.
abbrev pub accepted_remote : ℕ → Bool
accepted_remote value = value == binary || value == echo || value == suppress_go_ahead

abbrev pub accepted_local : ℕ → Bool
accepted_local value =
    value == binary || value == suppress_go_ahead || value == terminal_type || value == naws

unfoldable pub response : ℕ → ℕ → ℕ
response action value =
    if action == will
    then (if accepted_remote value then do_option else dont)
    else if action == wont
    then dont
    else if action == do_option
    then (if accepted_local value then will else wont)
    else wont

abbrev push_output : Parser → ℕ → Parser
push_output p value = record p { output = p.output ++ value ∷ [] }

abbrev push_sub : Parser → ℕ → ParseState → Parser
push_sub p value state = record p {
  subnegotiation = p.subnegotiation ++ value ∷ [];
  parse_state = state;
}

abbrev goto : Parser → ParseState → Parser
goto p state = record p { parse_state = state }

step_data : Parser → ℕ → Parser
step_data p value = if value == iac then goto p in_iac else push_output p value

step_iac : Parser → ℕ → Parser
step_iac p value =
    if value == iac
    then goto (push_output p value) in_data
    else if value == will || value == wont || value == do_option || value == dont
    then record p { negotiation_action = value; parse_state = in_option }
    else if value == sb
    then record p { subnegotiation = []; parse_state = in_sub }
    else goto p in_data

-- The reply, and the window size where the peer asks for it.
abbrev pub replies : ℤ → ℤ → ℕ → ℕ → List Bytes
replies columns rows action value =
    negotiation (response action value) value
    ∷ (if action == do_option && value == naws then window_size columns rows ∷ [] else [])

step_option : ℤ → ℤ → Parser → ℕ → Parser
unfolding response
step_option columns rows p value = record p {
  sent = p.sent ++ replies columns rows p.negotiation_action value;
  parse_state = in_data;
}

step_sub : Parser → ℕ → Parser
step_sub p value = if value == iac then goto p in_sub_iac else push_sub p value in_sub

-- `size() >= 2` with the two bytes that the test compares.
unfoldable pub asks_terminal_type : Bytes → Bool
asks_terminal_type (a ∷ b ∷ rest) = a == terminal_type && b == terminal_type_send
asks_terminal_type _ = false

unfoldable pub terminal_reply : Bytes
terminal_reply =
    (iac ∷ sb ∷ terminal_type ∷ terminal_type_is ∷ []) ++ text "xterm-256color" ++ iac ∷ se ∷ []

step_sub_iac : Parser → ℕ → Parser
unfolding asks_terminal_type
step_sub_iac p value =
    if value == se
    then goto
        (record p {
          sent =
              if asks_terminal_type p.subnegotiation then p.sent ++ terminal_reply ∷ [] else p.sent;
        })
        in_data
    else if value == iac
    then push_sub p value in_sub
    else goto p in_sub

unfoldable pub step_in : ParseState → ℤ → ℤ → Parser → ℕ → Parser
unfolding step_data step_iac step_option step_sub step_sub_iac
step_in in_data columns rows p value = step_data p value
step_in in_iac columns rows p value = step_iac p value
step_in in_option columns rows p value = step_option columns rows p value
step_in in_sub columns rows p value = step_sub p value
step_in in_sub_iac columns rows p value = step_sub_iac p value

abbrev pub step : ℤ → ℤ → Parser → ℕ → Parser
step columns rows p = step_in p.parse_state columns rows p

unfoldable pub parse : ℤ → ℤ → Parser → Bytes → Parser
parse columns rows p [] = p
parse columns rows p (value ∷ rest) = parse columns rows (step columns rows p value) rest
