-- ===== src/Telnet/Tests.antt =====
-- backend/src/telnet/telnet_session.cpp: the theorems at concrete inputs.
use space_station.Prelude.{List, [], false, map, refl, some, true, ℕ, ◌++◌, ◌∷◌, ◌≡◌, ◌≤◌}
use space_station.Telnet.Negotiation.{Answers, parse-negotiation, asks, Reports}
use space_station.Telnet.RoundTrip.{parse-escape_iac, read_size, parse-window_size}
use space_station.Telnet.Codec.{window_size, negotiation, escape_iac, do_option, naws, iac}
use space_station.Prelude.Int.{pos, clamp}
use space_station.Telnet.Login.{password, login_all, start_login, username, Credential, sent_all}
use space_station.Telnet.Parser.{parse, initial}
use space_station.Prelude.Bytes.{Bytes, text}
use space_station.Telnet.Delivery.{joined, bare, inputs, delivered-run}
use space_station.Telnet.Once.{Inv, times, login_all-start, asked_once, message_of}
use space_station.Telnet.Session.{Session, Round, start, content, run}

abbrev escaped : Bytes
escaped = 72 ∷ 255 ∷ 13 ∷ []

parse-escape_iac_example :
    parse (pos 100) (pos 30) initial (escape_iac escaped) ≡ record initial { output = escaped }
parse-escape_iac_example = parse-escape_iac (pos 100) (pos 30) initial escaped refl

parse-window_size_example :
    (size : Bytes) × (parse (pos 100) (pos 30) initial (window_size (pos 255) (pos 4000))
      ≡ record initial { subnegotiation = size })
    × (read_size size ≡ some (clamp (pos 255) 2 1000, clamp (pos 4000) 2 1000))
parse-window_size_example = parse-window_size (pos 100) (pos 30) initial (pos 255) (pos 4000) refl

parse-negotiation_example :
    (r : ℕ) × (more : List Bytes) × Answers naws do_option r
    × Reports (pos 100) (pos 30) naws do_option more
    × (parse (pos 100) (pos 30) initial (negotiation do_option naws) ≡ record initial {
      negotiation_action = do_option;
      sent = initial.sent ++ (iac ∷ r ∷ naws ∷ []) ∷ more;
    })
parse-negotiation_example =
    parse-negotiation (pos 100) (pos 30) initial do_option naws refl (asks refl)

abbrev session : Session
session = start (pos 100) (pos 30) (text "root") (text "secret")

abbrev reading : Bytes → Round
reading input = record {
  commands = [];
  received = content input;
  listening = true;
  stopping = false;
}

-- A negotiation command that is cut in two.
abbrev rounds : List Round
rounds = reading (76 ∷ 255 ∷ []) ∷ reading (251 ∷ 1 ∷ 111 ∷ []) ∷ []

delivered-run_example :
    joined (run session rounds).0.delivered
    ≡ joined session.delivered
      ++ (parse session.columns session.rows (bare session.parser) (inputs rounds)).output
delivered-run_example =
    delivered-run session rounds
      ((refl, refl, (λ e. cc), (λ e. cc)), ((refl, refl, (λ e. cc), (λ e. cc)), tt))

abbrev prompts : List Bytes
prompts = text "Router login: " ∷ text "Password: " ∷ text "Password: " ∷ []

asked_once_example :
    (cs : List Credential) × (sent_all (start_login (text "root") (text "secret")) prompts
      ≡ map (message_of (text "root") (text "secret")) cs)
    × ((c : Credential) → times c cs ≤ 1)
    × (text "root" ≡ [] → times username cs ≡ 0)
    × (text "secret" ≡ [] → times password cs ≡ 0)
asked_once_example = asked_once (text "root") (text "secret") prompts

login_all-start_example : Inv (login_all (start_login (text "root") (text "secret")) prompts)
login_all-start_example = login_all-start (text "root") (text "secret") prompts
