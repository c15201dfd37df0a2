-- ===== src/Telnet/Login.antt =====
-- backend/src/telnet/telnet_session.cpp, TelnetSession::Run: the answers to the login prompts that
-- a host prints.
use space_station.Prelude.{
  Bool, List, Option, [], drop, if◌then◌else◌, length, ltb, map, none, not, some, true, ℕ, ◌&&◌,
  ◌++◌, ◌-◌, ◌||◌, ◌∷◌,
}
use space_station.Prelude.Bytes.{Bytes, text}
use space_station.Telnet.Codec.{lower, ends_with_prompt, escape_iac}

pub data Credential : Type 0 where
  username password : Credential

-- The variables of Run that belong to the login; `user` and `secret` are options.username and
-- options.password.
pub record Login : Type 0 where
  pub user : Bytes
  pub secret : Bytes
  pub prompt_buffer : Bytes
  pub username_sent : Bool
  pub password_sent : Bool

abbrev pub is_empty : Bytes → Bool
is_empty [] = true
is_empty (x ∷ xs) = not true

abbrev pub start_login : Bytes → Bytes → Login
start_login user secret = record {
  user = user;
  secret = secret;
  prompt_buffer = [];
  username_sent = is_empty user;
  password_sent = is_empty secret;
}

abbrev pub prompt_limit : ℕ
prompt_limit = 2048

-- `prompt_buffer += Lower(output)`, and the erasure of what passes 2048 bytes at the front.
unfoldable pub append_prompt : Bytes → Bytes → Bytes
append_prompt buffer output =
    let grown = buffer ++ lower output in
    if ltb prompt_limit (length grown) then drop (length grown - prompt_limit) grown else grown

unfoldable pub asks_username : Bytes → Bool
asks_username buffer =
    ends_with_prompt buffer (text "login:")
    || ends_with_prompt buffer (text "username:")
    || ends_with_prompt buffer (text "user:")

unfoldable pub asks_password : Bytes → Bool
asks_password buffer =
    ends_with_prompt buffer (text "password:") || ends_with_prompt buffer (text "passcode:")

-- The credential that the code answers with, if any.
unfoldable pub prompted : Login → Bytes → Option Credential
prompted s buffer =
    if not s.username_sent && asks_username buffer
    then some username
    else if not s.password_sent && asks_password buffer
    then some password
    else none

-- std::fill(begin, end, '\0')
unfoldable pub wipe : Bytes → Bytes
wipe = map (λ _. 0)

abbrev carriage_return : Bytes
carriage_return = 13 ∷ 10 ∷ []

-- The new state, and the buffers handed to SendAll.
unfoldable pub answer : Login → Bytes → Option Credential → Login × List Bytes
answer s buffer none = (record s { prompt_buffer = buffer }, [])
answer s buffer (some username) = (
  record s { prompt_buffer = []; username_sent = true },
  escape_iac (s.user ++ carriage_return) ∷ [],
)
answer s buffer (some password) = (
  record s { prompt_buffer = []; password_sent = true; secret = wipe s.secret },
  escape_iac (s.secret ++ carriage_return) ∷ [],
)

unfoldable pub login : Login → Bytes → Login × List Bytes
login s output =
    let buffer = append_prompt s.prompt_buffer output in answer s buffer (prompted s buffer)

abbrev pub note : Option Credential → List Credential → List Credential
note none later = later
note (some c) later = c ∷ later

-- The credentials asked for, over the outputs of several reads.
unfoldable pub asked : Login → List Bytes → List Credential
asked s [] = []
asked s (output ∷ rest) =
    note (prompted s (append_prompt s.prompt_buffer output)) (asked (login s output).0 rest)

unfoldable pub login_all : Login → List Bytes → Login
login_all s [] = s
login_all s (output ∷ rest) = login_all (login s output).0 rest

-- The buffers handed to SendAll, over the outputs of several reads.
unfoldable pub sent_all : Login → List Bytes → List Bytes
sent_all s [] = []
sent_all s (output ∷ rest) = (login s output).1 ++ sent_all (login s output).0 rest
