-- ===== src/Serial/Tests.antt =====
-- backend/src/serial/serial_service.cpp: the theorems at concrete inputs.
use space_station.Serial.Reach.{attaches}
use space_station.Serial.Session.{collect}
use space_station.Prelude.{Bool, [], refl, true, ℕ, ◌∷◌, ◌≡◌}
use space_station.Prelude.Int.{pos}
use space_station.Serial.Reach.{Reach, Reach-Held, next, here}
use space_station.Prelude.Dict.{lookup, insert, erase}
use space_station.Serial.Release.{Held}
use space_station.Prelude.Bytes.{Bytes, text, bytes_eq}
use space_station.Serial.Service.{
  Service, detach, attach, empty, open_session, join_session, leave_session, lock,
}
use space_station.Serial.Session.{
  SerialOptions, Session, new_session, from_json, with_subscriber, collected, collect,
}

abbrev port : Bytes
port = text "ttyUSB0"

abbrev viewer : Bytes
viewer = text "17-1"

abbrev slow : SerialOptions
slow = from_json (pos 9600) (pos 8) (pos 1) (text "even") (text "other")

abbrev present : ℕ → Bool
present c = true

abbrev attached : Service
attached = (attach present empty (port ∷ []) true [] port slow viewer 1).0

attached-Reach : Reach attached
unfolding lookup
attached-Reach =
    next {s' = attached} here (attaches present (port ∷ []) true [] port slow viewer 1 refl refl)

Reach-Held_example : Held attached
Reach-Held_example = Reach-Held attached-Reach

-- When the viewer leaves, the port is closed.
detached_empty : (detach present attached viewer).0.sessions ≡ []
unfolding detach attach open_session join_session leave_session lock lookup insert erase bytes_eq
    with_subscriber collected collect new_session
detached_empty = refl

abbrev idle : Session
idle = new_session slow []

abbrev busy : Session
busy = record idle { writes = text "AT" ∷ []; queued_write_bytes = 2 }
