-- ===== src/Serial/Service.antt =====
-- backend/src/serial/serial_service.cpp: Attach, Detach and Write. A session is owned by `sessions_`
-- alone, under its port, and has a number of its own: a weak_ptr to it can be locked while it stands
-- there. NextId and the result of opening the device are arguments.
use space_station.Prelude.{
  Bool, List, Option, Result, [], all_of, err, guard, if◌then◌else◌, length, ltb, none, not, ok,
  or_throw, some, ℕ, ◌*◌, ◌++◌, ◌+◌, ◌==◌, ◌>>=◌, ◌>>◌, ◌||◌, ◌∷◌,
}
use space_station.Serial.Session.{
  Session, Effect, SerialOptions, with_subscriber, Error, unregister_session, new_session,
  collected, register_session, invalid_port, cannot_open, broadcast_state, message_too_large,
  add_messages, not_open, unknown_port, same_options, session_closed, queue_write, other_options,
}
use space_station.Prelude.Bytes.{Bytes, bytes_eq}
use space_station.Prelude.Dict.{Dict, lookup, erase, insert}

pub record Subscription : Type 0 where
  pub session : ℕ
  pub port : Bytes

-- `made` counts the sessions that were made.
pub record Service : Type 0 where
  pub sessions : Dict (ℕ × Session)
  pub subscriptions : Dict Subscription
  pub made : ℕ

abbrev pub empty : Service
empty = record { sessions = []; subscriptions = []; made = 0 }

-- session.lock()
unfoldable pub lock : Service → Subscription → Option Session
lock s sub = elim (lookup sub.port s.sessions) [
  | none ↦ none
  | some found ↦ if found.0 == sub.session then some found.1 else none
]

abbrev unregister : Session → List Effect
unregister s =
    if bytes_eq s.plugin_session_id [] then [] else unregister_session s.plugin_session_id ∷ []

module _ (alive : ℕ → Bool) where
  -- The subscription, and Session::Add.
  unfoldable pub join_session : Service → Bytes → ℕ → Session → Bytes → ℕ → Service × List Effect
  join_session s port number session id connection =
      let joined = with_subscriber alive id connection session in
      (
        record s {
          sessions = insert port (number, collected alive joined) s.sessions;
          subscriptions = insert id (record { session = number; port = port }) s.subscriptions;
        },
        add_messages alive port id connection joined,
      )

  -- The branch of Attach that opens the port. A session that no longer runs is destroyed first,
  -- also when the opening fails then.
  unfoldable pub open_session :
      Service
      → Bool
      → Bytes
      → Bytes
      → SerialOptions
      → Bytes
      → ℕ
      → Service × Result Error (List Effect)
  open_session s opens plugin_session_id port options id connection =
      let ended : List Effect = elim (lookup port s.sessions) [
        | none ↦ []
        | some found ↦ unregister found.1
      ] in
      let cleared = record s { sessions = erase port s.sessions } in
      if opens
      then (let (s', messages) =
            join_session (record cleared { made = s.made + 1 }) port s.made
              (new_session options plugin_session_id) id connection in
          (
            s',
            ok (
                ended
                ++ ((if bytes_eq plugin_session_id []
                      then []
                      else register_session plugin_session_id port ∷ [])
                    ++ messages)),
          ))
      else (cleared, err cannot_open)

  unfoldable pub attach :
      Service
      → List Bytes
      → Bool
      → Bytes
      → Bytes
      → SerialOptions
      → Bytes
      → ℕ
      → Service × Result Error (List Effect)
  attach s available opens plugin_session_id port options id connection =
      if bytes_eq port [] || ltb 512 (length port)
      then (s, err invalid_port)
      else if all_of (λ p. not (bytes_eq p port)) available
      then (s, err unknown_port)
      else elim (lookup port s.sessions) [
        | none ↦ open_session s opens plugin_session_id port options id connection
        | some found ↦
            if found.1.running
            then (if same_options found.1.options options
                then (let (s', messages) = join_session s port found.0 found.1 id connection in
                    (s', ok messages))
                else (s, err other_options))
            else open_session s opens plugin_session_id port options id connection
      ]

  -- Session::Remove for a session that stays, and the last subscriber's release of the port.
  unfoldable pub leave_session : Service → Bytes → ℕ → Session → Bytes → Service × List Effect
  leave_session s port number session id =
      let left = record session { subscribers = erase id session.subscribers } in
      if length left.subscribers == 0
      then (record s { sessions = erase port s.sessions }, unregister session)
      else (
        record s { sessions = insert port (number, collected alive left) s.sessions },
        broadcast_state alive port left,
      )

  unfoldable pub detach : Service → Bytes → Service × List Effect
  detach s id = elim (lookup id s.subscriptions) [
    | none ↦ (s, [])
    | some sub ↦
        let s' = record s { subscriptions = erase id s.subscriptions } in
        elim (lock s sub) [
          | none ↦ (s', [])
          | some session ↦ leave_session s' sub.port sub.session session id
        ]
  ]

-- Write. The queue belongs to the session that the subscription names.
unfoldable pub write : Service → Bytes → Bytes → Result Error Service
write s id input = if bytes_eq input [] then ok s else do
  guard (not (ltb (1024 * 1024) (length input))) message_too_large
  sub ← or_throw (lookup id s.subscriptions) not_open
  session ← or_throw (lock s sub) session_closed
  session' ← queue_write session input
  ok (record s { sessions = insert sub.port (sub.session, session') s.sessions })
