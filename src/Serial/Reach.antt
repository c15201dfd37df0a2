-- ===== src/Serial/Reach.antt =====
-- backend/src/serial/serial_service.cpp: the service over time, with its sessions' workers.
use space_station.Serial.Session.{session_closed}
use space_station.Prelude.{
  >>=-eq-ok, Bool, Bool-cases, List, Result, [], arith, guard, inl, inr, length, ltb, none, not, ok,
  or_throw, or_throw-some, refl, some, subst, ℕ, ◌*◌, ◌∷◌, ◌≡◌,
}
use space_station.Prelude.Bytes.{Bytes, bytes_eq}
use space_station.Serial.Release.{Held, attach-Held, collect-lookup, detach-Held, put-Held, locked}
use space_station.Serial.Service.{Service, write, empty, attach, detach, lock}
use space_station.Serial.Session.{
  queue_write, Session, next_write, receive_data, SerialOptions, Error, collected, fail,
  message_too_large, not_open, session_closed,
}
use space_station.Prelude.Dict.{lookup, insert}

-- What a session's worker does: it takes a write, handles data that was read, or fails.
pub data Works (alive : ℕ → Bool) (t u : Session) : Type 0 where
  takes : (next_write t).0 ≡ u → Works alive t u
  receives : (input : Bytes) → (receive_data alive t input).0 ≡ u → Works alive t u
  fails : (fail alive t).0 ≡ u → Works alive t u

-- A call, a write of a plugin, or a step of a worker. Each has its own view of the connections.
pub data Step (s s' : Service) : Type 0 where
  -- NextId makes an id that is not in use.
  attaches :
      (alive : ℕ → Bool) (available : List Bytes) (opens : Bool) (plugin_session_id port : Bytes)
      (options : SerialOptions) (id : Bytes) (connection : ℕ)
      → lookup id s.subscriptions ≡ none
      → (attach alive s available opens plugin_session_id port options id connection).0 ≡ s'
      → Step s s'
  detaches : (alive : ℕ → Bool) (id : Bytes) → (detach alive s id).0 ≡ s' → Step s s'
  writes : (id input : Bytes) → write s id input ≡ ok s' → Step s s'
  -- What a plugin writes through the callback of a session that is still there.
  plugin_writes :
      (port : Bytes) (n : ℕ) (t u : Session) (input : Bytes)
      → lookup port s.sessions ≡ some (n, t)
      → queue_write t input ≡ ok u
      → record s { sessions = insert port (n, u) s.sessions } ≡ s'
      → Step s s'
  works :
      (alive : ℕ → Bool) (port : Bytes) (n : ℕ) (t u : Session)
      → lookup port s.sessions ≡ some (n, t)
      → Works alive t u
      → record s { sessions = insert port (n, u) s.sessions } ≡ s'
      → Step s s'

pub data Reach : Service → Type 0 where
  here : Reach empty
  next : {s s' : Service} → Reach s → Step s s' → Reach s'

-- No subscriber is new.
abbrev Fewer : Session → Session → Type 0
Fewer t u =
    (id : Bytes) (c : ℕ)
    → lookup id u.subscribers ≡ some c
    → (d : ℕ) × (lookup id t.subscribers ≡ some d)

taken : (t : Session) → (next_write t).0.subscribers ≡ t.subscribers
unfolding next_write
taken t = go t.writes refl
  where
    go : (ws : List Bytes) → t.writes ≡ ws → (next_write t).0.subscribers ≡ t.subscribers
    go [] e = rw (next_write, e) refl
    go (w ∷ ws) e = rw (next_write, e) refl

worked-Fewer : (alive : ℕ → Bool) (t u : Session) → Works alive t u → Fewer t u
worked-Fewer alive t u (takes h) =
    subst (Fewer t) h (λ id c k. (c, subst (λ m. lookup id m ≡ some c) (taken t) k))
worked-Fewer alive t u (receives input h) =
    subst (Fewer t) h
      (unfold receive_data collected in λ id c k. collect-lookup alive id t.subscribers c k)
worked-Fewer alive t u (fails h) =
    subst (Fewer t) h (unfold fail collected in λ id c k. collect-lookup alive id t.subscribers c k)

-- A session is replaced by one without new subscribers.
replace-Held :
    (s : Service) (port : Bytes) (n : ℕ) (t u : Session)
    → Held s
    → lookup port s.sessions ≡ some (n, t)
    → Fewer t u
    → Held (record s { sessions = insert port (n, u) s.sessions })
replace-Held s port n t u v h f =
    put-Held s port n s.made u s.subscriptions v (λ id m q d k. k)
      (λ id c l. let (d, k) = f id c l in v.listed port n t id d h k) (v.wanted port n t h)

unchanged : {a b : Service} → ◌≡◌ {A = Result Error Service} (ok a) (ok b) → a ≡ b
unchanged h = cc

queue_keeps :
    (t u : Session) (input : Bytes) → queue_write t input ≡ ok u → u.subscribers ≡ t.subscribers
unfolding queue_write
queue_keeps t u input h = ground arith

write-Held : (s s' : Service) (id input : Bytes) → Held s → write s id input ≡ ok s' → Held s'
unfolding write
write-Held s s' id input v h = elim (Bool-cases (bytes_eq input [])) [
  | inl none_given ↦
      let e : ◌≡◌ {A = Result Error Service} (ok s) (ok s') = rw none_given at h in
      subst Held (unchanged e) v
  | inr given ↦
      let (_, small, h₁) =
        >>=-eq-ok (guard (not (ltb (1024 * 1024) (length input))) message_too_large) _
          (rw given at h) in
      let (sub, found, h₂) = >>=-eq-ok (or_throw (lookup id s.subscriptions) not_open) _ h₁ in
      let (t, locks, h₃) = >>=-eq-ok (or_throw (lock s sub) session_closed) _ h₂ in
      let (u, queued, h₄) = >>=-eq-ok (queue_write t input) _ h₃ in
      subst Held (unchanged h₄) (
        replace-Held s sub.port sub.session t u v (locked s sub t (or_throw-some _ _ locks))
          (λ k c l. (c, subst (λ m. lookup k m ≡ some c) (queue_keeps t u input queued) l)))
]

Step-Held : {s s' : Service} → Step s s' → Held s → Held s'
Step-Held {s} {s'} (attaches alive av o p port op id c f h) v =
    subst Held h (attach-Held alive s av o p port op id c v f)
Step-Held {s} {s'} (detaches alive id h) v = subst Held h (detach-Held alive s id v)
Step-Held {s} {s'} (writes id input h) v = write-Held s s' id input v h
Step-Held {s} {s'} (plugin_writes port n t u input l w h) v = subst Held h (
    replace-Held s port n t u v l
      (λ k c m. (c, subst (λ x. lookup k x ≡ some c) (queue_keeps t u input w) m)))
Step-Held {s} {s'} (works alive port n t u l w h) v =
    subst Held h (replace-Held s port n t u v l (worked-Fewer alive t u w))

empty-Held : Held empty
unfolding lookup
empty-Held = record { listed = λ port n t id c h k. cc; wanted = λ port n t h. absurd cc }

-- After any calls, any writes of plugins and any work of the sessions, whoever is on the list of a session has a
-- subscription to that session, and a session has a subscription: when the last subscriber has left,
-- no port is held.
pub Reach-Held : {s : Service} → Reach s → Held s
Reach-Held here = empty-Held
Reach-Held (next r st) = Step-Held st (Reach-Held r)
