-- ===== src/Serial/Release.antt =====
-- backend/src/serial/serial_service.cpp: a port is held as long as somebody subscribes to it, and no
-- longer.
use mathlib.Core.Bool.{false≢true}
use space_station.Prelude.{
  Bool, Bool-cases, List, Option-cases, [], all_of, ap, ap₂, arith, false, inl, inr, length, ltb,
  none, not, refl, some, subst, suc, sym, true, ℕ, ◌+◌, ◌==◌, ◌||◌, ◌∙◌, ◌∷◌, ◌≡◌,
}
use space_station.Prelude.Dict.{Dict, lookup, erase, insert, lookup-insert, lookup-erase}
use space_station.Serial.Service.{
  Service, Subscription, open_session, attach, join_session, leave_session, detach, lock,
}
use space_station.Serial.Session.{
  collect, Session, SerialOptions, new_session, collected, with_subscriber, same_options,
}
use space_station.Prelude.Bytes.{Bytes, bytes_eq, bytes_eq_sound, bytes_eq_refl}

abbrev named : ℕ → Bytes → Subscription
named n port = record { session = n; port = port }

pub record Held (s : Service) : Type 0 where
  -- Whoever is on a session's list has a subscription to it.
  pub listed :
      (port : Bytes) (n : ℕ) (t : Session) (id : Bytes) (c : ℕ)
      → lookup port s.sessions ≡ some (n, t)
      → lookup id t.subscribers ≡ some c
      → lookup id s.subscriptions ≡ some (named n port)
  -- Every session has a subscription.
  pub wanted :
      (port : Bytes) (n : ℕ) (t : Session)
      → lookup port s.sessions ≡ some (n, t)
      → (id : Bytes) × (lookup id s.subscriptions ≡ some (named n port))

-- Subscriptions to other ports stay.
abbrev Others : Bytes → Service → Dict Subscription → Type 0
Others port s subs =
    (id : Bytes) (m : ℕ) (q : Bytes)
    → bytes_eq port q ≡ false
    → lookup id s.subscriptions ≡ some (named m q)
    → lookup id subs ≡ some (named m q)

other_port :
    {V : Type 0} (port q : Bytes) (m : Dict V) (v w : V)
    → lookup q (insert port v m) ≡ some w
    → bytes_eq port q ≡ false
    → lookup q m ≡ some w
other_port port q m v w h d = ground (arith, lookup-insert port q v m)

same_port :
    {V : Type 0} (port q : Bytes) (m : Dict V) (v w : V)
    → lookup q (insert port v m) ≡ some w
    → bytes_eq port q ≡ true
    → v ≡ w
same_port port q m v w h d = ground (arith, lookup-insert port q v m)

erased_port :
    {V : Type 0} (port q : Bytes) (m : Dict V) (w : V)
    → lookup q (erase port m) ≡ some w
    → (bytes_eq port q ≡ false) × (lookup q m ≡ some w)
erased_port port q m w h = ground (arith, lookup-erase port q m)

pub put-Held :
    (s : Service) (port : Bytes) (n made : ℕ) (t : Session) (subs : Dict Subscription)
    → Held s
    → Others port s subs
    → ((id : Bytes) (c : ℕ)
        → lookup id t.subscribers ≡ some c
        → lookup id subs ≡ some (named n port))
    → ((id : Bytes) × (lookup id subs ≡ some (named n port)))
    → Held (record { sessions = insert port (n, t) s.sessions; subscriptions = subs; made = made })
put-Held s port n made t subs v others here some_one = record {
  listed = λ q m u id c h k. elim (Bool-cases (bytes_eq port q)) [
    | inl same ↦
        let e = same_port port q s.sessions (n, t) (m, u) h same in
        let k' = subst (λ (x : ℕ × Session). lookup id x.1.subscribers ≡ some c) (sym e) k in
        here id c k' ∙ ap₂ (λ x y. some (named x y)) (ap (λ x. x.0) e) (bytes_eq_sound port q same)
    | inr other ↦
        others id m q other (v.listed q m u id c (other_port port q s.sessions _ _ h other) k)
  ];
  wanted = λ q m u h. elim (Bool-cases (bytes_eq port q)) [
    | inl same ↦
        let e = same_port port q s.sessions (n, t) (m, u) h same in
        (
          some_one.0,
          some_one.1 ∙ ap₂ (λ x y. some (named x y)) (ap (λ x. x.0) e) (bytes_eq_sound port q same),
        )
    | inr other ↦
        let (id, k) = v.wanted q m u (other_port port q s.sessions _ _ h other) in
        (id, others id m q other k)
  ];
}

release-Held :
    (s : Service) (port : Bytes) (made : ℕ) (subs : Dict Subscription)
    → Held s
    → Others port s subs
    → Held (record { sessions = erase port s.sessions; subscriptions = subs; made = made })
release-Held s port made subs v others = record {
  listed = λ q m u id c h k.
      let (other, h') = erased_port port q s.sessions (m, u) h in
      others id m q other (v.listed q m u id c h' k);
  wanted = λ q m u h.
      let (other, h') = erased_port port q s.sessions (m, u) h in
      let (id, k) = v.wanted q m u h' in (id, others id m q other k);
}

pub collect-lookup :
    (alive : ℕ → Bool) (id : Bytes) (m : Dict ℕ) (c : ℕ)
    → lookup id (collect alive m) ≡ some c
    → (d : ℕ) × (lookup id m ≡ some d)
unfolding collect lookup
collect-lookup alive id [] c h = cc
collect-lookup alive id ((j, d) ∷ m) c h = elim (Bool-cases (bytes_eq j id)) [
  | inl same ↦ (d, ground arith)
  | inr other ↦ let ih = collect-lookup alive id m c (ground arith) in (ih.0, rw other (ih.1))
]

-- The subscribers of a session are subscribed to it.
abbrev Listed : Service → Bytes → ℕ → Dict ℕ → Type 0
Listed s port n m =
    (id : Bytes) (c : ℕ) → lookup id m ≡ some c → lookup id s.subscriptions ≡ some (named n port)

insert_kept :
    (s : Service) (port id : Bytes) (sub : Subscription)
    → lookup id s.subscriptions ≡ none
    → Others port s (insert id sub s.subscriptions)
insert_kept s port id sub new k m q d h =
    ground (arith, lookup-insert id k sub s.subscriptions, bytes_eq_sound id k)

inserted :
    (m : Dict Subscription) (id : Bytes) (sub : Subscription)
    → lookup id (insert id sub m) ≡ some sub
inserted m id sub = ground (arith, lookup-insert id id sub m, bytes_eq_refl id)

joined-Listed :
    (s : Service) (port : Bytes) (n : ℕ) (m : Dict ℕ) (id : Bytes) (connection : ℕ)
    → Listed s port n m
    → lookup id s.subscriptions ≡ none
    → (k : Bytes) (c : ℕ) → lookup k (insert id connection m) ≡ some c
    → lookup k (insert id (named n port) s.subscriptions) ≡ some (named n port)
joined-Listed s port n m id connection l new k c h = ground (
  arith,
  lookup-insert id k connection m,
  lookup-insert id k (named n port) s.subscriptions,
  l k c,
)

erase_kept :
    (s : Service) (port : Bytes) (n : ℕ) (id : Bytes)
    → lookup id s.subscriptions ≡ some (named n port)
    → Others port s (erase id s.subscriptions)
erase_kept s port n id sub k m q d h = elim (Bool-cases (bytes_eq id k)) [
  | inl same ↦
      let e : some (named n port) ≡ some (named m q) =
        sym sub ∙ ap (λ j. lookup j s.subscriptions) (bytes_eq_sound id k same) ∙ h in
      let ports : port ≡ q = cc in
      absurd (false≢true (sym d ∙ ap (bytes_eq port) (sym ports) ∙ bytes_eq_refl port))
  | inr other ↦ ground (arith, lookup-erase id k s.subscriptions)
]

erase_other :
    (id k : Bytes) (m : Dict Subscription)
    → bytes_eq id k ≡ false
    → lookup k (erase id m) ≡ lookup k m
erase_other id k m h = ground (arith, lookup-erase id k m)

first_found : (k : Bytes) (c : ℕ) (m : Dict ℕ) → lookup k ((k, c) ∷ m) ≡ some c
unfolding lookup
first_found k c m = rw (bytes_eq_refl k) refl

not_empty : (n : ℕ) → (suc n == 0) ≡ false
not_empty n = ground arith

pub locked :
    (s : Service) (sub : Subscription) (t : Session)
    → lock s sub ≡ some t
    → lookup sub.port s.sessions ≡ some (sub.session, t)
unfolding lock
locked s sub t h = ground arith

module _ (alive : ℕ → Bool) where
  join-Held :
      (s : Service) (port : Bytes) (n : ℕ) (t : Session) (id : Bytes) (connection : ℕ)
      → Held s
      → Listed s port n t.subscribers
      → lookup id s.subscriptions ≡ none
      → Held (join_session alive s port n t id connection).0
  unfolding join_session collected with_subscriber
  join-Held s port n t id connection v l new =
      put-Held s port n s.made _ _ v (insert_kept s port id _ new)
        (λ k c h.
          let (d, h') = collect-lookup alive k (insert id connection t.subscribers) c h in
          joined-Listed s port n t.subscribers id connection l new k d h')
        (id, inserted s.subscriptions id _)

  open-Held :
      (s : Service) (opens : Bool) (plugin_session_id port : Bytes) (options : SerialOptions)
      (id : Bytes) (connection : ℕ)
      → Held s
      → lookup id s.subscriptions ≡ none
      → Held (open_session alive s opens plugin_session_id port options id connection).0
  unfolding open_session new_session lookup
  open-Held s true plugin_session_id port options id connection v new =
      join-Held _ port s.made _ id connection
        (release-Held s port (s.made + 1) s.subscriptions v (λ k m q d h. h)) (λ k c h. cc) new
  open-Held s false plugin_session_id port options id connection v new =
      release-Held s port s.made s.subscriptions v (λ k m q d h. h)

  pub attach-Held :
      (s : Service) (available : List Bytes) (opens : Bool) (plugin_session_id port : Bytes)
      (options : SerialOptions) (id : Bytes) (connection : ℕ)
      → Held s
      → lookup id s.subscriptions ≡ none
      → Held (attach alive s available opens plugin_session_id port options id connection).0
  unfolding attach
  attach-Held s available opens plugin_session_id port options id connection v new =
      elim (Bool-cases (bytes_eq port [] || ltb 512 (length port))) [
        | inl bad ↦ rw bad v
        | inr fine ↦ elim (Bool-cases (all_of (λ p. not (bytes_eq p port)) available)) [
          | inl unknown ↦ rw (fine, unknown) v
          | inr known ↦ elim (Option-cases (lookup port s.sessions)) [
            | inl absent ↦
                rw (fine, known, absent, attach)
                  (open-Held s opens plugin_session_id port options id connection v new)
            | inr (found, h) ↦ elim (Bool-cases found.1.running) [
              | inl running ↦ elim (Bool-cases (same_options found.1.options options)) [
                | inl same ↦
                    simp (fine, known, h, attach, running, same)
                      (join-Held s port found.0 found.1 id connection v
                        (λ k c l. v.listed port found.0 found.1 k c h l) new)
                | inr different ↦ rw (fine, known, h, attach, running, different) v
              ]
              | inr ended ↦
                  rw (fine, known, h, attach, ended)
                    (open-Held s opens plugin_session_id port options id connection v new)
            ]
          ]
        ]
      ]

  leave-Held :
      (s : Service) (port : Bytes) (n : ℕ) (t : Session) (id : Bytes)
      → Held s
      → lookup port s.sessions ≡ some (n, t)
      → lookup id s.subscriptions ≡ some (named n port)
      → Held
          (leave_session alive
            (record s { subscriptions = erase id s.subscriptions })
            port
            n
            t
            id).0
  unfolding leave_session collected
  leave-Held s port n t id v h sub = go (erase id t.subscribers) refl
    where
      others : Others port s (erase id s.subscriptions)
      others k m q d e = erase_kept s port n id sub k m q d e

      still :
          (k : Bytes) (c : ℕ)
          → lookup k (erase id t.subscribers) ≡ some c
          → lookup k (erase id s.subscriptions) ≡ some (named n port)
      still k c l =
          let (other, l') = erased_port id k t.subscribers c l in
          erase_other id k s.subscriptions other ∙ v.listed port n t k c h l'

      go :
          (left : Dict ℕ)
          → erase id t.subscribers ≡ left
          → Held
              (leave_session alive
                (record s { subscriptions = erase id s.subscriptions })
                port
                n
                t
                id).0
      go [] e = rw (e, leave_session) (release-Held s port s.made _ v others)
      go ((k, c) ∷ rest) e =
          rw (e, leave_session, not_empty (length rest))
            (put-Held s port n s.made _ _ v others
              (λ j d l.
                let (d', l') = collect-lookup alive j ((k, c) ∷ rest) d l in
                still j d' (ap (lookup j) e ∙ l'))
              (k, still k c (ap (lookup k) e ∙ first_found k c rest)))

  locks :
      (s : Service) (n : ℕ) (port : Bytes) (t : Session)
      → lookup port s.sessions ≡ some (n, t)
      → lock s (named n port) ≡ some t
  unfolding lock
  locks s n port t h = ground arith

  -- A subscription whose session is gone.
  forget-Held :
      (s : Service) (id : Bytes) (sub : Subscription)
      → lookup id s.subscriptions ≡ some sub
      → lock s sub ≡ none
      → Held s
      → Held (record s { subscriptions = erase id s.subscriptions })
  forget-Held s id sub h gone v = record {
    listed = λ q m u k c f l. stays q m u k f (v.listed q m u k c f l);
    wanted = λ q m u f. let (k, w) = v.wanted q m u f in (k, stays q m u k f w);
  }
    where
      stays :
          (q : Bytes) (m : ℕ) (u : Session) (k : Bytes)
          → lookup q s.sessions ≡ some (m, u)
          → lookup k s.subscriptions ≡ some (named m q)
          → lookup k (erase id s.subscriptions) ≡ some (named m q)
      stays q m u k f w = elim (Bool-cases (bytes_eq id k)) [
        | inl same ↦
            let e : some sub ≡ some (named m q) =
              sym h ∙ ap (λ j. lookup j s.subscriptions) (bytes_eq_sound id k same) ∙ w in
            let e' : sub ≡ named m q = cc in
            let l : none ≡ some u = sym gone ∙ ap (lock s) e' ∙ locks s m q u f in absurd cc
        | inr other ↦ erase_other id k s.subscriptions other ∙ w
      ]

  pub detach-Held : (s : Service) (id : Bytes) → Held s → Held (detach alive s id).0
  unfolding detach
  detach-Held s id v = elim (Option-cases (lookup id s.subscriptions)) [
    | inl absent ↦ rw (absent, detach) v
    | inr (sub, h) ↦ elim (Option-cases (lock s sub)) [
      | inl gone ↦ rw (h, detach, gone) (forget-Held s id sub h gone v)
      | inr (t, l) ↦
          rw (h, detach, l) (leave-Held s sub.port sub.session t id v (locked s sub t l) h)
    ]
  ]
