-- ===== src/BrowserShare/Keeps.antt =====
-- backend/src/serial/browser_serial_share_service.cpp: every method keeps the maps consistent.
use space_station.Prelude.{
  >>=-eq-ok, Bool, Bool-cases, List, Option-cases, Result, Result-cases, [], ap, arith, false,
  guard, guard-eq-ok, inl, inr, length, length-drop, ltb, none, not, ok, or_throw, or_throw-some,
  refl, some, subst, true, ℕ, ◌&&◌, ◌++◌, ◌-◌, ◌==◌, ◌∙◌, ◌∷◌, ◌≡◌, ◌≤◌,
}
use space_station.BrowserShare.Consistent.{
  Consistent, replace-Consistent, erase-Consistent, lookup-erase_all, erase_all-keeps,
}
use space_station.Prelude.Bytes.{Bytes, bytes_eq_iff, bytes_eq}
use space_station.Prelude.Dict.{
  lookup, Dict, Distinct, insert, Distinct-insert, lookup-insert, erase, lookup-erase,
  Distinct-erase,
}
use space_station.BrowserShare.Publishing.{
  update, publish, unpublish, updated, new_share, without_share, hides,
}
use space_station.BrowserShare.State.{
  owned, Service, put_share, Effect, Share, max_backlog, valid_id, valid_name, invalid_id,
  invalid_name, id_taken, Error, alive, erase_all, max_message, no_such_share, message_too_large,
  not_shared, owner_offline,
}
use space_station.BrowserShare.Subscribing.{
  subscribe, append_backlog, owner_data, detach, live_subscribers, dead_subscribers, with_output,
  with_subscriber, drop_subscriber,
}

-- The maps of the subscribers that live and of those that do not.
lookup-live :
    (exists connected : ℕ → Bool) (id : Bytes) (m : Dict ℕ)
    → lookup id m ≡ none
    → (lookup id (live_subscribers exists connected m) ≡ none)
      × (lookup id (dead_subscribers exists connected m) ≡ none)
unfolding lookup live_subscribers dead_subscribers
lookup-live exists connected id [] h = (refl, refl)
lookup-live exists connected id ((j, c) ∷ m) h = ground (arith, lookup-live exists connected id m)

Distinct-live :
    (exists connected : ℕ → Bool) (m : Dict ℕ)
    → Distinct m
    → Distinct (live_subscribers exists connected m)
unfolding live_subscribers
Distinct-live exists connected [] d = tt
Distinct-live exists connected ((j, c) ∷ m) d =
    ground (arith, Distinct-live exists connected m d.1, lookup-live exists connected j m d.0)

-- Who lives was on the list, and is not among the dead.
live_only :
    (exists connected : ℕ → Bool) (id : Bytes) (c : ℕ) (m : Dict ℕ)
    → Distinct m
    → lookup id (live_subscribers exists connected m) ≡ some c
    → (lookup id m ≡ some c) × (lookup id (dead_subscribers exists connected m) ≡ none)
unfolding lookup live_subscribers dead_subscribers
live_only exists connected id c [] d h = ground arith
live_only exists connected id c ((j, e) ∷ m) d h = ground (
  arith,
  live_only exists connected id c m d.1,
  lookup-live exists connected j m d.0,
  bytes_eq_iff j id,
)

append_backlog_bounded :
    (exists connected : ℕ → Bool) (b i : Bytes)
    → length (append_backlog exists connected b i) ≤ max_backlog
unfolding append_backlog
append_backlog_bounded exists connected b i =
    let grown = b ++ i in ground (arith, length-drop (length grown - max_backlog) grown)

owned-found :
    (s : Service) (key : Bytes) (owner : ℕ) (share : Share)
    → owned s key owner ≡ ok share
    → (lookup key s.shares ≡ some share) × (share.owner ≡ owner)
unfolding owned
owned-found s key owner share h = ground arith

no_entry : (id : Bytes) (c : ℕ) → lookup id [] ≡ some c → ⊥
unfolding lookup
no_entry id c h = cc

erase_nil : (id : Bytes) → erase {V = ℕ} id [] ≡ []
unfolding erase
erase_nil id = refl

result_state :
    {A : Type 0} (s t : Service) (a b : A)
    → ◌≡◌ {A = Result Error (Service × A)} (ok (s, a)) (ok (t, b))
    → s ≡ t
result_state s t a b h = cc

module _ (exists connected : ℕ → Bool) (s : Service) (v : Consistent s) where
  pub publish-Consistent :
      (s' : Service) (plugins : Bool) (session share_id name port_label : Bytes)
      (write_enabled discoverable : Bool) (plugin_target : Bytes) (owner : ℕ) (fx : List Effect)
      → publish exists connected s plugins session share_id name port_label write_enabled
          discoverable plugin_target owner
        ≡ ok (s', fx)
      → Consistent s'
  unfolding publish put_share new_share
  publish-Consistent s' plugins session share_id name port_label write_enabled discoverable
        plugin_target owner fx h =
      let (_, _, h₁) = >>=-eq-ok (guard (valid_id share_id) invalid_id) _ h in
      let (_, _, h₂) = >>=-eq-ok (guard (valid_name name) invalid_name) _ h₁ in
      let (_, _, h₃) =
        >>=-eq-ok
          (guard
            (elim (lookup share_id s.shares) [
              | none ↦ true
              | some current ↦
                  not (alive exists connected current.owner && not (current.owner == owner))
            ])
            id_taken)
          _ h₂ in
      let e = result_state _ s' _ fx h₃ in
      subst Consistent e (
        replace-Consistent s share_id
          (new_share exists connected plugins session share_id name port_label write_enabled
            discoverable plugin_target owner)
          s.subscriptions tt (omega arith) (λ _. (refl, refl)) (λ id c k. absurd (no_entry id c k))
          (λ id other ne k. k) v)

  updated-Consistent :
      (share_id : Bytes) (share : Share) (name : Bytes) (write_enabled discoverable : Bool)
      → lookup share_id s.shares ≡ some share
      → Consistent (updated exists connected s share_id share name write_enabled discoverable)
  unfolding updated
  updated-Consistent share_id share name write_enabled discoverable found =
      elim (Bool-cases (hides exists connected share discoverable)) [
        | inl hiding ↦ rw hiding (
            replace-Consistent s share_id
              (record share {
                name = name;
                write_enabled = write_enabled;
                discoverable = discoverable;
                subscribers = [];
                backlog = [];
              })
              (erase_all share.subscribers s.subscriptions) tt (omega arith) (λ _. (refl, refl))
              (λ id c k. absurd (no_entry id c k))
              (erase_all-keeps s share_id share share.subscribers (λ id k. k) found v) v)
        | inr showing ↦ rw showing (
            replace-Consistent s share_id
              (record share {
                name = name;
                write_enabled = write_enabled;
                discoverable = discoverable;
              })
              s.subscriptions (v.distinct share_id share found) (v.bounded share_id share found)
              (λ e. v.private_empty share_id share found (ground arith))
              (λ id c k. v.listed share_id share id c found k) (λ id other ne k. k) v)
      ]

  pub update-Consistent :
      (s' : Service) (share_id name : Bytes) (write_enabled discoverable : Bool) (owner : ℕ)
      (fx : List Effect)
      → update exists connected s share_id name write_enabled discoverable owner ≡ ok (s', fx)
      → Consistent s'
  unfolding update
  update-Consistent s' share_id name write_enabled discoverable owner fx h =
      let (_, _, h₁) = >>=-eq-ok (guard (valid_name name) invalid_name) _ h in
      let (share, found, h₂) = >>=-eq-ok (owned s share_id owner) _ h₁ in
      subst Consistent (result_state _ s' _ fx h₂) (
        updated-Consistent share_id share name write_enabled discoverable
          (owned-found s share_id owner share found).0)

  pub subscribe-Consistent :
      (s' : Service) (id share_id : Bytes) (connection : ℕ) (fx : List Effect)
      → lookup id s.subscriptions ≡ none
      → subscribe exists connected s id share_id connection ≡ ok (s', fx)
      → Consistent s'
  unfolding subscribe with_subscriber
  subscribe-Consistent s' id share_id connection fx fresh h =
      let (share, found, h₁) = >>=-eq-ok (or_throw (lookup share_id s.shares) no_such_share) _ h in
      let (_, shared, h₂) = >>=-eq-ok (guard share.discoverable not_shared) _ h₁ in
      let (_, _, h₃) = >>=-eq-ok (guard (alive exists connected share.owner) owner_offline) _ h₂ in
      let here : lookup share_id s.shares ≡ some share = or_throw-some _ _ found in
      let open_ : share.discoverable ≡ true = guard-eq-ok _ _ shared in
      subst Consistent (result_state _ s' _ fx h₃) (
        replace-Consistent s share_id
          (record share { subscribers = insert id connection share.subscribers })
          (insert id share_id s.subscriptions)
          (Distinct-insert id connection share.subscribers (v.distinct share_id share here))
          (v.bounded share_id share here) (λ e. cc)
          (λ j c k. ground (
            arith,
            lookup-insert id j share_id s.subscriptions,
            lookup-insert id j connection share.subscribers,
            v.listed share_id share j c here,
          ))
          (λ j other ne k.
            ground (arith, lookup-insert id j share_id s.subscriptions, bytes_eq_iff id j))
          v)

  owner_data-found :
      (share_id : Bytes) (share : Share) (input : Bytes)
      → lookup share_id s.shares ≡ some share
      → share.discoverable ≡ true
      → Consistent (with_output exists connected s share_id share input)
  unfolding with_output
  owner_data-found share_id share input here shared =
      let d = v.distinct share_id share here in
      replace-Consistent s share_id
        (record share {
          backlog = append_backlog exists connected share.backlog input;
          subscribers = live_subscribers exists connected share.subscribers;
        })
        (erase_all (dead_subscribers exists connected share.subscribers) s.subscriptions)
        (Distinct-live exists connected share.subscribers d)
        (append_backlog_bounded exists connected share.backlog input) (λ e. cc)
        (λ j c k.
          let (listed, living) = live_only exists connected j c share.subscribers d k in
          lookup-erase_all j _ s.subscriptions living ∙ v.listed share_id share j c here listed)
        (erase_all-keeps s share_id share (dead_subscribers exists connected share.subscribers)
          (λ j k. (lookup-live exists connected j share.subscribers k).1) here v)
        v

  pub owner_data-Consistent :
      (s' : Service) (plugins : Bool) (share_id : Bytes) (owner : ℕ) (input : Bytes)
      (fx : List Effect)
      → owner_data exists connected s plugins share_id owner input ≡ ok (s', fx)
      → Consistent s'
  unfolding owner_data
  owner_data-Consistent s' plugins share_id owner input fx h =
      elim (Bool-cases (bytes_eq input [])) [
        | inl nothing ↦ subst Consistent (result_state s s' [] fx (rw nothing at h)) v
        | inr some_ ↦
            let (_, _, h₁) =
              >>=-eq-ok (guard (not (ltb max_message (length input))) message_too_large) _
                (rw some_ at h) in
            let (share, found, h₂) = >>=-eq-ok (owned s share_id owner) _ h₁ in
            let here = (owned-found s share_id owner share found).0 in
            subst Consistent (result_state _ s' _ fx h₂) (elim (Bool-cases share.discoverable) [
              | inl shared ↦ rw shared (owner_data-found share_id share input here shared)
              | inr hidden ↦ rw hidden v
            ])
      ]

  pub without_share-Consistent :
      (share_id : Bytes) (share : Share)
      → lookup share_id s.shares ≡ some share
      → Consistent (without_share exists connected s share_id share)
  unfolding without_share
  without_share-Consistent share_id share here =
      erase-Consistent s share_id (erase_all share.subscribers s.subscriptions)
        (erase_all-keeps s share_id share share.subscribers (λ id k. k) here v) v

  pub unpublish-Consistent :
      (plugins : Bool) (share_id : Bytes) (owner : ℕ)
      → Consistent (unpublish exists connected s plugins share_id owner).0
  unfolding unpublish
  unpublish-Consistent plugins share_id owner = elim (Result-cases (owned s share_id owner)) [
    | inl (e, failed) ↦ rw (failed, unpublish) v
    | inr (share, found) ↦
        rw (found, unpublish)
          (without_share-Consistent share_id share (owned-found s share_id owner share found).0)
  ]

  -- The subscription that `detach` drops is to `share_id`.
  detached_kept :
      (id share_id : Bytes)
      → lookup id s.subscriptions ≡ some share_id
      → (j other : Bytes) → bytes_eq share_id other ≡ false
      → lookup j s.subscriptions ≡ some other
      → lookup j (erase id s.subscriptions) ≡ some other
  detached_kept id share_id h j other ne k =
      ground
        (arith, lookup-erase id j s.subscriptions, bytes_eq_iff id j, bytes_eq_iff share_id other)

  detach_listed :
      (id share_id : Bytes) (share : Share)
      → lookup id s.subscriptions ≡ some share_id
      → lookup share_id s.shares ≡ some share
      → Consistent (record {
        shares =
            insert share_id (record share { subscribers = erase id share.subscribers }) s.shares;
        subscriptions = erase id s.subscriptions;
      })
  detach_listed id share_id share h here =
      replace-Consistent s share_id (record share { subscribers = erase id share.subscribers })
        (erase id s.subscriptions)
        (Distinct-erase id share.subscribers (v.distinct share_id share here))
        (v.bounded share_id share here)
        (λ e.
          let (none_left, no_backlog) = v.private_empty share_id share here e in
          (ap (erase id) none_left ∙ erase_nil id, no_backlog))
        (λ j c k. ground (
          arith,
          lookup-erase id j share.subscribers,
          lookup-erase id j s.subscriptions,
          v.listed share_id share j c here,
        ))
        (detached_kept id share_id h) v

  detach_orphan :
      (id share_id : Bytes)
      → lookup id s.subscriptions ≡ some share_id
      → lookup share_id s.shares ≡ none
      → Consistent (record { shares = s.shares; subscriptions = erase id s.subscriptions })
  detach_orphan id share_id h absent = record {
    listed = λ k sh j c a b.
        ground (arith, v.listed k sh j c a b, lookup-erase id j s.subscriptions, bytes_eq_iff id j);
    distinct = v.distinct;
    bounded = v.bounded;
    private_empty = v.private_empty;
  }

  pub detach-Consistent : (id : Bytes) → Consistent (detach exists connected s id).0
  unfolding detach drop_subscriber
  detach-Consistent id = elim (Option-cases (lookup id s.subscriptions)) [
    | inl absent ↦ rw (absent, detach) v
    | inr (share_id, h) ↦ elim (Option-cases (lookup share_id s.shares)) [
      | inl absent ↦ rw (h, absent, detach, drop_subscriber) (detach_orphan id share_id h absent)
      | inr (share, here) ↦
          rw (h, here, detach, drop_subscriber) (detach_listed id share_id share h here)
    ]
  ]
