-- ===== src/BrowserShare/Access.antt =====
-- backend/src/serial/browser_serial_share_service.cpp: who may write to a shared port, and for how
-- long.
use space_station.Prelude.{
  >>=-eq-ok, Bool, Bool-cases, List, [], ap, arith, err, false, guard, guard-eq-ok, inl, inr,
  length, ltb, none, not, ok, or_throw, or_throw-some, refl, some, subst, true, ℕ, ◌&&◌, ◌<◌, ◌==◌,
  ◌∷◌, ◌≡◌, ◌≢◌, ◌≤◌,
}
use space_station.BrowserShare.Consistent.{Consistent}
use space_station.Prelude.Dict.{lookup, Dict, erase, lookup-erase, lookup-insert}
use space_station.Prelude.Bytes.{Bytes, bytes_eq, bytes_eq_sound, bytes_eq_refl}
use space_station.BrowserShare.Publishing.{unpublish, without_share, publish, new_share}
use space_station.BrowserShare.Subscribing.{subscriber_write, to_owner}
use space_station.BrowserShare.State.{
  Service, Effect, owned, Share, content, max_message, not_subscribed, put_share, erase_all,
  message_too_large, valid_id, invalid_id, valid_name, no_such_share, not_shared, invalid_name,
  alive, read_only, owner_offline, id_taken,
}

nonempty : (input : Bytes) → input ≢ [] → bytes_eq input [] ≡ false
nonempty input ne = elim (Bool-cases (bytes_eq input [])) [
  | inl e ↦ absurd (ne (bytes_eq_sound input [] e))
  | inr e ↦ e
]

nonempty_of_length : (input : Bytes) → 0 < length input → bytes_eq input [] ≡ false
nonempty_of_length [] h = absurd (omega arith)
nonempty_of_length (x ∷ xs) h = unfold bytes_eq in refl

erase_all-none :
    (id : Bytes) (gone : Dict ℕ) (m : Dict Bytes)
    → lookup id m ≡ none
    → lookup id (erase_all gone m) ≡ none
unfolding erase_all
erase_all-none id [] m h = h
erase_all-none id ((j, d) ∷ gone) m h =
    erase_all-none id gone (erase j m) (ground (arith, lookup-erase j id m))

erase_all-gone :
    (id : Bytes) (gone : Dict ℕ) (m : Dict Bytes) (c : ℕ)
    → lookup id gone ≡ some c
    → lookup id (erase_all gone m) ≡ none
unfolding erase_all lookup
erase_all-gone id [] m c h = cc
erase_all-gone id ((j, d) ∷ gone) m c h = elim (Bool-cases (bytes_eq j id)) [
  | inl same ↦ erase_all-none id gone (erase j m) (ground (arith, lookup-erase j id m))
  | inr other ↦ erase_all-gone id gone (erase j m) c (ground arith)
]

both : (a b : Bool) → (a && b) ≡ true → (a ≡ true) × (b ≡ true)
both a b h = ground arith

small_enough : (n : ℕ) → not (ltb max_message n) ≡ true → n ≤ max_message
small_enough n h = ground arith

small_passes : (n : ℕ) → n ≤ max_message → ltb max_message n ≡ false
small_passes n h = ground arith

-- A write under an id with no subscription.
not_subscribed_write :
    (exists connected : ℕ → Bool) (s : Service) (id input : Bytes)
    → lookup id s.subscriptions ≡ none
    → 0 < length input
    → length input ≤ max_message
    → subscriber_write exists connected s id input ≡ err not_subscribed
unfolding subscriber_write
not_subscribed_write exists connected s id input h lo hi =
    rw (nonempty_of_length input lo, small_passes (length input) hi, h)

owned_by_owner :
    (s : Service) (key : Bytes) (share : Share)
    → lookup key s.shares ≡ some share
    → owned s key share.owner ≡ ok share
unfolding owned
owned_by_owner s key share h = ground arith

module _ (exists connected : ℕ → Bool) where
  -- What a subscriber needs to write.
  pub data MayWrite (s : Service) (id : Bytes) : ℕ → Type 0 where
    may :
        (share_id : Bytes) (share : Share) {owner : ℕ}
        → lookup id s.subscriptions ≡ some share_id
        → lookup share_id s.shares ≡ some share
        → share.discoverable ≡ true
        → share.write_enabled ≡ true
        → share.owner ≡ owner
        → (exists owner ≡ true) × (connected owner ≡ true)
        → MayWrite s id owner

  -- A subscriber's write that is not empty and is accepted reaches exactly one connection, with
  -- exactly these bytes: the live owner of the discoverable and writable share that the subscription
  -- names.
  pub subscriber_write-MayWrite :
      (s : Service) (id input : Bytes) (fx : List Effect)
      → input ≢ []
      → subscriber_write exists connected s id input ≡ ok fx
      → (owner : ℕ) × (fx ≡ content owner input ∷ [])
        × MayWrite s id owner
        × (length input ≤ max_message)
  unfolding subscriber_write
  subscriber_write-MayWrite s id input fx ne h =
      let (_, small, h₁) =
        >>=-eq-ok (guard (not (ltb max_message (length input))) message_too_large) _
          (rw (nonempty input ne) at h) in
      let (share_id, sub, h₂) =
        >>=-eq-ok (or_throw (lookup id s.subscriptions) not_subscribed) _ h₁ in
      let (share, found, h₃) = >>=-eq-ok (or_throw (lookup share_id s.shares) no_such_share) _ h₂ in
      let (_, shared, h₄) = >>=-eq-ok (guard share.discoverable not_shared) _ h₃ in
      let (_, writable, h₅) = >>=-eq-ok (guard share.write_enabled read_only) _ h₄ in
      let (_, lives, h₆) =
        >>=-eq-ok (guard (alive exists connected share.owner) owner_offline) _ h₅ in
      (
        share.owner,
        cc h₆,
        may share_id share (or_throw-some _ _ sub) (or_throw-some _ _ found)
            (guard-eq-ok _ _ shared) (guard-eq-ok _ _ writable) refl
            (both (exists share.owner) (connected share.owner) (guard-eq-ok _ _ lives)),
        small_enough (length input) (guard-eq-ok _ _ small),
      )

  -- In a consistent state: when the owner has unpublished, a write of 1 byte up to 1 MiB by one of
  -- the share's subscribers is refused as not subscribed.
  pub unpublish_ends_writes :
      (s : Service) (plugins : Bool) (share_id : Bytes) (share : Share) (id : Bytes) (c : ℕ)
      (input : Bytes)
      → Consistent s
      → lookup share_id s.shares ≡ some share
      → lookup id share.subscribers ≡ some c
      → 0 < length input
      → length input ≤ max_message
      → subscriber_write exists connected
          (unpublish exists connected s plugins share_id share.owner).0
          id
          input
        ≡ err not_subscribed
  unpublish_ends_writes s plugins share_id share id c input v h k lo hi =
      not_subscribed_write exists connected _ id input
        (unfold unpublish without_share in
          rw (owned_by_owner s share_id share h, unpublish)
            (erase_all-gone id share.subscribers s.subscriptions c k))
        lo hi

  published :
      (s s' : Service) (plugins : Bool) (session share_id name port_label : Bytes)
      (write_enabled discoverable : Bool) (plugin_target : Bytes) (owner : ℕ) (fx : List Effect)
      → publish exists connected s plugins session share_id name port_label write_enabled
          discoverable plugin_target owner
        ≡ ok (s', fx)
      → put_share s share_id (
          new_share exists connected plugins session share_id name port_label write_enabled
            discoverable plugin_target owner)
        ≡ s'
  unfolding publish
  published s s' plugins session share_id name port_label write_enabled discoverable plugin_target
        owner fx h =
      let (_, _, h₁) = >>=-eq-ok (guard (valid_id share_id) invalid_id) _ h in
      let (_, _, h₂) = >>=-eq-ok (guard (valid_name name) invalid_name) _ h₁ in
      let (_, _, h₃) =
        >>=-eq-ok
          (guard
            (elim (lookup share_id s.shares) [
              | none ↦ true
              | some current ↦
                  not (alive exists connected current.owner && not (current.owner == owner))
            ])
            id_taken)
          _ h₂ in
      cc h₃

  write_to_fresh :
      (s : Service) (id share_id input : Bytes) (share : Share)
      → lookup id s.subscriptions ≡ some share_id
      → 0 < length input
      → length input ≤ max_message
      → share.discoverable ≡ true
      → share.write_enabled ≡ true
      → alive exists connected share.owner ≡ true
      → subscriber_write exists connected (put_share s share_id share) id input
        ≡ ok (content share.owner input ∷ [])
  unfolding put_share subscriber_write to_owner
  write_to_fresh s id share_id input share sub lo hi di wr al = rw (
    nonempty_of_length input lo,
    small_passes (length input) hi,
    sub,
    lookup-insert share_id share_id share s.shares,
    bytes_eq_refl share_id,
    di,
    wr,
    al,
  )

  fresh_found :
      (s : Service) (share_id : Bytes) (fresh share : Share)
      → lookup share_id (put_share s share_id fresh).shares ≡ some share
      → share ≡ fresh
  unfolding put_share
  fresh_found s share_id fresh share h =
      ground (arith, lookup-insert share_id share_id fresh s.shares, bytes_eq_refl share_id)

  -- A viewer with a subscription to an id under which a live owner publishes, discoverable and
  -- writable: a write of 1 byte up to 1 MiB by this viewer reaches the new owner, and yet the new
  -- share has an empty list of subscribers.
  pub publish_keeps_writers :
      (s s' : Service) (plugins : Bool) (session share_id name port_label plugin_target : Bytes)
      (owner : ℕ) (fx : List Effect) (id input : Bytes)
      → lookup id s.subscriptions ≡ some share_id
      → publish exists connected s plugins session share_id name port_label true true plugin_target
          owner
        ≡ ok (s', fx)
      → 0 < length input
      → length input ≤ max_message
      → exists owner ≡ true
      → connected owner ≡ true
      → (subscriber_write exists connected s' id input ≡ ok (content owner input ∷ []))
        × ((share : Share) → lookup share_id s'.shares ≡ some share → share.subscribers ≡ [])
  unfolding new_share
  publish_keeps_writers s s' plugins session share_id name port_label plugin_target owner fx id
        input sub h lo hi ex co =
      let fresh =
        new_share exists connected plugins session share_id name port_label true true plugin_target
          owner in
      let e =
        published s s' plugins session share_id name port_label true true plugin_target owner fx
          h in
      subst
        (λ (t : Service).
          (subscriber_write exists connected t id input ≡ ok (content owner input ∷ []))
          × ((share : Share) → lookup share_id t.shares ≡ some share → share.subscribers ≡ []))
        e
        (
          write_to_fresh s id share_id input fresh sub lo hi refl refl (rw (ex, co)),
          λ share f. ap (λ (x : Share). x.subscribers) (fresh_found s share_id fresh share f),
        )
