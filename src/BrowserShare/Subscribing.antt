-- ===== src/BrowserShare/Subscribing.antt =====
-- backend/src/serial/browser_serial_share_service.cpp: subscriptions, and data in both directions.
use space_station.Prelude.{
  Bool, List, Result, [], drop, guard, if◌then◌else◌, length, ltb, map, none, not, ok, or_throw,
  some, ℕ, ◌&&◌, ◌++◌, ◌-◌, ◌>>=◌, ◌>>◌, ◌∷◌,
}
use space_station.Prelude.Bytes.{Bytes, bytes_eq}
use space_station.BrowserShare.State.{
  Share, Service, Effect, max_backlog, alive, Error, broadcast_state, no_such_share, owner_offline,
  content, max_message, not_shared, message_too_large, subscribed, owned, not_subscribed, erase_all,
  read_only, on_output, connections,
}
use space_station.Prelude.Dict.{Dict, lookup, erase, insert}

module _ (exists connected : ℕ → Bool) where
  unfoldable pub with_subscriber : Service → Bytes → Bytes → Share → ℕ → Service
  with_subscriber s id share_id share connection = record {
    shares =
        insert share_id (record share { subscribers = insert id connection share.subscribers })
          s.shares;
    subscriptions = insert id share_id s.subscriptions;
  }

  -- Subscribe. The answer is the subscription's id with the messages.
  unfoldable pub subscribe : Service → Bytes → Bytes → ℕ → Result Error (Service × List Effect)
  subscribe s id share_id connection = do
    share ← or_throw (lookup share_id s.shares) no_such_share
    guard share.discoverable not_shared
    guard (alive exists connected share.owner) owner_offline
    let s' = with_subscriber s id share_id share connection
    ok (
      s',
      subscribed connection share_id share.name share.write_enabled
            (length (insert id connection share.subscribers))
          ∷ ((if bytes_eq share.backlog [] then [] else content connection share.backlog ∷ [])
              ++ broadcast_state exists connected s' share_id),
    )

  -- The loop of OwnerData over the subscribers: the dead ones leave both maps.
  unfoldable pub live_subscribers : Dict ℕ → Dict ℕ
  live_subscribers [] = []
  live_subscribers ((id, connection) ∷ rest) =
      let later = live_subscribers rest in
      if alive exists connected connection then (id, connection) ∷ later else later

  unfoldable pub dead_subscribers : Dict ℕ → Dict ℕ
  dead_subscribers [] = []
  dead_subscribers ((id, connection) ∷ rest) =
      let later = dead_subscribers rest in
      if alive exists connected connection then later else (id, connection) ∷ later

  -- `backlog.append(data)`, and the erasure of what passes the limit at the front.
  unfoldable pub append_backlog : Bytes → Bytes → Bytes
  append_backlog backlog input =
      let grown = backlog ++ input in
      if ltb max_backlog (length grown) then drop (length grown - max_backlog) grown else grown

  unfoldable pub with_output : Service → Bytes → Share → Bytes → Service
  with_output s share_id share input = record {
    shares =
        insert share_id
          (record share {
            backlog = append_backlog share.backlog input;
            subscribers = live_subscribers share.subscribers;
          })
          s.shares;
    subscriptions = erase_all (dead_subscribers share.subscribers) s.subscriptions;
  }

  unfoldable pub owner_data :
      Service → Bool → Bytes → ℕ → Bytes → Result Error (Service × List Effect)
  owner_data s plugins share_id owner input = if bytes_eq input [] then ok (s, []) else do
    guard (not (ltb max_message (length input))) message_too_large
    share ← owned s share_id owner
    let s' = if share.discoverable then with_output s share_id share input else s
    ok (
      s',
      (if plugins && not (bytes_eq share.plugin_session_id [])
            then on_output share.plugin_session_id input ∷ []
            else [])
          ++ (if share.discoverable
              then map (λ c. content c input) (connections exists connected share.subscribers)
              else []),
    )

  unfoldable pub to_owner : Share → Bytes → Result Error (List Effect)
  to_owner share input = do
    guard (alive exists connected share.owner) owner_offline
    ok (content share.owner input ∷ [])

  unfoldable pub plugin_write : Service → Bytes → Bytes → Result Error (List Effect)
  plugin_write s share_id input = if bytes_eq input [] then ok [] else do
    guard (not (ltb max_message (length input))) message_too_large
    share ← or_throw (lookup share_id s.shares) no_such_share
    to_owner share input

  unfoldable pub subscriber_write : Service → Bytes → Bytes → Result Error (List Effect)
  unfolding to_owner
  subscriber_write s id input = if bytes_eq input [] then ok [] else do
    guard (not (ltb max_message (length input))) message_too_large
    share_id ← or_throw (lookup id s.subscriptions) not_subscribed
    share ← or_throw (lookup share_id s.shares) no_such_share
    guard share.discoverable not_shared
    guard share.write_enabled read_only
    to_owner share input

  -- `share->second.subscribers.erase(subscription_id)` where the share is there.
  unfoldable pub drop_subscriber : Bytes → Bytes → Dict Share → Dict Share
  drop_subscriber id share_id shares = elim (lookup share_id shares) [
    | none ↦ shares
    | some share ↦
        insert share_id (record share { subscribers = erase id share.subscribers }) shares
  ]

  unfoldable pub detach : Service → Bytes → Service × List Effect
  unfolding drop_subscriber
  detach s id = elim (lookup id s.subscriptions) [
    | none ↦ (s, [])
    | some share_id ↦
        let s' : Service = record {
          shares = drop_subscriber id share_id s.shares;
          subscriptions = erase id s.subscriptions;
        } in
        (s', broadcast_state exists connected s' share_id)
  ]
