-- ===== src/BrowserShare/Publishing.antt =====
-- backend/src/serial/browser_serial_share_service.cpp: what the owner of a port does, and the list.
use space_station.Prelude.{
  Bool, List, Result, [], err, guard, if◌then◌else◌, map, none, not, ok, some, take, true, ℕ, ◌&&◌,
  ◌++◌, ◌==◌, ◌>>=◌, ◌>>◌, ◌∷◌,
}
use space_station.Prelude.Bytes.{Bytes, bytes_eq}
use space_station.BrowserShare.State.{
  owned, Service, Share, Effect, alive, Error, erase_all, unregister_session, valid_id, valid_name,
  invalid_name, unavailable, invalid_id, existing, broadcast_state, id_taken, put_share,
  register_session,
}
use space_station.Prelude.Dict.{erase, lookup, insert}

module _ (exists connected : ℕ → Bool) where
  -- The share that Publish makes.
  unfoldable pub new_share : Bool → Bytes → Bytes → Bytes → Bytes → Bool → Bool → Bytes → ℕ → Share
  new_share plugins session share_id name port_label write_enabled discoverable plugin_target
        owner =
      record {
        id = share_id;
        name = name;
        port_label = take 200 port_label;
        write_enabled = write_enabled;
        discoverable = discoverable;
        plugin_target = if valid_id plugin_target then plugin_target else share_id;
        plugin_session_id = if plugins then session else [];
        owner = owner;
        subscribers = [];
        backlog = [];
      }

  -- Publish. `session` is what NextSubscriptionId makes, `plugins` whether there is a plugin service.
  unfoldable pub publish :
      Service
      → Bool
      → Bytes
      → Bytes
      → Bytes
      → Bytes
      → Bool
      → Bool
      → Bytes
      → ℕ
      → Result Error (Service × List Effect)
  publish s plugins session share_id name port_label write_enabled discoverable plugin_target
        owner =
      do
        guard (valid_id share_id) invalid_id
        guard (valid_name name) invalid_name
        let found = lookup share_id s.shares
        guard
            (elim found [
              | none ↦ true
              | some current ↦
                  not (alive exists connected current.owner && not (current.owner == owner))
            ])
            id_taken
        let replaced : Bytes = elim found [ none ↦ [] | some current ↦ current.plugin_session_id ]
        ok (
          put_share s share_id (
              new_share plugins session share_id name port_label write_enabled discoverable
                plugin_target owner),
          if plugins
              then (if bytes_eq replaced [] then [] else unregister_session replaced ∷ [])
                ++ register_session session ∷ []
              else [],
        )

  abbrev pub hides : Share → Bool → Bool
  hides share discoverable = share.discoverable && not discoverable

  -- What Update writes. Turning a shared port private drops its subscribers and its backlog.
  unfoldable pub updated : Service → Bytes → Share → Bytes → Bool → Bool → Service
  updated s share_id share name write_enabled discoverable = record {
    shares =
        insert share_id
          (record share {
            name = name;
            write_enabled = write_enabled;
            discoverable = discoverable;
            subscribers = if hides share discoverable then [] else share.subscribers;
            backlog = if hides share discoverable then [] else share.backlog;
          })
          s.shares;
    subscriptions =
        if hides share discoverable
        then erase_all share.subscribers s.subscriptions
        else s.subscriptions;
  }

  unfoldable pub update :
      Service → Bytes → Bytes → Bool → Bool → ℕ → Result Error (Service × List Effect)
  unfolding owned
  update s share_id name write_enabled discoverable owner = do
    guard (valid_name name) invalid_name
    share ← owned s share_id owner
    let s' = updated s share_id share name write_enabled discoverable
    ok (
      s',
      (if hides share discoverable
            then map unavailable (existing exists connected share.subscribers)
            else [])
          ++ broadcast_state exists connected s' share_id,
    )

  unfoldable pub without_share : Service → Bytes → Share → Service
  without_share s share_id share = record {
    shares = erase share_id s.shares;
    subscriptions = erase_all share.subscribers s.subscriptions;
  }

  -- Unpublish returns without a word if the caller is not the owner.
  unfoldable pub unpublish : Service → Bool → Bytes → ℕ → Service × List Effect
  unpublish s plugins share_id owner = elim (owned s share_id owner) [
    | err e ↦ (s, [])
    | ok share ↦ (
      without_share s share_id share,
      (if plugins && not (bytes_eq share.plugin_session_id [])
            then unregister_session share.plugin_session_id ∷ []
            else [])
          ++ map unavailable (existing exists connected share.subscribers),
    )
  ]

  -- ListShares: the loop over the map takes out each share whose owner is gone, with its
  -- subscriptions, and lists the others that are discoverable. One turn of the loop, at a key:
  unfoldable pub list_turn : Service → Bytes → Service × List Share × List Bytes
  list_turn s key = elim (lookup key s.shares) [
    | none ↦ (s, [], [])
    | some share ↦
        if not (alive exists connected share.owner)
        then (
          without_share s key share,
          [],
          if bytes_eq share.plugin_session_id [] then [] else share.plugin_session_id ∷ [],
        )
        else (s, (if share.discoverable then share ∷ [] else []), [])
  ]

  unfoldable pub list_loop : Service → List Bytes → Service × List Share × List Bytes
  list_loop s [] = (s, [], [])
  list_loop s (key ∷ rest) =
      let (s', listed, stale) = list_turn s key in
      let (s'', later, more) = list_loop s' rest in (s'', listed ++ later, stale ++ more)

  unfoldable pub list_shares : Service → Bool → Service × List Share × List Effect
  list_shares s plugins =
      let (s', listed, stale) = list_loop s (map (λ e. e.0) s.shares) in
      (s', listed, if plugins then map unregister_session stale else [])
