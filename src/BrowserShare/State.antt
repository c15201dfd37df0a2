-- ===== src/BrowserShare/State.antt =====
-- backend/src/serial/browser_serial_share_service.hpp and .cpp: the state of the service and what its
-- methods share.
use space_station.Prelude.{
  Bool, List, Result, [], guard, if◌then◌else◌, leb, length, ltb, map, none, not, ok, or_throw,
  some, ℕ, ◌&&◌, ◌*◌, ◌==◌, ◌>>=◌, ◌>>◌, ◌||◌, ◌∷◌,
}
use space_station.Prelude.Bytes.{Bytes, bytes_eq}
use space_station.Prelude.Dict.{Dict, lookup, erase, insert}

abbrev pub max_backlog : ℕ
max_backlog = 512 * 1024

abbrev pub max_message : ℕ
max_message = 1024 * 1024

pub record Share : Type 0 where
  pub id : Bytes
  pub name : Bytes
  pub port_label : Bytes
  pub write_enabled : Bool
  pub discoverable : Bool
  pub plugin_target : Bytes
  pub plugin_session_id : Bytes
  pub owner : ℕ
  pub subscribers : Dict ℕ
  pub backlog : Bytes

-- `shares_` and `subscriptions_`.
pub record Service : Type 0 where
  pub shares : Dict Share
  pub subscriptions : Dict Bytes

abbrev pub empty : Service
empty = record { shares = []; subscriptions = [] }

pub data Error : Type 0 where
  invalid_id invalid_name id_taken not_owner no_such_share not_shared owner_offline : Error
  message_too_large not_subscribed read_only : Error

-- What a method sends to a connection, with the fields of the message that are not constant, and what
-- it asks of the plugin service.
pub data Effect : Type 0 where
  subscribed : ℕ → Bytes → Bytes → Bool → ℕ → Effect
  unavailable : ℕ → Effect
  content : ℕ → Bytes → Effect
  share_state : ℕ → Bytes → ℕ → Bool → Bool → Effect
  register_session unregister_session : Bytes → Effect
  on_output : Bytes → Bytes → Effect

abbrev pub valid_id : Bytes → Bool
valid_id value = not (bytes_eq value []) && leb (length value) 128

abbrev pub valid_name : Bytes → Bool
valid_name name = not (bytes_eq name [] || ltb 120 (length name))

-- `subscriptions_.erase(subscription_id)` for each subscriber of a share.
unfoldable pub erase_all : Dict ℕ → Dict Bytes → Dict Bytes
erase_all [] subscriptions = subscriptions
erase_all ((id, connection) ∷ rest) subscriptions = erase_all rest (erase id subscriptions)

unfoldable pub put_share : Service → Bytes → Share → Service
put_share s id share = record s { shares = insert id share s.shares }

-- The share, if the caller is its owner: `found->second.owner.lock() != owner`.
unfoldable pub owned : Service → Bytes → ℕ → Result Error Share
owned s share_id owner = do
  share ← or_throw (lookup share_id s.shares) not_owner
  guard (share.owner == owner) not_owner
  ok share

module _ (exists connected : ℕ → Bool) where
  abbrev pub alive : ℕ → Bool
  alive c = exists c && connected c

  -- The connections of the subscribers that can be sent to, and those whose object exists.
  unfoldable pub connections : Dict ℕ → List ℕ
  connections [] = []
  connections ((id, connection) ∷ rest) =
      let later = connections rest in if alive connection then connection ∷ later else later

  unfoldable pub existing : Dict ℕ → List ℕ
  existing [] = []
  existing ((id, connection) ∷ rest) =
      let later = existing rest in if exists connection then connection ∷ later else later

  unfoldable pub broadcast_state : Service → Bytes → List Effect
  broadcast_state s share_id = elim (lookup share_id s.shares) [
    | none ↦ []
    | some share ↦
        map
          (λ c.
            share_state c share_id (length share.subscribers) share.write_enabled
              share.discoverable)
          (connections (([], share.owner) ∷ share.subscribers))
  ]
