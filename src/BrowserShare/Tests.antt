-- ===== src/BrowserShare/Tests.antt =====
-- backend/src/serial/browser_serial_share_service.cpp: the theorems at concrete inputs.
use space_station.BrowserShare.Reach.{publishes, subscribes}
use space_station.Prelude.{
  Bool, List, [], arith, err, false, length, ok, refl, some, true, ℕ, ◌==◌, ◌∷◌, ◌≡◌, ◌≤◌,
}
use space_station.BrowserShare.Reach.{Reach, next, Reach-Consistent, here}
use space_station.BrowserShare.Publishing.{unpublish, new_share, publish}
use space_station.BrowserShare.Consistent.{Consistent}
use space_station.Prelude.Dict.{lookup, insert, erase}
use space_station.BrowserShare.Subscribing.{subscriber_write, to_owner, with_subscriber, subscribe}
use space_station.BrowserShare.Access.{
  MayWrite, subscriber_write-MayWrite, publish_keeps_writers, unpublish_ends_writes,
}
use space_station.Prelude.Bytes.{Bytes, text, bytes_eq}
use space_station.BrowserShare.State.{
  Share, content, Service, max_message, put_share, empty, not_subscribed, Effect, subscribed,
  broadcast_state,
}

abbrev present : ℕ → Bool
present c = true

abbrev board : Bytes
board = text "board"

abbrev viewer : Bytes
viewer = text "viewer"

-- A port of connection 1 that connection 2 looks at.
abbrev shared_board : Share
shared_board = record {
  id = board;
  name = text "Board";
  port_label = text "COM3";
  write_enabled = true;
  discoverable = true;
  plugin_target = board;
  plugin_session_id = [];
  owner = 1;
  subscribers = (viewer, 2) ∷ [];
  backlog = text "ready";
}

abbrev watched : Service
watched = record { shares = (board, shared_board) ∷ []; subscriptions = (viewer, board) ∷ [] }

subscriber_write-MayWrite_example :
    (owner : ℕ) × (content 1 (text "reset") ∷ [] ≡ content owner (text "reset") ∷ [])
    × MayWrite present present watched viewer owner
    × (length (text "reset") ≤ max_message)
subscriber_write-MayWrite_example =
    subscriber_write-MayWrite present present watched viewer (text "reset") _ (λ e. cc)
      (unfold subscriber_write to_owner lookup bytes_eq in refl)

-- The calls that lead there.
abbrev offered : Service
offered =
    put_share empty board
      (new_share present present false [] board (text "Board") (text "COM3") true true board 1)

abbrev viewed : Service
viewed =
    with_subscriber present present offered viewer board
      (new_share present present false [] board (text "Board") (text "COM3") true true board 1) 2

offered_reached : Reach offered
unfolding publish lookup bytes_eq
offered_reached = next {s' = offered} here (
    publishes present present false [] board (text "Board") (text "COM3") true true board 1 [] refl)

abbrev greeting : List Effect
greeting = subscribed 2 board (text "Board") true 1 ∷ broadcast_state present present viewed board

viewed_reached : Reach viewed
unfolding subscribe put_share insert lookup bytes_eq new_share with_subscriber erase
viewed_reached =
    next {s' = viewed} offered_reached
      (subscribes present present viewer board 2 greeting refl refl)

Reach-Consistent_example : Consistent viewed
Reach-Consistent_example = Reach-Consistent viewed_reached

unpublish_ends_writes_example :
    subscriber_write present present
      (unpublish present present viewed false board 1).0
      viewer
      (text "reset")
    ≡ err not_subscribed
unfolding new_share
unpublish_ends_writes_example =
    unpublish_ends_writes present present viewed false board
      (record (new_share present present false [] board (text "Board") (text "COM3") true true board
        1) { subscribers = (viewer, 2) ∷ [] })
      viewer 2 (text "reset") (Reach-Consistent viewed_reached)
      (unfold with_subscriber put_share insert lookup bytes_eq erase new_share in refl)
      (unfold lookup bytes_eq in refl) (omega arith) (omega arith)

-- The owner has gone; connection 3 is there.
abbrev third : ℕ → Bool
third c = c == 3

abbrev republished : Service
republished =
    put_share viewed board
      (new_share present present false [] board (text "Other") (text "COM4") true true board 3)

publish_keeps_writers_example :
    (subscriber_write present third republished viewer (text "reset")
      ≡ ok (content 3 (text "reset") ∷ []))
    × ((share : Share) → lookup board republished.shares ≡ some share → share.subscribers ≡ [])
publish_keeps_writers_example =
    publish_keeps_writers present third viewed republished false [] board (text "Other")
      (text "COM4") board 3 [] viewer (text "reset")
      (unfold with_subscriber insert lookup bytes_eq erase in refl)
      (unfold publish with_subscriber put_share insert lookup bytes_eq erase new_share in refl)
      (omega arith) (omega arith) refl refl
