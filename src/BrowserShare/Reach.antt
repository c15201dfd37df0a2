-- ===== src/BrowserShare/Reach.antt =====
-- backend/src/serial/browser_serial_share_service.cpp: the service over time. Connections come and
-- go between the calls, so each step has its own view of them.
use space_station.Prelude.{
  ℕ, ◌≡◌, subst, inl, inr, Bool, not, none, List, [], ◌∷◌, Bool-cases, Option-cases, ok,
}
use space_station.BrowserShare.Subscribing.{subscribe, owner_data, detach}
use space_station.Prelude.Dict.{lookup}
use space_station.BrowserShare.Keeps.{
  publish-Consistent, update-Consistent, without_share-Consistent, subscribe-Consistent,
  owner_data-Consistent, unpublish-Consistent, detach-Consistent,
}
use space_station.Prelude.Bytes.{Bytes}
use space_station.BrowserShare.Consistent.{Consistent, empty-Consistent}
use space_station.BrowserShare.Publishing.{
  list_loop, list_turn, publish, update, unpublish, list_shares,
}
use space_station.BrowserShare.State.{Service, empty, Effect, alive}

-- One call of a method that returns normally; a call that throws changes nothing.
pub data Step (s s' : Service) : Type 0 where
  publishes :
      (exists connected : ℕ → Bool) (plugins : Bool) (session share_id name port_label : Bytes)
      (write_enabled discoverable : Bool) (plugin_target : Bytes) (owner : ℕ) (fx : List Effect)
      → publish exists connected s plugins session share_id name port_label write_enabled
          discoverable plugin_target owner
        ≡ ok (s', fx)
      → Step s s'
  updates :
      (exists connected : ℕ → Bool) (share_id name : Bytes) (write_enabled discoverable : Bool)
      (owner : ℕ) (fx : List Effect)
      → update exists connected s share_id name write_enabled discoverable owner ≡ ok (s', fx)
      → Step s s'
  -- NextSubscriptionId makes an id that is not in use.
  subscribes :
      (exists connected : ℕ → Bool) (id share_id : Bytes) (connection : ℕ) (fx : List Effect)
      → lookup id s.subscriptions ≡ none
      → subscribe exists connected s id share_id connection ≡ ok (s', fx)
      → Step s s'
  outputs :
      (exists connected : ℕ → Bool) (plugins : Bool) (share_id : Bytes) (owner : ℕ) (input : Bytes)
      (fx : List Effect)
      → owner_data exists connected s plugins share_id owner input ≡ ok (s', fx)
      → Step s s'
  unpublishes :
      (exists connected : ℕ → Bool) (plugins : Bool) (share_id : Bytes) (owner : ℕ)
      → (unpublish exists connected s plugins share_id owner).0 ≡ s'
      → Step s s'
  detaches :
      (exists connected : ℕ → Bool) (id : Bytes) → (detach exists connected s id).0 ≡ s' → Step s s'
  lists :
      (exists connected : ℕ → Bool) (plugins : Bool)
      → (list_shares exists connected s plugins).0 ≡ s'
      → Step s s'

pub data Reach : Service → Type 0 where
  here : Reach empty
  next : {s s' : Service} → Reach s → Step s s' → Reach s'

list_turn-Consistent :
    (exists connected : ℕ → Bool) (s : Service) (key : Bytes)
    → Consistent s
    → Consistent (list_turn exists connected s key).0
unfolding list_turn
list_turn-Consistent exists connected s key v = elim (Option-cases (lookup key s.shares)) [
  | inl absent ↦ rw (absent, list_turn) v
  | inr (share, h) ↦ elim (Bool-cases (not (alive exists connected share.owner))) [
    | inl gone ↦ rw (h, list_turn, gone) (without_share-Consistent exists connected s v key share h)
    | inr lives ↦ rw (h, list_turn, lives) v
  ]
]

list_loop-Consistent :
    (exists connected : ℕ → Bool) (keys : List Bytes) (s : Service)
    → Consistent s
    → Consistent (list_loop exists connected s keys).0
unfolding list_loop
list_loop-Consistent exists connected [] s v = v
list_loop-Consistent exists connected (key ∷ rest) s v =
    list_loop-Consistent exists connected rest (list_turn exists connected s key).0
      (list_turn-Consistent exists connected s key v)

Step-Consistent : {s s' : Service} → Step s s' → Consistent s → Consistent s'
Step-Consistent {s} {s'} (publishes e c p i n m l w d t o fx h) v =
    publish-Consistent e c s v s' p i n m l w d t o fx h
Step-Consistent {s} {s'} (updates e c i n w d o fx h) v =
    update-Consistent e c s v s' i n w d o fx h
Step-Consistent {s} {s'} (subscribes e c i n k fx f h) v =
    subscribe-Consistent e c s v s' i n k fx f h
Step-Consistent {s} {s'} (outputs e c p i o x fx h) v =
    owner_data-Consistent e c s v s' p i o x fx h
Step-Consistent {s} {s'} (unpublishes e c p i o h) v =
    subst Consistent h (unpublish-Consistent e c s v p i o)
Step-Consistent {s} {s'} (detaches e c i h) v = subst Consistent h (detach-Consistent e c s v i)
Step-Consistent {s} {s'} (lists e c p h) v =
    unfold list_shares in subst Consistent h (list_loop-Consistent e c _ s v)

-- After any calls, in any order and whatever connections live: whoever is on the list of a share has
-- a subscription to that share, no share has two entries of one subscriber, a backlog is at most
-- 512 KiB, and a share that is not discoverable has neither subscribers nor a backlog.
pub Reach-Consistent : {s : Service} → Reach s → Consistent s
Reach-Consistent here = empty-Consistent
Reach-Consistent (next r st) = Step-Consistent st (Reach-Consistent r)
