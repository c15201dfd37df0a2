-- ===== src/BrowserShare/Consistent.antt =====
-- backend/src/serial/browser_serial_share_service.cpp: the two maps agree, and a port that is not
-- shared has neither viewers nor a backlog.
use space_station.Prelude.{
  Bool-cases, Option-cases, [], ap, arith, false, inl, inr, length, none, refl, some, subst, ℕ, ◌∙◌,
  ◌∷◌, ◌≡◌, ◌≤◌,
}
use space_station.Prelude.Bytes.{Bytes, bytes_eq, bytes_eq_iff, bytes_eq_sound}
use space_station.Prelude.Dict.{lookup, Dict, erase, lookup-erase, Distinct, insert, lookup-insert}
use space_station.BrowserShare.State.{erase_all, Service, empty, Share, max_backlog}

pub record Consistent (s : Service) : Type 0 where
  -- Whoever is on the list of a share has a subscription to it.
  pub listed :
      (key : Bytes) (share : Share) (id : Bytes) (c : ℕ)
      → lookup key s.shares ≡ some share
      → lookup id share.subscribers ≡ some c
      → lookup id s.subscriptions ≡ some key
  pub distinct :
      (key : Bytes) (share : Share) → lookup key s.shares ≡ some share → Distinct share.subscribers
  pub bounded :
      (key : Bytes) (share : Share)
      → lookup key s.shares ≡ some share
      → length share.backlog ≤ max_backlog
  pub private_empty :
      (key : Bytes) (share : Share)
      → lookup key s.shares ≡ some share
      → share.discoverable ≡ false
      → (share.subscribers ≡ []) × (share.backlog ≡ [])

pub lookup-erase_all :
    (id : Bytes) (gone : Dict ℕ) (m : Dict Bytes)
    → lookup id gone ≡ none
    → lookup id (erase_all gone m) ≡ lookup id m
unfolding erase_all lookup
lookup-erase_all id [] m h = refl
lookup-erase_all id ((j, c) ∷ gone) m h =
    let rest = lookup-erase_all id gone (erase j m) in ground (arith, rest, lookup-erase j id m)

pub empty-Consistent : Consistent empty
unfolding lookup
empty-Consistent = record {
  listed = λ key share id c h k. cc;
  distinct = λ key share h. cc;
  bounded = λ key share h. cc;
  private_empty = λ key share h e. cc;
}

-- A state that differs in one share. `kept` says that subscriptions to other shares are left alone.
pub replace-Consistent :
    (s : Service) (key : Bytes) (share : Share) (m : Dict Bytes)
    → Distinct share.subscribers
    → length share.backlog ≤ max_backlog
    → (share.discoverable ≡ false → (share.subscribers ≡ []) × (share.backlog ≡ []))
    → ((id : Bytes) (c : ℕ) → lookup id share.subscribers ≡ some c → lookup id m ≡ some key)
    → ((id other : Bytes)
        → bytes_eq key other ≡ false
        → lookup id s.subscriptions ≡ some other
        → lookup id m ≡ some other)
    → Consistent s
    → Consistent (record { shares = insert key share s.shares; subscriptions = m })
replace-Consistent s key share m d b p l kept v = record {
  listed = λ k sh id c h g. elim (Bool-cases (bytes_eq key k)) [
    | inl same ↦
        let e : share ≡ sh = ground (arith, lookup-insert key k share s.shares) in
        rw (← bytes_eq_sound key k same)
          (l id c (ap (λ (t : Share). lookup id t.subscribers) e ∙ g))
    | inr other ↦
        kept id k other (v.listed k sh id c (ground (arith, lookup-insert key k share s.shares)) g)
  ];
  distinct = λ k sh h. elim (Bool-cases (bytes_eq key k)) [
    | inl same ↦
        let e : share ≡ sh = ground (arith, lookup-insert key k share s.shares) in
        subst (λ (t : Share). Distinct t.subscribers) e d
    | inr other ↦ v.distinct k sh (ground (arith, lookup-insert key k share s.shares))
  ];
  bounded = λ k sh h. elim (Bool-cases (bytes_eq key k)) [
    | inl same ↦
        let e : share ≡ sh = ground (arith, lookup-insert key k share s.shares) in
        subst (λ (t : Share). length t.backlog ≤ max_backlog) e b
    | inr other ↦ v.bounded k sh (ground (arith, lookup-insert key k share s.shares))
  ];
  private_empty = λ k sh h. elim (Bool-cases (bytes_eq key k)) [
    | inl same ↦
        let e : share ≡ sh = ground (arith, lookup-insert key k share s.shares) in
        subst (λ (t : Share). t.discoverable ≡ false → (t.subscribers ≡ []) × (t.backlog ≡ [])) e p
    | inr other ↦ v.private_empty k sh (ground (arith, lookup-insert key k share s.shares))
  ];
}

-- A state that lost one share.
pub erase-Consistent :
    (s : Service) (key : Bytes) (m : Dict Bytes)
    → ((id other : Bytes)
        → bytes_eq key other ≡ false
        → lookup id s.subscriptions ≡ some other
        → lookup id m ≡ some other)
    → Consistent s
    → Consistent (record { shares = erase key s.shares; subscriptions = m })
erase-Consistent s key m kept v = record {
  listed = λ k sh id c h g.
      kept id k (ground (arith, lookup-erase key k s.shares))
        (v.listed k sh id c (ground (arith, lookup-erase key k s.shares)) g);
  distinct = λ k sh h. v.distinct k sh (ground (arith, lookup-erase key k s.shares));
  bounded = λ k sh h. v.bounded k sh (ground (arith, lookup-erase key k s.shares));
  private_empty = λ k sh h. v.private_empty k sh (ground (arith, lookup-erase key k s.shares));
}

-- Dropping the subscribers of one share leaves the subscriptions to the others.
pub erase_all-keeps :
    (s : Service) (key : Bytes) (share : Share) (gone : Dict ℕ)
    → ((id : Bytes) → lookup id share.subscribers ≡ none → lookup id gone ≡ none)
    → lookup key s.shares ≡ some share
    → Consistent s
    → (id other : Bytes) → bytes_eq key other ≡ false
    → lookup id s.subscriptions ≡ some other
    → lookup id (erase_all gone s.subscriptions) ≡ some other
erase_all-keeps s key share gone sub h v id other ne e =
    elim (Option-cases (lookup id share.subscribers)) [
      | inl absent ↦ lookup-erase_all id gone s.subscriptions (sub id absent) ∙ e
      | inr (c, present) ↦ ground (arith, v.listed key share id c h present, bytes_eq_iff key other)
    ]
