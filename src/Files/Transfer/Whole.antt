-- ===== src/Files/Transfer/Whole.antt =====
-- backend/src/files/file_manager_service.cpp, Transfer: the whole loop overwrites nothing unless it is
-- told to replace.
use space_station.Prelude.{
  >>=-eq-ok, All, Bool, Bool-cases, List, Option, [], ap, arith, err, false, inl, inr, none, not,
  ok, ok-injective, or_throw-some, refl, some, sym, true, ◌&&◌, ◌++◌, ◌∙◌, ◌∷◌, ◌≡◌, ◌≢◌,
}
use mathlib.Core.Bool.{false≢true}
use space_station.Files.Transfer.Keeps.{
  Present, is_within_trans, transfer_entry-keeps, is_within_refl,
}
use space_station.Files.Transfer.{
  noted, Luck, check_source, next_turn, find_entry, transfer_one, transfer_loop, resolve_entry, Fs,
  Policy, Outcome, Requested, Bytes, Entry, Result, replace, Error, or_throw, guard,
  unreadable_path, exists_here, not_absolute, is_root, is_directory, path_of, into_itself,
  policy_of, transfer, bytes_eq, text,
}
use space_station.Files.Paths.{FilePath, is_within}

module _ (canonical : FilePath → Option FilePath) where
  -- The path does not lie in the item.
  abbrev pub Spared : FilePath → (Luck × Requested) → Type 0
  Spared q (luck, r) =
      (parent : FilePath) (name : Bytes)
      → canonical r.above ≡ some parent
      → r.name ≡ some name
      → is_within q (parent ++ name ∷ []) ≡ false

  find_entry-path :
      (fs : Fs) (above : FilePath) (name : Bytes) (source : Entry)
      → find_entry canonical fs above name ≡ ok (some source)
      → (canonical above ≡ some source.parent) × (name ≡ source.name)
  unfolding find_entry
  find_entry-path fs above name source h =
      let (parent, found, h₁) = >>=-eq-ok (or_throw (canonical above) unreadable_path) _ h in
      let (_, _, h₂) =
        >>=-eq-ok (guard (exists_here (fs (parent ++ name ∷ []))) unreadable_path) _ h₁ in
      let e : record { parent = parent; name = name } ≡ source = some-injective (ok-injective h₂) in
      (
        or_throw-some (canonical above) unreadable_path found ∙ ap (λ (x : Entry). some x.parent) e,
        ap (λ (x : Entry). x.name) e,
      )
    where
      some-injective : {x y : Entry} → ◌≡◌ {A = Option Entry} (some x) (some y) → x ≡ y
      some-injective k = cc

  pub resolve_entry-path :
      (fs : Fs) (r : Requested) (source : Entry)
      → resolve_entry canonical fs r ≡ ok (some source)
      → (canonical r.above ≡ some source.parent) × (r.name ≡ some source.name)
  unfolding resolve_entry
  resolve_entry-path fs r source h =
      let (_, _, k) = >>=-eq-ok (guard r.absolute not_absolute) _ h in go r.name refl k
    where
      go :
          (name : Option Bytes)
          → r.name ≡ name
          → elim name [ none ↦ ok none | some n ↦ find_entry canonical fs r.above n ]
            ≡ ok (some source)
          → (canonical r.above ≡ some source.parent) × (r.name ≡ some source.name)
      go none e k = cc
      go (some n) e k = let (x, y) = find_entry-path fs r.above n source k in (x, e ∙ ap some y)

  check_source-path :
      (fs : Fs) (folder : FilePath) (r : Requested) (source : Entry)
      → check_source canonical fs folder r ≡ ok source
      → (canonical r.above ≡ some source.parent) × (r.name ≡ some source.name)
  unfolding check_source
  check_source-path fs folder r source h =
      let (found, resolved, h₁) = >>=-eq-ok (resolve_entry canonical fs r) _ h in
      let (e, named, h₂) = >>=-eq-ok (or_throw found is_root) _ h₁ in
      let (_, _, h₃) =
        >>=-eq-ok
          (guard (not (is_directory (fs (path_of e)) && is_within folder (path_of e))) into_itself)
          _ h₂ in
      let same : found ≡ some source =
        or_throw-some found is_root named ∙ ap some (ok-injective h₃) in
      resolve_entry-path fs r source (resolved ∙ ap ok same)

  transfer_one-keeps :
      (luck : Luck) (policy : Policy) (move : Bool) (folder : FilePath) (fs : Fs) (r : Requested)
      (a : FilePath)
      → policy ≢ replace
      → Present fs a
      → (move ≡ true → Spared a (luck, r))
      → (transfer_one canonical luck policy move folder fs r).0 a ≡ fs a
  unfolding transfer_one
  transfer_one-keeps luck policy move folder fs r a n here s =
      go (check_source canonical fs folder r) refl
    where
      go :
          (m : Result Error Entry)
          → check_source canonical fs folder r ≡ m
          → (transfer_one canonical luck policy move folder fs r).0 a ≡ fs a
      go (err e) h = rw (h, transfer_one) refl
      go (ok source) h =
          let (x, y) = check_source-path fs folder r source h in
          rw (h, transfer_one)
            (transfer_entry-keeps luck policy move fs source folder _ a n here
              (λ m. s m source.parent source.name x y))

  Spared-above :
      (q a : FilePath) (item : Luck × Requested)
      → is_within q a ≡ true
      → Spared q item
      → Spared a item
  Spared-above q a item within s parent name x y =
      elim (Bool-cases (is_within a (parent ++ name ∷ []))) [
        | inr apart ↦ apart
        | inl inside ↦
            absurd (false≢true (sym (s parent name x y) ∙ is_within_trans q a _ within inside))
      ]

  noted-fs : (outcome : Outcome) (r : Fs × Result Error (List Outcome)) → (noted outcome r).0 ≡ r.0
  unfolding noted
  noted-fs outcome (fs, err e) = refl
  noted-fs outcome (fs, ok outcomes) = refl

  next_turn-keeps :
      (step : Fs × Result Error Outcome) (later : Fs → Fs × Result Error (List Outcome))
      (q : FilePath)
      → (later step.0).0 q ≡ step.0 q
      → (next_turn step later).0 q ≡ step.0 q
  unfolding next_turn
  next_turn-keeps (fs, err e) later q h = refl
  next_turn-keeps (fs, ok outcome) later q h =
      ap (λ (x : Fs). x q) (noted-fs outcome (later fs)) ∙ h

  transfer_loop-keeps :
      (policy : Policy) (move : Bool) (folder : FilePath) (items : List (Luck × Requested))
      (fs : Fs) (q : FilePath)
      → policy ≢ replace
      → Present fs q
      → (move ≡ true → All (Spared q) items)
      → (transfer_loop canonical policy move folder fs items).0 q ≡ fs q
  unfolding transfer_loop
  transfer_loop-keeps policy move folder [] fs q n here s = refl
  transfer_loop-keeps policy move folder ((luck, r) ∷ items) fs q n here s =
      let step = transfer_one canonical luck policy move folder fs r in
      let kept : (a : FilePath) → is_within q a ≡ true → step.0 a ≡ fs a = (λ a w.
        transfer_one-keeps luck policy move folder fs r a n
          (λ b v. here b (is_within_trans q a b w v))
          (λ m. Spared-above q a (luck, r) w (s m).0)) in
      next_turn-keeps step _ q (
        transfer_loop-keeps policy move folder items step.0 q n
          (λ a w. ap exists_here (kept a w) ∙ here a w) (λ m. (s m).1))
      ∙ kept q (is_within_refl q)

  policy_of-replace :
      (name : Bytes) → bytes_eq name (text "replace") ≡ false → policy_of name ≢ some replace
  unfolding policy_of
  policy_of-replace name h e = ground arith

  -- Transfer, unless it is told to replace, changes nothing that is there: whatever the operating system
  -- refuses and whichever item stops it, a path that exists with all that it lies in holds afterwards
  -- what it held before, if it does not lie in one of the items of a move.
  pub transfer-keeps :
      (conflict_policy : Bytes) (move : Bool) (fs : Fs) (destination : Result Error FilePath)
      (items : List (Luck × Requested)) (q : FilePath)
      → bytes_eq conflict_policy (text "replace") ≡ false
      → Present fs q
      → (move ≡ true → All (Spared q) items)
      → (transfer canonical conflict_policy move fs destination items).0 q ≡ fs q
  unfolding transfer
  transfer-keeps conflict_policy move fs destination [] q n here s = refl
  transfer-keeps conflict_policy move fs destination (item ∷ items) q n here s =
      go (policy_of conflict_policy) refl destination
    where
      go :
          (p : Option Policy)
          → policy_of conflict_policy ≡ p
          → (d : Result Error FilePath)
          → (transfer canonical conflict_policy move fs d (item ∷ items)).0 q ≡ fs q
      go none e d = rw (e, transfer) refl
      go (some policy) e (err x) = rw (e, transfer) refl
      go (some policy) e (ok folder) =
          rw (e, transfer)
            (transfer_loop-keeps policy move folder (item ∷ items) fs q
              (λ r. policy_of-replace conflict_policy n (e ∙ ap some r)) here s)
