-- ===== src/Files/Entries/Moves.antt =====
-- backend/src/files/file_manager_service.cpp: what Rename, Remove and MoveToTrash do to the other paths.
use space_station.Prelude.{
  >>=-eq-ok, Bool, Bool-cases, Option, [], ap, drop, err, false, guard-eq-ok, inl, inr, length,
  none, not, ok-injective, or_throw-some, refl, some, subst, sym, true, ◌++◌, ◌∙◌, ◌∷◌, ◌≡◌,
}
use space_station.Files.Transfer.Keeps.{Present, move_item-keeps, absent_apart}
use space_station.Files.Copies.{keep_both_path-first}
use space_station.Files.Transfer.Whole.{resolve_entry-path, Spared}
use space_station.Files.Entries.{
  rename, rename_paths, Requested, ok, movable, Result, Error, validate_name, guard, name_exists,
  trash_one, resolve_entry, cannot_move, trash_name, trash_paths, Luck, is_root, move_item,
}
use space_station.Files.Names.{Component, validate_name-Component, denied}
use space_station.Prelude.Bytes.{Bytes}
use space_station.Files.Transfer.{Entry, path_of}
use space_station.Files.Disk.{Fs, exists_here, follow, move_tree, move_tree-apart}
use space_station.Files.Paths.{FilePath, is_within, is_within_iff}

within_sum : (p rest : FilePath) → is_within (p ++ rest) p ≡ true
within_sum p rest = (is_within_iff (p ++ rest) p).1 (rest, refl)

drop-sum : (p rest : FilePath) → drop (length p) (p ++ rest) ≡ rest
drop-sum [] rest = refl
drop-sum (x ∷ p) rest = drop-sum p rest

move_tree-moved :
    (fs : Fs) (source target rest : FilePath)
    → move_tree fs source target (target ++ rest) ≡ fs (source ++ rest)
unfolding move_tree
move_tree-moved fs source target rest =
    rw (within_sum target rest) (ap (λ x. fs (source ++ x)) (drop-sum target rest))

move_tree-gone :
    (fs : Fs) (source target rest : FilePath)
    → is_within (source ++ rest) target ≡ false
    → move_tree fs source target (source ++ rest) ≡ none
unfolding move_tree
move_tree-gone fs source target rest h = rw (h, within_sum source rest) refl

-- What Rename leaves: the tree of the source stands at the new path and no longer at the old one, and the
-- rest is as before.
pub record Moved (fs fs' : Fs) (source : Entry) (target : FilePath) : Type 0 where
  pub was_free : exists_here (fs (follow fs target)) ≡ false
  pub moved : (rest : FilePath) → fs' (target ++ rest) ≡ fs (path_of source ++ rest)
  pub gone :
      (rest : FilePath)
      → is_within (path_of source ++ rest) target ≡ false
      → fs' (path_of source ++ rest) ≡ none
  pub elsewhere :
      (q : FilePath)
      → is_within q target ≡ false
      → is_within q (path_of source) ≡ false
      → fs' q ≡ fs q

module _ (canonical : FilePath → Option FilePath) where
  rename_paths-ok :
      (fs : Fs) (r : Requested) (name : Bytes) (paths : Entry × FilePath)
      → rename_paths canonical fs r name ≡ ok paths
      → (movable canonical fs r ≡ ok paths.0)
        × Component name
        × (exists_here (fs (follow fs paths.1)) ≡ false)
        × (paths.1 ≡ paths.0.parent ++ name ∷ [])
  unfolding rename_paths
  rename_paths-ok fs r name paths h =
      let (source, found, h₁) = >>=-eq-ok (movable canonical fs r) _ h in
      let (new, named, h₂) = >>=-eq-ok (validate_name name) _ h₁ in
      let (_, free, h₃) =
        >>=-eq-ok
          (guard (not (exists_here (fs (follow fs (source.parent ++ new ∷ []))))) name_exists) _
          h₂ in
      let e : ◌≡◌ {A = Entry × FilePath} (source, source.parent ++ new ∷ []) paths =
        ok-injective h₃ in
      let same : new ≡ name = (validate_name-Component name new named).0 in
      (
        found ∙ ap (λ (x : Entry × FilePath). ok x.0) e,
        (validate_name-Component name new named).1,
        ap (λ (x : Entry × FilePath). exists_here (fs (follow fs x.1))) (sym e)
            ∙ denied _ (guard-eq-ok _ _ free),
        ap (λ (x : Entry × FilePath). x.1) (sym e)
            ∙ ap (λ n. source.parent ++ n ∷ []) same
            ∙ ap (λ (x : Entry × FilePath). x.0.parent ++ name ∷ []) e,
      )

  -- A rename that succeeds had a valid name, under which nothing was found when its links are followed.
  -- It moves the item with everything in it to that name, leaves nothing at the old paths that are not
  -- under the new one, and leaves every path outside the two alone.
  pub rename-Moved :
      (refused : Bool) (fs : Fs) (r : Requested) (name : Bytes)
      → (rename canonical refused fs r name).1 ≡ ok tt
      → (source : Entry) × (movable canonical fs r ≡ ok source)
        × Component name
        × Moved fs (rename canonical refused fs r name).0 source (source.parent ++ name ∷ [])
  unfolding rename
  rename-Moved refused fs r name h = go (rename_paths canonical fs r name) refl
    where
      go :
          (m : Result Error (Entry × FilePath))
          → rename_paths canonical fs r name ≡ m
          → (source : Entry) × (movable canonical fs r ≡ ok source)
            × Component name
            × Moved fs (rename canonical refused fs r name).0 source (source.parent ++ name ∷ [])
      go (err e) k =
          let x : ◌≡◌ {A = Result Error (Unit {0})} (err e) (ok tt) = rw (k, rename) at h in
          absurd cc
      go (ok paths) k = elim (Bool-cases refused) [
        | inl failed ↦
            let x : ◌≡◌ {A = Result Error (Unit {0})} (err cannot_move) (ok tt) =
              rw (k, rename, failed) at h in
            absurd cc
        | inr passed ↦
            let (found, component, free, e) = rename_paths-ok fs r name paths k in
            rw (k, rename, passed)
              (
                paths.0,
                found,
                component,
                subst (λ x. Moved fs (move_tree fs (path_of paths.0) paths.1) paths.0 x) e
                    (record {
                      was_free = free;
                      moved = λ rest. move_tree-moved fs (path_of paths.0) paths.1 rest;
                      gone = λ rest h. move_tree-gone fs (path_of paths.0) paths.1 rest h;
                      elsewhere = λ q t s. move_tree-apart fs (path_of paths.0) paths.1 q t s;
                    }),
              )
      ]

  movable-path :
      (fs : Fs) (r : Requested) (source : Entry)
      → movable canonical fs r ≡ ok source
      → (canonical r.above ≡ some source.parent) × (r.name ≡ some source.name)
  unfolding movable
  movable-path fs r source h =
      let (found, resolved, h₁) = >>=-eq-ok (resolve_entry canonical fs r) _ h in
      resolve_entry-path canonical fs r source (resolved ∙ ap ok (or_throw-some found is_root h₁))

  trash_name-free :
      (fs : Fs) (trash : FilePath) (source : Entry) (name : Bytes)
      → trash_name canonical fs trash source ≡ ok name
      → exists_here (fs (trash ++ name ∷ [])) ≡ false
  unfolding trash_name
  trash_name-free fs trash source name h =
      elim (Bool-cases (exists_here (fs (trash ++ source.name ∷ [])))) [
        | inl taken ↦ (keep_both_path-first fs trash source.name _ name (rw taken at h)).0
        | inr free ↦
            ap (λ n. exists_here (fs (trash ++ n ∷ []))) (sym (ok-injective (rw free at h))) ∙ free
      ]

  -- MoveToTrash overwrites nothing: whatever the operating system refuses, a path that exists with all
  -- that it lies in, and that does not lie in the item, holds afterwards what it held before.
  pub trash_one-keeps :
      (luck : Luck) (trash : FilePath) (fs : Fs) (r : Requested) (q : FilePath)
      → Present fs q
      → Spared canonical q (luck, r)
      → (trash_one canonical luck trash fs r).0 q ≡ fs q
  unfolding trash_one trash_paths
  trash_one-keeps luck trash fs r q here s = go (trash_paths canonical trash fs r) refl
    where
      go :
          (m : Result Error (Entry × FilePath))
          → trash_paths canonical trash fs r ≡ m
          → (trash_one canonical luck trash fs r).0 q ≡ fs q
      go (err e) k = rw (k, trash_one) refl
      go (ok paths) k =
          let (source, found, k₁) = >>=-eq-ok (movable canonical fs r) _ k in
          let (name, named, k₂) = >>=-eq-ok (trash_name canonical fs trash source) _ k₁ in
          let e : ◌≡◌ {A = Entry × FilePath} (source, trash ++ name ∷ []) paths = ok-injective k₂ in
          let (x, y) = movable-path fs r source found in
          rw (k, trash_one)
            (subst (λ (z : Entry × FilePath). (move_item luck fs (path_of z.0) z.1).0 q ≡ fs q) e
              (move_item-keeps luck fs (path_of source) (trash ++ name ∷ []) q
                (absent_apart fs q _ here (trash_name-free fs trash source name named))
                (s source.parent source.name x y)))
