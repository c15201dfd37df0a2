-- ===== src/Transfer/Stream/Writing.antt =====
-- backend/src/transfer/transfer.cpp, HandleFile: `write_decoded` fills the missing blocks one after the
-- other, and marks a block when its bytes have the announced hash.
use space_station.Prelude.{
  ==_iff, >>=-eq-ok, All, Bool-cases, List, Result, [], ap, arith, drop, err, get_or, guard,
  guard-eq-ok, inl, inr, length, length-append, length-drop, length-take, min, ok, ok-injective,
  refl, set, subst, suc, sym, take, true, zero, ℕ, ◌*◌, ◌++◌, ◌+◌, ◌-◌, ◌<◌, ◌==◌, ◌>>=◌, ◌∙◌, ◌∷◌,
  ◌≡◌, ◌≢◌, ◌≤◌,
}
use mathlib.Core.Bool.{false≢true}
use space_station.Transfer.Disk.{slice}
use space_station.Transfer.Receive.Integrity.{Verified, count_missing, count_missing-set}
use space_station.Transfer.Stream.Blocks.{
  size_of, Pending, Ascending, size_min, part-Verified, Pending-set, slice-grown, mark-Verified,
}
use space_station.Transfer.Stream.{
  next_block, Writer, write_part, write_loop, write_turn, finish_block,
}
use space_station.Transfer.Scan.{Signature, no_signature}
use space_station.Transfer.Manifest.{Request, Error, stream_too_long, hash_mismatch}
use space_station.Prelude.Bytes.{Bytes, bytes_eq, bytes_eq_sound}

module _ (sha256 : Bytes → Bytes) (r : Request)
    (sizes : All (λ (s : Signature). (0 < s.size) × (s.size ≤ r.chunk_size)) r.signatures) where
  -- What is known of the current block while it is filled.
  abbrev pub Started : Writer → List ℕ → Type 0
  Started w [] = w.block_written ≡ 0
  Started w (i ∷ is) =
      (w.block_written < size_of r i)
      × (length w.hashed ≡ w.block_written)
      × (slice w.progress.output (i * r.chunk_size) w.block_written ≡ w.hashed)

  pub record Writing (w : Writer) : Type 0 where
    pub verified : Verified sha256 r.signatures r.chunk_size w.progress
    pub counted : w.remaining ≡ count_missing w.progress.matched
    pub as_many : length w.todo ≡ w.remaining
    pub pending : Pending w.progress.matched w.todo
    pub ascending : Ascending w.todo
    pub started : Started w w.todo

  pub Started-new :
      (w : Writer) (is : List ℕ)
      → w.block_written ≡ 0
      → w.hashed ≡ []
      → length w.progress.matched ≡ length r.signatures
      → Pending w.progress.matched is
      → Started w is
  Started-new w [] b h l p = b
  Started-new w (j ∷ js) b h l p = (
    rw b (size_min r.signatures j r.chunk_size sizes (omega (arith, p.0.0, l))),
    ap length h ∙ sym b,
    ap (slice w.progress.output (j * r.chunk_size)) b ∙ unfold slice in sym h,
  )

  -- The state within the block `i`, which may be full.
  record Inside (w : Writer) (i : ℕ) (rest : List ℕ) : Type 0 where
    verified : Verified sha256 r.signatures r.chunk_size w.progress
    counted : w.remaining ≡ count_missing w.progress.matched
    todo : w.todo ≡ i ∷ rest
    as_many : suc (length rest) ≡ w.remaining
    pending : Pending w.progress.matched (i ∷ rest)
    ascending : Ascending (i ∷ rest)
    within : w.block_written ≤ size_of r i
    as_long : length w.hashed ≡ w.block_written
    same : slice w.progress.output (i * r.chunk_size) w.block_written ≡ w.hashed

  write_part-Inside :
      (w : Writer) (i : ℕ) (rest : List ℕ) (part : Bytes)
      → Writing w
      → w.todo ≡ i ∷ rest
      → length part ≤ size_of r i - w.block_written
      → Inside (write_part sha256 r w i part) i rest
  unfolding write_part
  write_part-Inside w i rest part v e fits =
      let (below, long, same) = subst (Started w) e v.started in
      let (free, others) = subst (Pending w.progress.matched) e v.pending in
      record {
        verified =
            part-Verified sha256 r sizes w.progress i w.block_written part (omega arith) free.1
              v.verified;
        counted = v.counted;
        todo = e;
        as_many = sym (ap length e) ∙ v.as_many;
        pending = (free, others);
        ascending = subst Ascending e v.ascending;
        within = omega arith;
        as_long = length-append w.hashed part ∙ omega (arith, long);
        same =
            slice-grown w.progress.output (i * r.chunk_size) w.block_written part
            ∙ ap (λ x. x ++ part) same;
      }

  unfinished-Writing :
      (w : Writer) (i : ℕ) (rest : List ℕ)
      → Inside w i rest
      → w.block_written ≢ size_of r i
      → Writing w
  unfinished-Writing w i rest v n = record {
    verified = v.verified;
    counted = v.counted;
    as_many = ap length v.todo ∙ v.as_many;
    pending = subst (Pending w.progress.matched) (sym v.todo) v.pending;
    ascending = subst Ascending (sym v.todo) v.ascending;
    started = subst (Started w) (sym v.todo) (below _ _ v.within n, v.as_long, v.same);
  }
    where
      below : (a b : ℕ) → a ≤ b → a ≢ b → a < b
      below a b h k = ground arith

  next_block-Writing :
      (w : Writer) (i : ℕ) (rest : List ℕ)
      → Inside w i rest
      → Verified sha256 r.signatures r.chunk_size
          (record w.progress { matched = set w.progress.matched i true })
      → Writing (next_block sha256 r w i rest)
  unfolding next_block
  next_block-Writing w i rest v marked =
      let later = Pending-set w.progress.matched i rest v.ascending.0 v.pending.1 in
      record {
        verified = marked;
        counted =
            omega (
              arith,
              v.counted,
              count_missing-set w.progress.matched i v.pending.0.0 v.pending.0.1,
            );
        as_many = omega (arith, v.as_many);
        pending = later;
        ascending = v.ascending.1;
        started = start rest later;
      }
    where
      start :
          (is : List ℕ)
          → Pending (set w.progress.matched i true) is
          → Started (next_block sha256 r w i is) is
      start [] p = refl
      start (j ∷ js) p = (
        size_min r.signatures j r.chunk_size sizes (omega (arith, p.0.0, marked.same_length)),
        refl,
        unfold slice in refl,
      )

  finish_block-Writing :
      (w w' : Writer) (i : ℕ) (rest : List ℕ)
      → Inside w i rest
      → w.block_written ≡ size_of r i
      → finish_block sha256 r w i rest ≡ ok w'
      → Writing w' × (w'.total_written ≡ w.total_written)
  unfolding finish_block
  finish_block-Writing w w' i rest v full h =
      let (_, hashed, h₁) =
        >>=-eq-ok
          (guard (bytes_eq (sha256 w.hashed) (get_or r.signatures i no_signature).strong)
            hash_mismatch)
          _ h in
      let marked =
        mark-Verified sha256 r sizes w.progress i
          (ap sha256 (sym (ap (slice w.progress.output (i * r.chunk_size)) full) ∙ v.same)
            ∙ bytes_eq_sound _ _ (guard-eq-ok _ _ hashed))
          v.verified in
      subst (λ (x : Writer). Writing x × (x.total_written ≡ w.total_written)) (ok-injective h₁)
        (next_block-Writing w i rest v marked, unfold next_block in refl)

  -- A turn of `write_decoded`.
  pub write_turn-Writing :
      (w w' : Writer) (i : ℕ) (rest : List ℕ) (part : Bytes)
      → Writing w
      → w.todo ≡ i ∷ rest
      → length part ≤ size_of r i - w.block_written
      → write_turn sha256 r w i rest part ≡ ok w'
      → Writing w' × (w'.total_written ≡ w.total_written + length part)
  unfolding write_turn
  write_turn-Writing w w' i rest part v e fits h =
      let t = write_part sha256 r w i part in
      let inside = write_part-Inside w i rest part v e fits in
      let more : t.total_written ≡ w.total_written + length part = unfold write_part in refl in
      elim (Bool-cases (t.block_written == size_of r i)) [
        | inl full ↦
            let (x, y) =
              finish_block-Writing t w' i rest inside ((==_iff _ _).0 full) (rw full at h) in
            (x, y ∙ more)
        | inr room ↦
            let e' : t ≡ w' = ok-injective (rw room at h) in
            subst (λ (x : Writer). Writing x × (x.total_written ≡ w.total_written + length part)) e'
              (
                unfinished-Writing t i rest inside (λ k. false≢true (sym room ∙ (==_iff _ _).1 k)),
                more,
              )
      ]

  -- `write_decoded` keeps the invariant, and counts what it writes.
  pub write_loop-Writing :
      (fuel : ℕ) (w w' : Writer) (decoded : Bytes)
      → Writing w
      → write_loop sha256 r fuel w decoded ≡ ok w'
      → Writing w' × (w'.total_written ≡ w.total_written + length decoded)
  unfolding write_loop
  write_loop-Writing fuel w w' [] v h =
      subst (λ (x : Writer). Writing x × (x.total_written ≡ w.total_written + 0)) (ok-injective h)
        (v, omega arith)
  write_loop-Writing zero w w' (x ∷ xs) v h = cc
  write_loop-Writing (suc fuel) w w' (x ∷ xs) v h =
      go (λ t n. write_loop-Writing fuel t w' (drop n (x ∷ xs))) w.todo refl
    where
      go :
          ((t : Writer) (n : ℕ)
            → Writing t
            → write_loop sha256 r fuel t (drop n (x ∷ xs)) ≡ ok w'
            → Writing w' × (w'.total_written ≡ t.total_written + length (drop n (x ∷ xs))))
          → (todo : List ℕ) → w.todo ≡ todo
          → Writing w' × (w'.total_written ≡ w.total_written + length (x ∷ xs))
      go ih [] e =
          let k : ◌≡◌ {A = Result Error Writer} (err stream_too_long) (ok w') =
            rw (e, write_loop) at h in
          absurd cc
      go ih (i ∷ rest) e =
          let count = min (length (x ∷ xs)) (size_of r i - w.block_written) in
          let k : (write_turn sha256 r w i rest (take count (x ∷ xs)) >>= λ t.
          write_loop sha256 r fuel t (drop count (x ∷ xs)))
              ≡ ok w' =
            rw (e, write_loop) at h in
          let (t, turned, h') =
            >>=-eq-ok (write_turn sha256 r w i rest (take count (x ∷ xs)))
              (λ t. write_loop sha256 r fuel t (drop count (x ∷ xs))) k in
          let (u, more) =
            write_turn-Writing w t i rest (take count (x ∷ xs)) v e
              (omega (arith, length-take count (x ∷ xs))) turned in
          let (u', more') = ih t count u h' in
          (u', omega (arith, more, more', length-take count (x ∷ xs), length-drop count (x ∷ xs)))
