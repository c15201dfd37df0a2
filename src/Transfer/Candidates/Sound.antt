-- ===== src/Transfer/Candidates/Sound.antt =====
-- backend/src/transfer/transfer.cpp: a scan marks a block only with bytes of the announced hash.
use space_station.Prelude.{
  ℕ, zero, suc, ◌+◌, ◌≤◌, ◌≡◌, refl, ap, ◌∙◌, inl, inr, Bool, not, ◌&&◌, ◌||◌, List, [], ◌∷◌, arith,
  ◌==◌, Bool-cases, length, get_or, All, set, length-set, take, drop, ==_iff,
}
use space_station.Transfer.Receive.Integrity.{Verified, try_targets-Verified}
use space_station.Transfer.Candidates.{
  find_blocks, scan_sizes, scan_candidates, scan_candidate, all_matched,
}
use space_station.Transfer.Scan.{
  order, lookup_indices, Signature, scan_loop, no_signature, visit, Progress, scan_size,
}
use space_station.Prelude.Bytes.{Bytes}

length-order : (w : Bytes) (s i n : ℕ) → length (order w s i n) ≡ n
unfolding order
length-order w s i zero = refl
length-order w s i (suc n) = ap suc (length-order w s (i + 1) n)

-- The targets in the table of a window size have that size. `all` is the whole list of blocks.
lookup_indices_size :
    (all ss : List Signature) (ms : List Bool) (index n weak : ℕ)
    → ((k : ℕ) → get_or all (index + k) no_signature ≡ get_or ss k no_signature)
    → All (λ t. (get_or all t no_signature).size ≡ n) (lookup_indices ss ms index n weak)
unfolding lookup_indices
lookup_indices_size all [] ms index n weak h = tt
lookup_indices_size all (s ∷ ss) [] index n weak h = tt
lookup_indices_size all (s ∷ ss) (m ∷ ms) index n weak h =
    let here : get_or all index no_signature ≡ s =
      let e : index ≡ index + 0 = omega arith in ap (λ j. get_or all j no_signature) e ∙ h 0 in
    let later = lookup_indices_size all ss ms (index + 1) n weak (λ k.
      let e : index + 1 + k ≡ index + suc k = omega arith in
      ap (λ j. get_or all j no_signature) e ∙ h (suc k)) in
    elim (Bool-cases (not m && (s.size == n && s.weak == weak))) [
      | inl hit ↦
          let e : s.size ≡ n = ground arith in
          rw hit (ap (λ (t : Signature). t.size) here ∙ e, later)
      | inr miss ↦ rw miss later
    ]

module _ (sha256 : Bytes → Bytes) (signatures : List Signature) (chunk_size : ℕ)
    (sizes : All (λ (s : Signature). s.size ≤ chunk_size) signatures) where
  visit-Verified :
      (at_start : List Bool) (n weak : ℕ) (ordered : Bytes) (p : Progress)
      → length ordered ≡ n
      → Verified sha256 signatures chunk_size p
      → Verified sha256 signatures chunk_size (
          visit sha256 signatures chunk_size
            (lookup_indices signatures at_start 0 n)
            weak
            ordered
            p)
  unfolding visit
  visit-Verified at_start n weak ordered p h v =
      try_targets-Verified sha256 signatures chunk_size sizes _ ordered p
        (rw h (
          lookup_indices_size signatures signatures at_start 0 n weak
            (λ k. let e : 0 + k ≡ k = omega arith in ap (λ j. get_or signatures j no_signature) e)))
        v

  scan_loop-Verified :
      (at_start : List Bool) (n : ℕ) (input window : Bytes) (start weak : ℕ) (p : Progress)
      → length window ≡ n
      → Verified sha256 signatures chunk_size p
      → Verified sha256 signatures chunk_size (
          scan_loop sha256 signatures chunk_size
            (lookup_indices signatures at_start 0 n)
            window
            start
            weak
            input
            p)
  unfolding scan_loop
  scan_loop-Verified at_start n [] window start weak p h v =
      visit-Verified at_start n weak _ p (length-order window start 0 (length window) ∙ h) v
  scan_loop-Verified at_start n (next ∷ input) window start weak p h v =
      scan_loop-Verified at_start n input (set window start next) _ _ _
        (length-set window start next ∙ h)
        (visit-Verified at_start n weak _ p (length-order window start 0 (length window) ∙ h) v)

  scan_sizes-Verified :
      (at_start : List Bool) (input : Bytes) (ns : List ℕ) (p : Progress)
      → Verified sha256 signatures chunk_size p
      → Verified sha256 signatures chunk_size
          (scan_sizes sha256 signatures chunk_size at_start input ns p)
  unfolding scan_sizes scan_size
  scan_sizes-Verified at_start input [] p v = v
  scan_sizes-Verified at_start input (n ∷ ns) p v =
      scan_sizes-Verified at_start input ns _ (elim (Bool-cases (n == 0 || all_matched p.matched)) [
        | inl skip ↦ rw skip v
        | inr go ↦ rw go (elim (Bool-cases (length (take n input) == n)) [
          | inl full ↦ rw full (
              scan_loop-Verified at_start n (drop n input) (take n input) 0 _ p
                ((==_iff _ _).0 full) v)
          | inr short ↦ rw short v
        ])
      ])

  scan_candidates-Verified :
      (inputs : List Bytes) (p : Progress)
      → Verified sha256 signatures chunk_size p
      → Verified sha256 signatures chunk_size
          (scan_candidates sha256 signatures chunk_size inputs p)
  unfolding scan_candidates scan_candidate
  scan_candidates-Verified [] p v = v
  scan_candidates-Verified (input ∷ rest) p v = elim (Bool-cases (all_matched p.matched)) [
    | inl done ↦ rw done v
    | inr more ↦
        rw more (scan_candidates-Verified rest _ (scan_sizes-Verified p.matched input _ p v))
  ]

  -- For announced blocks that are no longer than the block size: whatever files are searched and
  -- however the ratio test turns out, a scan that starts with verified blocks ends with them.
  pub find_blocks-Verified :
      (few : ℕ → Bool) (same_name others : List Bytes) (p : Progress)
      → Verified sha256 signatures chunk_size p
      → Verified sha256 signatures chunk_size
          (find_blocks sha256 signatures chunk_size few same_name others p)
  unfolding find_blocks
  find_blocks-Verified few same_name others p v =
      let w = scan_candidates-Verified same_name p v in
      elim (Bool-cases
        (few (scan_candidates sha256 signatures chunk_size same_name p).matched_bytes)) [
          | inl yes_few ↦ rw yes_few (scan_candidates-Verified others _ w)
          | inr enough ↦ rw enough w
        ]
