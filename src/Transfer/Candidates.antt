-- ===== src/Transfer/Candidates.antt =====
-- backend/src/transfer/transfer.cpp: ScanCandidate over all block lengths of one file, and the two
-- loops of HandleFile over the candidate files. A candidate is the bytes of a file that could be
-- opened; the files are found by CandidateFiles, which only walks directories.
pub mod Sound
use space_station.Prelude.{ℕ, Bool, ◌||◌, List, [], ◌∷◌, ltb, ◌==◌, if◌then◌else◌, all_of}
use space_station.Prelude.Bytes.{Bytes}
use space_station.Transfer.Scan.{Signature, Progress, scan_size, lookup_indices}

-- AllMatched
unfoldable pub all_matched : List Bool → Bool
all_matched matched = all_of (λ m. m) matched

-- A key of a std::map: sorted, and once.
insert_key : ℕ → List ℕ → List ℕ
insert_key k [] = k ∷ []
insert_key k (j ∷ js) =
    let rest = insert_key k js in
    if k == j then j ∷ js else if ltb k j then k ∷ j ∷ js else j ∷ rest

-- The keys of `lookups`: the lengths of the blocks that are not matched.
unfoldable pub window_sizes : List Signature → List Bool → List ℕ
unfolding insert_key
window_sizes (s ∷ ss) (m ∷ ms) =
    let rest = window_sizes ss ms in if m then rest else insert_key s.size rest
window_sizes _ _ = []

module _ (sha256 : Bytes → Bytes) (signatures : List Signature) (chunk_size : ℕ) where
  -- `at_start` is `matched` when the table was built.
  unfoldable pub scan_sizes : List Bool → Bytes → List ℕ → Progress → Progress
  scan_sizes at_start input [] p = p
  scan_sizes at_start input (n ∷ rest) p = scan_sizes at_start input rest (
      if n == 0 || all_matched p.matched
      then p
      else scan_size sha256 signatures chunk_size (lookup_indices signatures at_start 0 n) n input
          p)

  unfoldable pub scan_candidate : Bytes → Progress → Progress
  scan_candidate input p = scan_sizes p.matched input (window_sizes signatures p.matched) p

  -- `for (…; index < count && !AllMatched(matched); ++index)`
  unfoldable pub scan_candidates : List Bytes → Progress → Progress
  scan_candidates [] p = p
  scan_candidates (input ∷ rest) p =
      if all_matched p.matched then p else scan_candidates rest (scan_candidate input p)

  -- The files of the same name, then the others if too little was found. The ratio of the matched
  -- bytes is a double in the code; `few` is its comparison with the threshold.
  unfoldable pub find_blocks : (ℕ → Bool) → List Bytes → List Bytes → Progress → Progress
  find_blocks few same_name others p =
      let q = scan_candidates same_name p in
      if few q.matched_bytes then scan_candidates others q else q
