-- ===== src/Transfer/Manifest/Bounds.antt =====
-- backend/src/transfer/transfer.cpp: what an accepted announcement guarantees.
use space_station.Prelude.{
  All, List, [], all_of, arith, length, ok, true, ℕ, ◌*◌, ◌-◌, ◌<◌, ◌∷◌, ◌≡◌, ◌≤◌,
}
use space_station.Transfer.Scan.{Signature}
use space_station.Transfer.Manifest.{
  is_valid_signature, expected_chunks, check_manifest, Request, min_chunk_size, max_chunk_size,
  max_chunk_count,
}

-- What HandleFile relies on after its tests.
pub record Accepted (r : Request) : Type 0 where
  pub chunk_size_min : min_chunk_size ≤ r.chunk_size
  pub chunk_size_max : r.chunk_size ≤ max_chunk_size
  pub count_max : length r.signatures ≤ max_chunk_count
  -- The blocks cover the file and none lies past its end.
  pub covers : r.file_size ≤ length r.signatures * r.chunk_size
  pub no_block_past :
      0 < length r.signatures → (length r.signatures - 1) * r.chunk_size < r.file_size
  pub sizes : All (λ (s : Signature). (0 < s.size) × (s.size ≤ r.chunk_size)) r.signatures

sizes_of :
    (c : ℕ) (ss : List Signature)
    → all_of (is_valid_signature c) ss ≡ true
    → All (λ (s : Signature). (0 < s.size) × (s.size ≤ c)) ss
unfolding is_valid_signature
sizes_of c [] h = tt
sizes_of c (s ∷ ss) h = ground (arith, sizes_of c ss)

expected_chunks-covers : (f c : ℕ) → 0 < c → f ≤ expected_chunks f c * c
unfolding expected_chunks
expected_chunks-covers f c h = grind arith

expected_chunks_least :
    (f c : ℕ) → 0 < c → 0 < expected_chunks f c → (expected_chunks f c - 1) * c < f
unfolding expected_chunks
expected_chunks_least f c h k = grind arith

-- The tests of an announcement that was not refused, one by one.
passed :
    (r : Request)
    → check_manifest r ≡ ok tt
    → (min_chunk_size ≤ r.chunk_size)
      × (r.chunk_size ≤ max_chunk_size)
      × (expected_chunks r.file_size r.chunk_size ≤ max_chunk_count)
      × (length r.signatures ≡ expected_chunks r.file_size r.chunk_size)
      × (all_of (is_valid_signature r.chunk_size) r.signatures ≡ true)
unfolding check_manifest
passed r h = ground arith

-- The tests that HandleFile makes on an announcement imply that the blocks are as many as it takes
-- to cover the file and no more, at most a million, and each of 1 byte up to the block size.
pub check_manifest-Accepted : (r : Request) → check_manifest r ≡ ok tt → Accepted r
check_manifest-Accepted r h =
    let (low, high, count, same, valid) = passed r h in
    record {
      chunk_size_min = low;
      chunk_size_max = high;
      count_max = rw same count;
      covers = rw same (expected_chunks-covers r.file_size r.chunk_size (omega arith));
      no_block_past = rw same (expected_chunks_least r.file_size r.chunk_size (omega arith));
      sizes = sizes_of r.chunk_size r.signatures valid;
    }
