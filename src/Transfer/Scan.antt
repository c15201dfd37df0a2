-- ===== src/Transfer/Scan.antt =====
-- backend/src/transfer/transfer.cpp, ScanCandidate: the search of a file on the server for blocks
-- of the file to receive. OpenSSL's SHA-256 is the parameter `sha256`.
pub mod Ring
pub mod Windows
use space_station.Prelude.{
  Bool, Bool-cases, List, Option, Option-cases, String, [], ap, ap₂, arith, drop, false, fun_ext,
  get_or, if◌then◌else◌, inl, inr, leb, length, ltb, map, max, min, none, not, refl, set, some, suc,
  sym, take, true, zero, ℕ, ◌%◌, ◌&&◌, ◌*◌, ◌++◌, ◌+◌, ◌-◌, ◌/◌, ◌<◌, ◌==◌, ◌^◌, ◌||◌, ◌↔◌, ◌∙◌,
  ◌∷◌, ◌≡◌, ◌≢◌, ◌≤◌, ◌⊎◌,
}
use space_station.Transfer.Checksum.{weak_checksum, roll}
use space_station.Prelude.Bytes.{Bytes, bytes_eq}
use space_station.Transfer.Disk.{File, write_at}

pub record Signature : Type 0 where
  pub weak : ℕ
  pub strong : Bytes
  pub size : ℕ

-- `matched`, `output` and `matched_bytes`.
pub record Progress : Type 0 where
  pub matched : List Bool
  pub output : File
  pub matched_bytes : ℕ

-- The indices in `lookups[window_size]` under the key `weak`, in order. The table is built once,
-- from the blocks that are not matched at the start.
unfoldable pub lookup_indices : List Signature → List Bool → ℕ → ℕ → ℕ → List ℕ
lookup_indices (s ∷ ss) (m ∷ ms) index window_size weak =
    let rest = lookup_indices ss ms (index + 1) window_size weak in
    if not m && (s.size == window_size && s.weak == weak) then index ∷ rest else rest
lookup_indices _ _ index window_size weak = []

abbrev pub no_signature : Signature
no_signature = record { weak = 0; strong = []; size = 0 }

-- `ordered[index] = window[(ring_start + index) % window_size]`
unfoldable pub order : Bytes → ℕ → ℕ → ℕ → Bytes
order window ring_start index zero = []
order window ring_start index (suc n) =
    get_or window ((ring_start + index) % length window) 0 ∷ order window ring_start (index + 1) n

module _ (sha256 : Bytes → Bytes) (signatures : List Signature) (chunk_size : ℕ) where
  -- The loop over `found->second`.
  unfoldable pub try_targets : List ℕ → Bytes → Progress → Progress
  try_targets [] ordered p = p
  try_targets (target ∷ rest) ordered p = try_targets rest ordered (
      if not (get_or p.matched target false)
        && bytes_eq (get_or signatures target no_signature).strong (sha256 ordered)
      then record {
        matched = set p.matched target true;
        output = write_at p.output (target * chunk_size) ordered;
        matched_bytes = p.matched_bytes + length ordered;
      }
      else p)

  -- `table weak` is what the code finds in `lookup` under `weak`.
  module _ (table : ℕ → List ℕ) where
    unfoldable pub visit : ℕ → Bytes → Progress → Progress
    visit weak ordered p = try_targets (table weak) ordered p

    -- `while (true)` over what is left of the input.
    unfoldable pub scan_loop : Bytes → ℕ → ℕ → Bytes → Progress → Progress
    scan_loop window ring_start weak [] p = visit weak (order window ring_start 0 (length window)) p
    scan_loop window ring_start weak (next ∷ rest) p =
        let old = get_or window ring_start 0 in
        scan_loop (set window ring_start next) ((ring_start + 1) % length window)
          (roll (length window) weak old next) rest
          (visit weak (order window ring_start 0 (length window)) p)

    -- One round over a window size: the first window is read whole, or the file is too short.
    unfoldable pub scan_size : ℕ → Bytes → Progress → Progress
    scan_size window_size input p =
        let window = take window_size input in
        if length window == window_size
        then scan_loop window 0 (weak_checksum window) (drop window_size input) p
        else p
