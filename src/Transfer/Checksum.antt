-- ===== src/Transfer/Checksum.antt =====
-- backend/src/transfer/transfer.cpp: the weak checksum of a block, and its update when the window
-- moves by one byte (ScanCandidate). A std::uint32_t wraps at 2 ^ 32, a std::size_t at 2 ^ 64.
pub mod Rolling
use space_station.Prelude.{
  ℕ, zero, suc, ◌+◌, ◌-◌, ◌*◌, ◌/◌, ◌%◌, ◌^◌, ◌≤◌, ◌<◌, min, max, String, ◌≡◌, refl, sym, ap, ◌∙◌,
  fun_ext, ◌≢◌, ◌↔◌, ◌⊎◌, inl, inr, Bool, true, false, not, ◌&&◌, ◌||◌, Option, none, some, List,
  [], ◌∷◌, ◌++◌, map, arith, ltb, leb, ◌==◌, if◌then◌else◌, Bool-cases, Option-cases, length,
}
use space_station.Prelude.Bytes.{Bytes}

-- `& 0xffffU`
abbrev pub low16 : ℕ → ℕ
low16 n = n % 2 ^ 16

-- The loop of WeakChecksum: `size - index` is the length of what is left.
unfoldable pub weak_loop : Bytes → ℕ → ℕ → ℕ × ℕ
weak_loop [] a b = (a, b)
weak_loop (x ∷ rest) a b =
    weak_loop rest (low16 ((a + x) % 2 ^ 32))
      (low16 ((b + (length (x ∷ rest) * x) % 2 ^ 64 % 2 ^ 32) % 2 ^ 32))

-- `(b << 16U) | a`: the halves do not overlap.
abbrev pub join16 : ℕ → ℕ → ℕ
join16 b a = (b * 2 ^ 16) % 2 ^ 32 + a

unfoldable pub weak_checksum : Bytes → ℕ
unfolding weak_loop
weak_checksum xs = let (a, b) = weak_loop xs 0 0 in join16 b a

-- The update at the end of the loop of ScanCandidate.
unfoldable pub roll : ℕ → ℕ → ℕ → ℕ → ℕ
roll window_size weak old next =
    let a = low16 ((weak % 2 ^ 16 + 0x10000 - old + next) % 2 ^ 32) in
    let b =
      low16
        ((weak / 2 ^ 16 + 0x10000 - low16 ((window_size * old) % 2 ^ 64) % 2 ^ 32 + a) % 2 ^ 32) in
    join16 b a
