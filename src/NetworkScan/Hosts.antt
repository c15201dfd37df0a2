-- ===== src/NetworkScan/Hosts.antt =====
-- backend/src/network/network_scan_websocket.cpp, ExpandCidr: which addresses are scanned.
use space_station.Prelude.{
  ==_iff, All, Bool-cases, List, [], ap, arith, if◌then◌else◌, inl, inr, leb, leb→le, length, ok,
  refl, subst, suc, true, zero, ℕ, ◌%◌, ◌*◌, ◌+◌, ◌-◌, ◌/◌, ◌<◌, ◌==◌, ◌^◌, ◌∙◌, ◌∷◌, ◌≡◌, ◌≤◌,
  get_or,
}
use space_station.NetworkScan.Cidr.{
  usable_count, addresses_from, first_address, maximum_hosts, expand,
}

-- A host of the network of `address`: in the network, and where a network has them, neither its own
-- address nor the broadcast address.
abbrev pub IsHost : ℕ → ℕ → ℕ → Type 0
IsHost address prefix a =
    (a / 2 ^ (32 - prefix) ≡ address / 2 ^ (32 - prefix))
    × (prefix ≤ 30 → (0 < a % 2 ^ (32 - prefix)) × (a % 2 ^ (32 - prefix) < 2 ^ (32 - prefix) - 1))

-- The hosts of the network one after the other: its own address is no host where there are more than
-- two addresses.
abbrev pub host_at : ℕ → ℕ → ℕ → ℕ
host_at address prefix i =
    address / 2 ^ (32 - prefix) * 2 ^ (32 - prefix) + (if leb prefix 30 then 1 else 0) + i

length-addresses_from : (f i n : ℕ) → length (addresses_from f i n) ≡ n
unfolding addresses_from
length-addresses_from f i zero = refl
length-addresses_from f i (suc n) = ap suc (length-addresses_from f (i + 1) n)

All-addresses_from :
    (P : ℕ → Type 0) (f i n : ℕ)
    → ((j : ℕ) → j < i + n → P ((f + j) % 2 ^ 32))
    → All P (addresses_from f i n)
unfolding addresses_from
All-addresses_from P f i zero h = tt
All-addresses_from P f i (suc n) h =
    (h i (omega arith), All-addresses_from P f (i + 1) n (λ j l. h j (omega arith)))

nth-addresses_from :
    (f i n j : ℕ) → j < n → get_or (addresses_from f i n) j 0 ≡ (f + (i + j)) % 2 ^ 32
unfolding addresses_from
nth-addresses_from f i zero j h = absurd (omega (arith, h))
nth-addresses_from f i (suc n) zero h =
    let e : i ≡ i + 0 = omega arith in ap (λ k. (f + k) % 2 ^ 32) e
nth-addresses_from f i (suc n) (suc j) h =
    let e : i + 1 + j ≡ i + suc j = omega arith in
    nth-addresses_from f (i + 1) n j (omega (arith, h)) ∙ ap (λ k. (f + k) % 2 ^ 32) e

-- The network's own address and the broadcast address are not counted where they are reserved.
count_of :
    (prefix n : ℕ)
    → prefix ≤ 32
    → n ≡ usable_count prefix
    → 0 < n
    → (prefix ≤ 30 → n + 2 ≡ 2 ^ (32 - prefix)) × (31 ≤ prefix → n ≡ 2 ^ (32 - prefix))
unfolding usable_count
count_of prefix n p e h = ground arith

large_power : (k : ℕ) → 13 ≤ k → 8192 ≤ 2 ^ k
large_power zero h = absurd (omega arith)
large_power (suc k) h = elim (Bool-cases (leb 13 k)) [
  | inl more ↦ omega (arith, large_power k (leb→le 13 k more))
  | inr last ↦ let e : k ≡ 12 = ground arith in rw e (omega arith)
]

too_large : (prefix : ℕ) → 13 ≤ 32 - prefix → maximum_hosts < usable_count prefix
unfolding usable_count
too_large prefix h =
    let low : leb prefix 30 ≡ true = ground arith in
    rw low (omega (arith, large_power (32 - prefix) h))

prefix_at : (prefix k : ℕ) → prefix ≤ 32 → 32 - prefix ≡ k → prefix ≡ 32 - k
prefix_at prefix k p e = omega arith

-- The networks that are small enough, by their prefix.
abbrev Scanned : ℕ → Type 0
Scanned prefix =
    (address j : ℕ)
    → address < 2 ^ 32
    → j < usable_count prefix
    → IsHost address prefix ((first_address address prefix + j) % 2 ^ 32)
      × ((first_address address prefix + j) % 2 ^ 32 ≡ host_at address prefix j)

abbrev range : ℕ → ℕ → List ℕ
range low zero = []
range low (suc n) = low ∷ range (low + 1) n

pick : (P : ℕ → Type 0) (low n p : ℕ) → All P (range low n) → low ≤ p → p < low + n → P p
pick P low zero p h l u = absurd (omega arith)
pick P low (suc n) p h l u = elim (Bool-cases (low == p)) [
  | inl here ↦ subst P ((==_iff low p).0 here) h.0
  | inr later ↦ pick P (low + 1) n p h.1 (ground arith) (omega arith)
]

small_networks : All Scanned (range 20 13)
unfolding usable_count first_address
small_networks = (
  (λ address j h l. ((omega arith, λ p. (omega arith, omega arith)), omega arith)),
  (
    (λ address j h l. ((omega arith, λ p. (omega arith, omega arith)), omega arith)),
    (
      (λ address j h l. ((omega arith, λ p. (omega arith, omega arith)), omega arith)),
      (
        (λ address j h l. ((omega arith, λ p. (omega arith, omega arith)), omega arith)),
        (
          (λ address j h l. ((omega arith, λ p. (omega arith, omega arith)), omega arith)),
          (
            (λ address j h l. ((omega arith, λ p. (omega arith, omega arith)), omega arith)),
            (
              (λ address j h l. ((omega arith, λ p. (omega arith, omega arith)), omega arith)),
              (
                (λ address j h l. ((omega arith, λ p. (omega arith, omega arith)), omega arith)),
                (
                  (λ address j h l. ((omega arith, λ p. (omega arith, omega arith)), omega arith)),
                  (
                    (λ address j h l.
                        ((omega arith, λ p. (omega arith, omega arith)), omega arith)),
                    (
                      (λ address j h l.
                          ((omega arith, λ p. (omega arith, omega arith)), omega arith)),
                      (
                        (λ address j h l. ((omega arith, λ p. absurd (omega arith)), omega arith)),
                        (
                          (λ address j h l.
                              ((omega arith, λ p. absurd (omega arith)), omega arith)),
                          tt,
                        ),
                      ),
                    ),
                  ),
                ),
              ),
            ),
          ),
        ),
      ),
    ),
  ),
)

expanded :
    (address prefix : ℕ) (hosts : List ℕ)
    → expand address prefix ≡ ok hosts
    → (addresses_from (first_address address prefix) 0 (usable_count prefix) ≡ hosts)
      × (0 < usable_count prefix)
      × (usable_count prefix ≤ maximum_hosts)
unfolding expand
expanded address prefix hosts h = ground arith

-- For an address of 32 bits and a prefix up to 32: an expansion that is not refused lists the hosts of
-- the network of the address, all of them in ascending order and each once. They are all its addresses
-- but two for a prefix up to 30, and all its addresses for 31 and 32; at least 1 and at most 4096.
pub expand-IsHost :
    (address prefix : ℕ) (hosts : List ℕ)
    → address < 2 ^ 32
    → prefix ≤ 32
    → expand address prefix ≡ ok hosts
    → (prefix ≤ 30 → length hosts + 2 ≡ 2 ^ (32 - prefix))
      × (31 ≤ prefix → length hosts ≡ 2 ^ (32 - prefix))
      × (0 < length hosts)
      × (length hosts ≤ 4096)
      × ((i : ℕ) → i < length hosts → get_or hosts i 0 ≡ host_at address prefix i)
      × All (IsHost address prefix) hosts
expand-IsHost address prefix hosts h p e =
    let (same, some_host, few) = expanded address prefix hosts e in
    let first = first_address address prefix in
    let count = length-addresses_from first 0 (usable_count prefix) in
    let small : 20 ≤ prefix = elim (Bool-cases (leb 20 prefix)) [
      | inl wide ↦ leb→le 20 prefix wide
      | inr narrow ↦ absurd (omega (arith, few, too_large prefix (ground arith)))
    ] in
    let scanned : Scanned prefix = pick Scanned 20 13 prefix small_networks small (omega arith) in
    let (reserved, whole) = count_of prefix _ p count (omega (arith, count, some_host)) in
    rw (← same) (
      reserved,
      whole,
      omega (arith, count, some_host),
      omega (arith, count, few),
      λ i l.
          let below : i < usable_count prefix = omega (arith, l, count) in
          nth-addresses_from first 0 (usable_count prefix) i below
          ∙ ap (λ k. (first + k) % 2 ^ 32) (let z : 0 + i ≡ i = omega arith in z)
          ∙ (scanned address i h below).1,
      All-addresses_from (IsHost address prefix) first 0 (usable_count prefix)
          (λ j l. (scanned address j h (omega (arith, l))).0),
    )
