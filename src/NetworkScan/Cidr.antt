-- ===== src/NetworkScan/Cidr.antt =====
-- backend/src/network/network_scan_websocket.cpp: ExpandCidr and AddressScope. The addresses stand as
-- numbers here; the code writes each with AddressText. inet_pton with ntohl, and std::stoi, are
-- parameters: they answer with none where they fail.
use space_station.Prelude.{
  ℕ, zero, suc, ◌+◌, ◌-◌, ◌*◌, ◌/◌, ◌%◌, ◌^◌, not, ◌||◌, Option, none, some, List, [], ◌∷◌, ltb,
  leb, ◌>>=◌, ◌>>◌, ◌==◌, if◌then◌else◌, Result, guard, or_throw, ok, err,
}
use space_station.Prelude.Int.{ℤ, negsuc, pos}
use space_station.Prelude.Bytes.{Bytes}

abbrev pub maximum_hosts : ℕ
maximum_hosts = 4096

pub data Error : Type 0 where
  not_cidr invalid_address invalid_prefix prefix_out_of_range too_many_hosts : Error

-- What stands before the first slash, and after it.
unfoldable pub split_slash : Bytes → Option (Bytes × Bytes)
split_slash [] = none
split_slash (c ∷ rest) =
    let later = split_slash rest in
    if c == b'/'
    then some ([], rest)
    else elim later [ none ↦ none | some parts ↦ some (c ∷ parts.0, parts.1) ]

-- `first`, `first + 1`, … as std::uint32_t.
unfoldable pub addresses_from : ℕ → ℕ → ℕ → List ℕ
addresses_from first index zero = []
addresses_from first index (suc n) = (first + index) % 2 ^ 32 ∷ addresses_from first (index + 1) n

unfoldable pub usable_count : ℕ → ℕ
usable_count prefix = if leb prefix 30 then 2 ^ (32 - prefix) - 2 else 2 ^ (32 - prefix)

-- `(address & mask) + …`, where the mask clears the last `32 - prefix` bits.
unfoldable pub first_address : ℕ → ℕ → ℕ
first_address address prefix =
    (address / 2 ^ (32 - prefix) * 2 ^ (32 - prefix) + (if leb prefix 30 then 1 else 0)) % 2 ^ 32

unfoldable pub expand : ℕ → ℕ → Result Error (List ℕ)
expand address prefix = do
  guard (not (usable_count prefix == 0 || ltb maximum_hosts (usable_count prefix))) too_many_hosts
  ok (addresses_from (first_address address prefix) 0 (usable_count prefix))

unfoldable pub prefix_of : ℤ → Result Error ℕ
prefix_of (negsuc n) = err prefix_out_of_range
prefix_of (pos n) = if ltb 32 n then err prefix_out_of_range else ok n

unfoldable pub expand_cidr : (Bytes → Option ℕ) → (Bytes → Option ℤ) → Bytes → Result Error (List ℕ)
expand_cidr parse_address stoi cidr = do
  parts ← or_throw (split_slash cidr) not_cidr
  address ← or_throw (parse_address parts.0) invalid_address
  number ← or_throw (stoi parts.1) invalid_prefix
  prefix ← prefix_of number
  expand address prefix

pub data Scope : Type 0 where
  private_scope loopback link_local public_scope : Scope

unfoldable pub address_scope : ℕ → Scope
address_scope address =
    if address / 2 ^ 24 == 10 || address / 2 ^ 20 == 0xac1 || address / 2 ^ 16 == 0xc0a8
    then private_scope
    else if address / 2 ^ 24 == 127
    then loopback
    else if address / 2 ^ 16 == 0xa9fe
    then link_local
    else public_scope
