-- ===== src/NetworkScan/Tests.antt =====
-- backend/src/network/network_scan_websocket.cpp: the theorem at the network 192.168.1.77/30.
use space_station.Prelude.{
  All, List, [], arith, get_or, length, ok, refl, ℕ, ◌+◌, ◌-◌, ◌<◌, ◌^◌, ◌∷◌, ◌≡◌, ◌≤◌,
}
use space_station.NetworkScan.Hosts.{IsHost, expand-IsHost, host_at}
use space_station.NetworkScan.Cidr.{expand, usable_count, first_address, addresses_from}

abbrev address : ℕ
address = 0xc0a8_014d

abbrev hosts : List ℕ
hosts = 0xc0a8_014d ∷ 0xc0a8_014e ∷ []

expand-computed : expand address 30 ≡ ok hosts
unfolding expand usable_count first_address addresses_from
expand-computed = refl

expand-IsHost_example :
    (30 ≤ 30 → length hosts + 2 ≡ 2 ^ (32 - 30))
    × (31 ≤ 30 → length hosts ≡ 2 ^ (32 - 30))
    × (0 < length hosts)
    × (length hosts ≤ 4096)
    × ((i : ℕ) → i < length hosts → get_or hosts i 0 ≡ host_at address 30 i)
    × All (IsHost address 30) hosts
expand-IsHost_example = expand-IsHost address 30 hosts (omega arith) (omega arith) expand-computed
