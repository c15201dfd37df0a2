-- ===== src/NetworkScan.antt =====
-- backend/src/network/network_scan_websocket.cpp: the addresses of a scan.
pub mod Cidr
pub mod Hosts
mod Tests
