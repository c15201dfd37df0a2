-- ===== src/Transfer.antt =====
-- backend/src/transfer/transfer.cpp: the differential file transfer.
pub mod Checksum
pub mod Disk
pub mod Scan
pub mod Candidates
pub mod Manifest
pub mod Receive
pub mod Stream
pub mod Client
pub mod HandleFile
mod Tests
