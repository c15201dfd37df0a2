-- ===== src/Files.antt =====
-- backend/src/files/file_manager_service.cpp: the file manager, on a file system that is a map from
-- absolute paths to nodes.
pub mod Paths
pub mod Names
pub mod Disk
pub mod Upload
pub mod Copies
pub mod Transfer
pub mod Entries
pub mod Tests
