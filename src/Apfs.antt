-- ===== src/Apfs.antt =====
-- src/apfs_observation.rs and src/apfs_filesystems.rs: bounded reading of device paths, directory
-- records and volume records that firmware hands over.
pub mod Invalid
pub mod DevicePath
pub mod Name
pub mod Record
pub mod Budget
