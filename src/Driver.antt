-- ===== src/Driver.antt =====
-- src/apfs_driver.rs: the driver of an APFS container, found, read, loaded and started.
pub mod Media
pub mod Read
pub mod Start
mod Runs
