-- ===== src/Console.antt =====
-- src/console_control.rs: the console service that a child may find, its lease and its telemetry.
pub mod Provider
pub mod Lease
pub mod Telemetry
mod Runs
