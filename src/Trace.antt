-- ===== src/Trace.antt =====
-- src/mapped_trace.rs: what the mapped diagnostic observes of the memory requests of a guest.
pub mod Abi
pub mod Steps
pub mod Store
pub mod Flow
