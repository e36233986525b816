-- ===== src/Kernel.antt =====
-- src/loaded_kernel.rs: a Mach-O image at a physical address, with an arena behind it.
pub mod Verify
pub mod Load
pub mod Prepare
pub mod Options
pub mod Collect
mod Runs
