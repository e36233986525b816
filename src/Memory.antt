-- ===== src/Memory.antt =====
-- The UEFI memory map and the page owners that check themselves against it: src/arm_pages.rs and
-- src/loaded_kernel_collection.rs.
pub mod Descriptor
pub mod Coverage
pub mod Calls
pub mod ArmPages
pub mod Collection
