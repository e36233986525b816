-- ===== src/Boot.antt =====
-- src/main.rs, src/picker.rs and src/configuration_recovery.rs: from the configuration to a child.
pub mod Keys
pub mod Picker
pub mod Config
pub mod Target
pub mod Chainload
pub mod Flow
mod Runs
