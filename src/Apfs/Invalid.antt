-- ===== src/Apfs/Invalid.antt =====
-- `enum Invalid` of src/apfs_observation.rs.
pub data Invalid : Type 0 where
  path size name attributes geometry limit : Invalid
