-- ===== src/Trace/Abi.antt =====
-- The fields of the requests and replies of the memory service that the observers read, and the
-- numbers of its interface, which the source takes from the service's crate.
use nextcore_efi.Common.{ℕ}

pub record Abi : Type 0 where
  pub fetch : ℕ
  pub load : ℕ
  pub store : ℕ
  pub good : ℕ

pub record Request : Type 0 where
  pub operation : ℕ
  pub pc : ℕ
  pub address : ℕ
  pub width : ℕ
  pub count : ℕ
  pub value0 : ℕ

pub record Reply : Type 0 where
  pub result : ℕ
  pub value0 : ℕ
  pub value1 : ℕ
