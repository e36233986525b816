-- ===== src/Trace/Store.antt =====
-- src/mapped_trace.rs: the watch on the stores of one instruction.
pub mod Laws
mod Runs
use nextcore_efi.Common.{if◌then◌else◌, ltb, not, saturating_add, ℕ, ◌==◌, ◌||◌}
use nextcore_efi.Trace.Abi.{Abi, Request, Reply}

pub record StoreWatch : Type 0 where
  pub pc : ℕ
  pub requests : ℕ
  pub successful : ℕ
  pub first_address : ℕ
  pub first_value : ℕ
  pub first_width : ℕ
  pub first_count : ℕ
  pub last_address : ℕ
  pub last_value : ℕ
  pub forward : ℕ
  pub backward : ℕ
  pub repeated : ℕ

-- What `StoreWatch::configured` makes of the address that the build names.
abbrev pub store_watch : ℕ → StoreWatch
store_watch pc = record {
  pc = pc;
  requests = 0;
  successful = 0;
  first_address = 0;
  first_value = 0;
  first_width = 0;
  first_count = 0;
  last_address = 0;
  last_value = 0;
  forward = 0;
  backward = 0;
  repeated = 0;
}

-- The branches of `StoreWatch::record` on the address of a successful store.
abbrev pub store_move : StoreWatch → Request → StoreWatch
store_move w request =
    if w.successful == 0
    then record w {
      first_address = request.address;
      first_value = request.value0;
      first_width = request.width;
      first_count = request.count;
    }
    else if ltb w.last_address request.address
    then record w { forward = saturating_add w.forward 1 }
    else if ltb request.address w.last_address
    then record w { backward = saturating_add w.backward 1 }
    else record w { repeated = saturating_add w.repeated 1 }

abbrev pub store_performed : StoreWatch → Request → StoreWatch
store_performed w request =
    let moved = store_move w request in
    record moved {
      successful = saturating_add moved.successful 1;
      last_address = request.address;
      last_value = request.value0;
    }

-- `StoreWatch::record`
unfoldable pub record_store : Abi → StoreWatch → Request → Reply → StoreWatch
record_store abi w request reply =
    if not (request.operation == abi.store) || not (request.pc == w.pc)
    then w
    else let asked : StoreWatch = record w { requests = saturating_add w.requests 1 } in
      if not (reply.result == abi.good) then asked else store_performed asked request
