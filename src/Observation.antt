-- ===== src/Observation.antt =====
-- src/memory_observation.rs: a ring of the last requests around the unchanged memory service.
pub mod Laws
mod Runs
use nextcore_efi.Common.{
  Bool, List, Option, [], false, get_or, if◌then◌else◌, min, none, not, replicate, saturating_add,
  set, some, suc, true, zero, ℕ, ◌%◌, ◌+◌, ◌==◌, ◌||◌, ◌∷◌,
}
use nextcore_efi.Trace.Abi.{Request, Reply}

abbrev pub ring_capacity : ℕ
ring_capacity = 64

pub record Entry : Type 0 where
  pub sequence : ℕ
  pub operation : ℕ
  pub pc : ℕ
  pub address : ℕ
  pub width : ℕ
  pub count : ℕ
  pub result : ℕ

abbrev pub blank : Entry
blank = record {
  sequence = 0;
  operation = 0;
  pc = 0;
  address = 0;
  width = 0;
  count = 0;
  result = 0;
}

-- The entry of a request, its reply and the number of requests so far.
abbrev pub entry_of : ℕ → Request → Reply → Entry
entry_of total request reply = record {
  sequence = total;
  operation = request.operation;
  pc = request.pc;
  address = request.address;
  width = request.width;
  count = request.count;
  result = reply.result;
}

-- `ring[(first + offset) % CAPACITY]` for `offset` in `offset..offset + n`
abbrev pub slots_from : List Entry → (first offset n : ℕ) → List Entry
slots_from ring first offset zero = []
slots_from ring first offset (suc n) =
    get_or ring ((first + offset) % 64) blank ∷ slots_from ring first (offset + 1) n

-- `S` is the state of the service.
pub record ObservedMemory (S : Type 0) : Type 0 where
  pub service : S
  pub ring : List Entry
  pub next : ℕ
  pub len : ℕ
  pub total : ℕ

-- The pointers that `callback` takes: whether each is null or misaligned for its type.
pub record Pointers : Type 0 where
  pub owner_null : Bool
  pub request_null : Bool
  pub reply_null : Bool
  pub owner_aligned : Bool
  pub request_aligned : Bool
  pub reply_aligned : Bool

-- What `callback` leaves: its result, the owner and, where it wrote one, the reply.
pub record Called (S : Type 0) : Type 0 where
  pub refused : Bool
  pub owner : ObservedMemory S
  pub reply : Option Reply

unfoldable pub entries : {S : Type 0} → ObservedMemory S → List Entry
entries m = slots_from m.ring (if m.len == 64 then m.next else 0) 0 m.len

-- The guard of `callback`.
abbrev pub bad_pointers : Pointers → Bool
bad_pointers p =
    p.owner_null
    || p.request_null
    || p.reply_null
    || not p.owner_aligned
    || not p.request_aligned
    || not p.reply_aligned

-- `serve` is `MemoryService::execute`.
module _ {S : Type 0} (serve : S → Request → Reply × S) where
  -- `ObservedMemory::new`
  abbrev pub observe : S → ObservedMemory S
  observe service = record {
    service = service;
    ring = replicate ring_capacity blank;
    next = 0;
    len = 0;
    total = 0;
  }

  unfoldable pub execute : ObservedMemory S → Request → Reply × ObservedMemory S
  execute m request =
      let (reply, after) = serve m.service request in
      let total = saturating_add m.total 1 in
      (
        reply,
        record {
          service = after;
          ring = set m.ring m.next (entry_of total request reply);
          next = (m.next + 1) % 64;
          len = min (m.len + 1) 64;
          total = total;
        },
      )

  -- `callback`, which answers -1 where `refused` holds and 0 otherwise.
  unfoldable pub callback : Pointers → ObservedMemory S → Request → Called S
  callback p m request =
      if bad_pointers p
      then record { refused = true; owner = m; reply = none }
      else let (reply, after) = execute m request in
        record { refused = false; owner = after; reply = some reply }
