-- ===== src/Memory/Collection.antt =====
-- src/loaded_kernel_collection.rs: pages that hold a staged kernel collection. `page` stands for
-- `STAGING_PAGE_SIZE`, and the staging plan of the core library enters through what it answers.
pub mod Map
pub mod Laws
pub mod Release
mod Runs
use Prim.Native.Nat.{bit_xor}
use nextcore_efi.Common.{
  Bool, List, Option, Result, [], checked_add, err, if◌then◌else◌, is_ok, ltb, none, not, ok, ok_or,
  refuse, some, suc, true, zero, ℕ, ◌%◌, ◌&&◌, ◌*◌, ◌++◌, ◌+◌, ◌-◌, ◌/◌, ◌==◌, ◌>>=◌, ◌>>◌, ◌^◌,
  ◌||◌, ◌∷◌,
}
use nextcore_efi.Status.{
  Status, is_success, success, not_ready, load_error, invalid_parameter, out_of_resources,
  compromised_data, device_error,
}
use nextcore_efi.Memory.Descriptor.{Descriptor, loader_data, conventional}
use nextcore_efi.Memory.Coverage.{coverage}
use nextcore_efi.Memory.Calls.{Call, allocates, frees, zeroes}

abbrev pub four_gib : ℕ
four_gib = 2 ^ 32

abbrev pub map_bytes : ℕ
map_bytes = 128 * 1024

abbrev pub max_descriptors : ℕ
max_descriptors = 4096

-- What GetMemoryMap answers: its status and outputs, and the descriptor at each index of the buffer.
pub record MapReply : Type 0 where
  pub status : Status
  pub bytes : ℕ
  pub stride : ℕ
  pub version : ℕ
  pub entry : ℕ → Descriptor

-- `self.entry(index)` for `index` in `start..start + count`
unfoldable pub entries_from : (ℕ → Descriptor) → ℕ → ℕ → List Descriptor
entries_from entry start zero = []
entries_from entry start (suc count) = entry start ∷ entries_from entry (start + 1) count

-- `MapBuffer::refresh`, and the entries that it leaves. `none` is a missing system table or a null
-- Boot Services pointer; `descriptor_size` is the size of the descriptor type of the uefi crate.
unfoldable pub refresh : ℕ → Option MapReply → Result Status (List Descriptor)
refresh descriptor_size none = err not_ready
refresh descriptor_size (some r) =
    if is_success r.status
    then (do
      refuse
          (not (r.version == 1)
            || ltb r.stride descriptor_size
            || ltb map_bytes r.bytes
            || r.bytes == 0
            || not (r.bytes % r.stride == 0)
            || ltb max_descriptors (r.bytes / r.stride))
          compromised_data
      ok (entries_from r.entry 0 (r.bytes / r.stride)))
    else err r.status

pub record Pages : Type 0 where
  pub pointer : Option ℕ
  pub count : ℕ
  pub bytes : ℕ

-- What the firmware answers to one owner of pages: the allocation, FreePages, and its memory map
-- before and after the pages are freed.
pub record Firmware : Type 0 where
  pub reserve : Bool
  pub allocate : ℕ → Result Status ℕ
  pub free : Status
  pub map_held : Option MapReply
  pub map_released : Option MapReply

-- The status and the calls of `Pages::release_inner`, with the state that it leaves.
unfoldable pub release_inner :
    ℕ → ℕ → Firmware → Pages → Result Status (Unit {0}) × Pages × List Call
release_inner page descriptor_size firmware pages = elim pages.pointer [
  | none ↦ (ok tt, pages, [])
  | some base ↦
      let seen = refresh descriptor_size firmware.map_released >>= λ ds.
      coverage page ds base pages.bytes conventional in
      (
        if is_success firmware.free && is_ok seen then ok tt else err device_error,
        record pages { pointer = none },
        frees base pages.count ∷ [],
      )
]

-- The tests of `Pages::new` on the address that AllocatePages chose.
abbrev pub bad_base : ℕ → ℕ → ℕ → Bool
bad_base page base bytes =
    base == 0
    || not (base % page == 0)
    || (elim (checked_add base bytes) [ none ↦ true | some end ↦ ltb four_gib end ])

-- `Pages::new`. A failure behind the allocation drops the pages.
unfoldable pub new_pages : ℕ → ℕ → Firmware → ℕ → Result Status Pages × List Call
new_pages page descriptor_size firmware bytes =
    if bytes == 0 || not (bytes % page == 0) || ltb (2 ^ 63 - 1) bytes
    then (err invalid_parameter, [])
    else if not firmware.reserve
    then (err out_of_resources, [])
    else elim (firmware.allocate (bytes / page)) [
      | err e ↦ (err e, [])
      | ok base ↦
          let pages : Pages = record { pointer = some base; count = bytes / page; bytes = bytes } in
          if bad_base page base bytes
          then (
            err compromised_data,
            allocates base (bytes / page) ∷ (release_inner page descriptor_size firmware pages).2,
          )
          else (ok pages, allocates base (bytes / page) ∷ [])
    ]

-- What the staging plan of the core library answers: the size of its arena, the bytes that it stages
-- over a zeroed destination with what it verified, and whether `verify` reports a readback mismatch.
pub record Plan (V : Type 0) : Type 0 where
  pub arena_size : ℕ
  pub stage_into : ℕ → Option (V × List ℕ)
  pub mismatch : List ℕ → Bool

pub record Loaded (V : Type 0) : Type 0 where
  pub pages : Pages
  pub verification : V
  pub map_descriptors : ℕ
  pub memory : List ℕ

-- The tests of `load` between the allocation and the first write.
unfoldable pub admit : ℕ → ℕ → Firmware → (base bytes source_base source_len : ℕ) → Result Status ℕ
admit page descriptor_size firmware base bytes source_base source_len = do
  source_end ← ok_or (checked_add source_base source_len) invalid_parameter
  refuse (ltb base source_end && ltb source_base (base + bytes)) invalid_parameter
  ds ← refresh descriptor_size firmware.map_held
  coverage page ds base bytes loader_data

-- `*pointer ^= 0xff`
abbrev pub flip_first : List ℕ → List ℕ
flip_first [] = []
flip_first (b ∷ bs) = bit_xor b 0xff ∷ bs

module _ {V : Type 0} where
  -- `load` once the pages at `base` are owned; `log` is what was called before.
  unfoldable pub load_into :
      ℕ
      → ℕ
      → Firmware
      → Plan V
      → (source_base source_len base : ℕ) → Pages
      → List Call
      → Result Status (Loaded V) × List Call
  load_into page descriptor_size firmware plan source_base source_len base pages log =
      let dropped = (release_inner page descriptor_size firmware pages).2 in
      elim (admit page descriptor_size firmware base pages.bytes source_base source_len) [
        | err e ↦ (err e, log ++ dropped)
        | ok n ↦ elim (plan.stage_into pages.bytes) [
          | none ↦ (err compromised_data, log ++ (zeroes base pages.bytes ∷ dropped))
          | some (v, staged) ↦ (
            ok (record { pages = pages; verification = v; map_descriptors = n; memory = staged }),
            log ++ (zeroes base pages.bytes ∷ []),
          )
        ]
      ]

  -- `LoadedKernelCollection::load`; `plan` is what `KcStagingPlan::new` answers.
  unfoldable pub load :
      ℕ → ℕ → Firmware → Option (Plan V) → ℕ → ℕ → Result Status (Loaded V) × List Call
  load page descriptor_size firmware none source_base source_len = (err load_error, [])
  load page descriptor_size firmware (some plan) source_base source_len =
      let (made, log) = new_pages page descriptor_size firmware plan.arena_size in
      elim made [
        | err e ↦ (err e, log)
        | ok pages ↦ elim pages.pointer [
          | none ↦ (err device_error, log)
          | some base ↦
              load_into page descriptor_size firmware plan source_base source_len base pages log
        ]
      ]

  -- `release`, and the drop of the value that it consumes.
  unfoldable pub release : ℕ → ℕ → Firmware → Loaded V → Result Status (Unit {0}) × List Call
  release page descriptor_size firmware loaded =
      let (r, pages, log) = release_inner page descriptor_size firmware loaded.pages in
      (r, log ++ (release_inner page descriptor_size firmware pages).2)

  -- `probe_readback_failure`, and the drop of the value that it consumes.
  unfoldable pub probe_readback_failure :
      ℕ → ℕ → Firmware → Plan V → Loaded V → Result Status (Unit {0}) × List Call
  probe_readback_failure page descriptor_size firmware plan loaded = (
    if plan.mismatch (flip_first loaded.memory) then ok tt else err device_error,
    (release_inner page descriptor_size firmware loaded.pages).2,
  )
