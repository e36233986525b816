-- ===== src/Memory/Collection/Map.antt =====
-- `MapBuffer::refresh` of src/loaded_kernel_collection.rs: the memory maps that it accepts.
use nextcore_efi.Common.{
  ap, true, ◌↔◌, List, Option, arith, ok, refl, some, ℕ, ◌%◌, ◌/◌, ◌<◌, ◌≡◌, ◌≤◌, none,
}
use nextcore_efi.Status.{success, is_success, is_success→eq}
use nextcore_efi.Memory.Descriptor.{Descriptor}
use nextcore_efi.Memory.Collection.{MapReply, entries_from, refresh}

-- A reply with a map: version 1, whole descriptors of the type's size at least, 128 KiB and 4096
-- descriptors at most, and the entries in the order of the buffer.
pub record IsReply (descriptor_size : ℕ) (o : Option MapReply) (map : List Descriptor)
    : Type 0 where
  pub reply : MapReply
  pub present : o ≡ some reply
  pub answered : reply.status ≡ success
  pub version : reply.version ≡ 1
  pub stride : descriptor_size ≤ reply.stride
  pub some_bytes : 0 < reply.bytes
  pub room : reply.bytes ≤ 131072
  pub whole : reply.bytes % reply.stride ≡ 0
  pub few : reply.bytes / reply.stride ≤ 4096
  pub entries : map ≡ entries_from reply.entry 0 (reply.bytes / reply.stride)

refresh→IsReply :
    (descriptor_size : ℕ) (o : Option MapReply) (map : List Descriptor)
    → refresh descriptor_size o ≡ ok map
    → IsReply descriptor_size o map
unfolding refresh
refresh→IsReply descriptor_size none map h = cc
refresh→IsReply descriptor_size (some r) map h = record {
  reply = r;
  present = refl;
  answered = is_success→eq r.status (ground arith);
  version = ground arith;
  stride = ground arith;
  some_bytes = ground arith;
  room = ground arith;
  whole = ground arith;
  few = ground arith;
  entries = ground arith;
}

replied :
    (descriptor_size : ℕ) (r : MapReply)
    → is_success r.status ≡ true
    → r.version ≡ 1
    → descriptor_size ≤ r.stride
    → 0 < r.bytes
    → r.bytes ≤ 131072
    → r.bytes % r.stride ≡ 0
    → r.bytes / r.stride ≤ 4096
    → refresh descriptor_size (some r) ≡ ok (entries_from r.entry 0 (r.bytes / r.stride))
unfolding refresh
replied descriptor_size r well version stride some_bytes room whole few = ground arith

IsReply→refresh :
    (descriptor_size : ℕ) (o : Option MapReply) (map : List Descriptor)
    → IsReply descriptor_size o map
    → refresh descriptor_size o ≡ ok map
IsReply→refresh descriptor_size o map a =
    rw (a.present, a.entries)
      (replied descriptor_size a.reply (ap is_success a.answered) a.version a.stride a.some_bytes
        a.room a.whole a.few)

-- `refresh` accepts exactly such replies.
pub refresh_iff :
    (descriptor_size : ℕ) (o : Option MapReply) (map : List Descriptor)
    → (refresh descriptor_size o ≡ ok map) ↔ IsReply descriptor_size o map
refresh_iff descriptor_size o map =
    (refresh→IsReply descriptor_size o map, IsReply→refresh descriptor_size o map)
