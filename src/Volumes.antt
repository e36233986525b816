-- ===== src/Volumes.antt =====
-- src/apfs_filesystems.rs: the device path of a handle, read node by node under an opened protocol.
pub mod Laws
pub mod Complete
mod Runs
use nextcore_efi.Common.{
  Bool, List, Result, [], err, false, if◌then◌else◌, length, ltb, map_err, ok, suc, true, zero, ℕ,
  ◌++◌, ◌+◌, ◌-◌, ◌==◌, ◌>>=◌, ◌||◌, ◌∷◌,
}
use nextcore_efi.Common.Bytes.{le16}
use nextcore_efi.Status.{
  Status, is_success, not_ready, unsupported, bad_buffer_size, volume_corrupted, out_of_resources,
}
use nextcore_efi.Hal.{bytes_at}
use nextcore_efi.Apfs.Invalid.{Invalid}
use nextcore_efi.Apfs.DevicePath.{max_path, max_nodes, path_body}

-- OpenProtocol that succeeded, and CloseProtocol that was called.
pub data Access : Type 0 where
  opens closes : Access

-- What the firmware answers to one protocol: whether there are Boot Services, OpenProtocol with the
-- interface, 0 for a null pointer, and the same for the close.
pub record Protocol : Type 0 where
  pub has_services : Bool
  pub open_status : Status
  pub interface : ℕ
  pub still_services : Bool
  pub close_status : Status

abbrev pub invalid : Invalid → Status
invalid Invalid.limit = bad_buffer_size
invalid other = volume_corrupted

-- `Protocol::close` of an active protocol.
abbrev pub close_active : Bool → Status → Status × List Access
close_active false status = (not_ready, [])
close_active true status = (status, closes ∷ [])

-- `Protocol::open`; a null interface drops the protocol, which closes it.
abbrev pub with_interface : Protocol → Bool → Result Status (Unit {0}) × List Access
with_interface p true = (err unsupported, opens ∷ (close_active p.still_services p.close_status).1)
with_interface p false = (ok tt, opens ∷ [])

abbrev pub with_opened : Protocol → Bool → Result Status (Unit {0}) × List Access
with_opened p false = (err p.open_status, [])
with_opened p true = with_interface p (p.interface == 0)

abbrev pub with_boot : Protocol → Bool → Result Status (Unit {0}) × List Access
with_boot p false = (err not_ready, [])
with_boot p true = with_opened p (is_success p.open_status)

unfoldable pub open_protocol : Protocol → Result Status (Unit {0}) × List Access
open_protocol p = with_boot p p.has_services

-- The end of the loop, at an end node.
abbrev pub finish : List ℕ → Result Status (List ℕ)
finish bytes = map_err invalid (path_body bytes) >>= λ _. ok bytes

abbrev pub bad_node : (offset len : ℕ) → Bool
bad_node offset len = ltb len 4 || ltb (max_path - offset) len

-- One round by its tests: room for a header, a bad length, and an end node.
abbrev pub gather_node :
    Bool → Bool → Bool → List ℕ → Result Status (List ℕ) → Result Status (List ℕ)
gather_node true bad last bytes next = err bad_buffer_size
gather_node false true last bytes next = err bad_buffer_size
gather_node false false true bytes next = finish bytes
gather_node false false false bytes next = next

-- The loop of `device_path` over the memory from `base`, with `left` rounds.
unfoldable pub gather : (ℕ → ℕ) → (base left : ℕ) → List ℕ → Result Status (List ℕ)
gather memory base zero bytes = err bad_buffer_size
gather memory base (suc left) bytes =
    let offset = length bytes in
    let len = le16 (memory (base + offset + 2)) (memory (base + offset + 3)) in
    let more = bytes ++ bytes_at memory (base + offset) len in
    let next = gather memory base left more in
    gather_node (ltb max_path (offset + 4)) (bad_node offset len) (memory (base + offset) == 0x7f)
      more next

abbrev pub reserve : Bool → Result Status (List ℕ) → Result Status (List ℕ)
reserve false result = err out_of_resources
reserve true result = result

-- A result behind the close, whose failure wins.
abbrev pub behind_close :
    Result Status (List ℕ) → Status × List Access → Result Status (List ℕ) × List Access
behind_close result (status, log) = (if is_success status then result else err status, opens ∷ log)

abbrev pub with_open :
    Protocol
    → Result Status (List ℕ)
    → Result Status (Unit {0}) × List Access
    → Result Status (List ℕ) × List Access
with_open p result (err e, log) = (err e, log)
with_open p result (ok _, log) = behind_close result (close_active p.still_services p.close_status)

-- `device_path`; `room` is whether the reservation succeeds.
unfoldable pub device_path : Bool → Protocol → (ℕ → ℕ) → Result Status (List ℕ) × List Access
device_path room p memory =
    with_open p (reserve room (gather memory p.interface max_nodes [])) (open_protocol p)
