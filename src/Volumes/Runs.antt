-- ===== src/Volumes/Runs.antt =====
-- Runs of src/apfs_filesystems.rs: one path of two nodes in memory at 0x40.
use nextcore_efi.Common.{
  List, [], arith, err, get_or, if◌then◌else◌, length, ok, refl, true, ℕ, ◌%◌, ◌++◌, ◌+◌, ◌-◌, ◌==◌,
  ◌∷◌, ◌≡◌,
}
use nextcore_efi.Status.{success, bad_buffer_size}
use nextcore_efi.Hal.{bytes_at}
use nextcore_efi.Apfs.DevicePath.Nodes.{Node, encode_node, encode_nodes, end_node, IsPath}
use nextcore_efi.Volumes.{Protocol, opens, closes, open_protocol, gather, device_path}
use nextcore_efi.Volumes.Laws.{IsRead, device_path-IsRead}
use nextcore_efi.Volumes.Complete.{device_path-encode_nodes}

abbrev controller : Node
controller = record { kind = 1; sub = 1; payload = 0 ∷ 31 ∷ [] }

abbrev partition : Node
partition = record { kind = 4; sub = 1; payload = 9 ∷ [] }

abbrev path_bytes : List ℕ
path_bytes = 1 ∷ 1 ∷ 6 ∷ 0 ∷ 0 ∷ 31 ∷ 4 ∷ 1 ∷ 5 ∷ 0 ∷ 9 ∷ 0x7f ∷ 0xff ∷ 4 ∷ 0 ∷ []

abbrev memory : ℕ → ℕ
memory at = get_or path_bytes (at - 0x40) 0xee

-- Memory without an end node.
abbrev endless : ℕ → ℕ
endless at = if at % 4 == 2 then 4 else 0

abbrev live : Protocol
live = record {
  has_services = true;
  open_status = success;
  interface = 0x40;
  still_services = true;
  close_status = success;
}

two_nodes-IsPath : IsPath (controller ∷ partition ∷ [])
unfolding encode_nodes encode_node
two_nodes-IsPath = omega arith

in_memory :
    bytes_at memory 0x40 (length (encode_nodes (controller ∷ partition ∷ [])) + 4)
    ≡ encode_nodes (controller ∷ partition ∷ []) ++ end_node
unfolding encode_nodes encode_node
in_memory = refl

device_path-encode_nodes_example :
    device_path true live memory
    ≡ (ok (encode_nodes (controller ∷ partition ∷ []) ++ end_node), opens ∷ closes ∷ [])
device_path-encode_nodes_example =
    device_path-encode_nodes live memory (controller ∷ partition ∷ []) two_nodes-IsPath refl refl
      (λ h. absurd (omega (arith, h))) refl refl in_memory

endless_run : device_path true live endless ≡ (err bad_buffer_size, opens ∷ closes ∷ [])
unfolding device_path open_protocol gather
endless_run = refl

device_path-IsRead_example : IsRead live endless (device_path true live endless)
device_path-IsRead_example = device_path-IsRead live endless true
