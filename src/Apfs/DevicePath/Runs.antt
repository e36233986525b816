-- ===== src/Apfs/DevicePath/Runs.antt =====
-- Runs on small paths, and the theorems at concrete inputs.
use nextcore_efi.Common.Bytes.{units_bytes}
use nextcore_efi.Apfs.Invalid.{Invalid}
use nextcore_efi.Common.{Bool, List, [], arith, err, ok, refl, true, ℕ, ◌++◌, ◌↔◌, ◌∷◌, ◌≡◌}
use nextcore_efi.Apfs.DevicePath.{
  path_body, body_loop, body_node, descendant, encode_utf16, split_first, bad_image_path,
  image_path,
}
use nextcore_efi.Apfs.DevicePath.Nodes.{Node, encode_node, encode_nodes, end_node, IsPath}
use nextcore_efi.Apfs.DevicePath.Complete.{path_body-encode_nodes}
use nextcore_efi.Apfs.DevicePath.Sound.{Parsed, path_body-Parsed}
use nextcore_efi.Apfs.DevicePath.Descendant.{IsBelow, descendant_iff}

abbrev disk : Node
disk = record { kind = 4; sub = 1; payload = 7 ∷ 8 ∷ [] }

abbrev disk_path : List ℕ
disk_path = 4 ∷ 1 ∷ 6 ∷ 0 ∷ 7 ∷ 8 ∷ 0x7f ∷ 0xff ∷ 4 ∷ 0 ∷ []

abbrev file_text : List ℕ
file_text = 0x5c ∷ 0x41 ∷ []

abbrev granted : ℕ → Bool
granted n = true

disk-IsPath : IsPath (disk ∷ [])
unfolding encode_nodes encode_node
disk-IsPath = omega arith

path_body_run : path_body disk_path ≡ ok (4 ∷ 1 ∷ 6 ∷ 0 ∷ 7 ∷ 8 ∷ [])
unfolding path_body body_loop body_node
path_body_run = refl

-- A node that is shorter than its header, and a path with no node before the end node, are refused.
path_body_short : path_body (4 ∷ 1 ∷ 3 ∷ 0 ∷ 0x7f ∷ 0xff ∷ 4 ∷ 0 ∷ []) ≡ err Invalid.path
unfolding path_body body_loop body_node
path_body_short = refl

path_body_empty : path_body (0x7f ∷ 0xff ∷ 4 ∷ 0 ∷ []) ≡ err Invalid.path
unfolding path_body body_loop body_node
path_body_empty = refl

image_path_run :
    image_path granted disk_path file_text
    ≡ ok (
        4 ∷ 1 ∷ 6 ∷ 0 ∷ 7 ∷ 8 ∷ 4 ∷ 4 ∷ 10 ∷ 0 ∷ 0x5c ∷ 0 ∷ 0x41 ∷ 0 ∷ 0 ∷ 0 ∷ 0x7f ∷ 0xff ∷ 4 ∷ 0
        ∷ [])
unfolding image_path path_body body_loop body_node bad_image_path encode_utf16 split_first
    units_bytes
image_path_run = refl

image_path_dots : image_path granted disk_path (0x5c ∷ 0x2e ∷ 0x2e ∷ []) ≡ err Invalid.path
unfolding image_path path_body body_loop body_node bad_image_path encode_utf16 split_first
    units_bytes
image_path_dots = refl

path_body-encode_nodes_example :
    path_body (encode_nodes (disk ∷ []) ++ end_node) ≡ ok (encode_nodes (disk ∷ []))
path_body-encode_nodes_example = path_body-encode_nodes (disk ∷ []) disk-IsPath

path_body-Parsed_example : Parsed disk_path (4 ∷ 1 ∷ 6 ∷ 0 ∷ 7 ∷ 8 ∷ [])
path_body-Parsed_example =
    path_body-Parsed disk_path (4 ∷ 1 ∷ 6 ∷ 0 ∷ 7 ∷ 8 ∷ []) (omega arith) path_body_run

descendant_iff_example :
    (descendant (encode_nodes (disk ∷ []) ++ end_node) (encode_nodes (disk ∷ []) ++ end_node)
      ≡ ok true)
    ↔ IsBelow (disk ∷ []) (disk ∷ [])
descendant_iff_example = descendant_iff (disk ∷ []) (disk ∷ []) disk-IsPath disk-IsPath

abbrev joined : List ℕ
joined =
    4 ∷ 1 ∷ 6 ∷ 0 ∷ 7 ∷ 8 ∷ 4 ∷ 4 ∷ 10 ∷ 0 ∷ 0x5c ∷ 0 ∷ 0x41 ∷ 0 ∷ 0 ∷ 0 ∷ 0x7f ∷ 0xff ∷ 4 ∷ 0 ∷ []
