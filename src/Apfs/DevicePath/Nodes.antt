-- ===== src/Apfs/DevicePath/Nodes.antt =====
-- The UEFI view of a device path: a list of nodes, each a kind, a subtype and a payload, and the
-- bytes that stand for it. `path_body` accepts exactly these bytes.
use nextcore_efi.Common.{
  All, IsByte, IsU16, List, [], arith, length, ℕ, ◌%◌, ◌++◌, ◌+◌, ◌/◌, ◌<◌, ◌∷◌, ◌≡◌, ◌≢◌, ◌≤◌,
}
use nextcore_efi.Apfs.DevicePath.{max_path, max_nodes}

pub record Node : Type 0 where
  pub kind : ℕ
  pub sub : ℕ
  pub payload : List ℕ

-- A node that a path may hold: bytes, no end node, and a length that fits sixteen bits.
pub record IsNode (n : Node) : Type 0 where
  pub kind_byte : IsByte n.kind
  pub kind_not_end : n.kind ≢ 0x7f
  pub sub_byte : IsByte n.sub
  pub payload_bytes : All IsByte n.payload
  pub len_u16 : IsU16 (4 + length n.payload)

unfoldable pub encode_node : Node → List ℕ
encode_node n = let len = 4 + length n.payload in n.kind ∷ n.sub ∷ len % 256 ∷ len / 256 ∷ n.payload

unfoldable pub encode_nodes : List Node → List ℕ
encode_nodes [] = []
encode_nodes (n ∷ ns) = encode_node n ++ encode_nodes ns

-- END_ENTIRE_DEVICE_PATH
abbrev pub end_node : List ℕ
end_node = 0x7f ∷ 0xff ∷ 4 ∷ 0 ∷ []

-- What makes a list of nodes one device path within the program's bounds.
pub record IsPath (ns : List Node) : Type 0 where
  pub valid : All IsNode ns
  pub nonempty : 0 < length ns
  pub few : length ns < max_nodes
  pub short : length (encode_nodes ns) + 4 ≤ max_path

pub length-encode_node : (n : Node) → length (encode_node n) ≡ 4 + length n.payload
unfolding encode_node
length-encode_node n = omega arith
