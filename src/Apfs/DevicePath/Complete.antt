-- ===== src/Apfs/DevicePath/Complete.antt =====
-- `path_body` of src/apfs_observation.rs on the bytes of a list of nodes.
use native.Mathlib.Nat.{zero-add}
use nextcore_efi.Common.Bytes.{le16}
use mathlib.Core.List.{append_assoc}
use nextcore_efi.Apfs.Invalid.{Invalid}
use nextcore_efi.Common.{
  All, IsU16, List, Result, [], ap, arith, drop, drop-append, length, length-append, ok, suc, take,
  take-append, zero, ℕ, ◌%◌, ◌++◌, ◌+◌, ◌/◌, ◌<◌, ◌∙◌, ◌∷◌, ◌≡◌, ◌≢◌, ◌≤◌,
}
use nextcore_efi.Apfs.DevicePath.{max_nodes, body_node, body_loop, path_body}
use nextcore_efi.Apfs.DevicePath.Nodes.{
  Node, IsNode, encode_node, encode_nodes, end_node, IsPath, length-encode_node,
}

le16-len : (m : ℕ) → IsU16 (4 + m) → le16 ((4 + m) % 256) ((4 + m) / 256) ≡ suc (suc (suc (suc m)))
le16-len m h = omega arith

-- A round at a node that fits answers what follows.
body_node-next :
    (kind sub len avail : ℕ) (path : List ℕ) (offset : ℕ) (next : Result Invalid (List ℕ))
    → kind ≢ 0x7f
    → 4 ≤ len
    → len ≤ avail
    → body_node kind sub len avail path offset next ≡ next
unfolding body_node
body_node-next kind sub len avail path offset next k lo hi = ground arith

drop-encode_node :
    (n : Node) (rest : List ℕ) → drop (length (encode_node n)) (encode_node n ++ rest) ≡ rest
drop-encode_node n rest = drop-append (encode_node n) rest

-- The loop steps over an encoded node.
body_loop-node :
    (left : ℕ) (path : List ℕ) (offset : ℕ) (n : Node) (rest : List ℕ)
    → IsNode n
    → body_loop (suc left) path offset (encode_node n ++ rest)
      ≡ body_loop left path (offset + length (encode_node n)) rest
unfolding body_loop encode_node
body_loop-node left path offset n rest v = rw (le16-len (length n.payload) v.len_u16) (
    body_node-next n.kind n.sub _ _ path offset _ v.kind_not_end (omega arith)
      (omega (arith, length-append n.payload rest))
    ∙ ap (body_loop left path (offset + length (encode_node n))) (drop-encode_node n rest))

body_loop-end :
    (left : ℕ) (path : List ℕ) (offset : ℕ)
    → 0 < offset
    → length path ≡ offset + 4
    → body_loop (suc left) path offset end_node ≡ ok (take offset path)
unfolding body_loop body_node
body_loop-end left path offset h e = ground arith

body_loop-encode_nodes :
    (ns : List Node) (left : ℕ) (path : List ℕ) (offset : ℕ)
    → All IsNode ns
    → length ns < left
    → 0 < offset + length ns
    → length path ≡ offset + length (encode_nodes ns) + 4
    → body_loop left path offset (encode_nodes ns ++ end_node)
      ≡ ok (take (offset + length (encode_nodes ns)) path)
unfolding encode_nodes
body_loop-encode_nodes ns zero path offset v few some_node e = absurd (omega arith)
body_loop-encode_nodes [] (suc left) path offset v few some_node e =
    let off : offset + 0 ≡ offset = omega arith in
    rw off (body_loop-end left path offset (omega arith) (omega arith))
body_loop-encode_nodes (n ∷ ns) (suc left) path offset v few some_node e =
    let split = length-append (encode_node n) (encode_nodes ns) in
    let there = offset + length (encode_node n) in
    let same : offset + length (encode_node n ++ encode_nodes ns)
        ≡ there + length (encode_nodes ns) =
      omega (arith, split) in
    let ih =
      body_loop-encode_nodes ns left path there v.1 (omega arith)
        (omega (arith, length-encode_node n)) (omega (arith, split)) in
    rw (append_assoc, body_loop-node left path offset n (encode_nodes ns ++ end_node) v.0, same) ih

-- `path_body` accepts the bytes of one to 63 well-formed nodes and an end node, 2048 bytes at most,
-- and answers the bytes of the nodes.
pub path_body-encode_nodes :
    (ns : List Node) → IsPath ns → path_body (encode_nodes ns ++ end_node) ≡ ok (encode_nodes ns)
unfolding path_body
path_body-encode_nodes ns v =
    let total = length-append (encode_nodes ns) end_node in
    let run =
      body_loop-encode_nodes ns max_nodes (encode_nodes ns ++ end_node) 0 v.valid v.few
        (omega (arith, v.nonempty)) (omega (arith, total)) in
    let body : take (length (encode_nodes ns)) (encode_nodes ns ++ end_node) ≡ encode_nodes ns =
      take-append (encode_nodes ns) end_node in
    ground (arith, v.short, total, run, body, zero-add (length (encode_nodes ns)))
