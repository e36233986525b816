-- ===== src/Apfs/DevicePath/Sound.antt =====
-- `path_body` of src/apfs_observation.rs: from an accepted path to its nodes.
use nextcore_efi.Common.Bytes.{le16}
use mathlib.Core.List.{append-nil, append_assoc}
use nextcore_efi.Apfs.Invalid.{Invalid}
use nextcore_efi.Common.{
  All, All-drop, All-take, Bool-cases, IsByte, IsU16, List, Result, [], ap, arith, drop, inl, inr,
  length, length-append, length-take, ltb, ltb→le, ok, refl, subst, suc, sym, take, take-append,
  take-append-drop, zero, ℕ, ◌++◌, ◌+◌, ◌-◌, ◌<◌, ◌∙◌, ◌∷◌, ◌≡◌, ◌≢◌, ◌≤◌, ◌⊎◌,
}
use nextcore_efi.Apfs.DevicePath.{max_path, max_nodes, body_node, body_loop, path_body}
use nextcore_efi.Apfs.DevicePath.Nodes.{Node, IsNode, encode_node, encode_nodes, end_node, IsPath}

-- Bytes that a successful round read: a node, or the end node at the end of the path.
record Accepts (left : ℕ) (pre rest body : List ℕ) : Type 0 where
  nodes : List Node
  valid : All IsNode nodes
  few : length nodes < left
  rest_eq : rest ≡ encode_nodes nodes ++ end_node
  body_eq : body ≡ pre ++ encode_nodes nodes
  nonempty : 0 < length body

body_node-cases :
    (kind sub len avail : ℕ) (path : List ℕ) (offset : ℕ) (next : Result Invalid (List ℕ))
    (body : List ℕ)
    → body_node kind sub len avail path offset next ≡ ok body
    → (4 ≤ len)
      × (len ≤ avail)
      × (((kind ≢ 0x7f) × (next ≡ ok body))
          ⊎ ((kind ≡ 0x7f)
              × (sub ≡ 0xff)
              × (len ≡ 4)
              × (offset + 4 ≡ length path)
              × (0 < offset)
              × (body ≡ take offset path)))
unfolding body_node
body_node-cases kind sub len avail path offset next body e = ground arith

take_node : ℕ → ℕ → ℕ → List ℕ → Node
take_node kind sub m tail = record { kind = kind; sub = sub; payload = take m tail }

-- A header with enough bytes behind it is an encoded node, followed by what `drop` leaves.
take_node_lem :
    (kind sub lo hi m : ℕ) (tail : List ℕ)
    → IsByte lo
    → IsByte hi
    → le16 lo hi ≡ suc (suc (suc (suc m)))
    → m ≤ length tail
    → kind ∷ sub ∷ lo ∷ hi ∷ tail ≡ encode_node (take_node kind sub m tail) ++ drop m tail
unfolding encode_node take_node
take_node_lem kind sub lo hi m tail bl bh e fits =
    let taken : length (take m tail) ≡ m = omega (arith, length-take m tail) in
    ground (arith, take-append-drop m tail, taken)

take_node-IsNode :
    (kind sub m : ℕ) (tail : List ℕ)
    → IsByte kind
    → kind ≢ 0x7f
    → IsByte sub
    → All IsByte tail
    → m ≤ length tail
    → IsU16 (4 + m)
    → IsNode (take_node kind sub m tail)
unfolding take_node
take_node-IsNode kind sub m tail bk k bs bt fits u = record {
  kind_byte = bk;
  kind_not_end = k;
  sub_byte = bs;
  payload_bytes = All-take IsByte m tail bt;
  len_u16 = omega (arith, length-take m tail);
}

length-take_node :
    (kind sub m : ℕ) (tail : List ℕ)
    → m ≤ length tail
    → length (encode_node (take_node kind sub m tail)) ≡ 4 + m
unfolding take_node encode_node
length-take_node kind sub m tail fits = omega (arith, length-take m tail)

Accepts-cons :
    (left : ℕ) (pre rest body : List ℕ) (n : Node) (here : List ℕ)
    → IsNode n
    → here ≡ encode_node n ++ rest
    → Accepts left (pre ++ encode_node n) rest body
    → Accepts (suc left) pre here body
unfolding encode_nodes
Accepts-cons left pre rest body n here v e a = record {
  nodes = n ∷ a.nodes;
  valid = (v, a.valid);
  few = omega (arith, a.few);
  rest_eq = e ∙ rw (a.rest_eq, append_assoc) refl;
  body_eq = a.body_eq ∙ append_assoc pre (encode_node n) (encode_nodes a.nodes);
  nonempty = a.nonempty;
}

-- `take` at the end of a prefix, where the offset is its length.
take-length :
    (path pre rest : List ℕ) (offset : ℕ)
    → path ≡ pre ++ rest
    → offset ≡ length pre
    → take offset path ≡ pre
take-length path pre rest offset e o = rw (e, o) (take-append pre rest)

Accepts-end :
    (left : ℕ) (path pre : List ℕ) (offset k s lo hi : ℕ) (tail body : List ℕ)
    → path ≡ pre ++ (k ∷ s ∷ lo ∷ hi ∷ tail)
    → offset ≡ length pre
    → k ≡ 0x7f
    → s ≡ 0xff
    → le16 lo hi ≡ 4
    → offset + 4 ≡ length path
    → 0 < offset
    → IsByte lo
    → body ≡ take offset path
    → Accepts (suc left) pre (k ∷ s ∷ lo ∷ hi ∷ tail) body
unfolding encode_nodes
Accepts-end left path pre offset k s lo hi [] body e o kk ss l full pos bl b = record {
  nodes = [];
  valid = tt;
  few = omega arith;
  rest_eq = ground arith;
  body_eq = b ∙ take-length path pre _ offset e o ∙ sym (append-nil pre);
  nonempty = rw (b, take-length path pre _ offset e o) (omega arith);
}
Accepts-end left path pre offset k s lo hi (x ∷ tail) body e o kk ss l full pos bl b =
    absurd (omega (arith, ap length e, length-append pre (k ∷ s ∷ lo ∷ hi ∷ x ∷ tail)))

-- Every successful run of the loop has read nodes and the end node.
body_loop-Accepts :
    (left : ℕ) (path : List ℕ) (offset : ℕ) (pre rest body : List ℕ)
    → path ≡ pre ++ rest
    → offset ≡ length pre
    → All IsByte rest
    → body_loop left path offset rest ≡ ok body
    → Accepts left pre rest body
unfolding body_loop
body_loop-Accepts zero path offset pre rest body e o b r = cc
body_loop-Accepts (suc left) path offset pre [] body e o b r = cc
body_loop-Accepts (suc left) path offset pre (k ∷ []) body e o b r = cc
body_loop-Accepts (suc left) path offset pre (k ∷ s ∷ []) body e o b r = cc
body_loop-Accepts (suc left) path offset pre (k ∷ s ∷ lo ∷ []) body e o b r = cc
body_loop-Accepts (suc left) path offset pre (k ∷ s ∷ lo ∷ hi ∷ tail) body e o b r =
    let len = le16 lo hi in
    let here = k ∷ s ∷ lo ∷ hi ∷ tail in
    let (four, fits, how) =
      body_node-cases k s len (length here) path offset
        (body_loop left path (offset + len) (drop len here)) body r in
    let m = len - 4 in
    let eq : len ≡ suc (suc (suc (suc m))) = omega arith in
    let node = take_node k s m tail in
    let shape : here ≡ encode_node node ++ drop m tail =
      take_node_lem k s lo hi m tail b.1.1.0 b.1.1.1.0 eq (omega arith) in
    let valid = λ (k' : k ≢ 0x7f).
      take_node-IsNode k s m tail b.0 k' b.1.0 b.1.1.1.1 (omega arith) (omega arith) in
    elim how [
      | inl (k', more) ↦ Accepts-cons left pre (drop m tail) body node here (valid k') shape (
          body_loop-Accepts left path (offset + len) (pre ++ encode_node node) (drop m tail) body
            (e ∙ ap (λ r. pre ++ r) shape ∙ sym (append_assoc pre (encode_node node) (drop m tail)))
            (omega (arith, length-append pre (encode_node node), length-take_node k s m tail))
            (All-drop IsByte m tail b.1.1.1.1)
            (sym (ap (λ d. body_loop left path (offset + len) (drop d here)) eq) ∙ more))
      | inr (k', s', l', full, pos, taken) ↦
          Accepts-end left path pre offset k s lo hi tail body e o k' s' l' full pos b.1.1.0 taken
    ]

nonempty-encode_nodes : (ns : List Node) → 0 < length (encode_nodes ns) → 0 < length ns
unfolding encode_nodes
nonempty-encode_nodes [] h = h
nonempty-encode_nodes (n ∷ ns) h = omega arith

-- The nodes that a successful `path_body` read.
pub record Parsed (path body : List ℕ) : Type 0 where
  pub nodes : List Node
  pub is_path : IsPath nodes
  pub path_eq : path ≡ encode_nodes nodes ++ end_node
  pub body_eq : body ≡ encode_nodes nodes

-- When `path_body` answers `body` for a path of bytes, the path is one to 63 well-formed nodes and an
-- end node, 2048 bytes at most, and `body` is the bytes of the nodes.
pub path_body-Parsed :
    (path body : List ℕ) → All IsByte path → path_body path ≡ ok body → Parsed path body
unfolding path_body encode_nodes
path_body-Parsed path body b e = elim (Bool-cases (ltb max_path (length path))) [
  | inl long ↦ absurd (ground arith)
  | inr short ↦
      let a = body_loop-Accepts max_nodes path 0 [] path body refl refl b (ground arith) in
      record {
        nodes = a.nodes;
        is_path = record {
          valid = a.valid;
          nonempty = nonempty-encode_nodes a.nodes (subst (λ l. 0 < length l) a.body_eq a.nonempty);
          few = a.few;
          short = omega (
            arith,
            ap length a.rest_eq,
            length-append (encode_nodes a.nodes) end_node,
            ltb→le max_path (length path) short,
          );
        };
        path_eq = a.rest_eq;
        body_eq = a.body_eq;
      }
]
