-- ===== src/Volumes/Complete.antt =====
-- `device_path` of src/apfs_filesystems.rs on a well-formed path in memory.
use mathlib.Core.List.{append_assoc}
use nextcore_efi.Common.{
  ==_iff, All, Bool-cases, List, [], ap, arith, drop, false, get_or, inl, inr, length,
  length-append, ltb, ok, refl, suc, sym, true, zero, ℕ, ◌%◌, ◌++◌, ◌+◌, ◌/◌, ◌<◌, ◌==◌, ◌∙◌, ◌∷◌,
  ◌≡◌, ◌≢◌, ◌≤◌,
}
use nextcore_efi.Common.Bytes.{le16}
use nextcore_efi.Status.{success, is_success}
use nextcore_efi.Hal.{bytes_at}
use nextcore_efi.Apfs.DevicePath.{max_path, max_nodes}
use nextcore_efi.Apfs.DevicePath.Nodes.{
  Node, IsNode, IsPath, encode_node, encode_nodes, end_node, length-encode_node,
}
use nextcore_efi.Apfs.DevicePath.Complete.{path_body-encode_nodes}
use nextcore_efi.Volumes.{
  opens, closes, Protocol, close_active, with_interface, with_opened, with_boot, open_protocol,
  finish, bad_node, gather_node, gather, behind_close, with_open, device_path,
}
use nextcore_efi.Volumes.Laws.{length-bytes_at}

bytes_at-cons :
    (memory : ℕ → ℕ) (at n x : ℕ) (xs : List ℕ)
    → bytes_at memory at n ≡ x ∷ xs
    → (memory at ≡ x) × (bytes_at memory (at + 1) (length xs) ≡ xs)
bytes_at-cons memory at zero x xs h = absurd (omega (arith, ap length h))
bytes_at-cons memory at (suc n) x xs h =
    let tail : bytes_at memory (at + 1) n ≡ xs = ap (drop 1) h in
    let size : length xs ≡ n = sym (ap length tail) ∙ length-bytes_at memory (at + 1) n in
    (ap (λ l. get_or l 0 0) h, ap (bytes_at memory (at + 1)) size ∙ tail)

bytes_at-append :
    (memory : ℕ → ℕ) (at n : ℕ) (xs ys : List ℕ)
    → bytes_at memory at n ≡ xs ++ ys
    → (bytes_at memory at (length xs) ≡ xs) × (bytes_at memory (at + length xs) (length ys) ≡ ys)
bytes_at-append memory at n [] ys h =
    let size : length ys ≡ n = sym (ap length h) ∙ length-bytes_at memory at n in
    (refl, ap (λ a. bytes_at memory a (length ys)) (omega arith) ∙ ap (bytes_at memory at) size ∙ h)
bytes_at-append memory at n (x ∷ xs) ys h =
    let (head, rest) = bytes_at-cons memory at n x (xs ++ ys) h in
    let (first, others) = bytes_at-append memory (at + 1) (length (xs ++ ys)) xs ys rest in
    (rw (head, first) refl, ap (λ a. bytes_at memory a (length ys)) (omega arith) ∙ others)

-- The first four bytes of a node.
header :
    (memory : ℕ → ℕ) (at n a b c d : ℕ) (rest : List ℕ)
    → bytes_at memory at n ≡ a ∷ b ∷ c ∷ d ∷ rest
    → (memory at ≡ a) × (memory (at + 2) ≡ c) × (memory (at + 3) ≡ d)
header memory at n a b c d rest h =
    let (h0, k0) = bytes_at-cons memory at n a (b ∷ c ∷ d ∷ rest) h in
    let (h1, k1) = bytes_at-cons memory (at + 1) (length (b ∷ c ∷ d ∷ rest)) b (c ∷ d ∷ rest) k0 in
    let (h2, k2) = bytes_at-cons memory (at + 1 + 1) (length (c ∷ d ∷ rest)) c (d ∷ rest) k1 in
    let (h3, k3) = bytes_at-cons memory (at + 1 + 1 + 1) (length (d ∷ rest)) d rest k2 in
    (h0, ap memory (omega arith) ∙ h2, ap memory (omega arith) ∙ h3)

-- A round that copies `piece`, of which `kind`, `lo` and `hi` are the bytes that it looks at.
gather_step :
    (memory : ℕ → ℕ) (base left : ℕ) (bytes piece : List ℕ) (kind lo hi : ℕ)
    → memory (base + length bytes) ≡ kind
    → memory (base + length bytes + 2) ≡ lo
    → memory (base + length bytes + 3) ≡ hi
    → le16 lo hi ≡ length piece
    → 4 ≤ length piece
    → length bytes + length piece ≤ max_path
    → bytes_at memory (base + length bytes) (length piece) ≡ piece
    → gather memory base (suc left) bytes
      ≡ gather_node false false
          (kind == 0x7f)
          (bytes ++ piece)
          (gather memory base left (bytes ++ piece))
unfolding gather
gather_step memory base left bytes piece kind lo hi k l h size four fits copied =
    let offset = length bytes in
    let room : ltb max_path (offset + 4) ≡ false = ground arith in
    let good : bad_node offset (length piece) ≡ false = ground arith in
    let len : le16 (memory (base + offset + 2)) (memory (base + offset + 3)) ≡ length piece =
      rw (l, h) size in
    rw (len, k, room, good, copied) refl

not_end : (n : Node) → IsNode n → (n.kind == 0x7f) ≡ false
not_end n v = elim (Bool-cases (n.kind == 0x7f)) [
  | inl is_end ↦ absurd (v.kind_not_end ((==_iff n.kind 0x7f).0 is_end))
  | inr other ↦ other
]

node_header :
    (memory : ℕ → ℕ) (at n : ℕ) (node : Node) (rest : List ℕ)
    → bytes_at memory at n ≡ encode_node node ++ rest
    → (memory at ≡ node.kind)
      × (memory (at + 2) ≡ (4 + length node.payload) % 256)
      × (memory (at + 3) ≡ (4 + length node.payload) / 256)
unfolding encode_node
node_header memory at n node rest h =
    header memory at n node.kind node.sub ((4 + length node.payload) % 256)
      ((4 + length node.payload) / 256) (node.payload ++ rest) h

gather-encode_nodes :
    (memory : ℕ → ℕ) (base left : ℕ) (ns : List Node) (bytes : List ℕ) (n : ℕ)
    → All IsNode ns
    → length ns < left
    → length bytes + length (encode_nodes ns) + 4 ≤ max_path
    → bytes_at memory (base + length bytes) n ≡ encode_nodes ns ++ end_node
    → gather memory base left bytes ≡ finish (bytes ++ (encode_nodes ns ++ end_node))
unfolding encode_nodes
gather-encode_nodes memory base zero ns bytes n v few short there = absurd (omega arith)
gather-encode_nodes memory base (suc left) [] bytes n v few short there =
    let (k, l, h) = header memory (base + length bytes) n 0x7f 0xff 4 0 [] there in
    let size : length end_node ≡ n =
      sym (ap length there) ∙ length-bytes_at memory (base + length bytes) n in
    gather_step memory base left bytes end_node 0x7f 4 0 k l h (omega arith) (omega arith)
      (omega arith) (ap (bytes_at memory (base + length bytes)) size ∙ there)
gather-encode_nodes memory base (suc left) (node ∷ ns) bytes n v few short there =
    let piece = encode_node node in
    let rest = encode_nodes ns ++ end_node in
    let there' : bytes_at memory (base + length bytes) n ≡ piece ++ rest =
      there ∙ append_assoc piece (encode_nodes ns) end_node in
    let (copied, later) = bytes_at-append memory (base + length bytes) n piece rest there' in
    let (k, l, h) = node_header memory (base + length bytes) n node rest there' in
    let size = length-encode_node node in
    let total = length-append piece (encode_nodes ns) in
    let other : (node.kind == 0x7f) ≡ false = not_end node v.0 in
    let place : base + length bytes + length piece ≡ base + length (bytes ++ piece) =
      omega (arith, length-append bytes piece) in
    gather_step memory base left bytes piece node.kind ((4 + length node.payload) % 256)
      ((4 + length node.payload) / 256) k l h (omega (arith, size)) (omega (arith, size))
      (omega (arith, short, total)) copied
    ∙ ap
        (λ b. gather_node false false b (bytes ++ piece) (gather memory base left (bytes ++ piece)))
        other
    ∙ gather-encode_nodes memory base left ns (bytes ++ piece) (length rest) v.1
        (omega (arith, few)) (omega (arith, short, total, length-append bytes piece))
        (ap (λ a. bytes_at memory a (length rest)) (sym place) ∙ later)
    ∙ ap finish (
        append_assoc bytes piece rest
        ∙ ap (λ r. bytes ++ r) (sym (append_assoc piece (encode_nodes ns) end_node)))

finish_path :
    (ns : List Node)
    → IsPath ns
    → finish (encode_nodes ns ++ end_node) ≡ ok (encode_nodes ns ++ end_node)
finish_path ns path = rw (path_body-encode_nodes ns path) refl

not_null : (n : ℕ) → n ≢ 0 → (n == 0) ≡ false
not_null zero h = absurd (h refl)
not_null (suc n) h = ground arith

-- A well-formed path in memory is answered whole, with its end node and nothing of what stands behind
-- it, if the protocol opens at its address and closes and the buffer can be reserved; the protocol is
-- opened and closed once.
pub device_path-encode_nodes :
    (p : Protocol) (memory : ℕ → ℕ) (ns : List Node)
    → IsPath ns
    → p.has_services ≡ true
    → p.open_status ≡ success
    → p.interface ≢ 0
    → p.still_services ≡ true
    → p.close_status ≡ success
    → bytes_at memory p.interface (length (encode_nodes ns) + 4) ≡ encode_nodes ns ++ end_node
    → device_path true p memory ≡ (ok (encode_nodes ns ++ end_node), opens ∷ closes ∷ [])
unfolding device_path open_protocol
device_path-encode_nodes p memory ns path live opened there still closed held =
    let bytes = encode_nodes ns ++ end_node in
    let result = gather memory p.interface max_nodes [] in
    let whole : result ≡ ok bytes =
      gather-encode_nodes memory p.interface max_nodes ns [] (length (encode_nodes ns) + 4)
        path.valid path.few (omega (arith, path.short))
        (ap (λ a. bytes_at memory a (length (encode_nodes ns) + 4)) (omega arith) ∙ held)
      ∙ finish_path ns path in
    ap (λ b. with_open p result (with_boot p b)) live
    ∙ ap (λ b. with_open p result (with_opened p b)) (ap is_success opened)
    ∙ ap (λ b. with_open p result (with_interface p b)) (not_null p.interface there)
    ∙ ap (λ b. behind_close result (close_active b p.close_status)) still
    ∙ ap (λ s. behind_close result (close_active true s)) closed
    ∙ ap (λ r. (r, opens ∷ closes ∷ [])) whole
