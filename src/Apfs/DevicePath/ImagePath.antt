-- ===== src/Apfs/DevicePath/ImagePath.antt =====
-- `image_path` of src/apfs_observation.rs against the nodes of a device path.
use mathlib.Core.List.{append-nil, append_assoc}
use nextcore_efi.Common.Bytes.{units_bytes, le16_bytes, length-units_bytes, units_bytes-IsByte}
use nextcore_efi.Common.{
  All, All-append, Bool, IsU16, List, [], any, ap, arith, false, length, length-append, ltb, ok,
  refl, sym, true, ℕ, ◌*◌, ◌++◌, ◌+◌, ◌<◌, ◌==◌, ◌||◌, ◌∙◌, ◌∷◌, ◌≡◌, ◌≤◌,
}
use nextcore_efi.Apfs.DevicePath.{
  path_body, descendant, encode_utf16, bad_image_path, is_control, image_path,
}
use nextcore_efi.Apfs.DevicePath.Nodes.{
  Node, IsNode, encode_node, encode_nodes, end_node, IsPath, length-encode_node,
}
use nextcore_efi.Apfs.DevicePath.Complete.{path_body-encode_nodes}
use nextcore_efi.Apfs.DevicePath.Descendant.{descendant_iff, encode_nodes-append}

-- On the code points that `image_path` lets through, UTF-16 has one unit each.
encode_utf16-bmp :
    (cs : List ℕ)
    → any (λ c. is_control c || ltb 0xffff c || c == 0x2f) cs ≡ false
    → encode_utf16 cs ≡ cs
unfolding encode_utf16
encode_utf16-bmp [] h = refl
encode_utf16-bmp (c ∷ cs) h = ground (arith, encode_utf16-bmp cs)

-- The node that is appended.
abbrev pub file_node : List ℕ → Node
file_node path = record { kind = 4; sub = 4; payload = units_bytes (path ++ (0 ∷ [])) }

bmp-IsU16 :
    (cs : List ℕ) → any (λ c. is_control c || ltb 0xffff c || c == 0x2f) cs ≡ false → All IsU16 cs
bmp-IsU16 [] h = tt
bmp-IsU16 (c ∷ cs) h = (ground arith, bmp-IsU16 cs (ground arith))

length-file_node :
    (path : List ℕ) → length (encode_node (file_node path)) ≡ (length path + 1) * 2 + 4
length-file_node path = omega (
  arith,
  length-encode_node (file_node path),
  length-units_bytes (path ++ (0 ∷ [])),
  length-append path (0 ∷ []),
)

file_node-IsNode :
    (path : List ℕ) → All IsU16 path → (length path + 1) * 2 + 4 ≤ 0xffff → IsNode (file_node path)
file_node-IsNode path u h = record {
  kind_byte = omega arith;
  kind_not_end = omega arith;
  sub_byte = omega arith;
  payload_bytes =
      units_bytes-IsByte (path ++ (0 ∷ [])) (All-append IsU16 path (0 ∷ []) u (omega arith, tt));
  len_u16 = omega (arith, length-units_bytes (path ++ (0 ∷ [])), length-append path (0 ∷ []));
}

file_node_head :
    (path : List ℕ)
    → (length path + 1) * 2 + 4 ≤ 0xffff
    → (4 ∷ 4 ∷ le16_bytes ((length path + 1) * 2 + 4))
        ++ (units_bytes (path ++ (0 ∷ [])) ++ end_node)
      ≡ encode_node (file_node path) ++ end_node
unfolding encode_node
file_node_head path h =
    let len : length (units_bytes (path ++ (0 ∷ []))) ≡ (length path + 1) * 2 =
      omega (arith, length-units_bytes (path ++ (0 ∷ [])), length-append path (0 ∷ [])) in
    ground (arith, len)

encode_nodes-snoc :
    (ns : List Node) (n : Node)
    → encode_nodes (ns ++ (n ∷ [])) ++ end_node ≡ encode_nodes ns ++ (encode_node n ++ end_node)
unfolding encode_nodes
encode_nodes-snoc ns n = rw (encode_nodes-append ns (n ∷ [])) (simp (append-nil, append_assoc))

-- The bytes that `image_path` builds, as nodes.
file_node_bytes :
    (ns : List Node) (path : List ℕ)
    → (length path + 1) * 2 + 4 ≤ 0xffff
    → encode_nodes ns
        ++ ((4 ∷ 4 ∷ le16_bytes ((length path + 1) * 2 + 4))
            ++ (units_bytes (path ++ (0 ∷ [])) ++ end_node))
      ≡ encode_nodes (ns ++ (file_node path ∷ [])) ++ end_node
file_node_bytes ns path h =
    ap (λ t. encode_nodes ns ++ t) (file_node_head path h)
    ∙ sym (encode_nodes-snoc ns (file_node path))

-- What a success of `image_path` says of its guards.
image_path_ok :
    (reserve : ℕ → Bool) (volume body path bytes : List ℕ)
    → path_body volume ≡ ok body
    → image_path reserve volume path ≡ ok bytes
    → let units = encode_utf16 path ++ (0 ∷ []) in
      (bad_image_path path ≡ false)
      × (length units * 2 + 4 ≤ 0xffff)
      × (length body + (length units * 2 + 4) + 4 ≤ 8192)
      × (bytes
          ≡ body
            ++ ((4 ∷ 4 ∷ le16_bytes (length units * 2 + 4)) ++ (units_bytes units ++ end_node)))
unfolding image_path
image_path_ok reserve volume body path bytes p e = ground arith

any_of_good :
    (path : List ℕ)
    → bad_image_path path ≡ false
    → any (λ c. is_control c || ltb 0xffff c || c == 0x2f) path ≡ false
unfolding bad_image_path
any_of_good path h = ground arith

length-snoc {ℓ} : {A : Type ℓ} (xs : List A) (x : A) → length (xs ++ (x ∷ [])) ≡ length xs + 1
length-snoc xs x = omega (arith, length-append xs (x ∷ []))

-- When `image_path` succeeds on the path of `ns`, it has appended one MEDIA_FILEPATH node with the
-- text in UTF-16 and a closing zero, the node is well formed, and the whole has 8192 bytes at most.
pub image_path-file_node :
    (reserve : ℕ → Bool) (ns : List Node) (path bytes : List ℕ)
    → IsPath ns
    → image_path reserve (encode_nodes ns ++ end_node) path ≡ ok bytes
    → (bytes ≡ encode_nodes (ns ++ (file_node path ∷ [])) ++ end_node)
      × IsNode (file_node path)
      × (length bytes ≤ 8192)
image_path-file_node reserve ns path bytes v e =
    let volume = encode_nodes ns ++ end_node in
    let (good, len, total, eq) =
      image_path_ok reserve volume (encode_nodes ns) path bytes (path_body-encode_nodes ns v) e in
    let bmp = any_of_good path good in
    let same = encode_utf16-bmp path bmp in
    let count : length (encode_utf16 path ++ (0 ∷ [])) ≡ length path + 1 =
      ap (λ u. length (u ++ (0 ∷ []))) same ∙ length-snoc path 0 in
    let fits : (length path + 1) * 2 + 4 ≤ 0xffff = omega arith in
    let shape : bytes ≡ encode_nodes (ns ++ (file_node path ∷ [])) ++ end_node =
      eq ∙ rw (count, same) (file_node_bytes ns path fits) in
    (
      shape,
      file_node-IsNode path (bmp-IsU16 path bmp) fits,
      omega (
        arith,
        ap length (shape ∙ encode_nodes-snoc ns (file_node path)),
        length-append (encode_nodes ns) (encode_node (file_node path) ++ end_node),
        length-append (encode_node (file_node path)) end_node,
        length-file_node path,
      ),
    )

-- The path that `image_path` builds is below the volume for `descendant`, if it keeps within the
-- bounds of `path_body`: 63 nodes and 2048 bytes.
pub descendant-image_path :
    (reserve : ℕ → Bool) (ns : List Node) (path bytes : List ℕ)
    → IsPath ns
    → length ns < 63
    → image_path reserve (encode_nodes ns ++ end_node) path ≡ ok bytes
    → length bytes ≤ 2048
    → descendant (encode_nodes ns ++ end_node) bytes ≡ ok true
descendant-image_path reserve ns path bytes v few e short =
    let (shape, node, _) = image_path-file_node reserve ns path bytes v e in
    let whole : IsPath (ns ++ (file_node path ∷ [])) = record {
      valid = All-append IsNode ns (file_node path ∷ []) v.valid (node, tt);
      nonempty = omega (arith, length-snoc ns (file_node path));
      few = omega (arith, length-snoc ns (file_node path));
      short = omega (
        arith,
        ap length shape,
        length-append (encode_nodes (ns ++ (file_node path ∷ []))) end_node,
      );
    } in
    rw shape
      ((descendant_iff ns (ns ++ (file_node path ∷ [])) v whole).1 (file_node path, [], refl))
