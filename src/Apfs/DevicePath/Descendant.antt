-- ===== src/Apfs/DevicePath/Descendant.antt =====
-- `descendant` of src/apfs_observation.rs against the nodes of two device paths.
use mathlib.Core.List.{append-nil, append_assoc}
use nextcore_efi.Common.{
  All, List, [], ap, arith, length, length-append, ltb, ok, refl, sym, true, ℕ, ◌&&◌, ◌++◌, ◌<◌,
  ◌↔◌, ◌∙◌, ◌∷◌, ◌≡◌,
}
use nextcore_efi.Apfs.DevicePath.{starts_with, descendant}
use nextcore_efi.Apfs.DevicePath.Nodes.{
  Node, IsNode, encode_node, encode_nodes, end_node, IsPath, length-encode_node,
}
use nextcore_efi.Apfs.DevicePath.Complete.{path_body-encode_nodes}

starts_with→append : (xs ys : List ℕ) → starts_with xs ys ≡ true → (r : List ℕ) × (xs ≡ ys ++ r)
unfolding starts_with
starts_with→append xs [] h = (xs, refl)
starts_with→append [] (y ∷ ys) h = cc
starts_with→append (x ∷ xs) (y ∷ ys) h =
    let (r, e) = starts_with→append xs ys (ground arith) in (r, ground arith)

append→starts_with : (ys r : List ℕ) → starts_with (ys ++ r) ys ≡ true
unfolding starts_with
append→starts_with [] [] = refl
append→starts_with [] (x ∷ r) = refl
append→starts_with (y ∷ ys) r = ground (arith, append→starts_with ys r)

append-cancel :
    (xs ys a b : List ℕ) → length xs ≡ length ys → xs ++ a ≡ ys ++ b → (xs ≡ ys) × (a ≡ b)
append-cancel [] [] a b l e = (refl, e)
append-cancel [] (y ∷ ys) a b l e = absurd (omega arith)
append-cancel (x ∷ xs) [] a b l e = absurd (omega arith)
append-cancel (x ∷ xs) (y ∷ ys) a b l e =
    let ih = append-cancel xs ys a b (omega arith) (ground arith) in (ground (arith, ih.0), ih.1)

-- Two nodes whose bytes start the same bytes are the same node.
encode_node-cancel :
    (c p : Node) (a b : List ℕ)
    → IsNode c
    → IsNode p
    → encode_node c ++ a ≡ encode_node p ++ b
    → (c ≡ p) × (a ≡ b)
unfolding encode_node
encode_node-cancel c p a b vc vp e =
    let len : length c.payload ≡ length p.payload = ground (arith, vc.len_u16, vp.len_u16) in
    let same = append-cancel c.payload p.payload a b len (ground arith) in
    (ground (arith, same.0), same.1)

-- The bytes of nodes determine the nodes, and a run of nodes before them.
encode_nodes-prefix :
    (ps cs : List Node) (r : List ℕ)
    → All IsNode ps
    → All IsNode cs
    → encode_nodes cs ≡ encode_nodes ps ++ r
    → (ms : List Node) × (cs ≡ ps ++ ms)
unfolding encode_nodes
encode_nodes-prefix [] cs r vp vc e = (cs, refl)
encode_nodes-prefix (p ∷ ps) [] r vp vc e = absurd (
    omega (
      arith,
      ap length e,
      length-append (encode_node p ++ encode_nodes ps) r,
      length-append (encode_node p) (encode_nodes ps),
      length-encode_node p,
    ))
encode_nodes-prefix (p ∷ ps) (c ∷ cs) r vp vc e =
    let same =
      encode_node-cancel c p (encode_nodes cs) (encode_nodes ps ++ r) vc.0 vp.0
        (e ∙ append_assoc (encode_node p) (encode_nodes ps) r) in
    let (ms, more) = encode_nodes-prefix ps cs r vp.1 vc.1 same.1 in (ms, ground arith)

pub encode_nodes-append :
    (ps ms : List Node) → encode_nodes (ps ++ ms) ≡ encode_nodes ps ++ encode_nodes ms
unfolding encode_nodes
encode_nodes-append [] ms = refl
encode_nodes-append (p ∷ ps) ms =
    rw (encode_nodes-append ps ms)
      (sym (append_assoc (encode_node p) (encode_nodes ps) (encode_nodes ms)))

-- What `descendant` answers on the bytes of nodes.
descendant-encode_nodes :
    (ps cs : List Node)
    → IsPath ps
    → IsPath cs
    → descendant (encode_nodes ps ++ end_node) (encode_nodes cs ++ end_node)
      ≡ ok (
          ltb (length (encode_nodes ps)) (length (encode_nodes cs))
          && starts_with (encode_nodes cs) (encode_nodes ps))
unfolding descendant
descendant-encode_nodes ps cs vp vc =
    rw (path_body-encode_nodes ps vp, path_body-encode_nodes cs vc)

-- A list of nodes that is longer, and begins with the other one.
abbrev pub IsBelow : List Node → List Node → Type 0
IsBelow ps cs = (n : Node) × (ns : List Node) × (cs ≡ ps ++ (n ∷ ns))

IsBelow-of_prefix :
    (ps cs ms : List Node)
    → cs ≡ ps ++ ms
    → length (encode_nodes ps) < length (encode_nodes cs)
    → IsBelow ps cs
unfolding encode_nodes
IsBelow-of_prefix ps cs [] e h =
    absurd (omega (arith, ap (λ (l : List Node). length (encode_nodes l)) (e ∙ append-nil ps)))
IsBelow-of_prefix ps cs (m ∷ ms) e h = (m, ms, e)

longer_of_below :
    (ps cs : List Node) → IsBelow ps cs → length (encode_nodes ps) < length (encode_nodes cs)
unfolding encode_nodes
longer_of_below ps cs (n, ns, e) = omega (
  arith,
  ap (λ (l : List Node). length (encode_nodes l)) e,
  ap length (encode_nodes-append ps (n ∷ ns)),
  length-append (encode_nodes ps) (encode_node n ++ encode_nodes ns),
  length-append (encode_node n) (encode_nodes ns),
  length-encode_node n,
)

-- `descendant` answers true for two well-formed paths within the bounds exactly when the nodes of
-- the second are those of the first and at least one more.
pub descendant_iff :
    (ps cs : List Node)
    → IsPath ps
    → IsPath cs
    → (descendant (encode_nodes ps ++ end_node) (encode_nodes cs ++ end_node) ≡ ok true)
      ↔ IsBelow ps cs
descendant_iff ps cs vp vc = (to, from)
  where
    to :
        descendant (encode_nodes ps ++ end_node) (encode_nodes cs ++ end_node) ≡ ok true
        → IsBelow ps cs
    to h =
        let test = sym (descendant-encode_nodes ps cs vp vc) ∙ h in
        let (r, bytes) = starts_with→append (encode_nodes cs) (encode_nodes ps) (ground arith) in
        let (ms, nodes) = encode_nodes-prefix ps cs r vp.valid vc.valid bytes in
        IsBelow-of_prefix ps cs ms nodes (ground arith)

    from :
        IsBelow ps cs
        → descendant (encode_nodes ps ++ end_node) (encode_nodes cs ++ end_node) ≡ ok true
    from b =
        let bytes : encode_nodes cs ≡ encode_nodes ps ++ encode_nodes (b.0 ∷ b.1) =
          ap encode_nodes b.2 ∙ encode_nodes-append ps (b.0 ∷ b.1) in
        let starts : starts_with (encode_nodes cs) (encode_nodes ps) ≡ true =
          rw bytes (append→starts_with (encode_nodes ps) (encode_nodes (b.0 ∷ b.1))) in
        descendant-encode_nodes ps cs vp vc ∙ ground (arith, starts, longer_of_below ps cs b)
