-- ===== src/Boot/Target/Laws.antt =====
-- `load_target` of src/main.rs: which target is loaded.
use nextcore_efi.Common.{
  >>=-eq-ok, Bool, List, Option, Result, [], ap, arith, false, if◌then◌else◌, map, none, not, ok,
  ok_or, refl, refuse, some, subst, sym, true, ℕ, ◌++◌, ◌∙◌, ◌∷◌, ◌≡◌, ◌≢◌,
}
use nextcore_efi.Common.Bytes.{same_bytes}
use nextcore_efi.Status.{Status, unsupported, not_found, invalid_parameter, out_of_resources}
use nextcore_efi.Boot.Target.{
  to_lower, to_backslash, Piece, other_node, file_path, own_path, Loader, Target, is_self, is_empty,
  load_file, load_apfs, load_target,
}

-- The texts of the file path nodes, joined, if all of them are texts.
pub data IsJoined : List Piece → List ℕ → Type 0 where
  ends : IsJoined [] []
  passes : {ps : List Piece} {own : List ℕ} → IsJoined ps own → IsJoined (other_node ∷ ps) own
  joins :
      {ps : List Piece} {own : List ℕ} (text : List ℕ)
      → IsJoined ps own
      → IsJoined (file_path (some text) ∷ ps) (text ++ own)

ok_same : (a b : List ℕ) (r : Result Status (List ℕ)) → r ≡ ok a → r ≡ ok b → a ≡ b
ok_same a b r h k = let e = sym h ∙ k in cc

own_path-IsJoined : (ps : List Piece) (own : List ℕ) → own_path ps ≡ ok own → IsJoined ps own
unfolding own_path
own_path-IsJoined [] own h = subst (IsJoined []) (ok_same [] own (ok []) refl h) ends
own_path-IsJoined (other_node ∷ ps) own h = passes (own_path-IsJoined ps own h)
own_path-IsJoined (file_path none ∷ ps) own h = cc
own_path-IsJoined (file_path (some text) ∷ ps) own h =
    let (rest, k, e) = >>=-eq-ok (own_path ps) _ h in
    subst (IsJoined (file_path (some text) ∷ ps))
      (ok_same (text ++ rest) own (ok (text ++ rest)) refl e)
      (joins text (own_path-IsJoined ps rest k))

same_bytes_self : (xs : List ℕ) → same_bytes xs xs ≡ true
same_bytes_self [] = refl
same_bytes_self (x ∷ xs) = ground (arith, same_bytes_self xs)

refuse_off : (b : Bool) (e : Status) (u : Unit {0}) → refuse b e ≡ ok u → b ≡ false
refuse_off true e u h = cc
refuse_off false e u h = refl

ok_or-some : {A : Type 0} (o : Option A) (e : Status) (a : A) → ok_or o e ≡ ok a → o ≡ some a
ok_or-some none e a h = cc
ok_or-some (some b) e a h = cc

not_self :
    (own path : List ℕ)
    → is_self own path ≡ false
    → map to_lower (map to_backslash own) ≢ map to_lower path
not_self own path h e =
    let same : is_self own path ≡ true =
      ap (λ l. same_bytes l (map to_lower path)) e ∙ same_bytes_self (map to_lower path) in
    cc

loaded_file :
    (loader : Loader) (path : List ℕ) (image : ℕ)
    → load_file loader path ≡ ok image
    → (device : ℕ) × (nodes : List Piece) × (own : List ℕ) × (loader.device ≡ some device)
      × (loader.nodes ≡ some nodes)
      × IsJoined nodes own
      × (map to_lower (map to_backslash own) ≢ map to_lower path)
      × (loader.load_image device path ≡ ok image)
loaded_file loader path image h =
    let (u0, h0, k0) = >>=-eq-ok loader.current _ h in
    let (device, h1, k1) = >>=-eq-ok (ok_or loader.device not_found) _ k0 in
    let (nodes, h2, k2) = >>=-eq-ok (ok_or loader.nodes unsupported) _ k1 in
    let (own, h3, k3) = >>=-eq-ok (own_path nodes) _ k2 in
    let (u4, h4, k4) = >>=-eq-ok (refuse (is_empty own) unsupported) _ k3 in
    let (u5, h5, k5) = >>=-eq-ok (refuse (is_self own path) invalid_parameter) _ k4 in
    let (u6, h6, k6) = >>=-eq-ok (refuse (not (loader.converts path)) invalid_parameter) _ k5 in
    let (u7, h7, k7) = >>=-eq-ok loader.device_path _ k6 in
    let (u8, h8, k8) = >>=-eq-ok (refuse (not loader.builds) out_of_resources) _ k7 in
    (
      device,
      nodes,
      own,
      ok_or-some loader.device not_found device h1,
      ok_or-some loader.nodes unsupported nodes h2,
      own_path-IsJoined nodes own h3,
      not_self own path (refuse_off (is_self own path) invalid_parameter u5 h5),
      k8,
    )

-- A target that is loaded from its file differs, by more than the case of letters, from the path of the
-- running image with its slashes turned to backslashes, and the image is what LoadImage gives for the
-- device of this program.
pub load_target_ok :
    (loader : Loader) (apfs : Option (Result Status ℕ)) (target : Target) (image : ℕ)
    → target.apfs_volume ≡ false
    → load_target loader apfs target ≡ ok image
    → (device : ℕ) × (nodes : List Piece) × (own : List ℕ) × (loader.device ≡ some device)
      × (loader.nodes ≡ some nodes)
      × IsJoined nodes own
      × (map to_lower (map to_backslash own) ≢ map to_lower target.path)
      × (loader.load_image device target.path ≡ ok image)
unfolding load_target
load_target_ok loader apfs target image plain h =
    loaded_file loader target.path image (file_of target.apfs_volume plain h)
  where
    file_of :
        (b : Bool)
        → b ≡ false
        → (if b then load_apfs apfs else load_file loader target.path) ≡ ok image
        → load_file loader target.path ≡ ok image
    file_of true e k = cc
    file_of false e k = k
