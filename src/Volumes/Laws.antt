-- ===== src/Volumes/Laws.antt =====
-- `device_path` of src/apfs_filesystems.rs: what it reads, and what it closes.
use nextcore_efi.Common.{
  Bool, Bool-cases, List, Result, Result-cases, [], ap, arith, err, false, inl, inr, length,
  length-append, ltb, ok, refl, subst, suc, true, zero, ℕ, ◌++◌, ◌+◌, ◌-◌, ◌==◌, ◌∙◌, ◌∷◌, ◌≡◌, ◌≤◌,
  ◌⊎◌,
}
use nextcore_efi.Common.Bytes.{le16}
use nextcore_efi.Status.{Status, is_success}
use nextcore_efi.Hal.{bytes_at}
use nextcore_efi.Apfs.DevicePath.{max_path, max_nodes, path_body}
use nextcore_efi.Volumes.{
  Access, opens, closes, Protocol, close_active, with_interface, with_opened, with_boot,
  open_protocol, finish, bad_node, gather_node, gather, reserve, behind_close, with_open,
  device_path,
}

pub length-bytes_at : (memory : ℕ → ℕ) (at n : ℕ) → length (bytes_at memory at n) ≡ n
length-bytes_at memory at zero = refl
length-bytes_at memory at (suc n) = ap suc (length-bytes_at memory (at + 1) n)

bytes_at_add :
    (memory : ℕ → ℕ) (at m n k b : ℕ)
    → k ≡ m + n
    → b ≡ at + m
    → bytes_at memory at m ++ bytes_at memory b n ≡ bytes_at memory at k
bytes_at_add memory at zero n k b e f =
    ap (λ c. bytes_at memory c n) (omega (arith, f)) ∙ ap (bytes_at memory at) (omega (arith, e))
bytes_at_add memory at (suc m) n zero b e f = absurd (omega (arith, e))
bytes_at_add memory at (suc m) n (suc k) b e f =
    ap (λ r. memory at ∷ r)
      (bytes_at_add memory (at + 1) m n k b (omega (arith, e)) (omega (arith, f)))

-- Bytes that were read from the start of the path, in one piece.
abbrev pub IsPrefix : (ℕ → ℕ) → ℕ → List ℕ → Type 0
IsPrefix memory base bytes =
    (bytes ≡ bytes_at memory base (length bytes)) × (length bytes ≤ max_path)

-- A path that `path_body` accepts, as it stands in memory.
abbrev pub IsPathAt : (ℕ → ℕ) → ℕ → List ℕ → Type 0
IsPathAt memory base bytes =
    IsPrefix memory base bytes × ((body : List ℕ) × (path_body bytes ≡ ok body))

finish_ok :
    (bytes out : List ℕ)
    → finish bytes ≡ ok out
    → (bytes ≡ out) × ((body : List ℕ) × (path_body bytes ≡ ok body))
finish_ok bytes out h = elim (Result-cases (path_body bytes)) [
  | inr (e, bad) ↦ absurd (ground arith)
  | inl (body, good) ↦ (ground arith, (body, good))
]

gather_node_ok :
    (full bad last : Bool) (bytes out : List ℕ) (next : Result Status (List ℕ))
    → gather_node full bad last bytes next ≡ ok out
    → (full ≡ false) × (bad ≡ false) × ((finish bytes ≡ ok out) ⊎ (next ≡ ok out))
gather_node_ok true bad last bytes out next h = cc
gather_node_ok false true last bytes out next h = cc
gather_node_ok false false true bytes out next h = (refl, refl, inl h)
gather_node_ok false false false bytes out next h = (refl, refl, inr h)

gather-IsPathAt :
    (memory : ℕ → ℕ) (base left : ℕ) (bytes out : List ℕ)
    → IsPrefix memory base bytes
    → gather memory base left bytes ≡ ok out
    → IsPathAt memory base out
unfolding gather
gather-IsPathAt memory base zero bytes out h k = cc
gather-IsPathAt memory base (suc left) bytes out (same, short) k =
    let offset = length bytes in
    let len = le16 (memory (base + offset + 2)) (memory (base + offset + 3)) in
    let more = bytes ++ bytes_at memory (base + offset) len in
    let (room, good, result) =
      gather_node_ok (ltb max_path (offset + 4)) (bad_node offset len)
        (memory (base + offset) == 0x7f) more out (gather memory base left more) k in
    let size : length more ≡ offset + len =
      length-append bytes (bytes_at memory (base + offset) len)
      ∙ ap (λ n. offset + n) (length-bytes_at memory (base + offset) len) in
    let fits : len ≤ max_path - offset = ground arith in
    let joined : more ≡ bytes_at memory base (length more) =
      ap (λ b. b ++ bytes_at memory (base + offset) len) same
      ∙ bytes_at_add memory base offset len (length more) (base + offset) size refl in
    let prefix : IsPrefix memory base more = (joined, omega (arith, size, fits, short)) in
    elim result [
      | inl done ↦
          let (e, body) = finish_ok more out done in subst (IsPathAt memory base) e (prefix, body)
      | inr next ↦ gather-IsPathAt memory base left more out prefix next
    ]

-- How often a protocol is opened and closed.
abbrev pub opened : List Access → ℕ
opened [] = 0
opened (opens ∷ log) = 1 + opened log
opened (closes ∷ log) = opened log

abbrev pub closed : List Access → ℕ
closed [] = 0
closed (opens ∷ log) = closed log
closed (closes ∷ log) = 1 + closed log

-- What a read of a device path leaves open, and what it answers.
pub record IsRead (p : Protocol) (memory : ℕ → ℕ) (run : Result Status (List ℕ) × List Access)
    : Type 0 where
  pub once : opened run.1 ≤ 1
  pub closes_opened : closed run.1 ≤ opened run.1
  pub balanced : p.still_services ≡ true → opened run.1 ≡ closed run.1
  pub path : (bytes : List ℕ) → run.0 ≡ ok bytes → IsPathAt memory p.interface bytes

module _ (p : Protocol) (memory : ℕ → ℕ) where
  failed-IsRead : (e : Status) → IsRead p memory (err e, [])
  failed-IsRead e = record {
    once = omega arith;
    closes_opened = omega arith;
    balanced = λ h. refl;
    path = λ bytes h. cc;
  }

  -- A protocol that was opened, behind the close.
  closed-IsRead :
      (still : Bool) (s : Status) (result : Result Status (List ℕ))
      → p.still_services ≡ still
      → ((bytes : List ℕ) → result ≡ ok bytes → IsPathAt memory p.interface bytes)
      → IsRead p memory (result, opens ∷ (close_active still s).1)
  closed-IsRead false s result e h = record {
    once = omega arith;
    closes_opened = omega arith;
    balanced = λ k. cc;
    path = h;
  }
  closed-IsRead true s result e h = record {
    once = omega arith;
    closes_opened = omega arith;
    balanced = λ k. refl;
    path = h;
  }

  behind-IsRead :
      (still : Bool) (s : Status) (result : Result Status (List ℕ))
      → p.still_services ≡ still
      → ((bytes : List ℕ) → result ≡ ok bytes → IsPathAt memory p.interface bytes)
      → IsRead p memory (behind_close result (close_active still s))
  behind-IsRead still s result e h = elim (Bool-cases (is_success (close_active still s).0)) [
    | inl well ↦ rw well (closed-IsRead still s result e h)
    | inr bad ↦ rw bad (closed-IsRead still s (err (close_active still s).0) e (λ bytes k. cc))
  ]

  opened-IsRead :
      (result : Result Status (List ℕ)) (is_null : Bool)
      → ((bytes : List ℕ) → result ≡ ok bytes → IsPathAt memory p.interface bytes)
      → IsRead p memory (with_open p result (with_interface p is_null))
  opened-IsRead result true h =
      closed-IsRead p.still_services p.close_status (err Status.unsupported) refl (λ bytes k. cc)
  opened-IsRead result false h = behind-IsRead p.still_services p.close_status result refl h

  status-IsRead :
      (result : Result Status (List ℕ)) (well : Bool)
      → ((bytes : List ℕ) → result ≡ ok bytes → IsPathAt memory p.interface bytes)
      → IsRead p memory (with_open p result (with_opened p well))
  status-IsRead result false h = failed-IsRead p.open_status
  status-IsRead result true h = opened-IsRead result (p.interface == 0) h

  boot-IsRead :
      (result : Result Status (List ℕ)) (live : Bool)
      → ((bytes : List ℕ) → result ≡ ok bytes → IsPathAt memory p.interface bytes)
      → IsRead p memory (with_open p result (with_boot p live))
  boot-IsRead result false h = failed-IsRead Status.not_ready
  boot-IsRead result true h = status-IsRead result (is_success p.open_status) h

  reserved :
      (room : Bool) (bytes : List ℕ) (result : Result Status (List ℕ))
      → reserve room result ≡ ok bytes
      → result ≡ ok bytes
  reserved false bytes result h = cc
  reserved true bytes result h = h

  -- The bytes that `device_path` answers stand in memory at the interface in one piece of at most 2048
  -- bytes, and `path_body` accepts them. The protocol is opened once at most and never closed more
  -- often than that; it is closed again on every way out while Boot Services last.
  pub device_path-IsRead : (room : Bool) → IsRead p memory (device_path room p memory)
  unfolding device_path open_protocol
  device_path-IsRead room =
      boot-IsRead (reserve room (gather memory p.interface max_nodes [])) p.has_services (λ bytes h.
        gather-IsPathAt memory p.interface max_nodes [] bytes (refl, omega arith)
          (reserved room bytes (gather memory p.interface max_nodes []) h))
