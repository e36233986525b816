-- ===== src/Driver/Start/Success.antt =====
-- src/apfs_driver.rs: when a driver is started, and what the two entries share.
use nextcore_efi.Common.{
  Bool, Bool-cases, List, Option, Result, [], ap, arith, err, false, inl, inr, none, not, ok, refl,
  refuse, some, true, ℕ, ◌>>=◌, ◌↔◌, ◌∙◌, ◌≡◌,
}
use nextcore_efi.Status.{Status, is_success, success, is_success→eq, unsupported}
use nextcore_efi.Driver.Start.{
  Effect, Child, with_handle, with_services, load_driver, accepted, succeeded, with_accepted,
  with_image, with_path, start_driver, start, extract, with_started, inspect_driver, inspect,
  connect_started, connect_driver, connect_for_target,
}
use nextcore_efi.Driver.Start.Laws.{Run}

refuse_passes : (b : Bool) (e : Status) (u : Unit {0}) → refuse (not b) e ≡ ok u → b ≡ true
refuse_passes true e u h = refl
refuse_passes false e u h = cc

boot_of :
    (b : Result Status Bool) → (b >>= λ boot. refuse (not boot) unsupported) ≡ ok tt → b ≡ ok true
boot_of (err e) h = cc
boot_of (ok false) h = cc
boot_of (ok true) h = refl

-- The steps behind LoadImage that all have to succeed.
abbrev RunsWell : Child → Type 0
RunsWell child =
    (child.is_boot_driver ≡ ok true) × (child.outcome ≡ success) × (child.connected ≡ success)

module _ (controller : ℕ) (child : Child) where
  accepted_ok :
      (image : ℕ) (a : Result Status (Unit {0}))
      → accepted child ≡ a
      → (with_accepted child controller image a).0 ≡ ok tt
      → RunsWell child
  accepted_ok image (err e) same h = cc
  accepted_ok image (ok tt) same h = elim (Bool-cases (is_success child.outcome)) [
    | inr failed ↦ absurd (ground arith)
    | inl well ↦
        let connect : succeeded child.connected ≡ ok tt = ground arith in
        (
          boot_of child.is_boot_driver same,
          is_success→eq child.outcome well,
          is_success→eq child.connected
              (refuse_passes (is_success child.connected) child.connected tt connect),
        )
  ]

  accepted_well :
      (image : ℕ)
      → RunsWell child
      → (with_accepted child controller image (accepted child)).0 ≡ ok tt
  accepted_well image (boot, outcome, connected) =
      let a : accepted child ≡ ok tt = ap (λ b. b >>= λ k. refuse (not k) unsupported) boot in
      ap (λ r. (with_accepted child controller image r).0) a
      ∙ rw (ap is_success outcome) (ap succeeded connected)

  handle_ok :
      (status : Status) (o : Option ℕ)
      → (with_image child controller (with_handle status o)).0 ≡ ok tt
      → (status ≡ success) × ((h : ℕ) × (o ≡ some h)) × RunsWell child
  handle_ok status none h = absurd (ground arith)
  handle_ok status (some image) h = elim (Bool-cases (is_success status)) [
    | inr failed ↦ absurd (ground arith)
    | inl well ↦
        let k : (with_accepted child controller image (accepted child)).0 ≡ ok tt = ground arith in
        (is_success→eq status well, (image, refl), accepted_ok image (accepted child) refl k)
  ]

  services_ok :
      (b : Bool) (status : Status) (o : Option ℕ)
      → (with_image child controller (with_services b status o)).0 ≡ ok tt
      → (b ≡ true) × (status ≡ success) × ((h : ℕ) × (o ≡ some h)) × RunsWell child
  services_ok false status o h = cc
  services_ok true status o h = let (e, k, w) = handle_ok status o h in (refl, e, k, w)

  path_ok :
      (p : Result Status (Unit {0}))
      → (with_path child controller p).0 ≡ ok tt
      → (p ≡ ok tt) × ((with_image child controller (load_driver child)).0 ≡ ok tt)
  path_ok (err e) h = cc
  path_ok (ok tt) h = (refl, h)

-- `start_driver` succeeds exactly if every step does: the path, LoadImage with a handle, a boot driver,
-- StartImage and ConnectController.
pub start_driver_iff :
    (controller : ℕ) (child : Child)
    → ((start_driver controller child).0 ≡ ok tt) ↔ (
        (child.path ≡ ok tt)
        × (child.has_services ≡ true)
        × (child.load_status ≡ success)
        × ((h : ℕ) × (child.load_handle ≡ some h))
        × (child.is_boot_driver ≡ ok true)
        × (child.outcome ≡ success)
        × (child.connected ≡ success))
unfolding start_driver load_driver
start_driver_iff controller child = (
  λ h.
      let (path, k) = path_ok controller child child.path h in
      let (live, status, handle, (boot, outcome, connected)) =
        services_ok controller child child.has_services child.load_status child.load_handle k in
      (path, live, status, handle, boot, outcome, connected),
  λ (path, live, status, handle, boot, outcome, connected).
      ap (λ p. (with_path child controller p).0) path
      ∙ ap
          (λ b.
            (with_image child controller (with_services b child.load_status child.load_handle)).0)
          live
      ∙ ap (λ s. (with_image child controller (with_handle s child.load_handle)).0) status
      ∙ ap (λ o. (with_image child controller (with_handle success o)).0) handle.1
      ∙ accepted_well controller child handle.0 (boot, outcome, connected),
)

-- The result of `connect_for_target` without its handle.
abbrev pub without_handle : Result Status ℕ × List Effect → Run
without_handle (r, log) = (r >>= λ _. ok tt, log)

started_alike :
    (controller : ℕ) (inspected : Result Status (Unit {0})) (r : Run)
    → with_started start inspected r ≡ without_handle (connect_started controller r)
started_alike controller inspected (err e, log) = refl
started_alike controller inspected (ok u, log) = refl

module _ {D : Type 0} (children : ℕ → D → Child) (inspected : Result Status (Unit {0})) where
  driver_alike :
      (controller : ℕ) (d : Result Status D)
      → (inspect_driver start children inspected controller d
          ≡ without_handle (connect_driver children controller d))
        × ((inspect_driver extract children inspected controller d).1 ≡ [])
  driver_alike controller (err e) = (refl, refl)
  driver_alike controller (ok d) =
      (started_alike controller inspected (start_driver controller (children controller d)), refl)

-- `inspect` in its mode `start` does what `connect_for_target` does, to the same images and with the
-- same failures, and in its mode `extract` it touches no image.
pub inspect-connect_for_target :
    {D : Type 0} (found : Result Status ℕ) (read : ℕ → Result Status D) (children : ℕ → D → Child)
    (inspected : Result Status (Unit {0}))
    → (inspect start found read children inspected
        ≡ without_handle (connect_for_target found read children))
      × ((inspect extract found read children inspected).1 ≡ [])
unfolding inspect connect_for_target
inspect-connect_for_target (err e) read children inspected = (refl, refl)
inspect-connect_for_target (ok controller) read children inspected =
    driver_alike children inspected controller (read controller)
