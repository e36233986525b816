-- ===== src/Driver/Start/Laws.antt =====
-- src/apfs_driver.rs: what becomes of the image of a driver.
use nextcore_efi.Common.{
  ◌>>=◌, not, refuse, Bool, Bool-cases, List, Option, Result, [], arith, err, false, if◌then◌else◌,
  inl, inr, none, ok, refl, some, true, ℕ, ◌+◌, ◌<◌, ◌==◌, ◌∷◌, ◌≡◌, ◌≤◌,
}
use nextcore_efi.Status.{
  Status, is_success, success, is_success→eq, not_ready, load_error, unsupported,
}
use nextcore_efi.Driver.Start.{
  Effect, loads, unloads, starts, connects, Child, with_handle, with_services, load_driver,
  accepted, succeeded, with_accepted, with_image, with_path, start_driver,
}

-- How often an image is loaded, unloaded, started and connected.
abbrev pub loaded : ℕ → List Effect → ℕ
loaded h [] = 0
loaded h (loads i ∷ log) = (if h == i then 1 else 0) + loaded h log
loaded h (_ ∷ log) = loaded h log

abbrev pub unloaded : ℕ → List Effect → ℕ
unloaded h [] = 0
unloaded h (unloads i ∷ log) = (if h == i then 1 else 0) + unloaded h log
unloaded h (_ ∷ log) = unloaded h log

abbrev pub started : ℕ → List Effect → ℕ
started h [] = 0
started h (starts i ∷ log) = (if h == i then 1 else 0) + started h log
started h (_ ∷ log) = started h log

abbrev pub resident : ℕ → List Effect → ℕ
resident h [] = 0
resident h (connects c i ∷ log) = (if h == i then 1 else 0) + resident h log
resident h (_ ∷ log) = resident h log

-- What a run of `start_driver` keeps of the images.
pub record IsClean (child : Child) (run : Result Status (Unit {0}) × List Effect) (h : ℕ)
    : Type 0 where
  pub balanced : loaded h run.1 ≡ unloaded h run.1 + resident h run.1
  pub once : loaded h run.1 ≤ 1
  pub loaded_first : started h run.1 ≤ loaded h run.1
  pub only_boot_drivers : 0 < started h run.1 → child.is_boot_driver ≡ ok true
  pub started_well : 0 < resident h run.1 → child.outcome ≡ success

boot_driver :
    (r : Result Status Bool) → (r >>= λ boot. refuse (not boot) unsupported) ≡ ok tt → r ≡ ok true
boot_driver (err e) h = cc
boot_driver (ok true) h = refl
boot_driver (ok false) h = cc

abbrev pub Run : Type 0
Run = Result Status (Unit {0}) × List Effect

module _ (child : Child) (h : ℕ) (result : Result Status (Unit {0})) where
  untouched-IsClean : IsClean child (result, []) h
  untouched-IsClean = record {
    balanced = refl;
    once = omega arith;
    loaded_first = omega arith;
    only_boot_drivers = λ k. absurd (omega arith);
    started_well = λ k. absurd (omega arith);
  }

  rejected-IsClean : (image : ℕ) → IsClean child (result, loads image ∷ unloads image ∷ []) h
  rejected-IsClean image = record {
    balanced = omega arith;
    once = ground arith;
    loaded_first = omega arith;
    only_boot_drivers = λ k. absurd (omega arith);
    started_well = λ k. absurd (omega arith);
  }

  failed-IsClean :
      (image : ℕ)
      → accepted child ≡ ok tt
      → IsClean child (result, loads image ∷ starts image ∷ unloads image ∷ []) h
  failed-IsClean image boot = record {
    balanced = omega arith;
    once = ground arith;
    loaded_first = omega arith;
    only_boot_drivers = λ k. boot_driver child.is_boot_driver boot;
    started_well = λ k. absurd (omega arith);
  }

  resident-IsClean :
      (controller image : ℕ)
      → accepted child ≡ ok tt
      → child.outcome ≡ success
      → IsClean child (result, loads image ∷ starts image ∷ connects controller image ∷ []) h
  resident-IsClean controller image boot well = record {
    balanced = omega arith;
    once = ground arith;
    loaded_first = omega arith;
    only_boot_drivers = λ k. boot_driver child.is_boot_driver boot;
    started_well = λ k. well;
  }

module _ (controller : ℕ) (child : Child) (h : ℕ) where
  accepted-IsClean :
      (image : ℕ) (a : Result Status (Unit {0}))
      → accepted child ≡ a
      → let (result, rest) = with_accepted child controller image a in
        IsClean child (result, loads image ∷ rest) h
  accepted-IsClean image (err e) same = rejected-IsClean child h (err e) image
  accepted-IsClean image (ok u) same = elim (Bool-cases (is_success child.outcome)) [
    | inl well ↦ rw well (
        resident-IsClean child h (succeeded child.connected) controller image same
          (is_success→eq child.outcome well))
    | inr failed ↦ rw failed (failed-IsClean child h (err child.outcome) image same)
  ]

  loaded-IsClean :
      (status : Status) (o : Option ℕ)
      → is_success status ≡ true
      → IsClean child (with_image child controller (with_handle status o)) h
  loaded-IsClean status none well = rw well (untouched-IsClean child h (err load_error))
  loaded-IsClean status (some image) well = rw well (accepted-IsClean image (accepted child) refl)

  refused-IsClean :
      (status : Status) (o : Option ℕ)
      → is_success status ≡ false
      → IsClean child (with_image child controller (with_handle status o)) h
  refused-IsClean status none failed = rw failed (untouched-IsClean child h (err status))
  refused-IsClean status (some image) failed =
      rw failed (rejected-IsClean child h (err status) image)

  image-IsClean :
      (status : Status) (o : Option ℕ)
      → IsClean child (with_image child controller (with_handle status o)) h
  image-IsClean status o = elim (Bool-cases (is_success status)) [
    | inl well ↦ loaded-IsClean status o well
    | inr failed ↦ refused-IsClean status o failed
  ]

  services-IsClean :
      (b : Bool) (status : Status) (o : Option ℕ)
      → IsClean child (with_image child controller (with_services b status o)) h
  services-IsClean false status o = untouched-IsClean child h (err not_ready)
  services-IsClean true status o = image-IsClean status o

  path-IsClean : (p : Result Status (Unit {0})) → IsClean child (with_path child controller p) h
  unfolding load_driver
  path-IsClean (err e) = untouched-IsClean child h (err e)
  path-IsClean (ok u) = services-IsClean child.has_services child.load_status child.load_handle

-- Every image that `start_driver` gets from LoadImage, also with a failure, is unloaded exactly once,
-- unless it returned success and stays resident; it is loaded and started once at most, and only a boot
-- driver that was loaded is started.
pub start_driver-IsClean :
    (controller : ℕ) (child : Child) (h : ℕ) → IsClean child (start_driver controller child) h
unfolding start_driver load_driver
start_driver-IsClean controller child h = path-IsClean controller child h child.path
