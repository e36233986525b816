-- ===== src/Driver/Start.antt =====
-- `load_driver`, `start_driver`, `inspect` and `connect_for_target` of src/apfs_driver.rs, with what they
-- do to the image of the driver.
pub mod Laws
pub mod Success
use nextcore_efi.Common.{
  Bool, List, Option, Result, [], err, false, if◌then◌else◌, none, not, ok, refuse, some, true, ℕ,
  ◌++◌, ◌>>=◌, ◌∷◌,
}
use nextcore_efi.Status.{Status, is_success, not_ready, load_error, unsupported}

-- LoadImage that gave a handle, whatever its status; UnloadImage, whether or not it succeeded;
-- StartImage; and ConnectController with the driver on a controller.
pub data Effect : Type 0 where
  loads unloads starts : ℕ → Effect
  connects : (controller image : ℕ) → Effect
  inspects_filesystems : Effect

-- What firmware and driver answer: the device path, whether there are Boot Services, LoadImage with the
-- handle it leaves, the lookup of the image with whether its memory types are a boot driver's, StartImage
-- and ConnectController.
pub record Child : Type 0 where
  pub path : Result Status (Unit {0})
  pub has_services : Bool
  pub load_status : Status
  pub load_handle : Option ℕ
  pub is_boot_driver : Result Status Bool
  pub outcome : Status
  pub connected : Status

-- `load_driver` behind LoadImage.
abbrev pub with_handle : Status → Option ℕ → Result Status ℕ × List Effect
with_handle status none = if is_success status then (err load_error, []) else (err status, [])
with_handle status (some handle) =
    if is_success status
    then (ok handle, loads handle ∷ [])
    else (err status, loads handle ∷ unloads handle ∷ [])

-- `load_driver`, by whether there are Boot Services.
abbrev pub with_services : Bool → Status → Option ℕ → Result Status ℕ × List Effect
with_services false status handle = (err not_ready, [])
with_services true status handle = with_handle status handle

unfoldable pub load_driver : Child → Result Status ℕ × List Effect
load_driver child = with_services child.has_services child.load_status child.load_handle

-- `accepted`
abbrev pub accepted : Child → Result Status (Unit {0})
accepted child = child.is_boot_driver >>= λ boot. refuse (not boot) unsupported

-- `if status != Status::SUCCESS { return Err(status); }`
abbrev pub succeeded : Status → Result Status (Unit {0})
succeeded status = refuse (not (is_success status)) status

-- `start_driver` behind the test of the loaded image.
abbrev pub with_accepted :
    Child
    → (controller image : ℕ) → Result Status (Unit {0})
    → Result Status (Unit {0}) × List Effect
with_accepted child controller image (err e) = (err e, unloads image ∷ [])
with_accepted child controller image (ok _) =
    if is_success child.outcome
    then (succeeded child.connected, starts image ∷ connects controller image ∷ [])
    else (err child.outcome, starts image ∷ unloads image ∷ [])

abbrev pub with_image :
    Child
    → (controller : ℕ) → Result Status ℕ × List Effect
    → Result Status (Unit {0}) × List Effect
with_image child controller (err e, log) = (err e, log)
with_image child controller (ok image, log) =
    let (result, rest) = with_accepted child controller image (accepted child) in
    (result, log ++ rest)

abbrev pub with_path :
    Child → (controller : ℕ) → Result Status (Unit {0}) → Result Status (Unit {0}) × List Effect
with_path child controller (err e) = (err e, [])
with_path child controller (ok _) = with_image child controller (load_driver child)

unfoldable pub start_driver : (controller : ℕ) → Child → Result Status (Unit {0}) × List Effect
start_driver controller child = with_path child controller child.path

pub data Mode : Type 0 where
  extract start filesystems : Mode

-- The end of `inspect`, by the mode and what `start_driver` made.
abbrev pub with_started :
    Mode
    → Result Status (Unit {0})
    → Result Status (Unit {0}) × List Effect
    → Result Status (Unit {0}) × List Effect
with_started filesystems inspected (ok _, log) = (inspected, log ++ (inspects_filesystems ∷ []))
with_started mode inspected started = started

-- `inspect` with a controller: `driver` is what `read_and_report` answers, `children` how the driver of
-- a controller fares, and `inspected` what the inspection of the file systems answers.
abbrev pub inspect_driver :
    {D : Type 0}
    → Mode
    → (ℕ → D → Child)
    → Result Status (Unit {0})
    → (controller : ℕ) → Result Status D
    → Result Status (Unit {0}) × List Effect
inspect_driver mode children inspected controller (err e) = (err e, [])
inspect_driver extract children inspected controller (ok driver) = (ok tt, [])
inspect_driver start children inspected controller (ok driver) =
    with_started start inspected (start_driver controller (children controller driver))
inspect_driver filesystems children inspected controller (ok driver) =
    with_started filesystems inspected (start_driver controller (children controller driver))

unfoldable pub inspect :
    {D : Type 0}
    → Mode
    → Result Status ℕ
    → (ℕ → Result Status D)
    → (ℕ → D → Child)
    → Result Status (Unit {0})
    → Result Status (Unit {0}) × List Effect
inspect mode (err e) read children inspected = (err e, [])
inspect mode (ok controller) read children inspected =
    inspect_driver mode children inspected controller (read controller)

-- `connect_for_target`
abbrev pub connect_started :
    (controller : ℕ) → Result Status (Unit {0}) × List Effect → Result Status ℕ × List Effect
connect_started controller (err e, log) = (err e, log)
connect_started controller (ok _, log) = (ok controller, log)

abbrev pub connect_driver :
    {D : Type 0}
    → (ℕ → D → Child)
    → (controller : ℕ) → Result Status D
    → Result Status ℕ × List Effect
connect_driver children controller (err e) = (err e, [])
connect_driver children controller (ok driver) =
    connect_started controller (start_driver controller (children controller driver))

unfoldable pub connect_for_target :
    {D : Type 0}
    → Result Status ℕ
    → (ℕ → Result Status D)
    → (ℕ → D → Child)
    → Result Status ℕ × List Effect
connect_for_target (err e) read children = (err e, [])
connect_for_target (ok controller) read children =
    connect_driver children controller (read controller)
