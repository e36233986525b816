-- ===== src/Boot/Runs.antt =====
-- A menu of one target that fails once, is acknowledged and then boots.
use nextcore_efi.Common.{
  Bool, List, Result, [], ap, err, false, if◌then◌else◌, ltb, ltb→lt, map, none, ok, refl, some,
  subst, true, ℕ, ◌<◌, ◌∷◌, ◌≡◌, ◌≢◌,
}
use nextcore_efi.Status.{invalid_parameter, Status, success, load_error, is_error}
use nextcore_efi.Files.{Volume}
use nextcore_efi.Boot.Keys.{
  printable, Round, Action, boot, next, previous, first, last, cancel, idle, acknowledge_failure,
  read_action,
}
use nextcore_efi.Boot.Picker.{
  Update, boots, cancelled, unchanged, Turn, turn_menu, menu_loop, choose, display,
}
use nextcore_efi.Boot.Config.{read_config, config_room, config_loop}
use nextcore_efi.Boot.Target.{
  Piece, other_node, file_path, own_path, Loader, to_lower, to_backslash, load_target,
}
use nextcore_efi.Boot.Target.Laws.{IsJoined, load_target_ok}
use nextcore_efi.Boot.Chainload.{
  Image, chainload, sets_options, starts, clears_options, unloads, frees_options,
}
use nextcore_efi.Boot.Chainload.Counts.{Disposes}
use nextcore_efi.Boot.Chainload.Laws.{dangles, starts_in, is_stranded, is_run, chainload_safety}
use nextcore_efi.Boot.Flow.{Menu, Attempt, Cycle, returned, attempt_loop, efi_main}
use nextcore_efi.Boot.Flow.Choice.{IsInMenu}
use nextcore_efi.Boot.Flow.Laws.{IsSound, Offered, efi_main-IsSound}

-- Every step of the way opens, and each read delivers a seven.
abbrev volume : Volume
volume = record {
  file_system = ok tt;
  root = ok tt;
  handle = ok tt;
  is_regular = true;
  file_size = ok 2;
  read = λ position room. ok (7 ∷ []);
}

config_run : read_config volume ≡ some (ok (7 ∷ 7 ∷ []))
unfolding read_config config_room config_loop
config_run = refl

-- A child that runs, ends with a status, and is still loaded then.
abbrev child : Status → Image
child outcome = record {
  load = ok tt;
  opened = ok true;
  console = none;
  outcome = outcome;
  reopened = ok tt;
  unload = ok tt;
}

abbrev arguments : List ℕ
arguments = 0x2d ∷ 0x76 ∷ []

chainload_run :
    chainload (child success) arguments
    ≡ (success, sets_options 6 ∷ starts ∷ clears_options ∷ unloads true ∷ frees_options ∷ [])
unfolding chainload
chainload_run = refl

chainload_safety_example :
    let image = child success in
    (dangles false (chainload image arguments).1 ≡ is_stranded image)
    × (starts_in (chainload image arguments).1 ≡ (if is_run image then 1 else 0))
    × (is_run image ≡ true → (chainload image arguments).0 ≡ success)
    × Disposes image image.load (chainload image arguments).1
chainload_safety_example = chainload_safety (child success) arguments

abbrev move : ℕ → ℕ → Action → Update
move selected count boot = if ltb selected count then boots selected else unchanged
move selected count cancel = cancelled
move selected count action = unchanged

abbrev navigate : ℕ → ℕ → Action → Update × ℕ
navigate selected count action = (move selected count action, selected)

booted :
    (b : Bool) (selected index count : ℕ)
    → (b ≡ true → selected < count)
    → (if b then boots selected else unchanged) ≡ boots index
    → index < count
booted true selected index count inside h =
    let same : selected ≡ index = cc in subst (λ i. i < count) same (inside refl)
booted false selected index count inside h = cc

navigate-IsInMenu : IsInMenu navigate
navigate-IsInMenu selected count index after boot h =
    booted (ltb selected count) selected index count (ltb→lt selected count) (ap (λ u. u.0) h)
navigate-IsInMenu selected count index after cancel h = cc
navigate-IsInMenu selected count index after next h = cc
navigate-IsInMenu selected count index after previous h = cc
navigate-IsInMenu selected count index after first h = cc
navigate-IsInMenu selected count index after last h = cc
navigate-IsInMenu selected count index after idle h = cc

abbrev press : ℕ → Round
press c = record { event = ok tt; waited = ok tt; key = ok (some (printable c)) }

abbrev nothing : Round
nothing = record { event = ok tt; waited = ok tt; key = ok none }

abbrev turn : List Round → Turn
turn rounds = record { drawn = true; text = ok tt; rounds = rounds }

abbrev attempt : Status → Attempt
attempt outcome = record {
  graphics = true;
  turns = turn (nothing ∷ press 0x09 ∷ []) ∷ turn (press 0x0d ∷ []) ∷ [];
  image = child outcome;
  keys = nothing ∷ press 0x61 ∷ [];
}

abbrev cycle : Cycle
cycle = record {
  volume = volume;
  direct = child success;
  attempts = attempt load_error ∷ attempt success ∷ [];
  message = true;
  shown = ok tt;
  keys = [];
}

abbrev parse : List ℕ → Result ℕ Menu
parse bytes = ok (record { show_picker = true; entries = arguments ∷ [] })

efi_main_run : efi_main navigate parse (cycle ∷ []) ≡ (
  returned success,
  record { arguments = arguments; status = load_error }
      ∷ record { arguments = arguments; status = success }
      ∷ [],
)
unfolding efi_main read_config config_room config_loop attempt_loop choose menu_loop turn_menu
    read_action chainload is_error acknowledge_failure
efi_main_run = refl

efi_main-IsSound_example :
    IsSound (Offered parse (cycle ∷ [])) (efi_main navigate parse (cycle ∷ []))
efi_main-IsSound_example = efi_main-IsSound navigate navigate-IsInMenu parse (cycle ∷ [])

display_run : display (0x41 ∷ 0x0a ∷ 0xe9 ∷ 0x42 ∷ []) 3 ≡ 0x41 ∷ 0x3f ∷ 0x3f ∷ []
unfolding display
display_run = refl

-- A program that is the file \a.efi, and a target beside it.
abbrev beside : Loader
beside = record {
  current = ok tt;
  device = some 3;
  nodes = some (other_node ∷ file_path (some (0x2f ∷ 0x61 ∷ [])) ∷ []);
  converts = λ path. true;
  device_path = ok tt;
  builds = true;
  load_image = λ device path. ok 8;
}

self_run :
    load_target beside none (record { apfs_volume = false; path = 0x5c ∷ 0x41 ∷ [] })
    ≡ err invalid_parameter
unfolding load_target own_path
self_run = refl

beside_run :
    load_target beside none (record { apfs_volume = false; path = 0x5c ∷ 0x62 ∷ [] }) ≡ ok 8
unfolding load_target own_path
beside_run = refl

load_target_ok_example :
    (device : ℕ) × (nodes : List Piece) × (own : List ℕ) × (beside.device ≡ some device)
    × (beside.nodes ≡ some nodes)
    × IsJoined nodes own
    × (map to_lower (map to_backslash own) ≢ map to_lower (0x5c ∷ 0x62 ∷ []))
    × (beside.load_image device (0x5c ∷ 0x62 ∷ []) ≡ ok 8)
load_target_ok_example =
    load_target_ok beside none (record { apfs_volume = false; path = 0x5c ∷ 0x62 ∷ [] }) 8 refl
      beside_run
