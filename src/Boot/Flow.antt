-- ===== src/Boot/Flow.antt =====
-- `efi_main` of src/main.rs. Its infinite loops recur on what the firmware and the user answer, and
-- `waiting` is a program that still waits behind the last answer.
pub mod Choice
pub mod Laws
use nextcore_efi.Common.{
  Bool, List, Option, Result, [], err, false, get_elem?, if◌then◌else◌, length, none, not, ok, some,
  true, ℕ, ◌∷◌,
}
use nextcore_efi.Status.{Status, is_error, not_found, invalid_parameter, aborted}
use nextcore_efi.Files.{Volume}
use nextcore_efi.Boot.Keys.{
  Round, Action, acknowledge_failure, Recovery, retry, exit, choose_recovery,
}
use nextcore_efi.Boot.Picker.{Update, Turn, choose}
use nextcore_efi.Boot.Config.{Fault, read_config}
use nextcore_efi.Boot.Chainload.{Image, chainload}

-- The boot menu that the core library parses; a target is its arguments in UTF-16.
pub record Menu : Type 0 where
  pub show_picker : Bool
  pub entries : List (List ℕ)

-- One round of the inner loop: the picker's turns, the answers to the child, and the keys that
-- acknowledge a failure.
pub record Attempt : Type 0 where
  pub graphics : Bool
  pub turns : List Turn
  pub image : Image
  pub keys : List Round

-- One round of the outer loop: the volume, the answers to a direct boot, the attempts from the menu, and
-- the recovery with what `choose_recovery` is given.
pub record Cycle : Type 0 where
  pub volume : Volume
  pub direct : Image
  pub attempts : List Attempt
  pub message : Bool
  pub shown : Result Status (Unit {0})
  pub keys : List Round

pub data Outcome : Type 0 where
  waiting panicked : Outcome
  returned : Status → Outcome

-- A boot: the arguments of its target and the status of `chainload`.
pub record Booted : Type 0 where
  pub arguments : List ℕ
  pub status : Status

-- The part of a round behind a failed boot.
abbrev pub acknowledge :
    Option (Result Status (Unit {0})) → Outcome × List Booted → Outcome × List Booted
acknowledge none later = (waiting, [])
acknowledge (some (err e)) later = (returned e, [])
acknowledge (some (ok _)) later = later

-- The part of a round behind a boot.
abbrev pub after_boot : List ℕ → Attempt → Status → Outcome × List Booted → Outcome × List Booted
after_boot arguments a status later =
    let (outcome, boots) =
      if not (is_error status)
      then (returned status, [])
      else acknowledge (acknowledge_failure a.keys) later in
    (outcome, record { arguments = arguments; status = status } ∷ boots)

-- `menu.entries[index]` panics out of range.
abbrev pub boot_entry : Attempt → Option (List ℕ) → Outcome × List Booted → Outcome × List Booted
boot_entry a none later = (panicked, [])
boot_entry a (some arguments) later = after_boot arguments a (chainload a.image arguments).0 later

-- The part of a round behind the picker.
abbrev pub after_choice :
    Menu
    → Attempt
    → Option (Result Status (Option ℕ))
    → Outcome × List Booted
    → Outcome × List Booted
after_choice menu a none later = (waiting, [])
after_choice menu a (some (err e)) later = (returned e, [])
after_choice menu a (some (ok none)) later = (returned aborted, [])
after_choice menu a (some (ok (some index))) later =
    boot_entry a (get_elem? menu.entries index) later

-- How the recovery goes on, behind a configuration that gave `status`.
abbrev pub recover :
    Status → Option (Result Status Recovery) → Outcome × List Booted → Outcome × List Booted
recover status none later = (waiting, [])
recover status (some (err e)) later = (returned e, [])
recover status (some (ok retry)) later = later
recover status (some (ok exit)) later = (returned status, [])

module _ (navigate : ℕ → ℕ → Action → Update × ℕ) where
  -- The inner loop, with the boots in their order.
  unfoldable pub attempt_loop : Menu → List Attempt → Outcome × List Booted
  attempt_loop menu [] = (waiting, [])
  attempt_loop menu (a ∷ as') =
      after_choice menu a (choose navigate (length menu.entries) a.graphics a.turns)
        (attempt_loop menu as')

  -- The boots of a menu, whose picker is shown or not.
  abbrev pub by_picker : Bool → Cycle → Menu → List ℕ → Outcome × List Booted
  by_picker true c menu first = attempt_loop menu c.attempts
  by_picker false c menu first =
      let status = (chainload c.direct first).0 in
      (returned status, record { arguments = first; status = status } ∷ [])

  abbrev pub start_menu : Cycle → Menu → List ℕ → Outcome × List Booted
  start_menu c menu first = by_picker menu.show_picker c menu first

  -- `parse` is `parse_boot_menu`, with an error of the core library.
  module _ {E : Type 0} (parse : List ℕ → Result E Menu) where
    abbrev pub recovering : Cycle → Status → Outcome × List Booted → Outcome × List Booted
    recovering c status later = recover status (choose_recovery c.message c.shown c.keys) later

    abbrev pub with_entries :
        Cycle → Menu → List (List ℕ) → Outcome × List Booted → Outcome × List Booted
    with_entries c menu [] later = recovering c not_found later
    with_entries c menu (first ∷ others) later = start_menu c menu first

    abbrev pub with_menu : Cycle → Result E Menu → Outcome × List Booted → Outcome × List Booted
    with_menu c (err e) later = recovering c invalid_parameter later
    with_menu c (ok menu) later = with_entries c menu menu.entries later

    abbrev pub with_config :
        Cycle → Option (Result Fault (List ℕ)) → Outcome × List Booted → Outcome × List Booted
    with_config c none later = (waiting, [])
    with_config c (some (err fault)) later = recovering c fault.0 later
    with_config c (some (ok bytes)) later = with_menu c (parse bytes) later

    -- `efi_main` behind the watchdog, whose answer is only reported.
    unfoldable pub efi_main : List Cycle → Outcome × List Booted
    efi_main [] = (waiting, [])
    efi_main (c ∷ cs) = with_config c (read_config c.volume) (efi_main cs)
