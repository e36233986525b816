-- ===== src/Boot/Keys.antt =====
-- The loops of src/main.rs, src/picker.rs and src/configuration_recovery.rs that wait for a key. Each
-- recurs on the rounds that the firmware answers; `none` is a loop that still waits after the last.
use nextcore_efi.Common.{
  Bool, List, Option, Result, [], err, if◌then◌else◌, none, not, ok, some, ℕ, ◌==◌, ◌>>◌, ◌∷◌,
}
use nextcore_efi.Status.{Status, invalid_parameter}

pub data Scan : Type 0 where
  up down left right home end escape other_scan : Scan

pub data Key : Type 0 where
  printable : ℕ → Key
  special : Scan → Key

-- One round: the answers of wait_for_key_event, of WaitForEvent and of ReadKeyStroke.
pub record Round : Type 0 where
  pub event : Result Status (Unit {0})
  pub waited : Result Status (Unit {0})
  pub key : Result Status (Option Key)

abbrev pub read_round : Round → Result Status (Option Key)
read_round r = do r.event; r.waited; r.key

-- What the loop of a waiting function makes of one round: `none` goes on.
abbrev pub wait_for {ℓ} : {A : Type ℓ} → (Key → Option A) → List Round → Option (Result Status A)
wait_for f [] = none
wait_for f (r ∷ rs) = elim (read_round r) [
  | err e ↦ some (err e)
  | ok none ↦ wait_for f rs
  | ok (some k) ↦ elim (f k) [ none ↦ wait_for f rs | some a ↦ some (ok a) ]
]

-- `acknowledge_failure` of src/main.rs
unfoldable pub acknowledge_failure : List Round → Option (Result Status (Unit {0}))
acknowledge_failure = wait_for (λ k. some tt)

-- `Action` of the boot picker of the core library.
pub data Action : Type 0 where
  boot next previous first last cancel idle : Action

-- The `match key` of `read_action` of src/picker.rs.
abbrev pub action_of : Key → Action
action_of (printable c) = if c == 0x0d then boot else if c == 0x09 then next else idle
action_of (special left) = previous
action_of (special up) = previous
action_of (special right) = next
action_of (special down) = next
action_of (special home) = first
action_of (special end) = last
action_of (special escape) = cancel
action_of (special other_scan) = idle

unfoldable pub read_action : List Round → Option (Result Status Action)
read_action = wait_for (λ k. some (action_of k))

-- `Action` of src/configuration_recovery.rs
pub data Recovery : Type 0 where
  retry exit : Recovery

abbrev pub recovery_of : Key → Option Recovery
recovery_of (printable c) = if c == 0x0d then some retry else none
recovery_of (special escape) = some exit
recovery_of (special s) = none

-- `choose` of src/configuration_recovery.rs: `message` is whether the message converts to UCS-2, and
-- `shown` what the output of it answers. The result of the cosmetic clear is only reported.
unfoldable pub choose_recovery :
    Bool → Result Status (Unit {0}) → List Round → Option (Result Status Recovery)
choose_recovery message shown rounds =
    if not message
    then some (err invalid_parameter)
    else elim shown [ err e ↦ some (err e) | ok _ ↦ wait_for recovery_of rounds ]
