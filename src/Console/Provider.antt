-- ===== src/Console/Provider.antt =====
-- The callbacks of src/console_control.rs, over what the firmware answers.
pub mod Ready
pub mod Laws
use nextcore_efi.Common.{
  Bool, Option, Result, err, false, if◌then◌else◌, ltb, max, none, not, ok, some, true, ℕ, ◌==◌,
  ◌>>=◌, ◌||◌,
}
use nextcore_efi.Status.{
  Status, success, not_found, device_error, not_ready, invalid_parameter, unsupported, is_success,
}

abbrev pub text : ℕ
text = 0

abbrev pub graphics : ℕ
graphics = 1

-- An answer of LocateProtocol: its status, and the interface, which is 0 for a null pointer.
pub record Lookup : Type 0 where
  pub status : Status
  pub found : ℕ

abbrev pub found_interface : ℕ → Result Status (Option ℕ)
found_interface found = if found == 0 then err device_error else ok (some found)

-- `classify_lookup`
unfoldable pub classify_lookup : Status → ℕ → Result Status (Option ℕ)
classify_lookup success found = found_interface found
classify_lookup not_found found = ok none
classify_lookup other found = err other

abbrev pub locate : Lookup → Result Status (Option ℕ)
locate l = classify_lookup l.status l.found

-- An `i32`; `negsuc n` is -(n + 1).
pub data ℤ : Type 0 where
  pos negsuc : ℕ → ℤ

-- The mode that the text output describes, and the answer of QueryMode for an index.
pub record Output : Type 0 where
  pub mode : ℤ
  pub max_mode : ℤ
  pub query_mode : ℕ → Status × ℕ × ℕ
  pub set_mode : ℕ → Status

-- `Provider`, as far as the callbacks read it: `output` is `none` if it or its mode is null.
pub record Provider : Type 0 where
  pub output : Option Output
  pub gop : Lookup
  pub uga : Lookup

-- The index of the mode, if it is below `max_mode`.
abbrev pub mode_index : ℤ → ℤ → Option ℕ
mode_index (negsuc n) max = none
mode_index (pos n) (negsuc m) = none
mode_index (pos n) (pos m) = if ltb n m then some n else none

abbrev pub queried : ℕ → Status × ℕ × ℕ → Result Status (ℕ × ℕ × ℕ)
queried index (status, columns, rows) =
    if not (is_success status)
    then err status
    else if columns == 0 || rows == 0
    then err not_ready
    else ok (index, columns, rows)

abbrev pub indexed : Output → Option ℕ → Result Status (ℕ × ℕ × ℕ)
indexed output none = err not_ready
indexed output (some index) = queried index (output.query_mode index)

-- `Provider::text_state`: index, columns and rows.
unfoldable pub text_state : Option Output → Result Status (ℕ × ℕ × ℕ)
text_state none = err not_ready
text_state (some output) = indexed output (mode_index output.mode output.max_mode)

abbrev pub is_found : Option ℕ → Bool
is_found none = false
is_found (some i) = true

-- `Provider::graphics_exists`: the second lookup is made only if the first finds nothing.
abbrev pub second_lookup : Lookup → Option ℕ → Result Status Bool
second_lookup uga (some i) = ok true
second_lookup uga none = locate uga >>= λ found. ok (is_found found)

unfoldable pub graphics_exists : Provider → Result Status Bool
graphics_exists p = locate p.gop >>= λ found. second_lookup p.uga found

-- What a call of `get_mode` writes through its three pointers; `none` is a null pointer or no write.
pub record Modes : Type 0 where
  pub mode : Option ℕ
  pub graphics_exist : Option Bool
  pub locked : Option Bool

abbrev pub unwritten : Modes
unwritten = record { mode = none; graphics_exist = none; locked = none }

-- `if !pointer.is_null() { *pointer = value; }`
abbrev pub write_to {ℓ} : {A : Type ℓ} → Bool → A → Option A
write_to false a = none
write_to true a = some a

-- The arguments of `get_mode`: whether each pointer is there.
pub record Pointers : Type 0 where
  pub mode : Bool
  pub graphics_exist : Bool
  pub locked : Bool

abbrev pub answer_mode : Pointers → Result Status Bool → Status × Modes
answer_mode pointers (err e) = (e, unwritten)
answer_mode pointers (ok exists) = (
  success,
  record {
    mode = write_to pointers.mode text;
    graphics_exist = write_to pointers.graphics_exist exists;
    locked = write_to pointers.locked false;
  },
)

-- `get_mode`, where `none` is a null interface.
unfoldable pub get_mode : Option Provider → Pointers → Status × Modes
get_mode none pointers = (invalid_parameter, unwritten)
get_mode (some p) pointers = answer_mode pointers (text_state p.output >>= λ _. graphics_exists p)

-- The status and the index that is set, if SetMode of the output is called.
abbrev pub set_text : Option Output → Result Status (ℕ × ℕ × ℕ) → Status × Option ℕ
set_text output (err e) = (e, none)
set_text none (ok (index, columns, rows)) = (not_ready, none)
set_text (some output) (ok (index, columns, rows)) = (output.set_mode index, some index)

unfoldable pub set_mode : Option Provider → ℕ → Status × Option ℕ
set_mode none mode = (invalid_parameter, none)
set_mode (some p) mode =
    if mode == text
    then set_text p.output (text_state p.output)
    else if mode == graphics
    then (unsupported, none)
    else (invalid_parameter, none)

-- `lock_stdin`, with whether there is a password.
unfoldable pub lock_stdin : Option Provider → Bool → Status
lock_stdin none password = invalid_parameter
lock_stdin (some p) password = if password then device_error else success
