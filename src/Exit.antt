-- ===== src/Exit.antt =====
-- src/exit_data.rs: the start of a child image, and the description that it exits with.
pub mod Laws
mod Runs
use nextcore_efi.Common.Bytes.{le16}
use nextcore_efi.Common.{
  Bool, List, Option, [], checked_add, false, if◌then◌else◌, ltb, min, none, some, suc, take, true,
  ℕ, ◌*◌, ◌++◌, ◌+◌, ◌-◌, ◌==◌, ◌∷◌,
}
use nextcore_efi.Status.{Status, not_ready}
use nextcore_efi.Escape.{escape_unit}

abbrev pub max_exit_data_bytes : ℕ
max_exit_data_bytes = 2048

pub record Description : Type 0 where
  pub text : List ℕ
  pub units : ℕ
  pub terminated : Bool

-- The text of one more unit in front of a description.
abbrev pub describe : ℕ → Description → Description
describe unit rest =
    if unit == 0 then record { text = []; units = 0; terminated = true } else record {
      text = escape_unit unit ++ rest.text;
      units = suc rest.units;
      terminated = rest.terminated;
    }

-- `escaped_description`
unfoldable pub escaped_description : List ℕ → Description
escaped_description (lo ∷ hi ∷ bs) = describe (le16 lo hi) (escaped_description bs)
escaped_description bs = record { text = []; units = 0; terminated = false }

-- What the child and the firmware answer: the status of StartImage, its two outputs, where 0 is the
-- null pointer, the bytes at the returned address, and the status of FreePool.
pub record Child : Type 0 where
  pub status : Status
  pub size : ℕ
  pub data_at : ℕ
  pub memory : List ℕ
  pub free_status : Status

-- The lines that `start_image` reports.
pub data Report : Type 0 where
  no_data : (bytes : ℕ) → Report
  description : (bytes copied units : ℕ) (terminated truncated : Bool) (trailing : ℕ) → Report
  exit_text : List ℕ → Report
  address_overflow : (bytes : ℕ) → Report
  freed_with : Status → Report

pub record Started : Type 0 where
  pub status : Status
  pub freed : List ℕ
  pub reports : List Report

abbrev pub is_in_range : Option ℕ → Bool
is_in_range none = false
is_in_range (some end) = true

abbrev pub trailing_of : Description → ℕ → ℕ
trailing_of d size = if d.terminated then size - (d.units + 1) * 2 else 0

abbrev pub text_reports : Child → ℕ → Description → List Report
text_reports c copied d =
    description c.size copied d.units d.terminated (ltb copied c.size) (trailing_of d c.size)
    ∷ exit_text d.text
    ∷ []

-- `start_image` once the child has returned with exit data.
abbrev pub data_reports : Child → ℕ → List Report
data_reports c copied =
    if is_in_range (checked_add c.data_at copied)
    then text_reports c copied (escaped_description (take copied c.memory))
    else address_overflow c.size ∷ []

-- `start_image`: its status, the pool buffers that it frees, and its reports. `none` is a missing
-- system table or a null Boot Services pointer.
unfoldable pub start_image : Option Child → Started
start_image none = record { status = not_ready; freed = []; reports = [] }
start_image (some c) =
    if c.data_at == 0
    then record { status = c.status; freed = []; reports = no_data c.size ∷ [] }
    else record {
      status = c.status;
      freed = c.data_at ∷ [];
      reports = data_reports c (min c.size max_exit_data_bytes) ++ (freed_with c.free_status ∷ []);
    }
