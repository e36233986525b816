-- ===== src/Kernel/Collect.antt =====
-- `options` and `run` of src/kc.rs: a kernel collection is staged and released, or its readback probed.
pub mod Laws
mod Runs
use nextcore_efi.Common.{
  Bool, List, Option, Result, [], err, false, if◌then◌else◌, length, ltb, none, not, ok, ok_or,
  refuse, some, true, ℕ, ◌*◌, ◌++◌, ◌==◌, ◌>>=◌, ◌>>◌, ◌∷◌,
}
use nextcore_efi.Common.Bytes.{same_bytes}
use nextcore_efi.Status.{Status, invalid_parameter, bad_buffer_size, unsupported, load_error}
use nextcore_efi.Files.{Volume, read_file}
use nextcore_efi.Memory.Calls.{Call}
use nextcore_efi.Memory.Descriptor.{page_size}
use nextcore_efi.Memory.Collection.{Firmware, Plan, Loaded, load, release, probe_readback_failure}
use nextcore_efi.Kernel.Options.{is_refused}

-- The load options of the image: their size, and their text in UTF-8 if they are a text.
pub record Request : Type 0 where
  pub raw : Result Status (Option ℕ)
  pub text : Option (List ℕ)

-- `split_once(' ')`
abbrev pub in_front : ℕ → Option (List ℕ × List ℕ) → Option (List ℕ × List ℕ)
in_front b none = none
in_front b (some (before, after)) = some (b ∷ before, after)

unfoldable pub split_once : List ℕ → Option (List ℕ × List ℕ)
split_once [] = none
split_once (b ∷ bs) = if b == 0x20 then some ([], bs) else in_front b (split_once bs)

-- "stage" and "probe-readback-failure"
abbrev pub stage_text : List ℕ
stage_text = 115 ∷ 116 ∷ 97 ∷ 103 ∷ 101 ∷ []

abbrev pub probe_text : List ℕ
probe_text =
    112 ∷ 114 ∷ 111 ∷ 98 ∷ 101 ∷ 45 ∷ 114 ∷ 101 ∷ 97 ∷ 100 ∷ 98 ∷ 97 ∷ 99 ∷ 107 ∷ 45 ∷ 102 ∷ 97
    ∷ 105 ∷ 108 ∷ 117 ∷ 114 ∷ 101 ∷ []

abbrev pub probe_of : List ℕ → Result Status Bool
probe_of mode =
    if same_bytes mode stage_text
    then ok false
    else if same_bytes mode probe_text
    then ok true
    else err unsupported

-- `options`; `converts` is whether a path converts to UCS-2.
unfoldable pub options : (List ℕ → Bool) → Request → Result Status (Bool × List ℕ)
options converts request = do
  raw ← request.raw
  bytes ← ok_or raw invalid_parameter
  refuse (ltb (2 * 1100) bytes) bad_buffer_size
  text ← ok_or request.text invalid_parameter
  parts ← ok_or (split_once text) invalid_parameter
  probe ← probe_of parts.0
  refuse (is_refused parts.1) invalid_parameter
  refuse (not (converts parts.1)) invalid_parameter
  ok (probe, parts.1)

-- The firmware while the collection is loaded and afterwards, the staging plan of the core library for
-- the bytes of a source, the address of the source, and `MAX_INPUT_SIZE`.
pub record Instrument (V : Type 0) : Type 0 where
  pub descriptor_size : ℕ
  pub firmware : Firmware
  pub later : Firmware
  pub plan : List ℕ → Option (Plan V)
  pub source_address : ℕ
  pub max_input : ℕ

module _ {V : Type 0} (i : Instrument V) where
  abbrev pub behind :
      Bool
      → List Call
      → Result Status (Unit {0}) × List Call
      → Option (Result Status Bool) × List Call
  behind probe log (result, rest) = (some (result >>= λ _. ok probe), log ++ rest)

  -- What is done with a loaded collection; without a plan there is none.
  abbrev pub with_loaded :
      Bool
      → Option (Plan V)
      → Result Status (Loaded V) × List Call
      → Option (Result Status Bool) × List Call
  with_loaded probe plan (err e, log) = (some (err e), log)
  with_loaded probe none (ok loaded, log) = (some (err load_error), log)
  with_loaded true (some plan) (ok loaded, log) =
      behind true log (probe_readback_failure page_size i.descriptor_size i.later plan loaded)
  with_loaded false (some plan) (ok loaded, log) =
      behind false log (release page_size i.descriptor_size i.later loaded)

  abbrev pub with_source :
      Bool → Option (Result Status (List ℕ)) → Option (Result Status Bool) × List Call
  with_source probe none = (none, [])
  with_source probe (some (err e)) = (some (err e), [])
  with_source probe (some (ok bytes)) =
      with_loaded probe (i.plan bytes)
        (load page_size i.descriptor_size i.firmware (i.plan bytes) i.source_address (length bytes))

  abbrev pub with_options :
      (List ℕ → Volume) → Result Status (Bool × List ℕ) → Option (Result Status Bool) × List Call
  with_options volume (err e) = (some (err e), [])
  with_options volume (ok (probe, path)) = with_source probe (read_file (volume path) i.max_input)

  -- `run`, with the calls of the firmware that it made.
  unfoldable pub run :
      (List ℕ → Bool) → Request → (List ℕ → Volume) → Option (Result Status Bool) × List Call
  run converts request volume = with_options volume (options converts request)
