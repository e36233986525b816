-- ===== src/Status.antt =====
-- `uefi::Status`: the codes that the program names, and any other warning or error code that
-- firmware may return.
use nextcore_efi.Common.{Bool, false, refl, true, ℕ, ◌≡◌}

pub data Status : Type 0 where
  success load_error invalid_parameter unsupported bad_buffer_size not_ready device_error : Status
  out_of_resources volume_corrupted media_changed not_found access_denied : Status
  no_mapping no_media aborted end_of_file compromised_data crc_error : Status
  warning other_error : ℕ → Status

-- `Status::is_error`: neither success nor a warning.
unfoldable pub is_error : Status → Bool
is_error success = false
is_error (warning n) = false
is_error _ = true

-- `status == Status::SUCCESS`
abbrev pub is_success : Status → Bool
is_success success = true
is_success _ = false

pub is_success→eq : (s : Status) → is_success s ≡ true → s ≡ success
is_success→eq success h = refl
is_success→eq _ h = cc
