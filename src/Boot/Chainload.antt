-- ===== src/Boot/Chainload.antt =====
-- `chainload` of src/main.rs: the start of a child with its load options. The image, the console lease
-- and StartImage enter through what they answer.
pub mod Counts
pub mod Laws
use nextcore_efi.Common.{
  Bool, List, Option, Result, [], err, false, if◌then◌else◌, is_ok, length, none, not, ok, refuse,
  some, true, ℕ, ◌*◌, ◌+◌, ◌>>=◌, ◌∷◌,
}
use nextcore_efi.Status.{Status, unsupported, invalid_parameter}

-- What is done to the child and to the buffer of its options. An unload carries whether it succeeded;
-- `sees_gone` is the lookup that finds the image already unloaded.
pub data Effect : Type 0 where
  sets_options : (bytes : ℕ) → Effect
  clears_options starts sees_gone frees_options keeps_options : Effect
  unloads : Bool → Effect
  installs_console releases_console : Effect

-- The answers to one `chainload`: `load` of `load_target`, `opened` of the first lookup of the image,
-- with whether its memory types are an application's, `console` of the lease, which is `none` without
-- the feature, `outcome` of `start_image`, `reopened` of the second lookup, and `unload` of UnloadImage.
pub record Image : Type 0 where
  pub load : Result Status (Unit {0})
  pub opened : Result Status Bool
  pub console : Option (Result Status (Unit {0}))
  pub outcome : Status
  pub reopened : Result Status (Unit {0})
  pub unload : Result Status (Unit {0})

-- The size of the options: the units and a NUL, or nothing.
abbrev pub option_bytes : List ℕ → ℕ
option_bytes [] = 0
option_bytes (u ∷ us) = (length us + 2) * 2

abbrev pub configured : Image → Result Status (Unit {0})
configured image = image.opened >>= λ application. refuse (not application) unsupported

abbrev pub is_gone : Status → Bool
is_gone unsupported = true
is_gone invalid_parameter = true
is_gone _ = false

-- The cleanup behind StartImage.
abbrev pub clean_up : Result Status (Unit {0}) → Result Status (Unit {0}) → List Effect
clean_up (ok _) unload = clears_options ∷ unloads (is_ok unload) ∷ frees_options ∷ []
clean_up (err e) unload =
    if is_gone e
    then sees_gone ∷ frees_options ∷ []
    else unloads (is_ok unload) ∷ (if is_ok unload then frees_options else keeps_options) ∷ []

-- A child that is loaded, configured and has its console.
abbrev pub run_child : Image → List Effect
run_child image = starts ∷ clean_up image.reopened image.unload

-- `chainload` behind the options, by the lease of the console.
abbrev pub with_console : Image → Option (Result Status (Unit {0})) → Status × List Effect
with_console image none = (image.outcome, run_child image)
with_console image (some (err e)) = (e, unloads (is_ok image.unload) ∷ frees_options ∷ [])
with_console image (some (ok _)) = (
  image.outcome,
  installs_console ∷ starts ∷ releases_console ∷ clean_up image.reopened image.unload,
)

abbrev pub with_options : Image → List ℕ → Result Status (Unit {0}) → Status × List Effect
with_options image arguments (err e) = (e, unloads (is_ok image.unload) ∷ frees_options ∷ [])
with_options image arguments (ok _) =
    let (status, effects) = with_console image image.console in
    (status, sets_options (option_bytes arguments) ∷ effects)

abbrev pub with_load : Image → List ℕ → Result Status (Unit {0}) → Status × List Effect
with_load image arguments (err e) = (e, [])
with_load image arguments (ok _) = with_options image arguments (configured image)

-- The status and the effects of `chainload`, for a target with these arguments in UTF-16.
unfoldable pub chainload : Image → List ℕ → Status × List Effect
chainload image arguments = with_load image arguments image.load
