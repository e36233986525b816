-- ===== src/Boot/Chainload/Counts.antt =====
-- `chainload` of src/main.rs: how often the image is unloaded, and its options freed or kept.
use nextcore_efi.Common.{
  Bool, Bool-cases, List, Option, Result, [], err, false, if◌then◌else◌, inl, inr, is_ok, none, not,
  ok, refl, some, suc, true, ℕ, ◌&&◌, ◌∷◌, ◌≡◌,
}
use nextcore_efi.Status.{Status}
use nextcore_efi.Boot.Chainload.{
  Effect, frees_options, keeps_options, unloads, Image, configured, is_gone, clean_up, with_console,
  with_options, with_load,
}

abbrev pub unloads_in : List Effect → ℕ
unloads_in [] = 0
unloads_in (unloads b ∷ es) = suc (unloads_in es)
unloads_in (e ∷ es) = unloads_in es

abbrev pub frees_in : List Effect → ℕ
frees_in [] = 0
frees_in (frees_options ∷ es) = suc (frees_in es)
frees_in (e ∷ es) = frees_in es

abbrev pub keeps_in : List Effect → ℕ
keeps_in [] = 0
keeps_in (keeps_options ∷ es) = suc (keeps_in es)
keeps_in (e ∷ es) = keeps_in es

-- The second lookup finds the image unloaded already, or fails with the image still there.
abbrev pub finds_gone : Result Status (Unit {0}) → Bool
finds_gone (ok u) = false
finds_gone (err e) = is_gone e

abbrev pub loses : Result Status (Unit {0}) → Bool
loses (ok u) = false
loses (err e) = not (is_gone e)

-- How often effects unload the image, and free and keep its options.
abbrev pub Counts : (unloaded kept : Bool) → List Effect → Type 0
Counts unloaded kept es =
    (unloads_in es ≡ (if unloaded then 1 else 0))
    × (frees_in es ≡ (if kept then 0 else 1))
    × (keeps_in es ≡ (if kept then 1 else 0))

clean_up-Counts :
    (reopened unload : Result Status (Unit {0}))
    → Counts
        (not (finds_gone reopened))
        (loses reopened && not (is_ok unload))
        (clean_up reopened unload)
clean_up-Counts (ok u) unload = (refl, refl, refl)
clean_up-Counts (err e) (ok v) = elim (Bool-cases (is_gone e)) [
  | inl gone ↦ rw gone (refl, refl, refl)
  | inr there ↦ rw there (refl, refl, refl)
]
clean_up-Counts (err e) (err f) = elim (Bool-cases (is_gone e)) [
  | inl gone ↦ rw gone (refl, refl, refl)
  | inr there ↦ rw there (refl, refl, refl)
]

console-Counts :
    (image : Image) (console : Option (Result Status (Unit {0})))
    → let run : Bool = elim console [ none ↦ true | some r ↦ is_ok r ] in
      Counts
        (not (run && finds_gone image.reopened))
        (run && loses image.reopened && not (is_ok image.unload))
        (with_console image console).1
console-Counts image none = clean_up-Counts image.reopened image.unload
console-Counts image (some (ok u)) = clean_up-Counts image.reopened image.unload
console-Counts image (some (err e)) = (refl, refl, refl)

options-Counts :
    (image : Image) (arguments : List ℕ) (r : Result Status (Unit {0}))
    → let run : Bool = is_ok r && (elim image.console [ none ↦ true | some r ↦ is_ok r ]) in
      Counts
        (not (run && finds_gone image.reopened))
        (run && loses image.reopened && not (is_ok image.unload))
        (with_options image arguments r).1
options-Counts image arguments (ok u) = console-Counts image image.console
options-Counts image arguments (err e) = (refl, refl, refl)

-- The image is unloaded once, unless the child ran and the image is then found gone; the options are
-- freed once, unless the child ran, its image cannot be looked up though it is still there, and the
-- unload fails, when they are kept. Nothing is done to an image that did not load.
abbrev pub Disposes : Image → Result Status (Unit {0}) → List Effect → Type 0
Disposes image (err e) es = es ≡ []
Disposes image (ok u) es =
    let run : Bool =
      is_ok (configured image) && (elim image.console [ none ↦ true | some r ↦ is_ok r ]) in
    Counts (not (run && finds_gone image.reopened))
      (run && loses image.reopened && not (is_ok image.unload)) es

pub load-Disposes :
    (image : Image) (arguments : List ℕ) (r : Result Status (Unit {0}))
    → Disposes image r (with_load image arguments r).1
load-Disposes image arguments (ok u) = options-Counts image arguments (configured image)
load-Disposes image arguments (err e) = refl
