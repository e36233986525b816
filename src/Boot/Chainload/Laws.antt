-- ===== src/Boot/Chainload/Laws.antt =====
-- `chainload` of src/main.rs: who points to the options when they are freed, and how often a child runs.
use nextcore_efi.Common.{
  Bool, Bool-cases, List, Option, Result, [], ap, err, false, if◌then◌else◌, inl, inr, is_ok, none,
  not, ok, refl, some, suc, true, ℕ, ◌&&◌, ◌||◌, ◌∷◌, ◌≡◌,
}
use nextcore_efi.Status.{Status}
use nextcore_efi.Boot.Chainload.{
  Effect, sets_options, clears_options, starts, sees_gone, frees_options, keeps_options, unloads,
  installs_console, releases_console, Image, configured, is_gone, clean_up, with_console,
  with_options, with_load, chainload,
}
use nextcore_efi.Boot.Chainload.Counts.{Disposes, load-Disposes}

-- Whether effects free the options while a loaded image points to them; `pointed` is whether one does
-- before. An image that is unloaded points to nothing.
abbrev pub dangles : Bool → List Effect → Bool
dangles pointed [] = false
dangles pointed (sets_options n ∷ es) = dangles true es
dangles pointed (clears_options ∷ es) = dangles false es
dangles pointed (sees_gone ∷ es) = dangles false es
dangles pointed (unloads true ∷ es) = dangles false es
dangles pointed (unloads false ∷ es) = dangles pointed es
dangles pointed (frees_options ∷ es) = pointed || dangles pointed es
dangles pointed (keeps_options ∷ es) = dangles pointed es
dangles pointed (starts ∷ es) = dangles pointed es
dangles pointed (installs_console ∷ es) = dangles pointed es
dangles pointed (releases_console ∷ es) = dangles pointed es

abbrev pub starts_in : List Effect → ℕ
starts_in [] = 0
starts_in (starts ∷ es) = suc (starts_in es)
starts_in (e ∷ es) = starts_in es

-- The one way to free options that a surviving image points to: the lease of the console is refused
-- behind the options, and the image cannot be unloaded.
abbrev pub is_stranded : Image → Bool
is_stranded image =
    is_ok image.load
    && is_ok (configured image)
    && (elim image.console [ none ↦ false | some r ↦ not (is_ok r) ])
    && not (is_ok image.unload)

clean_up-safe :
    (reopened unload : Result Status (Unit {0})) → dangles true (clean_up reopened unload) ≡ false
clean_up-safe (ok u) (ok v) = refl
clean_up-safe (ok u) (err e) = refl
clean_up-safe (err e) (ok v) = elim (Bool-cases (is_gone e)) [
  | inl gone ↦ rw gone refl
  | inr there ↦ rw there refl
]
clean_up-safe (err e) (err f) = elim (Bool-cases (is_gone e)) [
  | inl gone ↦ rw gone refl
  | inr there ↦ rw there refl
]

clean_up-starts :
    (reopened unload : Result Status (Unit {0})) → starts_in (clean_up reopened unload) ≡ 0
clean_up-starts (ok u) unload = refl
clean_up-starts (err e) (ok v) = elim (Bool-cases (is_gone e)) [
  | inl gone ↦ rw gone refl
  | inr there ↦ rw there refl
]
clean_up-starts (err e) (err f) = elim (Bool-cases (is_gone e)) [
  | inl gone ↦ rw gone refl
  | inr there ↦ rw there refl
]

console-dangles :
    (image : Image) (console : Option (Result Status (Unit {0})))
    → dangles true (with_console image console).1
      ≡ ((elim console [ none ↦ false | some r ↦ not (is_ok r) ]) && not (is_ok image.unload))
console-dangles image none = clean_up-safe image.reopened image.unload
console-dangles image (some (ok u)) = clean_up-safe image.reopened image.unload
console-dangles image (some (err e)) = elim (Bool-cases (is_ok image.unload)) [
  | inl fine ↦ rw fine refl
  | inr kept ↦ rw kept refl
]

options-dangles :
    (image : Image) (arguments : List ℕ) (r : Result Status (Unit {0}))
    → dangles false (with_options image arguments r).1 ≡ (
        is_ok r
        && (elim image.console [ none ↦ false | some r ↦ not (is_ok r) ])
        && not (is_ok image.unload))
options-dangles image arguments (ok u) = console-dangles image image.console
options-dangles image arguments (err e) = elim (Bool-cases (is_ok image.unload)) [
  | inl fine ↦ rw fine refl
  | inr kept ↦ rw kept refl
]

load-dangles :
    (image : Image) (arguments : List ℕ) (r : Result Status (Unit {0}))
    → dangles false (with_load image arguments r).1 ≡ (
        is_ok r
        && is_ok (configured image)
        && (elim image.console [ none ↦ false | some r ↦ not (is_ok r) ])
        && not (is_ok image.unload))
load-dangles image arguments (ok u) = options-dangles image arguments (configured image)
load-dangles image arguments (err e) = refl

-- The child runs once if it is loaded and configured and its console is there, and else not at all.
abbrev pub is_run : Image → Bool
is_run image =
    is_ok image.load
    && is_ok (configured image)
    && (elim image.console [ none ↦ true | some r ↦ is_ok r ])

console-starts :
    (image : Image) (console : Option (Result Status (Unit {0})))
    → (starts_in (with_console image console).1
        ≡ (if elim console [ none ↦ true | some r ↦ is_ok r ] then 1 else 0))
      × ((elim console [ none ↦ true | some r ↦ is_ok r ]) ≡ true
          → (with_console image console).0 ≡ image.outcome)
console-starts image none = (ap suc (clean_up-starts image.reopened image.unload), λ h. refl)
console-starts image (some (ok u)) =
    (ap suc (clean_up-starts image.reopened image.unload), λ h. refl)
console-starts image (some (err e)) = (refl, λ h. absurd (cc))

options-starts :
    (image : Image) (arguments : List ℕ) (r : Result Status (Unit {0}))
    → (starts_in (with_options image arguments r).1
        ≡ (if is_ok r && (elim image.console [ none ↦ true | some r ↦ is_ok r ]) then 1 else 0))
      × ((is_ok r && (elim image.console [ none ↦ true | some r ↦ is_ok r ])) ≡ true
          → (with_options image arguments r).0 ≡ image.outcome)
options-starts image arguments (ok u) = console-starts image image.console
options-starts image arguments (err e) = (refl, λ h. absurd (cc))

load-starts :
    (image : Image) (arguments : List ℕ) (r : Result Status (Unit {0}))
    → (starts_in (with_load image arguments r).1 ≡ (
        if is_ok r
          && is_ok (configured image)
          && (elim image.console [ none ↦ true | some r ↦ is_ok r ])
        then 1
        else 0))
      × ((is_ok r
              && is_ok (configured image)
              && (elim image.console [ none ↦ true | some r ↦ is_ok r ]))
            ≡ true
          → (with_load image arguments r).0 ≡ image.outcome)
load-starts image arguments (ok u) = options-starts image arguments (configured image)
load-starts image arguments (err e) = (refl, λ h. absurd (cc))

-- Whatever the firmware answers, `chainload` frees the options while a loaded image points to them
-- only if the console lease is refused behind the options and the image then fails to unload. The child
-- runs exactly once if it is loaded, is an application and has its console, and `chainload` answers its
-- status; otherwise it does not run. A loaded image is unloaded once, unless the child ran and the image
-- is then found gone; its options are freed once, unless the child ran and its image is still there but
-- neither opens nor unloads, when they are kept. Nothing is done to an image that did not load.
pub chainload_safety :
    (image : Image) (arguments : List ℕ)
    → (dangles false (chainload image arguments).1 ≡ is_stranded image)
      × (starts_in (chainload image arguments).1 ≡ (if is_run image then 1 else 0))
      × (is_run image ≡ true → (chainload image arguments).0 ≡ image.outcome)
      × Disposes image image.load (chainload image arguments).1
unfolding chainload
chainload_safety image arguments =
    let (once, status) = load-starts image arguments image.load in
    (
      load-dangles image arguments image.load,
      once,
      status,
      load-Disposes image arguments image.load,
    )
