-- ===== src/Boot/Flow/Laws.antt =====
-- `efi_main` of src/main.rs: which targets are booted, when a boot is followed by another and with
-- which status it returns.
use nextcore_efi.Common.{
  All, Bool, Bool-cases, List, Option, Result, [], ap, arith, err, false, get_elem?, inl, inr,
  length, none, ok, refl, some, subst, suc, sym, true, zero, ℕ, ◌<◌, ◌∷◌, ◌≡◌, ◌≢◌, ◌⊎◌,
}
use nextcore_efi.Status.{Status, is_error, invalid_parameter, not_found, aborted}
use nextcore_efi.Boot.Keys.{Action, acknowledge_failure, choose_recovery, Recovery, retry, exit}
use nextcore_efi.Boot.Picker.{Update, choose}
use nextcore_efi.Boot.Config.{Fault, read_config}
use nextcore_efi.Boot.Chainload.{chainload}
use nextcore_efi.Boot.Flow.{
  Menu, Attempt, Cycle, Outcome, waiting, panicked, returned, Booted, acknowledge, after_boot,
  after_choice, recover, attempt_loop, boot_entry, by_picker, with_entries, with_menu, with_config,
  efi_main,
}
use nextcore_efi.Boot.Flow.Choice.{IsInMenu, choose-lt}

get_elem?-inside :
    {A : Type 0} (xs : List A) (i : ℕ) → i < length xs → (a : A) × (get_elem? xs i ≡ some a)
get_elem?-inside [] i h = absurd (omega arith)
get_elem?-inside (x ∷ xs) zero h = (x, refl)
get_elem?-inside (x ∷ xs) (suc i) h = get_elem?-inside xs i (omega arith)

-- The order of boots: another follows only one that failed, and a boot that is followed by none and did
-- not fail gives the program its status.
abbrev pub Retries : Outcome → List Booted → Type 0
Retries outcome [] = Unit {0}
Retries outcome (b ∷ []) = is_error b.status ≡ false → outcome ≡ returned b.status
Retries outcome (b ∷ c ∷ bs) = (is_error b.status ≡ true) × Retries outcome (c ∷ bs)

-- An entry of a menu, the first one if the menu has no picker.
abbrev pub IsEntry : Menu → Booted → Type 0
IsEntry menu b =
    (i : ℕ) × (get_elem? menu.entries i ≡ some b.arguments) × (menu.show_picker ≡ false → i ≡ 0)

-- What holds of a run: it does not panic, its boots are in order, and each is one of `P`.
pub record IsSound (P : Booted → Type 0) (run : Outcome × List Booted) : Type 0 where
  pub total : run.0 ≢ panicked
  pub order : Retries run.0 run.1
  pub entry : All P run.1

silent : (P : Booted → Type 0) (o : Outcome) → o ≢ panicked → IsSound P (o, [])
silent P o h = record { total = h; order = tt; entry = tt }

followed :
    (P : Booted → Type 0) (b : Booted) (run : Outcome × List Booted)
    → is_error b.status ≡ true
    → P b
    → IsSound P run
    → IsSound P (run.0, b ∷ run.1)
followed P b (o, []) failed p s = record { total = s.total; order = λ fine. cc; entry = (p, tt) }
followed P b (o, c ∷ bs) failed p s = record {
  total = s.total;
  order = (failed, s.order);
  entry = (p, s.entry);
}

acknowledge-IsSound :
    (P : Booted → Type 0) (o : Option (Result Status (Unit {0}))) (later : Outcome × List Booted)
    → IsSound P later
    → IsSound P (acknowledge o later)
acknowledge-IsSound P none later s = silent P waiting (λ e. cc)
acknowledge-IsSound P (some (err e)) later s = silent P (returned e) (λ e. cc)
acknowledge-IsSound P (some (ok u)) later s = s

after_boot-IsSound :
    (P : Booted → Type 0) (arguments : List ℕ) (a : Attempt) (status : Status)
    (later : Outcome × List Booted)
    → P (record { arguments = arguments; status = status })
    → IsSound P later
    → IsSound P (after_boot arguments a status later)
after_boot-IsSound P arguments a status later p s = elim (Bool-cases (is_error status)) [
  | inl failed ↦ rw failed (
      followed P (record { arguments = arguments; status = status })
        (acknowledge (acknowledge_failure a.keys) later) failed p
        (acknowledge-IsSound P (acknowledge_failure a.keys) later s))
  | inr fine ↦ rw fine (record { total = λ e. cc; order = λ h. refl; entry = (p, tt) })
]

widen :
    (P Q : Booted → Type 0) → ((b : Booted) → P b → Q b) → (bs : List Booted) → All P bs → All Q bs
widen P Q f [] h = tt
widen P Q f (b ∷ bs) h = (f b h.0, widen P Q f bs h.1)

after_choice-IsSound :
    (P : Booted → Type 0) (menu : Menu) (a : Attempt) (o : Option (Result Status (Option ℕ)))
    (later : Outcome × List Booted)
    → ((b : Booted) → IsEntry menu b → P b)
    → ((i : ℕ) → o ≡ some (ok (some i)) → i < length menu.entries)
    → menu.show_picker ≡ true
    → IsSound P later
    → IsSound P (after_choice menu a o later)
after_choice-IsSound P menu a none later keep inside shown s = silent P waiting (λ e. cc)
after_choice-IsSound P menu a (some (err e)) later keep inside shown s =
    silent P (returned e) (λ e. cc)
after_choice-IsSound P menu a (some (ok none)) later keep inside shown s =
    silent P (returned aborted) (λ e. cc)
after_choice-IsSound P menu a (some (ok (some i))) later keep inside shown s =
    let (arguments, found) = get_elem?-inside menu.entries i (inside i refl) in
    subst (λ o. IsSound P (boot_entry a o later)) (sym found)
      (after_boot-IsSound P arguments a (chainload a.image arguments).0 later
        (keep (record { arguments = arguments; status = (chainload a.image arguments).0 })
          (i, found, λ hidden. absurd (cc)))
        s)

module _ {E : Type 0} (parse : List ℕ → Result E Menu) where
  -- The targets that the configuration of one cycle offers.
  abbrev pub OfferedBy : Cycle → Booted → Type 0
  OfferedBy c b =
      (bytes : List ℕ) × (menu : Menu) × (read_config c.volume ≡ some (ok bytes))
      × (parse bytes ≡ ok menu)
      × IsEntry menu b

  -- A target that the configuration of one of the cycles offers.
  abbrev pub Offered : List Cycle → Booted → Type 0
  Offered [] b = ⊥
  Offered (c ∷ cs) b = OfferedBy c b ⊎ Offered cs b

module _ (navigate : ℕ → ℕ → Action → Update × ℕ) (bounded : IsInMenu navigate) where
  attempt_loop-IsSound :
      (P : Booted → Type 0) (menu : Menu)
      → ((b : Booted) → IsEntry menu b → P b)
      → menu.show_picker ≡ true
      → (as' : List Attempt) → IsSound P (attempt_loop navigate menu as')
  unfolding attempt_loop
  attempt_loop-IsSound P menu keep shown [] = silent P waiting (λ e. cc)
  attempt_loop-IsSound P menu keep shown (a ∷ as') =
      after_choice-IsSound P menu a (choose navigate (length menu.entries) a.graphics a.turns)
        (attempt_loop navigate menu as') keep
        (λ i e. choose-lt navigate bounded (length menu.entries) i a.graphics a.turns e) shown
        (attempt_loop-IsSound P menu keep shown as')

  by_picker-IsSound :
      (P : Booted → Type 0) (shown : Bool) (c : Cycle) (menu : Menu) (arguments : List ℕ)
      → ((b : Booted) → IsEntry menu b → P b)
      → get_elem? menu.entries 0 ≡ some arguments
      → menu.show_picker ≡ shown
      → IsSound P (by_picker navigate shown c menu arguments)
  by_picker-IsSound P true c menu arguments keep at shown =
      attempt_loop-IsSound P menu keep shown c.attempts
  by_picker-IsSound P false c menu arguments keep at shown = record {
    total = λ e. cc;
    order = λ h. refl;
    entry = (
      keep (record { arguments = arguments; status = (chainload c.direct arguments).0 })
          (0, at, λ hidden. refl),
      tt,
    );
  }

  recover-IsSound :
      (P : Booted → Type 0) (status : Status) (o : Option (Result Status Recovery))
      (later : Outcome × List Booted)
      → IsSound P later
      → IsSound P (recover status o later)
  recover-IsSound P status none later s = silent P waiting (λ e. cc)
  recover-IsSound P status (some (err e)) later s = silent P (returned e) (λ e. cc)
  recover-IsSound P status (some (ok retry)) later s = s
  recover-IsSound P status (some (ok exit)) later s = silent P (returned status) (λ e. cc)

  module _ {E : Type 0} (parse : List ℕ → Result E Menu) where
    with_entries-IsSound :
        (P : Booted → Type 0) (c : Cycle) (menu : Menu) (entries : List (List ℕ))
        (later : Outcome × List Booted)
        → menu.entries ≡ entries
        → ((b : Booted) → IsEntry menu b → P b)
        → IsSound P later
        → IsSound P (with_entries navigate parse c menu entries later)
    with_entries-IsSound P c menu [] later e keep s =
        recover-IsSound P not_found (choose_recovery c.message c.shown c.keys) later s
    with_entries-IsSound P c menu (first ∷ others) later e keep s =
        by_picker-IsSound P menu.show_picker c menu first keep (ap (λ es. get_elem? es 0) e) refl

    with_menu-IsSound :
        (P : Booted → Type 0) (c : Cycle) (r : Result E Menu) (later : Outcome × List Booted)
        → ((menu : Menu) → r ≡ ok menu → (b : Booted) → IsEntry menu b → P b)
        → IsSound P later
        → IsSound P (with_menu navigate parse c r later)
    with_menu-IsSound P c (err e) later keep s =
        recover-IsSound P invalid_parameter (choose_recovery c.message c.shown c.keys) later s
    with_menu-IsSound P c (ok menu) later keep s =
        with_entries-IsSound P c menu menu.entries later refl (keep menu refl) s

    with_config-IsSound :
        (P : Booted → Type 0) (c : Cycle) (o : Option (Result Fault (List ℕ)))
        (later : Outcome × List Booted)
        → ((bytes : List ℕ) (menu : Menu)
            → o ≡ some (ok bytes)
            → parse bytes ≡ ok menu
            → (b : Booted) → IsEntry menu b
            → P b)
        → IsSound P later
        → IsSound P (with_config navigate parse c o later)
    with_config-IsSound P c none later keep s = silent P waiting (λ e. cc)
    with_config-IsSound P c (some (err fault)) later keep s =
        recover-IsSound P fault.0 (choose_recovery c.message c.shown c.keys) later s
    with_config-IsSound P c (some (ok bytes)) later keep s =
        with_menu-IsSound P c (parse bytes) later (λ menu e. keep bytes menu refl e) s

    -- If the core library's `navigate` boots only indices of the menu, `efi_main` never indexes the menu
    -- out of range; it boots only targets of a menu that it read and parsed, the first one of a menu
    -- without a picker; another boot follows only one that failed; and when the last boot did not fail, `efi_main` returns its status.
    pub efi_main-IsSound :
        (cs : List Cycle) → IsSound (Offered parse cs) (efi_main navigate parse cs)
    unfolding efi_main
    efi_main-IsSound [] = silent (Offered parse []) waiting (λ e. cc)
    efi_main-IsSound (c ∷ cs) =
        with_config-IsSound (Offered parse (c ∷ cs)) c (read_config c.volume)
          (efi_main navigate parse cs)
          (λ bytes menu read parsed b at. inl (bytes, menu, read, parsed, at))
          (widened (efi_main navigate parse cs) (efi_main-IsSound cs))
      where
        widened :
            (run : Outcome × List Booted)
            → IsSound (Offered parse cs) run
            → IsSound (Offered parse (c ∷ cs)) run
        widened run s = record {
          total = s.total;
          order = s.order;
          entry = widen (Offered parse cs) (Offered parse (c ∷ cs)) (λ b h. inr h) run.1 s.entry;
        }
