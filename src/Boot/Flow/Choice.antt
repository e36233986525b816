-- ===== src/Boot/Flow/Choice.antt =====
-- `choose` of src/picker.rs: the index that it answers against the number of entries.
use nextcore_efi.Common.{
  Bool, Bool-cases, List, Option, Result, [], err, if◌then◌else◌, inl, inr, ltb, none, ok, refl,
  some, subst, sym, true, ℕ, ◌<◌, ◌==◌, ◌||◌, ◌∷◌, ◌≡◌,
}
use nextcore_efi.Status.{Status, invalid_parameter}
use nextcore_efi.Boot.Keys.{Action, read_action}
use nextcore_efi.Boot.Picker.{
  Update, redraw_menu, cancelled, unchanged, boots, Turn, show_menu, Next, waits, ends, goes_on,
  after_update, act, after_turn, drawn_menu, turn_menu, menu_loop, choose,
}

-- What the core library documents of `navigate`: an index that boots is an entry's.
abbrev pub IsInMenu : (ℕ → ℕ → Action → Update × ℕ) → Type 0
IsInMenu navigate =
    (selected count index after : ℕ) (action : Action)
    → navigate selected count action ≡ (boots index, after)
    → index < count

module _ (navigate : ℕ → ℕ → Action → Update × ℕ) (bounded : IsInMenu navigate) where
  update-lt :
      (count selected index : ℕ) (graphics : Bool) (action : Action) (u : Update × ℕ)
      → navigate selected count action ≡ u
      → after_update graphics u ≡ ends (ok (some index))
      → index < count
  update-lt count selected index graphics action (redraw_menu, s) e h = cc
  update-lt count selected index graphics action (cancelled, s) e h = cc
  update-lt count selected index graphics action (unchanged, s) e h = cc
  update-lt count selected index graphics action (boots i, s) e h =
      let same : i ≡ index = cc in subst (λ k. k < count) same (bounded selected count i s action e)

  act-lt :
      (count selected index : ℕ) (graphics : Bool) (o : Option (Result Status Action))
      → act navigate count selected graphics o ≡ ends (ok (some index))
      → index < count
  act-lt count selected index graphics none h = cc
  act-lt count selected index graphics (some (err e)) h = cc
  act-lt count selected index graphics (some (ok action)) h =
      update-lt count selected index graphics action (navigate selected count action) refl h

  drawn-lt :
      (count selected index : ℕ) (t : Turn) (r : Result Status Bool)
      → drawn_menu navigate count selected t r ≡ ends (ok (some index))
      → index < count
  drawn-lt count selected index t (err e) h = cc
  drawn-lt count selected index t (ok using) h =
      act-lt count selected index using (read_action t.rounds) h

  after_turn-lt :
      (count index : ℕ) (n : Next) (rest : ℕ → Bool → Bool → Option (Result Status (Option ℕ)))
      → (n ≡ ends (ok (some index)) → index < count)
      → ((s : ℕ) (r g : Bool) → rest s r g ≡ some (ok (some index)) → index < count)
      → after_turn n rest ≡ some (ok (some index))
      → index < count
  after_turn-lt count index waits rest now later h = cc
  after_turn-lt count index (ends r) rest now later h = now (cc)
  after_turn-lt count index (goes_on s r g) rest now later h = later s r g h

  loop-lt :
      (count selected index : ℕ) (redraw graphics : Bool) (ts : List Turn)
      → menu_loop navigate count selected redraw graphics ts ≡ some (ok (some index))
      → index < count
  unfolding menu_loop turn_menu
  loop-lt count selected index redraw graphics [] h = cc
  loop-lt count selected index redraw graphics (t ∷ ts) h =
      after_turn-lt count index (turn_menu navigate count selected redraw graphics t)
        (λ chosen again using. menu_loop navigate count chosen again using ts)
        (drawn-lt count selected index t (show_menu redraw graphics t))
        (λ s r g. loop-lt count s index r g ts) h

  pub choose-lt :
      (count index : ℕ) (graphics : Bool) (ts : List Turn)
      → choose navigate count graphics ts ≡ some (ok (some index))
      → index < count
  unfolding choose
  choose-lt count index graphics ts h = elim (Bool-cases (count == 0 || ltb 64 count)) [
    | inl bad ↦ absurd (
        subst
          (λ b.
            (if b
                then some (err invalid_parameter)
                else menu_loop navigate count 0 true graphics ts)
              ≡ some (ok (some index))
            → ⊥)
          (sym bad) (λ k. cc) h)
    | inr good ↦ loop-lt count 0 index true graphics ts (
        subst
          (λ b.
            (if b
              then some (err invalid_parameter)
              else menu_loop navigate count 0 true graphics ts)
            ≡ some (ok (some index)))
          good h)
  ]
