-- ===== src/Boot/Picker.antt =====
-- src/picker.rs: the boot menu. `Update` and `navigate` are those of the core library, which enters as
-- a parameter; what is drawn is not modelled, only whether the drawing succeeds.
use nextcore_efi.Common.{
  Bool, List, Option, Result, [], err, false, if◌then◌else◌, ltb, map, none, not, ok, some, take,
  true, ℕ, ◌&&◌, ◌==◌, ◌>>=◌, ◌||◌, ◌∷◌,
}
use nextcore_efi.Status.{Status, invalid_parameter}
use nextcore_efi.Boot.Keys.{Round, Action, read_action}

pub data Update : Type 0 where
  redraw_menu cancelled unchanged : Update
  boots : ℕ → Update

-- One turn of the loop of `choose`: whether `draw` succeeds, what `draw_text` answers, and the rounds
-- of `read_action`.
pub record Turn : Type 0 where
  pub drawn : Bool
  pub text : Result Status (Unit {0})
  pub rounds : List Round

-- The part of a turn that draws, with whether the GOP is still in use. Without a redraw nothing is drawn.
abbrev pub show_menu : Bool → Bool → Turn → Result Status Bool
show_menu redraw graphics turn =
    if not redraw
    then ok graphics
    else if graphics && turn.drawn
    then ok true
    else (turn.text >>= λ _. ok false)

-- How a turn ends: with the result of `choose`, or with the next turn's selection and redraw.
pub data Next : Type 0 where
  waits : Next
  ends : Result Status (Option ℕ) → Next
  goes_on : (selected : ℕ) (redraw graphics : Bool) → Next

-- The `match` on an update. The failure of the confirmation is only reported.
abbrev pub after_update : Bool → Update × ℕ → Next
after_update graphics (redraw_menu, selected) = goes_on selected true graphics
after_update graphics (boots index, selected) = ends (ok (some index))
after_update graphics (cancelled, selected) = ends (ok none)
after_update graphics (unchanged, selected) = goes_on selected false graphics

-- The loop behind a turn.
abbrev pub after_turn :
    Next → (ℕ → Bool → Bool → Option (Result Status (Option ℕ))) → Option (Result Status (Option ℕ))
after_turn waits rest = none
after_turn (ends r) rest = some r
after_turn (goes_on selected redraw graphics) rest = rest selected redraw graphics

-- `navigate` takes the selection, the number of entries and an action.
module _ (navigate : ℕ → ℕ → Action → Update × ℕ) where
  -- A turn behind its drawing.
  abbrev pub act : (count selected : ℕ) (graphics : Bool) → Option (Result Status Action) → Next
  act count selected graphics none = waits
  act count selected graphics (some (err e)) = ends (err e)
  act count selected graphics (some (ok action)) =
      after_update graphics (navigate selected count action)

  abbrev pub drawn_menu : (count selected : ℕ) → Turn → Result Status Bool → Next
  drawn_menu count selected t (err e) = ends (err e)
  drawn_menu count selected t (ok using) = act count selected using (read_action t.rounds)

  -- The body of the loop of `choose`.
  unfoldable pub turn_menu : (count selected : ℕ) (redraw graphics : Bool) → Turn → Next
  turn_menu count selected redraw graphics t =
      drawn_menu count selected t (show_menu redraw graphics t)

  -- The loop of `choose`: `none` waits for a key.
  unfoldable pub menu_loop :
      (count selected : ℕ) (redraw graphics : Bool) → List Turn → Option (Result Status (Option ℕ))
  menu_loop count selected redraw graphics [] = none
  menu_loop count selected redraw graphics (t ∷ ts) =
      after_turn (turn_menu count selected redraw graphics t)
        (λ chosen again using. menu_loop count chosen again using ts)

  -- `choose`; `graphics` is whether a GOP was opened.
  unfoldable pub choose : (count : ℕ) → Bool → List Turn → Option (Result Status (Option ℕ))
  choose count graphics turns =
      if count == 0 || ltb 64 count
      then some (err invalid_parameter)
      else menu_loop count 0 true graphics turns

-- `display`: the first `cap` characters, with `?` for all but printable ASCII.
unfoldable pub display : List ℕ → ℕ → List ℕ
display value cap =
    map (λ c. if ltb c 0x80 && not (ltb c 0x20 || c == 0x7f) then c else 0x3f) (take cap value)
