-- ===== src/InputState/Transition.antt =====
-- InputState::transition of src/input_state.cpp: the rows that lead from one state to another, the
-- releases apart from the presses.
pub mod Release
mod Leads
mod Own
pub mod Target
use aoahid_player.Base.Int.{ℤ, pos, eqb_ℤ}
use aoahid_player.Base.{
  ℕ, suc, Bool, true, false, not, ◌&&◌, ◌||◌, Option, none, some, List, [], ◌∷◌, ◌++◌,
  if◌then◌else◌,
}
use aoahid_player.Event.{
  EventPayload, GamepadDpad, StylusSample, touch_event, mouse_button, key_event, gamepad_button,
  gamepad_axis, gamepad_dpad, pen_sample, digitizer_sample, media_key,
}
use aoahid_player.InputState.{InputState, Contact, contains, dpad_neutral}
use mathlib.Core.Bool.{beq}

-- Releases and presses.
pub record Rows : Type 0 where
  pub releases : List EventPayload
  pub presses : List EventPayload

abbrev pub no_rows : Rows
no_rows = record { releases = []; presses = [] }

-- A row that goes to the presses, where the flag is true, or to the releases; none is no row.
abbrev pub Change : Type 0
Change = Option (Bool × EventPayload)

-- The row in front of its list.
unfoldable pub put : Change → Rows → Rows
put none r = r
put (some (true, row)) r = record r { presses = row ∷ r.presses }
put (some (false, row)) r = record r { releases = row ∷ r.releases }

unfoldable pub difference : (ℕ → EventPayload) → List ℕ → List ℕ → List EventPayload
difference row [] b = []
difference row (value ∷ a) b =
    if not (contains b value) then row value ∷ difference row a b else difference row a b

unfoldable pub same_dpad : GamepadDpad → GamepadDpad → Bool
same_dpad a b = beq a.up b.up && beq a.down b.down && beq a.right b.right && beq a.left b.left

unfoldable pub same_stylus : StylusSample → StylusSample → Bool
same_stylus a b =
    if not (beq a.in_range b.in_range)
    then false
    else if not a.in_range
    then true
    else beq a.tip b.tip && eqb_ℤ a.x b.x && eqb_ℤ a.y b.y && eqb_ℤ a.pressure b.pressure

-- The body of the loop over the contacts.
unfoldable pub contact_change : ℕ → Contact → Contact → Change
contact_change id a b =
    let row = λ (down : Bool) (c : Contact).
      touch_event (record { finger_id = pos id; state = down; x = c.x; y = c.y }) in
    if a.active && not b.active
    then some (false, row false a)
    else if b.active && (not a.active || not (eqb_ℤ a.x b.x) || not (eqb_ℤ a.y b.y))
    then some (true, row true b)
    else none

-- The body of the loop over the keys.
unfoldable pub key_change : ℕ → Bool → Bool → Change
key_change usage a b =
    if beq a b then none else some (b, key_event (record { usage = usage; down = b }))

-- The body of the loop over the axes.
unfoldable pub axis_change : ℕ → ℤ → ℤ → Change
axis_change index a target =
    if eqb_ℤ a target
    then none
    else some
        (not (eqb_ℤ target (pos 0)), gamepad_axis (record { axis_index = index; value = target }))

-- A loop over the places of two arrays, from place `i` on.
unfoldable pub loop_rows {ℓ} : {A : Type ℓ} → (ℕ → A → A → Change) → ℕ → List A → List A → Rows
unfolding put
loop_rows change i (a ∷ xs) (b ∷ ys) = put (change i a b) (loop_rows change (suc i) xs ys)
loop_rows change i _ _ = no_rows

unfoldable pub dpad_change : GamepadDpad → GamepadDpad → Change
unfolding same_dpad
dpad_change a b = if same_dpad a b then none else some (not (dpad_neutral b), gamepad_dpad b)

unfoldable pub lifted : StylusSample → StylusSample
lifted a = record { in_range = false; tip = false; x = a.x; y = a.y; pressure = pos 0 }

unfoldable pub stylus_change : (StylusSample → EventPayload) → StylusSample → StylusSample → Change
unfolding same_stylus lifted
stylus_change row a b =
    if same_stylus a b
    then none
    else if b.in_range
    then some (true, row b)
    else some (false, row (lifted a))

-- The members of a set that are let go, and those that are pressed.
unfoldable pub set_rows : (ℕ → Bool → EventPayload) → List ℕ → List ℕ → Rows
unfolding difference
set_rows row a b = record {
  releases = difference (λ n. row n false) a b;
  presses = difference (λ n. row n true) b a;
}

abbrev pub mouse_row : ℕ → Bool → EventPayload
mouse_row n down = mouse_button (record { button = n; pressed = down })

abbrev pub pad_row : ℕ → Bool → EventPayload
pad_row n down = gamepad_button (record { button = n; pressed = down })

abbrev pub consumer_row : ℕ → Bool → EventPayload
consumer_row n down = media_key (record { usage = n; down = down })

abbrev pub all_rows : List Rows → Rows
all_rows [] = no_rows
all_rows (r ∷ rs) =
    let rest = all_rows rs in
    record { releases = r.releases ++ rest.releases; presses = r.presses ++ rest.presses }

-- The loops of transition, in their order.
abbrev pub pieces : InputState → InputState → List Rows
pieces from to =
    loop_rows contact_change 0 from.contacts to.contacts
    ∷ loop_rows key_change 0 from.keys to.keys
    ∷ set_rows mouse_row from.mouse_buttons to.mouse_buttons
    ∷ set_rows pad_row from.pad_buttons to.pad_buttons
    ∷ loop_rows axis_change 0 from.axes to.axes
    ∷ put (dpad_change from.dpad to.dpad) no_rows
    ∷ set_rows consumer_row from.media to.media
    ∷ put (stylus_change pen_sample from.pen to.pen) no_rows
    ∷ put (stylus_change digitizer_sample from.digitizer to.digitizer) no_rows
    ∷ []

unfoldable pub transition : InputState → InputState → Rows
unfolding loop_rows put contact_change key_change axis_change dpad_change stylus_change set_rows
transition from to = all_rows (pieces from to)
