-- ===== src/InputState/Held.antt =====
-- What is held, control by control: an independent reading of InputState (src/input_state.cpp), and
-- the effect of a row on it.
use aoahid_player.Base.Int.{ℤ, pos, negsuc}
use aoahid_player.Base.{
  ℕ, ◌≡◌, Bool, true, false, Option, none, some, List, [], ◌∷◌, ◌++◌, get_or, ltb, ◌==◌,
  if◌then◌else◌, refl, sym,
}
use aoahid_player.Event.Control.{
  Control, contact, button, key, pad_button, axis, dpad, pen, digitizer, media,
}
use aoahid_player.Event.{
  EventPayload, GamepadDpad, StylusSample, touch_event, mouse_button, key_event, gamepad_button,
  gamepad_axis, gamepad_dpad, pen_sample, digitizer_sample, media_key,
}
use aoahid_player.InputState.{
  InputState, Contact, no_contact, max_contacts, max_axes, key_count, contains,
}

-- The value of a control. A contact that is up has no position, and a stylus out of range no sample.
pub data Value : Type 0 where
  released : Value
  pressed : Value
  at : ℤ → ℤ → Value
  level : ℤ → Value
  directions : GamepadDpad → Value
  sample : StylusSample → Value

abbrev pub contact_value : Contact → Value
contact_value c = if c.active then at c.x c.y else released

abbrev pub flag_value : Bool → Value
flag_value b = if b then pressed else released

abbrev pub stylus_value : StylusSample → Value
stylus_value s = if s.in_range then sample s else released

-- What a control holds. The numbers that the state does not track read as released, or as level 0.
unfoldable pub held : InputState → Control → Value
held s (contact (pos id)) = contact_value (get_or s.contacts id no_contact)
held s (contact (negsuc n)) = released
held s (button n) = flag_value (contains s.mouse_buttons n)
held s (key n) = flag_value (get_or s.keys n false)
held s (pad_button n) = flag_value (contains s.pad_buttons n)
held s (axis n) = level (get_or s.axes n (pos 0))
held s dpad = directions s.dpad
held s pen = stylus_value s.pen
held s digitizer = stylus_value s.digitizer
held s (media n) = flag_value (contains s.media n)

-- The new value where two numbers are the same and the state tracks them.
abbrev pub on_number : ℕ → ℕ → Bool → Value → Option Value
on_number n m tracked v = if n == m then (if tracked then some v else none) else none

abbrev pub touch_effect : ℤ → Value → ℤ → Option Value
touch_effect (pos n) v (pos m) = on_number n m (ltb n max_contacts) v
touch_effect (pos n) v (negsuc m) = none
touch_effect (negsuc n) v z = none

-- The value that a row gives a control, none where it leaves the control alone.
unfoldable pub effect : EventPayload → Control → Option Value
effect (touch_event e) (contact z) =
    touch_effect e.finger_id (if e.state then at e.x e.y else released) z
effect (mouse_button e) (button n) = on_number e.button n true (flag_value e.pressed)
effect (key_event e) (key n) = on_number e.usage n (ltb e.usage key_count) (flag_value e.down)
effect (gamepad_button e) (pad_button n) = on_number e.button n true (flag_value e.pressed)
effect (gamepad_axis e) (axis n) =
    on_number e.axis_index n (ltb e.axis_index max_axes) (level e.value)
effect (gamepad_dpad e) dpad = some (directions e)
effect (pen_sample e) pen = some (stylus_value e)
effect (digitizer_sample e) digitizer = some (stylus_value e)
effect (media_key e) (media n) = on_number e.usage n true (flag_value e.down)
effect _ _ = none

-- A later value counts before an earlier one.
abbrev pub later : Option Value → Option Value → Option Value
later (some v) o = some v
later none o = o

abbrev pub value_or : Option Value → Value → Value
value_or (some v) w = v
value_or none w = w

-- The last value that a sequence of rows gives a control.
unfoldable pub effects : List EventPayload → Control → Option Value
effects [] c = none
effects (e ∷ es) c = later (effects es c) (effect e c)

pub later_assoc : (a b c : Option Value) → later (later a b) c ≡ later a (later b c)
later_assoc none b c = refl
later_assoc (some v) b c = refl

pub later-none : (a : Option Value) → later a none ≡ a
later-none none = refl
later-none (some v) = refl

pub value_or-later :
    (a b : Option Value) (v : Value) → value_or (later a b) v ≡ value_or a (value_or b v)
value_or-later none b v = refl
value_or-later (some w) b v = refl

pub effects-append :
    (xs ys : List EventPayload) (c : Control)
    → effects (xs ++ ys) c ≡ later (effects ys c) (effects xs c)
unfolding effects
effects-append [] ys c = sym (later-none (effects ys c))
effects-append (x ∷ xs) ys c =
    rw (effects-append xs ys c) (later_assoc (effects ys c) (effects xs c) (effect x c))
