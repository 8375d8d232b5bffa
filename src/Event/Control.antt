-- ===== src/Event/Control.antt =====
-- The control that a row drives, as data: what batch_key of src/event_script.cpp stands for. Mouse
-- motion drives none, since it accumulates.
use aoahid_player.Base.Int.{ℤ, pos, negsuc}
use aoahid_player.Base.{ℕ, ◌^◌, ◌<◌, Option, none, some}
use aoahid_player.Event.{
  EventPayload, touch_event, mouse_move, mouse_button, key_event, gamepad_button, gamepad_axis,
  gamepad_dpad, pen_sample, digitizer_sample, media_key,
}

pub data Control : Type 0 where
  contact : ℤ → Control
  button : ℕ → Control
  key : ℕ → Control
  pad_button : ℕ → Control
  axis : ℕ → Control
  dpad : Control
  pen : Control
  digitizer : Control
  media : ℕ → Control

unfoldable pub control_of : EventPayload → Option Control
control_of (touch_event e) = some (contact e.finger_id)
control_of (mouse_move e) = none
control_of (mouse_button e) = some (button e.button)
control_of (key_event e) = some (key e.usage)
control_of (gamepad_button e) = some (pad_button e.button)
control_of (gamepad_axis e) = some (axis e.axis_index)
control_of (gamepad_dpad e) = some dpad
control_of (pen_sample e) = some pen
control_of (digitizer_sample e) = some digitizer
control_of (media_key e) = some (media e.usage)

-- A finger that is not negative, and numbers below 2 ^ 32: what the C++ types hold, but for an axis
-- index (size_t) and a negative finger, neither of which a loaded script has.
abbrev pub IsFinger : ℤ → Type 0
IsFinger (pos n) = n < 2 ^ 31
IsFinger (negsuc n) = ⊥

abbrev pub IsInRange : EventPayload → Type 0
IsInRange (touch_event e) = IsFinger e.finger_id
IsInRange (mouse_button e) = e.button < 2 ^ 32
IsInRange (key_event e) = e.usage < 2 ^ 16
IsInRange (gamepad_button e) = e.button < 2 ^ 32
IsInRange (gamepad_axis e) = e.axis_index < 2 ^ 32
IsInRange (media_key e) = e.usage < 2 ^ 16
IsInRange _ = Unit
