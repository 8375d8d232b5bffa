-- ===== src/Event.antt =====
-- The rows of a script: the payload structs and EventPayload, EventRecord, Profile, profile_of,
-- profile_bit and batch_key of include/aoahid_player/event_script.hpp, src/event_script.cpp,
-- include/aoahid_player/device.hpp and src/device_group.cpp. A signed field is an integer and an
-- unsigned one a natural number; the ranges that the C++ types give stand in `IsInRange`.
pub mod Control
pub mod BatchKey
use Prim.Native.Nat.{bit_or}
use aoahid_player.Base.Int.{ℤ, pos, negsuc}
use aoahid_player.Base.Words.{u64_mod}
use aoahid_player.Base.{ℕ, ◌+◌, ◌-◌, ◌*◌, ◌%◌, ◌^◌, ◌<◌, Bool}

pub record TouchEvent : Type 0 where
  pub finger_id : ℤ
  pub state : Bool
  pub x : ℤ
  pub y : ℤ

pub record MouseMove : Type 0 where
  pub dx : ℤ
  pub dy : ℤ

-- MouseButton and GamepadButton.
pub record ButtonEvent : Type 0 where
  pub button : ℕ
  pub pressed : Bool

-- KeyEvent and MediaKey.
pub record KeyEvent : Type 0 where
  pub usage : ℕ
  pub down : Bool

pub record GamepadAxis : Type 0 where
  pub axis_index : ℕ
  pub value : ℤ

pub record GamepadDpad : Type 0 where
  pub up : Bool
  pub down : Bool
  pub right : Bool
  pub left : Bool

-- PenSample and DigitizerSample.
pub record StylusSample : Type 0 where
  pub in_range : Bool
  pub tip : Bool
  pub x : ℤ
  pub y : ℤ
  pub pressure : ℤ

pub data EventPayload : Type 0 where
  touch_event : TouchEvent → EventPayload
  mouse_move : MouseMove → EventPayload
  mouse_button : ButtonEvent → EventPayload
  key_event : KeyEvent → EventPayload
  gamepad_button : ButtonEvent → EventPayload
  gamepad_axis : GamepadAxis → EventPayload
  gamepad_dpad : GamepadDpad → EventPayload
  pen_sample : StylusSample → EventPayload
  digitizer_sample : StylusSample → EventPayload
  media_key : KeyEvent → EventPayload

pub record EventRecord : Type 0 where
  pub payload : EventPayload
  pub wait_ns : ℕ

pub data Profile : Type 0 where
  touch mouse key gamepad pen digitizer toggle : Profile

unfoldable pub profile_index : Profile → ℕ
profile_index touch = 0
profile_index mouse = 1
profile_index key = 2
profile_index gamepad = 3
profile_index pen = 4
profile_index digitizer = 5
profile_index toggle = 6

unfoldable pub profile_bit : Profile → ℕ
unfolding profile_index
profile_bit p = 2 ^ profile_index p

unfoldable pub profile_of : EventPayload → Profile
profile_of (touch_event e) = touch
profile_of (mouse_move e) = mouse
profile_of (mouse_button e) = mouse
profile_of (key_event e) = key
profile_of (gamepad_button e) = gamepad
profile_of (gamepad_axis e) = gamepad
profile_of (gamepad_dpad e) = gamepad
profile_of (pen_sample e) = pen
profile_of (digitizer_sample e) = digitizer
profile_of (media_key e) = toggle

-- static_cast<uint64_t> of a signed value.
unfoldable pub to_u64 : ℤ → ℕ
to_u64 (pos n) = n % u64_mod
to_u64 (negsuc n) = u64_mod - 1 - n % u64_mod

unfoldable pub batch_key : EventPayload → ℕ
unfolding to_u64
batch_key (touch_event e) = bit_or (1 * 2 ^ 56) (to_u64 e.finger_id)
batch_key (mouse_move e) = 0
batch_key (mouse_button e) = bit_or (2 * 2 ^ 56) e.button
batch_key (key_event e) = bit_or (3 * 2 ^ 56) e.usage
batch_key (gamepad_button e) = bit_or (4 * 2 ^ 56) e.button
batch_key (gamepad_axis e) = bit_or (5 * 2 ^ 56) e.axis_index
batch_key (gamepad_dpad e) = 6 * 2 ^ 56
batch_key (pen_sample e) = 7 * 2 ^ 56
batch_key (digitizer_sample e) = 9 * 2 ^ 56
batch_key (media_key e) = bit_or (8 * 2 ^ 56) e.usage
