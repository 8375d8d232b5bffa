-- ===== src/Setup.antt =====
-- The settings of the profiles and the questions about them, include/aoahid_player/spec_builder.hpp:
-- profile_enabled, same_profile, same_node, battery_of, enabled_profiles and resolve_pen_surface.
pub mod Validate
pub mod Fields
pub mod Widths
pub mod Same
pub mod Specs
use aoahid_player.Aoahid.Options.{
  AxisRole, Dpad, axis_x, axis_y, axis_z, axis_rx, axis_ry, axis_rz, axis_slider, axis_dial,
  axis_wheel, simulation_rudder, simulation_throttle, simulation_accelerator, simulation_brake,
  simulation_steering, other_role, dpad_none, dpad_hat, dpad_other,
}
use aoahid_player.Base.Int.{ℤ, pos, eqb_ℤ, ltb_ℤ}
use aoahid_player.Base.{
  ℕ, ◌+◌, Bool, true, false, not, ◌&&◌, ◌||◌, List, [], ◌∷◌, ◌==◌, if◌then◌else◌,
}
use aoahid_player.Event.{Profile, touch, mouse, key, gamepad, pen, digitizer, toggle, profile_index}
use mathlib.Core.Bool.{beq}

pub record BatterySetup : Type 0 where
  pub enabled : Bool
  pub minimum : ℤ
  pub maximum : ℤ
  pub level : ℤ

pub record TouchSetup : Type 0 where
  pub enabled : Bool
  pub width : ℤ
  pub height : ℤ
  pub max_contacts : ℕ
  pub battery : BatterySetup

pub record MouseSetup : Type 0 where
  pub enabled : Bool
  pub buttons : ℕ
  pub battery : BatterySetup

pub record KeySetup : Type 0 where
  pub enabled : Bool
  pub usage_minimum : ℕ
  pub usage_maximum : ℕ
  pub battery : BatterySetup

pub record GamepadSetup : Type 0 where
  pub enabled : Bool
  pub buttons : ℕ
  pub axis_bits : ℕ
  pub dpad : Dpad
  pub axes : List AxisRole
  pub battery : BatterySetup

-- PenSetup and DigitizerSetup.
pub record PenSetup : Type 0 where
  pub enabled : Bool
  pub width : ℤ
  pub height : ℤ
  pub pressure_maximum : ℤ
  pub battery : BatterySetup

pub record ToggleSetup : Type 0 where
  pub enabled : Bool
  pub battery : BatterySetup

pub record ProfileSetup : Type 0 where
  pub touch_setup : TouchSetup
  pub mouse_setup : MouseSetup
  pub key_setup : KeySetup
  pub gamepad_setup : GamepadSetup
  pub pen_setup : PenSetup
  pub digitizer_setup : PenSetup
  pub toggle_setup : ToggleSetup

-- A uint32_t mask of profile_bit values, as the profiles whose bit is set.
abbrev pub Mask : Type 0
Mask = Profile → Bool

-- One profile is another.
unfoldable pub same_kind : Profile → Profile → Bool
unfolding profile_index
same_kind p q = profile_index p == profile_index q

-- profile_bit of a profile, as a mask.
abbrev pub only : Profile → Mask
only p q = same_kind p q

abbrev pub no_profiles : Mask
no_profiles p = false

abbrev pub union : Mask → Mask → Mask
union a b p = a p || b p

-- The profiles in the order of their numbers, 0 to profile_count.
abbrev pub all_profiles : List Profile
all_profiles = touch ∷ mouse ∷ key ∷ gamepad ∷ pen ∷ digitizer ∷ toggle ∷ []

unfoldable pub profile_enabled : ProfileSetup → Profile → Bool
profile_enabled s touch = s.touch_setup.enabled
profile_enabled s mouse = s.mouse_setup.enabled
profile_enabled s key = s.key_setup.enabled
profile_enabled s gamepad = s.gamepad_setup.enabled
profile_enabled s pen = s.pen_setup.enabled
profile_enabled s digitizer = s.digitizer_setup.enabled
profile_enabled s toggle = s.toggle_setup.enabled

unfoldable pub set_profile_enabled : ProfileSetup → Profile → Bool → ProfileSetup
set_profile_enabled s touch b = record s { touch_setup = record (s.touch_setup) { enabled = b } }
set_profile_enabled s mouse b = record s { mouse_setup = record (s.mouse_setup) { enabled = b } }
set_profile_enabled s key b = record s { key_setup = record (s.key_setup) { enabled = b } }
set_profile_enabled s gamepad b = record s {
  gamepad_setup = record (s.gamepad_setup) { enabled = b };
}
set_profile_enabled s pen b = record s { pen_setup = record (s.pen_setup) { enabled = b } }
set_profile_enabled s digitizer b = record s {
  digitizer_setup = record (s.digitizer_setup) { enabled = b };
}
set_profile_enabled s toggle b = record s { toggle_setup = record (s.toggle_setup) { enabled = b } }

-- The defaulted operator== of the structs.
unfoldable pub same_battery : BatterySetup → BatterySetup → Bool
same_battery a b =
    beq a.enabled b.enabled
    && eqb_ℤ a.minimum b.minimum
    && eqb_ℤ a.maximum b.maximum
    && eqb_ℤ a.level b.level

unfoldable pub role_index : AxisRole → ℕ
role_index axis_x = 0
role_index axis_y = 1
role_index axis_z = 2
role_index axis_rx = 3
role_index axis_ry = 4
role_index axis_rz = 5
role_index axis_slider = 6
role_index axis_dial = 7
role_index axis_wheel = 8
role_index simulation_rudder = 9
role_index simulation_throttle = 10
role_index simulation_accelerator = 11
role_index simulation_brake = 12
role_index simulation_steering = 13
role_index (other_role n) = 14 + n

unfoldable pub same_role : AxisRole → AxisRole → Bool
unfolding role_index
same_role a b = role_index a == role_index b

unfoldable pub same_roles : List AxisRole → List AxisRole → Bool
unfolding same_role
same_roles [] [] = true
same_roles [] (y ∷ ys) = false
same_roles (x ∷ xs) [] = false
same_roles (x ∷ xs) (y ∷ ys) = same_role x y && same_roles xs ys

unfoldable pub same_dpad_kind : Dpad → Dpad → Bool
same_dpad_kind dpad_none dpad_none = true
same_dpad_kind dpad_none dpad_hat = false
same_dpad_kind dpad_none (dpad_other n) = false
same_dpad_kind dpad_hat dpad_none = false
same_dpad_kind dpad_hat dpad_hat = true
same_dpad_kind dpad_hat (dpad_other n) = false
same_dpad_kind (dpad_other m) dpad_none = false
same_dpad_kind (dpad_other m) dpad_hat = false
same_dpad_kind (dpad_other m) (dpad_other n) = m == n

unfoldable pub same_pen : PenSetup → PenSetup → Bool
unfolding same_battery
same_pen a b =
    beq a.enabled b.enabled
    && eqb_ℤ a.width b.width
    && eqb_ℤ a.height b.height
    && eqb_ℤ a.pressure_maximum b.pressure_maximum
    && same_battery a.battery b.battery

unfoldable pub same_gamepad : GamepadSetup → GamepadSetup → Bool
unfolding same_battery same_roles same_dpad_kind
same_gamepad a b =
    beq a.enabled b.enabled
    && a.buttons == b.buttons
    && a.axis_bits == b.axis_bits
    && same_dpad_kind a.dpad b.dpad
    && same_roles a.axes b.axes
    && same_battery a.battery b.battery

unfoldable pub same_touch : TouchSetup → TouchSetup → Bool
unfolding same_battery
same_touch a b =
    beq a.enabled b.enabled
    && eqb_ℤ a.width b.width
    && eqb_ℤ a.height b.height
    && a.max_contacts == b.max_contacts
    && same_battery a.battery b.battery

unfoldable pub same_profile : ProfileSetup → ProfileSetup → Profile → Bool
unfolding same_battery same_pen same_gamepad same_touch
same_profile a b touch = same_touch a.touch_setup b.touch_setup
same_profile a b mouse =
    beq a.mouse_setup.enabled b.mouse_setup.enabled
    && a.mouse_setup.buttons == b.mouse_setup.buttons
    && same_battery a.mouse_setup.battery b.mouse_setup.battery
same_profile a b key =
    beq a.key_setup.enabled b.key_setup.enabled
    && a.key_setup.usage_minimum == b.key_setup.usage_minimum
    && a.key_setup.usage_maximum == b.key_setup.usage_maximum
    && same_battery a.key_setup.battery b.key_setup.battery
same_profile a b gamepad = same_gamepad a.gamepad_setup b.gamepad_setup
same_profile a b pen = same_pen a.pen_setup b.pen_setup
same_profile a b digitizer = same_pen a.digitizer_setup b.digitizer_setup
same_profile a b toggle =
    beq a.toggle_setup.enabled b.toggle_setup.enabled
    && same_battery a.toggle_setup.battery b.toggle_setup.battery

unfoldable pub battery_of : ProfileSetup → Profile → BatterySetup
battery_of s touch = s.touch_setup.battery
battery_of s mouse = s.mouse_setup.battery
battery_of s key = s.key_setup.battery
battery_of s gamepad = s.gamepad_setup.battery
battery_of s pen = s.pen_setup.battery
battery_of s digitizer = s.digitizer_setup.battery
battery_of s toggle = s.toggle_setup.battery

-- A write through the reference that battery_of returns.
unfoldable pub set_battery : ProfileSetup → Profile → BatterySetup → ProfileSetup
set_battery s touch b = record s { touch_setup = record (s.touch_setup) { battery = b } }
set_battery s mouse b = record s { mouse_setup = record (s.mouse_setup) { battery = b } }
set_battery s key b = record s { key_setup = record (s.key_setup) { battery = b } }
set_battery s gamepad b = record s { gamepad_setup = record (s.gamepad_setup) { battery = b } }
set_battery s pen b = record s { pen_setup = record (s.pen_setup) { battery = b } }
set_battery s digitizer b = record s {
  digitizer_setup = record (s.digitizer_setup) { battery = b };
}
set_battery s toggle b = record s { toggle_setup = record (s.toggle_setup) { battery = b } }

unfoldable pub same_node : ProfileSetup → ProfileSetup → Profile → Bool
unfolding battery_of set_battery same_profile
same_node a b profile =
    let mine = battery_of a profile in
    let theirs = battery_of b profile in
    let compared =
      if not mine.enabled && not theirs.enabled
      then theirs
      else record mine { level = theirs.level } in
    same_profile (set_battery a profile compared) b profile

abbrev pub enabled_profiles : ProfileSetup → Mask
enabled_profiles = profile_enabled

unfoldable pub resolve_pen_surface : ProfileSetup → ProfileSetup
resolve_pen_surface s =
    let t = s.touch_setup in
    let has_touch = t.enabled && ltb_ℤ (pos 0) t.width && ltb_ℤ (pos 0) t.height in
    let width = if has_touch then t.width else pos 32768 in
    let height = if has_touch then t.height else pos 32768 in
    record s {
      pen_setup = record (s.pen_setup) { width = width; height = height };
      digitizer_setup = record (s.digitizer_setup) { width = width; height = height };
    }
