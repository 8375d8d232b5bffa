-- ===== src/Setup/Same.antt =====
-- same_node of include/aoahid_player/spec_builder.hpp against what a HID is registered with.
use aoahid_player.Base.Int.{ℤ, pos, eqb_ℤ}
use aoahid_player.Base.{◌≡◌, ap, true, false, not, ◌&&◌, ◌==◌, if◌then◌else◌, arith}
use aoahid_player.Event.{Profile, touch, mouse, key, gamepad, pen, digitizer, toggle}
use aoahid_player.Setup.{
  BatterySetup, ProfileSetup, same_battery, same_roles, same_dpad_kind, same_pen, same_gamepad,
  same_touch, same_profile, same_node, battery_of, set_battery,
}
use mathlib.Core.Bool.{beq}

-- What registers a battery: nothing while it is off, and no level.
abbrev pub registered : BatterySetup → BatterySetup
registered b =
    if b.enabled
    then record b { level = pos 0 }
    else record { enabled = false; minimum = pos 0; maximum = pos 0; level = pos 0 }

-- The comparison of same_node on the batteries alone.
abbrev compared : BatterySetup → BatterySetup → BatterySetup
compared mine theirs =
    if not mine.enabled && not theirs.enabled then theirs else record mine { level = theirs.level }

itself : (z : ℤ) → eqb_ℤ z z ≡ true
itself z = ground arith

compared-registered :
    (a b : BatterySetup)
    → same_battery (compared a b) b ≡ same_battery (registered a) (registered b)
unfolding same_battery
compared-registered a b = ground (arith, itself b.minimum, itself b.maximum, itself b.level)

-- The settings with what registers the battery of a profile.
abbrev pub canonical : ProfileSetup → Profile → ProfileSetup
canonical s p = set_battery s p (registered (battery_of s p))

-- same_node holds of two settings exactly where same_profile does once the levels of both batteries are left out,
-- and the numbers of a battery that is off.
pub same_node-canonical :
    (a b : ProfileSetup) (p : Profile)
    → same_node a b p ≡ same_profile (canonical a p) (canonical b p) p
unfolding same_node same_profile battery_of set_battery same_touch same_pen same_gamepad
same_node-canonical a b touch =
    ap
      (λ x.
        beq a.touch_setup.enabled b.touch_setup.enabled
        && eqb_ℤ a.touch_setup.width b.touch_setup.width
        && eqb_ℤ a.touch_setup.height b.touch_setup.height
        && a.touch_setup.max_contacts == b.touch_setup.max_contacts
        && x)
      (compared-registered a.touch_setup.battery b.touch_setup.battery)
same_node-canonical a b mouse =
    ap
      (λ x.
        beq a.mouse_setup.enabled b.mouse_setup.enabled
        && a.mouse_setup.buttons == b.mouse_setup.buttons
        && x)
      (compared-registered a.mouse_setup.battery b.mouse_setup.battery)
same_node-canonical a b key =
    ap
      (λ x.
        beq a.key_setup.enabled b.key_setup.enabled
        && a.key_setup.usage_minimum == b.key_setup.usage_minimum
        && a.key_setup.usage_maximum == b.key_setup.usage_maximum
        && x)
      (compared-registered a.key_setup.battery b.key_setup.battery)
same_node-canonical a b gamepad =
    ap
      (λ x.
        beq a.gamepad_setup.enabled b.gamepad_setup.enabled
        && a.gamepad_setup.buttons == b.gamepad_setup.buttons
        && a.gamepad_setup.axis_bits == b.gamepad_setup.axis_bits
        && same_dpad_kind a.gamepad_setup.dpad b.gamepad_setup.dpad
        && same_roles a.gamepad_setup.axes b.gamepad_setup.axes
        && x)
      (compared-registered a.gamepad_setup.battery b.gamepad_setup.battery)
same_node-canonical a b pen =
    ap
      (λ x.
        beq a.pen_setup.enabled b.pen_setup.enabled
        && eqb_ℤ a.pen_setup.width b.pen_setup.width
        && eqb_ℤ a.pen_setup.height b.pen_setup.height
        && eqb_ℤ a.pen_setup.pressure_maximum b.pen_setup.pressure_maximum
        && x)
      (compared-registered a.pen_setup.battery b.pen_setup.battery)
same_node-canonical a b digitizer =
    ap
      (λ x.
        beq a.digitizer_setup.enabled b.digitizer_setup.enabled
        && eqb_ℤ a.digitizer_setup.width b.digitizer_setup.width
        && eqb_ℤ a.digitizer_setup.height b.digitizer_setup.height
        && eqb_ℤ a.digitizer_setup.pressure_maximum b.digitizer_setup.pressure_maximum
        && x)
      (compared-registered a.digitizer_setup.battery b.digitizer_setup.battery)
same_node-canonical a b toggle =
    ap (λ x. beq a.toggle_setup.enabled b.toggle_setup.enabled && x)
      (compared-registered a.toggle_setup.battery b.toggle_setup.battery)
