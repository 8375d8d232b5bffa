-- ===== src/Setup/Validate.antt =====
-- validate_battery, validate_profile_fields, validate_profile and validate_setup of
-- include/aoahid_player/spec_builder.hpp. The result is the text of `error`, and none where the code
-- returns true.
use aoahid_player.Aoahid.Options.{AxisRole, axis_x, axis_y}
use aoahid_player.Base.Int.{ℤ, pos, ltb_ℤ, leb_ℤ}
use aoahid_player.Base.{
  Bool, false, not, ◌||◌, Option, none, some, List, [], ◌∷◌, ◌++◌, ltb, leb, if◌then◌else◌,
}
use aoahid_player.Event.{Profile, touch, mouse, key, gamepad, pen, digitizer, toggle}
use aoahid_player.Setup.{
  BatterySetup, TouchSetup, MouseSetup, KeySetup, GamepadSetup, PenSetup, ProfileSetup,
  profile_enabled, battery_of, same_role, all_profiles,
}
use aoahid_player.Text.{Bytes, codes}

abbrev pub battery_range_error : Bytes
battery_range_error = codes "The battery range must be 0-65535 with the maximum above the minimum."

abbrev pub battery_level_error : Bytes
battery_level_error = codes "The battery level must be inside its range."

unfoldable pub validate_battery : BatterySetup → Option Bytes
validate_battery b =
    if not b.enabled
    then none
    else if ltb_ℤ b.minimum (pos 0) || leb_ℤ b.maximum b.minimum || ltb_ℤ (pos 65535) b.maximum
    then some battery_range_error
    else if ltb_ℤ b.level b.minimum || ltb_ℤ b.maximum b.level
    then some battery_level_error
    else none

abbrev pub size_ok : ℤ → Bool
size_ok value = ltb_ℤ (pos 0) value

abbrev pub contains_role : AxisRole → List AxisRole → Bool
contains_role role [] = false
contains_role role (r ∷ rs) = same_role r role || contains_role role rs

-- The loop over the axes; `seen` holds the axes before, and the flags whether X and Y are among them.
unfoldable pub scan_axes : List AxisRole → Bool → Bool → List AxisRole → Option Bytes
unfolding same_role
scan_axes seen has_x has_y [] =
    if not has_x || not has_y
    then some (codes "The gamepad needs at least the X and Y axes.")
    else none
scan_axes seen has_x has_y (role ∷ rest) =
    let next =
      scan_axes (role ∷ seen) (has_x || same_role role axis_x) (has_y || same_role role axis_y)
        rest in
    if contains_role role seen
    then some (codes "Each gamepad axis can only be listed once.")
    else next

unfoldable pub validate_touch : TouchSetup → Option Bytes
validate_touch t =
    if not (size_ok t.width) || not (size_ok t.height)
    then some (codes "Set the touchscreen resolution (width and height, 1-2147483647).")
    else if ltb t.max_contacts 1 || ltb 16 t.max_contacts
    then some (codes "Touchscreen contacts must be between 1 and 16.")
    else none

unfoldable pub validate_mouse : MouseSetup → Option Bytes
validate_mouse m =
    if ltb m.buttons 1 || ltb 65535 m.buttons
    then some (codes "Mouse buttons must be between 1 and 65535.")
    else none

unfoldable pub validate_key : KeySetup → Option Bytes
validate_key k =
    if ltb k.usage_minimum 4 || ltb k.usage_maximum k.usage_minimum || leb 224 k.usage_maximum
    then some (
        codes "The keyboard usage range must be ordered, start at 0x04 or above and end "
        ++ codes "below 0xE0 (0xE0-0xE7 are the modifier keys).")
    else none

unfoldable pub validate_gamepad : GamepadSetup → Option Bytes
unfolding scan_axes
validate_gamepad pad =
    if ltb pad.buttons 1 || ltb 65535 pad.buttons
    then some (codes "Gamepad buttons must be between 1 and 65535.")
    else if ltb pad.axis_bits 2 || ltb 32 pad.axis_bits
    then some (codes "Gamepad axis resolution must be between 2 and 32 bits.")
    else scan_axes [] false false pad.axes

unfoldable pub validate_surface : PenSetup → Bytes → Option Bytes
validate_surface p error =
    if not (size_ok p.width) || not (size_ok p.height) then some error else none

unfoldable pub validate_profile_fields : ProfileSetup → Profile → Option Bytes
unfolding validate_touch validate_mouse validate_key validate_gamepad validate_surface
validate_profile_fields s touch = validate_touch s.touch_setup
validate_profile_fields s mouse = validate_mouse s.mouse_setup
validate_profile_fields s key = validate_key s.key_setup
validate_profile_fields s gamepad = validate_gamepad s.gamepad_setup
validate_profile_fields s pen =
    validate_surface s.pen_setup (codes "The pen surface size is not set.")
validate_profile_fields s digitizer =
    validate_surface s.digitizer_setup (codes "The digitizer surface size is not set.")
validate_profile_fields s toggle = none

unfoldable pub validate_profile : ProfileSetup → Profile → Option Bytes
unfolding validate_profile_fields validate_battery
validate_profile s profile = elim (validate_profile_fields s profile) [
  | none ↦ validate_battery (battery_of s profile)
  | some error ↦ some error
]

-- The loop over the profiles from one on.
unfoldable pub validate_profiles : ProfileSetup → List Profile → Option Bytes
unfolding validate_profile
validate_profiles s [] = none
validate_profiles s (profile ∷ rest) =
    let next = validate_profiles s rest in
    if profile_enabled s profile
    then elim (validate_profile s profile) [ none ↦ next | some error ↦ some error ]
    else next

unfoldable pub validate_setup : ProfileSetup → Option Bytes
unfolding validate_profiles
validate_setup s = validate_profiles s all_profiles
