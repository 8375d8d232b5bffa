-- ===== src/Setup/Specs.antt =====
-- apply_battery, create_touch to create_toggle and build_spec of
-- include/aoahid_player/spec_builder.hpp, over libaoahid's factories of specs.
use aoahid_player.Aoahid.Options.{
  IntegerField, AxisRole, AxisOption, Reports, TouchscreenOptions, MouseOptions, KeyboardOptions,
  GamepadOptions, PenOptions, ToggleOptions, ToggleUsage, UsageSemantic, one_shot,
  on_off_maintained, retrigger, selector_bitmap, Dpad, dpad_none, dpad_hat, dpad_other,
}
use aoahid_player.Aoahid.{Aoahid, AoahidResult, ok, err_param, same_result}
use aoahid_player.Base.Int.{pos, negsuc, ◌-ℤ◌}
use aoahid_player.Base.{
  ◌⊎◌, inl, inr, ℕ, ◌-◌, ◌^◌, Bool, true, not, Option, none, some, List, [], ◌∷◌, ◌++◌, ltb,
  if◌then◌else◌,
}
use aoahid_player.Context.{explain_error}
use aoahid_player.Device.Names.{describe_profiles}
use aoahid_player.Event.{Profile, touch, mouse, key, gamepad, pen, digitizer, toggle}
use aoahid_player.Setup.Fields.{unsigned_bits, field, axis_table, role_axis, axis_is_unipolar}
use aoahid_player.Setup.{
  BatterySetup, TouchSetup, MouseSetup, KeySetup, GamepadSetup, PenSetup, ToggleSetup, ProfileSetup,
  only,
}
use aoahid_player.Text.{Bytes, codes}

-- The zeroed members of the options.
abbrev pub no_reports : Reports
no_reports = record { report_id = none; battery_report = none }

unfoldable pub apply_battery : Reports → BatterySetup → Reports
unfolding unsigned_bits
apply_battery options battery = if not battery.enabled then options else record {
  report_id = some 1;
  battery_report = some (2, field battery.minimum battery.maximum (unsigned_bits battery.maximum));
}

unfoldable pub touch_options : TouchSetup → TouchscreenOptions
unfolding apply_battery unsigned_bits
touch_options s = record {
  maximum_contacts = s.max_contacts;
  contacts_per_report = s.max_contacts;
  contact_id = field (pos 0) (pos 15) 4;
  x = field (pos 0) (s.width -ℤ pos 1) (unsigned_bits (s.width -ℤ pos 1));
  y = field (pos 0) (s.height -ℤ pos 1) (unsigned_bits (s.height -ℤ pos 1));
  contact_count = field (pos 0) (pos s.max_contacts) (unsigned_bits (pos s.max_contacts));
  reports = apply_battery no_reports s.battery;
}

unfoldable pub mouse_options : MouseSetup → MouseOptions
unfolding apply_battery
mouse_options s = record {
  button_count = s.buttons;
  x = field (negsuc 32766) (pos 32767) 16;
  y = field (negsuc 32766) (pos 32767) 16;
  wheel = some (field (negsuc 126) (pos 127) 8);
  reports = apply_battery no_reports s.battery;
}

unfoldable pub key_options : KeySetup → KeyboardOptions
unfolding apply_battery
key_options s = record {
  usage_minimum = s.usage_minimum;
  usage_maximum = s.usage_maximum;
  reports = apply_battery no_reports s.battery;
}

abbrev pub i32_max : ℕ
i32_max = 2 ^ 31 - 1

-- signed_extent and unsigned_extent of create_gamepad, from the bits of an axis.
unfoldable pub signed_extent : ℕ → ℕ
signed_extent bits = 2 ^ (bits - 1) - 1

unfoldable pub unsigned_extent : ℕ → ℕ
unsigned_extent bits = if ltb i32_max (2 ^ bits - 1) then i32_max else 2 ^ bits - 1

unfoldable pub axis_field : ℕ → AxisRole → IntegerField
unfolding signed_extent unsigned_extent axis_is_unipolar
axis_field bits role =
    if axis_is_unipolar role
    then field (pos 0) (pos (unsigned_extent bits)) bits
    else field (pos 0 -ℤ pos (signed_extent bits)) (pos (signed_extent bits)) bits

-- The loop over the axes; none is the return of AOAHID_ERR_PARAM.
unfoldable pub axis_options : ℕ → List AxisRole → Option (List AxisOption)
unfolding role_axis axis_field
axis_options bits [] = some []
axis_options bits (role ∷ rest) =
    let next = axis_options bits rest in
    elim (role_axis role axis_table) [
      | none ↦ none
      | some identity ↦ elim next [
        | none ↦ none
        | some options ↦ some (
            record {
              role = identity.role;
              usage_page = identity.usage_page;
              usage = identity.usage;
              value = axis_field bits role;
              neutral_value = pos 0;
              expected_linux_code = identity.linux_code;
              expected_android_axis = identity.android_axis;
            }
            ∷ options)
      ]
    ]

abbrev pub hat_field : Dpad → Option IntegerField
hat_field dpad_none = none
hat_field dpad_hat = some (field (pos 0) (pos 7) 4)
hat_field (dpad_other n) = none

unfoldable pub gamepad_options : GamepadSetup → Option GamepadOptions
unfolding axis_options apply_battery
gamepad_options s = elim (axis_options s.axis_bits s.axes) [
  | none ↦ none
  | some axes ↦ some (record {
    axes = axes;
    button_count = s.buttons;
    button_usage_minimum = 1;
    dpad_representation = s.dpad;
    hat = hat_field s.dpad;
    reports = apply_battery no_reports s.battery;
  })
]

unfoldable pub pen_options : PenSetup → PenOptions
unfolding apply_battery unsigned_bits
pen_options s = record {
  x = field (pos 0) (s.width -ℤ pos 1) (unsigned_bits (s.width -ℤ pos 1));
  y = field (pos 0) (s.height -ℤ pos 1) (unsigned_bits (s.height -ℤ pos 1));
  pressure = some (field (pos 0) s.pressure_maximum (unsigned_bits s.pressure_maximum));
  enable_hover = true;
  reports = apply_battery no_reports s.battery;
}

abbrev listed_usage : ℕ → UsageSemantic → Bytes → Bytes → ToggleUsage
listed_usage usage semantic type code = record {
  usage = usage;
  semantic = semantic;
  expected_type = type;
  expected_code = code;
}

-- media_usages with the arrays that follow its order.
abbrev pub toggle_usages : List ToggleUsage
toggle_usages =
    let k : Bytes = codes "EV_KEY" in
    listed_usage 181 one_shot k (codes "KEY_NEXTSONG")
    ∷ listed_usage 182 one_shot k (codes "KEY_PREVIOUSSONG")
    ∷ listed_usage 183 one_shot k (codes "KEY_STOPCD")
    ∷ listed_usage 205 one_shot k (codes "KEY_PLAYPAUSE")
    ∷ listed_usage 226 on_off_maintained k (codes "KEY_MUTE")
    ∷ listed_usage 233 retrigger k (codes "KEY_VOLUMEUP")
    ∷ listed_usage 234 retrigger k (codes "KEY_VOLUMEDOWN")
    ∷ listed_usage 547 one_shot k (codes "KEY_HOMEPAGE")
    ∷ listed_usage 548 one_shot k (codes "KEY_BACK")
    ∷ listed_usage 568 one_shot (codes "EV_REL") (codes "REL_HWHEEL")
    ∷ listed_usage 513 selector_bitmap k (codes "KEY_NEW")
    ∷ listed_usage 111 retrigger k (codes "KEY_BRIGHTNESSUP")
    ∷ listed_usage 112 retrigger k (codes "KEY_BRIGHTNESSDOWN")
    ∷ []

unfoldable pub toggle_options : ToggleSetup → ToggleOptions
unfolding apply_battery
toggle_options s = record {
  application_page = 12;
  application_usage = 1;
  field_page = 12;
  allowed_usages = toggle_usages;
  reports = apply_battery no_reports s.battery;
}

module _ (lib : Aoahid) where
  abbrev pub Created : Type 0
  Created = (AoahidResult × Option lib.Spec) × lib.World

  -- The switch of build_spec: the create function of the profile.
  unfoldable pub create_spec : Profile → ProfileSetup → lib.World → Created
  unfolding touch_options mouse_options key_options gamepad_options pen_options toggle_options
  create_spec touch s w = lib.spec_create_touchscreen (touch_options s.touch_setup) w
  create_spec mouse s w = lib.spec_create_mouse (mouse_options s.mouse_setup) w
  create_spec key s w = lib.spec_create_keyboard (key_options s.key_setup) w
  create_spec gamepad s w = elim (gamepad_options s.gamepad_setup) [
    | none ↦ ((err_param, none), w)
    | some options ↦ lib.spec_create_gamepad options w
  ]
  create_spec pen s w = lib.spec_create_pen (pen_options s.pen_setup) w
  create_spec digitizer s w = lib.spec_create_digitizer (pen_options s.digitizer_setup) w
  create_spec toggle s w = lib.spec_create_toggle (toggle_options s.toggle_setup) w

  -- The spec, or the text of the error.
  unfoldable pub build_spec :
      Bool → Profile → ProfileSetup → lib.World → (Bytes ⊎ Option lib.Spec) × lib.World
  unfolding create_spec explain_error describe_profiles
  build_spec windows profile s w =
      let made = create_spec profile s w in
      (
        if same_result made.0.0 ok
            then inr made.0.1
            else inl (
                codes "The "
                ++ describe_profiles (only profile)
                ++ codes " settings were rejected: "
                ++ explain_error lib windows made.0.0 made.1),
        made.1,
      )
