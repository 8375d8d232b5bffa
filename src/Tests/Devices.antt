-- ===== src/Tests/Devices.antt =====
-- Concrete devices for the models of src/device.cpp and src/device_group.cpp, over a library whose calls
-- count themselves and succeed.
use aoahid_player.Aoahid.{Aoahid, AoahidResult, ok, err_unsupported}
use aoahid_player.Base.Int.{pos}
use aoahid_player.Base.{
  ◌≡◌, refl, arith, ◌↔◌, ℕ, ◌+◌, true, false, Option, none, some, List, [], ◌∷◌, map,
  when◌then◌else◌, match_option,
}
use aoahid_player.Device.Nodes.{
  OpensNode, IsMasked, Call, call_open_node, call_close_node, call_stop_bridge, perform_all,
  perform_all-IsMasked,
}
use aoahid_player.Device.{Device, no_device}
use aoahid_player.DeviceGroup.Broadcast.Contract.{apply-unsupported_iff}
use aoahid_player.DeviceGroup.Counts.Kept.Runs.{
  GroupCall, call_add, call_apply, call_flush, call_battery, group_calls, group_calls-IsCounted,
}
use aoahid_player.DeviceGroup.Counts.{IsCounted}
use aoahid_player.DeviceGroup.Flush.{flush, is_dirty}
use aoahid_player.DeviceGroup.Flushed.Reports.Total.{flush_reports}
use aoahid_player.DeviceGroup.Flushed.Reports.{SendsAll, reported}
use aoahid_player.DeviceGroup.Rows.{apply}
use aoahid_player.DeviceGroup.{Group, new_group}
use aoahid_player.Event.{EventPayload, Profile, touch, mouse, key, touch_event, profile_of}
use aoahid_player.Scale.{Space}
use aoahid_player.Setup.Fields.{unsigned_bits}
use aoahid_player.Setup.Same.{canonical, same_node-canonical}
use aoahid_player.Setup.Specs.{touch_options}
use aoahid_player.Setup.Validate.{
  validate_profile, validate_profile_fields, validate_touch, validate_battery,
}
use aoahid_player.Setup.Widths.Holding.{IsTouchHolding, touch_options-IsTouchHolding}
use aoahid_player.Setup.Widths.{IsWidth, unsigned_bits-IsWidth}
use aoahid_player.Setup.{
  set_battery, same_node, same_profile, battery_of, BatterySetup, ProfileSetup, same_kind,
}
use aoahid_player.Text.{codes}
use aoahid_player.Aoahid.Options.{dpad_none}

-- A call that succeeds and is counted.
abbrev fine : ℕ → AoahidResult × ℕ
fine w = (ok, w + 1)

abbrev made : ℕ → (AoahidResult × Option ℕ) × ℕ
made w = ((ok, some w), w + 1)

abbrev pub demo : Aoahid
demo = record {
  World = ℕ;
  Context = ℕ;
  Handle = ℕ;
  Node = ℕ;
  Spec = ℕ;
  Proxy = ℕ;
  last_error = λ w. none;
  result_name = λ r. [];
  context_create = λ o w. made w;
  context_destroy_blocking = λ c a b d w. fine w;
  device_open = λ c i o w. made w;
  device_close = λ h a b w. fine w;
  node_open = λ h s o t w. made w;
  node_close = λ n a b w. fine w;
  node_submit = λ n t w. fine w;
  node_submit_blocking = λ n t w. fine w;
  battery_update = λ n l w. fine w;
  touchscreen_contact = λ n i s x y w. fine w;
  mouse_move = λ n x y w. fine w;
  mouse_button = λ n b p w. fine w;
  mouse_scroll = λ n v h w. fine w;
  keyboard_key = λ n u d w. fine w;
  gamepad_button = λ n b p w. fine w;
  gamepad_axis = λ n i v w. fine w;
  gamepad_dpad = λ n u d r l w. fine w;
  toggle_usage = λ n u d w. fine w;
  pen_update = λ n s w. fine w;
  digitizer_update = λ n s w. fine w;
  spec_create_touchscreen = λ o w. made w;
  spec_create_mouse = λ o w. made w;
  spec_create_keyboard = λ o w. made w;
  spec_create_gamepad = λ o w. made w;
  spec_create_pen = λ o w. made w;
  spec_create_digitizer = λ o w. made w;
  spec_create_toggle = λ o w. made w;
  spec_release = λ s w. w;
  adb_proxy_start = λ h p t w. ((pos 0, some w), w + 1);
  adb_proxy_stop = λ p t w. w;
  sleep_ms = λ t w. w;
}

pub demo-OpensNode : OpensNode demo
demo-OpensNode h s o t w e = refl

pub demo-SendsAll : SendsAll demo
demo-SendsAll = record { submits = λ n t w. refl; drains = λ n t w. refl }

-- An open device without nodes.
abbrev pub bare : Device demo
bare = record (no_device demo) { handle = some 1; label = codes "phone" }

bare-IsMasked : IsMasked demo bare
bare-IsMasked = record { mask_of = λ p. refl }

abbrev node_calls : List (Call demo)
node_calls =
    call_open_node touch (some 5)
    ∷ call_open_node key (some 6)
    ∷ call_close_node touch
    ∷ call_stop_bridge
    ∷ []

perform_all-IsMasked_example : IsMasked demo (perform_all demo node_calls bare 0).0
perform_all-IsMasked_example =
    perform_all-IsMasked demo demo-OpensNode node_calls bare 0 bare-IsMasked

-- A device with a touchscreen and a keyboard.
abbrev phone : Device demo
phone = record bare {
  nodes = λ p. elim p [
    | touch ↦ some 2
    | mouse ↦ none
    | key ↦ some 3
    | Profile.gamepad ↦ none
    | Profile.pen ↦ none
    | Profile.digitizer ↦ none
    | Profile.toggle ↦ none
  ];
  profile_mask = λ p. elim p [
    | touch ↦ true
    | mouse ↦ false
    | key ↦ true
    | Profile.gamepad ↦ false
    | Profile.pen ↦ false
    | Profile.digitizer ↦ false
    | Profile.toggle ↦ false
  ];
}

phone-IsMasked : IsMasked demo phone
phone-IsMasked = record { mask_of = bit }
  where
    bit : (p : Profile) → phone.profile_mask p ≡ aoahid_player.Device.has demo phone p
    bit touch = refl
    bit mouse = refl
    bit key = refl
    bit Profile.gamepad = refl
    bit Profile.pen = refl
    bit Profile.digitizer = refl
    bit Profile.toggle = refl

abbrev off : BatterySetup
off = record { enabled = false; minimum = pos 1; maximum = pos 100; level = pos 100 }

abbrev pub demo_setup : ProfileSetup
demo_setup = record {
  touch_setup = record {
    enabled = true;
    width = pos 1080;
    height = pos 2400;
    max_contacts = 10;
    battery = off;
  };
  mouse_setup = record { enabled = false; buttons = 3; battery = off };
  key_setup = record { enabled = true; usage_minimum = 4; usage_maximum = 101; battery = off };
  gamepad_setup = record {
    enabled = false;
    buttons = 10;
    axis_bits = 8;
    dpad = dpad_none;
    axes = [];
    battery = off;
  };
  pen_setup = record {
    enabled = false;
    width = pos 1080;
    height = pos 2400;
    pressure_maximum = pos 4095;
    battery = off;
  };
  digitizer_setup = record {
    enabled = false;
    width = pos 1080;
    height = pos 2400;
    pressure_maximum = pos 4095;
    battery = off;
  };
  toggle_setup = record { enabled = false; battery = off };
}

abbrev screen : Space
screen = record { width = pos 1080; height = pos 2400 }

abbrev touch_down : EventPayload
touch_down = touch_event (record { finger_id = pos 0; state = true; x = pos 5; y = pos 6 })

abbrev group_run : List (GroupCall demo)
group_run =
    call_add phone (codes "usb") demo_setup
    ∷ call_apply touch_down screen
    ∷ call_flush
    ∷ call_battery none
    ∷ []

pub empty_group : IsCounted demo (new_group demo true)
empty_group = record { count = refl; mask = λ p. refl; current = _ }

group_calls-IsCounted_example :
    IsCounted demo (group_calls demo false group_run (new_group demo true, 0)).0
group_calls-IsCounted_example =
    group_calls-IsCounted demo false demo-OpensNode group_run (new_group demo true, 0)
      (phone-IsMasked, (_, (_, (_, _)))) empty_group

-- The group once the device is added.
abbrev added : Group demo
added =
    group_calls demo false (call_add phone (codes "usb") demo_setup ∷ []) (new_group demo true, 0)

added-IsCounted : IsCounted demo added.0
added-IsCounted =
    group_calls-IsCounted demo false demo-OpensNode (call_add phone (codes "usb") demo_setup ∷ [])
      (new_group demo true, 0) (phone-IsMasked, _) empty_group

apply-unsupported_iff_example :
    ((apply demo false touch_down screen added).0 ≡ err_unsupported)
    ↔ (added.0.profile_mask (profile_of touch_down) ≡ false)
apply-unsupported_iff_example =
    apply-unsupported_iff demo false touch_down screen added added-IsCounted

-- The group once a row has been taken.
abbrev touched : Group demo
touched = (apply demo false touch_down screen added).1

touched_dirty : is_dirty (touched.0.dirty_mask) ≡ true
unfolding when◌then◌else◌ match_option group_calls apply same_kind profile_of
touched_dirty = refl

flush_reports_example :
    (flush demo false touched).1.0.slots
    ≡ map (reported demo (touched.0.dirty_mask)) (touched.0.slots)
flush_reports_example = flush_reports demo false touched demo-SendsAll touched_dirty

unsigned_bits-IsWidth_example : IsWidth 1079 (unsigned_bits (pos 1079))
unsigned_bits-IsWidth_example = unsigned_bits-IsWidth 1079 (omega arith)

demo_setup_passes : validate_profile demo_setup touch ≡ none
unfolding validate_profile validate_profile_fields validate_touch validate_battery battery_of
demo_setup_passes = refl

touch_options-IsTouchHolding_example : IsTouchHolding (touch_options demo_setup.touch_setup)
touch_options-IsTouchHolding_example =
    touch_options-IsTouchHolding demo_setup (omega arith) (omega arith) demo_setup_passes

-- The same settings with the battery on, at another level.
abbrev charged : ProfileSetup
charged = set_battery demo_setup touch (record off { enabled = true; level = pos 55 })

same_node-canonical_example :
    same_node charged demo_setup touch
    ≡ same_profile (canonical charged touch) (canonical demo_setup touch) touch
same_node-canonical_example = same_node-canonical charged demo_setup touch
