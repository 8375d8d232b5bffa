-- ===== src/Aoahid/Options.antt =====
-- The structs that this program fills for libaoahid, with the members it sets
-- (include/aoahid_player/spec_builder.hpp, src/device.cpp, src/context.cpp).
use aoahid_player.Base.Int.{ℤ}
use aoahid_player.Base.{ℕ, Bool, Option, List}
use aoahid_player.Text.{Bytes}

-- aoahid_integer_field
pub record IntegerField : Type 0 where
  pub logical_minimum : ℤ
  pub logical_maximum : ℤ
  pub bit_width : ℕ

-- aoahid_axis_role, with the roles of axis_table and any other value.
pub data AxisRole : Type 0 where
  axis_x axis_y axis_z axis_rx axis_ry axis_rz axis_slider axis_dial axis_wheel : AxisRole
  simulation_rudder simulation_throttle simulation_accelerator : AxisRole
  simulation_brake simulation_steering : AxisRole
  other_role : ℕ → AxisRole

-- aoahid_dpad_representation: none, a hat, or any other.
pub data Dpad : Type 0 where
  dpad_none dpad_hat : Dpad
  dpad_other : ℕ → Dpad

-- aoahid_usage_semantic
pub data UsageSemantic : Type 0 where
  one_shot on_off_maintained retrigger selector_bitmap : UsageSemantic

-- What apply_battery sets: the Report ID of the HID's own report, and of the battery's with its range.
pub record Reports : Type 0 where
  pub report_id : Option ℕ
  pub battery_report : Option (ℕ × IntegerField)

pub record TouchscreenOptions : Type 0 where
  pub maximum_contacts : ℕ
  pub contacts_per_report : ℕ
  pub contact_id : IntegerField
  pub x : IntegerField
  pub y : IntegerField
  pub contact_count : IntegerField
  pub reports : Reports

pub record MouseOptions : Type 0 where
  pub button_count : ℕ
  pub x : IntegerField
  pub y : IntegerField
  pub wheel : Option IntegerField
  pub reports : Reports

pub record KeyboardOptions : Type 0 where
  pub usage_minimum : ℕ
  pub usage_maximum : ℕ
  pub reports : Reports

pub record AxisOption : Type 0 where
  pub role : AxisRole
  pub usage_page : ℕ
  pub usage : ℕ
  pub value : IntegerField
  pub neutral_value : ℤ
  pub expected_linux_code : Bytes
  pub expected_android_axis : Bytes

pub record GamepadOptions : Type 0 where
  pub axes : List AxisOption
  pub button_count : ℕ
  pub button_usage_minimum : ℕ
  pub dpad_representation : Dpad
  pub hat : Option IntegerField
  pub reports : Reports

-- aoahid_pen_options and aoahid_digitizer_options.
pub record PenOptions : Type 0 where
  pub x : IntegerField
  pub y : IntegerField
  pub pressure : Option IntegerField
  pub enable_hover : Bool
  pub reports : Reports

-- One usage of a toggle profile.
pub record ToggleUsage : Type 0 where
  pub usage : ℕ
  pub semantic : UsageSemantic
  pub expected_type : Bytes
  pub expected_code : Bytes

pub record ToggleOptions : Type 0 where
  pub application_page : ℕ
  pub application_usage : ℕ
  pub field_page : ℕ
  pub allowed_usages : List ToggleUsage
  pub reports : Reports

pub record DeviceOptions : Type 0 where
  pub transfer_pool_slots : ℕ
  pub validate_reports : Bool

pub record NodeOptions : Type 0 where
  pub reserved_slots : Option ℕ

-- aoahid_event_mode and aoahid_log_level, as far as they are used: the library's own thread, no log.
pub record ContextOptions : Type 0 where
  pub internal_thread : Bool
  pub log_enabled : Bool

-- aoahid_device_info
pub record DeviceInfo : Type 0 where
  pub vendor_id : ℕ
  pub product_id : ℕ
  pub product : Option Bytes
  pub serial : Option Bytes
