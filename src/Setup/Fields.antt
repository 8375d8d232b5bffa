-- ===== src/Setup/Fields.antt =====
-- unsigned_bits, field, axis_table, find_axis and axis_is_unipolar of
-- include/aoahid_player/spec_builder.hpp.
use aoahid_player.Aoahid.Options.{
  IntegerField, AxisRole, axis_x, axis_y, axis_z, axis_rx, axis_ry, axis_rz, axis_slider, axis_dial,
  axis_wheel, simulation_rudder, simulation_throttle, simulation_accelerator, simulation_brake,
  simulation_steering,
}
use aoahid_player.Base.Int.{ℤ, pos, ltb_ℤ}
use aoahid_player.Base.{
  ℕ, zero, suc, ◌-◌, ◌^◌, Bool, ◌&&◌, ◌||◌, Option, none, some, List, [], ◌∷◌, ltb, if◌then◌else◌,
}
use aoahid_player.Setup.{same_role}
use aoahid_player.Text.{Bytes, codes, same_bytes}

-- The loop of unsigned_bits from `bits` on; the fuel is the number of rounds that are left.
unfoldable pub bits_loop : ℕ → ℕ → ℤ → ℕ
bits_loop zero bits maximum = bits
bits_loop (suc fuel) bits maximum =
    let next = bits_loop fuel (suc bits) maximum in
    if ltb bits 32 && ltb_ℤ (pos (2 ^ bits - 1)) maximum then next else bits

unfoldable pub unsigned_bits : ℤ → ℕ
unfolding bits_loop
unsigned_bits maximum = bits_loop 32 1 maximum

abbrev pub field : ℤ → ℤ → ℕ → IntegerField
field minimum maximum bits = record {
  logical_minimum = minimum;
  logical_maximum = maximum;
  bit_width = bits;
}

pub record AxisIdentity : Type 0 where
  pub name : Bytes
  pub role : AxisRole
  pub usage_page : ℕ
  pub usage : ℕ
  pub linux_code : Bytes
  pub android_axis : Bytes

abbrev axis : Bytes → AxisRole → ℕ → ℕ → Bytes → Bytes → AxisIdentity
axis name role page usage code android = record {
  name = name;
  role = role;
  usage_page = page;
  usage = usage;
  linux_code = code;
  android_axis = android;
}

abbrev pub axis_table : List AxisIdentity
axis_table =
    axis (codes "x") axis_x 1 48 (codes "ABS_X") (codes "AXIS_X")
    ∷ axis (codes "y") axis_y 1 49 (codes "ABS_Y") (codes "AXIS_Y")
    ∷ axis (codes "z") axis_z 1 50 (codes "ABS_Z") (codes "AXIS_Z")
    ∷ axis (codes "rx") axis_rx 1 51 (codes "ABS_RX") (codes "AXIS_RX")
    ∷ axis (codes "ry") axis_ry 1 52 (codes "ABS_RY") (codes "AXIS_RY")
    ∷ axis (codes "rz") axis_rz 1 53 (codes "ABS_RZ") (codes "AXIS_RZ")
    ∷ axis (codes "slider") axis_slider 1 54 (codes "ABS_THROTTLE") (codes "AXIS_THROTTLE")
    ∷ axis (codes "dial") axis_dial 1 55 (codes "ABS_RUDDER") (codes "AXIS_RUDDER")
    ∷ axis (codes "wheel") axis_wheel 1 56 (codes "ABS_WHEEL") (codes "AXIS_WHEEL")
    ∷ axis (codes "rudder") simulation_rudder 2 186 (codes "ABS_RUDDER") (codes "AXIS_RUDDER")
    ∷ axis (codes "throttle") simulation_throttle 2 187 (codes "ABS_THROTTLE")
        (codes "AXIS_THROTTLE")
    ∷ axis (codes "accelerator") simulation_accelerator 2 196 (codes "ABS_GAS") (codes "AXIS_GAS")
    ∷ axis (codes "brake") simulation_brake 2 197 (codes "ABS_BRAKE") (codes "AXIS_BRAKE")
    ∷ axis (codes "steering") simulation_steering 2 200 (codes "ABS_WHEEL") (codes "AXIS_WHEEL")
    ∷ []

-- The two find_axis: by name, and by role.
unfoldable pub named_axis : Bytes → List AxisIdentity → Option AxisIdentity
named_axis name [] = none
named_axis name (entry ∷ rest) =
    let next = named_axis name rest in if same_bytes (entry.name) name then some entry else next

unfoldable pub role_axis : AxisRole → List AxisIdentity → Option AxisIdentity
unfolding same_role
role_axis role [] = none
role_axis role (entry ∷ rest) =
    let next = role_axis role rest in if same_role (entry.role) role then some entry else next

unfoldable pub axis_is_unipolar : AxisRole → Bool
unfolding same_role
axis_is_unipolar role =
    same_role role simulation_accelerator
    || same_role role simulation_brake
    || same_role role simulation_throttle
