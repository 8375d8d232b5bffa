-- ===== src/Setup/Widths/Holding.antt =====
-- The fields of a touchscreen and of a battery, for settings that pass the validation of
-- include/aoahid_player/spec_builder.hpp.
use aoahid_player.Aoahid.Options.{IntegerField, TouchscreenOptions, Reports}
use aoahid_player.Base.Int.{ℤ, pos, negsuc, ◌-ℤ◌, ◌≤ℤ◌, ◌<ℤ◌}
use aoahid_player.Base.{
  ◌≡◌, refl, sym, subst, ◌≤◌, ◌<◌, ℕ, zero, suc, ◌^◌, Bool, true, false, not, Option, none, some,
  if◌then◌else◌, arith,
}
use aoahid_player.Event.{touch}
use aoahid_player.Setup.Fields.{field, unsigned_bits}
use aoahid_player.Setup.Specs.{touch_options, apply_battery, no_reports}
use aoahid_player.Setup.Validate.{
  validate_profile, validate_profile_fields, validate_touch, validate_battery,
}
use aoahid_player.Setup.Widths.{unsigned_bits-IsWidth}
use aoahid_player.Setup.{BatterySetup, TouchSetup, ProfileSetup, battery_of}

-- An unsigned field whose range is in order, and whose bits hold its maximum.
pub record IsHolding (f : IntegerField) : Type 0 where
  pub unsigned_range : pos 0 ≤ℤ f.logical_minimum
  pub ordered : f.logical_minimum ≤ℤ f.logical_maximum
  pub fits : f.logical_maximum <ℤ pos (2 ^ f.bit_width)
  pub width : f.bit_width ≤ 32

abbrev pub HoldsBattery : Option (ℕ × IntegerField) → Type 0
HoldsBattery none = Unit
HoldsBattery (some r) = IsHolding r.1

pub record IsTouchHolding (o : TouchscreenOptions) : Type 0 where
  pub contact_id_holds : IsHolding o.contact_id
  pub x_holds : IsHolding o.x
  pub y_holds : IsHolding o.y
  pub contact_count_holds : IsHolding o.contact_count
  pub battery_holds : HoldsBattery (o.reports.battery_report)

field-IsHolding :
    (a n : ℕ) → a ≤ n → n < 2 ^ 32 → IsHolding (field (pos a) (pos n) (unsigned_bits (pos n)))
field-IsHolding a n h k =
    let w = unsigned_bits-IsWidth n k in
    record {
      unsigned_range = omega arith;
      ordered = omega arith;
      fits = omega (arith, w.holds);
      width = w.at_most_32;
    }

-- The last position of a surface that is not empty.
last_position :
    (z : ℤ) → pos 0 <ℤ z → z <ℤ pos (2 ^ 31) → (n : ℕ) × (z -ℤ pos 1 ≡ pos n) × (n < 2 ^ 32)
unfolding ◌-ℤ◌
last_position (pos zero) h k = absurd (omega arith)
last_position (pos (suc n)) h k = (n, ground arith, omega arith)
last_position (negsuc n) h k = absurd (omega arith)

-- The range of a battery that passes.
battery_range :
    (b : BatterySetup)
    → b.enabled ≡ true
    → validate_battery b ≡ none
    → (pos 0 ≤ℤ b.minimum) × (b.minimum ≤ℤ b.maximum) × (b.maximum ≤ℤ pos 65535)
unfolding validate_battery
battery_range b e v = ground arith

battery_field :
    (a z : ℤ) → pos 0 ≤ℤ a → a ≤ℤ z → z ≤ℤ pos 65535 → IsHolding (field a z (unsigned_bits z))
battery_field (pos a) (pos n) h k l = field-IsHolding a n (omega arith) (omega arith)
battery_field (pos a) (negsuc n) h k l = absurd (omega arith)
battery_field (negsuc a) z h k l = absurd (omega arith)

-- The reports that apply_battery chooses.
chosen :
    (c : Bool) (r : Reports)
    → (c ≡ false → HoldsBattery r.battery_report)
    → HoldsBattery ((if c then no_reports else r).battery_report)
chosen true r h = _
chosen false r h = h refl

pub apply_battery-HoldsBattery :
    (b : BatterySetup)
    → validate_battery b ≡ none
    → HoldsBattery ((apply_battery no_reports b).battery_report)
unfolding apply_battery
apply_battery-HoldsBattery b v =
    chosen (not b.enabled) _ (λ e.
      let r = battery_range b (ground arith) v in battery_field b.minimum b.maximum r.0 r.1 r.2)

-- The surface and the contacts of a touchscreen that passes.
touch_range :
    (t : TouchSetup)
    → validate_touch t ≡ none
    → (pos 0 <ℤ t.width) × (pos 0 <ℤ t.height) × (1 ≤ t.max_contacts) × (t.max_contacts ≤ 16)
unfolding validate_touch
touch_range t v = ground arith

-- Both halves of validate_profile pass.
both_pass :
    {A : Type 0} (a b : Option A)
    → elim a [ none ↦ b | some e ↦ some e ] ≡ none
    → (a ≡ none) × (b ≡ none)
both_pass none b e = (refl, e)
both_pass (some x) b e = absurd cc

-- For a touchscreen whose settings pass validation, with a width and a height below 2 ^ 31, every field of
-- the options that create_touch gives to libaoahid, the battery's included, has its range in order, from 0
-- on, and its maximum fits the field's bits, which are at most 32.
pub touch_options-IsTouchHolding :
    (s : ProfileSetup)
    → s.touch_setup.width <ℤ pos (2 ^ 31)
    → s.touch_setup.height <ℤ pos (2 ^ 31)
    → validate_profile s touch ≡ none
    → IsTouchHolding (touch_options s.touch_setup)
unfolding touch_options validate_profile validate_profile_fields battery_of
touch_options-IsTouchHolding s w h v =
    let t = s.touch_setup in
    let passed = both_pass (validate_touch t) (validate_battery t.battery) v in
    let r = touch_range t passed.0 in
    record {
      contact_id_holds = record {
        unsigned_range = omega arith;
        ordered = omega arith;
        fits = omega arith;
        width = omega arith;
      };
      x_holds = surface t.width r.0 w;
      y_holds = surface t.height r.1 h;
      contact_count_holds = field-IsHolding 0 t.max_contacts (omega arith) (omega (arith, r.3));
      battery_holds = apply_battery-HoldsBattery t.battery passed.1;
    }
  where
    surface :
        (z : ℤ)
        → pos 0 <ℤ z
        → z <ℤ pos (2 ^ 31)
        → IsHolding (field (pos 0) (z -ℤ pos 1) (unsigned_bits (z -ℤ pos 1)))
    surface z h k =
        let l = last_position z h k in
        subst (λ (y : ℤ). IsHolding (field (pos 0) y (unsigned_bits y))) (sym l.1)
          (field-IsHolding 0 l.0 (omega arith) l.2)
