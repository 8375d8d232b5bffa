-- ===== src/Aoahid.antt =====
-- What src/device.cpp, src/device_group.cpp, src/context.cpp and
-- include/aoahid_player/spec_builder.hpp call of libaoahid, which is not part of this repository: its
-- results, and a record of its operations that the definitions take as an argument. A call reads and
-- changes the state of the library and the bus, the World.
pub mod Options
use aoahid_player.Base.Int.{ℤ}
use aoahid_player.Base.{◌≡◌, refl, ap, arith, ℕ, ◌+◌, Bool, true, false, Option, none, some, ◌==◌}
use aoahid_player.Aoahid.Options.{
  TouchscreenOptions, MouseOptions, KeyboardOptions, GamepadOptions, PenOptions, ToggleOptions,
  DeviceOptions, NodeOptions, ContextOptions, DeviceInfo,
}
use aoahid_player.Event.{StylusSample}
use aoahid_player.Text.{Bytes}

-- The values of aoahid_result that plain_reason of src/context.cpp names, and any other.
pub data AoahidResult : Type 0 where
  ok err_param err_unset_field err_unsupported err_not_aoa err_access : AoahidResult
  err_busy err_no_device err_stall err_timeout err_short_transfer : AoahidResult
  err_descriptor_rejected err_io err_overflow close_pending err_internal : AoahidResult
  other : ℕ → AoahidResult

unfoldable pub result_index : AoahidResult → ℕ
result_index ok = 0
result_index err_param = 1
result_index err_unset_field = 2
result_index err_unsupported = 3
result_index err_not_aoa = 4
result_index err_access = 5
result_index err_busy = 6
result_index err_no_device = 7
result_index err_stall = 8
result_index err_timeout = 9
result_index err_short_transfer = 10
result_index err_descriptor_rejected = 11
result_index err_io = 12
result_index err_overflow = 13
result_index close_pending = 14
result_index err_internal = 15
result_index (other n) = 16 + n

-- == of two results.
unfoldable pub same_result : AoahidResult → AoahidResult → Bool
unfolding result_index
same_result a b = result_index a == result_index b

pub same_ok : {r : AoahidResult} → r ≡ ok → same_result r ok ≡ true
unfolding same_result
same_ok e = ap (λ r. same_result r ok) e

-- aoahid_error_detail
pub record ErrorDetail : Type 0 where
  pub detail_field : Option Bytes
  pub reason : Option Bytes
  pub transport_status : ℤ
  pub detail_code : AoahidResult

pub record Aoahid : Type 1 where
  pub World : Type 0
  pub Context : Type 0
  pub Handle : Type 0
  pub Node : Type 0
  pub Spec : Type 0
  pub Proxy : Type 0
  pub last_error : World → Option ErrorDetail
  pub result_name : AoahidResult → Bytes
  pub context_create : ContextOptions → World → (AoahidResult × Option Context) × World
  pub context_destroy_blocking : Context → ℕ → ℕ → ℕ → World → AoahidResult × World
  pub device_open :
      Context → DeviceInfo → DeviceOptions → World → (AoahidResult × Option Handle) × World
  pub device_close : Handle → ℕ → ℕ → World → AoahidResult × World
  pub node_open : Handle → Spec → NodeOptions → ℕ → World → (AoahidResult × Option Node) × World
  pub node_close : Node → ℕ → ℕ → World → AoahidResult × World
  pub node_submit : Node → ℕ → World → AoahidResult × World
  pub node_submit_blocking : Node → ℕ → World → AoahidResult × World
  pub battery_update : Node → ℤ → World → AoahidResult × World
  pub touchscreen_contact : Node → ℕ → Bool → ℤ → ℤ → World → AoahidResult × World
  pub mouse_move : Node → ℤ → ℤ → World → AoahidResult × World
  pub mouse_button : Node → ℕ → Bool → World → AoahidResult × World
  pub mouse_scroll : Node → ℤ → ℤ → World → AoahidResult × World
  pub keyboard_key : Node → ℕ → Bool → World → AoahidResult × World
  pub gamepad_button : Node → ℕ → Bool → World → AoahidResult × World
  pub gamepad_axis : Node → ℕ → ℤ → World → AoahidResult × World
  pub gamepad_dpad : Node → Bool → Bool → Bool → Bool → World → AoahidResult × World
  pub toggle_usage : Node → ℕ → Bool → World → AoahidResult × World
  pub pen_update : Node → StylusSample → World → AoahidResult × World
  pub digitizer_update : Node → StylusSample → World → AoahidResult × World
  pub spec_create_touchscreen : TouchscreenOptions → World → (AoahidResult × Option Spec) × World
  pub spec_create_mouse : MouseOptions → World → (AoahidResult × Option Spec) × World
  pub spec_create_keyboard : KeyboardOptions → World → (AoahidResult × Option Spec) × World
  pub spec_create_gamepad : GamepadOptions → World → (AoahidResult × Option Spec) × World
  pub spec_create_pen : PenOptions → World → (AoahidResult × Option Spec) × World
  pub spec_create_digitizer : PenOptions → World → (AoahidResult × Option Spec) × World
  pub spec_create_toggle : ToggleOptions → World → (AoahidResult × Option Spec) × World
  pub spec_release : Spec → World → World
  pub adb_proxy_start : Handle → ℕ → ℕ → World → (ℤ × Option Proxy) × World
  pub adb_proxy_stop : Option Proxy → ℕ → World → World
  -- Timing::sleep_ms, a wait of the operating system.
  pub sleep_ms : ℕ → World → World

-- A result that equals AOAHID_OK is it.
pub same_result-ok : (r : AoahidResult) → same_result r ok ≡ true → r ≡ ok
unfolding same_result
same_result-ok ok h = refl
same_result-ok err_param h = ground arith
same_result-ok err_unset_field h = ground arith
same_result-ok err_unsupported h = ground arith
same_result-ok err_not_aoa h = ground arith
same_result-ok err_access h = ground arith
same_result-ok err_busy h = ground arith
same_result-ok err_no_device h = ground arith
same_result-ok err_stall h = ground arith
same_result-ok err_timeout h = ground arith
same_result-ok err_short_transfer h = ground arith
same_result-ok err_descriptor_rejected h = ground arith
same_result-ok err_io h = ground arith
same_result-ok err_overflow h = ground arith
same_result-ok close_pending h = ground arith
same_result-ok err_internal h = ground arith
same_result-ok (other n) h = ground arith
