-- ===== src/Device.antt =====
-- Device of src/device.cpp and include/aoahid_player/device.hpp, the owner of one device of libaoahid,
-- of its nodes and of its ADB bridge. An array of pointers is a function from profiles, and a pointer
-- that may be null an option.
pub mod Names
pub mod Nodes
use aoahid_player.Aoahid.Options.{DeviceOptions, NodeOptions, DeviceInfo}
use aoahid_player.Aoahid.{
  Aoahid, AoahidResult, ok, err_param, err_unset_field, close_pending, same_result,
}
use aoahid_player.Base.Int.{ℤ, pos, negsuc, eqb_ℤ}
use aoahid_player.Base.{
  ℕ, Bool, true, false, not, ◌&&◌, ◌||◌, Option, none, some, [], if◌then◌else◌, when◌then◌else◌,
  match_option,
}
use aoahid_player.Context.{Context, control_ms, drain_ms}
use aoahid_player.Device.Names.{device_label}
use aoahid_player.Event.{Profile}
use aoahid_player.Setup.{Mask, no_profiles, only, same_kind, union}
use aoahid_player.Text.{Bytes}

unfoldable pub make_device_options : DeviceOptions
make_device_options = record { transfer_pool_slots = 8; validate_reports = false }

unfoldable pub make_node_options : NodeOptions
make_node_options = record { reserved_slots = some 1 }

-- What libaoahid's headers name AOAHID_ADB_PROXY_OK and AOAHID_ADB_PROXY_ERR_ARGUMENT, the null-argument
-- code -1.
abbrev pub proxy_ok : ℤ
proxy_ok = pos 0

abbrev pub proxy_err_argument : ℤ
proxy_err_argument = negsuc 0

abbrev pub is_some {ℓ} : {A : Type ℓ} → Option A → Bool
is_some none = false
is_some (some a) = true

pub record Device (lib : Aoahid) : Type 0 where
  pub handle : Option lib.Handle
  pub adb_bridge : Option lib.Proxy
  pub adb_port : ℕ
  pub nodes : Profile → Option lib.Node
  pub profile_mask : Mask
  pub label : Bytes

-- The function with another value at one profile.
abbrev pub set_at {ℓ} : {A : Type ℓ} → (Profile → A) → Profile → A → Profile → A
set_at f profile a q = if same_kind profile q then a else f q

-- mask & ~profile_bit
abbrev pub without : Mask → Profile → Mask
without mask profile q = mask q && not (same_kind profile q)

module _ (lib : Aoahid) where
  -- A default-constructed Device.
  abbrev pub no_device : Device lib
  no_device = record {
    handle = none;
    adb_bridge = none;
    adb_port = 0;
    nodes = λ p. none;
    profile_mask = no_profiles;
    label = [];
  }

  abbrev pub has : Device lib → Profile → Bool
  has d profile = is_some (d.nodes profile)

  unfoldable pub stop_adb_bridge : Device lib → lib.World → Device lib × lib.World
  stop_adb_bridge d w =
      (record d { adb_bridge = none; adb_port = 0 }, lib.adb_proxy_stop d.adb_bridge drain_ms w)

  unfoldable pub close : Device lib → lib.World → Device lib × lib.World
  unfolding stop_adb_bridge
  close d w =
      let stopped = stop_adb_bridge d w in
      let world : lib.World = elim d.handle [
        | none ↦ stopped.1
        | some h ↦ (lib.device_close h control_ms drain_ms stopped.1).1
      ] in
      (record (stopped.0) { handle = none; nodes = λ p. none; profile_mask = no_profiles }, world)

  -- open with the library's context and the selected device, either of which may be null.
  unfoldable pub open_device :
      Device lib
      → Context lib
      → Option DeviceInfo
      → lib.World
      → AoahidResult × Device lib × lib.World
  unfolding close device_label make_device_options
  open_device d context selected w =
      let closed = close d w in
      let refused : AoahidResult × Device lib × lib.World = (err_param, closed.0, closed.1) in
      match_option context.handle refused (λ c. match_option selected refused (λ info.
        let opened = lib.device_open c info make_device_options closed.1 in
        (
          opened.0.0,
          record (closed.0) { label = device_label (some info); handle = opened.0.1 },
          opened.1,
        )))

  -- The Device after aoahid_node_open has given a node.
  abbrev pub with_node : Device lib → Profile → Option lib.Node → Device lib
  with_node d profile node = record d {
    nodes = set_at d.nodes profile node;
    profile_mask = union d.profile_mask (only profile);
  }

  abbrev pub without_node : Device lib → Profile → Device lib
  without_node d profile = record d {
    nodes = set_at d.nodes profile none;
    profile_mask = without d.profile_mask profile;
  }

  unfoldable pub open_node :
      Device lib → Profile → Option lib.Spec → lib.World → AoahidResult × Device lib × lib.World
  unfolding make_node_options
  open_node d profile spec w =
      let refused : AoahidResult × Device lib × lib.World = (err_param, d, w) in
      match_option d.handle refused (λ h. match_option spec refused (λ s.
        let opened = lib.node_open h s make_node_options control_ms w in
        when has d profile
        then refused
        else when same_result opened.0.0 ok
        then (ok, with_node d profile opened.0.1, opened.1)
        else (opened.0.0, d, opened.1)))

  -- The results of aoahid_node_close that leave the node.
  unfoldable pub keeps_node : AoahidResult → Bool
  unfolding same_result
  keeps_node r =
      same_result r err_param || same_result r err_unset_field || same_result r close_pending

  unfoldable pub close_node :
      Device lib → Profile → lib.World → AoahidResult × Device lib × lib.World
  unfolding keeps_node
  close_node d profile w =
      match_option (d.nodes profile) (ok, d, w)
        (λ node.
          let closed = lib.node_close node control_ms drain_ms w in
          when keeps_node closed.0
          then (closed.0, d, closed.1)
          else (closed.0, without_node d profile, closed.1))

  unfoldable pub start_adb_bridge : Device lib → ℕ → lib.World → ℤ × Device lib × lib.World
  start_adb_bridge d port w =
      let refused : ℤ × Device lib × lib.World = (proxy_err_argument, d, w) in
      match_option d.handle refused (λ h.
        let started = lib.adb_proxy_start h port drain_ms w in
        when is_some d.adb_bridge
        then refused
        else when eqb_ℤ started.0.0 proxy_ok
        then (started.0.0, record d { adb_bridge = started.0.1; adb_port = port }, started.1)
        else (started.0.0, record d { adb_bridge = none }, started.1))

  -- Device(Device&&): the new device, and what is left of the other.
  unfoldable pub move_device : Device lib → Device lib × Device lib
  move_device other = (other, record no_device { label = [] })
