-- ===== src/Context.antt =====
-- src/context.cpp: the texts of errors, and Context, the owner of libaoahid's context. The text for
-- AOAHID_ERR_ACCESS depends on the system the program is built for.
use aoahid_player.Aoahid.{
  Aoahid, AoahidResult, ok, err_param, err_unset_field, err_unsupported, err_not_aoa, err_access,
  err_busy, err_no_device, err_stall, err_timeout, err_short_transfer, err_descriptor_rejected,
  err_io, err_overflow, close_pending, err_internal, other, same_result,
}
use aoahid_player.Base.{ℕ, Bool, true, false, ◌&&◌, Option, none, some, ◌++◌, if◌then◌else◌}
use aoahid_player.Text.{Bytes, codes, same_bytes}

-- waits::control_ms, waits::send_ms and waits::drain_ms of include/aoahid_player/waits.hpp.
abbrev pub control_ms : ℕ
control_ms = 500

abbrev pub send_ms : ℕ
send_ms = 500

abbrev pub drain_ms : ℕ
drain_ms = 1000

-- Context::destroy_timeout_ms of include/aoahid_player/context.hpp.
abbrev destroy_timeout_ms : ℕ
destroy_timeout_ms = 3000

-- A borrowed text, or a default where the pointer is null.
abbrev borrowed_or : Option Bytes → Bytes → Bytes
borrowed_or none d = d
borrowed_or (some t) d = t

unfoldable pub plain_reason : Bool → AoahidResult → Bytes
plain_reason windows ok = codes "No error"
plain_reason windows err_param = codes "A value was rejected as invalid"
plain_reason windows err_unset_field = codes "A required setting is missing"
plain_reason windows err_unsupported = codes "The device does not support this"
plain_reason windows err_not_aoa = codes "The device does not support Android Open Accessory (AOA)"
plain_reason true err_access =
    codes "Access to the USB device was denied. Another program, such as the adb server, "
    ++ codes "may have it open, or the device needs a driver libusb can open, such as WinUSB "
    ++ codes "(see Troubleshooting in README.md)"
plain_reason false err_access =
    codes "Access to the USB device was denied. Install udev/51-aoahid.rules and replug "
    ++ codes "the device"
plain_reason windows err_busy =
    codes "The device is busy or held by another program, such as the adb server"
plain_reason windows err_no_device = codes "The device is no longer connected"
plain_reason windows err_stall = codes "The device refused the request"
plain_reason windows err_timeout = codes "The device did not respond in time"
plain_reason windows err_short_transfer = codes "A USB transfer was cut short"
plain_reason windows err_descriptor_rejected =
    codes "Android rejected the HID description of this profile"
plain_reason windows err_io = codes "USB communication failed; check the cable and the port"
plain_reason windows err_overflow = codes "A limit was exceeded"
plain_reason windows close_pending = codes "The device is still closing"
plain_reason windows err_internal = codes "Internal error in libaoahid"
plain_reason windows (other n) = codes "Internal error in libaoahid"

-- The context is owned, or the pointer is null.
pub record Context (lib : Aoahid) : Type 0 where
  pub handle : Option lib.Context

module _ (lib : Aoahid) where
  unfoldable pub describe_error : AoahidResult → lib.World → Bytes
  describe_error result world =
      let detail = lib.last_error world in
      let field : Bytes = elim detail [
        | none ↦ codes "no field"
        | some d ↦ borrowed_or d.detail_field (codes "no field")
      ] in
      let reason : Bytes = elim detail [
        | none ↦ codes "no detail"
        | some d ↦ borrowed_or d.reason (codes "no detail")
      ] in
      lib.result_name result ++ codes " (" ++ field ++ codes ": " ++ reason ++ codes ")"

  unfoldable pub explain_error : Bool → AoahidResult → lib.World → Bytes
  unfolding plain_reason describe_error
  explain_error windows result world =
      plain_reason windows result ++ codes " (" ++ describe_error result world ++ codes ")"

  -- The timeout kept the context: its detail names the field.
  unfoldable pub is_retained : lib.World → Bool
  is_retained world = elim (lib.last_error world) [
    | none ↦ false
    | some d ↦ elim d.detail_field [
      | none ↦ false
      | some field ↦ same_bytes field (codes "context.destroy")
    ]
  ]

  unfoldable pub destroy : Context lib → lib.World → Context lib × lib.World
  unfolding is_retained
  destroy c world = elim c.handle [
    | none ↦ (c, world)
    | some h ↦
        let first = lib.context_destroy_blocking h control_ms drain_ms destroy_timeout_ms world in
        let second =
          lib.context_destroy_blocking h control_ms drain_ms destroy_timeout_ms first.1 in
        (
          record { handle = none },
          if same_result first.0 err_timeout && is_retained first.1 then second.1 else first.1,
        )
  ]

  unfoldable pub create : Context lib → lib.World → AoahidResult × Context lib × lib.World
  unfolding destroy
  create c world =
      let gone = destroy c world in
      let made =
        lib.context_create (record { internal_thread = true; log_enabled = false }) gone.1 in
      (made.0.0, record { handle = made.0.1 }, made.1)
