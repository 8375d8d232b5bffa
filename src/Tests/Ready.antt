-- ===== src/Tests/Ready.antt =====
-- A device group in which a device has a node for every profile, over a library that takes and sends everything:
-- the group of the players of the tests.
use aoahid_player.Base.{◌≡◌, refl, true, false, some, List, [], ◌∷◌}
use aoahid_player.Device.{Device}
use aoahid_player.DeviceGroup.Counts.Kept.Runs.{call_add, group_calls, group_calls-IsCounted}
use aoahid_player.DeviceGroup.Rows.{mutate, is_empty}
use aoahid_player.DeviceGroup.{Slot, Group, new_group}
use aoahid_player.Event.{
  EventPayload, touch, touch_event, mouse_move, mouse_button, key_event, gamepad_button,
  gamepad_axis, gamepad_dpad, pen_sample, digitizer_sample, media_key,
}
use aoahid_player.Aoahid.{ok}
use aoahid_player.InputState.{InputState}
use aoahid_player.Player.Devices.{
  TakesAll, HasNodes, IsWanted, device_rows-Keeps, device_rows-TakesOnly, device_rows-TakesRows,
}
use aoahid_player.Player.Settled.{Keeps, TakesOnly, TakesRows, AllFit, SettleFits}
use aoahid_player.Player.{RowGroup, device_rows}
use aoahid_player.Scale.{Space}
use aoahid_player.Setup.{Mask}
use aoahid_player.Tests.Devices.{demo, demo-OpensNode, demo-SendsAll, bare, empty_group, demo_setup}
use aoahid_player.Text.{codes}

abbrev full_device : Device demo
full_device = record bare { nodes = λ p. some 2; profile_mask = λ p. true }

abbrev pub every : Mask
every = λ p. true

-- The group of one such device.
abbrev pub full : Group demo
full =
    group_calls demo false (call_add full_device (codes "usb") demo_setup ∷ [])
      (new_group demo true, 0)

abbrev pub demo_rows : RowGroup
demo_rows = device_rows demo false

abbrev pub IsFull : Group demo → Type 0
IsFull = HasNodes demo every

abbrev pub AnyRow : EventPayload → Type 0
AnyRow = IsWanted every

pub full-HasNodes : IsFull full
unfolding group_calls
full-HasNodes = record {
  counted =
      group_calls-IsCounted demo false demo-OpensNode
        (call_add full_device (codes "usb") demo_setup ∷ []) (new_group demo true, 0)
        (record { mask_of = λ p. refl }, _) empty_group;
  nodes = λ p. refl;
}

pub full_devices : is_empty (demo_rows.snapshot_of full) ≡ false
unfolding group_calls
full_devices = refl

demo-TakesAll : TakesAll demo
unfolding mutate
demo-TakesAll = record { takes_row = taken; sends = demo-SendsAll }
  where
    taken :
        (e : EventPayload) (space : Space) (s : Slot demo) (n w : demo.World)
        → (mutate demo e space s n w).0 ≡ ok
    taken (touch_event e) space s n w = refl
    taken (mouse_move e) space s n w = refl
    taken (mouse_button e) space s n w = refl
    taken (key_event e) space s n w = refl
    taken (gamepad_button e) space s n w = refl
    taken (gamepad_axis e) space s n w = refl
    taken (gamepad_dpad e) space s n w = refl
    taken (media_key e) space s n w = refl
    taken (pen_sample e) space s n w = refl
    taken (digitizer_sample e) space s n w = refl

pub demo-Keeps : Keeps demo_rows IsFull
demo-Keeps = device_rows-Keeps demo false every demo-TakesAll

pub demo-TakesOnly : TakesOnly demo_rows IsFull AnyRow
demo-TakesOnly = device_rows-TakesOnly demo false every demo-TakesAll

pub demo-TakesRows : TakesRows demo_rows IsFull AnyRow
demo-TakesRows = device_rows-TakesRows demo false every demo-TakesAll touch refl

pub all_fit : (es : List EventPayload) → AllFit AnyRow es
all_fit [] = _
all_fit (e ∷ es) = (refl, all_fit es)

pub all-SettleFits : (live target : InputState) → SettleFits AnyRow live target
all-SettleFits live target = record { releases_fit = all_fit _; presses_fit = all_fit _ }
