-- ===== src/DeviceGroup/Counts/Kept/Runs.antt =====
-- Sequences of calls on a DeviceGroup (src/device_group.cpp), with the invariant of its counters.
use aoahid_player.Aoahid.{Aoahid}
use aoahid_player.Base.Int.{ℤ}
use aoahid_player.Base.{ℕ, Bool, Option, List, [], ◌∷◌, All}
use aoahid_player.Device.Nodes.{OpensNode, IsMasked}
use aoahid_player.Device.{Device}
use aoahid_player.DeviceGroup.Counts.Kept.Opened.{reconfigure-Reconfigured}
use aoahid_player.DeviceGroup.Counts.Kept.Rest.{
  add_device-IsCounted, reset-IsCounted, start_bridge-Counted, stop_bridge-Counted,
}
use aoahid_player.DeviceGroup.Counts.Kept.Send.{flush-Counted, send_battery_levels-Counted}
use aoahid_player.DeviceGroup.Counts.Kept.{broadcast-Counted}
use aoahid_player.DeviceGroup.Counts.{IsCounted}
use aoahid_player.DeviceGroup.Flush.{flush}
use aoahid_player.DeviceGroup.Reconfigure.{reconfigure, send_battery_levels}
use aoahid_player.DeviceGroup.Rows.{apply, scroll, toggle_row}
use aoahid_player.DeviceGroup.{Group, add_device, reset, start_bridge, stop_bridge}
use aoahid_player.Event.{EventPayload}
use aoahid_player.Scale.{Space}
use aoahid_player.Setup.{ProfileSetup}
use aoahid_player.Text.{Bytes}

-- A call of a member function that changes the group, with its arguments.
pub data GroupCall (lib : Aoahid) : Type 0 where
  call_add : Device lib → Bytes → ProfileSetup → GroupCall lib
  call_reset : GroupCall lib
  call_apply : EventPayload → Space → GroupCall lib
  call_scroll : ℤ → GroupCall lib
  call_toggle : ℕ → ℕ → GroupCall lib
  call_flush : GroupCall lib
  call_reconfigure : ℕ → ProfileSetup → GroupCall lib
  call_battery : Option ℕ → GroupCall lib
  call_start : ℕ → ℕ → GroupCall lib
  call_stop : ℕ → GroupCall lib

-- A device that is added has the mask of its nodes.
abbrev pub AddsMasked : (lib : Aoahid) → GroupCall lib → Type 0
AddsMasked lib (call_add d key setup) = IsMasked lib d
AddsMasked lib call_reset = Unit
AddsMasked lib (call_apply e space) = Unit
AddsMasked lib (call_scroll wheel) = Unit
AddsMasked lib (call_toggle usage value) = Unit
AddsMasked lib call_flush = Unit
AddsMasked lib (call_reconfigure i wanted) = Unit
AddsMasked lib (call_battery i) = Unit
AddsMasked lib (call_start i port) = Unit
AddsMasked lib (call_stop i) = Unit

module _ (lib : Aoahid) (windows : Bool) where
  unfoldable pub group_call : GroupCall lib → Group lib → Group lib
  unfolding add_device reset apply scroll toggle_row flush reconfigure send_battery_levels
      start_bridge stop_bridge
  group_call (call_add d key setup) g = (add_device lib d key setup g.0, g.1)
  group_call call_reset g = reset lib g
  group_call (call_apply e space) g = (apply lib windows e space g).1
  group_call (call_scroll wheel) g = (scroll lib windows wheel g).1
  group_call (call_toggle usage value) g = (toggle_row lib windows usage value g).1
  group_call call_flush g = (flush lib windows g).1
  group_call (call_reconfigure i wanted) g = (reconfigure lib windows i wanted g).2
  group_call (call_battery i) g = send_battery_levels lib windows i g
  group_call (call_start i port) g = (start_bridge lib i port g).1
  group_call (call_stop i) g = stop_bridge lib i g

  unfoldable pub group_calls : List (GroupCall lib) → Group lib → Group lib
  unfolding group_call
  group_calls [] g = g
  group_calls (c ∷ cs) g = group_calls cs (group_call c g)

  group_call-IsCounted :
      OpensNode lib
      → (c : GroupCall lib) (g : Group lib) → AddsMasked lib c
      → IsCounted lib g.0
      → IsCounted lib (group_call c g).0
  unfolding group_call apply scroll toggle_row
  group_call-IsCounted o (call_add d key setup) g m v =
      add_device-IsCounted lib windows d key setup g.0 m v
  group_call-IsCounted o call_reset g m v = reset-IsCounted lib windows g
  group_call-IsCounted o (call_apply e space) g m v =
      (broadcast-Counted lib windows _ _ g v).result_counted
  group_call-IsCounted o (call_scroll wheel) g m v =
      (broadcast-Counted lib windows _ _ g v).result_counted
  group_call-IsCounted o (call_toggle usage value) g m v =
      (broadcast-Counted lib windows _ _ g v).result_counted
  group_call-IsCounted o call_flush g m v = (flush-Counted lib windows g v).result_counted
  group_call-IsCounted o (call_reconfigure i wanted) g m v =
      (reconfigure-Reconfigured lib windows o i wanted g v).kept
  group_call-IsCounted o (call_battery i) g m v =
      (send_battery_levels-Counted lib windows i g v).counted
  group_call-IsCounted o (call_start i port) g m v =
      (start_bridge-Counted lib windows i port g v).result_counted
  group_call-IsCounted o (call_stop i) g m v = (stop_bridge-Counted lib windows i g v).counted

  -- After any calls on a group, active_count() is the number of active slots, profile_mask() joins the
  -- profiles of the active slots, and the published profiles of every slot are those its device has a
  -- node for. It holds before, the devices that are added have the mask of their nodes, and libaoahid
  -- gives a node with AOAHID_OK.
  pub group_calls-IsCounted :
      OpensNode lib
      → (cs : List (GroupCall lib)) (g : Group lib) → All (AddsMasked lib) cs
      → IsCounted lib g.0
      → IsCounted lib (group_calls cs g).0
  unfolding group_calls
  group_calls-IsCounted o [] g m v = v
  group_calls-IsCounted o (c ∷ cs) g m v =
      group_calls-IsCounted o cs (group_call c g) m.1 (group_call-IsCounted o c g m.0 v)
