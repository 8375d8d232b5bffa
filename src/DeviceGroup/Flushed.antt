-- ===== src/DeviceGroup/Flushed.antt =====
-- What flush of src/device_group.cpp does to the group, whatever the devices answer.
pub mod Reports
use aoahid_player.Aoahid.{Aoahid, ok, same_result}
use aoahid_player.Base.{◌≡◌, ◌≤◌, suc, Bool, false, Option, none}
use aoahid_player.DeviceGroup.Broadcast.{skips}
use aoahid_player.DeviceGroup.Counts.{active_slots}
use aoahid_player.DeviceGroup.Flush.{is_dirty}
use aoahid_player.DeviceGroup.{DeviceGroup, Group, put_slot}

-- The group after a flush, with its answer.
pub record IsFlushed (lib : Aoahid) (g : Group lib) (r : Bool × Group lib) : Type 0 where
  pub answer : r.0 ≡ is_dirty (g.0.dirty_mask)
  pub clean : is_dirty (r.1.0.dirty_mask) ≡ false
  pub same_rows : r.1.0.rejected_rows ≡ g.0.rejected_rows
  pub same_skips : skips lib (r.1.0.slots) ≡ skips lib (g.0.slots)
  pub fewer_active : active_slots lib (r.1.0.slots) ≤ active_slots lib (g.0.slots)
