-- ===== src/DeviceGroup.antt =====
-- DeviceGroup of src/device_group.cpp and include/aoahid_player/device_group.hpp: its slots, and the
-- operations that add, drop and forget a device. A slot is found by its place in the list. The counters are
-- natural numbers; active_count is taken down only for a slot that it counts. Messages for the sink are
-- kept in the order in which they are sent; the lock that guards a snapshot is left out.
pub mod Rows
pub mod Flush
pub mod Reconfigure
pub mod Counts
pub mod Broadcast
pub mod Flushed
pub mod Taken
use aoahid_player.Aoahid.{Aoahid, AoahidResult, err_stall, same_result}
use aoahid_player.Base.Int.{ℤ, pos, negsuc}
use aoahid_player.Base.{
  ℕ, zero, suc, ◌+◌, ◌-◌, ◌^◌, Bool, true, false, not, ◌&&◌, ◌||◌, Option, none, some, List, [],
  ◌∷◌, ◌++◌, length, get_elem?, set, if◌then◌else◌, when◌then◌else◌, match_option, map,
}
use aoahid_player.Context.{explain_error}
use aoahid_player.Device.{Device, close, start_adb_bridge, stop_adb_bridge, proxy_err_argument}
use aoahid_player.Event.{Profile}
use aoahid_player.Scale.{Space}
use aoahid_player.Setup.{ProfileSetup, Mask, no_profiles, union}
use aoahid_player.Text.{Bytes, codes}

-- INT32_MIN
abbrev pub i32_min : ℤ
i32_min = negsuc (2 ^ 31 - 1)

pub record Slot (lib : Aoahid) : Type 0 where
  pub device : Device lib
  pub label : Bytes
  pub key : Bytes
  pub setup : ProfileSetup
  pub touch_space : Space
  pub pen_space : Space
  pub digitizer_space : Space
  pub profiles : Mask
  pub battery_sent : Profile → ℤ
  pub skipped : ℕ
  pub adb_port : ℕ
  pub last_error : Bytes
  pub reports : ℕ
  pub errors : ℕ
  pub active : Bool

pub record DeviceGroup (lib : Aoahid) : Type 0 where
  pub slots : List (Slot lib)
  pub active_count : ℕ
  pub profile_mask : Mask
  pub dirty_mask : Mask
  pub rejected_rows : ℕ
  pub rejection_detail : Bytes
  pub has_sink : Bool
  pub messages : List Bytes

-- The group with the state of the library.
abbrev pub Group : Aoahid → Type 0
Group lib = DeviceGroup lib × lib.World

pub record DeviceStatus : Type 0 where
  pub label : Bytes
  pub key : Bytes
  pub reports : ℕ
  pub errors : ℕ
  pub skipped : ℕ
  pub active : Bool
  pub last_error : Bytes
  pub adb_port : ℕ
  pub profiles : Mask
  pub setup : ProfileSetup

-- The places of a list from `i` on, `n` of them.
abbrev pub places : ℕ → ℕ → List ℕ
places i zero = []
places i (suc n) = i ∷ places (suc i) n

module _ (lib : Aoahid) where
  abbrev pub new_group : Bool → DeviceGroup lib
  new_group has_sink = record {
    slots = [];
    active_count = 0;
    profile_mask = no_profiles;
    dirty_mask = no_profiles;
    rejected_rows = 0;
    rejection_detail = [];
    has_sink = has_sink;
    messages = [];
  }

  -- The loop of refresh_mask.
  abbrev pub active_profiles : List (Slot lib) → Mask
  active_profiles [] p = false
  active_profiles (s ∷ rest) p = (s.active && s.profiles p) || active_profiles rest p

  abbrev pub refresh_mask : DeviceGroup lib → DeviceGroup lib
  refresh_mask g = record g { profile_mask = active_profiles g.slots }

  unfoldable pub set_surfaces : Slot lib → Slot lib
  set_surfaces s =
      let t = s.setup.touch_setup in
      let p = s.setup.pen_setup in
      let d = s.setup.digitizer_setup in
      record s {
        touch_space = record { width = t.width; height = t.height };
        pen_space = record { width = p.width; height = p.height };
        digitizer_space = record { width = d.width; height = d.height };
      }

  -- A Slot as it is made, with the device that add_device is given.
  unfoldable pub new_slot : Device lib → Bytes → ProfileSetup → Slot lib
  unfolding set_surfaces
  new_slot device key setup =
      let zero_space : Space = record { width = pos 0; height = pos 0 } in
      set_surfaces (record {
        device = device;
        label = device.label;
        key = key;
        setup = setup;
        touch_space = zero_space;
        pen_space = zero_space;
        digitizer_space = zero_space;
        profiles = device.profile_mask;
        battery_sent = λ p. i32_min;
        skipped = 0;
        adb_port = device.adb_port;
        last_error = [];
        reports = 0;
        errors = 0;
        active = true;
      })

  unfoldable pub add_device : Device lib → Bytes → ProfileSetup → DeviceGroup lib → DeviceGroup lib
  unfolding new_slot
  add_device device key setup g = refresh_mask (record g {
    slots = g.slots ++ new_slot device key setup ∷ [];
    active_count = g.active_count + 1;
  })

  -- Closes the devices of slots that are no longer in the group.
  abbrev pub close_all : List (Slot lib) → lib.World → lib.World
  unfolding close
  close_all [] w = w
  close_all (s ∷ rest) w = close_all rest (close lib s.device w).1

  unfoldable pub reset : Group lib → Group lib
  reset (g, w) = (
    record g {
      slots = [];
      profile_mask = no_profiles;
      active_count = 0;
      dirty_mask = no_profiles;
      rejected_rows = 0;
      rejection_detail = [];
    },
    close_all g.slots w,
  )

  -- The text that fail sends to the sink.
  unfoldable pub drop_message : Bytes → AoahidResult → Bytes → Bytes
  unfolding same_result
  drop_message label result detail =
      if same_result result err_stall
      then label
        ++ codes " refused a report and was dropped. Right after connecting, "
        ++ codes "Android may still be registering the device; start input "
        ++ codes "about 100 ms after connecting. "
        ++ detail
      else label ++ codes " stopped responding and was dropped. " ++ detail

  -- The group with another slot at a place.
  abbrev pub put_slot : ℕ → Slot lib → DeviceGroup lib → DeviceGroup lib
  put_slot i s g = record g { slots = set g.slots i s }

  -- A slot that has failed, and one that was active and is closed as well.
  abbrev pub failed_slot : Slot lib → Bytes → Slot lib
  failed_slot s detail = record s { errors = s.errors + 1; active = false; last_error = detail }

  abbrev pub dropped_slot : Slot lib → Bytes → Device lib → Slot lib
  dropped_slot s detail closed = record (failed_slot s detail) {
    device = closed;
    adb_port = 0;
    profiles = no_profiles;
  }

  -- The rest of fail for a slot that was active.
  unfoldable pub drop_slot : ℕ → Slot lib → AoahidResult → Bytes → Group lib → Group lib
  unfolding close drop_message
  drop_slot i s result detail (g, w) =
      let closed = close lib s.device w in
      let messages =
        if g.has_sink then g.messages ++ drop_message s.label result detail ∷ [] else g.messages in
      (
        refresh_mask (record g {
          slots = set g.slots i (dropped_slot s detail closed.0);
          active_count = g.active_count - 1;
          messages = messages;
        }),
        closed.1,
      )

  unfoldable pub fail : Bool → ℕ → AoahidResult → Group lib → Group lib
  unfolding explain_error drop_slot
  fail windows i result (g, w) =
      match_option (get_elem? g.slots i) (g, w)
        (λ s.
          let detail = explain_error lib windows result w in
          when s.active
          then drop_slot i s result detail (g, w)
          else (put_slot i (failed_slot s detail) g, w))

  -- A member of snapshot's list.
  abbrev pub status_of : Slot lib → DeviceStatus
  status_of s = record {
    label = s.label;
    key = s.key;
    reports = s.reports;
    errors = s.errors;
    skipped = s.skipped;
    active = s.active;
    last_error = s.last_error;
    adb_port = s.adb_port;
    profiles = s.profiles;
    setup = s.setup;
  }

  abbrev pub snapshot : DeviceGroup lib → List DeviceStatus
  snapshot g = map status_of g.slots

  -- start_adb_bridge and stop_adb_bridge of the group; a place that has no active device is -1.
  unfoldable pub start_bridge : ℕ → ℕ → Group lib → ℤ × Group lib
  unfolding start_adb_bridge
  start_bridge i port (g, w) =
      let refused : ℤ × Group lib = (proxy_err_argument, (g, w)) in
      match_option (get_elem? g.slots i) refused (λ s.
        let started = start_adb_bridge lib s.device port w in
        let slot = record s { device = started.1; adb_port = started.1.adb_port } in
        when s.active then (started.0, (put_slot i slot g, started.2)) else refused)

  unfoldable pub stop_bridge : ℕ → Group lib → Group lib
  unfolding stop_adb_bridge
  stop_bridge i (g, w) =
      match_option (get_elem? g.slots i) (g, w)
        (λ s.
          let stopped = stop_adb_bridge lib s.device w in
          (put_slot i (record s { device = stopped.0; adb_port = 0 }) g, stopped.1))
