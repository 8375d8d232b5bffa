-- ===== src/Player/Run/Start.antt =====
-- load (load_script) and the part of run before its loop, of Player in src/player.cpp, with required_profiles of
-- src/event_script.cpp. A script is loaded.
use aoahid_player.Base.Int.{ℤ}
use aoahid_player.Base.{false, not, ◌&&◌, List, [], ◌∷◌, ◌++◌, map, when◌then◌else◌}
use aoahid_player.Device.Names.{describe_profiles}
use aoahid_player.DeviceGroup.Flush.{is_dirty}
use aoahid_player.DeviceGroup.Rows.{is_empty}
use aoahid_player.DeviceGroup.{DeviceStatus}
use aoahid_player.Event.{EventRecord, profile_of}
use aoahid_player.InputState.{clear}
use aoahid_player.Player.Laps.{Clock, PlaybackPosition}
use aoahid_player.Player.Run.{Run, turning, with_player, jump_to}
use aoahid_player.Player.{RowGroup, Player}
use aoahid_player.Scale.{Space}
use aoahid_player.Setup.{Mask, no_profiles, only, union}
use aoahid_player.Text.{Bytes, codes}
use aoahid_player.Timeline.{EventScript, idle_walk}

abbrev pub required_profiles : List EventRecord → Mask
required_profiles [] = no_profiles
required_profiles (r ∷ rest) = union (only (profile_of r.payload)) (required_profiles rest)

-- a & ~b.
abbrev pub masked_off : Mask → Mask → Mask
masked_off a b p = a p && not (b p)

-- The loop over the devices, with what a connected device lacks.
abbrev pub lack_messages : Mask → List DeviceStatus → List Bytes
lack_messages wanted [] = []
lack_messages wanted (d ∷ rest) =
    let lacks = masked_off wanted d.profiles in
    let text =
      d.label
      ++ codes " has no "
      ++ describe_profiles lacks
      ++ codes "; those rows are skipped on it." in
    when d.active && is_dirty lacks
    then text ∷ lack_messages wanted rest
    else lack_messages wanted rest

module _ (rows : RowGroup) (clock : Clock) where
  -- load, while stopped; the space is that of the script.
  abbrev pub load_script : EventScript → Space → Run rows clock → Run rows clock
  load_script script space r = record r {
    playback = record (r.playback) {
      player = record (r.playback.player) { space = space; staged_keys = [] };
      script = script;
      walk = idle_walk;
    };
  }

  -- What run resets.
  abbrev pub reset_run : Run rows clock → Run rows clock
  reset_run r = record r {
    playback = record (r.playback) {
      player = record (r.playback.player) {
        reports = 0;
        warned_profiles = no_profiles;
        rejection_reported = false;
        live = clear r.playback.player.live;
        staged_keys = [];
      };
      loops = 0;
    };
    controls = record (r.controls) { want_paused = false };
    timed_out = false;
    holding_pause = false;
  }

  -- The warnings of run, of the profiles that no device has and of those that a device lacks.
  unfoldable pub warn : Mask → Player rows → Player rows
  warn required p =
      let missing = masked_off required (rows.mask_of p.group) in
      let absent =
        when is_dirty missing
        then (codes "The script uses the "
            ++ describe_profiles missing
            ++ codes ", which is not connected; those rows are skipped.")
          ∷ []
        else [] in
      record p {
        messages =
            when p.has_sink
            then p.messages
              ++ (absent ++ lack_messages (masked_off required missing) (rows.snapshot_of p.group))
            else p.messages;
        warned_profiles = missing;
      }

  -- run, to the head of its loop; it returns at once for a group with no device.
  unfoldable pub begin_run : PlaybackPosition → ℤ → Run rows clock → Run rows clock
  begin_run at now r =
      let devices = rows.snapshot_of r.playback.player.group in
      let warned =
        with_player rows clock (warn (required_profiles r.playback.script.rows)) (reset_run r) in
      let ready = record warned {
        skipped_before = map (λ (d : DeviceStatus). d.skipped) devices;
        phase = turning;
      } in
      when is_empty devices then r else jump_to rows clock at now ready
