-- ===== src/Player/Laps/Jumped.antt =====
-- A seek of src/player.cpp, from the rows of the script to what the devices hold.
use aoahid_player.Base.Int.{ℤ, pos, ◌≤ℤ◌}
use aoahid_player.Base.{◌≤◌, ◌<◌, ℕ, ◌^◌, ltb, arith, if◌then◌else◌}
use aoahid_player.Event.Control.{Control}
use aoahid_player.InputState.{InputState, cleared, state_at}
use aoahid_player.Player.Laps.{Clock, Playback, PlaybackPosition, clamp, last_lap}
use aoahid_player.Player.{RowGroup}
use aoahid_player.Scale.{clamp_ℤ, to_ℕ}
use aoahid_player.Timeline.{EventScript, lap_length, seek}

-- A position inside the script: the lap and its successor fit in int64_t, and the time lies in the lap.
pub record IsInside (script : EventScript) (at : PlaybackPosition) : Type 0 where
  pub lap_from : 1 ≤ at.lap
  pub lap_to : at.lap < 2 ^ 63
  pub time_from : pos 0 ≤ℤ at.time_ns
  pub time_to : at.time_ns ≤ℤ pos (lap_length script at.lap)

lap_bounds :
    (lap : ℕ)
    → (1 ≤ (if ltb lap 1 then 1 else if ltb last_lap lap then last_lap else lap))
      × ((if ltb lap 1 then 1 else if ltb last_lap lap then last_lap else lap) < 2 ^ 63)
lap_bounds lap = ground arith

time_bounds :
    (z : ℤ) (n : ℕ) → (pos 0 ≤ℤ clamp_ℤ z (pos 0) (pos n)) × (clamp_ℤ z (pos 0) (pos n) ≤ℤ pos n)
unfolding clamp_ℤ
time_bounds z n = ground arith

-- clamp gives a position inside the script: a lap of at least 1 whose successor int64_t holds, and a time
-- from 0 to the length of that lap.
pub clamp-IsInside :
    (rows : RowGroup) (clock : Clock) (script : EventScript) (at : PlaybackPosition)
    → IsInside script (clamp rows clock script at)
unfolding clamp
clamp-IsInside rows clock script at =
    let l = lap_bounds at.lap in
    let t = time_bounds at.time_ns (lap_length script (clamp rows clock script at).lap) in
    record { lap_from = l.0; lap_to = l.1; time_from = t.0; time_to = t.1 }

-- The state that jump rebuilds for a position of a playback.
abbrev pub jump_state :
    {rows : RowGroup} {clock : Clock} → PlaybackPosition → Playback rows clock → InputState
jump_state {rows} {clock} at p =
    let target = clamp rows clock p.script at in
    state_at p.script target.lap (seek p.script target.lap (to_ℕ target.time_ns) p.walk).row cleared
