-- ===== src/Tests.antt =====
-- Concrete scripts and runs of the model of src/event_script.cpp and src/input_state.cpp.
mod Frames
mod Keys
pub mod Ready
pub mod Playing
mod Runs
pub mod Devices
mod Scripts
use aoahid_player.Base.Int.{pos, negsuc, ◌≤ℤ◌, ◌<ℤ◌}
use aoahid_player.Base.{◌≤◌, ◌≡◌, ◌↔◌, refl, Bool, true, false, List, [], ◌∷◌, ◌++◌, length, arith}
use aoahid_player.Event.Control.{contact}
use aoahid_player.Event.{EventPayload, EventRecord, touch_event, key_event}
use aoahid_player.InputState.Apply.{cleared-IsValid, IsValid, apply_all-IsValid}
use aoahid_player.InputState.Held.{held}
use aoahid_player.InputState.Rebuild.Played.{played, payloads_of, stops_before}
use aoahid_player.InputState.Rebuild.{state_at-played}
use aoahid_player.InputState.{cleared, apply_all, state_at}
use aoahid_player.Laps.LastRun.{IsLastRun, last_run_before-IsLastRun}
use aoahid_player.Laps.NextRun.{IsNext, IsNextRun, next_run_from-IsNextRun}
use aoahid_player.Laps.Runs.{IsMember, runs_on-IsMember}
use aoahid_player.Laps.{
  LapSelector, every_lap, IsWellFormed, matches, runs_on, last_run_before, next_run_from,
}
use aoahid_player.Scale.Bounds.{scale_coordinate-in_surface, scale_coordinate-scale_coordinate}
use aoahid_player.Scale.{scale_coordinate}
use aoahid_player.Timeline.Layout.{Ascending, drawn, runs_at, lap_layout_spans}
use aoahid_player.Timeline.NextLap.{something_on, next_lap-IsNext}
use aoahid_player.Timeline.Plan.{plan, length-plan}
use aoahid_player.Timeline.Seek.{drop_before, visits-seek}
use aoahid_player.Timeline.Walk.{visits, nexts, visits-start}
use aoahid_player.Timeline.{
  EventScript, Fits, idle_walk, start, seek, next_lap, lap_layout, lap_length,
}

-- A finger goes down, and up again on every third lap from lap 2; between them stands a block for
-- the other laps, which keeps its time.
abbrev finger : Bool → EventPayload
finger down = touch_event (record { finger_id = pos 3; state = down; x = pos 40; y = pos 50 })

abbrev tap_key : EventPayload
tap_key = key_event (record { usage = 4; down = true })

abbrev third_lap : LapSelector
third_lap = record { first = 2; last = 20; every = 3; negate = false; keep_time = false }

abbrev other_laps : LapSelector
other_laps = record { first = 2; last = 20; every = 3; negate = true; keep_time = true }

abbrev tap_rows : List EventRecord
tap_rows =
    record { payload = finger true; wait_ns = 5 }
    ∷ record { payload = tap_key; wait_ns = 7 }
    ∷ record { payload = finger false; wait_ns = 0 }
    ∷ record { payload = tap_key; wait_ns = 2 }
    ∷ []

abbrev pub taps : EventScript
taps = record {
  rows = tap_rows;
  segments =
      record { begin = 0; end = 1; when = every_lap; lead_ns = 1; duration = 6 }
      ∷ record { begin = 1; end = 2; when = other_laps; lead_ns = 0; duration = 7 }
      ∷ record { begin = 2; end = 4; when = third_lap; lead_ns = 3; duration = 5 }
      ∷ [];
}

selectors-IsWellFormed : IsWellFormed every_lap × IsWellFormed other_laps × IsWellFormed third_lap
selectors-IsWellFormed = (
  record {
    counts_from_one = omega arith;
    ordered = omega arith;
    in_word = omega arith;
    steps = omega arith;
    step_in_word = omega arith;
  },
  record {
    counts_from_one = omega arith;
    ordered = omega arith;
    in_word = omega arith;
    steps = omega arith;
    step_in_word = omega arith;
  },
  record {
    counts_from_one = omega arith;
    ordered = omega arith;
    in_word = omega arith;
    steps = omega arith;
    step_in_word = omega arith;
  },
)

pub taps-Fits : Fits taps
taps-Fits = record {
  each = (
    record {
      in_order = omega arith;
      in_rows = omega arith;
      lasts = refl;
      selector = selectors-IsWellFormed.0;
    },
    (
      record {
        in_order = omega arith;
        in_rows = omega arith;
        lasts = refl;
        selector = selectors-IsWellFormed.1;
      },
      (
        record {
          in_order = omega arith;
          in_rows = omega arith;
          lasts = refl;
          selector = selectors-IsWellFormed.2;
        },
        tt,
      ),
    ),
  );
  covers = (refl, (refl, (refl, refl)));
}

-- The rows of lap 2 are those of the first and the last segment, the kept time between them.
lap_two : plan taps 2 ≡ (
    record { row = 0; due = 1 } ∷ record { row = 2; due = 16 } ∷ record { row = 3; due = 16 } ∷ [])
unfolding runs_on matches
lap_two = refl

scale_coordinate-in_surface_example :
    (pos 0 ≤ℤ scale_coordinate (negsuc 4) (pos 1080) (pos 4096))
    × (scale_coordinate (negsuc 4) (pos 1080) (pos 4096) <ℤ pos 4096)
scale_coordinate-in_surface_example =
    scale_coordinate-in_surface (negsuc 4) (pos 1080) (pos 4096) (omega arith)

scale_coordinate-scale_coordinate_example :
    scale_coordinate (scale_coordinate (pos 700) (pos 1080) (pos 4096)) (pos 4096) (pos 1080)
    ≡ pos 700
scale_coordinate-scale_coordinate_example =
    scale_coordinate-scale_coordinate 700 1079 4095 (omega arith) (omega arith) (omega arith)

runs_on-IsMember_example : (runs_on third_lap 8 ≡ true) ↔ IsMember false third_lap 8
runs_on-IsMember_example =
    runs_on-IsMember third_lap 8 selectors-IsWellFormed.2 (omega arith) (omega arith)

last_run_before-IsLastRun_example : IsLastRun other_laps 9 (last_run_before other_laps 9)
last_run_before-IsLastRun_example =
    last_run_before-IsLastRun other_laps 9 selectors-IsWellFormed.1 (omega arith)

next_run_from-IsNextRun_example : IsNextRun third_lap 6 (next_run_from third_lap 6)
next_run_from-IsNextRun_example =
    next_run_from-IsNextRun third_lap 6 selectors-IsWellFormed.2 (omega arith)

length-plan_example : length (plan taps 2) ≤ length tap_rows
length-plan_example = length-plan taps 2 taps-Fits

visits-start_example :
    (visits 4 taps (start taps 2 idle_walk) ≡ plan taps 2)
    × ((nexts (length (plan taps 2)) taps (start taps 2 idle_walk)).done ≡ true)
    × ((nexts (length (plan taps 2)) taps (start taps 2 idle_walk)).row ≡ length tap_rows)
    × ((nexts (length (plan taps 2)) taps (start taps 2 idle_walk)).due ≡ lap_length taps 2)
visits-start_example = visits-start taps 2 4 idle_walk taps-Fits (omega arith)

visits-seek_example : visits 4 taps (seek taps 2 10 idle_walk) ≡ drop_before 10 (plan taps 2)
visits-seek_example = visits-seek taps 2 10 4 idle_walk taps-Fits (omega arith)

lap_layout_spans_example :
    ((lap_layout taps 1).1 ≡ lap_length taps 1)
    × Ascending 0 (lap_length taps 1) (lap_layout taps 1).0
    × (drawn 8 (lap_layout taps 1).0 ≡ runs_at 8 1 0 taps.segments)
lap_layout_spans_example = lap_layout_spans taps 1 8

next_lap-IsNext_example : IsNext (something_on true taps.segments) 3 (next_lap taps 3 true)
next_lap-IsNext_example = next_lap-IsNext taps 3 true taps-Fits (omega arith)

apply_all-IsValid_example : IsValid (apply_all cleared (finger true ∷ tap_key ∷ []))
apply_all-IsValid_example = apply_all-IsValid cleared (finger true ∷ tap_key ∷ []) cleared-IsValid

state_at-played_example :
    held (state_at taps 3 1 cleared) (contact (pos 3))
    ≡ held
        (apply_all cleared (played taps 2 ++ payloads_of tap_rows (stops_before 1 (plan taps 3))))
        (contact (pos 3))
state_at-played_example =
    state_at-played taps 3 (contact (pos 3)) taps-Fits (omega arith) (omega arith) 1 cleared
