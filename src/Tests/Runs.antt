-- ===== src/Tests/Runs.antt =====
-- Runs of a player over a group with a device that takes every row, for the model of the loops of src/player.cpp.
use aoahid_player.Base.Int.{pos}
use aoahid_player.Base.{ℕ, ◌≡◌, refl, true, false, List, [], ◌∷◌, ◌++◌}
use aoahid_player.InputState.{cleared}
use aoahid_player.Player.Batches.{IsPlaying}
use aoahid_player.Player.Controls.{Controls, Command, no_requests}
use aoahid_player.Player.Laps.{PlaybackPosition, begin_lap}
use aoahid_player.Player.Run.Resumed.{begin_lap-deadline}
use aoahid_player.Player.Run.Released.{run-IsPlaying}
use aoahid_player.Player.Run.Start.{begin_run}
use aoahid_player.Player.Run.Stops.{run-stop}
use aoahid_player.Player.Run.{
  Run, Moment, turning, holding, deadline_for, with_playback, ended, turn, run,
}
use aoahid_player.Tests.Playing.{steady, halfway}
use aoahid_player.Tests.Ready.{demo_rows, full_devices}

abbrev still : Controls steady
still = record {
  requests = no_requests;
  want_paused = false;
  seek_target = record { lap = 1; time_ns = pos 0 };
  speed = 1;
  offset_ns = pos 0;
  loop_limit = 2;
  stop_at_ns = pos 0;
}

abbrev at_start : Run demo_rows steady
at_start = record {
  playback = halfway;
  controls = still;
  phase = turning;
  holding_pause = false;
  pause_position = record { lap = 1; time_ns = pos 0 };
  timed_out = false;
  skipped_before = [];
}

abbrev moment : List (Command steady) → Moment demo_rows steady
moment commands = record { commands = commands; now = pos 7; pump = λ taken. taken; reached = true }

abbrev lap_moments : List (Moment demo_rows steady)
lap_moments = moment [] ∷ moment [] ∷ moment [] ∷ moment [] ∷ moment [] ∷ moment [] ∷ []

-- A pause in the first turn, and a stop in the third.
abbrev asked : List (Moment demo_rows steady)
asked = moment [] ∷ moment (Command.pause ∷ []) ∷ []

run-stop_example :
    ((run demo_rows steady (asked ++ moment (Command.stop ∷ []) ∷ lap_moments) at_start).phase
      ≡ ended)
    × ((run demo_rows steady
          (asked ++ moment (Command.stop ∷ []) ∷ lap_moments)
          at_start).playback.player.observed
        ≡ (turn demo_rows steady
            (moment (Command.stop ∷ []))
            (run demo_rows steady asked at_start)).playback.player.observed)
run-stop_example =
    run-stop demo_rows steady asked lap_moments (moment (Command.stop ∷ [])) [] [] at_start refl

abbrev first : PlaybackPosition
first = record { lap = 1; time_ns = pos 0 }

run-IsPlaying_example :
    IsPlaying demo_rows cleared
      (run demo_rows steady asked
        (begin_run demo_rows steady first (pos 0) at_start)).playback.player
run-IsPlaying_example =
    run-IsPlaying demo_rows steady first (pos 0) at_start asked full_devices refl

abbrev begun : Run demo_rows steady
begun = begin_run demo_rows steady first (pos 0) at_start

abbrev stopping : List (Moment demo_rows steady)
stopping = asked ++ moment (Command.stop ∷ []) ∷ []

-- A pause that is held at the start of a lap.
abbrev in_pause : Run demo_rows steady
in_pause = record at_start {
  controls = record still { want_paused = true };
  phase = holding;
  holding_pause = true;
}

begin_lap-deadline_example :
    deadline_for demo_rows steady 0
      (with_playback demo_rows steady (begin_lap demo_rows steady 2) at_start)
    ≡ deadline_for demo_rows steady at_start.playback.walk.length_ns at_start
begin_lap-deadline_example = begin_lap-deadline demo_rows steady at_start 2 refl

abbrev quietly : ℕ → Moment demo_rows steady
quietly i = moment []
