-- ===== src/Tests/Playing.antt =====
-- A player over a group with a device that takes every row, for the model of src/player.cpp.
use aoahid_player.Base.Int.{pos}
use aoahid_player.Base.{ℕ, Bool, true, false, [], ◌∷◌}
use aoahid_player.Event.{EventPayload, touch_event}
use aoahid_player.InputState.{InputState, cleared, apply_all}
use aoahid_player.Player.Laps.{Clock, stopped, Playback, PlaybackPosition}
use aoahid_player.Tests.Ready.{demo_rows, full}
use aoahid_player.Tests.{taps}
use aoahid_player.Timeline.{start, idle_walk}
use aoahid_player.Player.{Player}
use aoahid_player.Setup.{no_profiles}

abbrev pub quiet : Player demo_rows
quiet = record {
  group = full;
  space = record { width = pos 0; height = pos 0 };
  live = cleared;
  staged_keys = [];
  reports = 0;
  observed = [];
  has_sink = true;
  messages = [];
  warned_profiles = no_profiles;
  rejection_reported = false;
}

abbrev finger : Bool → EventPayload
finger down = touch_event (record { finger_id = pos 2; state = down; x = pos 7; y = pos 9 })

abbrev target : InputState
target = apply_all cleared (finger true ∷ [])

-- A clock at which every speed is the normal one.
abbrev pub steady : Clock
steady = record {
  Speed = ℕ;
  scaled = λ span speed. span;
  spanned = λ span speed. span;
  bounded = λ speed. speed;
}

abbrev pub halfway : Playback demo_rows steady
halfway = record {
  player = quiet;
  script = taps;
  walk = start taps 1 idle_walk;
  cursor = pos 0;
  loops = 0;
  anchor_real = pos 1000;
  anchor_script = pos 0;
  offset_anchor = pos 0;
  anchor_speed = 1;
  loop_limit = 0;
  completed = [];
  published = record {
    state = stopped;
    lap = 1;
    anchor_real = pos 0;
    anchor_script = pos 0;
    offset_anchor = pos 0;
    duration = 0;
    speed = 1;
    loops = 0;
  };
}

abbrev third : PlaybackPosition
third = record { lap = 3; time_ns = pos 5 }
