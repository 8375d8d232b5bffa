-- ===== src/Player/Run/Plays/Whole.antt =====
-- An undisturbed run of src/player.cpp plays the laps of its script as planned, one after the other.
use aoahid_player.Base.{ℕ, ◌<◌, ◌-◌, ◌≡◌, List, ◌++◌, length}
use aoahid_player.Event.{EventPayload}
use aoahid_player.InputState.Rebuild.Played.{played}
use aoahid_player.Player.Laps.{Clock}
use aoahid_player.Player.Run.Plays.{Undisturbed}
use aoahid_player.Player.Run.{Run, Moment, ended}
use aoahid_player.Player.{RowGroup}
use aoahid_player.Timeline.{EventScript}
use aoahid_player.Player.Run.Plays.Ends.{IsLapStart}

-- A schedule, cut behind some turns.
record Cut {rows : RowGroup} {clock : Clock} (Ready : rows.State → Type 0) (a b : ℕ)
    (ms : List (Moment rows clock)) : Type 0 where
  front : List (Moment rows clock)
  back : List (Moment rows clock)
  joined : ms ≡ front ++ back
  front_long : length front ≡ a
  back_long : length back ≡ b
  front_quiet : Undisturbed Ready front
  back_quiet : Undisturbed Ready back

-- Behind a lap of uninterrupted playback.
pub data IsPlayed (rows : RowGroup) (clock : Clock) (Ready : rows.State → Type 0)
    (script : EventScript) (lap : ℕ) (r : Run rows clock) : Type 0 where
  played_out :
      (released : List EventPayload)
      → r.phase ≡ ended
      → r.playback.player.observed ≡ played script lap ++ released
      → IsPlayed rows clock Ready script lap r
  played_to :
      (n : ℕ)
      → lap < n
      → IsLapStart rows clock Ready script n (played script (n - 1)) r
      → IsPlayed rows clock Ready script lap r
