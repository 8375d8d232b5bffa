-- ===== src/Player/Laps.antt =====
-- clamp, publish, jump and finish_lap of Player in src/player.cpp. The doubles that stand for a speed are the
-- parameter Clock; the time of the clock, the offset and the speed that a function loads are arguments.
pub mod Finished
pub mod Jumped
use aoahid_player.Base.Int.{ℤ, pos, ◌+ℤ◌, ◌-ℤ◌, ltb_ℤ}
use aoahid_player.Base.Words.{add64, sub64}
use aoahid_player.Base.{
  ℕ, ◌+◌, ◌-◌, ◌^◌, Bool, true, false, not, ◌&&◌, List, [], ◌∷◌, ◌++◌, ltb, ◌==◌, max,
  when◌then◌else◌, if◌then◌else◌,
}
use aoahid_player.InputState.{InputState, cleared, state_at}
use aoahid_player.Player.{RowGroup, Player, flush_now, settle}
use aoahid_player.Scale.{clamp_ℤ, to_ℕ}
use aoahid_player.Timeline.{EventScript, LapWalk, lap_length, next_lap, start, seek}

-- What src/player.cpp does with doubles: the function `scaled`, which divides a span by a speed, the span that
-- an elapsed time plays, and the speed that set_speed brings into its bounds.
pub record Clock : Type 1 where
  pub Speed : Type 0
  pub scaled : ℤ → Speed → ℤ
  pub spanned : ℤ → Speed → ℤ
  pub bounded : Speed → Speed

pub record PlaybackPosition : Type 0 where
  pub lap : ℕ
  pub time_ns : ℤ

pub data PlaybackState : Type 0 where
  stopped : PlaybackState
  playing : PlaybackState
  paused : PlaybackState

-- The members of Player that publish stores and status reads.
pub record Published (clock : Clock) : Type 0 where
  pub state : PlaybackState
  pub lap : ℕ
  pub anchor_real : ℤ
  pub anchor_script : ℤ
  pub offset_anchor : ℤ
  pub duration : ℕ
  pub speed : clock.Speed
  pub loops : ℕ

-- The members of Player that the laps read and change, next to those of the batch.
pub record Playback (rows : RowGroup) (clock : Clock) : Type 0 where
  pub player : Player rows
  pub script : EventScript
  pub walk : LapWalk
  pub cursor : ℤ
  pub loops : ℕ
  pub anchor_real : ℤ
  pub anchor_script : ℤ
  pub offset_anchor : ℤ
  pub anchor_speed : clock.Speed
  pub loop_limit : ℕ
  pub completed : List (ℕ × ℕ)
  pub published : Published clock

-- INT64_MAX as a lap.
abbrev pub last_lap : ℕ
last_lap = 2 ^ 63 - 1

module _ (rows : RowGroup) (clock : Clock) where
  unfoldable pub clamp : EventScript → PlaybackPosition → PlaybackPosition
  unfolding clamp_ℤ lap_length
  clamp script position =
      let lap =
        if ltb position.lap 1
        then 1
        else if ltb last_lap position.lap
        then last_lap
        else position.lap in
      record { lap = lap; time_ns = clamp_ℤ position.time_ns (pos 0) (pos (lap_length script lap)) }

  unfoldable pub publish :
      PlaybackState → PlaybackPosition → Playback rows clock → Playback rows clock
  unfolding lap_length
  publish state position p = record p {
    published = record {
      state = state;
      lap = position.lap;
      anchor_real = p.anchor_real;
      anchor_script = position.time_ns;
      offset_anchor = p.offset_anchor;
      duration = lap_length p.script position.lap;
      speed = p.anchor_speed;
      loops = p.loops;
    };
  }

  -- A seek to a position: `now`, `offset` and `speed` are what the function loads at its end.
  unfoldable pub jump :
      PlaybackPosition → ℤ → ℤ → clock.Speed → Playback rows clock → Playback rows clock
  unfolding clamp flush_now settle seek state_at publish
  jump requested now offset speed p =
      let target = clamp p.script requested in
      let walk = seek p.script target.lap (to_ℕ target.time_ns) p.walk in
      let state = state_at p.script target.lap walk.row cleared in
      publish playing target (record p {
        player = settle rows state (flush_now rows p.player);
        walk = walk;
        loops = sub64 target.lap 1;
        cursor = target.time_ns;
        anchor_real = now;
        anchor_script = target.time_ns;
        offset_anchor = offset;
        anchor_speed = speed;
      })

  -- The end of finish_lap, where the next lap is played.
  unfoldable pub begin_lap : ℕ → Playback rows clock → Playback rows clock
  unfolding start publish
  begin_lap next p =
      publish playing (record { lap = next; time_ns = pos 0 })
        (record p {
          anchor_real =
              p.anchor_real
              +ℤ clock.scaled (pos p.walk.length_ns -ℤ p.anchor_script) p.anchor_speed;
          anchor_script = pos 0;
          loops = sub64 next 1;
          walk = start p.script next p.walk;
          cursor = pos 0;
        })

  unfoldable pub finish_lap : Playback rows clock → Bool × Playback rows clock
  unfolding flush_now next_lap begin_lap
  finish_lap p =
      let ended = p.walk.lap in
      let flushed = flush_now rows p.player in
      let counted : Playback rows clock = record p { player = flushed; loops = ended } in
      let told = record counted {
        completed =
            if flushed.has_sink then p.completed ++ (ended, flushed.reports) ∷ [] else p.completed;
      } in
      let next = next_lap p.script (add64 ended 1) false in
      when next_lap p.script (add64 ended 1) true == 0
      then (false, counted)
      else when ltb 0 p.loop_limit && ltb p.loop_limit next
      then (false, record told { loops = max ended p.loop_limit })
      else (true, begin_lap next told)
