-- ===== src/Player/Run.antt =====
-- service, hold_paused, wait_to and run of Player in src/player.cpp, as turns of their loops. The playback
-- thread stands at the head of the loop of run, of wait_to or of hold_paused, which is the phase; a turn
-- of a loop goes to the next head or to the end of run. Between two turns other threads call controls: a Moment
-- has their calls, what the clock shows in the turn, what the live pump does to the group, and whether a wait at the
-- end of the turn reaches its deadline or is woken before.
pub mod Start
pub mod Stops
pub mod Able
pub mod Kept
pub mod Released
pub mod Plays
pub mod Resumed
use aoahid_player.Base.Int.{ℤ, pos, ◌+ℤ◌, ◌-ℤ◌, leb_ℤ, ltb_ℤ, eqb_ℤ}
use aoahid_player.Base.Words.{sub64}
use aoahid_player.Base.{
  ℕ, Bool, true, false, not, ◌&&◌, ◌||◌, List, [], ◌∷◌, ◌++◌, ◌==◌, when◌then◌else◌,
}
use aoahid_player.DeviceGroup.{DeviceStatus}
use aoahid_player.InputState.{cleared}
use aoahid_player.Player.Controls.{
  Requests, no_requests, any_request, Controls, Command, obey, discard_requests,
}
use aoahid_player.Player.Laps.{
  Clock, Playback, PlaybackPosition, PlaybackState, stopped, playing, paused, clamp, publish, jump,
  finish_lap,
}
use aoahid_player.Player.{RowGroup, Player, flush_now, settle, execute}
use aoahid_player.Text.{Bytes, codes, decimal}
use aoahid_player.Timeline.{row_at, next}

pub data Phase : Type 0 where
  turning : Phase
  waiting : ℕ → Phase
  holding : Phase
  ended : Phase

-- What service gives back; `holds` is a pause that goes on.
pub data Outcome : Type 0 where
  proceed : Outcome
  jumped : Outcome
  stop : Outcome
  holds : Outcome

pub record Moment (rows : RowGroup) (clock : Clock) : Type 0 where
  pub commands : List (Command clock)
  pub now : ℤ
  pub pump : rows.State → rows.State
  pub reached : Bool

-- The members of Player, those of the laps in `playback`.
pub record Run (rows : RowGroup) (clock : Clock) : Type 0 where
  pub playback : Playback rows clock
  pub controls : Controls clock
  pub phase : Phase
  pub holding_pause : Bool
  pub pause_position : PlaybackPosition
  pub timed_out : Bool
  pub skipped_before : List ℕ

-- The loop at the end of run, over the devices and what each had skipped before.
abbrev pub skip_messages : List DeviceStatus → List ℕ → List Bytes
skip_messages [] before = []
skip_messages (d ∷ after) [] = []
skip_messages (d ∷ after) (b ∷ before) =
    let skipped = sub64 d.skipped b in
    let text =
      d.label
      ++ codes " skipped "
      ++ decimal skipped
      ++ (when skipped == 1 then codes " row that does" else codes " rows that do")
      ++ codes " not fit its settings." in
    when skipped == 0 then skip_messages after before else text ∷ skip_messages after before

module _ (rows : RowGroup) (clock : Clock) where
  abbrev pub deadline_for : ℕ → Run rows clock → ℤ
  deadline_for script_time r =
      let p = r.playback in
      let shift = r.controls.offset_ns -ℤ p.offset_anchor in
      p.anchor_real +ℤ clock.scaled (pos script_time -ℤ p.anchor_script) p.anchor_speed +ℤ shift

  abbrev pub script_time_at : ℤ → Run rows clock → ℤ
  script_time_at now r =
      let p = r.playback in
      let shift = r.controls.offset_ns -ℤ p.offset_anchor in
      p.anchor_script +ℤ clock.spanned (now -ℤ p.anchor_real -ℤ shift) p.anchor_speed

  -- What the calls on the other members do to the player and to the playback.
  abbrev pub with_player : (Player rows → Player rows) → Run rows clock → Run rows clock
  with_player f r = record r { playback = record (r.playback) { player = f r.playback.player } }

  abbrev pub with_playback :
      (Playback rows clock → Playback rows clock) → Run rows clock → Run rows clock
  with_playback f r = record r { playback = f r.playback }

  unfoldable pub retime : ℤ → Run rows clock → Run rows clock
  retime now r =
      let time = script_time_at now r in
      with_playback
        (λ p.
          publish rows clock playing (record { lap = p.walk.lap; time_ns = time })
            (record p {
              anchor_script = time;
              anchor_real = now;
              offset_anchor = r.controls.offset_ns;
              anchor_speed = r.controls.speed;
            }))
        r

  -- jump, with what it loads.
  unfoldable pub jump_to : PlaybackPosition → ℤ → Run rows clock → Run rows clock
  jump_to target now r =
      with_playback (jump rows clock target now r.controls.offset_ns r.controls.speed) r

  -- The start of hold_paused, to the head of its loop.
  unfoldable pub hold : PlaybackPosition → Run rows clock → Run rows clock
  hold position r = with_playback (publish rows clock paused position) (
      with_player (λ p. settle rows cleared (flush_now rows p))
        (record r { phase = holding; holding_pause = true; pause_position = position }))

  -- service behind its test for a stop, with the requests that it took.
  unfoldable pub serve : Requests → ℤ → Run rows clock → Outcome × Run rows clock
  serve pending now r =
      let timed = when pending.retime then retime now r else r in
      let sought = when pending.seek then jump_to timed.controls.seek_target now timed else timed in
      let p = sought.playback in
      let here : PlaybackPosition = record { lap = p.walk.lap; time_ns = p.cursor } in
      let at : PlaybackPosition = record {
        lap = p.walk.lap;
        time_ns = script_time_at now sought;
      } in
      when pending.pause && sought.controls.want_paused
      then (holds, hold (when pending.seek then here else clamp rows clock p.script at) sought)
      else (when pending.seek then jumped else proceed, sought)

  -- requests_.exchange(0U).
  abbrev pub without_requests : Run rows clock → Run rows clock
  without_requests r = record r { controls = discard_requests clock r.controls }

  unfoldable pub service : ℤ → Run rows clock → Outcome × Run rows clock
  service now r =
      let pending = r.controls.requests in
      when pending.stop then (stop, without_requests r) else serve pending now (without_requests r)

  -- The end of run, behind its loop.
  unfoldable pub end_run : Run rows clock → Run rows clock
  end_run r =
      let released = settle rows cleared (flush_now rows r.playback.player) in
      let told = record released {
        messages =
            when released.has_sink
            then released.messages
              ++ skip_messages (rows.snapshot_of released.group) r.skipped_before
            else released.messages;
      } in
      without_requests (record r {
        playback =
            publish rows clock stopped (record { lap = r.playback.walk.lap; time_ns = pos 0 })
              (record (r.playback) { player = told });
        phase = ended;
        holding_pause = false;
      })

  abbrev pub end_timed : Run rows clock → Run rows clock
  end_timed r = end_run (record r { timed_out = true })

  -- The end of a turn of run: the end of the lap, or the row that the walk stands on.
  unfoldable pub play : Run rows clock → Run rows clock
  play r =
      let p = r.playback in
      let lap = finish_lap rows clock (record p { loop_limit = r.controls.loop_limit }) in
      let over = record r { playback = lap.1 } in
      let row = row_at p.script.rows p.walk.row in
      when p.walk.done
      then (when lap.0 then record over { phase = turning } else end_run over)
      else record r {
        playback = record p { player = execute rows row p.player; walk = next p.script p.walk };
        phase = turning;
      }

  abbrev pub dropped_message : Bytes
  dropped_message = codes "Every device was dropped; playback stopped."

  -- A turn of run behind the requests.
  unfoldable pub take_turn : ℤ → Run rows clock → Run rows clock
  take_turn now r =
      let p = r.playback in
      let dropped : Player rows → Player rows = λ q.
        when q.has_sink then record q { messages = q.messages ++ dropped_message ∷ [] } else q in
      when rows.active_of p.player.group == 0
      then end_run (with_player dropped r)
      else when not (eqb_ℤ r.controls.stop_at_ns (pos 0)) && leb_ℤ r.controls.stop_at_ns now
      then end_timed r
      else when ltb_ℤ p.cursor (pos p.walk.due)
      then with_player (flush_now rows) (record r { phase = waiting p.walk.due })
      else play r

  -- Where the thread goes on behind service; `here` is where it does if nothing interrupts it.
  unfoldable pub follow :
      (Run rows clock → Run rows clock) → Outcome × Run rows clock → Run rows clock
  follow here (proceed, r) = here r
  follow here (jumped, r) = record r { phase = turning }
  follow here (stop, r) = end_run r
  follow here (holds, r) = r

  -- A turn of the loop of run.
  unfoldable pub main_turn : Moment rows clock → Run rows clock → Run rows clock
  main_turn m r =
      when any_request r.controls.requests
      then follow (take_turn m.now) (service m.now r)
      else take_turn m.now r

  -- A turn of the loop of wait_to, with the turn of run that goes on where the wait is over.
  unfoldable pub wait_turn : ℕ → Moment rows clock → Run rows clock → Run rows clock
  wait_turn script_time m r =
      let deadline = deadline_for script_time r in
      let stop_at = r.controls.stop_at_ns in
      let due = with_playback (λ p. record p { cursor = pos script_time }) r in
      when any_request r.controls.requests
      then follow (λ q. q) (service m.now r)
      else when not (eqb_ℤ stop_at (pos 0)) && leb_ℤ stop_at deadline
      then (when m.reached then end_timed r else r)
      else when m.reached
      then play due
      else r

  -- A turn of the loop of hold_paused, with the requests that it took; a stop is not among them.
  unfoldable pub hold_on : Requests → Moment rows clock → Run rows clock → Run rows clock
  hold_on pending m r =
      let target = clamp rows clock r.playback.script r.controls.seek_target in
      let sought =
        with_playback
          (λ p. publish rows clock paused target (record p { loops = sub64 target.lap 1 }))
          (record r { pause_position = target }) in
      let moved = when pending.seek then sought else r in
      let resumed = record moved { holding_pause = false; phase = turning } in
      let limited = not (eqb_ℤ r.controls.stop_at_ns (pos 0)) && m.reached in
      when pending.pause && not moved.controls.want_paused
      then jump_to moved.pause_position m.now resumed
      else when not (any_request pending) && limited
      then end_timed (record moved { holding_pause = false })
      else moved

  unfoldable pub hold_turn : Moment rows clock → Run rows clock → Run rows clock
  hold_turn m r =
      let pending = r.controls.requests in
      when pending.stop
      then end_run (record (without_requests r) { holding_pause = false })
      else hold_on pending m (without_requests r)

  unfoldable pub turn_at : Phase → Moment rows clock → Run rows clock → Run rows clock
  turn_at turning m r = main_turn m r
  turn_at (waiting script_time) m r = wait_turn script_time m r
  turn_at holding m r = hold_turn m r
  turn_at ended m r = r

  -- The calls of other threads, then the live pump, then the turn.
  abbrev pub met : Moment rows clock → Run rows clock → Run rows clock
  met m r =
      with_player (λ p. record p { group = m.pump p.group })
        (record r { controls = obey clock m.commands r.controls })

  unfoldable pub turn : Moment rows clock → Run rows clock → Run rows clock
  turn m r = turn_at r.phase m (met m r)

  unfoldable pub run : List (Moment rows clock) → Run rows clock → Run rows clock
  run [] r = r
  run (m ∷ ms) r = run ms (turn m r)
