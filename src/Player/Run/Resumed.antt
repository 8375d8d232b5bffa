-- ===== src/Player/Run/Resumed.antt =====
-- What a call of resume does to a player of src/player.cpp that holds a pause, and that laps do not drift.
use aoahid_player.Base.Int.{ℤ, pos, ◌+ℤ◌, ◌-ℤ◌}
use aoahid_player.Base.{ℕ, ◌-◌, ◌≡◌, refl, ap, ◌∙◌, ◌++◌, arith}
use aoahid_player.Event.Control.{Control}
use aoahid_player.InputState.Held.{held}
use aoahid_player.InputState.Rebuild.Played.{played, payloads_of, stops_before}
use aoahid_player.InputState.{cleared, apply_all}
use aoahid_player.Player.Controls.{Controls}
use aoahid_player.Player.Laps.{Clock, PlaybackPosition, clamp, begin_lap, publish}
use aoahid_player.Player.Run.{Run, turning, deadline_for, with_playback}
use aoahid_player.Player.{RowGroup}
use aoahid_player.Timeline.Plan.{plan}
use aoahid_player.Timeline.{EventScript}

module _ (rows : RowGroup) (clock : Clock) where
  -- A run plays on from a position, with what uninterrupted playback holds there.
  record PlaysFrom (script : EventScript) (at : PlaybackPosition) (c : Control) (s : Run rows clock)
      : Type 0 where
    plays_on : s.phase ≡ turning
    holds_there :
        held s.playback.player.live c
        ≡ held
            (apply_all cleared (
              played script ((clamp rows clock script at).lap - 1)
              ++ payloads_of script.rows (
                  stops_before s.playback.walk.row (plan script (clamp rows clock script at).lap))))
            c

module _ (rows : RowGroup) (clock : Clock) where
  +ℤ_zero : (z : ℤ) → z +ℤ pos 0 ≡ z
  unfolding ◌+ℤ◌
  +ℤ_zero z = ground arith

  zero_span : pos 0 -ℤ pos 0 ≡ pos 0
  unfolding ◌-ℤ◌
  zero_span = refl

  -- The next lap begins, in real time, exactly where the ended one ends, whatever the sends took: the deadline of
  -- the start of the next lap is that of the end of the ended one. A span of 0 lasts 0 at every speed.
  pub begin_lap-deadline :
      (r : Run rows clock) (next : ℕ)
      → clock.scaled (pos 0) r.playback.anchor_speed ≡ pos 0
      → deadline_for rows clock 0 (with_playback rows clock (begin_lap rows clock next) r)
        ≡ deadline_for rows clock r.playback.walk.length_ns r
  unfolding begin_lap publish
  begin_lap-deadline r next e =
      let p = r.playback in
      let shift = r.controls.offset_ns -ℤ p.offset_anchor in
      let ended =
        p.anchor_real +ℤ clock.scaled (pos p.walk.length_ns -ℤ p.anchor_script) p.anchor_speed in
      ap (λ (z : ℤ). ended +ℤ clock.scaled z p.anchor_speed +ℤ shift) zero_span
      ∙ ap (λ (z : ℤ). ended +ℤ z +ℤ shift) e
      ∙ ap (λ (z : ℤ). z +ℤ shift) (+ℤ_zero ended)
