-- ===== src/Player/Run/Plays/Turns.antt =====
-- The turns of the loops of src/player.cpp where no request waits and no time limit is set.
use aoahid_player.Base.Int.{ℤ, pos, eqb_ℤ, ltb_ℤ}
use aoahid_player.Base.{
  ℕ, ◌≡◌, ap, sym, subst, ◌∙◌, Bool, true, false, not, ◌&&◌, List, [], ltb, arith, when_lem,
  no_clash,
}
use aoahid_player.Event.{EventPayload}
use aoahid_player.Player.Controls.{Controls, any_request, obey}
use aoahid_player.Player.Laps.{Clock}
use aoahid_player.Player.Run.Plays.{IsSteady, IsOnLap}
use aoahid_player.Player.Run.{
  Run, Moment, Phase, waiting, play, take_turn, main_turn, wait_turn, turn_at, turn, met,
  with_player,
}
use aoahid_player.Player.Settled.{TakesRows}
use aoahid_player.Player.{RowGroup, flush_now}
use aoahid_player.Timeline.Plan.{Stop}
use aoahid_player.Timeline.{EventScript}

no_limit_test : (z : ℤ) (b : Bool) → z ≡ pos 0 → (not (eqb_ℤ z (pos 0)) && b) ≡ false
no_limit_test z b e = ap (λ x. not (eqb_ℤ x (pos 0)) && b) e

pub same_test : (c n : ℕ) (z : ℤ) (t : ℕ) → z ≡ pos c → t ≡ n → ltb_ℤ z (pos t) ≡ ltb c n
same_test c n z t e f = ap (λ x. ltb_ℤ x (pos t)) e ∙ ap (λ y. ltb_ℤ (pos c) (pos y)) f ∙ same c n
  where
    same : (a b : ℕ) → ltb_ℤ (pos a) (pos b) ≡ ltb a b
    same a b = ground arith

module _ (rows : RowGroup) (clock : Clock) where
  pub met-IsOnLap :
      (Ready : rows.State → Type 0) (script : EventScript) (lap : ℕ) (phase : Phase) (cursor : ℕ)
      (left : List Stop) (told : List EventPayload) (m : Moment rows clock) (r : Run rows clock)
      → m.commands ≡ []
      → ((g : rows.State) → Ready g → Ready (m.pump g))
      → IsOnLap rows clock Ready script lap phase cursor left told r
      → IsOnLap rows clock Ready script lap phase cursor left told (met rows clock m r)
  unfolding obey
  met-IsOnLap Ready script lap phase cursor left told m r e pump v =
      let same : obey clock m.commands r.controls ≡ r.controls =
        ap (λ xs. obey clock xs r.controls) e in
      record {
        at_phase = v.at_phase;
        steady =
            subst
              (λ (c : Controls clock).
                IsSteady clock script lap left c r.playback.script r.playback.walk)
              (sym same) v.steady;
        at_cursor = v.at_cursor;
        observed = v.observed;
        able = pump _ v.able;
      }

  -- A turn of a wait that reaches its deadline plays what is due.
  pub wait_turn_lem :
      (Q : Run rows clock → Type 0) (t : ℕ) (m : Moment rows clock) (r : Run rows clock)
      → any_request r.controls.requests ≡ false
      → r.controls.stop_at_ns ≡ pos 0
      → m.reached ≡ true
      → Q (play rows clock (record r { playback = record (r.playback) { cursor = pos t } }))
      → Q (wait_turn rows clock t m r)
  unfolding wait_turn
  wait_turn_lem Q t m r n u reached q =
      when_lem Q _ _ _ (λ a. absurd (no_clash (sym a ∙ n)))
        (λ a.
          when_lem Q _ _ _ (λ b. absurd (no_clash (sym b ∙ no_limit_test _ _ u)))
            (λ b. when_lem Q _ _ _ (λ c. q) (λ c. absurd (no_clash (sym reached ∙ c)))))

  -- The turn at a phase.
  pub turn_lem :
      (Q : Run rows clock → Type 0) (phase : Phase) (m : Moment rows clock) (r : Run rows clock)
      → r.phase ≡ phase
      → Q (turn_at rows clock phase m (met rows clock m r))
      → Q (turn rows clock m r)
  unfolding turn
  turn_lem Q phase m r e q = subst (λ x. Q (turn_at rows clock x m (met rows clock m r))) (sym e) q

module _ (rows : RowGroup) (clock : Clock) (Ready : rows.State → Type 0)
    (Fitting : EventPayload → Type 0) (k : TakesRows rows Ready Fitting) where
  -- A turn of run goes on where a device is there and no time limit is set.
  take_turn_lem :
      (Q : Run rows clock → Type 0) (now : ℤ) (r : Run rows clock)
      → Ready r.playback.player.group
      → r.controls.stop_at_ns ≡ pos 0
      → (ltb_ℤ r.playback.cursor (pos r.playback.walk.due) ≡ true
          → Q (
              with_player rows clock
                (flush_now rows)
                (record r { phase = waiting r.playback.walk.due })))
      → (ltb_ℤ r.playback.cursor (pos r.playback.walk.due) ≡ false → Q (play rows clock r))
      → Q (take_turn rows clock now r)
  unfolding take_turn
  take_turn_lem Q now r v u early due =
      when_lem Q _ _ _ (λ a. absurd (no_clash (sym a ∙ k.has_device _ v)))
        (λ a.
          when_lem Q _ _ _ (λ b. absurd (no_clash (sym b ∙ no_limit_test _ _ u)))
            (λ b. when_lem Q _ _ _ early due))

  pub main_turn_lem :
      (Q : Run rows clock → Type 0) (m : Moment rows clock) (r : Run rows clock)
      → Ready r.playback.player.group
      → any_request r.controls.requests ≡ false
      → r.controls.stop_at_ns ≡ pos 0
      → (ltb_ℤ r.playback.cursor (pos r.playback.walk.due) ≡ true
          → Q (
              with_player rows clock
                (flush_now rows)
                (record r { phase = waiting r.playback.walk.due })))
      → (ltb_ℤ r.playback.cursor (pos r.playback.walk.due) ≡ false → Q (play rows clock r))
      → Q (main_turn rows clock m r)
  unfolding main_turn
  main_turn_lem Q m r v n u early due =
      when_lem Q _ _ _ (λ a. absurd (no_clash (sym a ∙ n)))
        (λ a. take_turn_lem Q m.now r v u early due)
