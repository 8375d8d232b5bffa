-- ===== src/Player/Run/Released.antt =====
-- Every run of the player of src/player.cpp keeps its state right, and releases what it held when it holds a
-- pause or ends.
use aoahid_player.Base.Int.{ℤ}
use aoahid_player.Base.{
  ℕ, ◌≡◌, refl, ap, inl, inr, false, List, [], ◌∷◌, when_lem, no_clash, subst, sym, ◌∙◌, ◌≢◌,
  Bool-cases,
}
use aoahid_player.DeviceGroup.Rows.{is_empty}
use aoahid_player.Event.Control.{Control}
use aoahid_player.Event.{EventPayload}
use aoahid_player.InputState.{cleared, clear, apply_all}
use aoahid_player.Player.Batches.{IsPlaying}
use aoahid_player.Player.Controls.{Requests}
use aoahid_player.Player.Laps.{Clock, PlaybackPosition, publish}
use aoahid_player.Player.Run.Kept.{
  IsActive, IsKept, IsResting, PumpsKeep, jump_to-IsActive, end_run-IsKept, goes_on, follow-IsKept,
  service-IsServed, play-IsKept, main_turn-IsKept,
}
use aoahid_player.Player.Run.Start.{begin_run, warn}
use aoahid_player.Player.Run.{
  Run, Moment, Phase, turning, waiting, holding, ended, without_requests, wait_turn, hold_on,
  hold_turn, turn_at, turn, run, met,
}
use aoahid_player.Player.Settled.{Keeps, TakesOnly, AllFit}
use aoahid_player.Player.{RowGroup}

module _ (rows : RowGroup) (clock : Clock) (Ready : rows.State → Type 0)
    (Fitting : EventPayload → Type 0) (keep : Keeps rows Ready)
    (only : TakesOnly rows Ready Fitting) where
  wait_turn-IsKept :
      (t : ℕ) (m : Moment rows clock) (r : Run rows clock)
      → IsActive rows clock Ready Fitting r
      → IsKept rows clock Ready Fitting (wait_turn rows clock t m r)
  unfolding wait_turn
  wait_turn-IsKept t m r v =
      let P = IsKept rows clock Ready Fitting in
      let stay = goes_on rows clock Ready Fitting keep only r v in
      when_lem P _ _ _
        (λ e.
          follow-IsKept rows clock Ready Fitting keep only _
            (goes_on rows clock Ready Fitting keep only) _
            (service-IsServed rows clock Ready Fitting keep only m.now r v))
        (λ e.
          when_lem P _ _ _
            (λ l.
              when_lem P _ _ _ (λ d. end_run-IsKept rows clock Ready Fitting keep only _ v.playing)
                (λ d. stay))
            (λ l.
              when_lem P _ _ _
                (λ d.
                  play-IsKept rows clock Ready Fitting keep only _
                    (record { playing = v.playing; awake = v.awake; working = v.working }))
                (λ d. stay)))

  -- A run that holds a pause.
  record IsHolding (r : Run rows clock) : Type 0 where
    keeps : IsKept rows clock Ready Fitting r
    holds_on : r.phase ≡ holding

  hold_on-IsKept :
      (pending : Requests) (m : Moment rows clock) (r : Run rows clock)
      → IsHolding r
      → IsKept rows clock Ready Fitting (hold_on rows clock pending m r)
  unfolding hold_on publish
  hold_on-IsKept pending m r v =
      let P = IsKept rows clock Ready Fitting in
      let k = v.keeps in
      let moved =
        when_lem IsHolding pending.seek _ r
          (λ e. record {
            keeps = record {
              still_playing = k.still_playing;
              released = k.released;
              told = k.told;
            };
            holds_on = v.holds_on;
          })
          (λ e. v) in
      when_lem P _ _ _
        (λ e. goes_on rows clock Ready Fitting keep only _ (
          jump_to-IsActive rows clock Ready Fitting keep only _ m.now _
            (record { playing = moved.keeps.still_playing; awake = refl; working = λ h. h })))
        (λ e.
          when_lem P _ _ _
            (λ l. end_run-IsKept rows clock Ready Fitting keep only _ moved.keeps.still_playing)
            (λ l. moved.keeps))

  hold_turn-IsKept :
      (m : Moment rows clock) (r : Run rows clock)
      → IsHolding r
      → IsKept rows clock Ready Fitting (hold_turn rows clock m r)
  unfolding hold_turn
  hold_turn-IsKept m r v =
      let k = v.keeps in
      when_lem (IsKept rows clock Ready Fitting) r.controls.requests.stop _ _
        (λ e. end_run-IsKept rows clock Ready Fitting keep only _ k.still_playing)
        (λ e. hold_on-IsKept r.controls.requests m (without_requests rows clock r) (record {
          keeps = record { still_playing = k.still_playing; released = k.released; told = k.told };
          holds_on = v.holds_on;
        }))

  -- Between two turns, in a phase that is neither a pause nor the end.
  active :
      (phase : Phase) (r : Run rows clock)
      → r.phase ≡ phase
      → phase ≢ holding
      → (IsResting phase → ⊥)
      → IsKept rows clock Ready Fitting r
      → IsActive rows clock Ready Fitting r
  active phase r p n w k = record {
    playing = k.still_playing;
    awake = elim (Bool-cases r.holding_pause) [ inl e ↦ absurd (n (sym p ∙ k.told e)) | inr e ↦ e ];
    working = λ h. w (subst IsResting p h);
  }

  turn_at-IsKept :
      (phase : Phase) (m : Moment rows clock) (r : Run rows clock)
      → r.phase ≡ phase
      → IsKept rows clock Ready Fitting r
      → IsKept rows clock Ready Fitting (turn_at rows clock phase m r)
  unfolding turn_at
  turn_at-IsKept turning m r p k =
      main_turn-IsKept rows clock Ready Fitting keep only m r
        (active turning r p (λ e. absurd cc) (λ h. h) k)
  turn_at-IsKept (waiting t) m r p k =
      wait_turn-IsKept t m r (active (waiting t) r p (λ e. absurd cc) (λ h. h) k)
  turn_at-IsKept holding m r p k = hold_turn-IsKept m r (record { keeps = k; holds_on = p })
  turn_at-IsKept ended m r p k = k

  pub run-IsKept :
      (ms : List (Moment rows clock)) (r : Run rows clock)
      → PumpsKeep rows clock Ready Fitting ms
      → IsKept rows clock Ready Fitting r
      → IsKept rows clock Ready Fitting (run rows clock ms r)
  unfolding run turn
  run-IsKept [] r u k = k
  run-IsKept (m ∷ ms) r u k = run-IsKept ms (turn rows clock m r) u.1 (
      turn_at-IsKept r.phase m (met rows clock m r) refl (record {
        still_playing = record {
          plays = record {
            tracked = k.still_playing.plays.tracked;
            batch = k.still_playing.plays.batch;
          };
          able = u.0 _ k.still_playing.able;
          rows_fit = k.still_playing.rows_fit;
        };
        released = k.released;
        told = k.told;
      }))

  begin_run-IsKept :
      (at : PlaybackPosition) (now : ℤ) (r : Run rows clock)
      → Ready r.playback.player.group
      → is_empty (rows.snapshot_of r.playback.player.group) ≡ false
      → r.playback.player.observed ≡ []
      → IsKept rows clock Ready Fitting (begin_run rows clock at now r)
  unfolding begin_run warn clear apply_all
  begin_run-IsKept at now r v d o =
      when_lem (IsKept rows clock Ready Fitting) _ _ _ (λ e. absurd (no_clash (sym e ∙ d)))
        (λ e. goes_on rows clock Ready Fitting keep only _ (
          jump_to-IsActive rows clock Ready Fitting keep only at now _ (record {
            playing = record {
              plays = record { tracked = ap (apply_all cleared) (sym o); batch = _ };
              able = v;
              rows_fit = subst (AllFit Fitting) (sym o) _;
            };
            awake = refl;
            working = λ h. h;
          })))

module _ (rows : RowGroup) (clock : Clock) where
  -- Every state is ready.
  abbrev AnyState : rows.State → Type 0
  AnyState g = Unit

  abbrev AnyRow : EventPayload → Type 0
  AnyRow e = Unit

  AnyState-Keeps : Keeps rows AnyState
  AnyState-Keeps = record { stays = λ e space g v. _; flush_stays = λ g v. _ }

  AnyState-TakesOnly : TakesOnly rows AnyState AnyRow
  AnyState-TakesOnly = record { fitting = λ e space g v t. _ }

  any-PumpsKeep : (ms : List (Moment rows clock)) → PumpsKeep rows clock AnyState AnyRow ms
  any-PumpsKeep [] = _
  any-PumpsKeep (m ∷ ms) = ((λ g v. _), any-PumpsKeep ms)

  -- From the start of a run on a group with a device, whatever the other threads call, the clock shows and the
  -- waits do: the state that the player tracks is that of the rows which its observer was told since, applied to a
  -- cleared state in their order, and no key is staged twice. No row was told before.
  pub run-IsPlaying :
      (at : PlaybackPosition) (now : ℤ) (r : Run rows clock) (ms : List (Moment rows clock))
      → is_empty (rows.snapshot_of r.playback.player.group) ≡ false
      → r.playback.player.observed ≡ []
      → IsPlaying rows cleared (run rows clock ms (begin_run rows clock at now r)).playback.player
  run-IsPlaying at now r ms d o =
      (run-IsKept rows clock AnyState AnyRow AnyState-Keeps AnyState-TakesOnly ms _
        (any-PumpsKeep ms)
        (begin_run-IsKept rows clock AnyState AnyRow AnyState-Keeps AnyState-TakesOnly at now r _ d
          o)).still_playing.plays
