-- ===== src/Player/Run/Plays/Lap.antt =====
-- The turns of an undisturbed run of src/player.cpp, one stop of the plan of a lap after the other.
use mathlib.Core.List.{append_assoc, append-nil}
use aoahid_player.Base.Int.{pos}
use aoahid_player.Base.{
  ℕ, suc, ◌≡◌, refl, ap, sym, subst, ◌∙◌, inl, inr, true, false, List, [], ◌∷◌, ◌++◌, ltb, arith,
  no_clash, if◌then◌else◌, length, Bool-cases,
}
use aoahid_player.Event.{EventPayload}
use aoahid_player.InputState.Rebuild.Played.{payloads_of}
use aoahid_player.Player.Laps.{Clock}
use aoahid_player.Player.Run.Plays.{Undisturbed, turns, IsOnLap, first_due, no_stops, play-IsOnLap}
use aoahid_player.Player.Run.Plays.Turns.{
  same_test, met-IsOnLap, wait_turn_lem, turn_lem, main_turn_lem,
}
use aoahid_player.Player.Run.{Run, Moment, turning, waiting, turn_at, turn, run, met}
use aoahid_player.Player.Settled.{Keeps, TakesRows, AllFit, flush_now_ready}
use aoahid_player.Player.{RowGroup, flush_now}
use aoahid_player.Timeline.Plan.{Stop}
use aoahid_player.Timeline.Walk.{InStep, remaining, InStep-next, remaining_done}
use aoahid_player.Timeline.{EventScript, LapWalk, row_at}

-- The time of the batch behind some stops.
abbrev pub time_behind : ℕ → List Stop → ℕ
time_behind cursor [] = cursor
time_behind cursor (s ∷ ss) = time_behind (if ltb cursor s.due then s.due else cursor) ss

some_turn : (c : ℕ) (s : Stop) (left : List Stop) → 0 ≡ turns c (s ∷ left) → ⊥
some_turn c s left e = ground arith

one_turn :
    (c : ℕ) (s : Stop) (left : List Stop) (n : ℕ)
    → ltb c s.due ≡ false
    → suc n ≡ turns c (s ∷ left)
    → n ≡ turns c left
one_turn c s left n t e = ground arith

two_turns :
    (c : ℕ) (s : Stop) (left : List Stop) (n : ℕ)
    → ltb c s.due ≡ true
    → suc n ≡ turns c (s ∷ left)
    → n ≡ suc (turns s.due left)
two_turns c s left n t e = ground arith

no_zero : {n : ℕ} → 0 ≡ suc n → ⊥
no_zero e = absurd (omega arith)

fewer : {n m : ℕ} → suc n ≡ suc m → n ≡ m
fewer e = omega arith

module _ (rows : RowGroup) (clock : Clock) (Ready : rows.State → Type 0)
    (Fitting : EventPayload → Type 0) (keep : Keeps rows Ready) (k : TakesRows rows Ready Fitting)
    (script : EventScript) (lap : ℕ) where
  -- A walk with a stop left stands on it.
  due_here :
      (s : Stop) (left : List Stop) (w : LapWalk)
      → InStep script w
      → remaining script w ≡ s ∷ left
      → w.due ≡ s.due
  due_here s left w i e = elim (Bool-cases w.done) [
    | inl t ↦ absurd (no_stops (sym (remaining_done script w t) ∙ e))
    | inr f ↦ ap first_due (sym (InStep-next script w i f).1 ∙ e)
  ]

  -- A turn at which the row is due executes it.
  turn-due :
      (cursor : ℕ) (s : Stop) (left : List Stop) (told : List EventPayload) (m : Moment rows clock)
      (r : Run rows clock)
      → m.commands ≡ []
      → ((g : rows.State) → Ready g → Ready (m.pump g))
      → ltb cursor s.due ≡ false
      → Fitting (row_at script.rows s.row).payload
      → IsOnLap rows clock Ready script lap turning cursor (s ∷ left) told r
      → IsOnLap rows clock Ready script lap turning cursor left
          (told ++ (row_at script.rows s.row).payload ∷ [])
          (turn rows clock m r)
  unfolding turn_at
  turn-due cursor s left told m r e pump now fits v =
      let w = met-IsOnLap rows clock Ready script lap turning cursor (s ∷ left) told m r e pump v in
      let test =
        same_test cursor s.due _ _ w.at_cursor (due_here s left _ w.steady.in_step w.steady.stops)
        ∙ now in
      let Q =
        IsOnLap rows clock Ready script lap turning cursor left
          (told ++ (row_at script.rows s.row).payload ∷ []) in
      turn_lem rows clock Q turning m r v.at_phase (
        main_turn_lem rows clock Ready Fitting k Q m (met rows clock m r) w.able w.steady.quiet
          w.steady.unlimited (λ a. absurd (no_clash (sym a ∙ test)))
          (λ a.
            play-IsOnLap rows clock Ready Fitting keep k script lap turning cursor s left told _
              fits w))

  -- A turn at which the walk is not due waits for it.
  pub turn-early :
      (cursor n : ℕ) (left : List Stop) (told : List EventPayload) (m : Moment rows clock)
      (r : Run rows clock)
      → m.commands ≡ []
      → ((g : rows.State) → Ready g → Ready (m.pump g))
      → ltb cursor n ≡ true
      → r.playback.walk.due ≡ n
      → IsOnLap rows clock Ready script lap turning cursor left told r
      → IsOnLap rows clock Ready script lap (waiting n) cursor left told (turn rows clock m r)
  unfolding turn_at flush_now
  turn-early cursor n left told m r e pump later here v =
      let w = met-IsOnLap rows clock Ready script lap turning cursor left told m r e pump v in
      let test = same_test cursor n _ _ w.at_cursor here ∙ later in
      let Q = IsOnLap rows clock Ready script lap (waiting n) cursor left told in
      turn_lem rows clock Q turning m r v.at_phase (
        main_turn_lem rows clock Ready Fitting k Q m (met rows clock m r) w.able w.steady.quiet
          w.steady.unlimited
          (λ a. record {
            at_phase = ap waiting here;
            steady = w.steady;
            at_cursor = w.at_cursor;
            observed = w.observed;
            able = flush_now_ready rows Ready keep (met rows clock m r).playback.player w.able;
          })
          (λ a. absurd (no_clash (sym test ∙ a))))

  turn-waited :
      (cursor : ℕ) (s : Stop) (left : List Stop) (told : List EventPayload) (m : Moment rows clock)
      (r : Run rows clock)
      → m.commands ≡ []
      → ((g : rows.State) → Ready g → Ready (m.pump g))
      → m.reached ≡ true
      → Fitting (row_at script.rows s.row).payload
      → IsOnLap rows clock Ready script lap (waiting s.due) cursor (s ∷ left) told r
      → IsOnLap rows clock Ready script lap turning s.due left
          (told ++ (row_at script.rows s.row).payload ∷ [])
          (turn rows clock m r)
  unfolding turn_at
  turn-waited cursor s left told m r e pump reached fits v =
      let w =
        met-IsOnLap rows clock Ready script lap (waiting s.due) cursor (s ∷ left) told m r e pump
          v in
      let q = met rows clock m r in
      let Q =
        IsOnLap rows clock Ready script lap turning s.due left
          (told ++ (row_at script.rows s.row).payload ∷ []) in
      turn_lem rows clock Q (waiting s.due) m r v.at_phase (
        wait_turn_lem rows clock Q s.due m q w.steady.quiet w.steady.unlimited reached (
          play-IsOnLap rows clock Ready Fitting keep k script lap (waiting s.due) s.due s left told
            (record q { playback = record (q.playback) { cursor = pos s.due } }) fits
            (record {
              at_phase = w.at_phase;
              steady = w.steady;
              at_cursor = refl;
              observed = w.observed;
              able = w.able;
            })))

  due_joined :
      (s : Stop) (left : List Stop) (cursor : ℕ) (told : List EventPayload)
      → ltb cursor s.due ≡ false
      → (r : Run rows clock)
      → IsOnLap rows clock Ready script lap turning
          (time_behind cursor left)
          []
          ((told ++ (row_at script.rows s.row).payload ∷ []) ++ payloads_of script.rows left)
          r
      → IsOnLap rows clock Ready script lap turning
          (time_behind cursor (s ∷ left))
          []
          (told ++ payloads_of script.rows (s ∷ left))
          r
  due_joined s left cursor told t r v = rw t (
      subst (λ xs. IsOnLap rows clock Ready script lap turning (time_behind cursor left) [] xs r)
        (append_assoc told ((row_at script.rows s.row).payload ∷ []) (payloads_of script.rows left))
        v)

  later_joined :
      (s : Stop) (left : List Stop) (cursor : ℕ) (told : List EventPayload)
      → ltb cursor s.due ≡ true
      → (r : Run rows clock)
      → IsOnLap rows clock Ready script lap turning
          (time_behind s.due left)
          []
          ((told ++ (row_at script.rows s.row).payload ∷ []) ++ payloads_of script.rows left)
          r
      → IsOnLap rows clock Ready script lap turning
          (time_behind cursor (s ∷ left))
          []
          (told ++ payloads_of script.rows (s ∷ left))
          r
  later_joined s left cursor told t r v = rw t (
      subst (λ xs. IsOnLap rows clock Ready script lap turning (time_behind s.due left) [] xs r)
        (append_assoc told ((row_at script.rows s.row).payload ∷ []) (payloads_of script.rows left))
        v)

  -- The turns of some stops.
  pub run_stops :
      (left : List Stop) (cursor : ℕ) (told : List EventPayload) (ms : List (Moment rows clock))
      (r : Run rows clock)
      → AllFit Fitting (payloads_of script.rows left)
      → IsOnLap rows clock Ready script lap turning cursor left told r
      → Undisturbed Ready ms
      → length ms ≡ turns cursor left
      → IsOnLap rows clock Ready script lap turning
          (time_behind cursor left)
          []
          (told ++ payloads_of script.rows left)
          (run rows clock ms r)
  unfolding run
  run_stops [] cursor told [] r fits v u e =
      subst (λ xs. IsOnLap rows clock Ready script lap turning cursor [] xs r)
        (sym (append-nil told)) v
  run_stops [] cursor told (m ∷ ms) r fits v u e = absurd (omega arith)
  run_stops (s ∷ left) cursor told [] r fits v u e = absurd (some_turn cursor s left e)
  run_stops (s ∷ left) cursor told (m ∷ []) r fits v u e = elim (Bool-cases (ltb cursor s.due)) [
    | inl later ↦ absurd (no_zero (two_turns cursor s left 0 later e))
    | inr due ↦ due_joined s left cursor told due _ (
        run_stops left cursor _ [] _ fits.1
          (turn-due cursor s left told m r u.0.0 u.0.2 due fits.0 v) _
          (one_turn cursor s left 0 due e))
  ]
  run_stops (s ∷ left) cursor told (m ∷ m' ∷ ms) r fits v u e =
      elim (Bool-cases (ltb cursor s.due)) [
        | inl later ↦ later_joined s left cursor told later _ (
            run_stops left s.due _ ms _ fits.1
              (turn-waited cursor s left told m' _ u.1.0.0 u.1.0.2 u.1.0.1 fits.0 (
                turn-early cursor s.due (s ∷ left) told m r u.0.0 u.0.2 later
                  (due_here s left _ v.steady.in_step v.steady.stops) v))
              u.1.1 (fewer (two_turns cursor s left _ later e)))
        | inr due ↦ due_joined s left cursor told due _ (
            run_stops left cursor _ (m' ∷ ms) _ fits.1
              (turn-due cursor s left told m r u.0.0 u.0.2 due fits.0 v) u.1
              (one_turn cursor s left _ due e))
      ]
