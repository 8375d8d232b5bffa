-- ===== src/Player/Run/Stops.antt =====
-- A stop that another thread posts to the player of src/player.cpp ends run.
use aoahid_player.Base.Int.{ℤ}
use aoahid_player.Base.{
  ◌≡◌, refl, ap, sym, ◌∙◌, Bool, true, false, ◌||◌, List, [], ◌∷◌, ◌++◌, arith, when_lem, no_clash,
}
use aoahid_player.Player.Controls.{Controls, Command, control, obey, any_request}
use aoahid_player.Player.Laps.{Clock}
use aoahid_player.Player.Run.{
  Run, Moment, Phase, turning, waiting, holding, ended, end_run, follow, service, main_turn,
  wait_turn, hold_turn, turn_at, turn, run, met, without_requests,
}
use aoahid_player.Player.{RowGroup}

module _ (rows : RowGroup) (clock : Clock) where
  obey-asked :
      (xs : List (Command clock)) (c : Controls clock)
      → c.requests.stop ≡ true
      → (obey clock xs c).requests.stop ≡ true
  unfolding obey
  obey-asked [] c h = h
  obey-asked (x ∷ xs) c h = obey-asked xs (control clock x c) (still x)
    where
      still : (x : Command clock) → (control clock x c).requests.stop ≡ true
      still x = ground arith

  obey-stop :
      (xs ys : List (Command clock)) (c : Controls clock)
      → (obey clock (xs ++ Command.stop ∷ ys) c).requests.stop ≡ true
  unfolding obey control
  obey-stop [] ys c = obey-asked ys _ (either_true c.requests.stop)
    where
      either_true : (b : Bool) → (b || true) ≡ true
      either_true b = ground arith
  obey-stop (x ∷ xs) ys c = obey-stop xs ys (control clock x c)

  record IsOver (r : Run rows clock) : Type 0 where
    over : r.phase ≡ ended

  end_run-IsOver : (r : Run rows clock) → IsOver (end_run rows clock r)
  unfolding end_run
  end_run-IsOver r = record { over = refl }

  asked :
      (r : Run rows clock)
      → r.controls.requests.stop ≡ true
      → any_request r.controls.requests ≡ true
  asked r h = ground arith

  -- Whatever would go on, a stop that service takes ends the run.
  service-IsOver :
      (here : Run rows clock → Run rows clock) (now : ℤ) (r : Run rows clock)
      → r.controls.requests.stop ≡ true
      → IsOver (follow rows clock here (service rows clock now r))
  unfolding service follow
  service-IsOver here now r h =
      when_lem (λ s. IsOver (follow rows clock here s)) r.controls.requests.stop _ _
        (λ e. end_run-IsOver (without_requests rows clock r)) (λ e. absurd (no_clash (sym h ∙ e)))

  turn_at-IsOver :
      (phase : Phase) (m : Moment rows clock) (r : Run rows clock)
      → r.phase ≡ phase
      → r.controls.requests.stop ≡ true
      → IsOver (turn_at rows clock phase m r)
  unfolding turn_at main_turn wait_turn hold_turn
  turn_at-IsOver turning m r p h =
      when_lem IsOver (any_request r.controls.requests) _ _ (λ e. service-IsOver _ m.now r h)
        (λ e. absurd (no_clash (sym (asked r h) ∙ e)))
  turn_at-IsOver (waiting t) m r p h =
      when_lem IsOver (any_request r.controls.requests) _ _ (λ e. service-IsOver _ m.now r h)
        (λ e. absurd (no_clash (sym (asked r h) ∙ e)))
  turn_at-IsOver holding m r p h =
      when_lem IsOver r.controls.requests.stop _ _
        (λ e. end_run-IsOver (record (without_requests rows clock r) { holding_pause = false }))
        (λ e. absurd (no_clash (sym h ∙ e)))
  turn_at-IsOver ended m r p h = record { over = p }

  pub run-append :
      (xs ys : List (Moment rows clock)) (r : Run rows clock)
      → run rows clock (xs ++ ys) r ≡ run rows clock ys (run rows clock xs r)
  unfolding run
  run-append [] ys r = refl
  run-append (x ∷ xs) ys r = run-append xs ys (turn rows clock x r)

  -- Behind its end a run changes neither its phase nor what it sent.
  record IsStill (r s : Run rows clock) : Type 0 where
    still_over : s.phase ≡ ended
    nothing_sent : s.playback.player.observed ≡ r.playback.player.observed

  turn-IsStill :
      (m : Moment rows clock) (phase : Phase) (r : Run rows clock)
      → r.phase ≡ phase
      → phase ≡ ended
      → IsStill r (turn_at rows clock phase m (met rows clock m r))
  unfolding turn_at
  turn-IsStill m turning r p e = absurd cc
  turn-IsStill m (waiting t) r p e = absurd cc
  turn-IsStill m holding r p e = absurd cc
  turn-IsStill m ended r p e = record { still_over = p; nothing_sent = refl }

  run-IsStill :
      (ms : List (Moment rows clock)) (r : Run rows clock)
      → r.phase ≡ ended
      → IsStill r (run rows clock ms r)
  unfolding run turn
  run-IsStill [] r e = record { still_over = e; nothing_sent = refl }
  run-IsStill (m ∷ ms) r e =
      let first = turn-IsStill m r.phase r refl e in
      let rest = run-IsStill ms (turn rows clock m r) first.still_over in
      record { still_over = rest.still_over; nothing_sent = rest.nothing_sent ∙ first.nothing_sent }

  turn-IsOver :
      (m : Moment rows clock) (xs ys : List (Command clock)) (r : Run rows clock)
      → m.commands ≡ xs ++ Command.stop ∷ ys
      → IsOver (turn rows clock m r)
  unfolding turn
  turn-IsOver m xs ys r e =
      turn_at-IsOver r.phase m (met rows clock m r) refl
        (ap (λ cs. (obey clock cs r.controls).requests.stop) e ∙ obey-stop xs ys r.controls)

  -- Wherever the playback thread stands, in a row, in a wait or in a pause, and whatever was called before: a turn
  -- at which another thread has called stop ends the run, and whatever is called later, the run stays ended and
  -- no further row is sent.
  pub run-stop :
      (before after : List (Moment rows clock)) (m : Moment rows clock)
      (xs ys : List (Command clock)) (r : Run rows clock)
      → m.commands ≡ xs ++ Command.stop ∷ ys
      → ((run rows clock (before ++ m ∷ after) r).phase ≡ ended)
        × ((run rows clock (before ++ m ∷ after) r).playback.player.observed
            ≡ (turn rows clock m (run rows clock before r)).playback.player.observed)
  unfolding run
  run-stop before after m xs ys r e =
      let q = run rows clock before r in
      let rest = run-IsStill after (turn rows clock m q) (turn-IsOver m xs ys q e).over in
      let joined = run-append before (m ∷ after) r in
      (
        ap (λ (s : Run rows clock). s.phase) joined ∙ rest.still_over,
        ap (λ (s : Run rows clock). s.playback.player.observed) joined ∙ rest.nothing_sent,
      )
