-- ===== src/Player/Run/Plays.antt =====
-- A run of src/player.cpp that no other thread interrupts plays the plan of a lap.
pub mod Turns
pub mod Lap
pub mod Ends
pub mod Whole
pub mod Onward
use aoahid_player.Aoahid.{AoahidResult, ok, same_ok}
use aoahid_player.Base.Int.{pos}
use aoahid_player.Base.{
  ℕ, ◌<◌, ◌^◌, ◌+◌, ◌≡◌, refl, ap, sym, subst, ◌∙◌, true, false, List, [], ◌∷◌, ◌++◌, ltb, ◌==◌,
  when_lem, no_clash, when◌then◌else◌, if◌then◌else◌,
}
use aoahid_player.Event.{EventPayload, EventRecord}
use aoahid_player.InputState.Rebuild.Played.{payloads_of}
use aoahid_player.Player.Controls.{Controls, any_request}
use aoahid_player.Player.Laps.{Clock}
use aoahid_player.Player.Run.Able.{execute-HasReady}
use aoahid_player.Player.Run.{Run, Moment, Phase, turning, play, turn}
use aoahid_player.Player.Settled.{Keeps, TakesRows, AllFit, flush_now_ready}
use aoahid_player.Player.{RowGroup, Player, accept, send, stage, execute, report_skip, flush_now}
use aoahid_player.Timeline.Plan.{Stop, plan}
use aoahid_player.Timeline.Walk.{InStep, remaining, InStep-next, remaining_done}
use aoahid_player.Timeline.{EventScript, LapWalk, row_at, next, lap_length}

-- Moments at which no other thread calls a control, a wait reaches its deadline, and the pump does not leave the
-- ready states.
abbrev pub Undisturbed :
    {rows : RowGroup} {clock : Clock} → (rows.State → Type 0) → List (Moment rows clock) → Type 0
Undisturbed Ready [] = Unit
Undisturbed {rows} Ready (m ∷ ms) =
    ((m.commands ≡ []) × (m.reached ≡ true) × ((g : rows.State) → Ready g → Ready (m.pump g)))
    × Undisturbed Ready ms

-- Every row that a script runs on a lap fits.
abbrev pub RowsFit : (EventPayload → Type 0) → EventScript → ℕ → Type 0
RowsFit Fitting script lap = AllFit Fitting (payloads_of script.rows (plan script lap))

-- The turns that stops take from a time on: one where the row is due, two where the thread waits for it.
abbrev pub turns : ℕ → List Stop → ℕ
turns cursor [] = 0
turns cursor (s ∷ ss) = if ltb cursor s.due then 2 + turns s.due ss else 1 + turns cursor ss

-- What no turn within a lap changes, but for the stops that are left.
pub record IsSteady (clock : Clock) (script : EventScript) (lap : ℕ) (left : List Stop)
    (c : Controls clock) (s : EventScript) (w : LapWalk) : Type 0 where
  pub quiet : any_request c.requests ≡ false
  pub unlimited : c.stop_at_ns ≡ pos 0
  pub limited : c.loop_limit < 2 ^ 63
  pub same_script : s ≡ script
  pub in_step : InStep script w
  pub on_lap : w.lap ≡ lap
  pub lasts : w.length_ns ≡ lap_length script lap
  pub stops : remaining script w ≡ left

-- Between two turns on a lap: the stops that are left, the time of the batch, and the rows told so far.
pub record IsOnLap (rows : RowGroup) (clock : Clock) (Ready : rows.State → Type 0)
    (script : EventScript) (lap : ℕ) (phase : Phase) (cursor : ℕ) (left : List Stop)
    (told : List EventPayload) (r : Run rows clock) : Type 0 where
  pub at_phase : r.phase ≡ phase
  pub steady : IsSteady clock script lap left r.controls r.playback.script r.playback.walk
  pub at_cursor : r.playback.cursor ≡ pos cursor
  pub observed : r.playback.player.observed ≡ told
  pub able : Ready r.playback.player.group

abbrev first_row : List Stop → ℕ
first_row [] = 0
first_row (s ∷ ss) = s.row

abbrev pub first_due : List Stop → ℕ
first_due [] = 0
first_due (s ∷ ss) = s.due

abbrev tail_stops : List Stop → List Stop
tail_stops [] = []
tail_stops (s ∷ ss) = ss

pub no_stops : {s : Stop} {ss : List Stop} → [] ≡ s ∷ ss → ⊥
no_stops e = absurd cc

module _ (rows : RowGroup) (clock : Clock) where
  -- The rows that a result was told.
  pub record IsTold (told : List EventPayload) (p : Player rows) : Type 0 where
    pub tells : p.observed ≡ told

module _ (rows : RowGroup) (clock : Clock) (Ready : rows.State → Type 0)
    (Fitting : EventPayload → Type 0) (keep : Keeps rows Ready)
    (k : TakesRows rows Ready Fitting) where
  accept-tells :
      (payload : EventPayload) (r : AoahidResult) (p : Player rows) (told : List EventPayload)
      → r ≡ ok
      → p.observed ≡ told
      → IsTold rows clock (told ++ payload ∷ []) (accept rows payload r p).1
  unfolding accept
  accept-tells payload r p told k e =
      when_lem (λ (s : AoahidResult × Player rows). IsTold rows clock (told ++ payload ∷ []) s.1) _
        _ _ (λ t. record { tells = ap (λ xs. xs ++ payload ∷ []) e })
        (λ f. absurd (no_clash (sym (same_ok k) ∙ f)))

  pub send-tells :
      (payload : EventPayload) (p : Player rows) (told : List EventPayload)
      → Ready p.group
      → Fitting payload
      → p.observed ≡ told
      → IsTold rows clock (told ++ payload ∷ []) (send rows payload p).1
  unfolding send flush_now
  send-tells payload p told v f e =
      when_lem (λ (s : AoahidResult × Player rows). IsTold rows clock (told ++ payload ∷ []) s.1) _
        _ _ (λ b. accept-tells payload _ _ told (k.retakes payload _ _ v f b) e)
        (λ b. accept-tells payload _ _ told (k.takes payload _ _ v f b) e)

  report_skip-tells :
      (result : AoahidResult) (payload : EventPayload) (p : Player rows) (told : List EventPayload)
      → p.observed ≡ told
      → IsTold rows clock told (report_skip rows result payload p)
  unfolding report_skip
  report_skip-tells result payload p told e =
      let P = IsTold rows clock told in
      let v : P p = record { tells = e } in
      when_lem P _ _ _ (λ a. v)
        (λ a.
          when_lem P _ _ _ (λ b. when_lem P _ _ _ (λ c. v) (λ c. record { tells = e }))
            (λ b. when_lem P _ _ _ (λ c. record { tells = e }) (λ c. v)))

  stage-tells :
      (payload : EventPayload) (r : AoahidResult × Player rows) (told : List EventPayload)
      → IsTold rows clock told r.1
      → IsTold rows clock told (stage rows payload r)
  unfolding stage
  stage-tells payload r told v =
      let P = IsTold rows clock told in
      when_lem P _ _ _ (λ a. when_lem P _ _ _ (λ b. v) (λ b. record { tells = v.tells }))
        (λ a. report_skip-tells r.0 payload r.1 told v.tells)

  -- The rows that a ready player was told.
  record IsReadyTold (told : List EventPayload) (p : Player rows) : Type 0 where
    tells : p.observed ≡ told
    ready_then : Ready p.group

  execute-tells :
      (row : EventRecord) (p : Player rows) (told : List EventPayload)
      → Ready p.group
      → Fitting row.payload
      → p.observed ≡ told
      → IsTold rows clock (told ++ row.payload ∷ []) (execute rows row p)
  unfolding execute flush_now
  execute-tells row p told v f e =
      let P = IsReadyTold told in
      let before =
        when_lem P _ _ p
          (λ c. record { tells = e; ready_then = flush_now_ready rows Ready keep p v })
          (λ c. record { tells = e; ready_then = v }) in
      stage-tells row.payload _ _ (send-tells row.payload _ told before.ready_then f before.tells)

  -- The row that the walk stands on is executed, and the walk goes to the next stop.
  pub play-IsOnLap :
      (script : EventScript) (lap : ℕ) (phase : Phase) (cursor : ℕ) (s : Stop) (left : List Stop)
      (told : List EventPayload) (r : Run rows clock)
      → Fitting (row_at script.rows s.row).payload
      → IsOnLap rows clock Ready script lap phase cursor (s ∷ left) told r
      → IsOnLap rows clock Ready script lap turning cursor left
          (told ++ (row_at script.rows s.row).payload ∷ [])
          (play rows clock r)
  unfolding play
  play-IsOnLap script lap phase cursor s left told r fits v =
      let w = r.playback.walk in
      when_lem
        (IsOnLap rows clock Ready script lap turning cursor left
          (told ++ (row_at script.rows s.row).payload ∷ []))
        w.done _ _ (λ e. absurd (no_stops (sym (remaining_done script w e) ∙ v.steady.stops)))
        (λ e.
          let (i, here, on_lap, lasts) = InStep-next script w v.steady.in_step e in
          let both = sym here ∙ v.steady.stops in
          let same : next r.playback.script w ≡ next script w =
            ap (λ (g : EventScript). next g w) v.steady.same_script in
          let row_same : row_at r.playback.script.rows w.row ≡ row_at script.rows s.row =
            ap (λ (g : EventScript). row_at g.rows w.row) v.steady.same_script
            ∙ ap (λ (x : List Stop). row_at script.rows (first_row x)) both in
          record {
            at_phase = refl;
            steady = record {
              quiet = v.steady.quiet;
              unlimited = v.steady.unlimited;
              limited = v.steady.limited;
              same_script = v.steady.same_script;
              in_step = subst (InStep script) (sym same) i;
              on_lap = ap (λ (x : LapWalk). x.lap) same ∙ on_lap ∙ v.steady.on_lap;
              lasts = ap (λ (x : LapWalk). x.length_ns) same ∙ lasts ∙ v.steady.lasts;
              stops = ap (remaining script) same ∙ ap tail_stops both;
            };
            at_cursor = v.at_cursor;
            observed =
                (execute-tells (row_at r.playback.script.rows w.row) r.playback.player told v.able
                  (subst (λ (x : EventRecord). Fitting x.payload) (sym row_same) fits)
                  v.observed).tells
                ∙ ap (λ (x : EventRecord). told ++ x.payload ∷ []) row_same;
            able =
                (execute-HasReady rows Ready keep (row_at r.playback.script.rows w.row)
                  r.playback.player v.able).is_ready;
          })
