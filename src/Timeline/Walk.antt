-- ===== src/Timeline/Walk.antt =====
-- LapWalk of src/event_script.cpp visits exactly the stops of the plan of a lap.
pub mod Steps
pub use Steps.{from_here, remaining, Inside, InStep, start-Settled}
use aoahid_player.Base.{
  ℕ, zero, suc, ◌+◌, ◌-◌, ◌≤◌, ◌<◌, ◌≡◌, refl, ap, sym, ◌∙◌, ◌⊎◌, inl, inr, Bool, true, false, List,
  [], ◌∷◌, ◌++◌, arith, length, drop, All, ◌==◌, ==_iff, if◌then◌else◌, Bool-cases,
}
use mathlib.Core.Bool.{false≢true}
use native.Mathlib.Nat.{add-zero}
use aoahid_player.Event.{EventRecord}
use aoahid_player.Laps.{runs_on}
use aoahid_player.Timeline.Plan.{Stop, stops_at, plan_over, plan, length-plan}
use aoahid_player.Timeline.{
  Segment, EventScript, SegmentFits, Fits, LapWalk, waits, row_at, lap_length, settle_over, settle,
  start, next, segment_end,
}
use Steps.{next-Advances}

-- The rows that a walk stands on, with their times, until it is done.
abbrev pub visits : ℕ → EventScript → LapWalk → List Stop
visits zero script w = []
visits (suc fuel) script w = elim w.done [
  | true ↦ []
  | false ↦ record { row = w.row; due = w.due } ∷ visits fuel script (next script w)
]

abbrev pub nexts : ℕ → EventScript → LapWalk → LapWalk
nexts zero script w = w
nexts (suc n) script w = nexts n script (next script w)

-- One step of a walk that is in step and not done.
pub InStep-next :
    (script : EventScript) (w : LapWalk)
    → InStep script w
    → w.done ≡ false
    → InStep script (next script w)
      × (remaining script w
          ≡ record { row = w.row; due = w.due } ∷ remaining script (next script w))
      × ((next script w).lap ≡ w.lap)
      × ((next script w).length_ns ≡ w.length_ns)
InStep-next script w (inl (t, r, l)) d = absurd (false≢true (sym d ∙ t))
InStep-next script w (inr (f, i)) d =
    let a = next-Advances script w (drop w.segment script.segments) refl d i in
    (a.in_step, a.stops, a.same_lap, a.same_length)

abbrev pub tail_stops : List Stop → List Stop
tail_stops [] = []
tail_stops (x ∷ l) = l

-- The walk behind `n` steps stands at the end of the lap.
pub record AtEnd (script : EventScript) (w w' : LapWalk) : Type 0 where
  pub is_done : w'.done ≡ true
  pub behind_rows : w'.row ≡ length script.rows
  pub at_length : w'.due ≡ w.length_ns

pub remaining_done : (script : EventScript) (w : LapWalk) → w.done ≡ true → remaining script w ≡ []
remaining_done script w d = rw d

visits_done :
    (script : EventScript) (fuel : ℕ) (w : LapWalk) → w.done ≡ true → visits fuel script w ≡ []
visits_done script zero w d = refl
visits_done script (suc fuel) w d = rw d

visits-next :
    (script : EventScript) (fuel : ℕ) (w : LapWalk)
    → w.done ≡ false
    → visits (suc fuel) script w
      ≡ record { row = w.row; due = w.due } ∷ visits fuel script (next script w)
visits-next script fuel w d = rw d

AtEnd-done :
    (script : EventScript) (w : LapWalk) → InStep script w → w.done ≡ true → AtEnd script w w
AtEnd-done script w (inl (t, r, l)) d = record { is_done = t; behind_rows = r; at_length = l }
AtEnd-done script w (inr (f, i)) d = absurd (false≢true (sym f ∙ d))

pub visits-stops :
    (script : EventScript) (l : List Stop) (fuel : ℕ) (w : LapWalk)
    → InStep script w
    → remaining script w ≡ l
    → length l ≤ fuel
    → (visits fuel script w ≡ l) × AtEnd script w (nexts (length l) script w)
visits-stops script [] fuel w i e h = elim (Bool-cases w.done) [
  | inl d ↦ (visits_done script fuel w d, AtEnd-done script w i d)
  | inr d ↦ let s = (InStep-next script w i d).1 in cc
]
visits-stops script (x ∷ l) zero w i e h = absurd (omega arith)
visits-stops script (x ∷ l) (suc fuel) w i e h = elim (Bool-cases w.done) [
  | inl d ↦ let s = remaining_done script w d in cc
  | inr d ↦
      let (i', s, _, same) = InStep-next script w i d in
      let r =
        visits-stops script l fuel (next script w) i' (ap tail_stops (sym s ∙ e)) (omega arith) in
      (
        visits-next script fuel w d ∙ cc (sym s ∙ e, r.0),
        record {
          is_done = r.1.is_done;
          behind_rows = r.1.behind_rows;
          at_length = r.1.at_length ∙ same;
        },
      )
]

-- From start, the walk visits the rows of the plan of the lap at their times, in order, and behind
-- the last of them stands at the end of the lap, done.
pub visits-start :
    (script : EventScript) (lap fuel : ℕ) (w : LapWalk)
    → Fits script
    → length script.rows ≤ fuel
    → (visits fuel script (start script lap w) ≡ plan script lap)
      × ((nexts (length (plan script lap)) script (start script lap w)).done ≡ true)
      × ((nexts (length (plan script lap)) script (start script lap w)).row ≡ length script.rows)
      × ((nexts (length (plan script lap)) script (start script lap w)).due ≡ lap_length script lap)
visits-start script lap fuel w f h =
    let (i, s, _, same) = start-Settled script w lap f.each in
    let r =
      visits-stops script (plan script lap) fuel (start script lap w) i s
        (omega (arith, length-plan script lap f)) in
    (r.0, r.1.is_done, r.1.behind_rows, r.1.at_length ∙ same)
