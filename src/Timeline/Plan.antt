-- ===== src/Timeline/Plan.antt =====
-- The rows that run on one lap with their start times, written down directly: what the walk of
-- src/event_script.cpp (LapWalk) is to visit.
use aoahid_player.Base.{
  ℕ, zero, suc, ◌+◌, ◌-◌, ◌≤◌, ◌≡◌, refl, ap, List, [], ◌∷◌, ◌++◌, arith, length, length-append,
  All, if◌then◌else◌, Bool-cases, inl, inr,
}
use aoahid_player.Event.{EventRecord}
use aoahid_player.Laps.{runs_on}
use aoahid_player.Timeline.{Segment, EventScript, SegmentFits, Covers, Fits, row_at}

-- A row and the time from the start of the lap at which it runs.
pub record Stop : Type 0 where
  pub row : ℕ
  pub due : ℕ

-- rows[at, at + n), the first at `time`: each row's wait is the delay after it.
abbrev pub stops_at : List EventRecord → ℕ → ℕ → ℕ → List Stop
stops_at rows at zero time = []
stops_at rows at (suc n) time =
    record { row = at; due = time } ∷ stops_at rows (suc at) n (time + (row_at rows at).wait_ns)

abbrev pub plan_over : List EventRecord → ℕ → ℕ → List Segment → List Stop
plan_over rows lap time [] = []
plan_over rows lap time (s ∷ ss) =
    if runs_on s.when lap
    then stops_at rows s.begin (s.end - s.begin) (time + s.lead_ns)
      ++ plan_over rows lap (time + s.duration) ss
    else plan_over rows lap (if s.when.keep_time then time + s.duration else time) ss

-- The stops of a lap: a segment that runs takes its lead, its rows and their waits; one that does
-- not run takes its duration if it keeps time, and else none.
abbrev pub plan : EventScript → ℕ → List Stop
plan script lap = plan_over script.rows lap 0 script.segments

length-stops_at : (rows : List EventRecord) (at n time : ℕ) → length (stops_at rows at n time) ≡ n
length-stops_at rows at zero time = refl
length-stops_at rows at (suc n) time = ap suc (length-stops_at rows (suc at) n _)

-- A lap has no more stops than the script has rows.
length-plan_over :
    (rows : List EventRecord) (lap time at size : ℕ) (ss : List Segment)
    → All (SegmentFits rows) ss
    → Covers size at ss
    → at + length (plan_over rows lap time ss) ≤ size
length-plan_over rows lap time at size [] f c = omega arith
length-plan_over rows lap time at size (s ∷ ss) (f, fs) (b, c) =
    elim (Bool-cases (runs_on s.when lap)) [
      | inl r ↦ rw r (
          omega (
            arith,
            length-append (stops_at rows s.begin (s.end - s.begin) (time + s.lead_ns))
                (plan_over rows lap (time + s.duration) ss),
            length-stops_at rows s.begin (s.end - s.begin) (time + s.lead_ns),
            length-plan_over rows lap (time + s.duration) s.end size ss fs c,
            f.in_order,
          ))
      | inr r ↦ rw r (
          omega (
            arith,
            length-plan_over rows lap (if s.when.keep_time then time + s.duration else time) s.end
                size ss fs c,
            f.in_order,
          ))
    ]

pub length-plan :
    (script : EventScript) (lap : ℕ) → Fits script → length (plan script lap) ≤ length script.rows
length-plan script lap f = omega (
  arith,
  length-plan_over script.rows lap 0 0 (length script.rows) script.segments f.each f.covers,
)
