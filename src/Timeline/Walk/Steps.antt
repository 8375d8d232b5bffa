-- ===== src/Timeline/Walk/Steps.antt =====
-- One step of LapWalk of src/event_script.cpp: settle, start and next against the plan of a lap.
use aoahid_player.Base.{
  ℕ, zero, suc, ◌+◌, ◌-◌, ◌<◌, ◌≡◌, refl, ap, sym, ◌∙◌, ◌⊎◌, inl, inr, true, false, List, [], ◌∷◌,
  ◌++◌, arith, length, drop, All, ◌==◌, ==_iff, if◌then◌else◌, Bool-cases,
}
use native.Mathlib.Nat.{add-zero}
use aoahid_player.Event.{EventRecord}
use aoahid_player.Laps.{runs_on}
use aoahid_player.Timeline.Plan.{Stop, stops_at, plan_over, plan}
use aoahid_player.Timeline.{
  Segment, EventScript, SegmentFits, LapWalk, waits, row_at, lap_length, settle_over, settle, start,
  next,
}

-- What is left of the plan at a walk that stands in the first of these segments.
abbrev pub from_here : List EventRecord → LapWalk → List Segment → List Stop
from_here rows w [] = []
from_here rows w (s ∷ ss) =
    stops_at rows w.row (s.end - w.row) w.time
    ++ plan_over rows w.lap (w.time + waits rows w.row (s.end - w.row)) ss

abbrev pub remaining : EventScript → LapWalk → List Stop
remaining script w = if w.done then [] else from_here script.rows w (drop w.segment script.segments)

abbrev pub Inside : List EventRecord → LapWalk → List Segment → Type 0
Inside rows w [] = ⊥
Inside rows w (s ∷ ss) = (w.row < s.end) × (w.due ≡ w.time) × All (SegmentFits rows) ss

-- A walk that is done stands behind the last row, at the end of the lap; any other stands on a row
-- of its segment, at the time of that row.
abbrev pub InStep : EventScript → LapWalk → Type 0
InStep script w =
    ((w.done ≡ true) × (w.row ≡ length script.rows) × (w.due ≡ w.length_ns))
    ⊎ ((w.done ≡ false) × Inside script.rows w (drop w.segment script.segments))

drop-suc {ℓ} :
    {A : Type ℓ} (n : ℕ) (xs : List A) {x : A} {ys : List A}
    → drop n xs ≡ x ∷ ys
    → drop (suc n) xs ≡ ys
drop-suc zero [] e = cc
drop-suc zero (y ∷ xs) e = cc
drop-suc (suc n) [] e = cc
drop-suc (suc n) (y ∷ xs) e = drop-suc n xs e

module _ (script : EventScript) where
  -- settle moves to the next row that runs, and leaves only what it skips out of the plan.
  record Settled (w : LapWalk) (ss : List Segment) (w' : LapWalk) : Type 0 where
    in_step : InStep script w'
    stops : remaining script w' ≡ plan_over script.rows w.lap w.time ss
    same_lap : w'.lap ≡ w.lap
    same_length : w'.length_ns ≡ w.length_ns

  settle_over-Settled :
      (w : LapWalk) (ss : List Segment)
      → drop w.segment script.segments ≡ ss
      → w.done ≡ false
      → All (SegmentFits script.rows) ss
      → Settled w ss (settle_over (length script.rows) w ss)
  unfolding settle_over
  settle_over-Settled w [] e d f = record {
    in_step = inl (refl, refl, refl);
    stops = refl;
    same_lap = refl;
    same_length = refl;
  }
  settle_over-Settled w (s ∷ ss) e d (f, fs) = elim (Bool-cases (runs_on s.when w.lap)) [
    | inr skipped ↦
        let r =
          settle_over-Settled
            (record w {
              time = if s.when.keep_time then w.time + s.duration else w.time;
              segment = suc w.segment;
            })
            ss (drop-suc w.segment script.segments e) d fs in
        rw (skipped, settle_over)
          (record {
            in_step = r.in_step;
            stops = rw skipped r.stops;
            same_lap = r.same_lap;
            same_length = r.same_length;
          })
    | inl runs ↦ elim (Bool-cases (s.begin == s.end)) [
      | inl only_waits ↦
          let r =
            settle_over-Settled (record w { time = w.time + s.lead_ns; segment = suc w.segment }) ss
              (drop-suc w.segment script.segments e) d fs in
          let none_left : s.end - s.begin ≡ 0 = ground arith in
          let lasts : s.duration ≡ s.lead_ns = omega (arith, rw none_left at f.lasts) in
          rw (runs, settle_over)
            (rw (only_waits, settle_over)
              (record {
                in_step = r.in_step;
                stops = rw (runs, none_left, lasts) r.stops;
                same_lap = r.same_lap;
                same_length = r.same_length;
              }))
      | inr rows ↦
          let time_after : w.time + s.duration
              ≡ w.time + s.lead_ns + waits script.rows s.begin (s.end - s.begin) =
            omega (arith, f.lasts) in
          rw (runs, settle_over)
            (rw (rows, settle_over)
              (record {
                in_step = inr (d, rw e (ground arith, refl, fs));
                stops = rw (d, e, runs) (rw time_after);
                same_lap = refl;
                same_length = refl;
              }))
    ]
  ]

  pub start-Settled :
      (w : LapWalk) (lap : ℕ)
      → All (SegmentFits script.rows) script.segments
      → InStep script (start script lap w)
        × (remaining script (start script lap w) ≡ plan script lap)
        × ((start script lap w).lap ≡ lap)
        × ((start script lap w).length_ns ≡ lap_length script lap)
  unfolding start settle
  start-Settled w lap f =
      let r =
        settle_over-Settled
          (record w {
            lap = lap;
            length_ns = lap_length script lap;
            segment = 0;
            time = 0;
            done = false;
          })
          script.segments refl refl f in
      (r.in_step, r.stops, r.same_lap, r.same_length)

  -- One step takes the first stop off the plan.
  pub record Advances (w w' : LapWalk) : Type 0 where
    pub in_step : InStep script w'
    pub stops : remaining script w ≡ record { row = w.row; due = w.due } ∷ remaining script w'
    pub same_lap : w'.lap ≡ w.lap
    pub same_length : w'.length_ns ≡ w.length_ns

  abbrev wait_at : LapWalk → ℕ
  wait_at w = (row_at script.rows w.row).wait_ns

  -- `next` from the last row of a segment, and from any other.
  next_last :
      (w : LapWalk) (s : Segment) (ss : List Segment)
      → drop w.segment script.segments ≡ s ∷ ss
      → suc w.row ≡ s.end
      → next script w
        ≡ settle_over
            (length script.rows)
            (record w { time = w.time + wait_at w; row = suc w.row; segment = suc w.segment })
            ss
  unfolding next settle
  next_last w s ss e l =
      rw (e, drop-suc w.segment script.segments e, (==_iff (suc w.row) s.end).1 l) refl

  next_more :
      (w : LapWalk) (s : Segment) (ss : List Segment)
      → drop w.segment script.segments ≡ s ∷ ss
      → (suc w.row == s.end) ≡ false
      → next script w
        ≡ record w { time = w.time + wait_at w; row = suc w.row; due = w.time + wait_at w }
  unfolding next settle
  next_more w s ss e l = rw (e, l) refl

  stops_cons :
      (w : LapWalk) (s : Segment)
      → w.row < s.end
      → stops_at script.rows w.row (s.end - w.row) w.time
        ≡ record { row = w.row; due = w.time }
          ∷ stops_at script.rows (suc w.row) (s.end - suc w.row) (w.time + wait_at w)
  stops_cons w s lt = let e : s.end - w.row ≡ suc (s.end - suc w.row) = omega arith in rw e

  time_cons :
      (w : LapWalk) (s : Segment)
      → w.row < s.end
      → w.time + waits script.rows w.row (s.end - w.row)
        ≡ w.time + wait_at w + waits script.rows (suc w.row) (s.end - suc w.row)
  time_cons w s lt =
      let e : s.end - w.row ≡ suc (s.end - suc w.row) = omega arith in rw e (omega arith)

  remaining_cons :
      (w : LapWalk) (s : Segment) (ss : List Segment)
      → drop w.segment script.segments ≡ s ∷ ss
      → w.done ≡ false
      → w.row < s.end
      → w.due ≡ w.time
      → remaining script w
        ≡ record { row = w.row; due = w.due }
          ∷ (stops_at script.rows (suc w.row) (s.end - suc w.row) (w.time + wait_at w)
              ++ plan_over script.rows w.lap
                  (w.time + wait_at w + waits script.rows (suc w.row) (s.end - suc w.row))
                  ss)
  remaining_cons w s ss e d lt at = rw (d, e, stops_cons w s lt, time_cons w s lt, at) refl

  pub next-Advances :
      (w : LapWalk) (l : List Segment)
      → drop w.segment script.segments ≡ l
      → w.done ≡ false
      → Inside script.rows w l
      → Advances w (next script w)
  next-Advances w [] e d i = absurd i
  next-Advances w (s ∷ ss) e d (lt, at, fs) = elim (Bool-cases (suc w.row == s.end)) [
    | inl last ↦
        let is_last : suc w.row ≡ s.end = (==_iff (suc w.row) s.end).0 last in
        let none_left : s.end - suc w.row ≡ 0 = omega arith in
        let r =
          settle_over-Settled
            (record w { time = w.time + wait_at w; row = suc w.row; segment = suc w.segment }) ss
            (drop-suc w.segment script.segments e) d fs in
        rw (next_last w s ss e is_last) (record {
          in_step = r.in_step;
          stops =
              remaining_cons w s ss e d lt at
              ∙ ap (◌∷◌ (record { row = w.row; due = w.due }))
                  (rw (none_left, add-zero) refl ∙ sym r.stops);
          same_lap = r.same_lap;
          same_length = r.same_length;
        })
    | inr more ↦ rw (next_more w s ss e more) (record {
      in_step = inr (d, rw e (ground arith, refl, fs));
      stops =
          remaining_cons w s ss e d lt at
          ∙ ap (◌∷◌ (record { row = w.row; due = w.due })) (rw (d, e) refl);
      same_lap = refl;
      same_length = refl;
    })
  ]
