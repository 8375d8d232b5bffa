-- ===== src/Timeline/NextLap.antt =====
-- next_lap of src/event_script.cpp finds the earliest lap with something on it.
use mathlib.Core.Bool.{or-false, or_assoc}
use mathlib.Core.Path.{fun_ext}
use aoahid_player.Base.{
  ℕ, ◌^◌, ◌<◌, ◌≡◌, refl, ap, sym, ◌∙◌, inl, Bool, true, false, not, ◌&&◌, ◌||◌, List, [], ◌∷◌,
  arith, All, ltb, leb, ◌==◌, if◌then◌else◌,
}
use aoahid_player.Event.{EventRecord}
use aoahid_player.Laps.NextRun.{IsNext, next_run_from-IsNextRun}
use aoahid_player.Laps.{LapSelector, IsWellFormed, runs_on, next_run_from, matches}
use aoahid_player.Timeline.{
  Segment, EventScript, SegmentFits, Fits, consider, consider_segment, next_lap, next_lap_over,
}

-- The segment has a row on the lap, or, unless only rows count, takes time on it.
abbrev pub counts_on : Bool → Segment → ℕ → Bool
counts_on rows_only s lap =
    let has_rows = not (s.begin == s.end) in
    let has_time = not rows_only && ltb 0 s.duration in
    leb 1 lap && (((has_rows || has_time) && runs_on s.when lap) || (has_time && s.when.keep_time))

abbrev pub something_on : Bool → List Segment → ℕ → Bool
something_on rows_only [] lap = false
something_on rows_only (s ∷ ss) lap = counts_on rows_only s lap || something_on rows_only ss lap

-- The earlier of two laps, where 0 is none.
consider-IsNext :
    (p q : ℕ → Bool) (from a b : ℕ)
    → IsNext p from a
    → IsNext q from b
    → IsNext (λ m. p m || q m) from (consider a b)
unfolding consider
consider-IsNext p q from a b x y = record {
  found = ground (arith, x.found, y.found);
  earliest = λ m lo hi r. ground (arith, x.earliest m lo hi, y.earliest m lo hi, r);
}

IsNext-congr :
    (p q : ℕ → Bool) (from r : ℕ) → ((m : ℕ) → p m ≡ q m) → IsNext p from r → IsNext q from r
IsNext-congr p q from r h x = rw (← fun_ext h) x

abbrev negated : LapSelector → LapSelector
negated when = record when { negate = not when.negate }

negated-IsWellFormed : (when : LapSelector) → IsWellFormed when → IsWellFormed (negated when)
negated-IsWellFormed when w = record {
  counts_from_one = w.counts_from_one;
  ordered = w.ordered;
  in_word = w.in_word;
  steps = w.steps;
  step_in_word = w.step_in_word;
}

runs_on-negated :
    (when : LapSelector) (m : ℕ) → runs_on (negated when) m ≡ (leb 1 m && not (runs_on when m))
unfolding runs_on matches
runs_on-negated when m = ground arith

runs_on_from_one : (when : LapSelector) (m : ℕ) → runs_on when m ≡ true → leb 1 m ≡ true
unfolding runs_on
runs_on_from_one when m h = ground arith

-- The test that one turn of the loop adds, as the two calls of `consider` make it.
counts_on-calls :
    (rows_only : Bool) (s : Segment) (m : ℕ)
    → counts_on rows_only s m ≡ (
        (not (s.begin == s.end) || (not rows_only && ltb 0 s.duration)) && runs_on s.when m
        || ((not rows_only && ltb 0 s.duration) && s.when.keep_time) && runs_on (negated s.when) m)
counts_on-calls rows_only s m =
    rw (runs_on-negated s.when m) (ground (arith, runs_on_from_one s.when m))

module _ (p : ℕ → Bool) (from best : ℕ) (small : from < 2 ^ 64) where
  -- `if b then consider best (next_run_from when from) else best`.
  consider_if :
      (b : Bool) (when : LapSelector)
      → IsWellFormed when
      → IsNext p from best
      → IsNext
          (λ m. p m || (b && runs_on when m))
          from
          (if b then consider best (next_run_from when from) else best)
  consider_if true when w x =
      consider-IsNext p (runs_on when) from best _ x (next_run_from-IsNextRun when from w small)
  consider_if false when w x = IsNext-congr p _ from best (λ m. sym (or-false (p m))) x

consider_segment_calls :
    (from : ℕ) (rows_only : Bool) (best : ℕ) (s : Segment)
    → consider_segment from rows_only best s ≡ (
        let b = not (s.begin == s.end) || (not rows_only && ltb 0 s.duration) in
        let best' = if b then consider best (next_run_from s.when from) else best in
        if (not rows_only && ltb 0 s.duration) && s.when.keep_time
        then consider best' (next_run_from (negated s.when) from)
        else best')
unfolding consider_segment
consider_segment_calls from rows_only best s = refl

consider_segment-IsNext :
    (p : ℕ → Bool) (from : ℕ) (rows_only : Bool) (best : ℕ) (s : Segment)
    → from < 2 ^ 64
    → IsWellFormed s.when
    → IsNext p from best
    → IsNext (λ m. p m || counts_on rows_only s m) from (consider_segment from rows_only best s)
consider_segment-IsNext p from rows_only best s small w x =
    let has_time = not rows_only && ltb 0 s.duration in
    let b = not (s.begin == s.end) || has_time in
    rw (consider_segment_calls from rows_only best s) (
      IsNext-congr _ _ from _
        (λ m. or_assoc (p m) _ _ ∙ ap (λ c. p m || c) (sym (counts_on-calls rows_only s m)))
        (consider_if _ from _ small (has_time && s.when.keep_time) (negated s.when)
          (negated-IsWellFormed s.when w) (consider_if p from best small b s.when w x)))

next_lap_over-IsNext :
    (p : ℕ → Bool) (rows : List EventRecord) (from : ℕ) (rows_only : Bool) (best : ℕ)
    (ss : List Segment)
    → from < 2 ^ 64
    → All (SegmentFits rows) ss
    → IsNext p from best
    → IsNext (λ m. p m || something_on rows_only ss m) from (next_lap_over from rows_only best ss)
unfolding next_lap_over
next_lap_over-IsNext p rows from rows_only best [] small f x =
    IsNext-congr p _ from best (λ m. sym (or-false (p m))) x
next_lap_over-IsNext p rows from rows_only best (s ∷ ss) small (f, fs) x =
    IsNext-congr _ _ from _ (λ m. or_assoc (p m) _ _)
      (next_lap_over-IsNext (λ m. p m || counts_on rows_only s m) rows from rows_only
        (consider_segment from rows_only best s) ss small fs
        (consider_segment-IsNext p from rows_only best s small f.selector x))

-- next_lap gives the earliest lap from the one asked for on with a row on it (or, unless only rows
-- count, with time on it, kept time included), or 0 when no lap of 64 bits has any.
pub next_lap-IsNext :
    (script : EventScript) (from : ℕ) (rows_only : Bool)
    → Fits script
    → from < 2 ^ 64
    → IsNext (something_on rows_only script.segments) from (next_lap script from rows_only)
unfolding next_lap
next_lap-IsNext script from rows_only f small =
    next_lap_over-IsNext (λ _. false) script.rows from rows_only 0 script.segments small f.each
      (record { found = inl refl; earliest = λ m a b c. refl })
