-- ===== src/Timeline/Layout.antt =====
-- lap_layout of src/event_script.cpp: the spans that are drawn for a lap.
use mathlib.Core.Bool.{or-false}
use mathlib.Core.List.{reverse, reverse-cons}
use aoahid_player.Base.{
  ℕ, ◌+◌, ◌≤◌, ◌≡◌, refl, sym, ◌∙◌, Bool, true, false, ◌&&◌, ◌||◌, List, [], ◌∷◌, ◌++◌, arith, ltb,
  leb, if◌then◌else◌, Bool-cases, inl, inr,
}
use aoahid_player.Laps.{runs_on}
use aoahid_player.Timeline.{
  Segment, EventScript, LapSpan, lap_length, lap_length_over, lap_layout, layout_over, push_span,
  is_conditional,
}

layout_over-time :
    (lap time : ℕ) (ss : List Segment) (out : List LapSpan)
    → (layout_over lap ss time out).1 ≡ time + lap_length_over ss lap
unfolding layout_over lap_length_over
layout_over-time lap time [] out = omega arith
layout_over-time lap time (s ∷ ss) out = ground (
  arith,
  layout_over-time lap (time + s.duration) ss
      (push_span out time (time + s.duration) (is_conditional s.when)),
  layout_over-time lap (if s.when.keep_time then time + s.duration else time) ss out,
)

-- The spans follow one another from `lo` to `hi`.
abbrev pub Ascending : ℕ → ℕ → List LapSpan → Type 0
Ascending lo hi [] = lo ≤ hi
Ascending lo hi (s ∷ ss) = (lo ≤ s.start_ns) × (s.start_ns ≤ s.end_ns) × Ascending s.end_ns hi ss

-- The same with the last span first.
abbrev Descending : ℕ → List LapSpan → Type 0
Descending hi [] = Unit
Descending hi (s ∷ ss) = (s.start_ns ≤ s.end_ns) × (s.end_ns ≤ hi) × Descending s.start_ns ss

Descending-up : (lo hi : ℕ) (out : List LapSpan) → lo ≤ hi → Descending lo out → Descending hi out
Descending-up lo hi [] h d = tt
Descending-up lo hi (s ∷ ss) h d = (d.0, omega arith, d.2)

push_span-Descending :
    (out : List LapSpan) (time stop : ℕ) (c : Bool)
    → time ≤ stop
    → Descending time out
    → Descending stop (push_span out time stop c)
unfolding push_span
push_span-Descending [] time stop c h d = (h, omega arith, tt)
push_span-Descending (s ∷ ss) time stop c h d = ground arith

-- The two cases of a turn of the loop.
module _ (lap time : ℕ) (s : Segment) (ss : List Segment) (out : List LapSpan) where
  layout_over_runs :
      runs_on s.when lap ≡ true
      → layout_over lap (s ∷ ss) time out
        ≡ layout_over lap ss
            (time + s.duration)
            (push_span out time (time + s.duration) (is_conditional s.when))
  unfolding layout_over
  layout_over_runs r = rw (r, layout_over) refl

  layout_over_skips :
      runs_on s.when lap ≡ false
      → layout_over lap (s ∷ ss) time out
        ≡ layout_over lap ss (if s.when.keep_time then time + s.duration else time) out
  unfolding layout_over
  layout_over_skips r = rw (r, layout_over) refl

layout_over-Descending :
    (lap time : ℕ) (ss : List Segment) (out : List LapSpan)
    → Descending time out
    → Descending (layout_over lap ss time out).1 (layout_over lap ss time out).0
layout_over-Descending lap time [] out d = unfold layout_over in d
layout_over-Descending lap time (s ∷ ss) out d = elim (Bool-cases (runs_on s.when lap)) [
  | inl r ↦ rw (layout_over_runs lap time s ss out r) (
      layout_over-Descending lap (time + s.duration) ss _
        (push_span-Descending out time (time + s.duration) _ (omega arith) d))
  | inr r ↦ rw (layout_over_skips lap time s ss out r) (
      layout_over-Descending lap (if s.when.keep_time then time + s.duration else time) ss out
        (Descending-up time _ out (ground arith) d))
]

-- A time is drawn when a span holds it.
abbrev pub drawn : ℕ → List LapSpan → Bool
drawn t [] = false
drawn t (s ∷ ss) = (leb s.start_ns t && ltb t s.end_ns) || drawn t ss

-- A time of the lap belongs to a segment that runs.
abbrev pub runs_at : ℕ → ℕ → ℕ → List Segment → Bool
runs_at t lap time [] = false
runs_at t lap time (s ∷ ss) =
    if runs_on s.when lap
    then (leb time t && ltb t (time + s.duration)) || runs_at t lap (time + s.duration) ss
    else runs_at t lap (if s.when.keep_time then time + s.duration else time) ss

drawn-push_span :
    (t : ℕ) (out : List LapSpan) (time stop : ℕ) (c : Bool)
    → time ≤ stop
    → Descending time out
    → drawn t (push_span out time stop c) ≡ (leb time t && ltb t stop) || drawn t out
unfolding push_span
drawn-push_span t [] time stop c h d = refl
drawn-push_span t (s ∷ ss) time stop c h d = ground arith

swap_or : (a b c : Bool) → ((a || b) || c) ≡ (b || (a || c))
swap_or a b c = ground arith

drawn-layout_over :
    (t lap time : ℕ) (ss : List Segment) (out : List LapSpan)
    → Descending time out
    → drawn t (layout_over lap ss time out).0 ≡ (drawn t out || runs_at t lap time ss)
drawn-layout_over t lap time [] out d = unfold layout_over in sym (or-false (drawn t out))
drawn-layout_over t lap time (s ∷ ss) out d = elim (Bool-cases (runs_on s.when lap)) [
  | inl r ↦
      let span =
        drawn-push_span t out time (time + s.duration) (is_conditional s.when) (omega arith) d in
      let rest = drawn-layout_over t lap (time + s.duration) ss _ (
        push_span-Descending out time (time + s.duration) (is_conditional s.when) (omega arith)
          d) in
      rw (layout_over_runs lap time s ss out r, r) (rest ∙ rw span (swap_or _ (drawn t out) _))
  | inr r ↦
      rw (layout_over_skips lap time s ss out r, r)
        (drawn-layout_over t lap (if s.when.keep_time then time + s.duration else time) ss out
          (Descending-up time _ out (ground arith) d))
]

drawn-append : (t : ℕ) (xs ys : List LapSpan) → drawn t (xs ++ ys) ≡ (drawn t xs || drawn t ys)
drawn-append t [] ys = refl
drawn-append t (x ∷ xs) ys = ground (arith, drawn-append t xs ys)

drawn-reverse : (t : ℕ) (xs : List LapSpan) → drawn t (reverse xs) ≡ drawn t xs
drawn-reverse t [] = refl
drawn-reverse t (x ∷ xs) =
    rw (reverse-cons x xs, drawn-append t (reverse xs) (x ∷ []), drawn-reverse t xs) (ground arith)

Ascending-concat :
    (lo mid hi : ℕ) (xs : List LapSpan) (s : LapSpan)
    → Ascending lo mid xs
    → mid ≤ s.start_ns
    → s.start_ns ≤ s.end_ns
    → s.end_ns ≤ hi
    → Ascending lo hi (xs ++ s ∷ [])
Ascending-concat lo mid hi [] s a p q r = (omega arith, q, r)
Ascending-concat lo mid hi (x ∷ xs) s a p q r =
    (a.0, a.1, Ascending-concat x.end_ns mid hi xs s a.2 p q r)

reverse-Ascending : (hi : ℕ) (out : List LapSpan) → Descending hi out → Ascending 0 hi (reverse out)
reverse-Ascending hi [] d = omega arith
reverse-Ascending hi (s ∷ out) d = rw (reverse-cons s out) (
    Ascending-concat 0 s.start_ns hi (reverse out) s (reverse-Ascending s.start_ns out d.2)
      (omega arith) d.0 d.1)

-- lap_layout returns the length of the lap; its spans follow one another within the lap; and they
-- hold exactly the times that belong to a segment that runs.
pub lap_layout_spans :
    (script : EventScript) (lap t : ℕ)
    → ((lap_layout script lap).1 ≡ lap_length script lap)
      × Ascending 0 (lap_length script lap) (lap_layout script lap).0
      × (drawn t (lap_layout script lap).0 ≡ runs_at t lap 0 script.segments)
unfolding lap_layout lap_length
lap_layout_spans script lap t =
    let time = layout_over-time lap 0 script.segments [] in
    let total : (layout_over lap script.segments 0 []).1 ≡ lap_length_over script.segments lap =
      omega (arith, time) in
    (
      total,
      rw (← total) (
          reverse-Ascending _ (layout_over lap script.segments 0 []).0
            (layout_over-Descending lap 0 script.segments [] tt)),
      drawn-reverse t (layout_over lap script.segments 0 []).0
          ∙ drawn-layout_over t lap 0 script.segments [] tt,
    )
