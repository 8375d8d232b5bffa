-- ===== src/Timeline.antt =====
-- Segment, EventScript, lap_length, next_lap, LapWalk and lap_layout of
-- include/aoahid_player/event_script.hpp and src/event_script.cpp: the rows of a script grouped by
-- the laps they run on, and the walk over the rows of one lap. Times are natural numbers; a sum
-- that int64_t cannot hold is undefined in the source and not modelled.
pub mod Plan
pub mod Walk
pub mod Seek
pub mod Layout
pub mod NextLap
use aoahid_player.Base.Int.{ℤ, pos}
use aoahid_player.Base.Words.{u64_max}
use mathlib.Core.Bool.{beq}
use mathlib.Core.List.{reverse}
use aoahid_player.Base.{
  ℕ, zero, suc, ◌+◌, ◌-◌, ◌≤◌, ◌≡◌, Bool, true, false, not, ◌&&◌, ◌||◌, List, [], ◌∷◌, ◌++◌, Option,
  none, some, length, get_or, drop, All, ltb, ◌==◌, if◌then◌else◌,
}
use aoahid_player.Event.{EventRecord, mouse_move}
use aoahid_player.Laps.{LapSelector, IsWellFormed, runs_on, next_run_from}

pub record Segment : Type 0 where
  pub begin : ℕ
  pub end : ℕ
  pub when : LapSelector
  pub lead_ns : ℕ
  pub duration : ℕ

-- The members that the timeline reads; load() has the others.
pub record EventScript : Type 0 where
  pub rows : List EventRecord
  pub segments : List Segment

-- A row index out of range is undefined in the source; it reads as this row here.
abbrev pub no_row : EventRecord
no_row = record { payload = mouse_move (record { dx = pos 0; dy = pos 0 }); wait_ns = 0 }

abbrev pub row_at : List EventRecord → ℕ → EventRecord
row_at rows i = get_or rows i no_row

-- The sum of the waits of rows[at, at + n).
abbrev pub waits : List EventRecord → ℕ → ℕ → ℕ
waits rows at zero = 0
waits rows at (suc n) = (row_at rows at).wait_ns + waits rows (suc at) n

-- What load() leaves: a segment's rows lie in the script, and its duration is its lead and the
-- waits of its rows.
pub record SegmentFits (rows : List EventRecord) (s : Segment) : Type 0 where
  pub in_order : s.begin ≤ s.end
  pub in_rows : s.end ≤ length rows
  pub lasts : s.duration ≡ s.lead_ns + waits rows s.begin (s.end - s.begin)
  pub selector : IsWellFormed s.when

-- The segments cover rows[at, size) in file order.
abbrev pub Covers : ℕ → ℕ → List Segment → Type 0
Covers size at [] = at ≡ size
Covers size at (s ∷ ss) = (s.begin ≡ at) × Covers size s.end ss

pub record Fits (script : EventScript) : Type 0 where
  pub each : All (SegmentFits script.rows) script.segments
  pub covers : Covers (length script.rows) 0 script.segments

lap_length_over : List Segment → ℕ → ℕ
lap_length_over [] lap = 0
lap_length_over (s ∷ ss) lap =
    (if s.when.keep_time || runs_on s.when lap then s.duration else 0) + lap_length_over ss lap

unfoldable pub lap_length : EventScript → ℕ → ℕ
unfolding lap_length_over
lap_length script lap = lap_length_over script.segments lap

-- The lambda of next_lap.
unfoldable pub consider : ℕ → ℕ → ℕ
consider best lap = if not (lap == 0) && (best == 0 || ltb lap best) then lap else best

-- One turn of the loop of next_lap.
unfoldable pub consider_segment : ℕ → Bool → ℕ → Segment → ℕ
consider_segment from rows_only best s =
    let has_rows = not (s.begin == s.end) in
    let has_time = not rows_only && ltb 0 s.duration in
    let best' = if has_rows || has_time then consider best (next_run_from s.when from) else best in
    if has_time && s.when.keep_time
    then consider best' (next_run_from (record (s.when) { negate = not s.when.negate }) from)
    else best'

next_lap_over : ℕ → Bool → ℕ → List Segment → ℕ
unfolding consider consider_segment
next_lap_over from rows_only best [] = best
next_lap_over from rows_only best (s ∷ ss) =
    next_lap_over from rows_only (consider_segment from rows_only best s) ss

unfoldable pub next_lap : EventScript → ℕ → Bool → ℕ
unfolding next_lap_over
next_lap script from rows_only = next_lap_over from rows_only 0 script.segments

-- `segment` and `time` are the private members segment_ and time_.
pub record LapWalk : Type 0 where
  pub lap : ℕ
  pub length_ns : ℕ
  pub due : ℕ
  pub row : ℕ
  pub done : Bool
  pub segment : ℕ
  pub time : ℕ

-- LapWalk{}.
abbrev pub idle_walk : LapWalk
idle_walk = record { lap = 1; length_ns = 0; due = 0; row = 0; done = true; segment = 0; time = 0 }

-- The loop of settle, over the segments from segment_ on; `size` is script.rows.size().
unfoldable pub settle_over : ℕ → LapWalk → List Segment → LapWalk
settle_over size w [] = record w { row = size; due = w.length_ns; done = true }
settle_over size w (s ∷ ss) = elim (runs_on s.when w.lap) [
  | false ↦
      settle_over size
        (record w {
          time = if s.when.keep_time then w.time + s.duration else w.time;
          segment = suc w.segment;
        })
        ss
  | true ↦ elim (s.begin == s.end) [
    | true ↦ settle_over size (record w { time = w.time + s.lead_ns; segment = suc w.segment }) ss
    | false ↦ record w { time = w.time + s.lead_ns; row = s.begin; due = w.time + s.lead_ns }
  ]
]

unfoldable pub settle : EventScript → LapWalk → LapWalk
settle script w = settle_over (length script.rows) w (drop w.segment script.segments)

unfoldable pub start : EventScript → ℕ → LapWalk → LapWalk
start script lap_number w = settle script (record w {
  lap = lap_number;
  length_ns = lap_length script lap_number;
  segment = 0;
  time = 0;
  done = false;
})

-- script.segments[segment_].end, 0 out of range.
abbrev pub segment_end : List Segment → ℕ
segment_end [] = 0
segment_end (s ∷ ss) = s.end

unfoldable pub next : EventScript → LapWalk → LapWalk
next script w =
    let time = w.time + (row_at script.rows w.row).wait_ns in
    let moved = record w { time = time; row = suc w.row } in
    if suc w.row == segment_end (drop w.segment script.segments)
    then settle script (record moved { segment = suc w.segment })
    else record moved { due = time }

-- The loop of seek; it takes at most as many turns as the lap has rows.
unfoldable pub seek_loop : ℕ → EventScript → ℕ → LapWalk → LapWalk
seek_loop zero script time_ns w = w
seek_loop (suc fuel) script time_ns w = elim (not w.done && ltb w.due time_ns) [
  | true ↦ seek_loop fuel script time_ns (next script w)
  | false ↦ w
]

unfoldable pub seek : EventScript → ℕ → ℕ → LapWalk → LapWalk
unfolding seek_loop
seek script lap_number time_ns w =
    seek_loop (suc (length script.rows)) script time_ns (start script lap_number w)

pub record LapSpan : Type 0 where
  pub start_ns : ℕ
  pub end_ns : ℕ
  pub conditional : Bool

abbrev pub is_conditional : LapSelector → Bool
is_conditional when =
    when.negate || not (when.first == 1) || not (when.last == u64_max) || not (when.every == 1)

-- `out` with its last span first: the span from `time` to `stop` joins it or starts a new one.
unfoldable pub push_span : List LapSpan → ℕ → ℕ → Bool → List LapSpan
push_span [] time stop conditional =
    record { start_ns = time; end_ns = stop; conditional = conditional } ∷ []
push_span (back ∷ out) time stop conditional =
    if beq back.conditional conditional && (back.end_ns == time)
    then record back { end_ns = stop } ∷ out
    else record { start_ns = time; end_ns = stop; conditional = conditional } ∷ back ∷ out

unfoldable pub layout_over : ℕ → List Segment → ℕ → List LapSpan → List LapSpan × ℕ
layout_over lap [] time out = (out, time)
layout_over lap (s ∷ ss) time out = elim (runs_on s.when lap) [
  | false ↦ layout_over lap ss (if s.when.keep_time then time + s.duration else time) out
  | true ↦
      layout_over lap ss (time + s.duration)
        (push_span out time (time + s.duration) (is_conditional s.when))
]

-- The spans, and the time that the source returns.
unfoldable pub lap_layout : EventScript → ℕ → List LapSpan × ℕ
lap_layout script lap =
    let (out, time) = layout_over lap script.segments 0 [] in (reverse out, time)
