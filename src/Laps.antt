-- ===== src/Laps.antt =====
-- LapSelector, matches, runs_on, last_run_before and next_run_from of
-- include/aoahid_player/event_script.hpp and src/event_script.cpp: which laps a block of rows runs
-- on. Laps are uint64_t, so a difference is taken modulo 2 ^ 64.
pub mod Multiples
pub mod Runs
pub mod LastRun
pub mod NextRun
use aoahid_player.Base.Words.{u64_max, sub64, add64}
use aoahid_player.Base.{
  ℕ, ◌%◌, ◌≤◌, ◌≢◌, ◌<◌, ◌^◌, min, max, Bool, true, false, not, ◌&&◌, ltb, leb, ◌==◌, if◌then◌else◌,
}

pub record LapSelector : Type 0 where
  pub first : ℕ
  pub last : ℕ
  pub every : ℕ
  pub negate : Bool
  pub keep_time : Bool

-- LapSelector{}: every lap.
abbrev pub every_lap : LapSelector
every_lap = record { first = 1; last = u64_max; every = 1; negate = false; keep_time = false }

-- What parse_lap_block and parse_every_block give, and the ranges of the C++ types.
pub record IsWellFormed (when : LapSelector) : Type 0 where
  pub counts_from_one : 1 ≤ when.first
  pub ordered : when.first ≤ when.last
  pub in_word : when.last ≤ u64_max
  pub steps : 1 ≤ when.every
  pub step_in_word : when.every ≤ u64_max

-- `!=` on bool.
abbrev pub differs : Bool → Bool → Bool
differs a b = if a then not b else b

unfoldable pub matches : LapSelector → ℕ → Bool
matches when lap =
    leb when.first lap && leb lap when.last && (sub64 lap when.first % when.every == 0)

unfoldable pub runs_on : LapSelector → ℕ → Bool
runs_on when lap = leb 1 lap && differs (matches when lap) when.negate

-- 0 stands for none.
unfoldable pub last_run_before : LapSelector → ℕ → ℕ
last_run_before when lap =
    let top = sub64 lap 1 in
    let capped = min top when.last in
    if leb lap 1
    then 0
    else if not when.negate
    then if ltb top when.first then 0 else sub64 capped (sub64 capped when.first % when.every)
    else if not (matches when top)
    then top
    else if ltb 1 when.every
    then sub64 top 1
    else sub64 when.first 1

-- The part of next_run_from for a block that is not negated, from a lap of at least 1.
unfoldable pub next_match_from : LapSelector → ℕ → ℕ
next_match_from when lap =
    let past = sub64 lap when.first % when.every in
    let step = sub64 when.every past in
    if ltb when.last lap
    then 0
    else if leb lap when.first
    then when.first
    else if past == 0
    then lap
    else if ltb (sub64 when.last lap) step
    then 0
    else add64 lap step

unfoldable pub next_run_from : LapSelector → ℕ → ℕ
next_run_from when asked =
    let lap = max asked 1 in
    let edge = if ltb 1 when.every then lap else when.last in
    if not when.negate
    then next_match_from when lap
    else if not (matches when lap)
    then lap
    else if edge == u64_max
    then 0
    else add64 edge 1
