-- ===== src/Laps/NextRun.antt =====
-- next_run_from of src/event_script.cpp finds the earliest lap from a given one on that a block runs
-- on.
mod Defs
mod Plain
mod Other
use aoahid_player.Base.{
  ℕ, zero, suc, ◌+◌, ◌^◌, ◌≤◌, ◌<◌, ◌≡◌, ◌⊎◌, inl, inr, true, false, arith, Bool-cases, dec_lt,
  refl,
}
use aoahid_player.Laps.{LapSelector, IsWellFormed, matches, runs_on, next_run_from}
pub use Defs.{IsNext, IsNextRun}
use Other.{plain, other_here_IsNextRun, other_step_IsNextRun, other_all_IsNextRun}
use Plain.{plain_IsNextRun}

module _ (when : LapSelector) (lap : ℕ) (w : IsWellFormed when) (lo : 1 ≤ lap)
    (hi : lap < 2 ^ 64) where
  from_one : IsNextRun when lap (next_run_from when lap)
  from_one = elim (Bool-cases when.negate) [
    | inl n ↦ elim (Bool-cases (matches when lap)) [
      | inl t ↦ elim (dec_lt 1 when.every) [
        | yes s ↦ other_step_IsNextRun when lap w lo hi n t s
        | no s ↦ other_all_IsNextRun when lap w lo hi n t (omega (arith, w.steps))
      ]
      | inr f ↦ other_here_IsNextRun when lap w lo hi n f
    ]
    | inr n ↦ rw (plain when lap w lo hi n) (plain_IsNextRun when lap w lo hi n)
  ]

next_run_from_zero : (when : LapSelector) → next_run_from when 0 ≡ next_run_from when 1
unfolding next_run_from
next_run_from_zero when = refl

runs_on_zero : (when : LapSelector) → runs_on when 0 ≡ false
unfolding runs_on
runs_on_zero when = refl

-- next_run_from gives the earliest lap from the one asked for on that the block runs on, or 0 when no
-- lap of 64 bits is one, for every well-formed selector, negated or not.
pub next_run_from-IsNextRun :
    (when : LapSelector) (lap : ℕ)
    → IsWellFormed when
    → lap < 2 ^ 64
    → IsNextRun when lap (next_run_from when lap)
next_run_from-IsNextRun when zero w h = rw (next_run_from_zero when) (record {
  found = weaken (from_one when 1 w (omega arith) (omega arith)).found;
  earliest = from_lap (from_one when 1 w (omega arith) (omega arith)).earliest;
})
  where
    r : ℕ
    r = next_run_from when 1

    weaken :
        (r ≡ 0) ⊎ ((1 ≤ r) × (r < 2 ^ 64) × (runs_on when r ≡ true))
        → (r ≡ 0) ⊎ ((0 ≤ r) × (r < 2 ^ 64) × (runs_on when r ≡ true))
    weaken (inl z) = inl z
    weaken (inr (a, b, c)) = inr (omega arith, b, c)

    from_lap :
        ((m : ℕ) → 1 ≤ m → m < 2 ^ 64 → (r ≡ 0) ⊎ (m < r) → runs_on when m ≡ false)
        → (m : ℕ) → 0 ≤ m
        → m < 2 ^ 64
        → (r ≡ 0) ⊎ (m < r)
        → runs_on when m ≡ false
    from_lap e zero a b c = runs_on_zero when
    from_lap e (suc m) a b c = e (suc m) (omega arith) b c
next_run_from-IsNextRun when (suc lap) w h = from_one when (suc lap) w (omega arith) h
