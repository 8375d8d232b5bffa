-- ===== src/Laps/LastRun.antt =====
-- last_run_before of src/event_script.cpp finds the latest earlier lap that a block runs on.
use aoahid_player.Base.Words.{sub64, sub64-eq-sub}
use aoahid_player.Base.{
  ℕ, ◌+◌, ◌-◌, ◌%◌, ◌^◌, ◌≤◌, ◌<◌, min, ◌≡◌, ◌⊎◌, inl, inr, true, false, arith, Bool-cases, dec_lt,
  refl,
}
use aoahid_player.Laps.Multiples.{sub_mod-mod, mod-ne-zero_below, suc_mod-ne-zero}
use aoahid_player.Laps.Runs.{matches_iff, matches-eq-false, runs_on-differs}
use aoahid_player.Laps.{LapSelector, IsWellFormed, matches, runs_on, last_run_before}

-- `r` is the latest lap before `lap` that the block runs on, or 0 when there is none.
pub record IsLastRun (when : LapSelector) (lap r : ℕ) : Type 0 where
  pub found : (r ≡ 0) ⊎ ((1 ≤ r) × (r < lap) × (runs_on when r ≡ true))
  pub latest : (m : ℕ) → r < m → m < lap → runs_on when m ≡ false

-- The last multiple of the step at or below `top`, with the differences taken without wrapping.
capped_run :
    (capped first every : ℕ)
    → first ≤ capped
    → capped < 2 ^ 64
    → sub64 capped (sub64 capped first % every) ≡ capped - (capped - first) % every
capped_run capped first every lo hi =
    let e : sub64 capped first ≡ capped - first = sub64-eq-sub capped first lo hi in
    let le : (capped - first) % every ≤ capped - first = grind arith in
    rw e (sub64-eq-sub capped _ (omega (arith, le)) hi)

module _ (when : LapSelector) (lap : ℕ) (w : IsWellFormed when) (lo : 1 < lap)
    (hi : lap < 2 ^ 64) where
  -- The cases of last_run_before, as values without wrapping.
  last_plain :
      when.negate ≡ false
      → when.first < lap
      → last_run_before when lap
        ≡ min (lap - 1) when.last - (min (lap - 1) when.last - when.first) % when.every
  unfolding last_run_before
  last_plain n f =
      ground (arith, capped_run (min (lap - 1) when.last) when.first when.every, sub64-eq-sub lap 1)

  last_plain_early : when.negate ≡ false → lap ≤ when.first → last_run_before when lap ≡ 0
  unfolding last_run_before
  last_plain_early n f = ground (arith, sub64-eq-sub lap 1)

  last_other :
      when.negate ≡ true → matches when (lap - 1) ≡ false → last_run_before when lap ≡ lap - 1
  unfolding last_run_before
  last_other n f =
      let e : sub64 lap 1 ≡ lap - 1 = omega arith in rw (e, last_run_before) (ground arith)

  last_other_step :
      when.negate ≡ true
      → matches when (lap - 1) ≡ true
      → 1 < when.every
      → last_run_before when lap ≡ lap - 1 - 1
  unfolding last_run_before
  last_other_step n m s =
      let e : sub64 lap 1 ≡ lap - 1 = omega arith in rw (e, last_run_before) (ground arith)

  last_other_all :
      when.negate ≡ true
      → matches when (lap - 1) ≡ true
      → when.every ≡ 1
      → last_run_before when lap ≡ when.first - 1
  unfolding last_run_before
  last_other_all n m s =
      let e : sub64 lap 1 ≡ lap - 1 = omega arith in rw (e, last_run_before) (ground arith)

  plain_found :
      when.negate ≡ false
      → when.first < lap
      → (1 ≤ last_run_before when lap)
        × (last_run_before when lap < lap)
        × (runs_on when (last_run_before when lap) ≡ true)
  plain_found n f = rw (last_plain n f) (
    omega (arith, mod_le, w.ordered, w.counts_from_one),
    omega arith,
    runs_on-differs when r false true (omega (arith, mod_le, w.ordered, w.counts_from_one)) n (
        (matches_iff when r w (omega arith)).1 (
          omega (arith, mod_le, w.ordered),
          omega arith,
          rw shift (sub_mod-mod (c - when.first) when.every w.steps),
        )),
  )
    where
      c : ℕ
      c = min (lap - 1) when.last

      r : ℕ
      r = c - (c - when.first) % when.every

      mod_le : (c - when.first) % when.every ≤ c - when.first
      mod_le = grind arith

      shift : r - when.first ≡ c - when.first - (c - when.first) % when.every
      shift = omega (arith, mod_le)

  plain_latest :
      when.negate ≡ false
      → when.first < lap
      → (m : ℕ) → last_run_before when lap < m
      → m < lap
      → runs_on when m ≡ false
  plain_latest n f m above below = runs_on-differs when m false false (omega arith) n (
      matches-eq-false when m w (omega arith) (λ a b z.
        mod-ne-zero_below (c - when.first) when.every (m - when.first) w.steps
          (omega (arith, rw (last_plain n f) at above, mod_le)) (omega arith) z))
    where
      c : ℕ
      c = min (lap - 1) when.last

      mod_le : (c - when.first) % when.every ≤ c - when.first
      mod_le = grind arith

  early_IsLastRun :
      when.negate ≡ false → lap ≤ when.first → IsLastRun when lap (last_run_before when lap)
  early_IsLastRun n f = rw (last_plain_early n f) (record {
    found = inl refl;
    latest = λ m a b.
        runs_on-differs when m false false (omega arith) n
          (matches-eq-false when m w (omega arith) (λ c d z. omega arith));
  })

  other_IsLastRun :
      when.negate ≡ true
      → matches when (lap - 1) ≡ false
      → IsLastRun when lap (last_run_before when lap)
  other_IsLastRun n f = rw (last_other n f) (record {
    found =
        inr (omega arith, omega arith, runs_on-differs when (lap - 1) true false (omega arith) n f);
    latest = λ m a b. absurd (omega arith);
  })

  other_step_IsLastRun :
      when.negate ≡ true
      → matches when (lap - 1) ≡ true
      → 1 < when.every
      → IsLastRun when lap (last_run_before when lap)
  other_step_IsLastRun n t s = rw (last_other_step n t s) (record {
    found = elim (dec_lt 2 lap) [
      | yes more ↦ inr (
        omega arith,
        omega arith,
        runs_on-differs when (lap - 1 - 1) true false (omega arith) n (
            matches-eq-false when (lap - 1 - 1) w (omega arith) (λ a b z.
              suc_mod-ne-zero (lap - 1 - 1 - when.first) when.every s z (
                let e : lap - 1 - 1 - when.first + 1 ≡ lap - 1 - when.first = omega arith in
                rw e ((matches_iff when (lap - 1) w (omega arith)).0 t).2))),
      )
      | no first_lap ↦ inl (omega arith)
    ];
    latest = λ m a b.
        let e : m ≡ lap - 1 = omega arith in
        rw e (runs_on-differs when (lap - 1) true true (omega arith) n t);
  })

  other_all_IsLastRun :
      when.negate ≡ true
      → matches when (lap - 1) ≡ true
      → when.every ≡ 1
      → IsLastRun when lap (last_run_before when lap)
  other_all_IsLastRun n t s = rw (last_other_all n t s) (record {
    found = elim (dec_lt 1 when.first) [
      | yes more ↦ inr (
        omega arith,
        omega (arith, top.0),
        runs_on-differs when (when.first - 1) true false (omega arith) n (
            matches-eq-false when (when.first - 1) w (omega (arith, top.0)) (λ a b z. omega arith)),
      )
      | no from_one ↦ inl (omega (arith, w.counts_from_one))
    ];
    latest = λ m a b. runs_on-differs when m true true (omega (arith, w.counts_from_one)) n (
        (matches_iff when m w (omega arith)).1
          (omega arith, omega (arith, top.1), rw s (omega arith)));
  })
    where
      top : (when.first ≤ lap - 1) × (lap - 1 ≤ when.last)
      top = let (a, b, c) = (matches_iff when (lap - 1) w (omega arith)).0 t in (a, b)

last_run_before_first : (when : LapSelector) (lap : ℕ) → lap ≤ 1 → last_run_before when lap ≡ 0
unfolding last_run_before
last_run_before_first when lap h = ground arith

-- last_run_before gives the latest earlier lap that the block runs on, or 0 when it has not run, for
-- every well-formed selector, negated or not.
pub last_run_before-IsLastRun :
    (when : LapSelector) (lap : ℕ)
    → IsWellFormed when
    → lap < 2 ^ 64
    → IsLastRun when lap (last_run_before when lap)
last_run_before-IsLastRun when lap w hi = elim (dec_lt 1 lap) [
  | no first_lap ↦
      rw (last_run_before_first when lap (omega arith))
        (record { found = inl refl; latest = λ m a b. absurd (omega arith) })
  | yes lo ↦ elim (Bool-cases when.negate) [
    | inl n ↦ elim (Bool-cases (matches when (lap - 1))) [
      | inl t ↦ elim (dec_lt 1 when.every) [
        | yes s ↦ other_step_IsLastRun when lap w lo hi n t s
        | no s ↦ other_all_IsLastRun when lap w lo hi n t (omega (arith, w.steps))
      ]
      | inr f ↦ other_IsLastRun when lap w lo hi n f
    ]
    | inr n ↦ elim (dec_lt when.first lap) [
      | yes f ↦ record {
        found = inr (plain_found when lap w lo hi n f);
        latest = plain_latest when lap w lo hi n f;
      }
      | no early ↦ early_IsLastRun when lap w lo hi n (omega arith)
    ]
  ]
]
