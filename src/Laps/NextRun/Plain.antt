-- ===== src/Laps/NextRun/Plain.antt =====
-- next_run_from of src/event_script.cpp for a block that is not negated.
use aoahid_player.Base.Words.{sub64-eq-sub}
use aoahid_player.Base.{
  ℕ, ◌+◌, ◌-◌, ◌%◌, ◌^◌, ◌≤◌, ◌<◌, ◌≡◌, ◌≢◌, ◌⊎◌, inl, inr, true, false, arith, dec_lt, dec_le,
  ℕ_discrete, refl,
}
use aoahid_player.Laps.Multiples.{add_mod-mod, mod-ne-zero_above}
use aoahid_player.Laps.NextRun.Defs.{IsNextRun}
use aoahid_player.Laps.Runs.{matches_iff, matches-eq-false, runs_on-differs}
use aoahid_player.Laps.{LapSelector, IsWellFormed, runs_on, next_match_from}

module _ (when : LapSelector) (lap : ℕ) (w : IsWellFormed when) (lo : 1 ≤ lap)
    (hi : lap < 2 ^ 64) where
  abbrev step : ℕ
  step = when.every - (lap - when.first) % when.every

  mod-lt_step : (lap - when.first) % when.every < when.every
  mod-lt_step = grind arith

  next_past : when.last < lap → next_match_from when lap ≡ 0
  unfolding next_match_from
  next_past h = ground arith

  next_first : lap ≤ when.first → next_match_from when lap ≡ when.first
  unfolding next_match_from
  next_first h = ground (arith, w.ordered)

  next_here :
      when.first < lap
      → lap ≤ when.last
      → (lap - when.first) % when.every ≡ 0
      → next_match_from when lap ≡ lap
  unfolding next_match_from
  next_here a b z = ground (arith, sub64-eq-sub lap when.first)

  next_none :
      when.first < lap
      → lap ≤ when.last
      → (lap - when.first) % when.every ≢ 0
      → when.last - lap < step
      → next_match_from when lap ≡ 0
  unfolding next_match_from
  next_none a b z c = ground (
    arith,
    sub64-eq-sub lap when.first,
    mod-lt_step,
    sub64-eq-sub when.every ((lap - when.first) % when.every),
    sub64-eq-sub when.last lap,
  )

  next_step :
      when.first < lap
      → lap ≤ when.last
      → (lap - when.first) % when.every ≢ 0
      → step ≤ when.last - lap
      → next_match_from when lap ≡ lap + step
  unfolding next_match_from
  next_step a b z c = ground (
    arith,
    sub64-eq-sub lap when.first,
    mod-lt_step,
    sub64-eq-sub when.every ((lap - when.first) % when.every),
    sub64-eq-sub when.last lap,
  )

  -- What is left of a block that is not negated, in each case.
  past_IsNextRun :
      when.negate ≡ false → when.last < lap → IsNextRun when lap (next_match_from when lap)
  past_IsNextRun n h = rw (next_past h) (record {
    found = inl refl;
    earliest = λ m a b _.
        runs_on-differs when m false false (omega arith) n
          (matches-eq-false when m w b (λ c d z. omega arith));
  })

  first_IsNextRun :
      when.negate ≡ false
      → lap ≤ when.last
      → lap ≤ when.first
      → IsNextRun when lap (next_match_from when lap)
  first_IsNextRun n l h = rw (next_first h) (record {
    found = inr (
      h,
      omega (arith, w.ordered, w.in_word),
      runs_on-differs when when.first false true w.counts_from_one n (
          (matches_iff when when.first w (omega (arith, w.ordered, w.in_word))).1 (
            omega arith,
            w.ordered,
            (let e : when.first - when.first ≡ 0 = omega arith in rw e (grind arith)),
          )),
    );
    earliest = λ m a b c.
        runs_on-differs when m false false (omega arith) n
          (matches-eq-false when m w b (λ d e z. omega (arith, c, w.counts_from_one)));
  })

  here_IsNextRun :
      when.negate ≡ false
      → when.first < lap
      → lap ≤ when.last
      → (lap - when.first) % when.every ≡ 0
      → IsNextRun when lap (next_match_from when lap)
  here_IsNextRun n a b z = rw (next_here a b z) (record {
    found = inr (
      omega arith,
      hi,
      runs_on-differs when lap false true lo n ((matches_iff when lap w hi).1 (omega arith, b, z)),
    );
    earliest = λ m c d e. absurd (omega (arith, e));
  })

  -- No lap before the next multiple of the step is one.
  between_multiples :
      when.negate ≡ false
      → when.first < lap
      → (lap - when.first) % when.every ≢ 0
      → (m : ℕ) → lap ≤ m
      → m < 2 ^ 64
      → (when.last < m) ⊎ (m < lap + step)
      → runs_on when m ≡ false
  between_multiples n a z m c d e = runs_on-differs when m false false (omega arith) n (
      matches-eq-false when m w d (λ x y v.
        mod-ne-zero_above (lap - when.first) when.every (m - when.first) w.steps z (omega arith)
          (omega (arith, e, mod-lt_step)) v))

  none_IsNextRun :
      when.negate ≡ false
      → when.first < lap
      → lap ≤ when.last
      → (lap - when.first) % when.every ≢ 0
      → when.last - lap < step
      → IsNextRun when lap (next_match_from when lap)
  none_IsNextRun n a b z c = rw (next_none a b z c) (record {
    found = inl refl;
    earliest = λ m d e _. between_multiples n a z m d e (omega arith);
  })

  step-IsNextRun :
      when.negate ≡ false
      → when.first < lap
      → lap ≤ when.last
      → (lap - when.first) % when.every ≢ 0
      → step ≤ when.last - lap
      → IsNextRun when lap (next_match_from when lap)
  step-IsNextRun n a b z c = rw (next_step a b z c) (record {
    found = inr (
      omega arith,
      omega (arith, w.in_word),
      runs_on-differs when (lap + step) false true (omega arith) n (
          (matches_iff when (lap + step) w (omega (arith, w.in_word))).1 (
            omega arith,
            omega arith,
            (let e : lap + step - when.first ≡ lap - when.first + step = omega arith in
                rw e (add_mod-mod (lap - when.first) when.every w.steps z)),
          )),
    );
    earliest = λ m d e f. between_multiples n a z m d e (omega (arith, f));
  })

  pub plain_IsNextRun : when.negate ≡ false → IsNextRun when lap (next_match_from when lap)
  plain_IsNextRun n = elim (dec_lt when.last lap) [
    | yes p ↦ past_IsNextRun n p
    | no p ↦ elim (dec_le lap when.first) [
      | yes q ↦ first_IsNextRun n (omega arith) q
      | no q ↦ elim (ℕ_discrete ((lap - when.first) % when.every) 0) [
        | yes z ↦ here_IsNextRun n (omega arith) (omega arith) z
        | no z ↦ elim (dec_lt (when.last - lap) step) [
          | yes c ↦ none_IsNextRun n (omega arith) (omega arith) z c
          | no c ↦ step-IsNextRun n (omega arith) (omega arith) z (omega arith)
        ]
      ]
    ]
  ]
