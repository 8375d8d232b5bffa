-- ===== src/Laps/NextRun/Other.antt =====
-- next_run_from of src/event_script.cpp for an @else block.
use aoahid_player.Base.Words.{u64_max}
use aoahid_player.Base.{
  ℕ, ◌+◌, ◌-◌, ◌^◌, ◌≤◌, ◌<◌, max, ◌≡◌, inl, inr, true, false, arith, dec_lt, refl,
}
use aoahid_player.Laps.Multiples.{suc_mod-ne-zero}
use aoahid_player.Laps.NextRun.Defs.{IsNextRun}
use aoahid_player.Laps.Runs.{matches_iff, matches-eq-false, runs_on-differs}
use aoahid_player.Laps.{LapSelector, IsWellFormed, matches, runs_on, next_match_from, next_run_from}

module _ (when : LapSelector) (lap : ℕ) (w : IsWellFormed when) (lo : 1 ≤ lap)
    (hi : lap < 2 ^ 64) where
  other_here : when.negate ≡ true → matches when lap ≡ false → next_run_from when lap ≡ lap
  unfolding next_run_from
  other_here n f = let e : max lap 1 ≡ lap = omega arith in rw (e, next_run_from) (ground arith)

  other_step :
      when.negate ≡ true
      → matches when lap ≡ true
      → 1 < when.every
      → lap < u64_max
      → next_run_from when lap ≡ lap + 1
  unfolding next_run_from
  other_step n t s h = let e : max lap 1 ≡ lap = omega arith in rw (e, next_run_from) (ground arith)

  other_step_none :
      when.negate ≡ true
      → matches when lap ≡ true
      → 1 < when.every
      → lap ≡ u64_max
      → next_run_from when lap ≡ 0
  unfolding next_run_from
  other_step_none n t s h =
      let e : max lap 1 ≡ lap = omega arith in rw (e, next_run_from) (ground arith)

  other_all :
      when.negate ≡ true
      → matches when lap ≡ true
      → when.every ≡ 1
      → when.last < u64_max
      → next_run_from when lap ≡ when.last + 1
  unfolding next_run_from
  other_all n t s h = let e : max lap 1 ≡ lap = omega arith in rw (e, next_run_from) (ground arith)

  other_all_none :
      when.negate ≡ true
      → matches when lap ≡ true
      → when.every ≡ 1
      → when.last ≡ u64_max
      → next_run_from when lap ≡ 0
  unfolding next_run_from
  other_all_none n t s h =
      let e : max lap 1 ≡ lap = omega arith in rw (e, next_run_from) (ground arith)

  pub plain : when.negate ≡ false → next_run_from when lap ≡ next_match_from when lap
  unfolding next_run_from
  plain n = let e : max lap 1 ≡ lap = omega arith in rw (e, next_run_from) (ground arith)

  -- A lap that matches is one that an @else block skips.
  not_runs : when.negate ≡ true → (m : ℕ) → 1 ≤ m → matches when m ≡ true → runs_on when m ≡ false
  not_runs n m h t = runs_on-differs when m true true h n t

  pub other_here_IsNextRun :
      when.negate ≡ true → matches when lap ≡ false → IsNextRun when lap (next_run_from when lap)
  other_here_IsNextRun n f = rw (other_here n f) (record {
    found = inr (omega arith, hi, runs_on-differs when lap true false lo n f);
    earliest = λ m a b c. absurd (omega (arith, c));
  })

  pub other_step_IsNextRun :
      when.negate ≡ true
      → matches when lap ≡ true
      → 1 < when.every
      → IsNextRun when lap (next_run_from when lap)
  other_step_IsNextRun n t s = elim (dec_lt lap u64_max) [
    | yes h ↦ rw (other_step n t s h) (record {
      found = inr (
        omega arith,
        omega arith,
        runs_on-differs when (lap + 1) true false (omega arith) n (
            matches-eq-false when (lap + 1) w (omega arith) (λ a b z.
              suc_mod-ne-zero (lap - when.first) when.every s ((matches_iff when lap w hi).0 t).2 (
                let f = ((matches_iff when lap w hi).0 t).0 in
                let e : lap - when.first + 1 ≡ lap + 1 - when.first = omega arith in rw e z))),
      );
      earliest = λ m a b c. let e : m ≡ lap = omega (arith, c) in rw e (not_runs n lap lo t);
    })
    | no h ↦ rw (other_step_none n t s (omega arith)) (record {
      found = inl refl;
      earliest = λ m a b c. let e : m ≡ lap = omega arith in rw e (not_runs n lap lo t);
    })
  ]

  all_match :
      matches when lap ≡ true
      → when.every ≡ 1
      → (m : ℕ) → lap ≤ m
      → m ≤ when.last
      → m < 2 ^ 64
      → matches when m ≡ true
  all_match t s m a b c =
      let (f, l, z) = (matches_iff when lap w hi).0 t in
      (matches_iff when m w c).1 (omega arith, b, rw s (omega arith))

  pub other_all_IsNextRun :
      when.negate ≡ true
      → matches when lap ≡ true
      → when.every ≡ 1
      → IsNextRun when lap (next_run_from when lap)
  other_all_IsNextRun n t s = elim (dec_lt when.last u64_max) [
    | yes h ↦ rw (other_all n t s h) (record {
      found = inr (
        omega (arith, ((matches_iff when lap w hi).0 t).1),
        omega arith,
        runs_on-differs when (when.last + 1) true false (omega arith) n
            (matches-eq-false when (when.last + 1) w (omega arith) (λ a b z. omega arith)),
      );
      earliest = λ m a b c. not_runs n m (omega arith) (all_match t s m a (omega (arith, c)) b);
    })
    | no h ↦ rw (other_all_none n t s (omega (arith, w.in_word))) (record {
      found = inl refl;
      earliest =
          λ m a b c. not_runs n m (omega arith) (all_match t s m a (omega (arith, w.in_word)) b);
    })
  ]
