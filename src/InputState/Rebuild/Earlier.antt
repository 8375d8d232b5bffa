-- ===== src/InputState/Rebuild/Earlier.antt =====
-- The value that the laps before `lap` leave a control at (include/aoahid_player/event_script.hpp),
-- from the last run of each segment.
use aoahid_player.Base.{
  ℕ, zero, suc, ◌≤◌, ◌<◌, ◌^◌, ◌≡◌, ◌≢◌, ◌⊎◌, inl, inr, refl, ap, sym, ◌∙◌, true, false, none, some,
  get_elem?, dec_lt, arith,
}
use aoahid_player.Event.Control.{Control}
use aoahid_player.InputState.Held.{Value, effects, effects-append, later}
use aoahid_player.InputState.Rebuild.LastRuns.{lap_effects-none, lap_effects-some}
use aoahid_player.InputState.Rebuild.Played.{
  played, payloads_of, lap_effects, segment_effect, effects-plan_over,
}
use aoahid_player.Laps.LastRun.{last_run_before-IsLastRun}
use aoahid_player.Laps.{LapSelector, IsWellFormed, runs_on, last_run_before}
use aoahid_player.Timeline.Plan.{plan}
use aoahid_player.Timeline.{Segment, EventScript}

effects-played :
    (script : EventScript) (c : Control) (n : ℕ)
    → effects (played script (suc n)) c
      ≡ later (lap_effects script.rows c (suc n) script.segments) (effects (played script n) c)
effects-played script c n =
    effects-append (played script n) (payloads_of script.rows (plan script (suc n))) c
    ∙ ap (λ o. later o (effects (played script n) c))
        (effects-plan_over script.rows c (suc n) 0 script.segments)

-- A lap that the block runs on is not after its last run.
last_run_before-le :
    (when : LapSelector) (lap m : ℕ)
    → IsWellFormed when
    → lap < 2 ^ 64
    → m < lap
    → runs_on when m ≡ true
    → m ≤ last_run_before when lap
last_run_before-le when lap m w hi below r = elim (dec_lt (last_run_before when lap) m) [
  | no within ↦ omega arith
  | yes above ↦
      let last = last_run_before-IsLastRun when lap w hi in
      let f : runs_on when m ≡ false = last.latest m above below in absurd cc
]

module _ (script : EventScript) (c : Control) (lap : ℕ) (hi : lap < 2 ^ 64)
    (formed : (j : ℕ) (g : Segment)
      → get_elem? script.segments j ≡ some g
      → IsWellFormed g.when) where
  -- No segment that ran gives the control a value.
  pub effects-played-none :
      ((j : ℕ) (g : Segment)
        → get_elem? script.segments j ≡ some g
        → last_run_before g.when lap ≢ 0
        → segment_effect script.rows c g ≡ none)
      → (n : ℕ) → n < lap
      → effects (played script n) c ≡ none
  effects-played-none a zero below = unfold effects in refl
  effects-played-none a (suc n) below =
      effects-played script c n
      ∙ rw
          (
            lap_effects-none script.rows c (suc n) script.segments (λ j g h r.
                a j g h
                  (omega (arith, last_run_before-le g.when lap (suc n) (formed j g h) hi below r))),
            effects-played-none a n (omega arith),
          )
          refl

  -- Segment `x` gives it one, and no segment whose last run is later, nor a later one of its lap.
  pub effects-played-some :
      (x : ℕ) (g : Segment) (v : Value)
      → get_elem? script.segments x ≡ some g
      → 1 ≤ last_run_before g.when lap
      → runs_on g.when (last_run_before g.when lap) ≡ true
      → segment_effect script.rows c g ≡ some v
      → ((j : ℕ) (h : Segment)
          → get_elem? script.segments j ≡ some h
          → (last_run_before g.when lap < last_run_before h.when lap)
            ⊎ ((last_run_before g.when lap ≤ last_run_before h.when lap) × (x < j))
          → segment_effect script.rows c h ≡ none)
      → (n : ℕ) → last_run_before g.when lap ≤ n
      → n < lap
      → effects (played script n) c ≡ some v
  effects-played-some x g v h one r e a zero above below = absurd (omega arith)
  effects-played-some x g v h one r e a (suc n) above below =
      elim (dec_lt (last_run_before g.when lap) (suc n)) [
        | yes earlier ↦
            effects-played script c n
            ∙ rw
                (
                  lap_effects-none script.rows c (suc n) script.segments (λ j k q t. a j k q (
                      inl (
                        omega (
                          arith,
                          last_run_before-le k.when lap (suc n) (formed j k q) hi below t,
                        )))),
                  effects-played-some x g v h one r e a n (omega arith) (omega arith),
                )
                refl
        | no now ↦
            let same : last_run_before g.when lap ≡ suc n = omega arith in
            effects-played script c n
            ∙ rw
                (lap_effects-some script.rows c (suc n) x script.segments g v h
                  (ap (runs_on g.when) (sym same) ∙ r) e
                  (λ j k lt q t. a j k q (
                    inr (
                      omega
                          (arith, last_run_before-le k.when lap (suc n) (formed j k q) hi below t),
                      lt,
                    ))))
                refl
      ]
