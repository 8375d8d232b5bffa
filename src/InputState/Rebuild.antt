-- ===== src/InputState/Rebuild.antt =====
-- state_at of src/input_state.cpp against uninterrupted playback (src/player.cpp plays every row of
-- every lap in turn).
mod Sorted
pub mod Played
mod LastRuns
mod Earlier
use aoahid_player.Base.{
  ℕ, zero, suc, ◌+◌, ◌-◌, ◌≤◌, ◌<◌, ◌^◌, ◌≡◌, ◌≢◌, ◌⊎◌, inl, inr, refl, ap, sym, subst, ◌∙◌, Bool,
  true, false, not, ltb, ◌==◌, if◌then◌else◌, List, [], ◌∷◌, ◌++◌, Option, none, some, get_elem?,
  All, arith,
}
use aoahid_player.Event.Control.{Control}
use aoahid_player.Event.{EventRecord}
use aoahid_player.InputState.Apply.{cleared-IsValid, held-apply_all}
use aoahid_player.InputState.Held.{
  Value, held, effects, effects-append, later, value_or, value_or-later,
}
use aoahid_player.InputState.{
  InputState, cleared, clear, apply_all, apply_order, apply_lap, segment_payloads, sort_by,
  ran_earlier, ran_before, last_run_at, state_at,
}
use aoahid_player.Laps.LastRun.{IsLastRun, last_run_before-IsLastRun}
use aoahid_player.Laps.{IsWellFormed, runs_on, last_run_before}
use aoahid_player.Timeline.Plan.{Stop, plan}
use aoahid_player.Timeline.{Segment, EventScript, Fits, SegmentFits}
use Earlier.{effects-played-none, effects-played-some}
use LastRuns.{
  Winner, nobody, winner, order_effects, held-apply_order, sorted-Winner, RanAt, In-ran_before,
  ran_before-In, ran_before-Distinct, last_run_at-segment, segment_payloads-segment,
}
use Played.{
  payloads_of, played, stops_before, part_effects, segment_effect, effects-stops_before,
  held-apply_lap,
}
use Sorted.{In, by_key, In-sort_by, sort_by-In, sort_by-SortedBy}

by_key_asym : (key : ℕ → ℕ) (a b : ℕ) → by_key key a b ≡ true → by_key key b a ≡ true → ⊥
by_key_asym key a b p q = ground arith

-- The order of state_at, by the name of the comparison.
abbrev sorted : EventScript → ℕ → List ℕ
sorted script lap =
    sort_by (by_key (last_run_at script.segments lap)) (ran_before lap 0 script.segments)

state_at-sorted :
    (script : EventScript) (lap row : ℕ) (out : InputState)
    → state_at script lap row out
      ≡ apply_lap script.rows lap row script.segments
          (apply_order script (sorted script lap) cleared)
unfolding state_at ran_earlier clear
state_at-sorted script lap row out = refl

fits_selector :
    (rows : List EventRecord) (ss : List Segment) (j : ℕ) (g : Segment)
    → All (SegmentFits rows) ss
    → get_elem? ss j ≡ some g
    → IsWellFormed g.when
fits_selector rows [] j g f h = cc
fits_selector rows (x ∷ ss) zero g f h =
    let e : x ≡ g = cc in subst (λ s. IsWellFormed s.when) e (f.0).selector
fits_selector rows (x ∷ ss) (suc j) g f h = fits_selector rows ss j g f.1 h

by_key_le :
    (key : ℕ → ℕ) (i j : ℕ) → (key i < key j) ⊎ ((key i ≤ key j) × (i < j)) → by_key key i j ≡ true
by_key_le key i j h = ground arith

module _ (script : EventScript) (lap : ℕ) (c : Control) (fits : Fits script) (lo : 1 ≤ lap)
    (hi : lap < 2 ^ 64) where
  formed : (j : ℕ) (g : Segment) → get_elem? script.segments j ≡ some g → IsWellFormed g.when
  formed j g = fits_selector script.rows script.segments j g fits.each

  In-sorted :
      (j : ℕ) (g : Segment)
      → get_elem? script.segments j ≡ some g
      → last_run_before g.when lap ≢ 0
      → In j (sorted script lap)
  In-sorted j g h nz =
      let e : 0 + j ≡ j = omega arith in
      sort_by-In (last_run_at script.segments lap) j (ran_before lap 0 script.segments) (
        subst (λ k. In k (ran_before lap 0 script.segments)) e
          (ran_before-In lap 0 j script.segments g h nz))

  -- The segments in the order of their last runs give what the laps before give.
  effects-sorted :
      Winner
        (λ i. effects (segment_payloads script.rows script.segments i) c)
        (by_key (last_run_at script.segments lap))
        (sorted script lap)
      → order_effects
          (λ i. effects (segment_payloads script.rows script.segments i) c)
          (sorted script lap)
        ≡ effects (played script (lap - 1)) c
  effects-sorted (nobody a z) =
      z
      ∙ sym (
          effects-played-none script c lap hi formed
            (λ j g h nz.
              sym (segment_payloads-segment script.rows c j script.segments g h)
              ∙ a j (In-sorted j g h nz))
            (lap - 1) (omega arith))
  effects-sorted (winner i v m e z a) = z ∙ sym (from (ran i m))
    where
      ran : (i : ℕ) → In i (sorted script lap) → RanAt lap i 0 script.segments
      ran i m =
          In-ran_before lap i 0 script.segments
            (In-sort_by (last_run_at script.segments lap) i (ran_before lap 0 script.segments) m)

      from : RanAt lap i 0 script.segments → effects (played script (lap - 1)) c ≡ some v
      from r = run (last_run_before-IsLastRun g.when lap (formed i g here) hi)
        where
          g : Segment
          g = r.segment

          here : get_elem? script.segments i ≡ some g
          here =
              let e : r.place ≡ i = omega (arith, r.counted) in
              subst (λ k. get_elem? script.segments k ≡ some r.segment) e r.here

          run :
              IsLastRun g.when lap (last_run_before g.when lap)
              → effects (played script (lap - 1)) c ≡ some v
          run last = elim last.found [
            | inl q ↦ absurd (r.ran q)
            | inr (one, below, on) ↦
                effects-played-some script c lap hi formed i g v here one on
                  (sym (segment_payloads-segment script.rows c i script.segments g here) ∙ e)
                  (λ j k q t.
                    sym (segment_payloads-segment script.rows c j script.segments k q)
                    ∙ a j (In-sorted j k q (omega arith)) (
                        by_key_le (last_run_at script.segments lap) i j (
                          rw
                            (
                              last_run_at-segment lap i script.segments g here,
                              last_run_at-segment lap j script.segments k q,
                            )
                            t)))
                  (lap - 1) (omega arith) (omega arith)
          ]

  -- The state that playback has at a row, worked out from each segment's last run, holds for every
  -- control what it holds after every row of laps 1 to `lap - 1` and the rows of lap `lap` before
  -- `row`, applied one after another from a cleared state. The script fits, and `lap` is at least 1
  -- and below 2 ^ 64.
  pub state_at-played :
      (row : ℕ) (out : InputState)
      → held (state_at script lap row out) c
        ≡ held
            (apply_all cleared (
              played script (lap - 1)
              ++ payloads_of script.rows (stops_before row (plan script lap))))
            c
  state_at-played row out =
      let rest = payloads_of script.rows (stops_before row (plan script lap)) in
      let part = part_effects script.rows c lap row script.segments in
      let done = effects (played script (lap - 1)) c in
      let order = held-apply_order script c (sorted script lap) cleared cleared-IsValid in
      let win =
        sorted-Winner (λ i. effects (segment_payloads script.rows script.segments i) c)
          (by_key (last_run_at script.segments lap)) (by_key_asym (last_run_at script.segments lap))
          (sorted script lap)
          (sort_by-SortedBy (last_run_at script.segments lap) (ran_before lap 0 script.segments)
            (ran_before-Distinct lap 0 script.segments)) in
      ap (λ s. held s c) (state_at-sorted script lap row out)
      ∙ held-apply_lap script.rows c lap row script.segments
          (apply_order script (sorted script lap) cleared) order.1
      ∙ ap (value_or part) (order.0 ∙ ap (λ o. value_or o (held cleared c)) (effects-sorted win))
      ∙ sym (value_or-later part done (held cleared c))
      ∙ ap (λ o. value_or o (held cleared c))
          (sym (
            effects-append (played script (lap - 1)) rest c
            ∙ ap (λ o. later o done)
                (effects-stops_before script.rows c lap row 0 script.segments)))
      ∙ sym (held-apply_all cleared (played script (lap - 1) ++ rest) c cleared-IsValid)
