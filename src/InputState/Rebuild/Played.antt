-- ===== src/InputState/Rebuild/Played.antt =====
-- Uninterrupted playback, as the rows that the plans of the laps list (src/event_script.cpp), and the
-- value that it leaves a control at, segment by segment.
use mathlib.Core.List.{map-append}
use aoahid_player.Base.{
  ℕ, zero, suc, ◌+◌, ◌-◌, min, ◌≡◌, refl, ap, sym, ◌∙◌, true, false, Option, none, List, [], ◌∷◌,
  ◌++◌, map, ltb, ltb_iff, ◌<◌, ◌≤◌, if◌then◌else◌, Bool-cases, inl, inr, arith,
}
use aoahid_player.Event.Control.{Control}
use aoahid_player.Event.{EventPayload, EventRecord}
use aoahid_player.InputState.Apply.{IsValid, apply_all-IsValid, held-apply_all}
use aoahid_player.InputState.Held.{
  Value, held, effects, effects-append, later, later-none, value_or, value_or-later,
}
use aoahid_player.InputState.{InputState, apply_all, apply_lap, payloads}
use aoahid_player.Laps.{runs_on}
use aoahid_player.Timeline.Plan.{Stop, stops_at, plan_over, plan}
use aoahid_player.Timeline.{Segment, EventScript, row_at}

abbrev pub payloads_of : List EventRecord → List Stop → List EventPayload
payloads_of rows = map (λ s. (row_at rows s.row).payload)

-- The rows of laps 1 to `laps`, in the order in which they run.
abbrev pub played : EventScript → ℕ → List EventPayload
played script zero = []
played script (suc n) = played script n ++ payloads_of script.rows (plan script (suc n))

-- The stops on rows before `row`.
abbrev pub stops_before : ℕ → List Stop → List Stop
stops_before row [] = []
stops_before row (s ∷ ss) = if ltb s.row row then s ∷ stops_before row ss else stops_before row ss

-- The value that one segment gives a control when it runs whole.
abbrev pub segment_effect : List EventRecord → Control → Segment → Option Value
segment_effect rows c g = effects (payloads rows g.begin (g.end - g.begin)) c

-- The value that a lap gives a control.
abbrev pub lap_effects : List EventRecord → Control → ℕ → List Segment → Option Value
lap_effects rows c lap [] = none
lap_effects rows c lap (g ∷ gs) =
    later (lap_effects rows c lap gs) (if runs_on g.when lap then segment_effect rows c g else none)

payloads_of-stops_at :
    (rows : List EventRecord) (at n time : ℕ)
    → payloads_of rows (stops_at rows at n time) ≡ payloads rows at n
payloads_of-stops_at rows at zero time = refl
payloads_of-stops_at rows at (suc n) time =
    ap (◌∷◌ (row_at rows at).payload) (payloads_of-stops_at rows (suc at) n _)

pub effects-plan_over :
    (rows : List EventRecord) (c : Control) (lap time : ℕ) (ss : List Segment)
    → effects (payloads_of rows (plan_over rows lap time ss)) c ≡ lap_effects rows c lap ss
effects-plan_over rows c lap time [] = unfold effects in refl
effects-plan_over rows c lap time (g ∷ gs) = elim (Bool-cases (runs_on g.when lap)) [
  | inl r ↦
      rw
        (
          r,
          map-append (λ s. (row_at rows s.row).payload)
              (stops_at rows g.begin (g.end - g.begin) (time + g.lead_ns))
              (plan_over rows lap (time + g.duration) gs),
          payloads_of-stops_at rows g.begin (g.end - g.begin) (time + g.lead_ns),
          effects-append (payloads rows g.begin (g.end - g.begin))
              (payloads_of rows (plan_over rows lap (time + g.duration) gs)) c,
          effects-plan_over rows c lap (time + g.duration) gs,
        )
        refl
  | inr r ↦ rw r (
      effects-plan_over rows c lap (if g.when.keep_time then time + g.duration else time) gs
      ∙ sym (later-none (lap_effects rows c lap gs)))
]

-- The same for the part of the lap before a row.
abbrev pub part_effects : List EventRecord → Control → ℕ → ℕ → List Segment → Option Value
part_effects rows c lap row [] = none
part_effects rows c lap row (g ∷ gs) = later (part_effects rows c lap row gs) (
    if runs_on g.when lap
    then effects (payloads rows g.begin (min g.end row - g.begin)) c
    else none)

stops_before-stops_at :
    (rows : List EventRecord) (row at n time : ℕ)
    → payloads_of rows (stops_before row (stops_at rows at n time))
      ≡ payloads rows at (min n (row - at))
stops_before-stops_at rows row at zero time =
    let e : min 0 (row - at) ≡ 0 = omega arith in rw e refl
stops_before-stops_at rows row at (suc n) time = elim (Bool-cases (ltb at row)) [
  | inl lt ↦
      let p : at < row = (ltb_iff at row).0 lt in
      let e : min (suc n) (row - at) ≡ suc (min n (row - suc at)) = omega arith in
      rw (lt, e) (ap (◌∷◌ (row_at rows at).payload) (stops_before-stops_at rows row (suc at) n _))
  | inr ge ↦
      let p : row ≤ at = ground arith in
      let e : min (suc n) (row - at) ≡ 0 = omega arith in
      let f : min n (row - suc at) ≡ 0 = omega arith in
      rw (ge, e) (stops_before-stops_at rows row (suc at) n _ ∙ rw f refl)
]

stops_before-append :
    (row : ℕ) (xs ys : List Stop)
    → stops_before row (xs ++ ys) ≡ stops_before row xs ++ stops_before row ys
stops_before-append row [] ys = refl
stops_before-append row (x ∷ xs) ys = ground (arith, stops_before-append row xs ys)

pub effects-stops_before :
    (rows : List EventRecord) (c : Control) (lap row time : ℕ) (ss : List Segment)
    → effects (payloads_of rows (stops_before row (plan_over rows lap time ss))) c
      ≡ part_effects rows c lap row ss
effects-stops_before rows c lap row time [] = unfold effects in refl
effects-stops_before rows c lap row time (g ∷ gs) = elim (Bool-cases (runs_on g.when lap)) [
  | inl r ↦
      let here = stops_at rows g.begin (g.end - g.begin) (time + g.lead_ns) in
      let rest = plan_over rows lap (time + g.duration) gs in
      let size : min (g.end - g.begin) (row - g.begin) ≡ min g.end row - g.begin = omega arith in
      rw
        (
          r,
          stops_before-append row here rest,
          map-append (λ s. (row_at rows s.row).payload) (stops_before row here)
              (stops_before row rest),
          stops_before-stops_at rows row g.begin (g.end - g.begin) (time + g.lead_ns),
          size,
          effects-append (payloads rows g.begin (min g.end row - g.begin))
              (payloads_of rows (stops_before row rest)) c,
          effects-stops_before rows c lap row (time + g.duration) gs,
        )
        refl
  | inr r ↦ rw r (
      effects-stops_before rows c lap row (if g.when.keep_time then time + g.duration else time) gs
      ∙ sym (later-none (part_effects rows c lap row gs)))
]

module _ (rows : List EventRecord) (lap row : ℕ) (g : Segment) (gs : List Segment)
    (s : InputState) where
  apply_lap_runs :
      runs_on g.when lap ≡ true
      → apply_lap rows lap row (g ∷ gs) s
        ≡ apply_lap rows lap row gs (apply_all s (payloads rows g.begin (min g.end row - g.begin)))
  unfolding apply_lap
  apply_lap_runs r = rw (r, apply_lap) refl

  apply_lap_skips :
      runs_on g.when lap ≡ false → apply_lap rows lap row (g ∷ gs) s ≡ apply_lap rows lap row gs s
  unfolding apply_lap
  apply_lap_skips r = rw (r, apply_lap) refl

-- The loop of state_at over the lap of the row.
pub held-apply_lap :
    (rows : List EventRecord) (c : Control) (lap row : ℕ) (ss : List Segment) (s : InputState)
    → IsValid s
    → held (apply_lap rows lap row ss s) c ≡ value_or (part_effects rows c lap row ss) (held s c)
held-apply_lap rows c lap row [] s v = unfold apply_lap in refl
held-apply_lap rows c lap row (g ∷ gs) s v = elim (Bool-cases (runs_on g.when lap)) [
  | inl r ↦
      let es = payloads rows g.begin (min g.end row - g.begin) in
      rw (apply_lap_runs rows lap row g gs s r, r)
        (held-apply_lap rows c lap row gs (apply_all s es) (apply_all-IsValid s es v)
          ∙ ap (value_or (part_effects rows c lap row gs)) (held-apply_all s es c v)
          ∙ sym (value_or-later (part_effects rows c lap row gs) (effects es c) (held s c)))
  | inr r ↦
      rw (apply_lap_skips rows lap row g gs s r, r)
        (held-apply_lap rows c lap row gs s v
          ∙ ap (λ o. value_or o (held s c)) (sym (later-none (part_effects rows c lap row gs))))
]
