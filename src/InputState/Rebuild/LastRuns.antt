-- ===== src/InputState/Rebuild/LastRuns.antt =====
-- Why state_at of src/input_state.cpp may apply each segment once: the value that a control has
-- after the earlier laps comes from the last run of a segment.
use aoahid_player.Base.{
  ℕ, zero, suc, ◌+◌, ◌<◌, ◌≡◌, ◌≢◌, ◌⊎◌, inl, inr, refl, ap, sym, ◌∙◌, Bool, true, false, Option,
  none, some, List, [], ◌∷◌, get_elem?, ◌==◌, Bool-cases, Option-cases, arith,
}
use aoahid_player.Event.Control.{Control}
use aoahid_player.Event.{EventRecord}
use aoahid_player.InputState.Apply.{IsValid, apply_all-IsValid, held-apply_all}
use aoahid_player.InputState.Held.{Value, held, effects, later, value_or, value_or-later}
use aoahid_player.InputState.Rebuild.Played.{segment_effect, lap_effects}
use aoahid_player.InputState.Rebuild.Sorted.{In, SortedBy, Distinct}
use aoahid_player.InputState.{
  InputState, apply_all, apply_order, ran_before, last_run_at, segment_payloads,
}
use aoahid_player.Laps.{runs_on, last_run_before}
use aoahid_player.Timeline.{Segment, EventScript}

-- The value that a sequence of segments, each run whole, gives a control.
abbrev pub order_effects : (ℕ → Option Value) → List ℕ → Option Value
order_effects e [] = none
order_effects e (i ∷ is) = later (order_effects e is) (e i)

pub held-apply_order :
    (script : EventScript) (c : Control) (order : List ℕ) (s : InputState)
    → IsValid s
    → (held (apply_order script order s) c
        ≡ value_or
            (order_effects (λ i. effects (segment_payloads script.rows script.segments i) c) order)
            (held s c))
      × IsValid (apply_order script order s)
unfolding apply_order
held-apply_order script c [] s v = (refl, v)
held-apply_order script c (i ∷ is) s v =
    let es = segment_payloads script.rows script.segments i in
    let r = held-apply_order script c is (apply_all s es) (apply_all-IsValid s es v) in
    (
      r.0
          ∙ ap
              (value_or (
                order_effects (λ i. effects (segment_payloads script.rows script.segments i) c) is))
              (held-apply_all s es c v)
          ∙ sym (
              value_or-later
                (order_effects (λ i. effects (segment_payloads script.rows script.segments i) c) is)
                (effects es c) (held s c)),
      r.1,
    )

-- Either no segment of the sequence gives the control a value, or one does and none behind it in the
-- order.
pub data Winner (e : ℕ → Option Value) (less : ℕ → ℕ → Bool) (l : List ℕ) : Type 0 where
  nobody : ((i : ℕ) → In i l → e i ≡ none) → order_effects e l ≡ none → Winner e less l
  winner :
      (i : ℕ) (v : Value)
      → In i l
      → e i ≡ some v
      → order_effects e l ≡ some v
      → ((j : ℕ) → In j l → less i j ≡ true → e j ≡ none)
      → Winner e less l

module _ (e : ℕ → Option Value) (less : ℕ → ℕ → Bool)
    (asym : (a b : ℕ) → less a b ≡ true → less b a ≡ true → ⊥) where
  pub sorted-Winner : (l : List ℕ) → SortedBy less l → Winner e less l
  sorted-Winner [] s = nobody (λ i j. absurd j) refl
  sorted-Winner (x ∷ xs) s = extend (sorted-Winner xs s.1)
    where
      behind_head :
          ((j : ℕ) → In j xs → e j ≡ none)
          → (j : ℕ) → (j ≡ x) ⊎ In j xs
          → less x j ≡ true
          → e j ≡ none
      behind_head a j (inl q) t = absurd (asym x x (rw q at t) (rw q at t))
      behind_head a j (inr k) t = a j k

      behind_rest :
          (i : ℕ)
          → In i xs
          → ((j : ℕ) → In j xs → less i j ≡ true → e j ≡ none)
          → (j : ℕ) → (j ≡ x) ⊎ In j xs
          → less i j ≡ true
          → e j ≡ none
      behind_rest i m a j (inl q) t = absurd (asym x i (s.0 i m) (rw q at t))
      behind_rest i m a j (inr k) t = a j k t

      nobody_either :
          ((j : ℕ) → In j xs → e j ≡ none) → e x ≡ none → (j : ℕ) → (j ≡ x) ⊎ In j xs → e j ≡ none
      nobody_either a h j (inl q) = rw q h
      nobody_either a h j (inr k) = a j k

      extend : Winner e less xs → Winner e less (x ∷ xs)
      extend (winner i v m h z a) = winner i v (inr m) h (rw z refl) (behind_rest i m a)
      extend (nobody a z) = elim (Option-cases (e x)) [
        | inl h ↦ nobody (nobody_either a h) (rw (z, h) refl)
        | inr (v, h) ↦ winner x v (inl refl) h (rw (z, h) refl) (behind_head a)
      ]

-- Index `i`, counted from `k`, is that of a segment that ran before the lap.
pub record RanAt (lap i k : ℕ) (ss : List Segment) : Type 0 where
  pub place : ℕ
  pub segment : Segment
  pub counted : i ≡ k + place
  pub here : get_elem? ss place ≡ some segment
  pub ran : last_run_before segment.when lap ≢ 0

RanAt-cons :
    {lap i k : ℕ} {g : Segment} {gs : List Segment}
    → RanAt lap i (suc k) gs
    → RanAt lap i k (g ∷ gs)
RanAt-cons r = record {
  place = suc r.place;
  segment = r.segment;
  counted = omega (arith, r.counted);
  here = r.here;
  ran = r.ran;
}

pub In-ran_before :
    (lap i k : ℕ) (ss : List Segment) → In i (ran_before lap k ss) → RanAt lap i k ss
unfolding ran_before
In-ran_before lap i k [] m = absurd m
In-ran_before lap i k (g ∷ gs) m = elim (Bool-cases (last_run_before g.when lap == 0)) [
  | inl z ↦ RanAt-cons (In-ran_before lap i (suc k) gs (rw (z, ran_before) at m))
  | inr nz ↦ first_or (ground arith) (rw (nz, ran_before) at m) (In-ran_before lap i (suc k) gs)
]
  where
    first_or :
        last_run_before g.when lap ≢ 0
        → (i ≡ k) ⊎ In i (ran_before lap (suc k) gs)
        → (In i (ran_before lap (suc k) gs) → RanAt lap i (suc k) gs)
        → RanAt lap i k (g ∷ gs)
    first_or nz (inl e) ih = record {
      place = 0;
      segment = g;
      counted = omega (arith, e);
      here = refl;
      ran = nz;
    }
    first_or nz (inr n) ih = RanAt-cons (ih n)

pub ran_before-In :
    (lap k j : ℕ) (ss : List Segment) (g : Segment)
    → get_elem? ss j ≡ some g
    → last_run_before g.when lap ≢ 0
    → In (k + j) (ran_before lap k ss)
unfolding ran_before
ran_before-In lap k j [] g h nz = cc
ran_before-In lap k zero (x ∷ ss) g h nz =
    let f : (last_run_before x.when lap == 0) ≡ false = ground arith in
    rw (f, ran_before) (inl (omega arith))
ran_before-In lap k (suc j) (x ∷ ss) g h nz =
    let e : k + suc j ≡ suc k + j = omega arith in
    rw e (elim (Bool-cases (last_run_before x.when lap == 0)) [
      | inl z ↦ rw (z, ran_before) (ran_before-In lap (suc k) j ss g h nz)
      | inr f ↦ rw (f, ran_before) (inr (ran_before-In lap (suc k) j ss g h nz))
    ])

pub ran_before-Distinct : (lap k : ℕ) (ss : List Segment) → Distinct (ran_before lap k ss)
unfolding ran_before
ran_before-Distinct lap k [] = tt
ran_before-Distinct lap k (g ∷ gs) = elim (Bool-cases (last_run_before g.when lap == 0)) [
  | inl z ↦ rw (z, ran_before) (ran_before-Distinct lap (suc k) gs)
  | inr f ↦
      rw (f, ran_before)
        (
          λ i. let r = In-ran_before lap k (suc k) gs i in omega (arith, r.counted),
          ran_before-Distinct lap (suc k) gs,
        )
]

pub last_run_at-segment :
    (lap j : ℕ) (ss : List Segment) (g : Segment)
    → get_elem? ss j ≡ some g
    → last_run_at ss lap j ≡ last_run_before g.when lap
last_run_at-segment lap j [] g h = cc
last_run_at-segment lap zero (x ∷ ss) g h = cc
last_run_at-segment lap (suc j) (x ∷ ss) g h = last_run_at-segment lap j ss g h

module _ (rows : List EventRecord) (c : Control) where
  pub segment_payloads-segment :
      (j : ℕ) (ss : List Segment) (g : Segment)
      → get_elem? ss j ≡ some g
      → effects (segment_payloads rows ss j) c ≡ segment_effect rows c g
  segment_payloads-segment j [] g h = cc
  segment_payloads-segment zero (x ∷ ss) g h = cc
  segment_payloads-segment (suc j) (x ∷ ss) g h = segment_payloads-segment j ss g h

  -- A lap on which no segment that runs gives the control a value.
  pub lap_effects-none :
      (lap : ℕ) (ss : List Segment)
      → ((j : ℕ) (g : Segment)
          → get_elem? ss j ≡ some g
          → runs_on g.when lap ≡ true
          → segment_effect rows c g ≡ none)
      → lap_effects rows c lap ss ≡ none
  lap_effects-none lap [] a = refl
  lap_effects-none lap (g ∷ gs) a = elim (Bool-cases (runs_on g.when lap)) [
    | inl r ↦ rw (r, lap_effects-none lap gs (λ j. a (suc j)), a 0 g refl r) refl
    | inr r ↦ rw (r, lap_effects-none lap gs (λ j. a (suc j))) refl
  ]

  -- A lap on which one does, and no later one.
  pub lap_effects-some :
      (lap x : ℕ) (ss : List Segment) (g : Segment) (v : Value)
      → get_elem? ss x ≡ some g
      → runs_on g.when lap ≡ true
      → segment_effect rows c g ≡ some v
      → ((j : ℕ) (h : Segment)
          → x < j
          → get_elem? ss j ≡ some h
          → runs_on h.when lap ≡ true
          → segment_effect rows c h ≡ none)
      → lap_effects rows c lap ss ≡ some v
  lap_effects-some lap x [] g v h r e a = cc
  lap_effects-some lap zero (y ∷ ss) g v h r e a =
      let same : y ≡ g = cc in
      let runs : runs_on y.when lap ≡ true = ap (λ s. runs_on s.when lap) same ∙ r in
      let value : segment_effect rows c y ≡ some v = ap (segment_effect rows c) same ∙ e in
      rw (runs, lap_effects-none lap ss (λ j k. a (suc j) k (omega arith)), value) refl
  lap_effects-some lap (suc x) (y ∷ ss) g v h r e a =
      rw (lap_effects-some lap x ss g v h r e (λ j k lt. a (suc j) k (omega arith))) refl
