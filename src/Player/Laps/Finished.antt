-- ===== src/Player/Laps/Finished.antt =====
-- What finish_lap of src/player.cpp decides, and which lap it begins.
use aoahid_player.Base.Int.{pos}
use aoahid_player.Base.Words.{add64, add64-eq-add, sub64-eq-sub}
use aoahid_player.Base.{
  ◌≡◌, refl, sym, ap, ◌∙◌, ◌⊎◌, inl, inr, ◌≢◌, ◌≤◌, ◌<◌, ℕ, ◌+◌, ◌-◌, ◌^◌, Bool, true, false, not,
  ◌&&◌, ◌||◌, List, [], ◌∷◌, ltb, leb, ◌==◌, max, arith, when_lem, ==_iff, no_clash,
}
use aoahid_player.Laps.NextRun.{IsNext}
use aoahid_player.Laps.{runs_on}
use aoahid_player.Player.Laps.{Clock, Playback, finish_lap, begin_lap}
use aoahid_player.Player.{RowGroup}
use aoahid_player.Timeline.NextLap.{something_on, counts_on, next_lap-IsNext}
use aoahid_player.Timeline.{Segment, Fits, next_lap, start}

-- counts_on asks for less where time counts too.
weaker :
    (a r t u k : Bool)
    → (a && (((r || false) && u) || (false && k))) ≡ true
    → (a && (((r || t) && u) || (t && k))) ≡ true
weaker a r t u k h = ground arith

either :
    (a b c d : Bool)
    → (a ≡ true → c ≡ true)
    → (b ≡ true → d ≡ true)
    → (a || b) ≡ true
    → (c || d) ≡ true
either true b c d f g h = ap (λ x. x || d) (f refl)
either false b c d f g h = ground (arith, g h)

-- A lap with a row has something on it.
something_on-rows :
    (segments : List Segment) (lap : ℕ)
    → something_on true segments lap ≡ true
    → something_on false segments lap ≡ true
something_on-rows [] lap h = h
something_on-rows (s ∷ rest) lap h =
    either (counts_on true s lap) (something_on true rest lap) (counts_on false s lap)
      (something_on false rest lap)
      (weaker (leb 1 lap) (not (s.begin == s.end)) (ltb 0 s.duration) (runs_on s.when lap)
        (s.when.keep_time))
      (something_on-rows rest lap) h

within_limit : (a b : ℕ) → (ltb 0 a && ltb a b) ≡ true → (0 < a) × (a < b)
within_limit a b h = ground arith

no_limit : (a b : ℕ) → (ltb 0 a && ltb a b) ≡ false → (a ≡ 0) ⊎ (b ≤ a)
no_limit a b h = ground arith

not_zero : (n : ℕ) → (n == 0) ≡ false → n ≢ 0
not_zero n h = ground arith

-- Where a later lap has a row, the earliest lap with something on it is a lap.
next_lap_found :
    (segments : List Segment) (from a b : ℕ)
    → IsNext (something_on true segments) from a
    → IsNext (something_on false segments) from b
    → a ≢ 0
    → (from ≤ b) × (b < 2 ^ 64) × (something_on false segments b ≡ true)
next_lap_found segments from a b x y n = elim (x.found) [
  | inl z ↦ absurd (n z)
  | inr r ↦ elim (y.found) [
    | inr q ↦ q
    | inl z ↦
        absurd (no_clash (sym (something_on-rows segments a r.2) ∙ y.earliest a r.0 r.1 (inl z)))
  ]
]

-- What playback does at the end of a lap.
pub data IsDecided (rows : RowGroup) (clock : Clock) (p : Playback rows clock)
    : Bool → Playback rows clock → Type 0 where
  -- No later lap has a row.
  script_over :
      (q : Playback rows clock)
      → ((m : ℕ) → p.walk.lap < m → m < 2 ^ 64 → something_on true p.script.segments m ≡ false)
      → q.loops ≡ p.walk.lap
      → IsDecided rows clock p false q
  -- The laps that are left below the limit have nothing on them.
  limit_reached :
      (q : Playback rows clock)
      → 0 < p.loop_limit
      → ((m : ℕ)
          → p.walk.lap < m
          → m ≤ p.loop_limit
          → something_on false p.script.segments m ≡ false)
      → q.loops ≡ max p.walk.lap p.loop_limit
      → IsDecided rows clock p false q
  -- The next lap with something on it begins.
  next_begins :
      (q : Playback rows clock) (n : ℕ)
      → p.walk.lap < n
      → something_on false p.script.segments n ≡ true
      → ((m : ℕ) → p.walk.lap < m → m < n → something_on false p.script.segments m ≡ false)
      → (p.loop_limit ≡ 0) ⊎ (n ≤ p.loop_limit)
      → q.walk ≡ start p.script n p.walk
      → q.loops ≡ n - 1
      → q.cursor ≡ pos 0
      → IsDecided rows clock p true q

pub record IsFinished (rows : RowGroup) (clock : Clock) (p : Playback rows clock)
    (r : Bool × Playback rows clock) : Type 0 where
  pub decided : IsDecided rows clock p r.0 r.1

module _ (rows : RowGroup) (clock : Clock) where
  pub finish_lap-IsFinished :
      (p : Playback rows clock)
      → Fits p.script
      → p.walk.lap < 2 ^ 63
      → p.loop_limit < 2 ^ 63
      → IsFinished rows clock p (finish_lap rows clock p)
  unfolding finish_lap begin_lap
  finish_lap-IsFinished p f h k =
      let from = add64 p.walk.lap 1 in
      let plain : from ≡ p.walk.lap + 1 = add64-eq-add p.walk.lap 1 (omega arith) in
      let some_row = next_lap-IsNext p.script from true f (omega (arith, plain)) in
      let some_time = next_lap-IsNext p.script from false f (omega (arith, plain)) in
      let next = next_lap p.script from false in
      when_lem (IsFinished rows clock p) (next_lap p.script from true == 0) _ _
        (λ e. record {
          decided =
              script_over _
                (λ m a b. some_row.earliest m (omega (arith, plain)) b (inl ((==_iff _ 0).0 e)))
                refl;
        })
        (λ e.
          when_lem (IsFinished rows clock p) (ltb 0 p.loop_limit && ltb p.loop_limit next) _ _
            (λ l. record {
              decided =
                  let w = within_limit _ next l in
                  limit_reached _ w.0
                    (λ m a b.
                      some_time.earliest m (omega (arith, plain)) (omega (arith, k))
                        (inr (omega (arith, w.1))))
                    refl;
            })
            (λ l.
              let found =
                next_lap_found p.script.segments from _ next some_row some_time (not_zero _ e) in
              record {
                decided =
                    next_begins _ next (omega (arith, plain, found.0)) found.2
                      (λ m a b.
                        some_time.earliest m (omega (arith, plain)) (omega (arith, found.1))
                          (inr b))
                      (no_limit _ next l) refl
                      (sub64-eq-sub next 1 (omega (arith, plain, found.0)) found.1) refl;
              }))
