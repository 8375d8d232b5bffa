-- ===== src/Laps/Runs.antt =====
-- runs_on as arithmetic: the laps of a block are first, first + every, … up to last.
use aoahid_player.Base.Words.{sub64-eq-sub}
use aoahid_player.Base.{
  ℕ, ◌+◌, ◌-◌, ◌*◌, ◌/◌, ◌%◌, ◌^◌, ◌≤◌, ◌<◌, ◌≡◌, ◌↔◌, Bool, true, false, arith, Bool-cases, refl,
  inl, inr,
}
use aoahid_player.Laps.Multiples.{div-mul, mod-eq-zero}
use aoahid_player.Laps.{LapSelector, IsWellFormed, matches, runs_on, differs}

-- `lap` is one of first, first + every, … up to last.
abbrev pub InBlock : LapSelector → ℕ → Type 0
InBlock when lap = (k : ℕ) × (lap ≡ when.first + k * when.every) × (lap ≤ when.last)

-- The test with the wrapping difference replaced by the difference.
pub matches_iff :
    (when : LapSelector) (lap : ℕ)
    → IsWellFormed when
    → lap < 2 ^ 64
    → (matches when lap ≡ true)
      ↔ ((when.first ≤ lap) × (lap ≤ when.last) × ((lap - when.first) % when.every ≡ 0))
unfolding matches
matches_iff when lap w h = (
  λ m. ground (arith, sub64-eq-sub lap when.first),
  λ (a, b, c). ground (arith, sub64-eq-sub lap when.first),
)

-- Its negation, at a lap that some condition excludes.
pub matches-eq-false :
    (when : LapSelector) (lap : ℕ)
    → IsWellFormed when
    → lap < 2 ^ 64
    → (when.first ≤ lap → lap ≤ when.last → (lap - when.first) % when.every ≡ 0 → ⊥)
    → matches when lap ≡ false
matches-eq-false when lap w h excluded = elim (Bool-cases (matches when lap)) [
  | inl t ↦ let (a, b, c) = (matches_iff when lap w h).0 t in absurd (excluded a b c)
  | inr f ↦ f
]

pub runs_on-differs :
    (when : LapSelector) (lap : ℕ) (n b : Bool)
    → 1 ≤ lap
    → when.negate ≡ n
    → matches when lap ≡ b
    → runs_on when lap ≡ differs b n
unfolding runs_on
runs_on-differs when lap n b h e f = rw (f, e) (ground arith)

pub matches-InBlock :
    (when : LapSelector) (lap : ℕ)
    → IsWellFormed when
    → lap < 2 ^ 64
    → (matches when lap ≡ true) ↔ InBlock when lap
matches-InBlock when lap w h = (
  λ m.
      let (lo, hi, z) = (matches_iff when lap w h).0 m in
      ((lap - when.first) / when.every, omega (arith, div-mul _ when.every w.steps z), hi),
  λ (k, e, hi). (matches_iff when lap w h).1 (
    omega arith,
    hi,
    let d : lap - when.first ≡ k * when.every = omega arith in
        rw d (mod-eq-zero k when.every w.steps),
  ),
)

abbrev pub IsMember : Bool → LapSelector → ℕ → Type 0
IsMember false when lap = InBlock when lap
IsMember true when lap = ¬ InBlock when lap

-- From lap 1 on, a block runs exactly on the laps first, first + every, … up to last, and a negated
-- (@else) one exactly on the other laps.
pub runs_on-IsMember :
    (when : LapSelector) (lap : ℕ)
    → IsWellFormed when
    → 1 ≤ lap
    → lap < 2 ^ 64
    → (runs_on when lap ≡ true) ↔ IsMember when.negate when lap
unfolding runs_on
runs_on-IsMember when lap w lo hi = by_negate when.negate refl
  where
    i : (matches when lap ≡ true) ↔ InBlock when lap
    i = matches-InBlock when lap w hi

    runs : (runs_on when lap) ≡ differs (matches when lap) when.negate
    runs = ground arith

    by_negate : (n : Bool) → when.negate ≡ n → (runs_on when lap ≡ true) ↔ IsMember n when lap
    by_negate false e = (λ r. i.0 (ground arith), λ m. let t = i.1 m in ground arith)
    by_negate true e = (
      λ r m. let t = i.1 m in cc (runs),
      λ n. elim (Bool-cases (matches when lap)) [
        | inl t ↦ absurd (n (i.0 t))
        | inr f ↦ ground arith
      ],
    )
