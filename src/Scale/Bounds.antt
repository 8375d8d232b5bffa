-- ===== src/Scale/Bounds.antt =====
-- Where scale_coordinate puts a position.
use aoahid_player.Base.Int.{ℤ, pos, ◌+ℤ◌, ◌-ℤ◌, ◌*ℤ◌, ◌≤ℤ◌, ◌<ℤ◌}
use aoahid_player.Base.{ℕ, suc, ◌+◌, ◌*◌, ◌/◌, ◌≤◌, ◌<◌, min, ◌≡◌, ap, arith, dec_lt}
use aoahid_player.Scale.{scale_coordinate, quotient, clamp_ℤ, to_ℕ}

clamp_ℤ-bounds :
    (x hi : ℤ) → pos 0 ≤ℤ hi → (pos 0 ≤ℤ clamp_ℤ x (pos 0) hi) × (clamp_ℤ x (pos 0) hi ≤ℤ hi)
unfolding clamp_ℤ
clamp_ℤ-bounds x hi h = ground arith

-ℤ-one : (a : ℤ) → pos 1 ≤ℤ a → (pos 0 ≤ℤ a -ℤ pos 1) × (a -ℤ pos 1 <ℤ a)
unfolding ◌-ℤ◌
-ℤ-one a h = ground arith

-- A surface of at least one point gets an index of its own, whatever the position is.
pub scale_coordinate-in_surface :
    (value from to : ℤ)
    → pos 1 ≤ℤ to
    → (pos 0 ≤ℤ scale_coordinate value from to) × (scale_coordinate value from to <ℤ to)
unfolding scale_coordinate
scale_coordinate-in_surface value from to h = ground (
  arith,
  -ℤ-one to h,
  clamp_ℤ-bounds
      (quotient (value *ℤ (to -ℤ pos 1) +ℤ pos (to_ℕ (from -ℤ pos 1) / 2)) (to_ℕ (from -ℤ pos 1)))
      (to -ℤ pos 1),
)

-- The formula over natural numbers, for a position that is not negative and two proper surfaces.
abbrev pub scale_ℕ : ℕ → ℕ → ℕ → ℕ
scale_ℕ v f t = min ((v * t + f / 2) / f) t

scale_coordinate-scale_ℕ :
    (v f t : ℕ)
    → 0 < f
    → 0 < t
    → scale_coordinate (pos v) (pos (suc f)) (pos (suc t)) ≡ pos (scale_ℕ v f t)
unfolding scale_coordinate quotient clamp_ℤ ◌+ℤ◌ ◌-ℤ◌ ◌*ℤ◌
scale_coordinate-scale_ℕ v f t hf ht = ground arith

div_unique : (a d q : ℕ) → q * d ≤ a → a < q * d + d → a / d ≡ q
div_unique a d q lo hi = grind arith

div_bounds : (a d : ℕ) → 0 < d → (a / d * d ≤ a) × (a < a / d * d + d)
div_bounds a d h = grind arith

div-le : (a d t : ℕ) → 0 < d → a < t * d + d → a / d ≤ t
div-le a d t hd h = grind (arith, div_bounds a d)

scale_ℕ-le : (v f t : ℕ) → v ≤ f → 0 < f → (v * t + f / 2) / f ≤ t
scale_ℕ-le v f t h hf = let p : v * t ≤ f * t = grind arith in div-le _ f t hf (omega (arith, p))

-- Rounding to the nearest point moves a position by less than half a step of the coarser surface.
rounding :
    (v f t s : ℕ)
    → s * f ≤ v * t + f / 2
    → v * t + f / 2 < s * f + f
    → f < t
    → (s * f + t / 2) / t ≡ v
rounding v f t s lo hi lt = div_unique (s * f + t / 2) t v (omega arith) (omega arith)

scale_ℕ-scale_ℕ_lt : (v f t : ℕ) → v ≤ f → 0 < f → f < t → scale_ℕ (scale_ℕ v f t) t f ≡ v
scale_ℕ-scale_ℕ_lt v f t h hf lt =
    let s : ℕ = (v * t + f / 2) / f in
    let b = div_bounds (v * t + f / 2) f hf in
    let e : (s * f + t / 2) / t ≡ v = rounding v f t s b.0 b.1 lt in
    let m : scale_ℕ v f t ≡ s = omega (arith, scale_ℕ-le v f t h hf) in rw m (omega (arith, e))

scale_ℕ_same : (v f : ℕ) → v ≤ f → 0 < f → scale_ℕ v f f ≡ v
scale_ℕ_same v f h hf =
    let e : (v * f + f / 2) / f ≡ v = div_unique (v * f + f / 2) f v (omega arith) (omega arith) in
    omega (arith, e)

scale_ℕ-scale_ℕ : (v f t : ℕ) → v ≤ f → 0 < f → f ≤ t → scale_ℕ (scale_ℕ v f t) t f ≡ v
scale_ℕ-scale_ℕ v f t h hf hft = elim (dec_lt f t) [
  | yes lt ↦ scale_ℕ-scale_ℕ_lt v f t h hf lt
  | no ge ↦ let e : t ≡ f = omega arith in rw (e, scale_ℕ_same v f h hf) (scale_ℕ_same v f h hf)
]

scale_ℕ-mono : (v w f t : ℕ) → v ≤ w → 0 < f → scale_ℕ v f t ≤ scale_ℕ w f t
scale_ℕ-mono v w f t h hf =
    grind (arith, div_bounds (v * t + f / 2) f, div_bounds (w * t + f / 2) f)

-- A surface at least as fine keeps a position of the script's space: scaled there and back, it is
-- what it was. Both surfaces have two points or more.
pub scale_coordinate-scale_coordinate :
    (v f t : ℕ)
    → v ≤ f
    → 0 < f
    → f ≤ t
    → scale_coordinate
        (scale_coordinate (pos v) (pos (suc f)) (pos (suc t)))
        (pos (suc t))
        (pos (suc f))
      ≡ pos v
scale_coordinate-scale_coordinate v f t h hf hft =
    rw
      (
        scale_coordinate-scale_ℕ v f t hf (omega arith),
        scale_coordinate-scale_ℕ (scale_ℕ v f t) t f (omega arith) hf,
      )
      (ap pos (scale_ℕ-scale_ℕ v f t h hf hft))

scale_ℕ_first : (f t : ℕ) → 0 < f → scale_ℕ 0 f t ≡ 0
scale_ℕ_first f t hf =
    let e : (0 * t + f / 2) / f ≡ 0 = div_unique (0 * t + f / 2) f 0 (omega arith) (omega arith) in
    omega (arith, e)

scale_ℕ_last : (f t : ℕ) → 0 < f → scale_ℕ f f t ≡ t
scale_ℕ_last f t hf =
    let e : (f * t + f / 2) / f ≡ t = div_unique (f * t + f / 2) f t (omega arith) (omega arith) in
    omega (arith, e)

-- Positions keep their order, and the first and the last index of the script's space go to the first
-- and the last of the surface.
pub scale_coordinate_order :
    (v w f t : ℕ)
    → v ≤ w
    → 0 < f
    → 0 < t
    → (scale_coordinate (pos v) (pos (suc f)) (pos (suc t))
        ≤ℤ scale_coordinate (pos w) (pos (suc f)) (pos (suc t)))
      × (scale_coordinate (pos 0) (pos (suc f)) (pos (suc t)) ≡ pos 0)
      × (scale_coordinate (pos f) (pos (suc f)) (pos (suc t)) ≡ pos t)
scale_coordinate_order v w f t h hf ht =
    rw
      (
        scale_coordinate-scale_ℕ v f t hf ht,
        scale_coordinate-scale_ℕ w f t hf ht,
        scale_coordinate-scale_ℕ 0 f t hf ht,
        scale_coordinate-scale_ℕ f f t hf ht,
      )
      (
        omega (arith, scale_ℕ-mono v w f t h hf),
        ap pos (scale_ℕ_first f t hf),
        ap pos (scale_ℕ_last f t hf),
      )
