-- ===== src/Laps/Multiples.antt =====
-- Remainders between neighbouring multiples, for the arithmetic of runs_on.
use aoahid_player.Base.{ℕ, ◌+◌, ◌-◌, ◌*◌, ◌/◌, ◌%◌, ◌≤◌, ◌<◌, ◌≡◌, ◌≢◌, arith, dec_lt}

pub sub_mod-mod : (d e : ℕ) → 1 ≤ e → (d - d % e) % e ≡ 0
sub_mod-mod d e h = grind arith

pub mod-eq-zero : (k e : ℕ) → 1 ≤ e → k * e % e ≡ 0
mod-eq-zero k e h = grind arith

pub div-mul : (d e : ℕ) → 1 ≤ e → d % e ≡ 0 → d / e * e ≡ d
div-mul d e h z = grind arith

between : (p q e : ℕ) → p * e < q * e → q * e < p * e + e → ⊥
between p q e lo hi = elim (dec_lt p q) [
  | yes lt ↦ let m : (p + 1) * e ≤ q * e = grind arith in omega (arith, m)
  | no ge ↦ let m : q * e ≤ p * e = grind arith in omega (arith, m)
]

mod_parts : (d e : ℕ) → 1 ≤ e → (d ≡ d / e * e + d % e) × (d % e < e)
mod_parts d e h = (grind arith, grind arith)

-- No multiple lies strictly above the multiple under `d` and at most at `d`.
pub mod-ne-zero_below : (d e x : ℕ) → 1 ≤ e → d - d % e < x → x ≤ d → x % e ≢ 0
mod-ne-zero_below d e x h lo hi z =
    between (d / e) (x / e) e (omega (arith, mod_parts d e h, div-mul x e h z))
      (omega (arith, mod_parts d e h, div-mul x e h z))

-- The next multiple, when `d` is none, and the numbers on the way to it.
pub add_mod-mod : (d e : ℕ) → 1 ≤ e → d % e ≢ 0 → (d + (e - d % e)) % e ≡ 0
add_mod-mod d e h nz = grind arith

pub mod-ne-zero_above : (d e x : ℕ) → 1 ≤ e → d % e ≢ 0 → d ≤ x → x < d + (e - d % e) → x % e ≢ 0
mod-ne-zero_above d e x h nz lo hi z =
    between (d / e) (x / e) e (omega (arith, mod_parts d e h, div-mul x e h z))
      (omega (arith, mod_parts d e h, div-mul x e h z))

-- The neighbours of a multiple are no multiples, for a step above one.
pub suc_mod-ne-zero : (d e : ℕ) → 1 < e → d % e ≡ 0 → (d + 1) % e ≢ 0
suc_mod-ne-zero d e h z = grind arith
