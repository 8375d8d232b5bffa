-- ===== src/Setup/Widths.antt =====
-- The width that unsigned_bits of include/aoahid_player/spec_builder.hpp gives a field, and the fields of
-- settings that pass validation.
pub mod Holding
use aoahid_player.Base.Int.{ℤ, pos, ltb_ℤ}
use aoahid_player.Base.{
  ◌≡◌, refl, sym, subst, dec_lt, ◌⊎◌, inl, inr, Bool-cases, ◌≤◌, ◌<◌, ℕ, zero, suc, ◌+◌, ◌-◌, ◌*◌,
  ◌^◌, Bool, true, false, ◌&&◌, ltb, ltb_iff, if◌then◌else◌, arith,
}
use native.Mathlib.Nat.{pow-suc}
use aoahid_player.Setup.Fields.{bits_loop, unsigned_bits}

-- The least width of at least one bit that holds 0 to n.
pub record IsWidth (n b : ℕ) : Type 0 where
  pub at_least_one : 1 ≤ b
  pub at_most_32 : b ≤ 32
  pub holds : n < 2 ^ b
  pub least : (c : ℕ) → 1 ≤ c → c < b → 2 ^ c - 1 < n

two_pow_pos : (b : ℕ) → 1 ≤ 2 ^ b
two_pow_pos zero = omega arith
two_pow_pos (suc b) = let e : 2 ^ suc b ≡ 2 ^ b * 2 = pow-suc 2 b in omega (arith, e, two_pow_pos b)

-- The test of the loop: below 32 bits, and too narrow.
go_on :
    (b n : ℕ) → (ltb b 32 && ltb_ℤ (pos (2 ^ b - 1)) (pos n)) ≡ true → (b < 32) × (2 ^ b - 1 < n)
go_on b n e = ground arith

stop_at :
    (b n : ℕ) → (ltb b 32 && ltb_ℤ (pos (2 ^ b - 1)) (pos n)) ≡ false → (32 ≤ b) ⊎ (n ≤ 2 ^ b - 1)
stop_at b n e = ground arith

bits_loop-IsWidth :
    (fuel bits n : ℕ)
    → n < 2 ^ 32
    → 1 ≤ bits
    → bits ≤ 32
    → fuel + bits ≡ 33
    → ((c : ℕ) → 1 ≤ c → c < bits → 2 ^ c - 1 < n)
    → IsWidth n (bits_loop fuel bits (pos n))
unfolding bits_loop
bits_loop-IsWidth zero bits n h p q e l = absurd (omega arith)
bits_loop-IsWidth (suc fuel) bits n h p q e l =
    elim (Bool-cases (ltb bits 32 && ltb_ℤ (pos (2 ^ bits - 1)) (pos n))) [
      | inl t ↦
          let k = go_on bits n t in
          rw t (
            bits_loop-IsWidth fuel (suc bits) n h (omega arith) (omega (arith, k.0))
              (omega (arith, e)) (wider bits n k.1 l))
      | inr f ↦ rw f (record {
        at_least_one = p;
        at_most_32 = q;
        holds = fits bits n h q (stop_at bits n f);
        least = l;
      })
    ]
  where
    wider :
        (bits n : ℕ)
        → 2 ^ bits - 1 < n
        → ((c : ℕ) → 1 ≤ c → c < bits → 2 ^ c - 1 < n)
        → (c : ℕ) → 1 ≤ c
        → c < suc bits
        → 2 ^ c - 1 < n
    wider bits n k l c p q = elim (dec_lt c bits) [
      | yes r ↦ l c p r
      | no r ↦ let same : bits ≡ c = omega arith in subst (λ x. 2 ^ x - 1 < n) same k
    ]

    fits : (b n : ℕ) → n < 2 ^ 32 → b ≤ 32 → (32 ≤ b) ⊎ (n ≤ 2 ^ b - 1) → n < 2 ^ b
    fits b n h q (inl r) = let same : 32 ≡ b = omega arith in subst (λ x. n < 2 ^ x) same h
    fits b n h q (inr r) = omega (arith, r, two_pow_pos b)

-- For a maximum that 32 bits hold, unsigned_bits ends with the least width, of 1 to 32 bits, that holds it.
pub unsigned_bits-IsWidth : (n : ℕ) → n < 2 ^ 32 → IsWidth n (unsigned_bits (pos n))
unfolding unsigned_bits
unsigned_bits-IsWidth n h =
    bits_loop-IsWidth 32 1 n h (omega arith) (omega arith) refl (λ c p q. absurd (omega arith))
