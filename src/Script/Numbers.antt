-- ===== src/Script/Numbers.antt =====
-- parse_int64, parse_bounded, parse_flag, parse_wait_ns, parse_fraction and parse_size of
-- src/event_script.cpp. Doubles, std::strtod and std::llround are a parameter.
use aoahid_player.Base.Int.{ℤ, pos, negsuc, leb_ℤ}
use aoahid_player.Base.Words.{u64_max, i64_max}
use aoahid_player.Base.{
  ℕ, zero, suc, Bool, true, false, not, ◌&&◌, ◌||◌, Option, none, some, [], ◌∷◌, length, drop, ltb,
  ◌==◌, if◌then◌else◌,
}
use aoahid_player.Scale.{to_ℕ, clamp_ℤ}
use aoahid_player.Text.{Bytes, trim, break_at, from_chars, from_chars_int}

-- The text behind a sign, and whether the sign is a minus.
unfoldable pub sign_of : Bytes → Bool × Bytes
sign_of [] = (false, [])
sign_of (c ∷ cs) =
    if c == b'-' then (true, cs) else if c == b'+' then (false, cs) else (false, c ∷ cs)

unfoldable pub is_hex : Bytes → Bool
is_hex [] = false
is_hex (a ∷ []) = false
is_hex (a ∷ (b ∷ [])) = false
is_hex (a ∷ (b ∷ (c ∷ cs))) = a == b'0' && (b == b'x' || b == b'X')

-- The number with its sign, where int64_t holds it.
unfoldable pub signed : Bool → ℕ → Option ℤ
signed false n = if ltb i64_max n then none else some (pos n)
signed true zero = some (pos 0)
signed true (suc n) = if ltb i64_max n then none else some (negsuc n)

unfoldable pub parse_int64 : Bytes → Option ℤ
unfolding sign_of is_hex signed
parse_int64 text =
    let s = sign_of text in
    let magnitude =
      if is_hex s.1 then from_chars 16 u64_max (drop 2 s.1) else from_chars 10 u64_max s.1 in
    elim magnitude [ none ↦ none | some n ↦ signed s.0 n ]

unfoldable pub within : ℤ → ℤ → Option ℤ → Option ℤ
within minimum maximum none = none
within minimum maximum (some v) = if leb_ℤ minimum v && leb_ℤ v maximum then some v else none

unfoldable pub parse_bounded : Bytes → ℤ → ℤ → Option ℤ
unfolding within
parse_bounded text minimum maximum = within minimum maximum (parse_int64 text)

unfoldable pub parse_flag : Bytes → Option Bool
parse_flag text = elim (parse_bounded text (pos 0) (pos 1)) [
  | none ↦ none
  | some (pos n) ↦ some (n == 1)
  | some (negsuc n) ↦ some false
]

-- What the parsers use of floating point: strtod gives the value, how many bytes it read, and
-- whether the value is out of range.
pub record Doubles : Type 1 where
  pub Double : Type 0
  pub strtod : Bytes → Double × (ℕ × Bool)
  pub at_most : Double → Double → Bool
  pub of_ℕ : ℕ → Double
  pub times : Double → Double → Double
  pub llround : Double → ℤ
  pub trunc : Double → ℤ
  pub less : Double → Double → Bool

-- c_str(), which ends at the first zero byte.
unfoldable pub c_str : Bytes → Bytes
c_str text = (break_at (λ c. c == 0) text).0

module _ (D : Doubles) where
  -- The value of the whole text, where it lies in [0, maximum].
  unfoldable pub parse_double : Bytes → ℕ → Option D.Double
  unfolding c_str
  parse_double text maximum =
      let r = D.strtod (c_str text) in
      if length text == 0 || r.1.0 == 0 || not (r.1.0 == length (c_str text)) || r.1.1
      then none
      else if not (D.at_most (D.of_ℕ 0) r.0) || not (D.at_most r.0 (D.of_ℕ maximum))
      then none
      else some r.0

  unfoldable pub parse_wait_ns : Bytes → Option ℕ
  unfolding parse_double
  parse_wait_ns text = elim (parse_double text 1000000000) [
    | none ↦ none
    | some v ↦ some (to_ℕ (D.llround (D.times v (D.of_ℕ 1000000))))
  ]

  -- An index into the space of 65536 points.
  unfoldable pub parse_fraction : Bytes → Option ℤ
  unfolding parse_double
  parse_fraction text = elim (parse_double text 1) [
    | none ↦ none
    | some v ↦ some (clamp_ℤ (D.llround (D.times v (D.of_ℕ 65535))) (pos 0) (pos 65535))
  ]

abbrev is_cross : ℕ → Bool
is_cross c = c == b'x' || c == b'X'

-- "1080x2400" -> 1080, 2400.
unfoldable pub parse_size : Bytes → Option (ℤ × ℤ)
parse_size text =
    let r = break_at is_cross (trim text) in
    if length r.1 == 0 then none else elim (from_chars_int (trim r.0)) [
      | none ↦ none
      | some w ↦ elim (from_chars_int (trim (drop 1 r.1))) [
        | none ↦ none
        | some h ↦
            if leb_ℤ (pos 1) w && leb_ℤ (pos 1) h && leb_ℤ w (pos 65536) && leb_ℤ h (pos 65536)
            then some (w, h)
            else none
      ]
    ]
