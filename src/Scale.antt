-- ===== src/Scale.antt =====
-- scale_coordinate and Space of include/aoahid_player/event_script.hpp: touch and pen positions are
-- carried from the script's space onto a device's surface. The products stay below 2 ^ 63 for
-- int32_t arguments, so the int64_t arithmetic is that of the integers.
pub mod Bounds
use aoahid_player.Base.Int.{ℤ, pos, negsuc, ◌+ℤ◌, ◌-ℤ◌, ◌*ℤ◌, leb_ℤ, ltb_ℤ, eqb_ℤ}
use aoahid_player.Base.{ℕ, suc, ◌-◌, ◌/◌, Bool, ◌&&◌, if◌then◌else◌}

pub record Space : Type 0 where
  pub width : ℤ
  pub height : ℤ

-- Space::operator==
abbrev pub same_space : Space → Space → Bool
same_space a b = eqb_ℤ a.width b.width && eqb_ℤ a.height b.height

-- Division of integers in C++ rounds toward zero; the divisor is positive here.
unfoldable pub quotient : ℤ → ℕ → ℤ
quotient (pos n) d = pos (n / d)
quotient (negsuc n) d = pos 0 -ℤ pos (suc n / d)

-- std::clamp with the bounds in order.
unfoldable pub clamp_ℤ : ℤ → ℤ → ℤ → ℤ
clamp_ℤ x lo hi = if ltb_ℤ x lo then lo else if ltb_ℤ hi x then hi else x

abbrev pub to_ℕ : ℤ → ℕ
to_ℕ (pos n) = n
to_ℕ (negsuc n) = 0

unfoldable pub scale_coordinate : ℤ → ℤ → ℤ → ℤ
scale_coordinate value from to =
    let from_max = from -ℤ pos 1 in
    let to_max = to -ℤ pos 1 in
    if leb_ℤ from_max (pos 0)
    then pos 0
    else if leb_ℤ to_max (pos 0)
    then pos 0
    else clamp_ℤ (quotient (value *ℤ to_max +ℤ pos (to_ℕ from_max / 2)) (to_ℕ from_max)) (pos 0)
        to_max
