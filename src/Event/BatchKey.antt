-- ===== src/Event/BatchKey.antt =====
-- batch_key of src/event_script.cpp identifies the control of a row.
use Prim.Native.Nat.{bit_or}
use aoahid_player.Base.Int.{pos}
use aoahid_player.Base.{ℕ, ◌*◌, ◌/◌, ◌%◌, ◌^◌, Option, none, some, ◌==◌, if◌then◌else◌}
use aoahid_player.Event.Control.{
  Control, contact, button, key, pad_button, axis, dpad, pen, digitizer, media,
}
use aoahid_player.Event.{to_u64}

-- The family of a key and the number within it.
by_family : ℕ → ℕ → Option Control
by_family family number =
    if family == 1
    then some (contact (pos number))
    else if family == 2
    then some (button number)
    else if family == 3
    then some (key number)
    else if family == 4
    then some (pad_button number)
    else if family == 5
    then some (axis number)
    else if family == 6
    then some dpad
    else if family == 7
    then some pen
    else if family == 8
    then some (media number)
    else if family == 9
    then some digitizer
    else none

control_at : ℕ → Option Control
control_at k = by_family (k / 2 ^ 56) (k % 2 ^ 56)

-- And the control gives the key.
key_at : Option Control → ℕ
unfolding to_u64
key_at none = 0
key_at (some (contact z)) = bit_or (1 * 2 ^ 56) (to_u64 z)
key_at (some (button n)) = bit_or (2 * 2 ^ 56) n
key_at (some (key n)) = bit_or (3 * 2 ^ 56) n
key_at (some (pad_button n)) = bit_or (4 * 2 ^ 56) n
key_at (some (axis n)) = bit_or (5 * 2 ^ 56) n
key_at (some dpad) = 6 * 2 ^ 56
key_at (some pen) = 7 * 2 ^ 56
key_at (some digitizer) = 9 * 2 ^ 56
key_at (some (media n)) = bit_or (8 * 2 ^ 56) n
