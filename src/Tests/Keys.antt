-- ===== src/Tests/Keys.antt =====
-- A character for the model of apps/aoahid_player_gui/keymap.cpp.
use aoahid_player.Base.{◌≡◌, refl, true, some}
use aoahid_player.Keymap.Typed.{typed, hid_usage_from_ascii-typed}
use aoahid_player.Keymap.{hid_usage_from_ascii, switch}

at_sign : hid_usage_from_ascii b'@' ≡ some (31, true)
unfolding hid_usage_from_ascii switch
at_sign = refl

hid_usage_from_ascii-typed_example : typed 31 true ≡ b'@'
hid_usage_from_ascii-typed_example = hid_usage_from_ascii-typed b'@' (31, true) at_sign
