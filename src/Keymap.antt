-- ===== src/Keymap.antt =====
-- apps/aoahid_player_gui/keymap.cpp, but for what reads constants of GLFW: the key of a pasted character,
-- the names of usages, the keys of Japanese keyboards, and the release key. A switch is a list that is
-- searched from its front. A char is a byte, so that a character beyond ASCII is above 127.
pub mod Typed
pub mod Glfw
use aoahid_player.Base.{
  ℕ, ◌+◌, ◌-◌, ◌/◌, ◌%◌, Bool, true, false, not, ◌&&◌, Option, none, some, List, [], ◌∷◌, ◌++◌,
  get_or, leb, ltb, ◌==◌, if◌then◌else◌,
}
use aoahid_player.Base.Int.{ℤ, pos, ◌-ℤ◌, eqb_ℤ, leb_ℤ}
use aoahid_player.Text.{Bytes, codes}

-- A switch on a number: the value behind the first equal case.
unfoldable pub switch {ℓ} : {A : Type ℓ} → List (ℕ × A) → ℕ → Option A
switch [] n = none
switch (x ∷ rest) n = let next = switch rest n in if x.0 == n then some x.1 else next

abbrev pub between : ℕ → ℕ → ℕ → Bool
between lo hi n = leb lo n && leb n hi

-- The switch of hid_usage_from_ascii: the usage, and whether Shift is held.
abbrev pub ascii_table : List (ℕ × (ℕ × Bool))
ascii_table =
    (b'0', (39, false))
    ∷ (b'\n', (40, false))
    ∷ (b'\t', (43, false))
    ∷ (b' ', (44, false))
    ∷ (b'-', (45, false))
    ∷ (b'_', (45, true))
    ∷ (b'=', (46, false))
    ∷ (b'+', (46, true))
    ∷ (b'[', (47, false))
    ∷ (b'{', (47, true))
    ∷ (b']', (48, false))
    ∷ (b'}', (48, true))
    ∷ (b'\\', (49, false))
    ∷ (b'|', (49, true))
    ∷ (b';', (51, false))
    ∷ (b':', (51, true))
    ∷ (b'\'', (52, false))
    ∷ (b'"', (52, true))
    ∷ (b'`', (53, false))
    ∷ (b'~', (53, true))
    ∷ (b',', (54, false))
    ∷ (b'<', (54, true))
    ∷ (b'.', (55, false))
    ∷ (b'>', (55, true))
    ∷ (b'/', (56, false))
    ∷ (b'?', (56, true))
    ∷ (b'!', (30, true))
    ∷ (b'@', (31, true))
    ∷ (b'#', (32, true))
    ∷ (b'$', (33, true))
    ∷ (b'%', (34, true))
    ∷ (b'^', (35, true))
    ∷ (b'&', (36, true))
    ∷ (b'*', (37, true))
    ∷ (b'(', (38, true))
    ∷ (b')', (39, true))
    ∷ []

unfoldable pub hid_usage_from_ascii : ℕ → Option (ℕ × Bool)
unfolding switch
hid_usage_from_ascii c =
    let listed = switch ascii_table c in
    if between b'a' b'z' c
    then some (4 + (c - b'a'), false)
    else if between b'A' b'Z' c
    then some (4 + (c - b'A'), true)
    else if between b'1' b'9' c
    then some (30 + (c - b'1'), false)
    else listed

abbrev pub name_table : List (ℕ × Bytes)
name_table =
    (40, codes "Enter")
    ∷ (41, codes "Esc")
    ∷ (42, codes "Backspace")
    ∷ (43, codes "Tab")
    ∷ (44, codes "Space")
    ∷ (45, codes "-")
    ∷ (46, codes "=")
    ∷ (47, codes "[")
    ∷ (48, codes "]")
    ∷ (49, codes "\\")
    ∷ (51, codes ";")
    ∷ (52, codes "'")
    ∷ (53, codes "`")
    ∷ (54, codes ",")
    ∷ (55, codes ".")
    ∷ (56, codes "/")
    ∷ (57, codes "Caps Lock")
    ∷ (73, codes "Insert")
    ∷ (74, codes "Home")
    ∷ (75, codes "Page Up")
    ∷ (76, codes "Delete")
    ∷ (77, codes "End")
    ∷ (78, codes "Page Down")
    ∷ (79, codes "Right")
    ∷ (80, codes "Left")
    ∷ (81, codes "Down")
    ∷ (82, codes "Up")
    ∷ (88, codes "Keypad Enter")
    ∷ (101, codes "Menu")
    ∷ (135, codes "Ro")
    ∷ (136, codes "Katakana/Hiragana")
    ∷ (137, codes "Yen")
    ∷ (138, codes "Henkan")
    ∷ (139, codes "Muhenkan")
    ∷ (148, codes "Zenkaku/Hankaku")
    ∷ (224, codes "Ctrl")
    ∷ (225, codes "Shift")
    ∷ (226, codes "Alt")
    ∷ (227, codes "Meta")
    ∷ (228, codes "Right Ctrl")
    ∷ (229, codes "Right Shift")
    ∷ (230, codes "Right Alt")
    ∷ (231, codes "Right Meta")
    ∷ []

abbrev pub functions : List Bytes
functions =
    codes "F1"
    ∷ codes "F2"
    ∷ codes "F3"
    ∷ codes "F4"
    ∷ codes "F5"
    ∷ codes "F6"
    ∷ codes "F7"
    ∷ codes "F8"
    ∷ codes "F9"
    ∷ codes "F10"
    ∷ codes "F11"
    ∷ codes "F12"
    ∷ []

-- A digit of "%02X".
abbrev pub upper_hex : ℕ → ℕ
upper_hex d = if ltb d 10 then b'0' + d else b'A' + (d - 10)

-- "0x%02X" of a uint16_t: at least two digits.
unfoldable pub usage_number : ℕ → Bytes
usage_number n =
    let low = upper_hex (n / 16 % 16) ∷ upper_hex (n % 16) ∷ [] in
    let three = upper_hex (n / 256 % 16) ∷ low in
    codes "0x"
    ++ (if ltb n 256 then low else if ltb n 4096 then three else upper_hex (n / 4096) ∷ three)

abbrev name_or : Option Bytes → Bytes → Bytes
name_or none d = d
name_or (some t) d = t

unfoldable pub hid_usage_name : ℕ → Bytes
unfolding switch usage_number
hid_usage_name usage =
    if between 4 29 usage
    then (b'A' + (usage - 4)) ∷ []
    else if between 30 38 usage
    then (b'1' + (usage - 30)) ∷ []
    else if usage == 39
    then b'0' ∷ []
    else if between 58 69 usage
    then get_or functions (usage - 58) []
    else name_or (switch name_table usage) (usage_number usage)

-- The switch of hid_usage_from_scancode.
abbrev pub evdev_table : List (ℕ × ℕ)
evdev_table = (85, 148) ∷ (89, 135) ∷ (92, 138) ∷ (93, 136) ∷ (94, 139) ∷ (124, 137) ∷ []

abbrev usage_or_0 : Option ℕ → ℕ
usage_or_0 none = 0
usage_or_0 (some u) = u

-- The code on Linux, on X11 or another platform, and 0 elsewhere.
unfoldable pub hid_usage_from_scancode : Bool → Bool → ℤ → ℕ
unfolding switch ◌-ℤ◌
hid_usage_from_scancode linux x11 scancode =
    let evdev = if x11 then scancode -ℤ pos 8 else scancode in
    let usage : ℕ = elim evdev [ pos n ↦ usage_or_0 (switch evdev_table n) | ℤ.negsuc n ↦ 0 ] in
    if not linux then 0 else if leb_ℤ scancode (pos 0) then 0 else usage

-- The constant GLFW_KEY_ESCAPE is the first argument.
unfoldable pub is_release_key : ℤ → ℤ → ℤ → Bool
is_release_key escape key configured =
    eqb_ℤ key (if eqb_ℤ configured (pos 0) then escape else configured)
