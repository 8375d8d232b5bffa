-- ===== src/Keymap/Glfw.antt =====
-- hid_usage_from_glfw and glfw_key_name of apps/aoahid_player_gui/keymap.cpp. The header of GLFW is a
-- parameter: the value of each of its constants, named without GLFW_KEY_ in front.
use aoahid_player.Base.Int.{ℤ, pos, negsuc}
use aoahid_player.Base.{
  ℕ, suc, ◌++◌, ◌==◌, ◌+◌, ◌-◌, ◌%◌, ◌^◌, none, some, List, [], ◌∷◌, if◌then◌else◌,
}
use aoahid_player.Keymap.{switch, between, hid_usage_name}
use aoahid_player.Text.{Bytes, codes, decimal}

pub record Glfw : Type 0 where
  pub key : Bytes → ℕ

module _ (glfw : Glfw) where
  -- The switch of hid_usage_from_glfw.
  abbrev pub glfw_table : List (ℕ × ℕ)
  glfw_table =
      let k = λ (name : Bytes). glfw.key name in
      (k (codes "0"), 39)
      ∷ (k (codes "ENTER"), 40)
      ∷ (k (codes "ESCAPE"), 41)
      ∷ (k (codes "BACKSPACE"), 42)
      ∷ (k (codes "TAB"), 43)
      ∷ (k (codes "SPACE"), 44)
      ∷ (k (codes "MINUS"), 45)
      ∷ (k (codes "EQUAL"), 46)
      ∷ (k (codes "LEFT_BRACKET"), 47)
      ∷ (k (codes "RIGHT_BRACKET"), 48)
      ∷ (k (codes "BACKSLASH"), 49)
      ∷ (k (codes "SEMICOLON"), 51)
      ∷ (k (codes "APOSTROPHE"), 52)
      ∷ (k (codes "GRAVE_ACCENT"), 53)
      ∷ (k (codes "COMMA"), 54)
      ∷ (k (codes "PERIOD"), 55)
      ∷ (k (codes "SLASH"), 56)
      ∷ (k (codes "CAPS_LOCK"), 57)
      ∷ (k (codes "PRINT_SCREEN"), 70)
      ∷ (k (codes "SCROLL_LOCK"), 71)
      ∷ (k (codes "PAUSE"), 72)
      ∷ (k (codes "INSERT"), 73)
      ∷ (k (codes "HOME"), 74)
      ∷ (k (codes "PAGE_UP"), 75)
      ∷ (k (codes "DELETE"), 76)
      ∷ (k (codes "END"), 77)
      ∷ (k (codes "PAGE_DOWN"), 78)
      ∷ (k (codes "RIGHT"), 79)
      ∷ (k (codes "LEFT"), 80)
      ∷ (k (codes "DOWN"), 81)
      ∷ (k (codes "UP"), 82)
      ∷ (k (codes "NUM_LOCK"), 83)
      ∷ (k (codes "KP_DIVIDE"), 84)
      ∷ (k (codes "KP_MULTIPLY"), 85)
      ∷ (k (codes "KP_SUBTRACT"), 86)
      ∷ (k (codes "KP_ADD"), 87)
      ∷ (k (codes "KP_ENTER"), 88)
      ∷ (k (codes "KP_0"), 98)
      ∷ (k (codes "KP_DECIMAL"), 99)
      ∷ (k (codes "WORLD_2"), 100)
      ∷ (k (codes "MENU"), 101)
      ∷ (k (codes "KP_EQUAL"), 103)
      ∷ (k (codes "LEFT_CONTROL"), 224)
      ∷ (k (codes "LEFT_SHIFT"), 225)
      ∷ (k (codes "LEFT_ALT"), 226)
      ∷ (k (codes "LEFT_SUPER"), 227)
      ∷ (k (codes "RIGHT_CONTROL"), 228)
      ∷ (k (codes "RIGHT_SHIFT"), 229)
      ∷ (k (codes "RIGHT_ALT"), 230)
      ∷ (k (codes "RIGHT_SUPER"), 231)
      ∷ []

  -- A run of keys from one constant to another, whose usages follow on each other.
  abbrev pub in_run : Bytes → Bytes → ℕ → ℕ → ℕ → ℕ
  in_run first last usage key other =
      if between (glfw.key first) (glfw.key last) key
      then (usage + (key - glfw.key first)) % 2 ^ 16
      else other

  -- Every constant of a key is a natural number, so that a negative key is none of them.
  unfoldable pub hid_usage_from_glfw : ℤ → ℕ
  hid_usage_from_glfw (negsuc n) = 0
  hid_usage_from_glfw (pos key) = in_run (codes "A") (codes "Z") 4 key (
      in_run (codes "1") (codes "9") 30 key (
        in_run (codes "F1") (codes "F12") 58 key (
          in_run (codes "F13") (codes "F24") 104 key (
            in_run (codes "KP_1") (codes "KP_9") 89 key
              (elim (switch glfw_table key) [ none ↦ 0 | some usage ↦ usage ])))))

  -- The switch of glfw_key_name.
  abbrev pub glfw_names : List (ℕ × Bytes)
  glfw_names =
      let k = λ (name : Bytes). glfw.key name in
      (k (codes "ESCAPE"), codes "Escape")
      ∷ (k (codes "LEFT_CONTROL"), codes "Left Ctrl")
      ∷ (k (codes "RIGHT_CONTROL"), codes "Right Ctrl")
      ∷ (k (codes "LEFT_SHIFT"), codes "Left Shift")
      ∷ (k (codes "RIGHT_SHIFT"), codes "Right Shift")
      ∷ (k (codes "LEFT_ALT"), codes "Left Alt")
      ∷ (k (codes "RIGHT_ALT"), codes "Right Alt")
      ∷ (k (codes "LEFT_SUPER"), codes "Left Super")
      ∷ (k (codes "RIGHT_SUPER"), codes "Right Super")
      ∷ (k (codes "TAB"), codes "Tab")
      ∷ (k (codes "CAPS_LOCK"), codes "Caps Lock")
      ∷ (k (codes "MENU"), codes "Menu")
      ∷ (k (codes "PAUSE"), codes "Pause")
      ∷ (k (codes "SCROLL_LOCK"), codes "Scroll Lock")
      ∷ (k (codes "PRINT_SCREEN"), codes "Print Screen")
      ∷ (k (codes "INSERT"), codes "Insert")
      ∷ []

  -- "%d" of an int.
  abbrev pub signed_decimal : ℤ → Bytes
  signed_decimal (pos n) = decimal n
  signed_decimal (negsuc n) = b'-' ∷ decimal (suc n)

  -- The name behind the switch.
  abbrev pub other_name : ℤ → Bytes
  other_name key =
      let usage = hid_usage_from_glfw key in
      if usage == 0 then codes "Key " ++ signed_decimal key else hid_usage_name usage

  unfoldable pub glfw_key_name : ℤ → Bytes
  glfw_key_name (negsuc n) = other_name (negsuc n)
  glfw_key_name (pos key) = elim (switch glfw_names key) [
    | none ↦ other_name (pos key)
    | some name ↦ name
  ]
