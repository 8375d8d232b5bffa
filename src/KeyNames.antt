-- ===== src/KeyNames.antt =====
-- src/key_names.cpp and include/aoahid_player/key_names.hpp: the names of keys and media keys.
pub mod Lookup
use aoahid_player.Base.{
  ℕ, ◌+◌, ◌-◌, ◌*◌, Bool, true, false, not, ◌&&◌, ◌||◌, Option, none, some, List, [], ◌∷◌, length,
  take, drop, get_or, ltb, leb, ◌==◌, if◌then◌else◌,
}
use aoahid_player.Text.{Bytes, codes, lower}

pub record Named : Type 0 where
  pub name : Bytes
  pub usage : ℕ

-- The text, lowered, is the name.
unfoldable pub same : Bytes → Bytes → Bool
same [] [] = true
same [] (y ∷ ys) = false
same (x ∷ xs) [] = false
same (x ∷ xs) (y ∷ ys) = lower x == y && same xs ys

abbrev pub names : List Named
names =
    record { name = codes "enter"; usage = 40 }
    ∷ record { name = codes "return"; usage = 40 }
    ∷ record { name = codes "esc"; usage = 41 }
    ∷ record { name = codes "escape"; usage = 41 }
    ∷ record { name = codes "backspace"; usage = 42 }
    ∷ record { name = codes "tab"; usage = 43 }
    ∷ record { name = codes "space"; usage = 44 }
    ∷ record { name = codes "minus"; usage = 45 }
    ∷ record { name = codes "equal"; usage = 46 }
    ∷ record { name = codes "lbracket"; usage = 47 }
    ∷ record { name = codes "rbracket"; usage = 48 }
    ∷ record { name = codes "backslash"; usage = 49 }
    ∷ record { name = codes "semicolon"; usage = 51 }
    ∷ record { name = codes "quote"; usage = 52 }
    ∷ record { name = codes "grave"; usage = 53 }
    ∷ record { name = codes "comma"; usage = 54 }
    ∷ record { name = codes "period"; usage = 55 }
    ∷ record { name = codes "slash"; usage = 56 }
    ∷ record { name = codes "capslock"; usage = 57 }
    ∷ record { name = codes "printscreen"; usage = 70 }
    ∷ record { name = codes "scrolllock"; usage = 71 }
    ∷ record { name = codes "pause"; usage = 72 }
    ∷ record { name = codes "insert"; usage = 73 }
    ∷ record { name = codes "home"; usage = 74 }
    ∷ record { name = codes "pageup"; usage = 75 }
    ∷ record { name = codes "delete"; usage = 76 }
    ∷ record { name = codes "end"; usage = 77 }
    ∷ record { name = codes "pagedown"; usage = 78 }
    ∷ record { name = codes "right"; usage = 79 }
    ∷ record { name = codes "left"; usage = 80 }
    ∷ record { name = codes "down"; usage = 81 }
    ∷ record { name = codes "up"; usage = 82 }
    ∷ record { name = codes "numlock"; usage = 83 }
    ∷ record { name = codes "lctrl"; usage = 224 }
    ∷ record { name = codes "lshift"; usage = 225 }
    ∷ record { name = codes "lalt"; usage = 226 }
    ∷ record { name = codes "lgui"; usage = 227 }
    ∷ record { name = codes "rctrl"; usage = 228 }
    ∷ record { name = codes "rshift"; usage = 229 }
    ∷ record { name = codes "ralt"; usage = 230 }
    ∷ record { name = codes "rgui"; usage = 231 }
    ∷ record { name = codes "ctrl"; usage = 224 }
    ∷ record { name = codes "control"; usage = 224 }
    ∷ record { name = codes "shift"; usage = 225 }
    ∷ record { name = codes "alt"; usage = 226 }
    ∷ record { name = codes "gui"; usage = 227 }
    ∷ record { name = codes "win"; usage = 227 }
    ∷ record { name = codes "meta"; usage = 227 }
    ∷ record { name = codes "super"; usage = 227 }
    ∷ record { name = codes "lwin"; usage = 227 }
    ∷ record { name = codes "rwin"; usage = 231 }
    ∷ record { name = codes "menu"; usage = 101 }
    ∷ []

abbrev pub media_names : List Named
media_names =
    record { name = codes "next"; usage = 181 }
    ∷ record { name = codes "prev"; usage = 182 }
    ∷ record { name = codes "previous"; usage = 182 }
    ∷ record { name = codes "stop"; usage = 183 }
    ∷ record { name = codes "playpause"; usage = 205 }
    ∷ record { name = codes "mute"; usage = 226 }
    ∷ record { name = codes "volumeup"; usage = 233 }
    ∷ record { name = codes "volumedown"; usage = 234 }
    ∷ record { name = codes "home"; usage = 547 }
    ∷ record { name = codes "back"; usage = 548 }
    ∷ record { name = codes "new"; usage = 513 }
    ∷ record { name = codes "brightnessup"; usage = 111 }
    ∷ record { name = codes "brightnessdown"; usage = 112 }
    ∷ []

abbrev pub media_usages : List ℕ
media_usages = 181 ∷ 182 ∷ 183 ∷ 205 ∷ 226 ∷ 233 ∷ 234 ∷ 547 ∷ 548 ∷ 568 ∷ 513 ∷ 111 ∷ 112 ∷ []

-- The loop over a table: the first entry with the name.
unfoldable pub usage_of : List Named → Bytes → Option ℕ
unfolding same
usage_of [] name = none
usage_of (e ∷ es) name = if same name e.name then some e.usage else usage_of es name

abbrev pub is_digit : ℕ → Bool
is_digit c = leb b'0' c && leb c b'9'

-- The loop of function_key; none at a byte that is no digit.
unfoldable pub number_of : ℕ → Bytes → Option ℕ
number_of number [] = some number
number_of number (c ∷ cs) = if is_digit c then number_of (number * 10 + (c - b'0')) cs else none

-- "1".."24" behind an f.
unfoldable pub function_key : Bytes → Option ℕ
unfolding number_of
function_key name =
    if ltb (length name) 2 || ltb 3 (length name) || not (lower (get_or name 0 0) == b'f')
    then none
    else elim (number_of 0 (drop 1 name)) [
      | none ↦ none
      | some number ↦
          if get_or name 1 0 == b'0' || ltb number 1 || ltb 24 number
          then none
          else some (if leb number 12 then 58 + (number - 1) else 104 + (number - 13))
    ]

unfoldable pub letter_key : Bytes → Option ℕ
letter_key name =
    let c = lower (get_or name 0 0) in
    if leb b'a' c && leb c b'z' then some (4 + (c - b'a')) else none

unfoldable pub is_digit_name : Bytes → Bool
unfolding same
is_digit_name name =
    length name == 6
    && same (take 5 name) (codes "digit")
    && leb b'0' (get_or name 5 0)
    && leb (get_or name 5 0) b'9'

unfoldable pub digit_key : Bytes → ℕ
digit_key name = let c = get_or name 5 0 in if c == b'0' then 39 else 30 + (c - b'1')

unfoldable pub key_usage_from_name : Bytes → Option ℕ
unfolding letter_key is_digit_name digit_key function_key usage_of
key_usage_from_name name =
    if length name == 1
    then letter_key name
    else if is_digit_name name
    then some (digit_key name)
    else elim (function_key name) [ some usage ↦ some usage | none ↦ usage_of names name ]

unfoldable pub any_usage : List ℕ → ℕ → Bool
any_usage [] usage = false
any_usage (known ∷ rest) usage = if known == usage then true else any_usage rest usage

unfoldable pub media_usage_supported : ℕ → Bool
unfolding any_usage
media_usage_supported usage = any_usage media_usages usage

unfoldable pub media_usage_from_name : Bytes → Option ℕ
unfolding usage_of
media_usage_from_name name = usage_of media_names name
