-- ===== src/Device/Names.antt =====
-- profile_name, profile_title, describe_profiles and device_label of
-- src/device.cpp. The codes of aoahid_adb_proxy are those of its public enumeration that the source
-- names.
use aoahid_player.Aoahid.Options.{DeviceInfo}
use aoahid_player.Base.{
  ℕ, ◌+◌, ◌-◌, ◌/◌, ◌%◌, ◌∷◌, [], List, ◌&&◌, Option, none, some, ◌++◌, map, leb, ltb,
  if◌then◌else◌,
}
use aoahid_player.Event.{Profile, touch, mouse, key, gamepad, pen, digitizer, toggle}
use aoahid_player.Setup.{Mask, all_profiles}
use aoahid_player.Text.{Bytes, codes}

unfoldable pub profile_name : Profile → Bytes
profile_name touch = codes "touch"
profile_name mouse = codes "mouse"
profile_name key = codes "key"
profile_name gamepad = codes "gamepad"
profile_name pen = codes "pen"
profile_name digitizer = codes "digitizer"
profile_name toggle = codes "toggle"

unfoldable pub profile_title : Profile → Bytes
profile_title touch = codes "Touchscreen"
profile_title mouse = codes "Mouse"
profile_title key = codes "Keyboard"
profile_title gamepad = codes "Gamepad"
profile_title pen = codes "Pen"
profile_title digitizer = codes "Digitizer"
profile_title toggle = codes "Toggle Controls"

abbrev pub to_lower : ℕ → ℕ
to_lower c = if leb b'A' c && leb c b'Z' then c + 32 else c

-- The names of the profiles of a mask, in order.
unfoldable pub profile_titles : Mask → List Profile → List Bytes
unfolding profile_title
profile_titles mask [] = []
profile_titles mask (profile ∷ rest) =
    let next = profile_titles mask rest in
    if mask profile then map to_lower (profile_title profile) ∷ next else next

-- The loop that joins the names: `first` is its first round.
unfoldable pub join_names : List Bytes → Bytes
join_names [] = []
join_names (name ∷ []) = name
join_names (name ∷ last ∷ []) = name ++ codes " and " ++ last
join_names (name ∷ next ∷ more ∷ rest) = name ++ codes ", " ++ join_names (next ∷ more ∷ rest)

unfoldable pub describe_profiles : Mask → Bytes
unfolding profile_titles join_names
describe_profiles mask = elim (join_names (profile_titles mask all_profiles)) [
  | [] ↦ codes "no profile"
  | c ∷ cs ↦ c ∷ cs
]

-- A digit of "%04x".
abbrev pub hex_digit : ℕ → ℕ
hex_digit d = if ltb d 10 then b'0' + d else b'a' + (d - 10)

-- "%04x" of a uint16_t.
unfoldable pub hex4 : ℕ → Bytes
hex4 n =
    hex_digit (n / 4096 % 16)
    ∷ hex_digit (n / 256 % 16)
    ∷ hex_digit (n / 16 % 16)
    ∷ hex_digit (n % 16)
    ∷ []

-- A text that is present and not empty, or a default.
abbrev present_or : Option Bytes → Bytes → Bytes
present_or none d = d
present_or (some []) d = d
present_or (some (c ∷ cs)) d = c ∷ cs

unfoldable pub device_label : Option DeviceInfo → Bytes
unfolding hex4
device_label none = codes "(unknown device)"
device_label (some info) =
    present_or info.product (codes "(no product name)")
    ++ codes "  "
    ++ hex4 info.vendor_id
    ++ codes ":"
    ++ hex4 info.product_id
    ++ codes "  "
    ++ present_or info.serial (codes "(no serial)")
