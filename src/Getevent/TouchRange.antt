-- ===== src/Getevent/TouchRange.antt =====
-- parse_touch_range of src/getevent_parser.cpp: the space of the touch positions, from getevent -lp.
use aoahid_player.Base.Int.{ℤ, pos, negsuc, ltb_ℤ, leb_ℤ, eqb_ℤ, ◌+ℤ◌}
use aoahid_player.Base.{
  ℕ, zero, suc, ◌-◌, ◌^◌, Bool, true, false, not, ◌&&◌, ◌||◌, Option, none, some, List, [], ◌∷◌,
  length, drop, leb, ◌==◌, if◌then◌else◌,
}
use aoahid_player.Text.{Bytes, codes, same_bytes, break_at, split_on, from_chars, drop_front}

abbrev begins : Bytes → Bytes → Bool
begins [] text = true
begins (k ∷ ks) [] = false
begins (k ∷ ks) (c ∷ cs) = k == c && begins ks cs

-- find: what follows the first occurrence of the key.
unfoldable pub find_text : Bytes → Bytes → Option Bytes
find_text key [] = none
find_text key (c ∷ cs) =
    let later = find_text key cs in
    if begins key (c ∷ cs) then some (drop (length key) (c ∷ cs)) else later

abbrev has_text : Bytes → Bytes → Bool
has_text key line = elim (find_text key line) [ none ↦ false | some rest ↦ true ]

abbrev no_digit : ℕ → Bool
no_digit c = not (leb b'0' c && leb c b'9')

-- std::from_chars on a long that the text starts with.
unfoldable pub long_prefix : Bytes → Option ℤ
long_prefix [] = none
long_prefix (c ∷ cs) =
    if c == b'-'
    then elim (from_chars 10 (2 ^ 63) (break_at no_digit cs).0) [
      | none ↦ none
      | some zero ↦ some (pos 0)
      | some (suc n) ↦ some (negsuc n)
    ]
    else elim (from_chars 10 (2 ^ 63 - 1) (break_at no_digit (c ∷ cs)).0) [
      | none ↦ none
      | some n ↦ some (pos n)
    ]

unfoldable pub skip_spaces : Bytes → Bytes
skip_spaces [] = []
skip_spaces (c ∷ cs) = if c == b' ' then skip_spaces cs else c ∷ cs

-- The integer after the key in the line of an axis.
unfoldable pub field_after : Bytes → Bytes → Option ℤ
unfolding find_text long_prefix skip_spaces
field_after line key = elim (find_text key line) [
  | none ↦ none
  | some rest ↦ long_prefix (skip_spaces rest)
]

pub record TouchScan : Type 0 where
  pub current : Bytes
  pub max_x : ℤ
  pub max_y : ℤ

abbrev pub no_scan : TouchScan
no_scan = record { current = []; max_x = negsuc 0; max_y = negsuc 0 }

unfoldable pub drop_back_of : Bytes → Bytes
drop_back_of [] = []
drop_back_of (c ∷ cs) = elim (drop_back_of cs) [
  | [] ↦ if c == b'\r' || c == b' ' then [] else c ∷ []
  | d ∷ ds ↦ c ∷ d ∷ ds
]

abbrev is_colon : ℕ → Bool
is_colon c = c == b':'

-- A line that names the next device, by what follows "add device ".
unfoldable pub device_named : Bytes → TouchScan
unfolding drop_back_of
device_named rest = record no_scan {
  current = drop_back_of (drop_front (drop 1 (break_at is_colon rest).1));
}

-- A maximum that can be used: the axis starts at zero.
unfoldable pub axis_maximum : Bytes → Option ℤ
unfolding field_after
axis_maximum line = elim (field_after line (codes "min ")) [
  | none ↦ none
  | some minimum ↦ elim (field_after line (codes "max ")) [
    | none ↦ none
    | some maximum ↦
        if not (eqb_ℤ minimum (pos 0))
        then none
        else if ltb_ℤ maximum (pos 1) || leb_ℤ (pos (2 ^ 31 - 1)) maximum
        then none
        else some maximum
  ]
]

unfoldable pub axis_line : Bytes → Bytes → TouchScan → TouchScan
unfolding axis_maximum
axis_line device line s =
    let is_x = has_text (codes "ABS_MT_POSITION_X") line in
    let is_y = has_text (codes "ABS_MT_POSITION_Y") line in
    if not (length device == 0) && not (same_bytes s.current device)
    then s
    else if not is_x && not is_y
    then s
    else elim (axis_maximum line) [
      | none ↦ s
      | some maximum ↦ if is_x then record s { max_x = maximum } else record s { max_y = maximum }
    ]

unfoldable pub scan_line : Bytes → Bytes → TouchScan → TouchScan
unfolding find_text device_named axis_line
scan_line device line s = elim (find_text (codes "add device ") line) [
  | some rest ↦ device_named rest
  | none ↦ axis_line device line s
]

unfoldable pub scan_lines : Bytes → List Bytes → TouchScan → Option (ℤ × ℤ)
unfolding scan_line
scan_lines device [] s = none
scan_lines device (line ∷ lines) s =
    let next = scan_line device line s in
    let rest = scan_lines device lines next in
    if ltb_ℤ (pos 0) next.max_x && ltb_ℤ (pos 0) next.max_y
    then some (next.max_x +ℤ pos 1, next.max_y +ℤ pos 1)
    else rest

unfoldable pub parse_touch_range : Bytes → Bytes → Option (ℤ × ℤ)
unfolding scan_lines
parse_touch_range text device = scan_lines device (split_on b'\n' text) no_scan
