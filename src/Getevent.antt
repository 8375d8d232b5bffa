-- ===== src/Getevent.antt =====
-- GeteventParser of include/aoahid_player/getevent_parser.hpp and src/getevent_parser.cpp: the lines
-- of getevent, one by one, into rows. The map of devices is an association list; a lookup of a device
-- that is not there gives a fresh state.
mod Slots
pub mod KeyTable
pub mod Usages
pub mod Frames
pub mod TouchRange
use aoahid_player.Base.Int.{ℤ, pos, ltb_ℤ}
use aoahid_player.Base.{
  ℕ, ◌+◌, ◌-◌, ◌%◌, ◌^◌, Bool, true, false, not, ◌&&◌, ◌||◌, Option, none, some, List, [], ◌∷◌,
  ◌++◌, length, drop, get_or, ltb, ◌==◌, if◌then◌else◌,
}
use aoahid_player.Event.{EventRecord, key_event}
use aoahid_player.Script.Numbers.{Doubles}
use aoahid_player.Text.{Bytes, codes, same_bytes, trim, break_at}
unfoldable pub use Slots.*

-- Whether a key went down, none for a value that is no edge.
unfoldable pub key_edge : Bytes → Option Bool
unfolding parse_hex32
key_edge value =
    if same_bytes value (codes "DOWN")
    then some true
    else if same_bytes value (codes "UP")
    then some false
    else elim (parse_hex32 value) [
      | none ↦ none
      | some raw ↦ if ltb 1 raw then none else some (raw == 1)
    ]

abbrev pub starts_with : Bytes → Bytes → Bool
starts_with [] text = true
starts_with (k ∷ ks) [] = false
starts_with (k ∷ ks) (c ∷ cs) = k == c && starts_with ks cs

unfoldable pub count_unmapped : Bytes → GeteventParser → GeteventParser
count_unmapped code p = record p {
  unmapped_keys = (p.unmapped_keys + 1) % 2 ^ 64;
  first_unmapped_key = if length p.first_unmapped_key == 0 then code else p.first_unmapped_key;
}

-- EV_KEY
unfoldable pub key_line : Bytes → Bytes → GeteventParser → GeteventParser
unfolding key_edge key_usage count_unmapped
key_line code value p = elim (key_edge value) [
  | none ↦ p
  | some down ↦
      if same_bytes code (codes "BTN_TOUCH") || starts_with (codes "BTN_TOOL_") code
      then p
      else elim (key_usage code) [
        | none ↦ count_unmapped code p
        | some usage ↦ record p {
          frame_rows =
              p.frame_rows ++ staged (key_event (record { usage = usage; down = down })) ∷ [];
        }
      ]
]

-- A line of a device that is recorded.
unfoldable pub device_line : Bytes → Bytes → ℤ → GeteventParser → GeteventParser × List EventRecord
unfolding next_token close_frame abs_event key_line parse_hex32
device_line device line timestamp p =
    let type = next_token line in
    let code = next_token type.1 in
    let value = next_token code.1 in
    let state = find_device p.devices device in
    let known = record p { devices = put_device p.devices device state } in
    if length type.0 == 0 || length code.0 == 0
    then (p, [])
    else if same_bytes type.0 (codes "EV_SYN")
    then (if same_bytes code.0 (codes "SYN_REPORT")
        then close_frame device state timestamp p
        else (known, []))
    else if same_bytes type.0 (codes "EV_ABS")
    then elim (parse_hex32 value.0) [
      | none ↦ (known, [])
      | some raw ↦
          (record p { devices = put_device p.devices device (abs_event code.0 raw state) }, [])
    ]
    else if same_bytes type.0 (codes "EV_KEY")
    then (key_line code.0 value.0 known, [])
    else (known, [])

abbrev is_colon : ℕ → Bool
is_colon c = c == b':'

-- The parser, and the rows that feed appends.
unfoldable pub feed : Doubles → Bytes → ℤ → GeteventParser → GeteventParser × List EventRecord
unfolding parse_timestamp device_line
feed D line host_now_ns p =
    let stamped = parse_timestamp D (trim line) in
    let timestamp = if ltb_ℤ stamped.0 (pos 0) then host_now_ns else stamped.0 in
    let parts = break_at is_colon (trim stamped.1) in
    let device = trim parts.0 in
    if length (trim line) == 0
    then (p, [])
    else if length parts.1 == 0
    then (p, [])
    else if not (get_or device 0 0 == b'/')
    then (p, [])
    else if not (length p.filter == 0) && not (same_bytes device p.filter)
    then (p, [])
    else device_line device (drop 1 parts.1) timestamp p

unfoldable pub finish : GeteventParser → GeteventParser × List EventRecord
finish p = (record p { pending = []; frame_rows = [] }, p.pending ++ p.frame_rows)
