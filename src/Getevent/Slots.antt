-- ===== src/Getevent/Slots.antt =====
-- The tokens of a line, the slots of a device and the frames of src/getevent_parser.cpp.
use aoahid_player.Base.Int.{ℤ, pos, negsuc, leb_ℤ, ◌-ℤ◌}
use aoahid_player.Base.{
  ℕ, suc, ◌-◌, ◌^◌, Bool, true, false, not, ◌&&◌, ◌||◌, Option, none, some, List, [], ◌∷◌, ◌++◌,
  length, drop, get_or, set, replicate, ltb, ◌==◌, if◌then◌else◌,
}
use aoahid_player.Event.{EventPayload, EventRecord, touch_event}
use aoahid_player.Scale.{to_ℕ}
use aoahid_player.Script.Numbers.{Doubles, c_str}
use aoahid_player.Text.{Bytes, codes, same_bytes, trim, break_at, is_blank, from_chars}
use aoahid_player.Getevent.KeyTable.{KeyMapping, key_table}

pub record Slot : Type 0 where
  pub x : ℤ
  pub y : ℤ
  pub active : Bool
  pub changed : Bool
  pub lifting : Bool
  pub placed : Bool

abbrev pub no_slot : Slot
no_slot = record {
  x = pos 0;
  y = pos 0;
  active = false;
  changed = false;
  lifting = false;
  placed = false;
}

abbrev pub max_slots : ℕ
max_slots = 16

pub record DeviceState : Type 0 where
  pub slot : ℕ
  pub slots : List Slot
  pub frame_dirty : Bool

abbrev pub new_device : DeviceState
new_device = record { slot = 0; slots = replicate max_slots no_slot; frame_dirty = false }

pub record GeteventParser : Type 0 where
  pub devices : List (Bytes × DeviceState)
  pub frame_rows : List EventRecord
  pub pending : List EventRecord
  pub pending_time_ns : ℤ
  pub filter : Bytes
  pub unmapped_keys : ℕ
  pub first_unmapped_key : Bytes

abbrev pub new_parser : GeteventParser
new_parser = record {
  devices = [];
  frame_rows = [];
  pending = [];
  pending_time_ns = negsuc 0;
  filter = [];
  unmapped_keys = 0;
  first_unmapped_key = [];
}

-- The token, and what follows it.
unfoldable pub next_token : Bytes → Bytes × Bytes
next_token text = break_at is_blank (trim text)

unfoldable pub parse_hex32 : Bytes → Option ℕ
parse_hex32 text = from_chars 16 (2 ^ 32 - 1) text

abbrev is_close : ℕ → Bool
is_close c = c == b']'

-- The time, -1 where there is none, and the rest of the line.
unfoldable pub parse_timestamp : Doubles → Bytes → ℤ × Bytes
parse_timestamp D line =
    let text = trim line in
    let parts = break_at is_close text in
    let r = D.strtod (c_str (trim (drop 1 parts.0))) in
    if not (get_or text 0 0 == b'[')
    then (negsuc 0, text)
    else if length parts.1 == 0
    then (negsuc 0, text)
    else if r.1.0 == 0 || D.less r.0 (D.of_ℕ 0)
    then (negsuc 0, drop 1 parts.1)
    else (D.trunc (D.times r.0 (D.of_ℕ 1000000000)), drop 1 parts.1)

unfoldable pub usage_by : (KeyMapping → Bool) → List KeyMapping → Option ℕ
usage_by p [] = none
usage_by p (e ∷ es) = if p e then some e.hid_usage else usage_by p es

-- By the label, or else by the code in hexadecimal.
unfoldable pub key_usage : Bytes → Option ℕ
unfolding usage_by parse_hex32
key_usage token = elim (usage_by (λ e. same_bytes e.name token) key_table) [
  | some usage ↦ some usage
  | none ↦ elim (parse_hex32 token) [
    | none ↦ none
    | some code ↦ usage_by (λ e. e.linux_code == code) key_table
  ]
]

unfoldable pub find_device : List (Bytes × DeviceState) → Bytes → DeviceState
find_device [] device = new_device
find_device ((name, state) ∷ rest) device =
    if same_bytes name device then state else find_device rest device

unfoldable pub put_device :
    List (Bytes × DeviceState) → Bytes → DeviceState → List (Bytes × DeviceState)
put_device [] device state = (device, state) ∷ []
put_device ((name, old) ∷ rest) device state =
    if same_bytes name device
    then (name, state) ∷ rest
    else (name, old) ∷ put_device rest device state

abbrev pub staged : EventPayload → EventRecord
staged payload = record { payload = payload; wait_ns = 0 }

-- One slot when a frame closes, and the row that it stages.
unfoldable pub close_slot : ℕ → Slot → Slot × List EventRecord
close_slot index slot =
    let row = λ (down : Bool).
      staged (touch_event (record { finger_id = pos index; state = down; x = slot.x; y = slot.y }))
      ∷ [] in
    if not slot.changed
    then (slot, [])
    else if slot.lifting
    then (
      record slot { changed = false; lifting = false; active = false; placed = false },
      if slot.placed then row false else [],
    )
    else if slot.active
    then (record slot { changed = false; placed = true }, row true)
    else (record slot { changed = false }, [])

unfoldable pub close_slots : ℕ → List Slot → List Slot × List EventRecord
unfolding close_slot
close_slots index [] = ([], [])
close_slots index (slot ∷ slots) =
    let here = close_slot index slot in
    let rest = close_slots (suc index) slots in (here.0 ∷ rest.0, here.1 ++ rest.1)

-- The last row waits.
unfoldable pub with_wait : ℕ → List EventRecord → List EventRecord
with_wait wait_ns [] = []
with_wait wait_ns (r ∷ []) = record r { wait_ns = wait_ns } ∷ []
with_wait wait_ns (r ∷ (s ∷ rows)) = r ∷ with_wait wait_ns (s ∷ rows)

unfoldable pub frame_wait : ℤ → ℤ → ℕ
frame_wait pending_time timestamp =
    if leb_ℤ (pos 0) pending_time && leb_ℤ pending_time timestamp
    then to_ℕ (timestamp -ℤ pending_time)
    else 0

-- The parser, and the rows that it appends.
unfoldable pub release_pending : ℤ → GeteventParser → GeteventParser × List EventRecord
unfolding with_wait frame_wait
release_pending timestamp p =
    (record p { pending = [] }, with_wait (frame_wait p.pending_time_ns timestamp) p.pending)

-- The rest of close_frame, with the rows of the frame staged.
unfoldable pub hold_frame : ℤ → GeteventParser → GeteventParser × List EventRecord
unfolding release_pending
hold_frame timestamp p =
    let r = release_pending timestamp p in
    if length p.frame_rows == 0 then (p, []) else (
      record (r.0) { pending = p.frame_rows; frame_rows = []; pending_time_ns = timestamp },
      r.1,
    )

unfoldable pub close_frame :
    Bytes → DeviceState → ℤ → GeteventParser → GeteventParser × List EventRecord
unfolding close_slots hold_frame
close_frame device state timestamp p =
    let closed = close_slots 0 state.slots in
    let after =
      if state.frame_dirty
      then record p {
        devices =
            put_device p.devices device (record state { frame_dirty = false; slots = closed.0 });
        frame_rows = p.frame_rows ++ closed.1;
      }
      else record p { devices = put_device p.devices device state } in
    hold_frame timestamp after

-- static_cast<int32_t> of a uint32_t.
unfoldable pub to_int32 : ℕ → ℤ
to_int32 raw = if ltb raw (2 ^ 31) then pos raw else negsuc (2 ^ 32 - 1 - raw)

abbrev pub set_slot : DeviceState → Slot → Bool → DeviceState
set_slot state slot dirty = record state {
  slots = set state.slots state.slot slot;
  frame_dirty = state.frame_dirty || dirty;
}

unfoldable pub track : DeviceState → Slot → ℕ → DeviceState
track state slot raw =
    if raw == 2 ^ 32 - 1
    then (if slot.active
        then set_slot state (record slot { lifting = true; changed = true }) true
        else state)
    else if not slot.active
    then set_slot state (record slot { active = true; lifting = false; changed = true }) true
    else state

-- A position marks the slot as changed where it is active.
unfoldable pub moved : DeviceState → Slot → DeviceState
moved state slot =
    if slot.active
    then set_slot state (record slot { changed = true }) true
    else set_slot state slot false

-- EV_ABS with a value.
unfoldable pub abs_event : Bytes → ℕ → DeviceState → DeviceState
unfolding track moved to_int32
abs_event code raw state =
    let slot = get_or state.slots state.slot no_slot in
    if same_bytes code (codes "ABS_MT_SLOT")
    then record state { slot = if ltb raw max_slots then raw else max_slots }
    else if not (ltb state.slot max_slots)
    then state
    else if same_bytes code (codes "ABS_MT_TRACKING_ID")
    then track state slot raw
    else if same_bytes code (codes "ABS_MT_POSITION_X") || same_bytes code (codes "ABS_X")
    then moved state (record slot { x = to_int32 raw })
    else if same_bytes code (codes "ABS_MT_POSITION_Y") || same_bytes code (codes "ABS_Y")
    then moved state (record slot { y = to_int32 raw })
    else state
