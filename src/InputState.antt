-- ===== src/InputState.antt =====
-- InputState and state_at of include/aoahid_player/input_state.hpp and src/input_state.cpp: what a
-- sequence of rows leaves held, the rows that lead from one such state to another, and the state
-- that playback has at a row. A std::array is a list of its length, a std::bitset a list of bits, and
-- a sorted std::vector a list that is searched from its front.
pub mod Held
pub mod Apply
pub mod Rebuild
pub mod Transition
use aoahid_player.Base.Int.{ℤ, pos, negsuc, eqb_ℤ}
use aoahid_player.Base.{
  ℕ, zero, suc, ◌-◌, ◌≡◌, min, Bool, true, false, not, ◌&&◌, ◌||◌, List, [], ◌∷◌, length, get_or,
  set, replicate, ltb, ◌==◌, if◌then◌else◌,
}
use aoahid_player.Event.{
  EventPayload, EventRecord, TouchEvent, ButtonEvent, KeyEvent, GamepadAxis, GamepadDpad,
  StylusSample, touch_event, mouse_move, mouse_button, key_event, gamepad_button, gamepad_axis,
  gamepad_dpad, pen_sample, digitizer_sample, media_key,
}
use aoahid_player.Laps.{runs_on, last_run_before}
use aoahid_player.Timeline.{Segment, EventScript, row_at}

pub record Contact : Type 0 where
  pub active : Bool
  pub x : ℤ
  pub y : ℤ

abbrev pub max_contacts : ℕ
max_contacts = 16

abbrev pub max_axes : ℕ
max_axes = 64

-- The size of the bitset of keys.
abbrev pub key_count : ℕ
key_count = 256

pub record InputState : Type 0 where
  pub contacts : List Contact
  pub keys : List Bool
  pub mouse_buttons : List ℕ
  pub pad_buttons : List ℕ
  pub axes : List ℤ
  pub dpad : GamepadDpad
  pub pen : StylusSample
  pub digitizer : StylusSample
  pub media : List ℕ

abbrev pub no_contact : Contact
no_contact = record { active = false; x = pos 0; y = pos 0 }

abbrev pub no_dpad : GamepadDpad
no_dpad = record { up = false; down = false; right = false; left = false }

abbrev pub no_stylus : StylusSample
no_stylus = record { in_range = false; tip = false; x = pos 0; y = pos 0; pressure = pos 0 }

-- InputState{}, and what clear() leaves.
abbrev pub cleared : InputState
cleared = record {
  contacts = replicate max_contacts no_contact;
  keys = replicate key_count false;
  mouse_buttons = [];
  pad_buttons = [];
  axes = replicate max_axes (pos 0);
  dpad = no_dpad;
  pen = no_stylus;
  digitizer = no_stylus;
  media = [];
}

-- clear() assigns every member.
unfoldable pub clear : InputState → InputState
clear s = cleared

-- std::lower_bound, and the insertion or removal there.
unfoldable pub set_member : List ℕ → ℕ → Bool → List ℕ
set_member [] value present = if present then value ∷ [] else []
set_member (x ∷ xs) value present =
    if ltb x value
    then x ∷ set_member xs value present
    else if x == value
    then (if present then x ∷ xs else xs)
    else if present
    then value ∷ x ∷ xs
    else x ∷ xs

-- std::binary_search.
unfoldable pub contains : List ℕ → ℕ → Bool
contains [] value = false
contains (x ∷ xs) value = if ltb x value then contains xs value else x == value

-- A finger out of range is ignored, as is a key or an axis below.
unfoldable pub touch_contacts : List Contact → TouchEvent → ℤ → List Contact
touch_contacts contacts e (negsuc n) = contacts
touch_contacts contacts e (pos id) =
    if ltb id max_contacts
    then set contacts id (record { active = e.state; x = e.x; y = e.y })
    else contacts

unfoldable pub apply : InputState → EventPayload → InputState
unfolding touch_contacts
apply s (touch_event e) = record s { contacts = touch_contacts s.contacts e e.finger_id }
apply s (mouse_move e) = s
apply s (mouse_button e) = record s {
  mouse_buttons = set_member s.mouse_buttons e.button e.pressed;
}
apply s (key_event e) = record s {
  keys = if ltb e.usage key_count then set s.keys e.usage e.down else s.keys;
}
apply s (gamepad_button e) = record s { pad_buttons = set_member s.pad_buttons e.button e.pressed }
apply s (gamepad_axis e) = record s {
  axes = if ltb e.axis_index max_axes then set s.axes e.axis_index e.value else s.axes;
}
apply s (gamepad_dpad e) = record s { dpad = e }
apply s (pen_sample e) = record s { pen = e }
apply s (digitizer_sample e) = record s { digitizer = e }
apply s (media_key e) = record s { media = set_member s.media e.usage e.down }

unfoldable pub apply_all : InputState → List EventPayload → InputState
apply_all s [] = s
apply_all s (e ∷ es) = apply_all (apply s e) es

abbrev pub any {ℓ} : {A : Type ℓ} → (A → Bool) → List A → Bool
any p [] = false
any p (x ∷ xs) = p x || any p xs

abbrev pub is_empty {ℓ} : {A : Type ℓ} → List A → Bool
is_empty [] = true
is_empty (x ∷ xs) = false

unfoldable pub dpad_neutral : GamepadDpad → Bool
dpad_neutral d = not d.up && not d.down && not d.right && not d.left

unfoldable pub neutral : InputState → Bool
unfolding dpad_neutral
neutral s =
    if any (λ c. c.active) s.contacts
    then false
    else if any (λ a. not (eqb_ℤ a (pos 0))) s.axes
    then false
    else not (any (λ k. k) s.keys)
      && is_empty s.mouse_buttons
      && is_empty s.pad_buttons
      && dpad_neutral s.dpad
      && not s.pen.in_range
      && not s.digitizer.in_range
      && is_empty s.media

-- The payloads of rows[at, at + n).
abbrev pub payloads : List EventRecord → ℕ → ℕ → List EventPayload
payloads rows at zero = []
payloads rows at (suc n) = (row_at rows at).payload ∷ payloads rows (suc at) n

-- The segments that ran on an earlier lap, by their index.
unfoldable pub ran_before : ℕ → ℕ → List Segment → List ℕ
ran_before lap index [] = []
ran_before lap index (s ∷ ss) =
    if not (last_run_before s.when lap == 0)
    then index ∷ ran_before lap (suc index) ss
    else ran_before lap (suc index) ss

abbrev pub last_run_at : List Segment → ℕ → ℕ → ℕ
last_run_at [] lap index = 0
last_run_at (s ∷ ss) lap zero = last_run_before s.when lap
last_run_at (s ∷ ss) lap (suc index) = last_run_at ss lap index

-- The comparison that state_at sorts by.
unfoldable pub ran_earlier : List Segment → ℕ → ℕ → ℕ → Bool
ran_earlier segments lap a b =
    let lap_a = last_run_at segments lap a in
    let lap_b = last_run_at segments lap b in
    if not (lap_a == lap_b) then ltb lap_a lap_b else ltb a b

-- std::sort by a strict total order.
unfoldable pub insert_by {ℓ} : {A : Type ℓ} → (A → A → Bool) → A → List A → List A
insert_by less a [] = a ∷ []
insert_by less a (x ∷ xs) = if less a x then a ∷ x ∷ xs else x ∷ insert_by less a xs

unfoldable pub sort_by {ℓ} : {A : Type ℓ} → (A → A → Bool) → List A → List A
unfolding insert_by
sort_by less [] = []
sort_by less (x ∷ xs) = insert_by less x (sort_by less xs)

abbrev pub segment_payloads : List EventRecord → List Segment → ℕ → List EventPayload
segment_payloads rows [] index = []
segment_payloads rows (s ∷ ss) zero = payloads rows s.begin (s.end - s.begin)
segment_payloads rows (s ∷ ss) (suc index) = segment_payloads rows ss index

-- The rows of the segments of `order`, applied in turn.
unfoldable pub apply_order : EventScript → List ℕ → InputState → InputState
apply_order script [] s = s
apply_order script (index ∷ order) s =
    apply_order script order (apply_all s (segment_payloads script.rows script.segments index))

-- The rows of a lap before `row`.
unfoldable pub apply_lap : List EventRecord → ℕ → ℕ → List Segment → InputState → InputState
apply_lap rows lap row [] s = s
apply_lap rows lap row (g ∷ gs) s = apply_lap rows lap row gs (
    if runs_on g.when lap then apply_all s (payloads rows g.begin (min g.end row - g.begin)) else s)

unfoldable pub state_at : EventScript → ℕ → ℕ → InputState → InputState
unfolding clear
state_at script lap row out =
    let order = sort_by (ran_earlier script.segments lap) (ran_before lap 0 script.segments) in
    apply_lap script.rows lap row script.segments (apply_order script order (clear out))
