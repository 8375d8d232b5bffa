-- ===== src/Script/Row.antt =====
-- parse_row of src/event_script.cpp: the columns of a row, by its prefix.
use aoahid_player.Base.Int.{ℤ, pos, negsuc, leb_ℤ}
use aoahid_player.Base.{
  ℕ, ◌-◌, ◌^◌, Bool, true, false, not, ◌&&◌, ◌||◌, Option, none, some, List, [], ◌++◌, length,
  get_or, ◌==◌, if◌then◌else◌,
}
use aoahid_player.Event.{
  EventPayload, StylusSample, touch_event, mouse_move, mouse_button, key_event, gamepad_button,
  gamepad_axis, gamepad_dpad, pen_sample, digitizer_sample, media_key,
}
use aoahid_player.KeyNames.{key_usage_from_name, media_usage_from_name, media_usage_supported}
use aoahid_player.Scale.{to_ℕ}
use aoahid_player.Script.Numbers.{Doubles, parse_int64, parse_bounded, parse_flag, parse_fraction}
use aoahid_player.Text.{Bytes, codes}

-- A value, or the reason that there is none.
pub data Result {ℓ} (A : Type ℓ) : Type ℓ where
  ok : A → Result A
  err : Bytes → Result A

abbrev pub need {ℓ κ} : {A : Type ℓ} {B : Type κ} → Option A → Bytes → (A → Result B) → Result B
need none reason f = err reason
need (some a) reason f = f a

abbrev pub require {ℓ} : {A : Type ℓ} → Bool → Bytes → Result A → Result A
require true reason r = r
require false reason r = err reason

abbrev int32 : Bytes → Option ℤ
int32 text = parse_bounded text (negsuc (2 ^ 31 - 1)) (pos (2 ^ 31 - 1))

abbrev field : List Bytes → ℕ → Bytes
field fields i = get_or fields i []

-- With or without the column of the wait.
abbrev has_columns : List Bytes → ℕ → Bool
has_columns fields columns = length fields == columns || length fields == columns - 1

-- The x and the y of a row, as integers or as fractions.
unfoldable pub parse_position : Doubles → Bool → Bytes → Bytes → Bytes → Bytes → Result (ℤ × ℤ)
parse_position D normalized x y no_fraction no_number =
    if normalized
    then need (parse_fraction D x) no_fraction
        (λ a. need (parse_fraction D y) no_fraction (λ b. ok (a, b)))
    else need (int32 x) no_number (λ a. need (int32 y) no_number (λ b. ok (a, b)))

abbrev bind_position : Result (ℤ × ℤ) → (ℤ → ℤ → Result EventPayload) → Result EventPayload
bind_position (err reason) f = err reason
bind_position (ok (x, y)) f = f x y

unfoldable pub touch_row : Doubles → Bool → List Bytes → Result EventPayload
unfolding parse_position
touch_row D normalized fields =
    require (has_columns fields 5) (codes "touch needs finger_id,state,x,y[,wait_ms]") (
      need (parse_bounded (field fields 0) (pos 0) (pos 65535))
        (codes "touch column is not a valid number")
        (λ finger.
          need (parse_flag (field fields 1)) (codes "touch column is not a valid number") (λ state.
            bind_position
              (parse_position D normalized (field fields 2) (field fields 3)
                (codes "touch x and y must be a fraction from 0 to 1 under @coords normalized")
                (codes "touch column is not a valid number"))
              (λ x y.
                ok (touch_event (record { finger_id = finger; state = state; x = x; y = y }))))))

unfoldable pub move_row : List Bytes → Result EventPayload
move_row fields = require (has_columns fields 3) (codes "mouse move needs dx,dy[,wait_ms]") (
    need (int32 (field fields 0)) (codes "mouse delta is not a valid number") (λ dx.
      need (int32 (field fields 1)) (codes "mouse delta is not a valid number")
        (λ dy. ok (mouse_move (record { dx = dx; dy = dy })))))

-- The rows of mouse and gamepad buttons.
unfoldable pub button_row :
    (ℕ → Bool → EventPayload) → Bytes → Bytes → List Bytes → Result EventPayload
button_row payload usage invalid fields = require (has_columns fields 3) usage (
    need (parse_bounded (field fields 0) (pos 1) (pos 65535)) invalid (λ button.
      need (parse_flag (field fields 1)) invalid (λ pressed. ok (payload (to_ℕ button) pressed))))

-- A number is a usage; anything else must be a name.
unfoldable pub usage_or_name : (ℕ → Bool) → (Bytes → Option ℕ) → Bytes → Bytes → Bytes → Result ℕ
usage_or_name supported named text not_usage unknown = elim (parse_int64 text) [
  | none ↦ need (named text) (unknown ++ text ++ codes "\"") ok
  | some v ↦
      require (leb_ℤ (pos 0) v && leb_ℤ v (pos 65535) && supported (to_ℕ v)) not_usage (ok (to_ℕ v))
]

abbrev bind_usage : Result ℕ → (ℕ → Result EventPayload) → Result EventPayload
bind_usage (err reason) f = err reason
bind_usage (ok usage) f = f usage

unfoldable pub key_row : List Bytes → Result EventPayload
unfolding usage_or_name
key_row fields = require (has_columns fields 3) (codes "key needs usage_or_name,down[,wait_ms]") (
    need (parse_flag (field fields 1)) (codes "key down must be 0 or 1") (λ down.
      bind_usage
        (usage_or_name (λ _. true) key_usage_from_name (field fields 0)
          (codes "key usage must be 0..0xffff") (codes "unknown key name \""))
        (λ usage. ok (key_event (record { usage = usage; down = down })))))

unfoldable pub axis_row : List Bytes → Result EventPayload
axis_row fields =
    require (has_columns fields 3) (codes "gamepad axis needs axis_index,value[,wait_ms]") (
      need (parse_bounded (field fields 0) (pos 0) (pos 65535))
        (codes "gamepad axis index or value is not a valid number")
        (λ index.
          need (int32 (field fields 1)) (codes "gamepad axis index or value is not a valid number")
            (λ value. ok (gamepad_axis (record { axis_index = to_ℕ index; value = value })))))

unfoldable pub dpad_row : List Bytes → Result EventPayload
dpad_row fields =
    let reason = codes "each dpad direction must be 0 or 1" in
    require (has_columns fields 5) (codes "dpad needs up,down,right,left[,wait_ms]") (
      need (parse_flag (field fields 0)) reason (λ up.
        need (parse_flag (field fields 1)) reason (λ down.
          need (parse_flag (field fields 2)) reason (λ right.
            need (parse_flag (field fields 3)) reason (λ left.
              ok (gamepad_dpad (record { up = up; down = down; right = right; left = left })))))))

-- The rows of the pen, where the flag is true, and of the digitizer.
unfoldable pub stylus_row : Doubles → Bool → Bool → List Bytes → Result EventPayload
unfolding parse_position
stylus_row D normalized is_pen fields =
    let name = if is_pen then codes "pen" else codes "digitizer" in
    let invalid = name ++ codes " column is not a valid number" in
    require (has_columns fields 6) (name ++ codes " needs in_range,tip,x,y,pressure[,wait_ms]") (
      need (parse_flag (field fields 0)) invalid (λ in_range.
        need (parse_flag (field fields 1)) invalid (λ tip.
          need (int32 (field fields 4)) invalid (λ pressure.
            bind_position
              (parse_position D normalized (field fields 2) (field fields 3)
                (name ++ codes " x and y must be a fraction from 0 to 1 under @coords normalized")
                invalid)
              (λ x y. require (not tip || in_range) (name ++ codes " tip=1 requires in_range=1") (
                let sample : StylusSample = record {
                  in_range = in_range;
                  tip = tip;
                  x = x;
                  y = y;
                  pressure = pressure;
                } in
                ok (if is_pen then pen_sample sample else digitizer_sample sample)))))))

unfoldable pub media_row : List Bytes → Result EventPayload
unfolding usage_or_name
media_row fields =
    require (has_columns fields 3) (codes "media key needs usage_or_name,down[,wait_ms]") (
      need (parse_flag (field fields 1)) (codes "media key down must be 0 or 1") (λ down.
        bind_usage
          (usage_or_name media_usage_supported media_usage_from_name (field fields 0)
            (codes "media key usage is not one the toggle profile declares")
            (codes "unknown media key name \""))
          (λ usage. ok (media_key (record { usage = usage; down = down })))))

-- The columns of a row with its wait, by the prefix.
unfoldable pub columns_of : ℕ → ℕ
columns_of prefix =
    if prefix == b't' || prefix == b'h'
    then 5
    else if prefix == b'p' || prefix == b'd'
    then 6
    else 3

unfoldable pub parse_row : Doubles → ℕ → List Bytes → Bool → Result EventPayload
unfolding touch_row move_row button_row key_row axis_row dpad_row stylus_row media_row
parse_row D prefix fields normalized =
    if prefix == b't'
    then touch_row D normalized fields
    else if prefix == b'm'
    then move_row fields
    else if prefix == b'b'
    then button_row (λ n down. mouse_button (record { button = n; pressed = down }))
        (codes "mouse button needs button_no,pressed[,wait_ms]")
        (codes "mouse button number must be 1-based and pressed must be 0 or 1") fields
    else if prefix == b'k'
    then key_row fields
    else if prefix == b'g'
    then button_row (λ n down. gamepad_button (record { button = n; pressed = down }))
        (codes "gamepad button needs button_no,pressed[,wait_ms]")
        (codes "gamepad button number must be 1-based and pressed must be 0 or 1") fields
    else if prefix == b'a'
    then axis_row fields
    else if prefix == b'h'
    then dpad_row fields
    else if prefix == b'p'
    then stylus_row D normalized true fields
    else if prefix == b'd'
    then stylus_row D normalized false fields
    else if prefix == b'c'
    then media_row fields
    else err (codes "unknown row prefix")
