-- ===== src/Script/Load.antt =====
-- EventScript::load of src/event_script.cpp: the lines of a file, one by one, into rows and segments.
-- The vector of segments is `closed` and its last element, which load only ever appends to, `back`.
mod Directives
mod Built
pub mod Fitting
use aoahid_player.Base.Int.{ℤ, pos}
use aoahid_player.Base.{
  ℕ, zero, ◌+◌, ◌-◌, Bool, true, false, not, ◌&&◌, ◌||◌, Option, none, some, List, [], ◌∷◌, ◌++◌,
  length, drop, get_or, ltb, leb, ◌==◌, if◌then◌else◌,
}
use aoahid_player.Laps.{every_lap}
use aoahid_player.Script.Blocks.{screen_comment}
use aoahid_player.Script.Numbers.{Doubles, parse_wait_ns}
use aoahid_player.Script.Row.{parse_row, columns_of}
use aoahid_player.Text.{Bytes, codes, trim, break_at, split_on, split_fields}
use aoahid_player.Timeline.{Segment, EventScript}
unfoldable pub use Directives.*

-- Without a UTF-8 byte order mark on the first line.
abbrev pub without_mark : Bool → Bytes → Bytes
without_mark first view =
    if first && get_or view 0 0 == 239 && get_or view 1 0 == 187 && get_or view 2 0 == 191
    then drop 3 view
    else view

abbrev pub is_hash : ℕ → Bool
is_hash c = c == b'#'

module _ (D : Doubles) where
  unfoldable pub wait_row : List Bytes → Loading → Loading
  unfolding fail add_wait
  wait_row fields s =
      let reason = codes "wait row needs w,wait_ms (zero or a positive number)" in
      on not (length fields == 1)
      then fail reason s
      else on_option (parse_wait_ns D (get_or fields 0 [])) (fail reason s)
          (λ wait_ns. add_wait wait_ns s)

  unfoldable pub event_row : ℕ → List Bytes → Loading → Loading
  unfolding fail push_row
  event_row prefix fields s =
      on_result (parse_row D prefix fields s.coords_normalized) (λ reason. fail reason s)
        (λ payload.
          on length fields == columns_of prefix
          then on_option (parse_wait_ns D (get_or fields (length fields - 1) []))
              (fail (codes "wait_ms must be zero or a positive number of milliseconds") s)
              (λ wait_ns. push_row payload wait_ns s)
          else push_row payload 0 s)

  unfoldable pub fields_row : ℕ → List Bytes → Loading → Loading
  unfolding fail wait_row event_row
  fields_row prefix fields s =
      on ltb 6 (length fields)
      then fail (codes "too many columns") s
      else on prefix == b'w'
      then wait_row fields s
      else event_row prefix fields s

  -- A line that is neither blank nor a directive.
  unfoldable pub row_line : Bytes → Loading → Loading
  unfolding fail fields_row
  row_line view before =
      let s = record before { seen_row = true } in
      let prefix = get_or view 0 0 in
      let rest = trim (drop 1 view) in
      on leb b'A' prefix && leb prefix b'Z'
      then fail (codes "row prefixes are lowercase") s
      else on ltb prefix b'a' || ltb b'z' prefix
      then fail (codes "row must start with a profile letter") s
      else on not (get_or rest 0 0 == b',')
      then fail (codes "expected ',' after the row prefix") s
      else fields_row prefix (split_fields (drop 1 rest)) s

  -- One turn of the loop over the lines.
  unfoldable pub load_line : Bytes → Loading → Loading
  unfolding fail directive row_line
  load_line line before =
      let parts = break_at is_hash (without_mark before.first_line line) in
      let counted = record before { number = before.number + 1; first_line = false } in
      let view = trim parts.0 in
      let s =
        on length view == 0 && screen_comment (drop 1 parts.1)
        then fail (codes "the screen size is a directive, not a comment; write @screen WxH") counted
        else counted in
      on length view == 0
      then s
      else on get_or view 0 0 == b'@'
      then directive (drop 1 view) s
      else row_line view s

  unfoldable pub load_lines : List Bytes → Loading → Loading
  unfolding load_line
  load_lines [] s = s
  load_lines (line ∷ lines) s =
      let rest = load_lines lines (load_line line s) in on s.stopped then s else rest

-- std::getline over a file: no line behind a last newline.
unfoldable pub file_lines : Bytes → List Bytes
file_lines text = drop_last_empty (split_on b'\n' text)
  where
    drop_last_empty : List Bytes → List Bytes
    drop_last_empty [] = []
    drop_last_empty (l ∷ []) = elim l [ [] ↦ [] | c ∷ cs ↦ (c ∷ cs) ∷ [] ]
    drop_last_empty (l ∷ (m ∷ ls)) = l ∷ drop_last_empty (m ∷ ls)

unfoldable pub is_idle : Segment → Bool
is_idle g = g.begin == g.end && g.duration == 0

-- std::erase_if
unfoldable pub erase_idle : List Segment → List Segment
unfolding is_idle
erase_idle [] = []
erase_idle (g ∷ gs) = if is_idle g then erase_idle gs else g ∷ erase_idle gs

pub record Loaded : Type 0 where
  pub script : EventScript
  pub lap_blocks : ℕ
  pub errors : List Problem
  pub screen_width : ℤ
  pub screen_height : ℤ
  pub coords_normalized : Bool

-- What load does behind its loop.
unfoldable pub finish : Loading → Loaded
unfolding fail_at erase_idle
finish before =
    let s =
      on before.in_block && not before.stopped
      then fail_at before.block_line (codes "the block is not closed by @end") before
      else before in
    record {
      script = record { rows = s.rows; segments = erase_idle (s.closed ++ s.back ∷ []) };
      lap_blocks = s.lap_blocks;
      errors = if length s.errors == 0 && length s.rows == 0 then no_rows ∷ [] else s.errors;
      screen_width = if s.coords_normalized then pos 65536 else s.screen_width;
      screen_height = if s.coords_normalized then pos 65536 else s.screen_height;
      coords_normalized = s.coords_normalized;
    }

-- `none` is a file that cannot be opened.
unfoldable pub load : Doubles → Option Bytes → Loaded
unfolding load_lines file_lines finish
load D none = record {
  script = record { rows = []; segments = new_segment 0 every_lap ∷ [] };
  lap_blocks = 0;
  errors = cannot_open ∷ [];
  screen_width = pos 0;
  screen_height = pos 0;
  coords_normalized = false;
}
load D (some text) = finish (load_lines D (file_lines text) initial)
