-- ===== src/Script/Load/Directives.antt =====
-- The state of EventScript::load of src/event_script.cpp, its directives, and what a row adds to it.
use aoahid_player.Base.Int.{ℤ, pos}
use aoahid_player.Base.{
  ℕ, ◌+◌, ◌-◌, Bool, true, false, not, ◌&&◌, ◌||◌, Option, none, some, List, [], ◌∷◌, ◌++◌, map,
  length, set, ltb, ◌==◌, if◌then◌else◌,
}
use aoahid_player.Event.{EventPayload, EventRecord}
use aoahid_player.Laps.{LapSelector, every_lap}
use aoahid_player.Script.Blocks.{parse_lap_block, parse_every_block}
use aoahid_player.Script.Numbers.{parse_bounded, parse_size}
use aoahid_player.Script.Row.{Result, ok, err}
use aoahid_player.Text.{Bytes, codes, same_bytes, trim, break_at, is_blank, lower}
use aoahid_player.Timeline.{Segment, row_at}

-- A text of `errors`, before its file name and number are written out.
pub data Problem : Type 0 where
  at_line : ℕ → Bytes → Problem
  too_many : Problem
  no_rows : Problem
  cannot_open : Problem

pub record Loading : Type 0 where
  pub rows : List EventRecord
  pub closed : List Segment
  pub back : Segment
  pub lap_blocks : ℕ
  pub errors : List Problem
  pub stopped : Bool
  pub screen_width : ℤ
  pub screen_height : ℤ
  pub coords_normalized : Bool
  pub number : ℕ
  pub first_line : Bool
  pub seen_row : Bool
  pub screen_directive : Bool
  pub coords_directive : Bool
  pub in_block : Bool
  pub seen_else : Bool
  pub block_line : ℕ
  pub block : LapSelector

abbrev pub new_segment : ℕ → LapSelector → Segment
new_segment at when = record { begin = at; end = at; when = when; lead_ns = 0; duration = 0 }

abbrev pub initial : Loading
initial = record {
  rows = [];
  closed = [];
  back = new_segment 0 every_lap;
  lap_blocks = 0;
  errors = [];
  stopped = false;
  screen_width = pos 0;
  screen_height = pos 0;
  coords_normalized = false;
  number = 0;
  first_line = true;
  seen_row = false;
  screen_directive = false;
  coords_directive = false;
  in_block = false;
  seen_else = false;
  block_line = 0;
  block = every_lap;
}

abbrev pub max_errors : ℕ
max_errors = 50

-- The conditional and the two matches of the functions below, which lemmas on them name.
infix 1 on◌then◌else◌
unfoldable pub on◌then◌else◌ : Bool → Loading → Loading → Loading
on true then x else y = x
on false then x else y = y

unfoldable pub on_option {ℓ} : {A : Type ℓ} → Option A → Loading → (A → Loading) → Loading
on_option none x f = x
on_option (some a) x f = f a

unfoldable pub on_result {ℓ} : {A : Type ℓ} → Result A → (Bytes → Loading) → (A → Loading) → Loading
on_result (err reason) x f = x reason
on_result (ok a) x f = f a

-- The lambda fail.
unfoldable pub fail_at : ℕ → Bytes → Loading → Loading
fail_at number reason s =
    on ltb (length s.errors) max_errors
    then record s { errors = s.errors ++ at_line number reason ∷ [] }
    else on not s.stopped
    then record s { errors = s.errors ++ too_many ∷ []; stopped = true }
    else s

unfoldable pub fail : Bytes → Loading → Loading
unfolding fail_at
fail reason s = fail_at s.number reason s

-- The lambda open_segment.
unfoldable pub open_segment : LapSelector → Loading → Loading
open_segment when s = record s {
  closed = s.closed ++ s.back ∷ [];
  back = new_segment (length s.rows) when;
}

unfoldable pub open_block : LapSelector → Loading → Loading
unfolding open_segment
open_block when s = open_segment when (record s { block = when; lap_blocks = s.lap_blocks + 1 })

-- @lap and @every; `parsed` is what their options give, and a block that they do not give is one of
-- every lap.
unfoldable pub block_directive : Option LapSelector → Bytes → Loading → Loading
unfolding fail open_block
block_directive parsed reason s =
    let entered = record s { in_block = true; seen_else = false; block_line = s.number } in
    on s.in_block
    then fail (codes "blocks cannot be nested") s
    else on_option parsed (open_block every_lap (fail reason entered))
        (λ when. open_block when entered)

unfoldable pub else_directive : Bytes → Loading → Loading
unfolding fail open_segment
else_directive argument s =
    on not s.in_block || s.seen_else
    then fail (codes "@else needs an open @lap or @every block, once") s
    else on s.block.keep_time
    then fail (codes "@else cannot follow a keep-time block") s
    else on not (length argument == 0)
    then fail (codes "@else takes no option") s
    else open_segment (record (s.block) { negate = true }) (record s { seen_else = true })

unfoldable pub end_directive : Loading → Loading
unfolding fail open_segment
end_directive s =
    on not s.in_block
    then record (fail (codes "@end without @lap or @every") s) { in_block = false }
    else record (open_segment every_lap s) { in_block = false }

unfoldable pub format_directive : Bytes → Loading → Loading
unfolding fail
format_directive argument s =
    on s.seen_row
    then fail (codes "@format must come before the first row") s
    else on_option (parse_bounded argument (pos 3) (pos 3)) (fail (codes "@format must be 3") s)
        (λ _. s)

unfoldable pub screen_directive_line : Bytes → Loading → Loading
unfolding fail
screen_directive_line argument s =
    on s.seen_row
    then fail (codes "@screen must come before the first row") s
    else on s.screen_directive
    then fail (codes "@screen given twice") s
    else on s.coords_normalized
    then fail (codes "@screen cannot be combined with @coords normalized") s
    else on_option (parse_size argument)
        (fail (codes "@screen needs WxH, each between 1 and 65536") s)
        (λ size. record s {
          screen_width = size.0;
          screen_height = size.1;
          screen_directive = true;
        })

unfoldable pub coords_directive_line : Bytes → Loading → Loading
unfolding fail
coords_directive_line argument s =
    let normalized = same_bytes argument (codes "normalized") in
    on s.seen_row
    then fail (codes "@coords must come before the first row") s
    else on s.coords_directive
    then fail (codes "@coords given twice") s
    else on normalized && s.screen_directive
    then fail (codes "@coords normalized cannot be combined with @screen") s
    else on normalized || same_bytes argument (codes "integer")
    then record s { coords_directive = true; coords_normalized = normalized }
    else fail (codes "@coords takes normalized or integer") s

-- The words of a line behind its '@'.
unfoldable pub directive : Bytes → Loading → Loading
unfolding block_directive else_directive end_directive format_directive screen_directive_line
    coords_directive_line fail
directive view s =
    let parts = break_at is_blank view in
    let word = map lower parts.0 in
    let argument = map lower (trim parts.1) in
    on same_bytes word (codes "lap")
    then block_directive (parse_lap_block argument)
        (codes "@lap needs A, A..B, or A.. (laps count from 1), then optionally keep-time") s
    else on same_bytes word (codes "every")
    then block_directive (parse_every_block argument)
        (codes "@every needs N, then optionally from A, to B, and keep-time, in that order") s
    else on same_bytes word (codes "else")
    then else_directive argument s
    else on same_bytes word (codes "end")
    then end_directive s
    else on same_bytes word (codes "format")
    then format_directive argument s
    else on same_bytes word (codes "screen")
    then screen_directive_line argument s
    else on same_bytes word (codes "coords")
    then coords_directive_line argument s
    else fail (codes "unknown directive @" ++ word) s

-- A wait: onto the row before it, or ahead of the segment's first row.
unfoldable pub add_wait : ℕ → Loading → Loading
add_wait wait_ns s =
    let last = length s.rows - 1 in
    let row = row_at s.rows last in
    let duration = s.back.duration + wait_ns in
    on s.back.begin == s.back.end
    then record s {
      back = record (s.back) { lead_ns = s.back.lead_ns + wait_ns; duration = duration };
    }
    else record s {
      rows = set s.rows last (record row { wait_ns = row.wait_ns + wait_ns });
      back = record (s.back) { duration = duration };
    }

unfoldable pub push_row : EventPayload → ℕ → Loading → Loading
push_row payload wait_ns s = record s {
  rows = s.rows ++ record { payload = payload; wait_ns = wait_ns } ∷ [];
  back = record (s.back) { end = length s.rows + 1; duration = s.back.duration + wait_ns };
}
