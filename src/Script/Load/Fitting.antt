-- ===== src/Script/Load/Fitting.antt =====
-- What EventScript::load of src/event_script.cpp leaves fits: the segments cover the rows, last as long
-- as their rows wait, and name well-formed selectors.
use aoahid_player.Base.{
  ℕ, ◌+◌, refl, Bool, true, false, Option, none, some, List, [], ◌∷◌, map, ◌==◌, ==_iff,
  if◌then◌else◌, Bool-cases, inl, inr, arith,
}
use aoahid_player.Event.{EventPayload}
use aoahid_player.Laps.{LapSelector, every_lap, IsWellFormed}
use aoahid_player.Script.Blocks.WellFormed.{
  Sound, every_lap-IsWellFormed, parse_lap_block-Sound, parse_every_block-Sound,
}
use aoahid_player.Script.Load.Built.{
  Built, Built-open, Built-push, Built-lead, Built-wait, new_segment-SegmentFits, Built-SegmentFits,
  Built-Covers, erase_idle-All, erase_idle-Covers,
}
use aoahid_player.Script.Load.{
  Loading, on◌then◌else◌, on_option, on_result, initial, fail_at, fail, open_segment, open_block,
  block_directive, else_directive, end_directive, format_directive, screen_directive_line,
  coords_directive_line, directive, add_wait, push_row, wait_row, event_row, fields_row, row_line,
  load_line, load_lines, file_lines, finish, load, is_hash, without_mark,
}
use aoahid_player.Script.Numbers.{Doubles}
use aoahid_player.Script.Row.{Result, ok, err}
use aoahid_player.Text.{Bytes, trim, break_at, is_blank, lower}
use aoahid_player.Timeline.{Fits}

record Good (s : Loading) : Type 0 where
  built : Built s.rows s.closed s.back
  fine : IsWellFormed s.block

if-Good : (b : Bool) (x y : Loading) → Good x → Good y → Good (on b then x else y)
unfolding on◌then◌else◌
if-Good true x y p q = p
if-Good false x y p q = q

option-Good {ℓ} :
    {A : Type ℓ} (o : Option A) (x : Loading) (f : A → Loading)
    → Good x
    → ((a : A) → Good (f a))
    → Good (on_option o x f)
unfolding on_option
option-Good none x f p q = p
option-Good (some a) x f p q = q a

result-Good {ℓ} :
    {A : Type ℓ} (o : Result A) (x : Bytes → Loading) (f : A → Loading)
    → ((r : Bytes) → Good (x r))
    → ((a : A) → Good (f a))
    → Good (on_result o x f)
unfolding on_result
result-Good (err r) x f p q = p r
result-Good (ok a) x f p q = q a

fail_at-Good : (number : ℕ) (reason : Bytes) (s : Loading) → Good s → Good (fail_at number reason s)
unfolding fail_at
fail_at-Good number reason s g =
    if-Good _ _ _ (record { built = g.built; fine = g.fine })
      (if-Good _ _ _ (record { built = g.built; fine = g.fine }) g)

fail-Good : (reason : Bytes) (s : Loading) → Good s → Good (fail reason s)
unfolding fail
fail-Good reason s g = fail_at-Good s.number reason s g

open_segment-Good :
    (when : LapSelector) (s : Loading) → IsWellFormed when → Good s → Good (open_segment when s)
unfolding open_segment
open_segment-Good when s w g = record {
  built = Built-open s.rows s.closed s.back g.built when w;
  fine = g.fine;
}

open_block-Good :
    (when : LapSelector) (s : Loading) → IsWellFormed when → Good s → Good (open_block when s)
unfolding open_block
open_block-Good when s w g =
    open_segment-Good when (record s { block = when; lap_blocks = s.lap_blocks + 1 }) w
      (record { built = g.built; fine = w })

block_directive-Good :
    (parsed : Option LapSelector) (reason : Bytes) (s : Loading)
    → Sound parsed
    → Good s
    → Good (block_directive parsed reason s)
unfolding block_directive on_option
block_directive-Good none reason s w g = if-Good _ _ _ (fail-Good _ s g) (
    open_block-Good every_lap _ every_lap-IsWellFormed
      (fail-Good reason _ (record { built = g.built; fine = g.fine })))
block_directive-Good (some when) reason s w g =
    if-Good _ _ _ (fail-Good _ s g)
      (open_block-Good when _ w (record { built = g.built; fine = g.fine }))

else_directive-Good : (argument : Bytes) (s : Loading) → Good s → Good (else_directive argument s)
unfolding else_directive
else_directive-Good argument s g = if-Good _ _ _ (fail-Good _ s g) (
    if-Good _ _ _ (fail-Good _ s g) (
      if-Good _ _ _ (fail-Good _ s g) (
        open_segment-Good (record (s.block) { negate = true }) (record s { seen_else = true })
          (record {
            counts_from_one = g.fine.counts_from_one;
            ordered = g.fine.ordered;
            in_word = g.fine.in_word;
            steps = g.fine.steps;
            step_in_word = g.fine.step_in_word;
          })
          (record { built = g.built; fine = g.fine }))))

end_directive-Good : (s : Loading) → Good s → Good (end_directive s)
unfolding end_directive
end_directive-Good s g =
    let failed = fail-Good _ s g in
    let opened = open_segment-Good every_lap s every_lap-IsWellFormed g in
    if-Good _ _ _ (record { built = failed.built; fine = failed.fine })
      (record { built = opened.built; fine = opened.fine })

format_directive-Good :
    (argument : Bytes) (s : Loading) → Good s → Good (format_directive argument s)
unfolding format_directive
format_directive-Good argument s g =
    if-Good _ _ _ (fail-Good _ s g) (option-Good _ _ _ (fail-Good _ s g) (λ _. g))

screen_directive_line-Good :
    (argument : Bytes) (s : Loading) → Good s → Good (screen_directive_line argument s)
unfolding screen_directive_line
screen_directive_line-Good argument s g = if-Good _ _ _ (fail-Good _ s g) (
    if-Good _ _ _ (fail-Good _ s g) (
      if-Good _ _ _ (fail-Good _ s g)
        (option-Good _ _ _ (fail-Good _ s g) (λ _. record { built = g.built; fine = g.fine }))))

coords_directive_line-Good :
    (argument : Bytes) (s : Loading) → Good s → Good (coords_directive_line argument s)
unfolding coords_directive_line
coords_directive_line-Good argument s g = if-Good _ _ _ (fail-Good _ s g) (
    if-Good _ _ _ (fail-Good _ s g) (
      if-Good _ _ _ (fail-Good _ s g)
        (if-Good _ _ _ (record { built = g.built; fine = g.fine }) (fail-Good _ s g))))

directive-Good : (view : Bytes) (s : Loading) → Good s → Good (directive view s)
unfolding directive
directive-Good view s g =
    let argument = map lower (trim (break_at is_blank view).1) in
    if-Good _ _ _ (block_directive-Good _ _ s (parse_lap_block-Sound _) g) (
      if-Good _ _ _ (block_directive-Good _ _ s (parse_every_block-Sound _) g) (
        if-Good _ _ _ (else_directive-Good argument s g) (
          if-Good _ _ _ (end_directive-Good s g) (
            if-Good _ _ _ (format_directive-Good argument s g) (
              if-Good _ _ _ (screen_directive_line-Good argument s g)
                (if-Good _ _ _ (coords_directive_line-Good argument s g) (fail-Good _ s g)))))))

add_wait-Good : (wait : ℕ) (s : Loading) → Good s → Good (add_wait wait s)
unfolding add_wait on◌then◌else◌
add_wait-Good wait s g = elim (Bool-cases (s.back.begin == s.back.end)) [
  | inl t ↦
      rw (t, add_wait)
        (record {
          built =
              Built-lead s.rows s.closed s.back g.built wait ((==_iff s.back.begin s.back.end).0 t);
          fine = g.fine;
        })
  | inr f ↦
      rw (f, add_wait)
        (record {
          built = Built-wait s.rows s.closed s.back g.built wait (ground (arith, f));
          fine = g.fine;
        })
]

push_row-Good :
    (payload : EventPayload) (wait : ℕ) (s : Loading) → Good s → Good (push_row payload wait s)
unfolding push_row
push_row-Good payload wait s g = record {
  built = Built-push s.rows s.closed s.back g.built payload wait;
  fine = g.fine;
}

module _ (D : Doubles) where
  wait_row-Good : (fields : List Bytes) (s : Loading) → Good s → Good (wait_row D fields s)
  unfolding wait_row
  wait_row-Good fields s g =
      if-Good _ _ _ (fail-Good _ s g)
        (option-Good _ _ _ (fail-Good _ s g) (λ wait. add_wait-Good wait s g))

  event_row-Good :
      (prefix : ℕ) (fields : List Bytes) (s : Loading) → Good s → Good (event_row D prefix fields s)
  unfolding event_row
  event_row-Good prefix fields s g =
      result-Good _ _ _ (λ reason. fail-Good reason s g)
        (λ payload.
          if-Good _ _ _
            (option-Good _ _ _ (fail-Good _ s g) (λ wait. push_row-Good payload wait s g))
            (push_row-Good payload 0 s g))

  fields_row-Good :
      (prefix : ℕ) (fields : List Bytes) (s : Loading)
      → Good s
      → Good (fields_row D prefix fields s)
  unfolding fields_row
  fields_row-Good prefix fields s g =
      if-Good _ _ _ (fail-Good _ s g)
        (if-Good _ _ _ (wait_row-Good fields s g) (event_row-Good prefix fields s g))

  row_line-Good : (view : Bytes) (s : Loading) → Good s → Good (row_line D view s)
  unfolding row_line
  row_line-Good view s g =
      let seen : Good (record s { seen_row = true }) = record { built = g.built; fine = g.fine } in
      if-Good _ _ _ (fail-Good _ _ seen) (
        if-Good _ _ _ (fail-Good _ _ seen)
          (if-Good _ _ _ (fail-Good _ _ seen) (fields_row-Good _ _ _ seen)))

  load_line-Good : (line : Bytes) (s : Loading) → Good s → Good (load_line D line s)
  unfolding load_line
  load_line-Good line before g =
      let counted = record before { number = before.number + 1; first_line = false } in
      let view = trim (break_at is_hash (without_mark before.first_line line)).0 in
      let same : Good counted = record { built = g.built; fine = g.fine } in
      let commented = if-Good _ _ counted (fail-Good _ counted same) same in
      if-Good _ _ _ commented
        (if-Good _ _ _ (directive-Good _ _ commented) (row_line-Good view _ commented))

  load_lines-Good : (lines : List Bytes) (s : Loading) → Good s → Good (load_lines D lines s)
  unfolding load_lines
  load_lines-Good [] s g = g
  load_lines-Good (line ∷ lines) s g =
      if-Good _ _ _ g (load_lines-Good lines (load_line D line s) (load_line-Good line s g))

initial-Good : Good initial
initial-Good = record {
  built = record {
    each = tt;
    last = new_segment-SegmentFits [] every_lap every_lap-IsWellFormed;
    covers = refl;
    at_end = refl;
  };
  fine = every_lap-IsWellFormed;
}

finish-Fits : (s : Loading) → Good s → Fits (finish s).script
unfolding finish
finish-Fits s g =
    let r = if-Good _ _ s (fail_at-Good s.block_line _ s g) g in
    record {
      each = erase_idle-All _ _ (Built-SegmentFits _ _ _ r.built);
      covers = erase_idle-Covers _ 0 _ (Built-Covers _ _ _ r.built);
    }

-- Whatever the file holds, load leaves segments that cover the rows in file order, each with the
-- duration of its lead and its rows and with a well-formed selector. This holds of the doubles and of
-- strtod whatever they are.
pub load-Fits : (D : Doubles) (file : Option Bytes) → Fits (load D file).script
unfolding load
load-Fits D none = record {
  each = (new_segment-SegmentFits [] every_lap every_lap-IsWellFormed, tt);
  covers = (refl, refl);
}
load-Fits D (some text) =
    finish-Fits (load_lines D (file_lines text) initial)
      (load_lines-Good D (file_lines text) initial initial-Good)
