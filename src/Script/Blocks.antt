-- ===== src/Script/Blocks.antt =====
-- screen_comment, split_words, parse_lap_number, parse_lap_block and parse_every_block of
-- src/event_script.cpp: the words behind a directive.
pub mod WellFormed
use aoahid_player.Base.Int.{ℤ, pos}
use aoahid_player.Base.Words.{u64_max, i64_max}
use aoahid_player.Base.{
  ℕ, zero, suc, ◌+◌, ◌-◌, Bool, true, false, not, ◌&&◌, ◌||◌, Option, none, some, List, [], ◌∷◌,
  length, take, drop, get_or, ltb, ◌==◌, if◌then◌else◌,
}
use aoahid_player.Laps.{LapSelector, every_lap}
use aoahid_player.Scale.{to_ℕ}
use aoahid_player.Script.Numbers.{parse_bounded, parse_size}
use aoahid_player.Text.{Bytes, codes, same_bytes, trim, break_at, is_blank, lower}

-- The words between spaces and tabs, on fuel: each one takes a byte.
unfoldable pub words_from : ℕ → Bytes → List Bytes
words_from zero text = []
words_from (suc fuel) text =
    let rest = break_at is_blank (trim text) in
    let others = words_from fuel rest.1 in if length rest.0 == 0 then [] else rest.0 ∷ others

-- split_words; the caller tells too many words by the length.
unfoldable pub split_words : Bytes → List Bytes
unfolding words_from
split_words text = words_from (suc (length text)) text

-- The keyword in any case: the source sets the bit of lower case on every byte.
unfoldable pub or_32 : ℕ → ℕ
or_32 c = Prim.Native.Nat.bit_or c 32

unfoldable pub says_screen : Bytes → Bytes → Bool
unfolding or_32
says_screen [] comment = true
says_screen (k ∷ ks) [] = false
says_screen (k ∷ ks) (c ∷ cs) = or_32 c == k && says_screen ks cs

unfoldable pub screen_comment : Bytes → Bool
unfolding says_screen
screen_comment text =
    let comment = trim text in
    ltb 6 (length comment)
    && says_screen (codes "screen") comment
    && is_blank (get_or comment 6 0)
    && (elim (parse_size (drop 6 comment)) [ none ↦ false | some size ↦ true ])

unfoldable pub parse_lap_number : Bytes → Option ℕ
parse_lap_number text = elim (parse_bounded text (pos 1) (pos i64_max)) [
  | none ↦ none
  | some v ↦ some (to_ℕ v)
]

-- The bytes before the first "..", and those behind it.
unfoldable pub split_dots : Bytes → Option (Bytes × Bytes)
split_dots [] = none
split_dots (a ∷ []) = none
split_dots (a ∷ (b ∷ cs)) =
    let later = split_dots (b ∷ cs) in
    if a == b'.' && b == b'.'
    then some ([], cs)
    else elim later [ none ↦ none | some (x, y) ↦ some (a ∷ x, y) ]

-- A selector, where its laps are in order.
unfoldable pub ordered_laps : LapSelector → Option LapSelector
ordered_laps when = if ltb when.last when.first then none else some when

unfoldable pub range_from : ℕ → Bytes → Option LapSelector
unfolding ordered_laps
range_from first [] = ordered_laps (record every_lap { first = first })
range_from first (c ∷ cs) = elim (parse_lap_number (c ∷ cs)) [
  | none ↦ none
  | some last ↦ ordered_laps (record every_lap { first = first; last = last })
]

-- "A", "A..B", or "A..".
unfoldable pub parse_laps : Bytes → Option LapSelector
unfolding split_dots range_from
parse_laps laps = elim (split_dots laps) [
  | none ↦ elim (parse_lap_number laps) [
    | none ↦ none
    | some n ↦ some (record every_lap { first = n; last = n })
  ]
  | some (head, tail) ↦ elim (parse_lap_number head) [
    | none ↦ none
    | some first ↦ range_from first tail
  ]
]

unfoldable pub keep_time_if : Bool → Option LapSelector → Option LapSelector
keep_time_if b none = none
keep_time_if b (some when) = some (record when { keep_time = b })

unfoldable pub parse_lap_block : Bytes → Option LapSelector
unfolding split_words parse_laps keep_time_if
parse_lap_block argument = elim (split_words argument) [
  | [] ↦ none
  | laps ∷ [] ↦ keep_time_if false (parse_laps laps)
  | laps ∷ (option ∷ []) ↦
      if same_bytes option (codes "keep-time") then keep_time_if true (parse_laps laps) else none
  | laps ∷ (option ∷ (more ∷ rest)) ↦ none
]

-- The words before a last "keep-time", and whether it was there.
unfoldable pub strip_keep_time : List Bytes → List Bytes × Bool
strip_keep_time words =
    let n = length words - 1 in
    if same_bytes (get_or words n []) (codes "keep-time")
    then (take n words, true)
    else (words, false)

-- "to B" and no more words.
unfoldable pub every_to : LapSelector → List Bytes → Option LapSelector
unfolding ordered_laps
every_to when words = elim words [
  | [] ↦ ordered_laps when
  | keyword ∷ [] ↦ none
  | keyword ∷ (number ∷ []) ↦
      if same_bytes keyword (codes "to")
      then elim (parse_lap_number number) [
        | none ↦ none
        | some last ↦ ordered_laps (record when { last = last })
      ]
      else none
  | keyword ∷ (number ∷ (more ∷ rest)) ↦ none
]

-- "from A" before that.
unfoldable pub every_from : LapSelector → List Bytes → Option LapSelector
unfolding every_to
every_from when words = elim words [
  | [] ↦ every_to when []
  | keyword ∷ [] ↦ none
  | keyword ∷ (number ∷ rest) ↦
      if same_bytes keyword (codes "from")
      then elim (parse_lap_number number) [
        | none ↦ none
        | some first ↦ every_to (record when { first = first }) rest
      ]
      else every_to when (keyword ∷ number ∷ rest)
]

unfoldable pub every_words : Bool → List Bytes → Option LapSelector
unfolding every_from
every_words keep [] = none
every_words keep (word ∷ words) = elim (parse_lap_number word) [
  | none ↦ none
  | some n ↦ every_from (record every_lap { first = n; every = n; keep_time = keep }) words
]

-- "N", then optionally "from A", "to B", and "keep-time", in that order.
unfoldable pub parse_every_block : Bytes → Option LapSelector
unfolding split_words strip_keep_time every_words
parse_every_block argument =
    let words = split_words argument in
    if length words == 0 || ltb 6 (length words)
    then none
    else let r = strip_keep_time words in every_words r.1 r.0
