-- ===== src/Text.antt =====
-- std::string_view as a list of bytes: what src/event_script.cpp, src/key_names.cpp and
-- src/getevent_parser.cpp use of it, with trim, split_fields and split_words, and std::from_chars.
use Prim.Native.Char.{code}
use Prim.Native.String.{String}
use aoahid_player.Base.Int.{ℤ, pos, negsuc}
use aoahid_player.Base.{
  ℕ, zero, suc, ◌+◌, ◌-◌, ◌*◌, ◌/◌, ◌%◌, ◌^◌, Bool, true, false, ◌&&◌, ◌||◌, Option, none, some,
  List, [], ◌∷◌, map, ltb, leb, ◌==◌, if◌then◌else◌,
}

abbrev pub Bytes : Type 0
Bytes = List ℕ

-- A text of the source, byte by byte.
abbrev pub codes : String → Bytes
codes String.[] = []
codes (String.◌∷◌ c s) = code c ∷ codes s

abbrev pub same_bytes : Bytes → Bytes → Bool
same_bytes [] [] = true
same_bytes [] (y ∷ ys) = false
same_bytes (x ∷ xs) [] = false
same_bytes (x ∷ xs) (y ∷ ys) = x == y && same_bytes xs ys

abbrev pub is_blank : ℕ → Bool
is_blank c = c == b' ' || c == b'\t'

abbrev pub is_trailing : ℕ → Bool
is_trailing c = c == b' ' || c == b'\t' || c == b'\r' || c == b'\n'

unfoldable pub drop_front : Bytes → Bytes
drop_front [] = []
drop_front (c ∷ cs) = if is_blank c then drop_front cs else c ∷ cs

unfoldable pub drop_back : Bytes → Bytes
drop_back [] = []
drop_back (c ∷ cs) = elim (drop_back cs) [
  | [] ↦ if is_trailing c then [] else c ∷ []
  | d ∷ ds ↦ c ∷ d ∷ ds
]

-- trim
unfoldable pub trim : Bytes → Bytes
unfolding drop_front drop_back
trim text = drop_back (drop_front text)

-- find with a test on the byte: the bytes before it, and those from it on, or none.
unfoldable pub break_at : (ℕ → Bool) → Bytes → Bytes × Bytes
break_at p [] = ([], [])
break_at p (c ∷ cs) = if p c then ([], c ∷ cs) else let r = break_at p cs in (c ∷ r.0, r.1)

-- The pieces between the commas: at least one.
unfoldable pub split_on : ℕ → Bytes → List Bytes
split_on sep [] = [] ∷ []
split_on sep (c ∷ cs) =
    if c == sep
    then [] ∷ split_on sep cs
    else elim (split_on sep cs) [ [] ↦ (c ∷ []) ∷ [] | f ∷ fs ↦ (c ∷ f) ∷ fs ]

-- split_fields; the caller tells too many columns by the length.
unfoldable pub split_fields : Bytes → List Bytes
unfolding split_on trim
split_fields line = map trim (split_on b',' line)

abbrev pub lower : ℕ → ℕ
lower c = if leb b'A' c && leb c b'Z' then c + 32 else c

-- The value of a digit for std::from_chars.
abbrev pub digit : ℕ → ℕ → Option ℕ
digit base c =
    let v =
      if leb b'0' c && leb c b'9'
      then c - b'0'
      else if leb b'a' c && leb c b'f'
      then c - b'a' + 10
      else if leb b'A' c && leb c b'F'
      then c - b'A' + 10
      else 16 in
    if ltb v base then some v else none

abbrev pub digits_from : ℕ → ℕ → Bytes → Option ℕ
digits_from base acc [] = some acc
digits_from base acc (c ∷ cs) = elim (digit base c) [
  | none ↦ none
  | some v ↦ digits_from base (acc * base + v) cs
]

-- std::from_chars on an unsigned number of at most `limit`, the whole text read.
unfoldable pub from_chars : ℕ → ℕ → Bytes → Option ℕ
from_chars base limit [] = none
from_chars base limit (c ∷ cs) = elim (digits_from base 0 (c ∷ cs)) [
  | none ↦ none
  | some v ↦ if leb v limit then some v else none
]

-- std::from_chars on an int32_t, the whole text read.
unfoldable pub from_chars_int : Bytes → Option ℤ
unfolding from_chars
from_chars_int [] = none
from_chars_int (c ∷ cs) =
    if c == b'-'
    then elim (from_chars 10 (2 ^ 31) cs) [
      | none ↦ none
      | some zero ↦ some (pos 0)
      | some (suc n) ↦ some (negsuc n)
    ]
    else elim (from_chars 10 (2 ^ 31 - 1) (c ∷ cs)) [ none ↦ none | some v ↦ some (pos v) ]

-- std::to_string of a uint64_t, which has twenty digits at most.
unfoldable pub decimal_from : ℕ → ℕ → Bytes → Bytes
decimal_from zero n text = text
decimal_from (suc fuel) n text =
    let longer = decimal_from fuel (n / 10) ((b'0' + n % 10) ∷ text) in
    if n / 10 == 0 then (b'0' + n % 10) ∷ text else longer

unfoldable pub decimal : ℕ → Bytes
unfolding decimal_from
decimal n = decimal_from 20 n []
