-- ===== src/Script/Blocks/WellFormed.antt =====
-- The selectors that parse_lap_block and parse_every_block of src/event_script.cpp give.
use aoahid_player.Base.Int.{ℤ, pos, negsuc, leb_ℤ}
use aoahid_player.Base.Words.{u64_max, i64_max}
use aoahid_player.Base.{
  ℕ, ◌≤◌, ◌≡◌, Bool, true, false, ◌&&◌, ◌||◌, Option, none, some, List, [], ◌∷◌, length, ltb, ◌==◌,
  if◌then◌else◌, Bool-cases, Option-cases, inl, inr, arith,
}
use aoahid_player.Laps.{LapSelector, every_lap, IsWellFormed}
use aoahid_player.Scale.{to_ℕ}
use aoahid_player.Script.Blocks.{
  parse_lap_number, ordered_laps, range_from, parse_laps, keep_time_if, parse_lap_block,
  split_words, every_to, every_from, every_words, strip_keep_time, parse_every_block, split_dots,
}
use aoahid_player.Script.Numbers.{within, parse_bounded, parse_int64}
use aoahid_player.Text.{Bytes, codes, same_bytes}

-- Any selector that an optional one holds is well formed.
abbrev pub Sound : Option LapSelector → Type 0
Sound none = Unit
Sound (some when) = IsWellFormed when

pub every_lap-IsWellFormed : IsWellFormed every_lap
every_lap-IsWellFormed = record {
  counts_from_one = omega arith;
  ordered = omega arith;
  in_word = omega arith;
  steps = omega arith;
  step_in_word = omega arith;
}

-- The selector may still lack the order of its laps.
record InWords (when : LapSelector) : Type 0 where
  counts_from_one : 1 ≤ when.first
  in_word : when.last ≤ u64_max
  steps : 1 ≤ when.every
  step_in_word : when.every ≤ u64_max

ordered_laps-Sound : (when : LapSelector) → InWords when → Sound (ordered_laps when)
unfolding ordered_laps
ordered_laps-Sound when w = elim (Bool-cases (ltb when.last when.first)) [
  | inl t ↦ rw (t, ordered_laps) tt
  | inr f ↦
      rw (f, ordered_laps)
        (record {
          counts_from_one = w.counts_from_one;
          ordered = ground arith;
          in_word = w.in_word;
          steps = w.steps;
          step_in_word = w.step_in_word;
        })
]

within-bounds :
    (lo hi : ℕ) (o : Option ℤ) (v : ℤ)
    → within (pos lo) (pos hi) o ≡ some v
    → (lo ≤ to_ℕ v) × (to_ℕ v ≤ hi)
unfolding within
within-bounds lo hi none v h = cc
within-bounds lo hi (some w) v h = elim (Bool-cases (leb_ℤ (pos lo) w && leb_ℤ w (pos hi))) [
  | inr f ↦ let q : none ≡ some v = rw (f, within) at h in absurd cc
  | inl t ↦
      let q : some w ≡ some v = rw (t, within) at h in let e : w ≡ v = cc in rw (← e) (bounds w t)
]
  where
    bounds : (w : ℤ) → (leb_ℤ (pos lo) w && leb_ℤ w (pos hi)) ≡ true → (lo ≤ to_ℕ w) × (to_ℕ w ≤ hi)
    bounds (pos n) t = ground arith
    bounds (negsuc n) t = ground arith

abbrev IsLap : Option ℕ → Type 0
IsLap none = Unit
IsLap (some n) = (1 ≤ n) × (n ≤ i64_max)

parse_lap_number-IsLap : (text : Bytes) → IsLap (parse_lap_number text)
unfolding parse_lap_number parse_bounded
parse_lap_number-IsLap text =
    elim (Option-cases (within (pos 1) (pos i64_max) (parse_int64 text))) [
      | inl e ↦ rw (e, parse_lap_number) tt
      | inr (v, e) ↦ rw (e, parse_lap_number) (within-bounds 1 i64_max (parse_int64 text) v e)
    ]

range_from-Sound : (first : ℕ) (text : Bytes) → 1 ≤ first → Sound (range_from first text)
unfolding range_from
range_from-Sound first [] h = ordered_laps-Sound _ (record {
  counts_from_one = h;
  in_word = omega arith;
  steps = omega arith;
  step_in_word = omega arith;
})
range_from-Sound first (c ∷ cs) h =
    by_number (parse_lap_number (c ∷ cs)) (parse_lap_number-IsLap (c ∷ cs))
  where
    by_number :
        (o : Option ℕ)
        → IsLap o
        → Sound (elim o [
          | none ↦ none
          | some last ↦ ordered_laps (record every_lap { first = first; last = last })
        ])
    by_number none p = tt
    by_number (some n) p = ordered_laps-Sound _ (record {
      counts_from_one = h;
      in_word = omega (arith, p.1);
      steps = omega arith;
      step_in_word = omega arith;
    })

parse_laps-Sound : (laps : Bytes) → Sound (parse_laps laps)
unfolding parse_laps
parse_laps-Sound laps = by_dots (split_dots laps)
  where
    single :
        (o : Option ℕ)
        → IsLap o
        → Sound (elim o [ none ↦ none | some n ↦ some (record every_lap { first = n; last = n }) ])
    single none p = tt
    single (some n) p = record {
      counts_from_one = p.0;
      ordered = omega arith;
      in_word = omega (arith, p.1);
      steps = omega arith;
      step_in_word = omega arith;
    }

    range :
        (o : Option ℕ) (tail : Bytes)
        → IsLap o
        → Sound (elim o [ none ↦ none | some first ↦ range_from first tail ])
    range none tail p = tt
    range (some n) tail p = range_from-Sound n tail p.0

    by_dots :
        (o : Option (Bytes × Bytes))
        → Sound (elim o [
          | none ↦ elim (parse_lap_number laps) [
            | none ↦ none
            | some n ↦ some (record every_lap { first = n; last = n })
          ]
          | some (head, tail) ↦ elim (parse_lap_number head) [
            | none ↦ none
            | some first ↦ range_from first tail
          ]
        ])
    by_dots none = single (parse_lap_number laps) (parse_lap_number-IsLap laps)
    by_dots (some (head, tail)) = range (parse_lap_number head) tail (parse_lap_number-IsLap head)

keep_time_if-Sound : (b : Bool) (o : Option LapSelector) → Sound o → Sound (keep_time_if b o)
unfolding keep_time_if
keep_time_if-Sound b none w = tt
keep_time_if-Sound b (some when) w = record {
  counts_from_one = w.counts_from_one;
  ordered = w.ordered;
  in_word = w.in_word;
  steps = w.steps;
  step_in_word = w.step_in_word;
}

-- What @lap gives is well formed, whatever its options are.
pub parse_lap_block-Sound : (argument : Bytes) → Sound (parse_lap_block argument)
unfolding parse_lap_block
parse_lap_block-Sound argument = by_words (split_words argument)
  where
    by_words :
        (words : List Bytes)
        → Sound (elim words [
          | [] ↦ none
          | laps ∷ [] ↦ keep_time_if false (parse_laps laps)
          | laps ∷ (option ∷ []) ↦
              if same_bytes option (codes "keep-time")
              then keep_time_if true (parse_laps laps)
              else none
          | laps ∷ (option ∷ (more ∷ rest)) ↦ none
        ])
    by_words [] = tt
    by_words (laps ∷ []) = keep_time_if-Sound false (parse_laps laps) (parse_laps-Sound laps)
    by_words (laps ∷ (option ∷ [])) = elim (Bool-cases (same_bytes option (codes "keep-time"))) [
      | inl t ↦ rw t (keep_time_if-Sound true (parse_laps laps) (parse_laps-Sound laps))
      | inr f ↦ rw f tt
    ]
    by_words (laps ∷ (option ∷ (more ∷ rest))) = tt

every_to-Sound :
    (when : LapSelector) (words : List Bytes) → InWords when → Sound (every_to when words)
unfolding every_to
every_to-Sound when [] w = ordered_laps-Sound when w
every_to-Sound when (keyword ∷ []) w = tt
every_to-Sound when (keyword ∷ (number ∷ [])) w =
    elim (Bool-cases (same_bytes keyword (codes "to"))) [
      | inl t ↦ rw t (by_number (parse_lap_number number) (parse_lap_number-IsLap number))
      | inr f ↦ rw f tt
    ]
  where
    by_number :
        (o : Option ℕ)
        → IsLap o
        → Sound (elim o [ none ↦ none | some last ↦ ordered_laps (record when { last = last }) ])
    by_number none p = tt
    by_number (some n) p = ordered_laps-Sound _ (record {
      counts_from_one = w.counts_from_one;
      in_word = omega (arith, p.1);
      steps = w.steps;
      step_in_word = w.step_in_word;
    })
every_to-Sound when (keyword ∷ (number ∷ (more ∷ rest))) w = tt

every_from-Sound :
    (when : LapSelector) (words : List Bytes) → InWords when → Sound (every_from when words)
unfolding every_from
every_from-Sound when [] w = every_to-Sound when [] w
every_from-Sound when (keyword ∷ []) w = tt
every_from-Sound when (keyword ∷ (number ∷ rest)) w =
    elim (Bool-cases (same_bytes keyword (codes "from"))) [
      | inl t ↦ rw t (by_number (parse_lap_number number) (parse_lap_number-IsLap number))
      | inr f ↦ rw f (every_to-Sound when (keyword ∷ (number ∷ rest)) w)
    ]
  where
    by_number :
        (o : Option ℕ)
        → IsLap o
        → Sound
            (elim o [ none ↦ none | some first ↦ every_to (record when { first = first }) rest ])
    by_number none p = tt
    by_number (some n) p = every_to-Sound _ rest (record {
      counts_from_one = p.0;
      in_word = w.in_word;
      steps = w.steps;
      step_in_word = w.step_in_word;
    })

every_words-Sound : (keep : Bool) (words : List Bytes) → Sound (every_words keep words)
unfolding every_words
every_words-Sound keep [] = tt
every_words-Sound keep (word ∷ words) =
    by_number (parse_lap_number word) (parse_lap_number-IsLap word)
  where
    by_number :
        (o : Option ℕ)
        → IsLap o
        → Sound (elim o [
          | none ↦ none
          | some n ↦ every_from (record every_lap { first = n; every = n; keep_time = keep }) words
        ])
    by_number none p = tt
    by_number (some n) p = every_from-Sound _ words (record {
      counts_from_one = p.0;
      in_word = omega arith;
      steps = p.0;
      step_in_word = omega (arith, p.1);
    })

-- What @every gives is well formed, whatever its options are.
pub parse_every_block-Sound : (argument : Bytes) → Sound (parse_every_block argument)
unfolding parse_every_block
parse_every_block-Sound argument =
    let words = split_words argument in
    elim (Bool-cases (length words == 0 || ltb 6 (length words))) [
      | inl t ↦ rw t tt
      | inr f ↦ rw f (every_words-Sound (strip_keep_time words).1 (strip_keep_time words).0)
    ]
