-- ===== src/Script/Load/Built.antt =====
-- Rows and segments while EventScript::load of src/event_script.cpp runs: the segments cover the rows
-- so far, and each lasts as long as its lead and its rows.
use aoahid_player.Base.{
  ℕ, zero, suc, ◌+◌, ◌-◌, ◌≤◌, ◌<◌, ◌≡◌, ◌≢◌, refl, ap, sym, ◌∙◌, true, List, [], ◌∷◌, ◌++◌, length,
  get_or, set, length-append, length-set, get_or-set_self, get_or-set_ne, All, All-append, arith,
  Bool-cases, inl, inr,
}
use aoahid_player.Event.{EventPayload, EventRecord}
use aoahid_player.Laps.{LapSelector, IsWellFormed}
use aoahid_player.Script.Load.{new_segment, is_idle, erase_idle}
use aoahid_player.Timeline.{Segment, SegmentFits, Covers, row_at, waits, no_row}

get_or-append_left {ℓ} :
    {A : Type ℓ} (xs ys : List A) (i : ℕ) (d : A)
    → i < length xs
    → get_or (xs ++ ys) i d ≡ get_or xs i d
get_or-append_left [] ys i d h = absurd (omega arith)
get_or-append_left (x ∷ xs) ys zero d h = refl
get_or-append_left (x ∷ xs) ys (suc i) d h = get_or-append_left xs ys i d (omega arith)

get_or-append_end {ℓ} :
    {A : Type ℓ} (xs : List A) (y d : A) → get_or (xs ++ y ∷ []) (length xs) d ≡ y
get_or-append_end [] y d = refl
get_or-append_end (x ∷ xs) y d = get_or-append_end xs y d

waits-agree :
    (rows rows' : List EventRecord) (at n : ℕ)
    → ((i : ℕ) → i < at + n → row_at rows' i ≡ row_at rows i)
    → waits rows' at n ≡ waits rows at n
waits-agree rows rows' at zero a = refl
waits-agree rows rows' at (suc n) a =
    let first : (row_at rows' at).wait_ns ≡ (row_at rows at).wait_ns =
      ap (λ r. r.wait_ns) (a at (omega arith)) in
    omega (arith, first, waits-agree rows rows' (suc at) n (λ i h. a i (omega arith)))

waits-suc :
    (rows : List EventRecord) (at n : ℕ)
    → waits rows at (suc n) ≡ waits rows at n + (row_at rows (at + n)).wait_ns
waits-suc rows at zero = let e : at + 0 ≡ at = omega arith in rw e (omega arith)
waits-suc rows at (suc n) =
    let e : at + suc n ≡ suc at + n = omega arith in rw e (omega (arith, waits-suc rows (suc at) n))

SegmentFits-agree :
    (rows rows' : List EventRecord) (s : Segment)
    → s.end ≤ length rows'
    → ((i : ℕ) → i < s.end → row_at rows' i ≡ row_at rows i)
    → SegmentFits rows s
    → SegmentFits rows' s
SegmentFits-agree rows rows' s h a f = record {
  in_order = f.in_order;
  in_rows = h;
  lasts =
      f.lasts
      ∙ ap (λ w. s.lead_ns + w)
          (sym (
            waits-agree rows rows' s.begin (s.end - s.begin)
              (λ i b. a i (omega (arith, f.in_order)))));
  selector = f.selector;
}

Covers-le :
    (rows : List EventRecord) (size at : ℕ) (ss : List Segment)
    → All (SegmentFits rows) ss
    → Covers size at ss
    → at ≤ size
Covers-le rows size at [] f c = omega arith
Covers-le rows size at (s ∷ ss) (f, fs) (b, c) =
    omega (arith, f.in_order, Covers-le rows size s.end ss fs c)

All-agree :
    (rows rows' : List EventRecord) (size at : ℕ) (ss : List Segment)
    → size ≤ length rows'
    → ((i : ℕ) → i < size → row_at rows' i ≡ row_at rows i)
    → Covers size at ss
    → All (SegmentFits rows) ss
    → All (SegmentFits rows') ss
All-agree rows rows' size at [] h a c f = tt
All-agree rows rows' size at (s ∷ ss) h a (b, c) (f, fs) =
    let le : s.end ≤ size = Covers-le rows size s.end ss fs c in
    (
      SegmentFits-agree rows rows' s (omega arith) (λ i q. a i (omega arith)) f,
      All-agree rows rows' size s.end ss h a c fs,
    )

pub Covers-append :
    (mid size at : ℕ) (xs ys : List Segment)
    → Covers mid at xs
    → Covers size mid ys
    → Covers size at (xs ++ ys)
Covers-append mid size at [] ys e d = rw e d
Covers-append mid size at (x ∷ xs) ys (b, c) d = (b, Covers-append mid size x.end xs ys c d)

pub record Built (rows : List EventRecord) (closed : List Segment) (back : Segment) : Type 0 where
  pub each : All (SegmentFits rows) closed
  pub last : SegmentFits rows back
  pub covers : Covers back.begin 0 closed
  pub at_end : back.end ≡ length rows

pub new_segment-SegmentFits :
    (rows : List EventRecord) (when : LapSelector)
    → IsWellFormed when
    → SegmentFits rows (new_segment (length rows) when)
new_segment-SegmentFits rows when w = record {
  in_order = omega arith;
  in_rows = omega arith;
  lasts = let e : length rows - length rows ≡ 0 = omega arith in rw e (omega arith);
  selector = w;
}

module _ (rows : List EventRecord) (closed : List Segment) (back : Segment)
    (b : Built rows closed back) where
  pub Built-SegmentFits : All (SegmentFits rows) (closed ++ back ∷ [])
  Built-SegmentFits = All-append (SegmentFits rows) closed (back ∷ []) b.each (b.last, tt)

  pub Built-Covers : Covers (length rows) 0 (closed ++ back ∷ [])
  Built-Covers =
      Covers-append back.begin (length rows) 0 closed (back ∷ []) b.covers (refl, b.at_end)

  pub Built-open :
      (when : LapSelector)
      → IsWellFormed when
      → Built rows (closed ++ back ∷ []) (new_segment (length rows) when)
  Built-open when w = record {
    each = Built-SegmentFits;
    last = new_segment-SegmentFits rows when w;
    covers = Built-Covers;
    at_end = refl;
  }

  pub Built-push :
      (payload : EventPayload) (wait : ℕ)
      → Built
          (rows ++ record { payload = payload; wait_ns = wait } ∷ [])
          closed
          (record back { end = length rows + 1; duration = back.duration + wait })
  Built-push payload wait = record {
    each =
        All-agree rows rows' back.begin 0 closed (omega (arith, size, b.last.in_order, b.at_end))
          (λ i h. old i (omega (arith, b.last.in_order, b.at_end))) b.covers b.each;
    last = record {
      in_order = omega (arith, b.last.in_order, b.at_end);
      in_rows = omega (arith, size);
      lasts =
          let n = length rows - back.begin in
          let count : length rows + 1 - back.begin ≡ suc n =
            omega (arith, b.last.in_order, b.at_end) in
          let place : back.begin + n ≡ length rows = omega (arith, b.last.in_order, b.at_end) in
          let before : back.end - back.begin ≡ n = ap (λ e. e - back.begin) b.at_end in
          let same : waits rows' back.begin n ≡ waits rows back.begin n =
            waits-agree rows rows' back.begin n (λ i h. old i (omega arith)) in
          let new : (row_at rows' (back.begin + n)).wait_ns ≡ wait =
            rw place (ap (λ r. r.wait_ns) (get_or-append_end rows _ no_row)) in
          let long : back.duration ≡ back.lead_ns + waits rows back.begin n =
            rw before at b.last.lasts in
          rw count (omega (arith, long, same, new, waits-suc rows' back.begin n));
      selector = b.last.selector;
    };
    covers = b.covers;
    at_end = omega (arith, size);
  }
    where
      rows' : List EventRecord
      rows' = rows ++ record { payload = payload; wait_ns = wait } ∷ []

      size : length rows' ≡ length rows + 1
      size = length-append rows _

      old : (i : ℕ) → i < length rows → row_at rows' i ≡ row_at rows i
      old i h = get_or-append_left rows _ i no_row h

  pub Built-lead :
      (wait : ℕ)
      → back.begin ≡ back.end
      → Built rows closed
          (record back { lead_ns = back.lead_ns + wait; duration = back.duration + wait })
  Built-lead wait e = record {
    each = b.each;
    last = record {
      in_order = b.last.in_order;
      in_rows = b.last.in_rows;
      lasts = omega (arith, b.last.lasts);
      selector = b.last.selector;
    };
    covers = b.covers;
    at_end = b.at_end;
  }

  pub Built-wait :
      (wait : ℕ)
      → back.begin ≢ back.end
      → (let last = length rows - 1 in
          let row = row_at rows last in
          Built
            (set rows last (record row { wait_ns = row.wait_ns + wait }))
            closed
            (record back { duration = back.duration + wait }))
  Built-wait wait ne = record {
    each =
        All-agree rows rows' back.begin 0 closed (omega (arith, size, b.last.in_order, b.at_end))
          (λ i h. old i (omega (arith, b.last.in_order, b.at_end))) b.covers b.each;
    last = record {
      in_order = b.last.in_order;
      in_rows = omega (arith, size, b.at_end);
      lasts =
          let n = length rows - 1 - back.begin in
          let count : back.end - back.begin ≡ suc n = omega (arith, b.last.in_order, b.at_end) in
          let place : back.begin + n ≡ length rows - 1 = omega (arith, b.last.in_order, b.at_end) in
          let same : waits rows' back.begin n ≡ waits rows back.begin n =
            waits-agree rows rows' back.begin n (λ i h. old i (omega arith)) in
          let new : (row_at rows' (back.begin + n)).wait_ns
              ≡ (row_at rows (back.begin + n)).wait_ns + wait =
            rw place (
              ap (λ r. r.wait_ns)
                (get_or-set_self rows (length rows - 1) _ no_row
                  (omega (arith, b.at_end, b.last.in_order)))) in
          let long : back.duration ≡ back.lead_ns + waits rows back.begin (suc n) =
            rw count at b.last.lasts in
          rw count (
            omega
              (arith, long, same, new, waits-suc rows' back.begin n, waits-suc rows back.begin n));
      selector = b.last.selector;
    };
    covers = b.covers;
    at_end = omega (arith, size, b.at_end);
  }
    where
      rows' : List EventRecord
      rows' =
          let last = length rows - 1 in
          let row = row_at rows last in set rows last (record row { wait_ns = row.wait_ns + wait })

      size : length rows' ≡ length rows
      size = length-set rows _ _

      old : (i : ℕ) → i < length rows - 1 → row_at rows' i ≡ row_at rows i
      old i h = get_or-set_ne rows (length rows - 1) i _ no_row (λ e. omega arith)

pub erase_idle-All :
    (rows : List EventRecord) (ss : List Segment)
    → All (SegmentFits rows) ss
    → All (SegmentFits rows) (erase_idle ss)
unfolding erase_idle
erase_idle-All rows [] f = tt
erase_idle-All rows (s ∷ ss) f = elim (Bool-cases (is_idle s)) [
  | inl t ↦ rw (t, erase_idle) (erase_idle-All rows ss f.1)
  | inr t ↦ rw (t, erase_idle) (f.0, erase_idle-All rows ss f.1)
]

is_idle-empty : (s : Segment) → is_idle s ≡ true → s.begin ≡ s.end
unfolding is_idle
is_idle-empty s t = ground arith

pub erase_idle-Covers :
    (size at : ℕ) (ss : List Segment) → Covers size at ss → Covers size at (erase_idle ss)
unfolding erase_idle
erase_idle-Covers size at [] c = c
erase_idle-Covers size at (s ∷ ss) c = elim (Bool-cases (is_idle s)) [
  | inl t ↦
      let e : s.end ≡ at = sym (is_idle-empty s t) ∙ c.0 in
      rw (t, erase_idle) (rw e at (erase_idle-Covers size s.end ss c.1))
  | inr t ↦ rw (t, erase_idle) (c.0, erase_idle-Covers size s.end ss c.1)
]
