-- ===== src/InputState/Transition/Leads.antt =====
-- The value that the rows of a transition (src/input_state.cpp) lead a control to, the releases first.
use aoahid_player.Base.{
  ℕ, zero, suc, ◌+◌, ◌<◌, ◌≤◌, ◌≡◌, ◌≢◌, refl, ap, ◌∙◌, true, false, Option, none, some, List, [],
  ◌∷◌, length, get_or, get_elem?, arith,
}
use aoahid_player.Event.Control.{Control}
use aoahid_player.InputState.Held.{Value, effect, effects, effects-append, later-none, value_or}
use aoahid_player.InputState.Transition.{Rows, Change, no_rows, put, loop_rows, all_rows}

abbrev pub leads : Rows → Control → Value → Value
leads r c v = value_or (effects r.presses c) (value_or (effects r.releases c) v)

abbrev pub change_effect : Change → Control → Option Value
change_effect none c = none
change_effect (some (press, row)) c = effect row c

-- The rows leave the control alone.
pub record Silent (r : Rows) (c : Control) : Type 0 where
  pub releases : effects r.releases c ≡ none
  pub presses : effects r.presses c ≡ none

pub Silent-no_rows : (c : Control) → Silent no_rows c
unfolding effects
Silent-no_rows c = record { releases = refl; presses = refl }

pub Silent-leads : (r : Rows) (c : Control) (v : Value) → Silent r c → leads r c v ≡ v
Silent-leads r c v s = rw (s.releases, s.presses) refl

pub put-Silent :
    (o : Change) (r : Rows) (c : Control)
    → change_effect o c ≡ none
    → Silent r c
    → Silent (put o r) c
unfolding put effects
put-Silent none r c e s = s
put-Silent (some (true, row)) r c e s = record {
  releases = s.releases;
  presses = rw (s.presses, e) refl;
}
put-Silent (some (false, row)) r c e s = record {
  releases = rw (s.releases, e) refl;
  presses = s.presses;
}

pub put-leads :
    (o : Change) (r : Rows) (c : Control) (v : Value)
    → Silent r c
    → leads (put o r) c v ≡ value_or (change_effect o c) v
unfolding put effects
put-leads none r c v s = Silent-leads r c v s
put-leads (some (true, row)) r c v s = rw (s.presses, s.releases) refl
put-leads (some (false, row)) r c v s = rw (s.presses, s.releases) refl

pub put-leads_rest :
    (o : Change) (r : Rows) (c : Control) (v : Value)
    → change_effect o c ≡ none
    → leads (put o r) c v ≡ leads r c v
unfolding put effects
put-leads_rest none r c v e = refl
put-leads_rest (some (true, row)) r c v e = rw (e, later-none (effects r.presses c)) refl
put-leads_rest (some (false, row)) r c v e = rw (e, later-none (effects r.releases c)) refl

module _ {ℓ} {A : Type ℓ} (change : ℕ → A → A → Change) where
  -- A control that none of the places left drives.
  pub loop_rows-Silent :
      (c : Control) (i : ℕ) (xs ys : List A)
      → ((j : ℕ) (a b : A) → i ≤ j → change_effect (change j a b) c ≡ none)
      → Silent (loop_rows change i xs ys) c
  unfolding loop_rows
  loop_rows-Silent c i [] ys h = Silent-no_rows c
  loop_rows-Silent c i (a ∷ xs) [] h = Silent-no_rows c
  loop_rows-Silent c i (a ∷ xs) (b ∷ ys) h =
      put-Silent (change i a b) (loop_rows change (suc i) xs ys) c (h i a b (omega arith))
        (loop_rows-Silent c (suc i) xs ys (λ j x y le. h j x y (omega arith)))

  -- The control of one of them.
  pub loop_rows-leads :
      (ctrl : ℕ → Control) (val : A → Value) (limit : ℕ)
      → ((i : ℕ) (a b : A)
          → i < limit
          → value_or (change_effect (change i a b) (ctrl i)) (val a) ≡ val b)
      → ((i j : ℕ) (a b : A) → i ≢ j → change_effect (change i a b) (ctrl j) ≡ none)
      → (i k : ℕ) (xs ys : List A) (d : A) → length xs ≡ length ys
      → k < length xs
      → i + k < limit
      → leads (loop_rows change i xs ys) (ctrl (i + k)) (val (get_or xs k d)) ≡ val (get_or ys k d)
  unfolding loop_rows
  loop_rows-leads ctrl val limit own other i k [] ys d same in_list low = absurd (omega arith)
  loop_rows-leads ctrl val limit own other i k (a ∷ xs) [] d same in_list low = absurd (omega arith)
  loop_rows-leads ctrl val limit own other i zero (a ∷ xs) (b ∷ ys) d same in_list low =
      let e : i + 0 ≡ i = omega arith in
      rw e (
        put-leads (change i a b) (loop_rows change (suc i) xs ys) (ctrl i) (val a) (
          loop_rows-Silent (ctrl i) (suc i) xs ys
            (λ j x y le. other j i x y (λ q. omega (arith, q))))
        ∙ own i a b (omega arith))
  loop_rows-leads ctrl val limit own other i (suc k) (a ∷ xs) (b ∷ ys) d same in_list low =
      let e : i + suc k ≡ suc i + k = omega arith in
      rw e (
        put-leads_rest (change i a b) (loop_rows change (suc i) xs ys) (ctrl (suc i + k)) _
          (other i (suc i + k) a b (λ q. omega (arith, q)))
        ∙ loop_rows-leads ctrl val limit own other (suc i) k xs ys d (omega arith) (omega arith)
            (omega arith))

all_rows-leads :
    (r : Rows) (rs : List Rows) (c : Control) (v : Value)
    → Silent (all_rows rs) c
    → leads (all_rows (r ∷ rs)) c v ≡ leads r c v
all_rows-leads r rs c v s =
    rw
      (
        effects-append r.presses (all_rows rs).presses c,
        effects-append r.releases (all_rows rs).releases c,
        s.presses,
        s.releases,
      )
      refl

all_rows-leads_rest :
    (r : Rows) (rs : List Rows) (c : Control) (v : Value)
    → Silent r c
    → leads (all_rows (r ∷ rs)) c v ≡ leads (all_rows rs) c v
all_rows-leads_rest r rs c v s =
    rw
      (
        effects-append r.presses (all_rows rs).presses c,
        effects-append r.releases (all_rows rs).releases c,
        s.presses,
        s.releases,
        later-none (effects (all_rows rs).presses c),
        later-none (effects (all_rows rs).releases c),
      )
      refl

all_rows-Silent :
    (r : Rows) (rs : List Rows) (c : Control)
    → Silent r c
    → Silent (all_rows rs) c
    → Silent (all_rows (r ∷ rs)) c
all_rows-Silent r rs c s t = record {
  releases = effects-append r.releases (all_rows rs).releases c ∙ rw (s.releases, t.releases) refl;
  presses = effects-append r.presses (all_rows rs).presses c ∙ rw (s.presses, t.presses) refl;
}

-- The family of a control: the place of its loop in transition.
abbrev pub family : Control → ℕ
family (Control.contact z) = 0
family (Control.key n) = 1
family (Control.button n) = 2
family (Control.pad_button n) = 3
family (Control.axis n) = 4
family Control.dpad = 5
family (Control.media n) = 6
family Control.pen = 7
family Control.digitizer = 8

-- Each loop, counted from `k`, leaves the controls of the other families alone.
abbrev pub Separate : ℕ → List Rows → Type 0
Separate k [] = Unit
Separate k (r ∷ rs) = ((c : Control) → family c ≢ k → Silent r c) × Separate (suc k) rs

Separate-Silent :
    (k : ℕ) (rs : List Rows) (c : Control) → Separate k rs → family c < k → Silent (all_rows rs) c
Separate-Silent k [] c s h = Silent-no_rows c
Separate-Silent k (r ∷ rs) c s h =
    all_rows-Silent r rs c (s.0 c (λ e. omega (arith, e)))
      (Separate-Silent (suc k) rs c s.1 (omega arith))

-- A control is led where the loop of its family leads it.
pub Separate-leads :
    (k j : ℕ) (rs : List Rows) (r : Rows) (c : Control) (v : Value)
    → Separate k rs
    → get_elem? rs j ≡ some r
    → family c ≡ k + j
    → leads (all_rows rs) c v ≡ leads r c v
Separate-leads k j [] r c v s g e = cc
Separate-leads k zero (x ∷ rs) r c v s g e =
    let same : x ≡ r = cc in
    all_rows-leads x rs c v (Separate-Silent (suc k) rs c s.1 (omega (arith, e)))
    ∙ ap (λ p. leads p c v) same
Separate-leads k (suc j) (x ∷ rs) r c v s g e =
    all_rows-leads_rest x rs c v (s.0 c (λ q. omega (arith, q, e)))
    ∙ Separate-leads (suc k) j rs r c v s.1 g (omega (arith, e))
