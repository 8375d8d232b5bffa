-- ===== src/InputState/Transition/Own.antt =====
-- What each loop of InputState::transition (src/input_state.cpp) does to the controls of its family, and
-- that it leaves the others alone.
use aoahid_player.Base.Int.{ℤ, pos, negsuc, eqb_ℤ_iff}
use aoahid_player.Base.{
  ℕ, suc, ◌<◌, ◌≤◌, ◌≡◌, ◌≢◌, refl, ap, sym, ◌∙◌, Bool, true, false, not, ◌&&◌, none, some, List,
  [], ◌∷◌, ◌==◌, ==_iff, if◌then◌else◌, Bool-cases, inl, inr, arith,
}
use aoahid_player.Event.Control.{Control}
use aoahid_player.Event.{EventPayload, GamepadDpad, StylusSample}
use aoahid_player.InputState.Apply.Members.{Rising, contains-below}
use aoahid_player.InputState.Held.{
  Value, released, pressed, level, directions, sample, effect, effects, later, value_or,
  contact_value, flag_value, stylus_value, on_number,
}
use aoahid_player.InputState.Transition.Leads.{Silent, leads, change_effect}
use aoahid_player.InputState.Transition.{
  difference, same_dpad, same_stylus, lifted, contact_change, key_change, axis_change, dpad_change,
  stylus_change, set_rows,
}
use aoahid_player.InputState.{Contact, contains, max_contacts, key_count, max_axes}
use mathlib.Core.Bool.{beq}

pub contact_change-own :
    (i : ℕ) (a b : Contact)
    → i < max_contacts
    → value_or (change_effect (contact_change i a b) (Control.contact (pos i))) (contact_value a)
      ≡ contact_value b
unfolding contact_change effect
contact_change-own i a b h = ground (arith, eqb_ℤ_iff a.x b.x, eqb_ℤ_iff a.y b.y)

pub contact_change-other :
    (i j : ℕ) (a b : Contact)
    → i ≢ j
    → change_effect (contact_change i a b) (Control.contact (pos j)) ≡ none
unfolding contact_change effect
contact_change-other i j a b ne = ground arith

pub contact_change-untracked :
    (i j : ℕ) (a b : Contact)
    → max_contacts ≤ j
    → change_effect (contact_change i a b) (Control.contact (pos j)) ≡ none
unfolding contact_change effect
contact_change-untracked i j a b h = ground arith

pub contact_change-negative :
    (i n : ℕ) (a b : Contact)
    → change_effect (contact_change i a b) (Control.contact (negsuc n)) ≡ none
unfolding contact_change effect
contact_change-negative i n a b = ground arith

pub key_change-own :
    (i : ℕ) (a b : Bool)
    → i < key_count
    → value_or (change_effect (key_change i a b) (Control.key i)) (flag_value a) ≡ flag_value b
unfolding key_change effect
key_change-own i a b h = ground arith

pub key_change-other :
    (i j : ℕ) (a b : Bool) → i ≢ j → change_effect (key_change i a b) (Control.key j) ≡ none
unfolding key_change effect
key_change-other i j a b ne = ground arith

pub key_change-untracked :
    (i j : ℕ) (a b : Bool) → key_count ≤ j → change_effect (key_change i a b) (Control.key j) ≡ none
unfolding key_change effect
key_change-untracked i j a b h = ground arith

pub axis_change-own :
    (i : ℕ) (a b : ℤ)
    → i < max_axes
    → value_or (change_effect (axis_change i a b) (Control.axis i)) (level a) ≡ level b
unfolding axis_change effect
axis_change-own i a b h = ground (arith, eqb_ℤ_iff a b)

pub axis_change-other :
    (i j : ℕ) (a b : ℤ) → i ≢ j → change_effect (axis_change i a b) (Control.axis j) ≡ none
unfolding axis_change effect
axis_change-other i j a b ne = ground arith

pub axis_change-untracked :
    (i j : ℕ) (a b : ℤ) → max_axes ≤ j → change_effect (axis_change i a b) (Control.axis j) ≡ none
unfolding axis_change effect
axis_change-untracked i j a b h = ground arith

beq-eq : (a b : Bool) → beq a b ≡ true → a ≡ b
beq-eq a b h = ground arith

same_dpad-eq : (a b : GamepadDpad) → same_dpad a b ≡ true → a ≡ b
unfolding same_dpad
same_dpad-eq a b h = ground arith

pub dpad_change-own :
    (a b : GamepadDpad)
    → value_or (change_effect (dpad_change a b) Control.dpad) (directions a) ≡ directions b
unfolding dpad_change effect
dpad_change-own a b = elim (Bool-cases (same_dpad a b)) [
  | inl t ↦ rw (t, dpad_change) (ap directions (same_dpad-eq a b t))
  | inr f ↦ rw (f, dpad_change) refl
]

same_stylus-value : (a b : StylusSample) → same_stylus a b ≡ true → stylus_value a ≡ stylus_value b
unfolding same_stylus
same_stylus-value a b h =
    ground (arith, eqb_ℤ_iff a.x b.x, eqb_ℤ_iff a.y b.y, eqb_ℤ_iff a.pressure b.pressure)

pub stylus_change-own :
    (row : StylusSample → EventPayload) (c : Control) (a b : StylusSample)
    → ((s : StylusSample) → effect (row s) c ≡ some (stylus_value s))
    → value_or (change_effect (stylus_change row a b) c) (stylus_value a) ≡ stylus_value b
unfolding stylus_change lifted
stylus_change-own row c a b h = elim (Bool-cases (same_stylus a b)) [
  | inl t ↦ rw (t, stylus_change) (same_stylus-value a b t)
  | inr f ↦ rw (f, stylus_change) (by_range b.in_range refl)
]
  where
    by_range :
        (d : Bool)
        → b.in_range ≡ d
        → value_or
            (change_effect (if d then some (true, row b) else some (false, row (lifted a))) c)
            (stylus_value a)
          ≡ stylus_value b
    by_range true e = ap (λ o. value_or o (stylus_value a)) (h b)
    by_range false e =
        ap (λ o. value_or o (stylus_value a)) (h (lifted a))
        ∙ sym (ap (λ d. if d then sample b else released) e)

-- A set of numbers, each the control `ctrl n`.
difference-none :
    (row : ℕ → EventPayload) (c : Control) (a b : List ℕ)
    → ((n : ℕ) → effect (row n) c ≡ none)
    → effects (difference row a b) c ≡ none
unfolding difference effects
difference-none row c [] b h = refl
difference-none row c (x ∷ a) b h = elim (Bool-cases (contains b x)) [
  | inl t ↦ rw (t, difference) (difference-none row c a b h)
  | inr f ↦ rw (f, difference) (rw (difference-none row c a b h, h x) refl)
]

difference-effects :
    (row : ℕ → EventPayload) (ctrl : ℕ → Control) (v : Value) (lo n : ℕ) (a b : List ℕ)
    → ((m k : ℕ) → effect (row m) (ctrl k) ≡ on_number m k true v)
    → Rising lo a
    → effects (difference row a b) (ctrl n)
      ≡ (if contains a n && not (contains b n) then some v else none)
unfolding difference effects contains
difference-effects row ctrl v lo n [] b h r = refl
difference-effects row ctrl v lo n (x ∷ a) b h r =
    let ih = difference-effects row ctrl v (suc x) n a b h r.1 in
    elim (Bool-cases (contains b x)) [
      | inl t ↦ rw (t, difference) (rw ih (absent t))
      | inr f ↦ rw (f, difference) (rw (ih, h x n) (present f))
    ]
  where
    absent :
        contains b x ≡ true
        → (if contains a n && not (contains b n) then some v else none)
          ≡ (if contains (x ∷ a) n && not (contains b n) then some v else none)
    absent t = elim (Bool-cases (x == n)) [
      | inl e ↦
          let q : x ≡ n = (==_iff x n).0 e in
          let u : contains b n ≡ true = ap (contains b) (sym q) ∙ t in ground (arith, u)
      | inr e ↦ ground (arith, contains-below (suc x) n a, r.1)
    ]

    present :
        contains b x ≡ false
        → later (if contains a n && not (contains b n) then some v else none) (on_number x n true v)
          ≡ (if contains (x ∷ a) n && not (contains b n) then some v else none)
    present f = elim (Bool-cases (x == n)) [
      | inl e ↦
          let q : x ≡ n = (==_iff x n).0 e in
          let u : contains b n ≡ false = ap (contains b) (sym q) ∙ f in ground (arith, u)
      | inr e ↦ ground (arith, contains-below (suc x) n a, r.1)
    ]

pub set_rows-Silent :
    (row : ℕ → Bool → EventPayload) (c : Control) (a b : List ℕ)
    → ((n : ℕ) (d : Bool) → effect (row n d) c ≡ none)
    → Silent (set_rows row a b) c
unfolding set_rows
set_rows-Silent row c a b h = record {
  releases = difference-none (λ n. row n false) c a b (λ n. h n false);
  presses = difference-none (λ n. row n true) c b a (λ n. h n true);
}

pub set_rows-leads :
    (row : ℕ → Bool → EventPayload) (ctrl : ℕ → Control) (n : ℕ) (a b : List ℕ)
    → ((m k : ℕ) (d : Bool) → effect (row m d) (ctrl k) ≡ on_number m k true (flag_value d))
    → Rising 0 a
    → Rising 0 b
    → leads (set_rows row a b) (ctrl n) (flag_value (contains a n)) ≡ flag_value (contains b n)
unfolding set_rows
set_rows-leads row ctrl n a b h ra rb =
    rw
      (
        difference-effects (λ m. row m false) ctrl released 0 n a b (λ m k. h m k false) ra,
        difference-effects (λ m. row m true) ctrl pressed 0 n b a (λ m k. h m k true) rb,
      )
      (ground arith)
