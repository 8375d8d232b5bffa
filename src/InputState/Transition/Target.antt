-- ===== src/InputState/Transition/Target.antt =====
-- Where InputState::transition of src/input_state.cpp leads: the releases and then the presses take the
-- one state to the other.
use aoahid_player.Base.Int.{ℤ, pos, negsuc}
use aoahid_player.Base.{
  ℕ, zero, suc, ◌+◌, ◌<◌, ◌≤◌, ◌≡◌, ◌≢◌, refl, ap, sym, ◌∙◌, Bool, none, some, List, [], ◌∷◌,
  length, get_or, dec_lt, arith,
}
use aoahid_player.Event.Control.{Control}
use aoahid_player.Event.{
  EventPayload, GamepadDpad, StylusSample, touch_event, mouse_move, mouse_button, key_event,
  gamepad_button, gamepad_axis, gamepad_dpad, pen_sample, digitizer_sample, media_key,
}
use aoahid_player.InputState.Apply.{IsValid, apply_all-IsValid, held-apply_all}
use aoahid_player.InputState.Held.{
  Value, held, effect, effects, value_or, contact_value, flag_value, level,
}
use aoahid_player.InputState.{
  InputState, Contact, apply_all, no_contact, max_contacts, key_count, max_axes,
}
use aoahid_player.InputState.Transition.{
  Change, put, no_rows, pieces, all_rows, transition, loop_rows, contact_change, key_change,
  axis_change, dpad_change, stylus_change, set_rows, mouse_row, pad_row, consumer_row,
}
use aoahid_player.InputState.Transition.Leads.{
  leads, Silent, Silent-no_rows, Silent-leads, change_effect, put-Silent, put-leads,
  loop_rows-Silent, loop_rows-leads, family, Separate, Separate-leads,
}
use aoahid_player.InputState.Transition.Own.{
  contact_change-own, contact_change-other, contact_change-untracked, contact_change-negative,
  key_change-own, key_change-other, key_change-untracked, axis_change-own, axis_change-other,
  axis_change-untracked, dpad_change-own, stylus_change-own, set_rows-Silent, set_rows-leads,
}

-- The family of the control that a row drives; no control's for a mouse move.
abbrev payload_family : EventPayload → ℕ
payload_family (touch_event e) = 0
payload_family (key_event e) = 1
payload_family (mouse_button e) = 2
payload_family (gamepad_button e) = 3
payload_family (gamepad_axis e) = 4
payload_family (gamepad_dpad e) = 5
payload_family (media_key e) = 6
payload_family (pen_sample e) = 7
payload_family (digitizer_sample e) = 8
payload_family (mouse_move e) = 9

effect-family : (e : EventPayload) (c : Control) → family c ≢ payload_family e → effect e c ≡ none
unfolding effect
effect-family (touch_event e) (Control.contact z) ne = absurd (ne refl)
effect-family (touch_event e) _ ne = refl
effect-family (mouse_move e) c ne = refl
effect-family (mouse_button e) (Control.button n) ne = absurd (ne refl)
effect-family (mouse_button e) _ ne = refl
effect-family (key_event e) (Control.key n) ne = absurd (ne refl)
effect-family (key_event e) _ ne = refl
effect-family (gamepad_button e) (Control.pad_button n) ne = absurd (ne refl)
effect-family (gamepad_button e) _ ne = refl
effect-family (gamepad_axis e) (Control.axis n) ne = absurd (ne refl)
effect-family (gamepad_axis e) _ ne = refl
effect-family (gamepad_dpad e) Control.dpad ne = absurd (ne refl)
effect-family (gamepad_dpad e) _ ne = refl
effect-family (pen_sample e) Control.pen ne = absurd (ne refl)
effect-family (pen_sample e) _ ne = refl
effect-family (digitizer_sample e) Control.digitizer ne = absurd (ne refl)
effect-family (digitizer_sample e) _ ne = refl
effect-family (media_key e) (Control.media n) ne = absurd (ne refl)
effect-family (media_key e) _ ne = refl

abbrev ChangeFamily : Change → ℕ → Type 0
ChangeFamily none k = Unit
ChangeFamily (some (press, row)) k = payload_family row ≡ k

change_effect-family :
    (o : Change) (k : ℕ) (c : Control) → ChangeFamily o k → family c ≢ k → change_effect o c ≡ none
change_effect-family none k c e ne = refl
change_effect-family (some (press, row)) k c e ne = effect-family row c (λ q. ne (q ∙ e))

contact_change-family : (i : ℕ) (a b : Contact) → ChangeFamily (contact_change i a b) 0
unfolding contact_change
contact_change-family i a b = ground arith

key_change-family : (i : ℕ) (a b : Bool) → ChangeFamily (key_change i a b) 1
unfolding key_change
key_change-family i a b = ground arith

axis_change-family : (i : ℕ) (a b : ℤ) → ChangeFamily (axis_change i a b) 4
unfolding axis_change
axis_change-family i a b = ground arith

dpad_change-family : (a b : GamepadDpad) → ChangeFamily (dpad_change a b) 5
unfolding dpad_change
dpad_change-family a b = ground arith

pen_change-family : (a b : StylusSample) → ChangeFamily (stylus_change pen_sample a b) 7
unfolding stylus_change
pen_change-family a b = ground arith

digitizer_change-family : (a b : StylusSample) → ChangeFamily (stylus_change digitizer_sample a b) 8
unfolding stylus_change
digitizer_change-family a b = ground arith

loop-Separate {ℓ} :
    {A : Type ℓ} (change : ℕ → A → A → Change) (k : ℕ) (xs ys : List A)
    → ((i : ℕ) (a b : A) → ChangeFamily (change i a b) k)
    → (c : Control) → family c ≢ k
    → Silent (loop_rows change 0 xs ys) c
loop-Separate change k xs ys h c ne =
    loop_rows-Silent change c 0 xs ys
      (λ j a b le. change_effect-family (change j a b) k c (h j a b) ne)

put-Separate :
    (o : Change) (k : ℕ)
    → ChangeFamily o k
    → (c : Control) → family c ≢ k
    → Silent (put o no_rows) c
put-Separate o k h c ne =
    put-Silent o no_rows c (change_effect-family o k c h ne) (Silent-no_rows c)

set-Separate :
    (row : ℕ → Bool → EventPayload) (k : ℕ) (a b : List ℕ)
    → ((n : ℕ) (d : Bool) → payload_family (row n d) ≡ k)
    → (c : Control) → family c ≢ k
    → Silent (set_rows row a b) c
set-Separate row k a b h c ne =
    set_rows-Silent row c a b (λ n d. effect-family (row n d) c (λ q. ne (q ∙ h n d)))

pieces-Separate : (from to : InputState) → Separate 0 (pieces from to)
pieces-Separate from to = (
  loop-Separate contact_change 0 from.contacts to.contacts contact_change-family,
  (
    loop-Separate key_change 1 from.keys to.keys key_change-family,
    (
      set-Separate mouse_row 2 from.mouse_buttons to.mouse_buttons (λ n d. refl),
      (
        set-Separate pad_row 3 from.pad_buttons to.pad_buttons (λ n d. refl),
        (
          loop-Separate axis_change 4 from.axes to.axes axis_change-family,
          (
            put-Separate _ 5 (dpad_change-family from.dpad to.dpad),
            (
              set-Separate consumer_row 6 from.media to.media (λ n d. refl),
              (
                put-Separate _ 7 (pen_change-family from.pen to.pen),
                (put-Separate _ 8 (digitizer_change-family from.digitizer to.digitizer), tt),
              ),
            ),
          ),
        ),
      ),
    ),
  ),
)

get_or-beyond {ℓ} : {A : Type ℓ} (xs : List A) (i : ℕ) (d : A) → length xs ≤ i → get_or xs i d ≡ d
get_or-beyond [] i d h = refl
get_or-beyond (x ∷ xs) zero d h = absurd (omega arith)
get_or-beyond (x ∷ xs) (suc i) d h = get_or-beyond xs i d (omega arith)

-- A loop over two arrays of `size` places.
array-leads {ℓ} :
    {A : Type ℓ} (change : ℕ → A → A → Change) (ctrl : ℕ → Control) (val : A → Value) (size n : ℕ)
    (xs ys : List A) (d : A)
    → ((i : ℕ) (a b : A)
        → i < size
        → value_or (change_effect (change i a b) (ctrl i)) (val a) ≡ val b)
    → ((i j : ℕ) (a b : A) → i ≢ j → change_effect (change i a b) (ctrl j) ≡ none)
    → ((i j : ℕ) (a b : A) → size ≤ j → change_effect (change i a b) (ctrl j) ≡ none)
    → length xs ≡ size
    → length ys ≡ size
    → leads (loop_rows change 0 xs ys) (ctrl n) (val (get_or xs n d)) ≡ val (get_or ys n d)
array-leads change ctrl val size n xs ys d own other untracked p q = elim (dec_lt n size) [
  | yes low ↦
      let e : 0 + n ≡ n = omega arith in
      rw e at (
        loop_rows-leads change ctrl val size own other 0 n xs ys d (p ∙ sym q) (omega (arith, p))
          (omega arith))
  | no high ↦
      Silent-leads (loop_rows change 0 xs ys) (ctrl n) (val (get_or xs n d))
        (loop_rows-Silent change (ctrl n) 0 xs ys (λ j a b le. untracked j n a b (omega arith)))
      ∙ ap val
          (get_or-beyond xs n d (omega (arith, p)) ∙ sym (get_or-beyond ys n d (omega (arith, q))))
]

put-own :
    (o : Change) (c : Control) (v w : Value)
    → value_or (change_effect o c) v ≡ w
    → leads (put o no_rows) c v ≡ w
put-own o c v w h = put-leads o no_rows c v (Silent-no_rows c) ∙ h

transition-leads :
    (from to : InputState) (c : Control)
    → IsValid from
    → IsValid to
    → leads (all_rows (pieces from to)) c (held from c) ≡ held to c
unfolding held effect
transition-leads from to (Control.contact (pos n)) v w =
    Separate-leads 0 0 (pieces from to) _ (Control.contact (pos n)) _ (pieces-Separate from to) refl
      refl
    ∙ array-leads contact_change (λ i. Control.contact (pos i)) contact_value max_contacts n
        from.contacts to.contacts no_contact contact_change-own contact_change-other
        contact_change-untracked v.contacts_size w.contacts_size
transition-leads from to (Control.contact (negsuc n)) v w =
    Separate-leads 0 0 (pieces from to) _ (Control.contact (negsuc n)) _ (pieces-Separate from to)
      refl refl
    ∙ Silent-leads (loop_rows contact_change 0 from.contacts to.contacts)
        (Control.contact (negsuc n)) _
        (loop_rows-Silent contact_change (Control.contact (negsuc n)) 0 from.contacts to.contacts
          (λ j a b le. contact_change-negative j n a b))
transition-leads from to (Control.key n) v w =
    Separate-leads 0 1 (pieces from to) _ (Control.key n) _ (pieces-Separate from to) refl refl
    ∙ array-leads key_change Control.key flag_value key_count n from.keys to.keys _ key_change-own
        key_change-other key_change-untracked v.keys_size w.keys_size
transition-leads from to (Control.button n) v w =
    Separate-leads 0 2 (pieces from to) _ (Control.button n) _ (pieces-Separate from to) refl refl
    ∙ set_rows-leads mouse_row Control.button n from.mouse_buttons to.mouse_buttons (λ m k d. refl)
        v.mouse_sorted w.mouse_sorted
transition-leads from to (Control.pad_button n) v w =
    Separate-leads 0 3 (pieces from to) _ (Control.pad_button n) _ (pieces-Separate from to) refl
      refl
    ∙ set_rows-leads pad_row Control.pad_button n from.pad_buttons to.pad_buttons (λ m k d. refl)
        v.pad_sorted w.pad_sorted
transition-leads from to (Control.axis n) v w =
    Separate-leads 0 4 (pieces from to) _ (Control.axis n) _ (pieces-Separate from to) refl refl
    ∙ array-leads axis_change Control.axis level max_axes n from.axes to.axes _ axis_change-own
        axis_change-other axis_change-untracked v.axes_size w.axes_size
transition-leads from to Control.dpad v w =
    Separate-leads 0 5 (pieces from to) _ Control.dpad _ (pieces-Separate from to) refl refl
    ∙ put-own _ Control.dpad _ _ (dpad_change-own from.dpad to.dpad)
transition-leads from to (Control.media n) v w =
    Separate-leads 0 6 (pieces from to) _ (Control.media n) _ (pieces-Separate from to) refl refl
    ∙ set_rows-leads consumer_row Control.media n from.media to.media (λ m k d. refl) v.media_sorted
        w.media_sorted
transition-leads from to Control.pen v w =
    Separate-leads 0 7 (pieces from to) _ Control.pen _ (pieces-Separate from to) refl refl
    ∙ put-own _ Control.pen _ _
        (stylus_change-own pen_sample Control.pen from.pen to.pen (λ s. refl))
transition-leads from to Control.digitizer v w =
    Separate-leads 0 8 (pieces from to) _ Control.digitizer _ (pieces-Separate from to) refl refl
    ∙ put-own _ Control.digitizer _ _ (
        stylus_change-own digitizer_sample Control.digitizer from.digitizer to.digitizer
          (λ s. refl))

-- The releases of a transition and then its presses, applied to the one state, lead every control to what
-- the other state holds. Both states keep their invariant.
pub transition-held :
    (from to : InputState) (c : Control)
    → IsValid from
    → IsValid to
    → held (apply_all (apply_all from (transition from to).releases) (transition from to).presses) c
      ≡ held to c
unfolding transition
transition-held from to c v w =
    let r = all_rows (pieces from to) in
    held-apply_all (apply_all from r.releases) r.presses c (apply_all-IsValid from r.releases v)
    ∙ ap (value_or (effects r.presses c)) (held-apply_all from r.releases c v)
    ∙ transition-leads from to c v w
