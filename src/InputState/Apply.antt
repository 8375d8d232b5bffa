-- ===== src/InputState/Apply.antt =====
-- InputState::apply of src/input_state.cpp: a row sets its own control and no other.
pub mod Members
use aoahid_player.Base.Int.{ℤ, pos, negsuc}
use aoahid_player.Base.{
  ℕ, zero, suc, ◌<◌, ◌≤◌, ◌≡◌, ◌≢◌, Bool, true, false, Option, none, some, List, [], ◌∷◌, length,
  get_or, set, get_or-set_self, get_or-set_ne, length-set, ltb, ◌==◌, ==_iff, ltb_iff,
  if◌then◌else◌, refl, sym, ap, ◌∙◌, arith, Bool-cases, inl, inr,
}
use aoahid_player.Event.Control.{
  Control, contact, button, key, pad_button, axis, dpad, pen, digitizer, media,
}
use aoahid_player.Event.{
  EventPayload, TouchEvent, KeyEvent, GamepadAxis, touch_event, mouse_move, mouse_button, key_event,
  gamepad_button, gamepad_axis, gamepad_dpad, pen_sample, digitizer_sample, media_key,
}
use aoahid_player.InputState.Held.{
  Value, held, effect, effects, value_or, contact_value, flag_value, level, later, value_or-later,
  on_number, touch_effect,
}
use aoahid_player.InputState.{
  InputState, Contact, no_contact, max_contacts, max_axes, key_count, contains, set_member, apply,
  touch_contacts, apply_all, cleared, clear,
}
use Members.{
  Rising, set_member-Rising, contains-set_member, get_or-set, member_value, value_if, value_kept,
}

-- The invariant of InputState: the arrays have their sizes, and the vectors are sorted with no
-- element twice.
pub record IsValid (s : InputState) : Type 0 where
  pub contacts_size : length s.contacts ≡ max_contacts
  pub keys_size : length s.keys ≡ key_count
  pub axes_size : length s.axes ≡ max_axes
  pub mouse_sorted : Rising 0 s.mouse_buttons
  pub pad_sorted : Rising 0 s.pad_buttons
  pub media_sorted : Rising 0 s.media

module _ (s : InputState) (v : IsValid s) where
  held-touch :
      (e : TouchEvent) (f z : ℤ)
      → held (record s { contacts = touch_contacts s.contacts e f }) (contact z)
        ≡ value_or
            (touch_effect f (contact_value (record { active = e.state; x = e.x; y = e.y })) z)
            (held s (contact z))
  unfolding touch_contacts held
  held-touch e (pos n) (pos m) = elim (Bool-cases (ltb n max_contacts)) [
    | inl small ↦
        rw
          (
            small,
            get_or-set s.contacts n m (record { active = e.state; x = e.x; y = e.y }) no_contact
                (rw v.contacts_size ((ltb_iff n max_contacts).0 small)),
          )
          (value_if contact_value (n == m) _ _)
    | inr big ↦ rw big (value_kept (n == m) _)
  ]
  held-touch e (pos n) (negsuc m) = refl
  held-touch e (negsuc n) (pos m) = refl
  held-touch e (negsuc n) (negsuc m) = refl

  held-key :
      (e : KeyEvent) (n : ℕ)
      → held (apply s (key_event e)) (key n)
        ≡ value_or (effect (key_event e) (key n)) (held s (key n))
  unfolding apply effect held
  held-key e n = elim (Bool-cases (ltb e.usage key_count)) [
    | inl small ↦
        rw
          (
            small,
            get_or-set s.keys e.usage n e.down false
                (rw v.keys_size ((ltb_iff e.usage key_count).0 small)),
          )
          (value_if flag_value (e.usage == n) _ _)
    | inr big ↦ rw big (value_kept (e.usage == n) _)
  ]

  held-axis :
      (e : GamepadAxis) (n : ℕ)
      → held (apply s (gamepad_axis e)) (axis n)
        ≡ value_or (effect (gamepad_axis e) (axis n)) (held s (axis n))
  unfolding apply effect held
  held-axis e n = elim (Bool-cases (ltb e.axis_index max_axes)) [
    | inl small ↦
        rw
          (
            small,
            get_or-set s.axes e.axis_index n e.value (pos 0)
                (rw v.axes_size ((ltb_iff e.axis_index max_axes).0 small)),
          )
          (value_if level (e.axis_index == n) _ _)
    | inr big ↦ rw big (value_kept (e.axis_index == n) _)
  ]

  -- A row gives its own control its value, and leaves every other control as it was.
  held-apply :
      (e : EventPayload) (c : Control) → held (apply s e) c ≡ value_or (effect e c) (held s c)
  unfolding apply effect held
  held-apply (touch_event e) (contact z) = held-touch e e.finger_id z
  held-apply (mouse_button e) (button n) =
      member_value s.mouse_buttons e.button n e.pressed v.mouse_sorted
  held-apply (gamepad_button e) (pad_button n) =
      member_value s.pad_buttons e.button n e.pressed v.pad_sorted
  held-apply (media_key e) (media n) = member_value s.media e.usage n e.down v.media_sorted
  held-apply (key_event e) (key n) = held-key e n
  held-apply (gamepad_axis e) (axis n) = held-axis e n
  held-apply (gamepad_dpad e) dpad = refl
  held-apply (pen_sample e) pen = refl
  held-apply (digitizer_sample e) digitizer = refl
  held-apply (mouse_move e) dpad = refl
  held-apply _ (contact (pos n)) = refl
  held-apply _ _ = refl

length-touch_contacts :
    (cs : List Contact) (e : TouchEvent) (f : ℤ) → length (touch_contacts cs e f) ≡ length cs
unfolding touch_contacts
length-touch_contacts cs e (negsuc n) = refl
length-touch_contacts cs e (pos n) =
    ground (arith, length-set cs n (record { active = e.state; x = e.x; y = e.y }))

length-if_set {ℓ} :
    {A : Type ℓ} (b : Bool) (xs : List A) (i : ℕ) (v : A)
    → length (if b then set xs i v else xs) ≡ length xs
length-if_set true xs i v = length-set xs i v
length-if_set false xs i v = refl

-- Every row keeps the invariant.
pub apply-IsValid : (s : InputState) (e : EventPayload) → IsValid s → IsValid (apply s e)
unfolding apply
apply-IsValid s e v = record {
  contacts_size = contacts e;
  keys_size = keys e;
  axes_size = axes e;
  mouse_sorted = mouse e;
  pad_sorted = pad e;
  media_sorted = media_keys e;
}
  where
    contacts : (e : EventPayload) → length (apply s e).contacts ≡ max_contacts
    contacts (touch_event t) = length-touch_contacts s.contacts t t.finger_id ∙ v.contacts_size
    contacts _ = v.contacts_size

    keys : (e : EventPayload) → length (apply s e).keys ≡ key_count
    keys (key_event k) = length-if_set (ltb k.usage key_count) s.keys k.usage k.down ∙ v.keys_size
    keys _ = v.keys_size

    axes : (e : EventPayload) → length (apply s e).axes ≡ max_axes
    axes (gamepad_axis a) =
        length-if_set (ltb a.axis_index max_axes) s.axes a.axis_index a.value ∙ v.axes_size
    axes _ = v.axes_size

    mouse : (e : EventPayload) → Rising 0 (apply s e).mouse_buttons
    mouse (mouse_button b) =
        set_member-Rising 0 b.button b.pressed s.mouse_buttons (omega arith) v.mouse_sorted
    mouse _ = v.mouse_sorted

    pad : (e : EventPayload) → Rising 0 (apply s e).pad_buttons
    pad (gamepad_button b) =
        set_member-Rising 0 b.button b.pressed s.pad_buttons (omega arith) v.pad_sorted
    pad _ = v.pad_sorted

    media_keys : (e : EventPayload) → Rising 0 (apply s e).media
    media_keys (media_key k) =
        set_member-Rising 0 k.usage k.down s.media (omega arith) v.media_sorted
    media_keys _ = v.media_sorted

-- A sequence of rows keeps the invariant: the arrays keep their sizes, and the vectors stay sorted with
-- no element twice.
pub apply_all-IsValid :
    (s : InputState) (es : List EventPayload) → IsValid s → IsValid (apply_all s es)
unfolding apply_all
apply_all-IsValid s [] v = v
apply_all-IsValid s (e ∷ es) v = apply_all-IsValid (apply s e) es (apply-IsValid s e v)

pub cleared-IsValid : IsValid cleared
cleared-IsValid = record {
  contacts_size = refl;
  keys_size = refl;
  axes_size = refl;
  mouse_sorted = tt;
  pad_sorted = tt;
  media_sorted = tt;
}

pub held-apply_all :
    (s : InputState) (es : List EventPayload) (c : Control)
    → IsValid s
    → held (apply_all s es) c ≡ value_or (effects es c) (held s c)
unfolding apply_all effects
held-apply_all s [] c v = refl
held-apply_all s (e ∷ es) c v =
    held-apply_all (apply s e) es c (apply-IsValid s e v)
    ∙ ap (value_or (effects es c)) (held-apply s v e c)
    ∙ sym (value_or-later (effects es c) (effect e c) (held s c))
