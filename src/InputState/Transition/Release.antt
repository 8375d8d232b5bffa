-- ===== src/InputState/Transition/Release.antt =====
-- InputState::transition of src/input_state.cpp to the cleared state, as stop and pause use it.
use aoahid_player.Base.Int.{ℤ, pos, eqb_ℤ}
use aoahid_player.Base.{
  ℕ, zero, suc, ◌≡◌, refl, Bool, true, false, List, [], ◌∷◌, replicate, Bool-cases, inl, inr,
}
use aoahid_player.Event.{EventPayload, GamepadDpad, StylusSample}
use aoahid_player.InputState.Transition.{
  Rows, Change, put, no_rows, same_dpad, same_stylus, loop_rows, contact_change, key_change,
  axis_change, dpad_change, stylus_change, set_rows, transition,
}
use aoahid_player.InputState.{
  InputState, Contact, no_contact, no_dpad, no_stylus, dpad_neutral, cleared, max_contacts,
  max_axes, key_count,
}

-- A change to the value of a cleared place is no press.
loop_rows-cleared {ℓ} :
    {A : Type ℓ} (change : ℕ → A → A → Change) (d : A)
    → ((i : ℕ) (a : A) (r : Rows) → (put (change i a d) r).presses ≡ r.presses)
    → (i n : ℕ) (xs : List A) → (loop_rows change i xs (replicate n d)).presses ≡ []
unfolding loop_rows
loop_rows-cleared change d h i n [] = refl
loop_rows-cleared change d h i zero (a ∷ xs) = refl
loop_rows-cleared change d h i (suc n) (a ∷ xs) =
    rw (h i a (loop_rows change (suc i) xs (replicate n d)))
      (loop_rows-cleared change d h (suc i) n xs)

contact_change-cleared :
    (id : ℕ) (a : Contact) (r : Rows) → (put (contact_change id a no_contact) r).presses ≡ r.presses
unfolding contact_change put
contact_change-cleared id a r = elim (Bool-cases a.active) [ inl t ↦ rw t refl | inr f ↦ rw f refl ]

key_change-cleared :
    (usage : ℕ) (a : Bool) (r : Rows) → (put (key_change usage a false) r).presses ≡ r.presses
unfolding key_change put
key_change-cleared usage true r = refl
key_change-cleared usage false r = refl

axis_change-cleared :
    (index : ℕ) (a : ℤ) (r : Rows) → (put (axis_change index a (pos 0)) r).presses ≡ r.presses
unfolding axis_change put
axis_change-cleared index a r = elim (Bool-cases (eqb_ℤ a (pos 0))) [
  | inl t ↦ rw t refl
  | inr f ↦ rw f refl
]

dpad_change-cleared : (a : GamepadDpad) → (put (dpad_change a no_dpad) no_rows).presses ≡ []
unfolding dpad_change dpad_neutral put
dpad_change-cleared a = elim (Bool-cases (same_dpad a no_dpad)) [
  | inl t ↦ rw (t, dpad_change) refl
  | inr f ↦ rw (f, dpad_change) refl
]

stylus_change-cleared :
    (row : StylusSample → EventPayload) (a : StylusSample)
    → (put (stylus_change row a no_stylus) no_rows).presses ≡ []
unfolding stylus_change put
stylus_change-cleared row a = elim (Bool-cases (same_stylus a no_stylus)) [
  | inl t ↦ rw (t, stylus_change) refl
  | inr f ↦ rw (f, stylus_change) refl
]

-- The transition from any state to the cleared one consists of releases alone.
pub transition-cleared : (from : InputState) → (transition from cleared).presses ≡ []
unfolding transition set_rows
transition-cleared from =
    rw
      (
        loop_rows-cleared contact_change no_contact contact_change-cleared 0 max_contacts
            from.contacts,
        loop_rows-cleared key_change false key_change-cleared 0 key_count from.keys,
        loop_rows-cleared axis_change (pos 0) axis_change-cleared 0 max_axes from.axes,
        dpad_change-cleared from.dpad,
        stylus_change-cleared _ from.pen,
        stylus_change-cleared _ from.digitizer,
      )
      refl
