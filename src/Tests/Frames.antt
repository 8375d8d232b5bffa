-- ===== src/Tests/Frames.antt =====
-- A frame of the model of GeteventParser (src/getevent_parser.cpp), and a transition of that of
-- InputState (src/input_state.cpp).
use aoahid_player.Base.Int.{pos}
use aoahid_player.Base.{◌≡◌, refl, true, List, [], ◌∷◌, get_or, arith}
use aoahid_player.Event.Control.{contact}
use aoahid_player.Getevent.Frames.{is_down, rows_of, close_slots-held}
use aoahid_player.Getevent.{Slot, no_slot, close_slots}
use aoahid_player.InputState.Apply.{cleared-IsValid, apply_all-IsValid}
use aoahid_player.InputState.Held.{held}
use aoahid_player.Event.{touch_event, key_event}
use aoahid_player.InputState.Transition.Release.{transition-cleared}
use aoahid_player.InputState.Transition.Target.{transition-held}
use aoahid_player.InputState.Transition.{transition}
use aoahid_player.InputState.{InputState, cleared, apply_all}

-- The first contact is about to come down.
abbrev touching : List Slot
touching = record no_slot { x = pos 40; y = pos 50; active = true; changed = true } ∷ no_slot ∷ []

first_is_up : is_down (held cleared (contact (pos 0))) ≡ (get_or touching 0 no_slot).placed
unfolding held
first_is_up = refl

close_slots-held_example :
    is_down (held (apply_all cleared (rows_of (close_slots 0 touching).1)) (contact (pos 0)))
    ≡ (get_or (close_slots 0 touching).0 0 no_slot).placed
close_slots-held_example =
    close_slots-held touching cleared 0 cleared-IsValid (omega arith) (omega arith) first_is_up

-- A finger and a key are held.
abbrev holding : InputState
holding = apply_all cleared (
    touch_event (record { finger_id = pos 2; state = true; x = pos 7; y = pos 9 })
    ∷ key_event (record { usage = 4; down = true })
    ∷ [])

transition-cleared_example : (transition holding cleared).presses ≡ []
transition-cleared_example = transition-cleared holding

-- Another finger is held, and the key no longer is.
abbrev moved : InputState
moved = apply_all cleared (
    touch_event (record { finger_id = pos 2; state = true; x = pos 8; y = pos 9 })
    ∷ touch_event (record { finger_id = pos 3; state = true; x = pos 1; y = pos 2 })
    ∷ [])

transition-held_example :
    held
      (apply_all
        (apply_all holding (transition holding moved).releases)
        (transition holding moved).presses)
      (contact (pos 2))
    ≡ held moved (contact (pos 2))
transition-held_example =
    transition-held holding moved (contact (pos 2)) (apply_all-IsValid cleared _ cleared-IsValid)
      (apply_all-IsValid cleared _ cleared-IsValid)
