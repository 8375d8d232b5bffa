-- ===== src/Getevent/Frames.antt =====
-- The rows that GeteventParser::close_frame of src/getevent_parser.cpp stages, against the slots: a slot
-- is placed exactly when the rows so far leave its contact down.
use mathlib.Core.List.{map-append}
use aoahid_player.Base.Int.{pos}
use aoahid_player.Base.{
  ℕ, zero, suc, ◌+◌, ◌<◌, ◌≡◌, ◌≢◌, refl, ap, ◌∙◌, Bool, true, false, none, List, [], ◌∷◌, map,
  length, get_or, arith,
}
use aoahid_player.Event.Control.{contact}
use aoahid_player.Event.{EventPayload, EventRecord}
use aoahid_player.Getevent.{Slot, no_slot, close_slot, close_slots}
use aoahid_player.InputState.Apply.{IsValid, held-apply_all}
use aoahid_player.InputState.Held.{
  Value, released, held, effect, effects, effects-append, later, later-none, value_or,
}
use aoahid_player.InputState.{InputState, apply_all}

abbrev pub is_down : Value → Bool
is_down released = false
is_down _ = true

abbrev pub rows_of : List EventRecord → List EventPayload
rows_of = map (λ r. r.payload)

close_slot-other :
    (index n : ℕ) (slot : Slot)
    → index ≢ n
    → effects (rows_of (close_slot index slot).1) (contact (pos n)) ≡ none
unfolding close_slot effects effect
close_slot-other index n slot ne = ground arith

close_slot-own :
    (index : ℕ) (slot : Slot) (v : Value)
    → index < 16
    → is_down v ≡ slot.placed
    → is_down (value_or (effects (rows_of (close_slot index slot).1) (contact (pos index))) v)
      ≡ (close_slot index slot).0.placed
unfolding close_slot effects effect
close_slot-own index slot v h e = ground arith

effects-cons :
    (index n : ℕ) (slot : Slot) (slots : List Slot)
    → effects (rows_of (close_slots index (slot ∷ slots)).1) (contact (pos n))
      ≡ later
          (effects (rows_of (close_slots (suc index) slots).1) (contact (pos n)))
          (effects (rows_of (close_slot index slot).1) (contact (pos n)))
unfolding close_slots
effects-cons index n slot slots =
    ap (λ es. effects es (contact (pos n)))
      (map-append (λ r. r.payload) (close_slot index slot).1 (close_slots (suc index) slots).1)
    ∙ effects-append (rows_of (close_slot index slot).1) (rows_of (close_slots (suc index) slots).1)
        (contact (pos n))

close_slots-other :
    (index n : ℕ) (slots : List Slot)
    → n < index
    → effects (rows_of (close_slots index slots).1) (contact (pos n)) ≡ none
close_slots-other index n [] h = unfold close_slots effects in refl
close_slots-other index n (slot ∷ slots) h =
    effects-cons index n slot slots
    ∙ rw
        (
          close_slots-other (suc index) n slots (omega arith),
          close_slot-other index n slot (λ e. omega (arith, e)),
        )
        refl

close_slots-placed :
    (index k : ℕ) (slots : List Slot) (v : Value)
    → index + k < 16
    → k < length slots
    → is_down v ≡ (get_or slots k no_slot).placed
    → is_down
        (value_or (effects (rows_of (close_slots index slots).1) (contact (pos (index + k)))) v)
      ≡ (get_or (close_slots index slots).0 k no_slot).placed
unfolding close_slots
close_slots-placed index k [] v h l e = absurd (omega arith)
close_slots-placed index zero (slot ∷ slots) v h l e =
    let n : index + 0 ≡ index = omega arith in
    rw
      (
        n,
        effects-cons index index slot slots,
        close_slots-other (suc index) index slots (omega arith),
      )
      (close_slot-own index slot v (omega arith) e)
close_slots-placed index (suc k) (slot ∷ slots) v h l e =
    let n : index + suc k ≡ suc index + k = omega arith in
    rw
      (
        n,
        effects-cons index (suc index + k) slot slots,
        close_slot-other index (suc index + k) slot (λ q. omega (arith, q)),
        later-none
            (effects (rows_of (close_slots (suc index) slots).1) (contact (pos (suc index + k)))),
      )
      (close_slots-placed (suc index) k slots v (omega arith) (omega arith) e)

-- Closing a frame keeps a slot placed exactly when the contact of its index is down: if that holds of a
-- state that keeps its invariant, it holds of the slot afterwards and of the state that the staged
-- rows lead to. The slot is one of at most 16.
pub close_slots-held :
    (slots : List Slot) (s : InputState) (i : ℕ)
    → IsValid s
    → i < 16
    → i < length slots
    → is_down (held s (contact (pos i))) ≡ (get_or slots i no_slot).placed
    → is_down (held (apply_all s (rows_of (close_slots 0 slots).1)) (contact (pos i)))
      ≡ (get_or (close_slots 0 slots).0 i no_slot).placed
close_slots-held slots s i v h l e =
    let z : 0 + i ≡ i = omega arith in
    ap is_down (held-apply_all s (rows_of (close_slots 0 slots).1) (contact (pos i)) v)
    ∙ (rw z at (close_slots-placed 0 i slots (held s (contact (pos i))) (omega arith) l e))
