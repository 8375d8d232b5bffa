-- ===== src/DeviceGroup/Flushed/Reports/Total.antt =====
-- A flush of src/device_group.cpp that no device fails: which devices it counts a report for.
use aoahid_player.Aoahid.{Aoahid, AoahidResult, ok, same_result}
use aoahid_player.Base.{
  no_clash, ◌≡◌, refl, sym, ap, ◌∙◌, ℕ, zero, suc, ◌+◌, Bool, true, false, ◌&&◌, none, some, List,
  [], ◌∷◌, ◌++◌, length, get_elem?, set, map, if◌then◌else◌, arith, when_lem, match_option_lem,
}
use aoahid_player.Context.{send_ms}
use aoahid_player.DeviceGroup.Flush.{
  each_slot, submit_slot, drain_slot, flush, is_dirty, drain_deadline_ms,
}
use aoahid_player.DeviceGroup.Flushed.Reports.{SendsAll, has_any, reported, node_loop-IsSent, ok_ok}
use aoahid_player.DeviceGroup.{Slot, Group, places}
use aoahid_player.Setup.{Mask, no_profiles, all_profiles}

module _ (lib : Aoahid) (windows : Bool) (m : Mask) where
  -- The slots of a group are these.
  record HasSlots (slots : List (Slot lib)) (g : Group lib) : Type 0 where
    slots_are : g.0.slots ≡ slots

  refused : {x : AoahidResult} → x ≡ ok → ¬ (same_result x ok ≡ false)
  refused e f = no_clash (sym (ap (λ y. same_result y ok) e ∙ ok_ok lib) ∙ f)

  submit_slot-HasSlots :
      SendsAll lib → (i : ℕ) (g : Group lib) → HasSlots (g.0.slots) (submit_slot lib windows m i g)
  unfolding submit_slot
  submit_slot-HasSlots k i g =
      let slots = g.0.slots in
      match_option_lem (HasSlots slots) (get_elem? slots i) _ _ (λ e. record { slots_are = refl })
        (λ s e.
          when_lem (HasSlots slots) s.active _ _
            (λ a.
              when_lem (HasSlots slots) _ _ _ (λ o. record { slots_are = refl })
                (λ o. absurd (
                  refused
                    (node_loop-IsSent lib (λ node. lib.node_submit node send_ms)
                      (λ n w. k.submits n _ w) s.device m all_profiles false g.1).no_failure
                    o)))
            (λ a. record { slots_are = refl }))

  submits-HasSlots :
      SendsAll lib
      → (is : List ℕ) (g : Group lib)
      → HasSlots (g.0.slots) (each_slot lib (submit_slot lib windows m) is g)
  unfolding each_slot
  submits-HasSlots k [] g = record { slots_are = refl }
  submits-HasSlots k (i ∷ is) g = record {
    slots_are =
        (submits-HasSlots k is (submit_slot lib windows m i g)).slots_are
        ∙ (submit_slot-HasSlots k i g).slots_are;
  }

  set_same :
      (xs : List (Slot lib)) (i : ℕ) (s : Slot lib) → get_elem? xs i ≡ some s → xs ≡ set xs i s
  set_same [] i s e = refl
  set_same (x ∷ xs) zero s e = ap (λ (y : Slot lib). y ∷ xs) cc
  set_same (x ∷ xs) (suc i) s e = ap (λ ys. x ∷ ys) (set_same xs i s e)

  if_true : {A : Type 0} (x y : A) {b : Bool} → b ≡ true → (if b then x else y) ≡ x
  if_true x y e = ap (λ c. if c then x else y) e

  if_false : {A : Type 0} (x y : A) {b : Bool} → b ≡ false → (if b then x else y) ≡ y
  if_false x y e = ap (λ c. if c then x else y) e

  both : {a b c : Bool} → a ≡ true → b ≡ c → (a && b) ≡ c
  both e f = ground arith

  moved :
      (slots : List (Slot lib)) (i : ℕ) (x s : Slot lib) (h : Group lib)
      → x ≡ s
      → HasSlots (set slots i (reported lib m x)) h
      → HasSlots (set slots i (reported lib m s)) h
  moved slots i x s h e v = record {
    slots_are = v.slots_are ∙ ap (λ (y : Slot lib). set slots i (reported lib m y)) e;
  }

  drain_slot-HasSlots :
      SendsAll lib
      → (i : ℕ) (g : Group lib) (s : Slot lib) → get_elem? (g.0.slots) i ≡ some s
      → HasSlots (set (g.0.slots) i (reported lib m s)) (drain_slot lib windows m i g)
  unfolding drain_slot
  drain_slot-HasSlots k i g s h =
      let slots = g.0.slots in
      match_option_lem (HasSlots (set slots i (reported lib m s))) (get_elem? slots i) _ _
        (λ e. absurd (none_some (sym e ∙ h)))
        (λ x e.
          let P = HasSlots (set slots i (reported lib m x)) in
          let sent =
            node_loop-IsSent lib (λ node. lib.node_submit_blocking node drain_deadline_ms)
              (λ n w. k.drains n _ w) x.device m all_profiles false g.1 in
          let more : Slot lib = record x { reports = x.reports + 1 } in
          moved slots i x s _ (some_eq (sym e ∙ h)) (
            when_lem P x.active _ _
              (λ a.
                when_lem P _ _ _
                  (λ o.
                    when_lem P _ _ _
                      (λ t. record {
                        slots_are =
                            ap (set slots i)
                              (sym (if_true more x (both a (sym sent.was_sent ∙ t))));
                      })
                      (λ t. record {
                        slots_are =
                            set_same slots i x e
                            ∙ ap (set slots i)
                                (sym (if_false more x (both a (sym sent.was_sent ∙ t))));
                      }))
                  (λ o. absurd (refused sent.no_failure o)))
              (λ a. record {
                slots_are =
                    set_same slots i x e
                    ∙ ap (set slots i) (
                        sym
                          (if_false more x (ap (λ b. b && has_any lib x.device m all_profiles) a)));
              })))
    where
      none_some : {x : Slot lib} → ¬ (none ≡ some x)
      none_some e = absurd cc

      some_eq : {x y : Slot lib} → some x ≡ some y → x ≡ y
      some_eq e = cc

  get_elem?-append :
      (front rest : List (Slot lib)) (s : Slot lib)
      → get_elem? (front ++ s ∷ rest) (length front) ≡ some s
  get_elem?-append [] rest s = refl
  get_elem?-append (x ∷ front) rest s = get_elem?-append front rest s

  set-append :
      (front rest : List (Slot lib)) (s t : Slot lib)
      → set (front ++ s ∷ rest) (length front) t ≡ (front ++ t ∷ []) ++ rest
  set-append [] rest s t = refl
  set-append (x ∷ front) rest s t = ap (λ xs. x ∷ xs) (set-append front rest s t)

  append_again :
      (front rest : List (Slot lib)) (t : Slot lib) → (front ++ t ∷ []) ++ rest ≡ front ++ t ∷ rest
  append_again [] rest t = refl
  append_again (x ∷ front) rest t = ap (λ xs. x ∷ xs) (append_again front rest t)

  length_more :
      (front : List (Slot lib)) (t : Slot lib) → length (front ++ t ∷ []) ≡ suc (length front)
  length_more [] t = refl
  length_more (x ∷ front) t = ap suc (length_more front t)

  -- The second loop, from the place where the slots that it has not seen yet begin.
  drains-HasSlots :
      SendsAll lib
      → (front rest : List (Slot lib)) (g : Group lib) → g.0.slots ≡ front ++ rest
      → HasSlots
          (front ++ map (reported lib m) rest)
          (each_slot lib (drain_slot lib windows m) (places (length front) (length rest)) g)
  unfolding each_slot
  drains-HasSlots k front [] g e = record { slots_are = e }
  drains-HasSlots k front (s ∷ rest) g e =
      let t = reported lib m s in
      let here = ap (λ xs. get_elem? xs (length front)) e ∙ get_elem?-append front rest s in
      let drained = drain_slot lib windows m (length front) g in
      let done =
        (drain_slot-HasSlots k (length front) g s here).slots_are
        ∙ ap (λ xs. set xs (length front) t) e
        ∙ set-append front rest s t in
      let next = drains-HasSlots k (front ++ t ∷ []) rest drained done in
      record {
        slots_are =
            ap
              (λ n.
                (each_slot lib (drain_slot lib windows m) (places n (length rest)) drained).0.slots)
              (sym (length_more front t))
            ∙ next.slots_are
            ∙ append_again front (map (reported lib m) rest) t;
      }

  -- The slots of a result of flush.
  record FlushesTo (slots : List (Slot lib)) (r : Bool × Group lib) : Type 0 where
    flushes_to : r.1.0.slots ≡ slots

module _ (lib : Aoahid) (windows : Bool) where
  -- Where libaoahid sends every report, a flush of dirty profiles counts one more report for each active
  -- device that has a node for one of them, and changes nothing else of any slot.
  pub flush_reports :
      (g : Group lib)
      → SendsAll lib
      → is_dirty (g.0.dirty_mask) ≡ true
      → (flush lib windows g).1.0.slots ≡ map (reported lib (g.0.dirty_mask)) (g.0.slots)
  unfolding flush
  flush_reports g k d =
      let m = g.0.dirty_mask in
      let all = places 0 (length (g.0.slots)) in
      let taken : Group lib = (record (g.0) { dirty_mask = no_profiles }, g.1) in
      let submitted = each_slot lib (submit_slot lib windows m) all taken in
      let same = (submits-HasSlots lib windows m k all taken).slots_are in
      let drained = drains-HasSlots lib windows m k [] (g.0.slots) submitted same in
      (when_lem (FlushesTo lib windows m (map (reported lib m) (g.0.slots))) _ _ _
        (λ e. record { flushes_to = drained.slots_are })
        (λ e. absurd (no_clash (sym d ∙ e)))).flushes_to
