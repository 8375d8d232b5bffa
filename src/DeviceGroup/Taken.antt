-- ===== src/DeviceGroup/Taken.antt =====
-- A row that no device of src/device_group.cpp refuses or fails, and a flush that none fails: the devices and
-- their nodes stay.
use aoahid_player.Aoahid.{Aoahid, AoahidResult, ok, err_unsupported, same_ok}
use aoahid_player.Base.{
  ◌≡◌, refl, sym, ap, ◌∙◌, ◌⊎◌, inl, inr, Bool-cases, ℕ, ◌+◌, Bool, true, false, ◌&&◌, ◌||◌, Option,
  none, some, List, [], ◌∷◌, ◌==◌, length, get_elem?, map, arith, when_lem, match_option_lem,
  no_clash,
}
use aoahid_player.Device.{has}
use aoahid_player.DeviceGroup.Broadcast.{reaches}
use aoahid_player.DeviceGroup.Counts.{active_slots}
use aoahid_player.DeviceGroup.Flush.{flush, is_dirty}
use aoahid_player.DeviceGroup.Flushed.Reports.Total.{flush_reports}
use aoahid_player.DeviceGroup.Flushed.Reports.{SendsAll, reported}
use aoahid_player.DeviceGroup.Rows.{
  Tally, Mutation, take_result, broadcast_step, broadcast_loop, close_tally, broadcast,
  bump_skipped, note_rejection, is_empty, no_tally,
}
use aoahid_player.DeviceGroup.{Slot, DeviceGroup, Group, places}
use aoahid_player.Event.{Profile}
use aoahid_player.Setup.{Mask}

module _ (lib : Aoahid) (windows : Bool) where
  no_none : {A : Type 0} {x : A} → none ≡ some x → ⊥
  no_none e = absurd cc

  some_eq : {A : Type 0} {x y : A} → some x ≡ some y → x ≡ y
  some_eq e = cc

  -- A round that no device refuses or fails leaves the devices as they were.
  record IsFine (g : DeviceGroup lib) (r : Option Tally × Group lib) : Type 0 where
    tally : Tally
    goes : r.0 ≡ some tally
    none_refused : tally.refused ≡ []
    same : r.1.0 ≡ g

  take_result-IsFine :
      (i : ℕ) (result : AoahidResult) (t : Tally) (g : Group lib)
      → result ≡ ok
      → t.refused ≡ []
      → IsFine (g.0) (take_result lib windows i result t g)
  unfolding take_result
  take_result-IsFine i result t g e f =
      when_lem (IsFine (g.0)) _ _ _
        (λ a. record {
          tally = record t { present = true; applied = true };
          goes = refl;
          none_refused = f;
          same = refl;
        })
        (λ a. absurd (no_clash (sym (same_ok e) ∙ a)))

  module _ (p : Profile) (change : Mutation lib)
      (fine : (s : Slot lib) (n : lib.Node) (w : lib.World) → (change s n w).0 ≡ ok) where
    broadcast_step-IsFine :
        (i : ℕ) (t : Tally) (g : Group lib)
        → t.refused ≡ []
        → IsFine (g.0) (broadcast_step lib windows p change i t g)
    unfolding broadcast_step
    broadcast_step-IsFine i t g f =
        let P = IsFine (g.0) in
        let skip : P (some t, g) = record {
          tally = t;
          goes = refl;
          none_refused = f;
          same = refl;
        } in
        match_option_lem P (get_elem? (g.0.slots) i) _ _ (λ e. skip)
          (λ s e.
            when_lem P s.active _ _
              (λ a.
                match_option_lem P (s.device.nodes p) _ _ (λ n. skip)
                  (λ n h. take_result-IsFine i _ t (g.0, (change s n g.1).1) (fine s n g.1) f))
              (λ a. skip))

    broadcast_loop-IsFine :
        (is : List ℕ) (t : Tally) (g : Group lib)
        → t.refused ≡ []
        → IsFine (g.0) (broadcast_loop lib windows p change is t g)
    unfolding broadcast_loop
    broadcast_loop-IsFine [] t g f = record {
      tally = t;
      goes = refl;
      none_refused = f;
      same = refl;
    }
    broadcast_loop-IsFine (i ∷ is) t g f =
        let step = broadcast_step-IsFine i t g f in
        let stepped = broadcast_step lib windows p change i t g in
        match_option_lem (IsFine (g.0)) stepped.0 _ _ (λ e. absurd (no_none (sym e ∙ step.goes)))
          (λ u e.
            let unrefused =
              ap (λ (x : Tally). x.refused) (some_eq (sym e ∙ step.goes)) ∙ step.none_refused in
            let rest = broadcast_loop-IsFine is u stepped.1 unrefused in
            record {
              tally = rest.tally;
              goes = rest.goes;
              none_refused = rest.none_refused;
              same = rest.same ∙ step.same;
            })

  -- The slots are as before, and no device is busy or refuses.
  pub record IsFineEnd (g : DeviceGroup lib) (r : AoahidResult × Group lib) : Type 0 where
    pub same_slots : r.1.0.slots ≡ g.slots
    pub answered : (r.0 ≡ ok) ⊎ (r.0 ≡ err_unsupported)

  close_tally-IsFineEnd :
      (p : Profile) (t : Tally) (g : Group lib)
      → t.refused ≡ []
      → IsFineEnd (g.0) (close_tally lib windows p t g)
  unfolding close_tally note_rejection bump_skipped
  close_tally-IsFineEnd p t g f =
      let P = IsFineEnd (g.0) in
      let noted =
        ap
          (λ (xs : List ℕ).
            (note_rejection lib windows xs t.refusal (bump_skipped lib xs (g.0)) g.1).slots)
          f in
      when_lem P t.applied _ _ (λ a. record { same_slots = noted; answered = inl refl })
        (λ a.
          when_lem P _ _ _ (λ b. record { same_slots = noted; answered = inr refl })
            (λ b.
              when_lem P _ _ _ (λ c. record { same_slots = noted; answered = inl refl })
                (λ c. absurd (no_clash (sym (ap is_empty f) ∙ c)))))

  pub broadcast-IsFineEnd :
      (p : Profile) (change : Mutation lib)
      → ((s : Slot lib) (n : lib.Node) (w : lib.World) → (change s n w).0 ≡ ok)
      → (g : Group lib) → IsFineEnd (g.0) (broadcast lib windows p change g)
  unfolding broadcast
  broadcast-IsFineEnd p change fine g =
      let all = places 0 (length (g.0.slots)) in
      let loop = broadcast_loop-IsFine p change fine all no_tally g refl in
      match_option_lem (IsFineEnd (g.0)) _ _ _ (λ e. absurd (no_none (sym e ∙ loop.goes)))
        (λ t e.
          let unrefused =
            ap (λ (x : Tally). x.refused) (some_eq (sym e ∙ loop.goes)) ∙ loop.none_refused in
          let end = close_tally-IsFineEnd p t _ unrefused in
          record {
            same_slots = end.same_slots ∙ ap (λ (d : DeviceGroup lib). d.slots) loop.same;
            answered = end.answered;
          })

  reported_same :
      (m : Mask) (s : Slot lib) (p : Profile)
      → ((reported lib m s).active && has lib (reported lib m s).device p)
        ≡ (s.active && has lib s.device p)
  reported_same m s p = ground arith

  reaches-reported :
      (m : Mask) (p : Profile) (xs : List (Slot lib))
      → reaches lib p (map (reported lib m) xs) ≡ reaches lib p xs
  reaches-reported m p [] = refl
  reaches-reported m p (s ∷ xs) =
      ap (λ b. b || reaches lib p (map (reported lib m) xs)) (reported_same m s p)
      ∙ ap (λ b. (s.active && has lib s.device p) || b) (reaches-reported m p xs)

  -- A flush of nothing.
  record IsIdle (g : Group lib) (r : Bool × Group lib) : Type 0 where
    idle_slots : r.1.0.slots ≡ g.0.slots

  flush-IsIdle :
      (g : Group lib) → is_dirty (g.0.dirty_mask) ≡ false → IsIdle g (flush lib windows g)
  unfolding flush
  flush-IsIdle g e =
      when_lem (IsIdle g) _ _ _ (λ a. absurd (no_clash (sym a ∙ e)))
        (λ a. record { idle_slots = refl })

  pub reaches-flush :
      SendsAll lib
      → (g : Group lib) (p : Profile)
      → reaches lib p ((flush lib windows g).1.0.slots) ≡ reaches lib p (g.0.slots)
  reaches-flush sends g p = elim (Bool-cases (is_dirty (g.0.dirty_mask))) [
    | inl e ↦
        ap (reaches lib p) (flush_reports lib windows g sends e)
        ∙ reaches-reported (g.0.dirty_mask) p (g.0.slots)
    | inr e ↦ ap (reaches lib p) (flush-IsIdle g e).idle_slots
  ]

  pub active_somewhere :
      (p : Profile) (xs : List (Slot lib))
      → reaches lib p xs ≡ true
      → (active_slots lib xs == 0) ≡ false
  active_somewhere p [] e = absurd cc
  active_somewhere p (s ∷ xs) e = elim (Bool-cases s.active) [
    | inl a ↦ rw a (one_more (active_slots lib xs))
    | inr a ↦
        let there = sym (ap (λ b. (b && has lib s.device p) || reaches lib p xs) a) ∙ e in
        rw a (none_more (active_slots lib xs) (active_somewhere p xs there))
  ]
    where
      one_more : (n : ℕ) → (1 + n == 0) ≡ false
      one_more n = ground arith

      none_more : (n : ℕ) → (n == 0) ≡ false → (0 + n == 0) ≡ false
      none_more n e = ground arith
