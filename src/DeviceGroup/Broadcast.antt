-- ===== src/DeviceGroup/Broadcast.antt =====
-- What broadcast of src/device_group.cpp promises of its result: the invariant of its loop. The contract
-- itself stands in the child Contract.
pub mod Quiet
pub mod Contract
use aoahid_player.Aoahid.{Aoahid, AoahidResult, same_result}
use aoahid_player.Base.{
  no_clash, ◌≡◌, refl, sym, ap, subst, ◌∙◌, inl, inr, Bool-cases, ◌≤◌, ◌<◌, ℕ, zero, suc, ◌+◌, Bool,
  true, false, not, ◌&&◌, ◌||◌, Option, none, some, List, [], ◌∷◌, ◌++◌, length, get_elem?, set,
  map, ltb, if◌then◌else◌, arith, when_lem, match_option_lem,
}
use aoahid_player.Context.{explain_error}
use aoahid_player.Device.{Device, has, close, is_some}
use aoahid_player.DeviceGroup.Counts.{active_slots, active_slots-set, suc-active_slots-set}
use aoahid_player.DeviceGroup.Rows.{
  Tally, Mutation, take_result, broadcast_step, broadcast_loop, is_empty, no_tally, refused_max,
}
use aoahid_player.DeviceGroup.{
  Slot, DeviceGroup, Group, put_slot, fail, drop_slot, dropped_slot, failed_slot,
}
use aoahid_player.Event.{Profile}
use aoahid_player.Setup.{Mask}

module _ (lib : Aoahid) where
  -- Some active slot has a node for the profile.
  abbrev pub reaches : Profile → List (Slot lib) → Bool
  reaches p [] = false
  reaches p (s ∷ rest) = (s.active && has lib s.device p) || reaches p rest

  -- The rows that each slot has skipped.
  abbrev pub skips : List (Slot lib) → List ℕ
  skips slots = map (λ (s : Slot lib). s.skipped) slots

-- Dropping devices leaves what the rows are counted with.
pub record IsFramed (lib : Aoahid) (g h : Group lib) : Type 0 where
  pub dirty : h.0.dirty_mask ≡ g.0.dirty_mask
  pub rows : h.0.rejected_rows ≡ g.0.rejected_rows
  pub skipped_rows : skips lib (h.0.slots) ≡ skips lib (g.0.slots)
  pub fewer : active_slots lib (h.0.slots) ≤ active_slots lib (g.0.slots)

-- Between two rounds of the loop that began with the group `g`.
pub record IsGoing (lib : Aoahid) (p : Profile) (g : Group lib) (t : Tally) (h : Group lib)
    : Type 0 where
  pub framed : IsFramed lib g h
  pub lost :
      t.present ≡ true
      → t.applied ≡ false
      → is_empty t.refused ≡ true
      → active_slots lib (h.0.slots) < active_slots lib (g.0.slots)
  pub reached : t.present ≡ true → reaches lib p (g.0.slots) ≡ true
  pub unseen : t.present ≡ false → (h ≡ g) × (t.applied ≡ false) × (is_empty t.refused ≡ true)

-- After a round, or all of them.
pub record IsStepped (lib : Aoahid) (p : Profile) (g : Group lib) (r : Option Tally × Group lib)
    : Type 0 where
  pub going : (t : Tally) → r.0 ≡ some t → IsGoing lib p g t r.1
  pub stopped : r.0 ≡ none → IsFramed lib g r.1 × (reaches lib p (g.0.slots) ≡ true)

module _ (lib : Aoahid) where
  pub skips-set :
      (xs : List (Slot lib)) (i : ℕ) (s t : Slot lib)
      → get_elem? xs i ≡ some s
      → t.skipped ≡ s.skipped
      → skips lib (set xs i t) ≡ skips lib xs
  skips-set [] i s t h e = refl
  skips-set (x ∷ xs) zero s t h e =
      let same : x ≡ s = cc in
      ap (λ n. n ∷ skips lib xs) (e ∙ ap (λ (z : Slot lib). z.skipped) (sym same))
  skips-set (x ∷ xs) (suc i) s t h e = ap (λ ns. x.skipped ∷ ns) (skips-set xs i s t h e)

  pub reaches-get_elem? :
      (p : Profile) (xs : List (Slot lib)) (i : ℕ) (s : Slot lib)
      → get_elem? xs i ≡ some s
      → (s.active && has lib s.device p) ≡ true
      → reaches lib p xs ≡ true
  reaches-get_elem? p [] i s h e = absurd cc
  reaches-get_elem? p (x ∷ xs) zero s h e =
      let same : x ≡ s = cc in
      ap (λ (z : Slot lib). (z.active && has lib z.device p) || reaches lib p xs) same
      ∙ ap (λ b. b || reaches lib p xs) e
  reaches-get_elem? p (x ∷ xs) (suc i) s h e =
      or_true (x.active && has lib x.device p) (reaches lib p xs) (reaches-get_elem? p xs i s h e)
    where
      or_true : (a b : Bool) → b ≡ true → (a || b) ≡ true
      or_true true b e = refl
      or_true false b e = e

  -- An active slot fails.
  pub record IsDropped (g h : Group lib) : Type 0 where
    pub drop_framed : IsFramed lib g h
    pub drop_fewer : active_slots lib (h.0.slots) < active_slots lib (g.0.slots)

  pub fail-IsDropped :
      (windows : Bool) (i : ℕ) (s : Slot lib) (r : AoahidResult) (g : Group lib)
      → get_elem? (g.0.slots) i ≡ some s
      → s.active ≡ true
      → IsDropped g (fail lib windows i r g)
  unfolding fail drop_slot close
  fail-IsDropped windows i s r g h a =
      match_option_lem (IsDropped g) (get_elem? (g.0.slots) i) _ _
        (λ e. absurd (cc_none (sym e ∙ h)))
        (λ x e.
          when_lem (IsDropped g) x.active _ _
            (λ b.
              let less =
                suc-active_slots-set lib (g.0.slots) i x
                  (dropped_slot lib x (explain_error lib windows r g.1) (close lib x.device g.1).0)
                  e b refl in
              record {
                drop_framed = record {
                  dirty = refl;
                  rows = refl;
                  skipped_rows = skips-set (g.0.slots) i x _ e refl;
                  fewer = omega (arith, less);
                };
                drop_fewer = omega (arith, less);
              })
            (λ b.
              let same : x ≡ s = some_eq (sym e ∙ h) in
              absurd (clash (sym b ∙ ap (λ (z : Slot lib). z.active) same ∙ a))))
    where
      cc_none : {x : Slot lib} → ¬ (none ≡ some x)
      cc_none e = absurd cc

      some_eq : {x y : Slot lib} → some x ≡ some y → x ≡ y
      some_eq e = cc

      clash : ¬ (false ≡ true)
      clash e = absurd cc

  pub frame_chain : (g h k : Group lib) → IsFramed lib g h → IsFramed lib h k → IsFramed lib g k
  frame_chain g h k a b = record {
    dirty = b.dirty ∙ a.dirty;
    rows = b.rows ∙ a.rows;
    skipped_rows = b.skipped_rows ∙ a.skipped_rows;
    fewer = omega (arith, a.fewer, b.fewer);
  }

  going_on :
      (p : Profile) (g : Group lib) (t : Tally) (h : Group lib)
      → IsGoing lib p g t h
      → IsStepped lib p g (some t, h)
  going_on p g t h v = record {
    going = λ u e. let same : t ≡ u = cc in subst (λ x. IsGoing lib p g x h) same v;
    stopped = λ e. absurd cc;
  }

  -- A device has answered, and the row is taken, or a device has refused it or is lost.
  answered :
      (p : Profile) (g : Group lib) (t : Tally) (h : Group lib)
      → IsFramed lib g h
      → reaches lib p (g.0.slots) ≡ true
      → t.present ≡ true
      → (t.applied ≡ false
          → is_empty t.refused ≡ true
          → active_slots lib (h.0.slots) < active_slots lib (g.0.slots))
      → IsStepped lib p g (some t, h)
  answered p g t h f r e l = going_on p g t h (record {
    framed = f;
    lost = λ _. l;
    reached = λ _. r;
    unseen = λ n. absurd (no_clash (sym e ∙ n));
  })

  pub frame_world : (g h : Group lib) (w : lib.World) → IsFramed lib g h → IsFramed lib g (h.0, w)
  frame_world g h w f = record {
    dirty = f.dirty;
    rows = f.rows;
    skipped_rows = f.skipped_rows;
    fewer = f.fewer;
  }

  -- A refused device leaves the list with a member, also where the list is full.
  refused_some :
      (xs : List ℕ) (i : ℕ)
      → is_empty (if ltb (length xs) (refused_max lib) then xs ++ i ∷ [] else xs) ≡ false
  refused_some [] i = refl
  refused_some (x ∷ xs) i = both (ltb (length (x ∷ xs)) (refused_max lib))
    where
      both : (b : Bool) → is_empty (if b then (x ∷ xs) ++ i ∷ [] else x ∷ xs) ≡ false
      both true = refl
      both false = refl

  -- A round whose device answers with a result.
  take_result-IsStepped :
      (windows : Bool) (p : Profile) (g : Group lib) (i : ℕ) (s : Slot lib) (r : AoahidResult)
      (t : Tally) (h : Group lib)
      → get_elem? (h.0.slots) i ≡ some s
      → s.active ≡ true
      → reaches lib p (g.0.slots) ≡ true
      → IsFramed lib g h
      → IsStepped lib p g (take_result lib windows i r t h)
  unfolding take_result
  take_result-IsStepped windows p g i s r t h e a n v =
      when_lem (IsStepped lib p g) _ _ _ (λ k. answered p g _ h v n refl (λ x. absurd cc))
        (λ k.
          when_lem (IsStepped lib p g) _ _ _
            (λ b.
              when_lem (IsStepped lib p g) t.applied _ _
                (λ c. answered p g _ h v n refl (λ x. absurd (no_clash (sym c ∙ x))))
                (λ c. record { going = λ u q. absurd cc; stopped = λ q. (v, n) }))
            (λ b.
              when_lem (IsStepped lib p g) _ _ _
                (λ c.
                  answered p g _ h v n refl
                    (λ x y. absurd (no_clash (sym y ∙ refused_some t.refused i))))
                (λ c.
                  let d = fail-IsDropped windows i s r h e a in
                  answered p g _ _ (frame_chain g h _ v d.drop_framed) n refl
                    (λ x y. omega (arith, v.fewer, d.drop_fewer)))))

  broadcast_step-IsStepped :
      (windows : Bool) (p : Profile) (m : Mutation lib) (g : Group lib) (i : ℕ) (t : Tally)
      (h : Group lib)
      → IsGoing lib p g t h
      → IsStepped lib p g (broadcast_step lib windows p m i t h)
  unfolding broadcast_step
  broadcast_step-IsStepped windows p m g i t h v =
      match_option_lem (IsStepped lib p g) (get_elem? (h.0.slots) i) _ _ (λ e. going_on p g t h v)
        (λ s e.
          when_lem (IsStepped lib p g) s.active _ _
            (λ a.
              match_option_lem (IsStepped lib p g) (s.device.nodes p) _ _ (λ n. going_on p g t h v)
                (λ node n.
                  let done = m s node h.1 in
                  let here = reaches-get_elem? p (h.0.slots) i s e (both_true a (ap is_some n)) in
                  take_result-IsStepped windows p g i s done.0 t (h.0, done.1) e a (seen t h v here)
                    (frame_world g h done.1 v.framed)))
            (λ a. going_on p g t h v))
    where
      both_true : {a b : Bool} → a ≡ true → b ≡ true → (a && b) ≡ true
      both_true a b = ground arith

      -- The slot reaches the profile in the group that the loop began with.
      seen :
          (t : Tally) (h : Group lib)
          → IsGoing lib p g t h
          → reaches lib p (h.0.slots) ≡ true
          → reaches lib p (g.0.slots) ≡ true
      seen t h v r = elim (Bool-cases t.present) [
        | inl e ↦ v.reached e
        | inr e ↦ subst (λ (x : Group lib). reaches lib p (x.0.slots) ≡ true) (v.unseen e).0 r
      ]

  broadcast_loop-IsStepped :
      (windows : Bool) (p : Profile) (m : Mutation lib) (g : Group lib) (is : List ℕ) (t : Tally)
      (h : Group lib)
      → IsGoing lib p g t h
      → IsStepped lib p g (broadcast_loop lib windows p m is t h)
  unfolding broadcast_loop
  broadcast_loop-IsStepped windows p m g [] t h v = going_on p g t h v
  broadcast_loop-IsStepped windows p m g (i ∷ is) t h v =
      let stepped = broadcast_step lib windows p m i t h in
      let w = broadcast_step-IsStepped windows p m g i t h v in
      match_option_lem (IsStepped lib p g) stepped.0 _ _
        (λ e. record { going = λ u q. absurd cc; stopped = λ q. w.stopped e })
        (λ u e. broadcast_loop-IsStepped windows p m g is u stepped.1 (w.going u e))

  -- The whole loop.
  pub broadcast_loop_from :
      (windows : Bool) (p : Profile) (m : Mutation lib) (g : Group lib) (is : List ℕ)
      → IsStepped lib p g (broadcast_loop lib windows p m is no_tally g)
  broadcast_loop_from windows p m g is =
      broadcast_loop-IsStepped windows p m g is no_tally g (record {
        framed = record { dirty = refl; rows = refl; skipped_rows = refl; fewer = omega arith };
        lost = λ e. absurd cc;
        reached = λ e. absurd cc;
        unseen = λ e. (refl, refl, refl);
      })
