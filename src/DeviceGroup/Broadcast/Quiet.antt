-- ===== src/DeviceGroup/Broadcast/Quiet.antt =====
-- broadcast's loop in src/device_group.cpp ends with no device present only where none was asked.
use aoahid_player.Aoahid.{Aoahid, AoahidResult}
use aoahid_player.Base.{
  no_clash, ◌≡◌, refl, sym, ap, subst, ◌∙◌, ℕ, suc, ◌+◌, Bool, true, false, ◌&&◌, ◌||◌, Option,
  none, some, List, [], ◌∷◌, length, get_elem?, All, arith, when_lem, match_option_lem,
}
use aoahid_player.Device.{has, is_some}
use aoahid_player.DeviceGroup.Broadcast.{reaches}
use aoahid_player.DeviceGroup.Rows.{Tally, Mutation, take_result, broadcast_step, broadcast_loop}
use aoahid_player.DeviceGroup.{Slot, Group, places}
use aoahid_player.Event.{Profile}

module _ (lib : Aoahid) (p : Profile) where
  -- The slot at a place is active and has a node.
  abbrev reach_slot : Option (Slot lib) → Bool
  reach_slot none = false
  reach_slot (some s) = s.active && has lib s.device p

  -- A round that ends with no device present has asked none.
  record IsQuietStep (t : Tally) (g : Group lib) (i : ℕ) (r : Option Tally × Group lib)
      : Type 0 where
    quiet :
        (u : Tally)
        → r.0 ≡ some u
        → u.present ≡ false
        → (t.present ≡ false) × (r.1 ≡ g) × (reach_slot (get_elem? (g.0.slots) i) ≡ false)

  record IsQuiet (t : Tally) (g : Group lib) (is : List ℕ) (r : Option Tally × Group lib)
      : Type 0 where
    all_quiet :
        (u : Tally)
        → r.0 ≡ some u
        → u.present ≡ false
        → (t.present ≡ false) × All (λ i. reach_slot (get_elem? (g.0.slots) i) ≡ false) is

  skipped :
      (t : Tally) (g : Group lib) (i : ℕ)
      → reach_slot (get_elem? (g.0.slots) i) ≡ false
      → IsQuietStep t g i (some t, g)
  skipped t g i n = record {
    quiet = λ u e f. let same : t ≡ u = cc in (ap (λ (x : Tally). x.present) same ∙ f, refl, n);
  }

  -- An answer makes a device present.
  asked : (t u : Tally) (g h : Group lib) (i : ℕ) → u.present ≡ true → IsQuietStep t g i (some u, h)
  asked t u g h i e = record {
    quiet = λ x q f.
        let same : u ≡ x = cc in absurd (no_clash (sym e ∙ ap (λ (y : Tally). y.present) same ∙ f));
  }

  take_result-IsQuietStep :
      (windows : Bool) (i : ℕ) (r : AoahidResult) (t : Tally) (g h : Group lib)
      → IsQuietStep t g i (take_result lib windows i r t h)
  unfolding take_result
  take_result-IsQuietStep windows i r t g h =
      when_lem (IsQuietStep t g i) _ _ _ (λ k. asked t _ g _ i refl)
        (λ k.
          when_lem (IsQuietStep t g i) _ _ _
            (λ b.
              when_lem (IsQuietStep t g i) _ _ _ (λ c. asked t _ g _ i refl)
                (λ c. record { quiet = λ u e. absurd cc }))
            (λ b.
              when_lem (IsQuietStep t g i) _ _ _ (λ c. asked t _ g _ i refl)
                (λ c. asked t _ g _ i refl)))

  broadcast_step-IsQuietStep :
      (windows : Bool) (m : Mutation lib) (i : ℕ) (t : Tally) (g : Group lib)
      → IsQuietStep t g i (broadcast_step lib windows p m i t g)
  unfolding broadcast_step
  broadcast_step-IsQuietStep windows m i t g =
      match_option_lem (IsQuietStep t g i) (get_elem? (g.0.slots) i) _ _
        (λ e. skipped t g i (ap reach_slot e))
        (λ s e.
          when_lem (IsQuietStep t g i) s.active _ _
            (λ a.
              match_option_lem (IsQuietStep t g i) (s.device.nodes p) _ _
                (λ n. skipped t g i (ap reach_slot e ∙ and_false s.active (ap is_some n)))
                (λ node n. take_result-IsQuietStep windows i _ t g _))
            (λ a. skipped t g i (ap reach_slot e ∙ ap (λ b. b && has lib s.device p) a)))
    where
      and_false : {b : Bool} (a : Bool) → b ≡ false → (a && b) ≡ false
      and_false a e = ground arith

  broadcast_loop-IsQuiet :
      (windows : Bool) (m : Mutation lib) (is : List ℕ) (t : Tally) (g : Group lib)
      → IsQuiet t g is (broadcast_loop lib windows p m is t g)
  unfolding broadcast_loop
  broadcast_loop-IsQuiet windows m [] t g = record {
    all_quiet = λ u e f. let same : t ≡ u = cc in (ap (λ (x : Tally). x.present) same ∙ f, _);
  }
  broadcast_loop-IsQuiet windows m (i ∷ is) t g =
      let stepped = broadcast_step lib windows p m i t g in
      match_option_lem (IsQuiet t g (i ∷ is)) stepped.0 _ _
        (λ e. record { all_quiet = λ u q. absurd cc })
        (λ v e. record {
          all_quiet = λ u q f.
              let rest = (broadcast_loop-IsQuiet windows m is v stepped.1).all_quiet u q f in
              let here = (broadcast_step-IsQuietStep windows m i t g).quiet v e rest.0 in
              let rest_quiet =
                subst
                  (λ (x : Group lib). All (λ j. reach_slot (get_elem? (x.0.slots) j) ≡ false) is)
                  here.1 rest.1 in
              (here.0, (here.2, rest_quiet));
        })

  -- No place is reached, so the group does not reach the profile.
  no_place :
      (slots : List (Slot lib)) (k : ℕ) (f : ℕ → Bool)
      → ((j : ℕ) → f (j + k) ≡ reach_slot (get_elem? slots j))
      → All (λ i. f i ≡ false) (places k (length slots))
      → reaches lib p slots ≡ false
  no_place [] k f e h = refl
  no_place (s ∷ rest) k f e h =
      let first : (s.active && has lib s.device p) ≡ false = sym (e 0) ∙ ap f (omega arith) ∙ h.0 in
      let others = no_place rest (suc k) f (λ j. ap f (omega arith) ∙ e (suc j)) h.1 in
      ap (λ b. b || reaches lib p rest) first ∙ others

  -- The loop over all places ended with no device present.
  pub unreached :
      (windows : Bool) (m : Mutation lib) (t u : Tally) (g : Group lib)
      → (broadcast_loop lib windows p m (places 0 (length (g.0.slots))) t g).0 ≡ some u
      → u.present ≡ false
      → reaches lib p (g.0.slots) ≡ false
  unreached windows m t u g e f =
      let places_quiet = ((broadcast_loop-IsQuiet windows m _ t g).all_quiet u e f).1 in
      no_place (g.0.slots) 0 (λ i. reach_slot (get_elem? (g.0.slots) i))
        (λ j. ap (λ i. reach_slot (get_elem? (g.0.slots) i)) (omega arith)) places_quiet
