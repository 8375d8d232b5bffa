-- ===== src/DeviceGroup/Counts/Kept/Closing.antt =====
-- reconfigure of src/device_group.cpp writes a slot whose nodes have changed, and then drops it or
-- publishes it again: the invariant of the counters holds after both.
use aoahid_player.Aoahid.{Aoahid, AoahidResult}
use aoahid_player.Base.{
  ◌≡◌, refl, sym, ap, subst, ◌∙◌, ℕ, zero, suc, ◌-◌, Bool, true, false, none, some, List, [], ◌∷◌,
  All, get_elem?, set, when_lem, match_option_lem,
}
use aoahid_player.Device.Nodes.{close-IsMasked}
use aoahid_player.Device.{close}
use aoahid_player.DeviceGroup.Counts.Kept.{Counted}
use aoahid_player.DeviceGroup.Counts.{
  IsCounted, IsCurrent, All-set, active_slots, active_slots-set, active_slots-drop,
}
use aoahid_player.DeviceGroup.{
  Slot, DeviceGroup, put_slot, refresh_mask, fail, drop_slot, dropped_slot,
}
use aoahid_player.Text.{Bytes}

module _ {ℓ} {A : Type ℓ} where
  set-set : (xs : List A) (i : ℕ) (x y : A) → set (set xs i x) i y ≡ set xs i y
  set-set [] i x y = refl
  set-set (z ∷ xs) zero x y = refl
  set-set (z ∷ xs) (suc i) x y = ap (λ ys. z ∷ ys) (set-set xs i x y)

  get_elem?-set_self :
      (xs : List A) (i : ℕ) (s t x : A)
      → get_elem? xs i ≡ some s
      → get_elem? (set xs i t) i ≡ some x
      → t ≡ x
  get_elem?-set_self [] i s t x h e = absurd cc
  get_elem?-set_self (z ∷ xs) zero s t x h e = cc
  get_elem?-set_self (z ∷ xs) (suc i) s t x h e = get_elem?-set_self xs i s t x h e

module _ (lib : Aoahid) (windows : Bool) where
  -- A slot is written twice, the second time with one that is current, and the mask is joined.
  pub refresh_mask-put_slot-IsCounted :
      (g : DeviceGroup lib) (i : ℕ) (s c t : Slot lib)
      → get_elem? g.slots i ≡ some s
      → t.active ≡ s.active
      → IsCurrent lib t
      → IsCounted lib g
      → IsCounted lib (refresh_mask lib (put_slot lib i t (put_slot lib i c g)))
  refresh_mask-put_slot-IsCounted g i s c t h e k v =
      let twice = set-set g.slots i c t in
      record {
        count =
            v.count
            ∙ sym (active_slots-set lib g.slots i s t h e)
            ∙ ap (active_slots lib) (sym twice);
        mask = λ p. refl;
        current =
            subst (All (IsCurrent lib)) (sym twice)
              (All-set (IsCurrent lib) g.slots i t v.current k);
      }

  drop_slot-put_slot :
      (g : DeviceGroup lib) (w : lib.World) (i : ℕ) (s c x : Slot lib) (r : AoahidResult)
      (detail : Bytes)
      → get_elem? g.slots i ≡ some s
      → s.active ≡ true
      → IsCounted lib g
      → IsCounted lib (drop_slot lib i x r detail (put_slot lib i c g, w)).0
  unfolding drop_slot close
  drop_slot-put_slot g w i s c x r detail h a v =
      let t = dropped_slot lib x detail (close lib x.device w).0 in
      let twice = set-set g.slots i c t in
      let k : IsCurrent lib t = record {
        masked = close-IsMasked lib x.device w;
        shown = λ p. refl;
      } in
      record {
        count =
            ap (λ n. n - 1) v.count
            ∙ sym (active_slots-drop lib g.slots i s t h a refl)
            ∙ ap (active_slots lib) (sym twice);
        mask = λ p. refl;
        current =
            subst (All (IsCurrent lib)) (sym twice)
              (All-set (IsCurrent lib) g.slots i t v.current k);
      }

  -- An active slot is written with one that need not be current, and fails.
  pub fail-put_slot-Counted :
      (g : DeviceGroup lib) (w : lib.World) (i : ℕ) (s c : Slot lib) (r : AoahidResult)
      → get_elem? g.slots i ≡ some s
      → s.active ≡ true
      → c.active ≡ true
      → IsCounted lib g
      → Counted lib (fail lib windows i r (put_slot lib i c g, w))
  unfolding fail
  fail-put_slot-Counted g w i s c r h a b v =
      match_option_lem (Counted lib) (get_elem? (set g.slots i c) i) _ _
        (λ e. absurd (is_there g.slots i s c h e))
        (λ x e.
          when_lem (Counted lib) x.active _ _
            (λ t. record { counted = drop_slot-put_slot g w i s c x r _ h a v })
            (λ f.
              let same = get_elem?-set_self g.slots i s c x h e in
              absurd (clash (sym b ∙ ap (λ (z : Slot lib). z.active) same ∙ f))))
    where
      is_there :
          (xs : List (Slot lib)) (i : ℕ) (s c : Slot lib)
          → get_elem? xs i ≡ some s
          → ¬ (get_elem? (set xs i c) i ≡ none)
      is_there [] i s c h e = absurd cc
      is_there (x ∷ xs) zero s c h e = absurd cc
      is_there (x ∷ xs) (suc i) s c h e = is_there xs i s c h e

      clash : ¬ (true ≡ false)
      clash e = absurd cc
