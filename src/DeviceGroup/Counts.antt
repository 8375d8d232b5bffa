-- ===== src/DeviceGroup/Counts.antt =====
-- The counters of a DeviceGroup (src/device_group.cpp) against its slots: the invariant, and what a write
-- of one slot does to it.
pub mod Kept
use aoahid_player.Aoahid.{Aoahid, AoahidResult}
use aoahid_player.Base.{
  ◌≡◌, refl, sym, ap, subst, ◌∙◌, inl, inr, Bool-cases, ℕ, zero, suc, ◌+◌, ◌-◌, Bool, true, false,
  ◌&&◌, ◌||◌, Option, none, some, List, [], ◌∷◌, ◌++◌, length, get_elem?, set, All, All-append,
  if◌then◌else◌, arith, when_lem, match_option_lem,
}
use aoahid_player.Device.Nodes.{IsMasked, close-IsMasked}
use aoahid_player.Device.{Device, has, close}
use aoahid_player.DeviceGroup.{
  Slot, DeviceGroup, Group, active_profiles, refresh_mask, put_slot, fail, drop_slot, failed_slot,
  dropped_slot, add_device, new_slot, set_surfaces,
}
use aoahid_player.Event.{Profile}
use aoahid_player.Setup.{ProfileSetup}
use aoahid_player.Text.{Bytes}

-- The published profiles of a slot are those of its device, which are those with a node.
pub record IsCurrent (lib : Aoahid) (s : Slot lib) : Type 0 where
  pub masked : IsMasked lib s.device
  pub shown : (p : Profile) → s.profiles p ≡ s.device.profile_mask p

abbrev count_of : Bool → ℕ
count_of b = if b then 1 else 0

module _ (lib : Aoahid) where
  abbrev pub active_slots : List (Slot lib) → ℕ
  active_slots [] = 0
  active_slots (s ∷ rest) = count_of s.active + active_slots rest

-- active_count() counts the active slots, profile_mask() joins their profiles, and every slot is current.
pub record IsCounted (lib : Aoahid) (g : DeviceGroup lib) : Type 0 where
  pub count : g.active_count ≡ active_slots lib g.slots
  pub mask : (p : Profile) → g.profile_mask p ≡ active_profiles lib g.slots p
  pub current : All (IsCurrent lib) g.slots

module _ {ℓ κ} {A : Type ℓ} (P : A → Type κ) where
  pub All-set : (xs : List A) (i : ℕ) (x : A) → All P xs → P x → All P (set xs i x)
  All-set [] i x h p = h
  All-set (y ∷ ys) zero x h p = (p, h.1)
  All-set (y ∷ ys) (suc i) x h p = (h.0, All-set ys i x h.1 p)

  pub All-get_elem? : (xs : List A) (i : ℕ) (x : A) → All P xs → get_elem? xs i ≡ some x → P x
  All-get_elem? [] i x h e = absurd cc
  All-get_elem? (y ∷ ys) zero x h e = let same : y ≡ x = cc in subst P same h.0
  All-get_elem? (y ∷ ys) (suc i) x h e = All-get_elem? ys i x h.1 e

module _ (lib : Aoahid) where
  -- Two slots that count the same.
  pub record IsAlike (s t : Slot lib) : Type 0 where
    pub same_active : t.active ≡ s.active
    pub same_profiles : (p : Profile) → t.profiles p ≡ s.profiles p

  pub active_slots-set :
      (xs : List (Slot lib)) (i : ℕ) (s t : Slot lib)
      → get_elem? xs i ≡ some s
      → t.active ≡ s.active
      → active_slots lib (set xs i t) ≡ active_slots lib xs
  active_slots-set [] i s t h e = refl
  active_slots-set (x ∷ xs) zero s t h e =
      let same : x ≡ s = cc in
      ap (λ (b : Bool). count_of b + active_slots lib xs)
        (e ∙ ap (λ (z : Slot lib). z.active) (sym same))
  active_slots-set (x ∷ xs) (suc i) s t h e =
      ap (λ n. count_of x.active + n) (active_slots-set xs i s t h e)

  pub suc-active_slots-set :
      (xs : List (Slot lib)) (i : ℕ) (s t : Slot lib)
      → get_elem? xs i ≡ some s
      → s.active ≡ true
      → t.active ≡ false
      → suc (active_slots lib (set xs i t)) ≡ active_slots lib xs
  suc-active_slots-set [] i s t h a e = absurd cc
  suc-active_slots-set (x ∷ xs) zero s t h a e =
      let same : x ≡ s = cc in
      let off : count_of t.active ≡ 0 = ap count_of e in
      let on : count_of x.active ≡ 1 =
        ap (λ (z : Slot lib). count_of z.active) same ∙ ap count_of a in
      omega (arith, off, on)
  suc-active_slots-set (x ∷ xs) (suc i) s t h a e =
      omega (arith, suc-active_slots-set xs i s t h a e)

  pub active_slots-drop :
      (xs : List (Slot lib)) (i : ℕ) (s t : Slot lib)
      → get_elem? xs i ≡ some s
      → s.active ≡ true
      → t.active ≡ false
      → active_slots lib (set xs i t) ≡ active_slots lib xs - 1
  active_slots-drop xs i s t h a e = omega (arith, suc-active_slots-set xs i s t h a e)

  pub active_slots-append :
      (xs ys : List (Slot lib))
      → active_slots lib (xs ++ ys) ≡ active_slots lib xs + active_slots lib ys
  active_slots-append [] ys = omega arith
  active_slots-append (x ∷ xs) ys = omega (arith, active_slots-append xs ys)

  pub active_profiles-set :
      (xs : List (Slot lib)) (i : ℕ) (s t : Slot lib) (p : Profile)
      → get_elem? xs i ≡ some s
      → IsAlike s t
      → active_profiles lib (set xs i t) p ≡ active_profiles lib xs p
  active_profiles-set [] i s t p h e = refl
  active_profiles-set (x ∷ xs) zero s t p h e =
      let same : x ≡ s = cc in
      ap (λ b. b || active_profiles lib xs p)
        (ap (λ b. b && t.profiles p) e.same_active
          ∙ ap (λ b. s.active && b) (e.same_profiles p)
          ∙ ap (λ (z : Slot lib). z.active && z.profiles p) (sym same))
  active_profiles-set (x ∷ xs) (suc i) s t p h e =
      ap (λ b. (x.active && x.profiles p) || b) (active_profiles-set xs i s t p h e)

  -- A slot is replaced by one that counts the same.
  pub put_slot-IsCounted :
      (g : DeviceGroup lib) (i : ℕ) (s t : Slot lib)
      → get_elem? g.slots i ≡ some s
      → IsAlike s t
      → IsCurrent lib t
      → IsCounted lib g
      → IsCounted lib (put_slot lib i t g)
  put_slot-IsCounted g i s t h e c v = record {
    count = v.count ∙ sym (active_slots-set g.slots i s t h e.same_active);
    mask = λ p. v.mask p ∙ sym (active_profiles-set g.slots i s t p h e);
    current = All-set (IsCurrent lib) g.slots i t v.current c;
  }

  -- A slot is replaced by one that is as active, and the mask is joined again.
  pub refresh_mask-IsCounted :
      (g : DeviceGroup lib) (i : ℕ) (s t : Slot lib)
      → get_elem? g.slots i ≡ some s
      → t.active ≡ s.active
      → IsCurrent lib t
      → IsCounted lib g
      → IsCounted lib (refresh_mask lib (put_slot lib i t g))
  refresh_mask-IsCounted g i s t h e c v = record {
    count = v.count ∙ sym (active_slots-set g.slots i s t h e);
    mask = λ p. refl;
    current = All-set (IsCurrent lib) g.slots i t v.current c;
  }

  -- The slot that stands at a place is current.
  pub slot-IsCurrent :
      (g : DeviceGroup lib) (i : ℕ) (s : Slot lib)
      → IsCounted lib g
      → get_elem? g.slots i ≡ some s
      → IsCurrent lib s
  slot-IsCurrent g i s v h = All-get_elem? (IsCurrent lib) g.slots i s v.current h

  pub drop_slot-IsCounted :
      (i : ℕ) (s : Slot lib) (r : AoahidResult) (detail : Bytes) (g : Group lib)
      → get_elem? (g.0.slots) i ≡ some s
      → s.active ≡ true
      → IsCounted lib g.0
      → IsCounted lib (drop_slot lib i s r detail g).0
  unfolding drop_slot close
  drop_slot-IsCounted i s r detail g h a v =
      let closed = close lib s.device g.1 in
      let t = dropped_slot lib s detail closed.0 in
      let c : IsCurrent lib t = record {
        masked = close-IsMasked lib s.device g.1;
        shown = λ p. refl;
      } in
      record {
        count = ap (λ n. n - 1) v.count ∙ sym (active_slots-drop (g.0.slots) i s t h a refl);
        mask = λ p. refl;
        current = All-set (IsCurrent lib) (g.0.slots) i t v.current c;
      }
