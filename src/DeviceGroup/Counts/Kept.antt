-- ===== src/DeviceGroup/Counts/Kept.antt =====
-- The operations of a DeviceGroup (src/device_group.cpp) keep the invariant of its counters, each on its
-- own and in every sequence.
pub mod Send
mod Rest
mod Closing
mod Opened
pub mod Runs
use aoahid_player.Aoahid.{Aoahid, AoahidResult, ok, same_result, err_busy}
use aoahid_player.Base.{
  ◌≡◌, refl, sym, ap, subst, ◌∙◌, ℕ, suc, ◌+◌, Bool, true, false, not, ◌&&◌, ◌||◌, Option, none,
  some, List, [], ◌∷◌, length, get_elem?, when_lem, match_option_lem,
}
use aoahid_player.Device.Nodes.{IsMasked}
use aoahid_player.Device.{Device}
use aoahid_player.DeviceGroup.Counts.{
  IsCounted, IsCurrent, IsAlike, put_slot-IsCounted, slot-IsCurrent, drop_slot-IsCounted,
}
use aoahid_player.DeviceGroup.Flush.{each_slot}
use aoahid_player.DeviceGroup.Rows.{
  Tally, Mutation, take_result, broadcast_step, broadcast_loop, bump_skipped, note_rejection,
  close_tally, broadcast, no_tally,
}
use aoahid_player.DeviceGroup.{
  Slot, DeviceGroup, Group, put_slot, fail, drop_slot, failed_slot, places,
}
use aoahid_player.Event.{Profile}

-- A group, and the group of a result, keep the invariant.
pub record Counted (lib : Aoahid) (g : Group lib) : Type 0 where
  pub counted : IsCounted lib g.0

pub record CountedResult (lib : Aoahid) {A : Type 0} (r : A × Group lib) : Type 0 where
  pub result_counted : IsCounted lib (r.1.0)

module _ (lib : Aoahid) (windows : Bool) where
  pub fail-Counted :
      (i : ℕ) (r : AoahidResult) (g : Group lib)
      → IsCounted lib g.0
      → Counted lib (fail lib windows i r g)
  unfolding fail
  fail-Counted i r g v =
      match_option_lem (Counted lib) (get_elem? (g.0.slots) i) _ _ (λ e. record { counted = v })
        (λ s h.
          when_lem (Counted lib) s.active _ _
            (λ a. record { counted = drop_slot-IsCounted lib i s r _ g h a v })
            (λ a.
              let c = slot-IsCurrent lib g.0 i s v h in
              record {
                counted =
                    put_slot-IsCounted lib g.0 i s _ h
                      (record { same_active = sym a; same_profiles = λ p. refl })
                      (record { masked = c.masked; shown = c.shown }) v;
              }))

  -- A write that leaves the device, the activity and the profiles of a slot.
  pub put-Counted :
      (g : DeviceGroup lib) (w : lib.World) (i : ℕ) (s t : Slot lib)
      → get_elem? g.slots i ≡ some s
      → t.active ≡ s.active
      → t.profiles ≡ s.profiles
      → t.device ≡ s.device
      → IsCounted lib g
      → Counted lib (put_slot lib i t g, w)
  put-Counted g w i s t h a p d v =
      let c = slot-IsCurrent lib g i s v h in
      record {
        counted =
            put_slot-IsCounted lib g i s t h
              (record { same_active = a; same_profiles = λ q. ap (λ f. f q) p })
              (current_of s t p d c) v;
      }
    where
      current_of :
          (s t : Slot lib)
          → t.profiles ≡ s.profiles
          → t.device ≡ s.device
          → IsCurrent lib s
          → IsCurrent lib t
      current_of s t p d c = record {
        masked = subst (IsMasked lib) (sym d) c.masked;
        shown =
            λ q. ap (λ f. f q) p ∙ c.shown q ∙ ap (λ (x : Device lib). x.profile_mask q) (sym d);
      }

  pub each_slot-Counted :
      (body : ℕ → Group lib → Group lib)
      → ((i : ℕ) (g : Group lib) → IsCounted lib g.0 → Counted lib (body i g))
      → (is : List ℕ) (g : Group lib) → IsCounted lib g.0
      → Counted lib (each_slot lib body is g)
  unfolding each_slot
  each_slot-Counted body step [] g v = record { counted = v }
  each_slot-Counted body step (i ∷ is) g v =
      each_slot-Counted body step is (body i g) (step i g v).counted

  take_result-Counted :
      (i : ℕ) (r : AoahidResult) (t : Tally) (g : Group lib)
      → IsCounted lib g.0
      → CountedResult lib (take_result lib windows i r t g)
  unfolding take_result
  take_result-Counted i r t g v =
      let kept : (o : Option Tally) → CountedResult lib (o, g) =
        λ o. record { result_counted = v } in
      when_lem (CountedResult lib) _ _ _ (λ e. kept _)
        (λ e.
          when_lem (CountedResult lib) _ _ _
            (λ b. when_lem (CountedResult lib) t.applied _ _ (λ a. kept _) (λ a. kept _))
            (λ b.
              when_lem (CountedResult lib) _ _ _ (λ p. kept _)
                (λ p. record { result_counted = (fail-Counted i r g v).counted })))

  broadcast_step-Counted :
      (p : Profile) (m : Mutation lib) (i : ℕ) (t : Tally) (g : Group lib)
      → IsCounted lib g.0
      → CountedResult lib (broadcast_step lib windows p m i t g)
  unfolding broadcast_step
  broadcast_step-Counted p m i t g v =
      match_option_lem (CountedResult lib) (get_elem? (g.0.slots) i) _ _
        (λ e. record { result_counted = v })
        (λ s h.
          when_lem (CountedResult lib) s.active _ _
            (λ a.
              match_option_lem (CountedResult lib) (s.device.nodes p) _ _
                (λ e. record { result_counted = v }) (λ n e. take_result-Counted i _ t _ v))
            (λ a. record { result_counted = v }))

  broadcast_loop-Counted :
      (p : Profile) (m : Mutation lib) (is : List ℕ) (t : Tally) (g : Group lib)
      → IsCounted lib g.0
      → CountedResult lib (broadcast_loop lib windows p m is t g)
  unfolding broadcast_loop
  broadcast_loop-Counted p m [] t g v = record { result_counted = v }
  broadcast_loop-Counted p m (i ∷ is) t g v =
      let stepped = broadcast_step lib windows p m i t g in
      let w = (broadcast_step-Counted p m i t g v).result_counted in
      match_option_lem (CountedResult lib) stepped.0 _ _ (λ e. record { result_counted = w })
        (λ u e. broadcast_loop-Counted p m is u stepped.1 w)

  bump_skipped-IsCounted :
      (is : List ℕ) (g : DeviceGroup lib) (w : lib.World)
      → IsCounted lib g
      → IsCounted lib (bump_skipped lib is g)
  unfolding bump_skipped
  bump_skipped-IsCounted [] g w v = v
  bump_skipped-IsCounted (i ∷ is) g w v = bump_skipped-IsCounted is _ w (
      match_option_lem (IsCounted lib) (get_elem? g.slots i) _ _ (λ e. v)
        (λ s h. (put-Counted g w i s _ h refl refl refl v).counted))

  -- A change of what the invariant does not read.
  note_rejection-IsCounted :
      (is : List ℕ) (r : AoahidResult) (g : DeviceGroup lib) (w : lib.World)
      → IsCounted lib g
      → IsCounted lib (note_rejection lib windows is r g w)
  unfolding note_rejection
  note_rejection-IsCounted [] r g w v = v
  note_rejection-IsCounted (i ∷ is) r g w v = record {
    count = v.count;
    mask = v.mask;
    current = v.current;
  }

  close_tally-Counted :
      (p : Profile) (t : Tally) (g : Group lib)
      → IsCounted lib g.0
      → CountedResult lib (close_tally lib windows p t g)
  unfolding close_tally
  close_tally-Counted p t g v =
      let noted =
        note_rejection-IsCounted t.refused t.refusal _ g.1
          (bump_skipped-IsCounted t.refused g.0 g.1 v) in
      when_lem (CountedResult lib) t.applied _ _
        (λ a. record {
          result_counted = record {
            count = noted.count;
            mask = noted.mask;
            current = noted.current;
          };
        })
        (λ a.
          when_lem (CountedResult lib) (not t.present) _ _ (λ e. record { result_counted = noted })
            (λ e.
              when_lem (CountedResult lib) _ _ _ (λ f. record { result_counted = noted })
                (λ f. record { result_counted = noted })))

  pub broadcast-Counted :
      (p : Profile) (m : Mutation lib) (g : Group lib)
      → IsCounted lib g.0
      → CountedResult lib (broadcast lib windows p m g)
  unfolding broadcast
  broadcast-Counted p m g v =
      let looped = (broadcast_loop-Counted p m _ no_tally g v).result_counted in
      match_option_lem (CountedResult lib) _ _ _ (λ e. record { result_counted = looped })
        (λ t e. close_tally-Counted p t _ looped)
