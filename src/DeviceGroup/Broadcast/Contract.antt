-- ===== src/DeviceGroup/Broadcast/Contract.antt =====
-- The results of apply, scroll and toggle of src/device_group.cpp, as the comment on apply in
-- include/aoahid_player/device_group.hpp states them.
use aoahid_player.Aoahid.{Aoahid, AoahidResult, ok, err_busy, err_param, err_unsupported}
use aoahid_player.Base.{
  no_clash, ◌≡◌, refl, sym, ap, subst, ◌∙◌, ◌<◌, ◌↔◌, inl, inr, Bool-cases, ℕ, suc, ◌+◌, Bool, true,
  false, not, ◌&&◌, ◌||◌, List, [], ◌∷◌, length, get_elem?, All, arith, when_lem, match_option_lem,
}
use aoahid_player.Device.{has}
use aoahid_player.DeviceGroup.Broadcast.Quiet.{unreached}
use aoahid_player.DeviceGroup.Broadcast.{IsFramed, IsGoing, reaches, broadcast_loop_from}
use aoahid_player.DeviceGroup.Counts.{IsCounted, IsCurrent, active_slots}
use aoahid_player.DeviceGroup.Rows.{
  Tally, Mutation, broadcast, broadcast_loop, close_tally, bump_skipped, note_rejection, is_empty,
  no_tally, apply, mutate,
}
use aoahid_player.DeviceGroup.{Slot, DeviceGroup, Group, places, put_slot, active_profiles}
use aoahid_player.Event.{EventPayload, Profile, profile_of}
use aoahid_player.Scale.{Space}
use aoahid_player.Setup.{Mask, union, only}

-- What becomes of a row for a profile, from the group `g` to the group `h`.
pub data IsAnswer (lib : Aoahid) (p : Profile) (g : Group lib)
    : AoahidResult → Group lib → Type 0 where
  -- No row is counted as rejected or skipped, no profile becomes dirty, and no more slots are active.
  row_busy :
      (h : Group lib)
      → IsFramed lib g h
      → reaches lib p (g.0.slots) ≡ true
      → IsAnswer lib p g err_busy h
  -- No active device has a node, and nothing changes.
  row_unsupported :
      (h : Group lib)
      → h ≡ g
      → reaches lib p (g.0.slots) ≡ false
      → IsAnswer lib p g err_unsupported h
  -- A device took the row: its profile is dirty.
  row_taken :
      (h : Group lib)
      → h.0.dirty_mask ≡ union (g.0.dirty_mask) (only p)
      → reaches lib p (g.0.slots) ≡ true
      → IsAnswer lib p g ok h
  -- Every device that was asked is lost.
  row_lost :
      (h : Group lib)
      → IsFramed lib g h
      → active_slots lib (h.0.slots) < active_slots lib (g.0.slots)
      → reaches lib p (g.0.slots) ≡ true
      → IsAnswer lib p g ok h
  -- No device took the row, and one refused it.
  row_refused :
      (h : Group lib)
      → h.0.dirty_mask ≡ g.0.dirty_mask
      → h.0.rejected_rows ≡ suc (g.0.rejected_rows)
      → reaches lib p (g.0.slots) ≡ true
      → IsAnswer lib p g err_param h

pub record IsAnswered (lib : Aoahid) (p : Profile) (g : Group lib) (r : AoahidResult × Group lib)
    : Type 0 where
  pub answer : IsAnswer lib p g r.0 r.1

module _ (lib : Aoahid) where
  -- Counting the refusals leaves the dirty profiles and the rows.
  record IsBumped (g h : DeviceGroup lib) : Type 0 where
    bumped_dirty : h.dirty_mask ≡ g.dirty_mask
    bumped_rows : h.rejected_rows ≡ g.rejected_rows

  bump_skipped-IsBumped : (is : List ℕ) (g : DeviceGroup lib) → IsBumped g (bump_skipped lib is g)
  unfolding bump_skipped
  bump_skipped-IsBumped [] g = record { bumped_dirty = refl; bumped_rows = refl }
  bump_skipped-IsBumped (i ∷ is) g =
      let first =
        match_option_lem (IsBumped g) (get_elem? g.slots i) g
          (λ s. put_slot lib i (record s { skipped = s.skipped + 1 }) g)
          (λ e. record { bumped_dirty = refl; bumped_rows = refl })
          (λ s e. record { bumped_dirty = refl; bumped_rows = refl }) in
      let rest = bump_skipped-IsBumped is _ in
      record {
        bumped_dirty = rest.bumped_dirty ∙ first.bumped_dirty;
        bumped_rows = rest.bumped_rows ∙ first.bumped_rows;
      }

  noted_dirty :
      (windows : Bool) (is : List ℕ) (r : AoahidResult) (g : DeviceGroup lib) (w : lib.World)
      → (note_rejection lib windows is r (bump_skipped lib is g) w).dirty_mask ≡ g.dirty_mask
  unfolding note_rejection
  noted_dirty windows [] r g w = (bump_skipped-IsBumped [] g).bumped_dirty
  noted_dirty windows (i ∷ is) r g w = (bump_skipped-IsBumped (i ∷ is) g).bumped_dirty

  noted_rows :
      (windows : Bool) (is : List ℕ) (r : AoahidResult) (g : DeviceGroup lib) (w : lib.World)
      → is_empty is ≡ false
      → (note_rejection lib windows is r (bump_skipped lib is g) w).rejected_rows
        ≡ suc g.rejected_rows
  unfolding note_rejection
  noted_rows windows [] r g w e = absurd cc
  noted_rows windows (i ∷ is) r g w e =
      omega (arith, (bump_skipped-IsBumped (i ∷ is) g).bumped_rows)

  noted_none :
      (windows : Bool) (is : List ℕ) (r : AoahidResult) (g : DeviceGroup lib) (w : lib.World)
      → is_empty is ≡ true
      → note_rejection lib windows is r (bump_skipped lib is g) w ≡ g
  unfolding note_rejection bump_skipped
  noted_none windows [] r g w e = refl
  noted_none windows (i ∷ is) r g w e = absurd cc

  close_tally-IsAnswered :
      (windows : Bool) (p : Profile) (g : Group lib) (t : Tally) (h : Group lib)
      → IsGoing lib p g t h
      → (t.present ≡ false → reaches lib p (g.0.slots) ≡ false)
      → IsAnswered lib p g (close_tally lib windows p t h)
  unfolding close_tally
  close_tally-IsAnswered windows p g t h v n =
      let gone : not t.present ≡ true → t.present ≡ false = λ b. ground arith in
      let there : not t.present ≡ false → t.present ≡ true = λ b. ground arith in
      let dirty = noted_dirty windows t.refused t.refusal h.0 h.1 ∙ v.framed.dirty in
      when_lem (IsAnswered lib p g) _ _ _
        (λ a. record {
          answer = row_taken _ (ap (λ (m : Mask). union m (only p)) dirty) (taken t h v a);
        })
        (λ a.
          when_lem (IsAnswered lib p g) _ _ _
            (λ b. record { answer = row_unsupported _ (quiet t h v (gone b)) (n (gone b)) })
            (λ b.
              when_lem (IsAnswered lib p g) _ _ _
                (λ c.
                  let same = noted_none windows t.refused t.refusal h.0 h.1 c in
                  let framed =
                    subst (λ (x : DeviceGroup lib). IsFramed lib g (x, h.1)) (sym same) v.framed in
                  let less =
                    subst
                      (λ (x : DeviceGroup lib).
                        active_slots lib x.slots < active_slots lib (g.0.slots))
                      (sym same) (v.lost (there b) a c) in
                  record { answer = row_lost _ framed less (v.reached (there b)) })
                (λ c. record {
                  answer =
                      row_refused _ dirty
                        (noted_rows windows t.refused t.refusal h.0 h.1 c ∙ ap suc v.framed.rows)
                        (v.reached (there b));
                })))
    where
      taken :
          (t : Tally) (h : Group lib)
          → IsGoing lib p g t h
          → t.applied ≡ true
          → reaches lib p (g.0.slots) ≡ true
      taken t h v a = elim (Bool-cases t.present) [
        | inl e ↦ v.reached e
        | inr e ↦ absurd (no_clash (sym a ∙ (v.unseen e).1))
      ]

      quiet :
          (t : Tally) (h : Group lib)
          → IsGoing lib p g t h
          → t.present ≡ false
          → (
            note_rejection lib windows t.refused t.refusal (bump_skipped lib t.refused h.0) h.1,
            h.1,
          )
            ≡ g
      quiet t h v e =
          ap (λ (x : DeviceGroup lib). (x, h.1))
            (noted_none windows t.refused t.refusal h.0 h.1 (v.unseen e).2)
          ∙ (v.unseen e).0

  pub broadcast-IsAnswered :
      (windows : Bool) (p : Profile) (m : Mutation lib) (g : Group lib)
      → IsAnswered lib p g (broadcast lib windows p m g)
  unfolding broadcast
  broadcast-IsAnswered windows p m g =
      let all = places 0 (length (g.0.slots)) in
      let v = broadcast_loop_from lib windows p m g all in
      match_option_lem (IsAnswered lib p g) (broadcast_loop lib windows p m all no_tally g).0 _ _
        (λ e. let stop = v.stopped e in record { answer = row_busy _ stop.0 stop.1 })
        (λ t e.
          close_tally-IsAnswered windows p g t _ (v.going t e)
            (λ f. unreached lib p windows m no_tally t g e f))

  -- The mask of a counted group has the bit of a profile where an active slot has a node for it.
  reaches-profiles :
      (p : Profile) (xs : List (Slot lib))
      → All (IsCurrent lib) xs
      → active_profiles lib xs p ≡ reaches lib p xs
  reaches-profiles p [] c = refl
  reaches-profiles p (s ∷ rest) c =
      let here = c.0.shown p ∙ c.0.masked.mask_of p in
      ap (λ b. (s.active && b) || active_profiles lib rest p) here
      ∙ ap (λ b. (s.active && has lib s.device p) || b) (reaches-profiles p rest c.1)

  pub unsupported_iff :
      (p : Profile) (g h : Group lib) (r : AoahidResult)
      → IsAnswer lib p g r h
      → (r ≡ err_unsupported) ↔ (reaches lib p (g.0.slots) ≡ false)
  unsupported_iff p g h r (row_busy _ f q) = (λ e. absurd cc, λ e. absurd (no_clash (sym q ∙ e)))
  unsupported_iff p g h r (row_unsupported _ s n) = (λ e. n, λ e. refl)
  unsupported_iff p g h r (row_taken _ d q) = (λ e. absurd cc, λ e. absurd (no_clash (sym q ∙ e)))
  unsupported_iff p g h r (row_lost _ f l q) = (λ e. absurd cc, λ e. absurd (no_clash (sym q ∙ e)))
  unsupported_iff p g h r (row_refused _ d n q) =
      (λ e. absurd cc, λ e. absurd (no_clash (sym q ∙ e)))

  -- apply answers AOAHID_ERR_UNSUPPORTED exactly where profile_mask() lacks the bit of the row's profile, in
  -- a group whose counters match its slots.
  pub apply-unsupported_iff :
      (windows : Bool) (payload : EventPayload) (space : Space) (g : Group lib)
      → IsCounted lib g.0
      → ((apply lib windows payload space g).0 ≡ err_unsupported)
        ↔ (g.0.profile_mask (profile_of payload) ≡ false)
  unfolding apply
  apply-unsupported_iff windows payload space g v =
      let p = profile_of payload in
      let mask = v.mask p ∙ reaches-profiles p (g.0.slots) v.current in
      let iff =
        unsupported_iff p g _ _
          (broadcast-IsAnswered windows p (mutate lib payload space) g).answer in
      (λ e. mask ∙ iff.0 e, λ e. iff.1 (sym mask ∙ e))
