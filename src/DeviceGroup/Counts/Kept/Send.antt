-- ===== src/DeviceGroup/Counts/Kept/Send.antt =====
-- flush and send_battery_levels of src/device_group.cpp keep the invariant of the counters.
use aoahid_player.Aoahid.{Aoahid}
use aoahid_player.Base.{
  refl, ℕ, Bool, Option, List, [], ◌∷◌, length, get_elem?, when_lem, match_option_lem,
}
use aoahid_player.DeviceGroup.Counts.Kept.{
  Counted, CountedResult, fail-Counted, put-Counted, each_slot-Counted,
}
use aoahid_player.DeviceGroup.Counts.{IsCounted}
use aoahid_player.DeviceGroup.Flush.{submit_slot, drain_slot, flush}
use aoahid_player.DeviceGroup.Reconfigure.{send_levels, send_slot, send_battery_levels}
use aoahid_player.DeviceGroup.{Group, places}
use aoahid_player.Event.{Profile}
use aoahid_player.Setup.{Mask, all_profiles, no_profiles}

module _ (lib : Aoahid) (windows : Bool) where
  submit_slot-Counted :
      (m : Mask) (i : ℕ) (g : Group lib)
      → IsCounted lib g.0
      → Counted lib (submit_slot lib windows m i g)
  unfolding submit_slot
  submit_slot-Counted m i g v =
      match_option_lem (Counted lib) (get_elem? (g.0.slots) i) _ _ (λ e. record { counted = v })
        (λ s h.
          when_lem (Counted lib) s.active _ _
            (λ a.
              when_lem (Counted lib) _ _ _ (λ o. record { counted = v })
                (λ o. fail-Counted lib windows i _ _ v))
            (λ a. record { counted = v }))

  drain_slot-Counted :
      (m : Mask) (i : ℕ) (g : Group lib)
      → IsCounted lib g.0
      → Counted lib (drain_slot lib windows m i g)
  unfolding drain_slot
  drain_slot-Counted m i g v =
      match_option_lem (Counted lib) (get_elem? (g.0.slots) i) _ _ (λ e. record { counted = v })
        (λ s h.
          when_lem (Counted lib) s.active _ _
            (λ a.
              when_lem (Counted lib) _ _ _
                (λ o.
                  when_lem (Counted lib) _ _ _
                    (λ t. put-Counted lib windows g.0 _ i s _ h refl refl refl v)
                    (λ t. record { counted = v }))
                (λ o. fail-Counted lib windows i _ _ v))
            (λ a. record { counted = v }))

  pub flush-Counted : (g : Group lib) → IsCounted lib g.0 → CountedResult lib (flush lib windows g)
  unfolding flush
  flush-Counted g v =
      let taken : IsCounted lib (record (g.0) { dirty_mask = no_profiles }) = record {
        count = v.count;
        mask = v.mask;
        current = v.current;
      } in
      let all = places 0 (length (g.0.slots)) in
      let submit = submit_slot lib windows (g.0.dirty_mask) in
      let submitted =
        each_slot-Counted lib windows submit (submit_slot-Counted (g.0.dirty_mask)) all
          (record (g.0) { dirty_mask = no_profiles }, g.1) taken in
      let drained =
        each_slot-Counted lib windows (drain_slot lib windows (g.0.dirty_mask))
          (drain_slot-Counted (g.0.dirty_mask)) all _ (submitted.counted) in
      when_lem (CountedResult lib) _ _ _ (λ d. record { result_counted = drained.counted })
        (λ d. record { result_counted = v })

  send_levels-Counted :
      (i : ℕ) (ps : List Profile) (g : Group lib)
      → IsCounted lib g.0
      → Counted lib (send_levels lib windows i ps g)
  unfolding send_levels
  send_levels-Counted i [] g v = record { counted = v }
  send_levels-Counted i (p ∷ ps) g v =
      match_option_lem (Counted lib) (get_elem? (g.0.slots) i) _ _ (λ e. record { counted = v })
        (λ s h.
          match_option_lem (Counted lib) (s.device.nodes p) _ _ (λ e. send_levels-Counted i ps g v)
            (λ n e.
              when_lem (Counted lib) _ _ _ (λ k. send_levels-Counted i ps g v)
                (λ k.
                  when_lem (Counted lib) _ _ _
                    (λ o.
                      send_levels-Counted i ps _
                        (put-Counted lib windows g.0 g.1 i s _ h refl refl refl v).counted)
                    (λ o. fail-Counted lib windows i _ _ v))))

  send_slot-Counted :
      (index : Option ℕ) (i : ℕ) (g : Group lib)
      → IsCounted lib g.0
      → Counted lib (send_slot lib windows index i g)
  unfolding send_slot
  send_slot-Counted index i g v =
      match_option_lem (Counted lib) (get_elem? (g.0.slots) i) _ _ (λ e. record { counted = v })
        (λ s h.
          when_lem (Counted lib) _ _ _ (λ o. record { counted = v })
            (λ o. send_levels-Counted i all_profiles g v))

  pub send_battery_levels-Counted :
      (index : Option ℕ) (g : Group lib)
      → IsCounted lib g.0
      → Counted lib (send_battery_levels lib windows index g)
  unfolding send_battery_levels
  send_battery_levels-Counted index g v =
      let flushed = (flush lib windows g).1 in
      each_slot-Counted lib windows (send_slot lib windows index) (send_slot-Counted index)
        (places 0 (length (flushed.0.slots))) flushed (flush-Counted g v).result_counted
