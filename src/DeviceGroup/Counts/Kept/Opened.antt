-- ===== src/DeviceGroup/Counts/Kept/Opened.antt =====
-- open_profiles and reconfigure of src/device_group.cpp keep the invariant of the counters.
use aoahid_player.Aoahid.{Aoahid, AoahidResult}
use aoahid_player.Base.{
  ◌≡◌, refl, ◌∙◌, ℕ, Bool, true, Option, some, List, [], ◌∷◌, get_elem?, when_lem, match_option_lem,
  match_sum_lem,
}
use aoahid_player.Device.Nodes.{OpensNode, IsMasked, open_node-IsMasked, close_node-IsMasked}
use aoahid_player.DeviceGroup.Counts.Kept.Closing.{
  refresh_mask-put_slot-IsCounted, fail-put_slot-Counted,
}
use aoahid_player.DeviceGroup.Counts.Kept.Send.{flush-Counted}
use aoahid_player.DeviceGroup.Counts.{IsCounted, slot-IsCurrent}
use aoahid_player.DeviceGroup.Reconfigure.{
  Opening, register_profile, open_profile, open_profiles, close_unwanted, open_wanted,
  reconfigure_slot, reconfigure,
}
use aoahid_player.DeviceGroup.{Slot, Group, set_surfaces}
use aoahid_player.Event.{Profile}
use aoahid_player.Setup.Specs.{build_spec}
use aoahid_player.Setup.{ProfileSetup, Mask, all_profiles}
use aoahid_player.Text.{Bytes}

module _ (lib : Aoahid) (windows : Bool) where
  -- The device of an Opening keeps its mask.
  record IsOpen (o : Opening lib) : Type 0 where
    open_masked : IsMasked lib o.device

  register_profile-IsOpen :
      OpensNode lib
      → (p : Profile) (o : Opening lib) → IsMasked lib o.device
      → IsOpen (register_profile lib windows p o)
  unfolding register_profile
  register_profile-IsOpen opens p o v =
      let built = build_spec lib windows p o.setup o.world in
      match_sum_lem IsOpen built.0 _ _ (λ why. record { open_masked = v })
        (λ spec.
          let m = open_node-IsMasked lib opens o.device p spec built.1 v in
          when_lem IsOpen _ _ _ (λ e. record { open_masked = m }) (λ e. record { open_masked = m }))

  open_profile-IsOpen :
      OpensNode lib
      → (p : Profile) (o : Opening lib) → IsMasked lib o.device
      → IsOpen (open_profile lib windows p o)
  unfolding open_profile
  open_profile-IsOpen opens p o v =
      when_lem IsOpen _ _ _ (λ e. record { open_masked = v })
        (λ e.
          match_option_lem IsOpen _ _ _ (λ n. register_profile-IsOpen opens p o v)
            (λ why n. record { open_masked = v }))

  open_profiles-IsOpen :
      OpensNode lib
      → (ps : List Profile) (o : Opening lib) → IsMasked lib o.device
      → IsMasked lib (open_profiles lib windows ps o).device
  unfolding open_profiles
  open_profiles-IsOpen opens [] o v = v
  open_profiles-IsOpen opens (p ∷ ps) o v =
      open_profiles-IsOpen opens ps (open_profile lib windows p o)
        (open_profile-IsOpen opens p o v).open_masked

  -- The slot of close_unwanted is as active, and its device keeps its mask.
  record IsClosed (a : Bool) (r : Option (Profile × AoahidResult) × Slot lib × lib.World)
      : Type 0 where
    as_active : r.1.active ≡ a
    closed_masked : IsMasked lib (r.1.device)

  close_unwanted-IsClosed :
      (wanted : ProfileSetup) (ps : List Profile) (s : Slot lib) (w : lib.World)
      → IsMasked lib s.device
      → IsClosed s.active (close_unwanted lib wanted ps s w)
  unfolding close_unwanted
  close_unwanted-IsClosed wanted [] s w v = record { as_active = refl; closed_masked = v }
  close_unwanted-IsClosed wanted (p ∷ ps) s w v =
      let m = close_node-IsMasked lib s.device p w v in
      when_lem (IsClosed s.active) _ _ _ (λ k. close_unwanted-IsClosed wanted ps s w v)
        (λ k.
          when_lem (IsClosed s.active) _ _ _ (λ o. close_unwanted-IsClosed wanted ps _ _ m)
            (λ o. record { as_active = refl; closed_masked = m }))

  -- The group of reconfigure's result keeps the invariant.
  pub record Reconfigured (r : Mask × Bytes × Group lib) : Type 0 where
    pub kept : IsCounted lib (r.2.0)

  reconfigure_slot-Reconfigured :
      OpensNode lib
      → (i : ℕ) (wanted : ProfileSetup) (s : Slot lib) (g : Group lib)
      → get_elem? (g.0.slots) i ≡ some s
      → s.active ≡ true
      → IsCounted lib g.0
      → Reconfigured (reconfigure_slot lib windows i wanted s g)
  unfolding reconfigure_slot open_wanted set_surfaces
  reconfigure_slot-Reconfigured opens i wanted s g h a v =
      let c = slot-IsCurrent lib g.0 i s v h in
      let done = close_unwanted-IsClosed wanted all_profiles s g.1 c.masked in
      match_option_lem Reconfigured _ _ _
        (λ e.
          match_option_lem Reconfigured _ _ _
            (λ n. record {
              kept =
                  refresh_mask-put_slot-IsCounted lib windows g.0 i s _ _ h done.as_active
                    (record {
                      masked = open_profiles-IsOpen opens all_profiles _ done.closed_masked;
                      shown = λ p. refl;
                    })
                    v;
            })
            (λ refused n. record {
              kept =
                  (fail-put_slot-Counted lib windows g.0 _ i s _ _ h a (done.as_active ∙ a)
                    v).counted;
            }))
        (λ why e. record { kept = v })

  pub reconfigure-Reconfigured :
      OpensNode lib
      → (i : ℕ) (wanted : ProfileSetup) (g : Group lib) → IsCounted lib g.0
      → Reconfigured (reconfigure lib windows i wanted g)
  unfolding reconfigure
  reconfigure-Reconfigured opens i wanted g v =
      let flushed = (flush-Counted lib windows g v).result_counted in
      match_option_lem Reconfigured _ _ _ (λ e. record { kept = v })
        (λ s e.
          when_lem Reconfigured _ _ _
            (λ a.
              match_option_lem Reconfigured _ _ _ (λ n. record { kept = flushed })
                (λ t h.
                  when_lem Reconfigured _ _ _
                    (λ b. reconfigure_slot-Reconfigured opens i _ t _ h b flushed)
                    (λ b. record { kept = flushed })))
            (λ a. record { kept = v }))
