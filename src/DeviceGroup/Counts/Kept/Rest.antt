-- ===== src/DeviceGroup/Counts/Kept/Rest.antt =====
-- add_device, reset, reconfigure and the bridge calls of src/device_group.cpp keep the invariant of the
-- counters.
use aoahid_player.Aoahid.{Aoahid}
use aoahid_player.Base.{
  refl, sym, ◌∙◌, ℕ, Bool, [], ◌∷◌, get_elem?, when_lem, match_option_lem, All-append, arith,
}
use aoahid_player.Device.Nodes.{IsMasked, start_adb_bridge-IsMasked, start_adb_bridge_mask}
use aoahid_player.Device.{Device, start_adb_bridge, stop_adb_bridge}
use aoahid_player.DeviceGroup.Counts.Kept.{Counted, CountedResult}
use aoahid_player.DeviceGroup.Counts.{
  IsCounted, IsCurrent, active_slots-append, put_slot-IsCounted, slot-IsCurrent,
}
use aoahid_player.DeviceGroup.{
  Slot, DeviceGroup, Group, add_device, new_slot, reset, start_bridge, stop_bridge,
}
use aoahid_player.Setup.{ProfileSetup}
use aoahid_player.Text.{Bytes}

module _ (lib : Aoahid) (windows : Bool) where
  pub add_device-IsCounted :
      (d : Device lib) (key : Bytes) (setup : ProfileSetup) (g : DeviceGroup lib)
      → IsMasked lib d
      → IsCounted lib g
      → IsCounted lib (add_device lib d key setup g)
  unfolding add_device
  add_device-IsCounted d key setup g m v =
      let c : IsCurrent lib (new_slot lib d key setup) = record { masked = m; shown = λ p. refl } in
      record {
        count =
            omega (arith, v.count, active_slots-append lib g.slots (new_slot lib d key setup ∷ []));
        mask = λ p. refl;
        current = All-append (IsCurrent lib) g.slots _ v.current (c, _);
      }

  pub reset-IsCounted : (g : Group lib) → IsCounted lib (reset lib g).0
  unfolding reset
  reset-IsCounted g = record { count = refl; mask = λ p. refl; current = _ }

  -- The bridge calls change the device of a slot in nothing that counts.
  pub start_bridge-Counted :
      (i port : ℕ) (g : Group lib)
      → IsCounted lib g.0
      → CountedResult lib (start_bridge lib i port g)
  unfolding start_bridge
  start_bridge-Counted i port g v =
      match_option_lem (CountedResult lib) (get_elem? (g.0.slots) i) _ _
        (λ e. record { result_counted = v })
        (λ s h.
          when_lem (CountedResult lib) s.active _ _
            (λ a. record {
              result_counted =
                  put_slot-IsCounted lib g.0 i s _ h
                    (record { same_active = refl; same_profiles = λ p. refl })
                    (started s port g.1 (slot-IsCurrent lib g.0 i s v h)) v;
            })
            (λ a. record { result_counted = v }))
    where
      started :
          (s : Slot lib) (port : ℕ) (w : lib.World)
          → IsCurrent lib s
          → let r = start_adb_bridge lib s.device port w in
            IsCurrent lib (record s { device = r.1; adb_port = r.1.adb_port })
      started s port w c = record {
        masked = start_adb_bridge-IsMasked lib s.device port w c.masked;
        shown = λ p. c.shown p ∙ sym (start_adb_bridge_mask lib s.device port w p);
      }

  pub stop_bridge-Counted :
      (i : ℕ) (g : Group lib) → IsCounted lib g.0 → Counted lib (stop_bridge lib i g)
  unfolding stop_bridge stop_adb_bridge
  stop_bridge-Counted i g v =
      match_option_lem (Counted lib) (get_elem? (g.0.slots) i) _ _ (λ e. record { counted = v })
        (λ s h.
          let c = slot-IsCurrent lib g.0 i s v h in
          record {
            counted =
                put_slot-IsCounted lib g.0 i s _ h
                  (record { same_active = refl; same_profiles = λ p. refl })
                  (record { masked = record { mask_of = c.masked.mask_of }; shown = c.shown }) v;
          })
