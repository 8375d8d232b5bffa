-- ===== src/Device/Nodes.antt =====
-- The mask of a Device (src/device.cpp) and its nodes, over every sequence of its operations.
use aoahid_player.Aoahid.Options.{NodeOptions, DeviceInfo}
use aoahid_player.Aoahid.{Aoahid, ok, same_result}
use aoahid_player.Base.Int.{ℤ}
use aoahid_player.Base.{
  ◌≡◌, refl, sym, ℕ, Bool, true, false, not, ◌&&◌, ◌||◌, Option, none, match_option_lem, when_lem,
  List, [], ◌∷◌, if◌then◌else◌,
}
use aoahid_player.Context.{Context}
use aoahid_player.Device.{
  Device, has, is_some, open_device, close, open_node, close_node, with_node, without_node,
  start_adb_bridge, stop_adb_bridge, move_device,
}
use aoahid_player.Event.{Profile}
use aoahid_player.Setup.{same_kind}

-- What libaoahid promises of aoahid_node_open: the result AOAHID_OK comes with a node.
abbrev pub OpensNode : Aoahid → Type 0
OpensNode lib =
    (h : lib.Handle) (s : lib.Spec) (o : NodeOptions) (t : ℕ) (w : lib.World)
    → same_result (lib.node_open h s o t w).0.0 ok ≡ true
    → is_some (lib.node_open h s o t w).0.1 ≡ true

-- profile_mask() has the bits of the profiles with a node.
pub record IsMasked (lib : Aoahid) (d : Device lib) : Type 0 where
  pub mask_of : (p : Profile) → d.profile_mask p ≡ has lib d p

-- A call of a member function, with its arguments.
pub data Call (lib : Aoahid) : Type 0 where
  call_open : Context lib → Option DeviceInfo → Call lib
  call_close : Call lib
  call_open_node : Profile → Option lib.Spec → Call lib
  call_close_node : Profile → Call lib
  call_start_bridge : ℕ → Call lib
  call_stop_bridge : Call lib
  call_move : Call lib

module _ (lib : Aoahid) where
  unfoldable pub perform : Call lib → Device lib → lib.World → Device lib × lib.World
  unfolding open_device close open_node close_node start_adb_bridge stop_adb_bridge move_device
  perform (call_open c i) d w = let r = open_device lib d c i w in (r.1, r.2)
  perform call_close d w = close lib d w
  perform (call_open_node p s) d w = let r = open_node lib d p s w in (r.1, r.2)
  perform (call_close_node p) d w = let r = close_node lib d p w in (r.1, r.2)
  perform (call_start_bridge port) d w = let r = start_adb_bridge lib d port w in (r.1, r.2)
  perform call_stop_bridge d w = stop_adb_bridge lib d w
  perform call_move d w = ((move_device lib d).0, w)

  unfoldable pub perform_all : List (Call lib) → Device lib → lib.World → Device lib × lib.World
  unfolding perform
  perform_all [] d w = (d, w)
  perform_all (c ∷ cs) d w = let next = perform c d w in perform_all cs next.0 next.1

  pub close-IsMasked : (d : Device lib) (w : lib.World) → IsMasked lib (close lib d w).0
  unfolding close
  close-IsMasked d w = record { mask_of = λ p. refl }

  -- The device of a result keeps the mask.
  record Kept {A : Type 0} (r : A × Device lib × lib.World) : Type 0 where
    kept : IsMasked lib r.1

  -- Setting the bit with the node, or clearing both, keeps the bit right.
  set_bit :
      (b m : Bool) (n x : Option lib.Node)
      → m ≡ is_some x
      → is_some n ≡ true
      → (m || b) ≡ is_some (if b then n else x)
  set_bit true true n x e h = sym h
  set_bit true false n x e h = sym h
  set_bit false true n x e h = e
  set_bit false false n x e h = e

  clear_bit :
      (b m : Bool) (x : Option lib.Node)
      → m ≡ is_some x
      → (m && not b) ≡ is_some (if b then none else x)
  clear_bit true true x e = refl
  clear_bit true false x e = refl
  clear_bit false true x e = e
  clear_bit false false x e = e

  pub with_node-IsMasked :
      (d : Device lib) (p : Profile) (n : Option lib.Node)
      → IsMasked lib d
      → is_some n ≡ true
      → IsMasked lib (with_node lib d p n)
  with_node-IsMasked d p n v e = record {
    mask_of = λ q. set_bit (same_kind p q) (d.profile_mask q) n (d.nodes q) (v.mask_of q) e;
  }

  pub without_node-IsMasked :
      (d : Device lib) (p : Profile) → IsMasked lib d → IsMasked lib (without_node lib d p)
  without_node-IsMasked d p v = record {
    mask_of = λ q. clear_bit (same_kind p q) (d.profile_mask q) (d.nodes q) (v.mask_of q);
  }

  open_device-Kept :
      (d : Device lib) (c : Context lib) (i : Option DeviceInfo) (w : lib.World)
      → Kept (open_device lib d c i w)
  unfolding open_device close
  open_device-Kept d c i w =
      let closed : IsMasked lib (close lib d w).0 = close-IsMasked d w in
      match_option_lem Kept c.handle _ _ (λ e. record { kept = closed })
        (λ a e.
          match_option_lem Kept i _ _ (λ e. record { kept = closed })
            (λ b e. record { kept = record { mask_of = λ q. refl } }))

  open_node-Kept :
      OpensNode lib
      → (d : Device lib) (p : Profile) (s : Option lib.Spec) (w : lib.World) → IsMasked lib d
      → Kept (open_node lib d p s w)
  unfolding open_node
  open_node-Kept opens d p s w v =
      match_option_lem Kept d.handle _ _ (λ e. record { kept = v })
        (λ h e.
          match_option_lem Kept s _ _ (λ e. record { kept = v })
            (λ t e.
              when_lem Kept (has lib d p) _ _ (λ e. record { kept = v })
                (λ g.
                  when_lem Kept _ _ _
                    (λ o. record { kept = with_node-IsMasked d p _ v (opens h t _ _ w o) })
                    (λ o. record { kept = v }))))

  close_node-Kept :
      (d : Device lib) (p : Profile) (w : lib.World) → IsMasked lib d → Kept (close_node lib d p w)
  unfolding close_node
  close_node-Kept d p w v =
      match_option_lem Kept (d.nodes p) _ _ (λ e. record { kept = v })
        (λ n e.
          when_lem Kept _ _ _ (λ k. record { kept = v })
            (λ k. record { kept = without_node-IsMasked d p v }))

  start_adb_bridge-Kept :
      (d : Device lib) (port : ℕ) (w : lib.World)
      → IsMasked lib d
      → Kept (start_adb_bridge lib d port w)
  unfolding start_adb_bridge
  start_adb_bridge-Kept d port w v =
      match_option_lem Kept d.handle _ _ (λ e. record { kept = v })
        (λ h e.
          when_lem Kept _ _ _ (λ k. record { kept = v })
            (λ k.
              when_lem Kept _ _ _ (λ o. record { kept = record { mask_of = v.mask_of } })
                (λ o. record { kept = record { mask_of = v.mask_of } })))

  pub open_node-IsMasked :
      OpensNode lib
      → (d : Device lib) (p : Profile) (s : Option lib.Spec) (w : lib.World) → IsMasked lib d
      → IsMasked lib (open_node lib d p s w).1
  open_node-IsMasked opens d p s w v = (open_node-Kept opens d p s w v).kept

  pub start_adb_bridge-IsMasked :
      (d : Device lib) (port : ℕ) (w : lib.World)
      → IsMasked lib d
      → IsMasked lib (start_adb_bridge lib d port w).1
  start_adb_bridge-IsMasked d port w v = (start_adb_bridge-Kept d port w v).kept

  -- Starting the bridge leaves the mask.
  record SameMask (d : Device lib) (r : ℤ × Device lib × lib.World) : Type 0 where
    same_mask : (p : Profile) → r.1.profile_mask p ≡ d.profile_mask p

  start_adb_bridge-SameMask :
      (d : Device lib) (port : ℕ) (w : lib.World) → SameMask d (start_adb_bridge lib d port w)
  unfolding start_adb_bridge
  start_adb_bridge-SameMask d port w =
      match_option_lem (SameMask d) d.handle _ _ (λ e. record { same_mask = λ p. refl })
        (λ h e.
          when_lem (SameMask d) _ _ _ (λ k. record { same_mask = λ p. refl })
            (λ k.
              when_lem (SameMask d) _ _ _ (λ o. record { same_mask = λ p. refl })
                (λ o. record { same_mask = λ p. refl })))

  pub start_adb_bridge_mask :
      (d : Device lib) (port : ℕ) (w : lib.World) (p : Profile)
      → (start_adb_bridge lib d port w).1.profile_mask p ≡ d.profile_mask p
  start_adb_bridge_mask d port w = (start_adb_bridge-SameMask d port w).same_mask

  pub close_node-IsMasked :
      (d : Device lib) (p : Profile) (w : lib.World)
      → IsMasked lib d
      → IsMasked lib (close_node lib d p w).1
  close_node-IsMasked d p w v = (close_node-Kept d p w v).kept

  perform-IsMasked :
      OpensNode lib
      → (c : Call lib) (d : Device lib) (w : lib.World) → IsMasked lib d
      → IsMasked lib (perform c d w).0
  unfolding perform stop_adb_bridge move_device
  perform-IsMasked o (call_open c i) d w v = (open_device-Kept d c i w).kept
  perform-IsMasked o call_close d w v = close-IsMasked d w
  perform-IsMasked o (call_open_node p s) d w v = open_node-IsMasked o d p s w v
  perform-IsMasked o (call_close_node p) d w v = close_node-IsMasked d p w v
  perform-IsMasked o (call_start_bridge port) d w v = (start_adb_bridge-Kept d port w v).kept
  perform-IsMasked o call_stop_bridge d w v = record { mask_of = v.mask_of }
  perform-IsMasked o call_move d w v = v

  -- After any calls on a Device, profile_mask() has exactly the bits of the profiles that have a node.
  -- It holds before, and libaoahid gives a node with AOAHID_OK.
  pub perform_all-IsMasked :
      OpensNode lib
      → (cs : List (Call lib)) (d : Device lib) (w : lib.World) → IsMasked lib d
      → IsMasked lib (perform_all cs d w).0
  unfolding perform_all
  perform_all-IsMasked o [] d w v = v
  perform_all-IsMasked o (c ∷ cs) d w v =
      let next = perform c d w in
      perform_all-IsMasked o cs next.0 next.1 (perform-IsMasked o c d w v)
