-- ===== src/DeviceGroup/Flushed/Reports.antt =====
-- A flush of src/device_group.cpp that no device fails: its inner loops. The child Total is about the whole.
pub mod Total
use aoahid_player.Aoahid.{Aoahid, AoahidResult, ok, same_result}
use aoahid_player.Base.{
  no_clash, ◌≡◌, refl, sym, ap, subst, ◌∙◌, ℕ, zero, suc, ◌+◌, Bool, true, false, ◌&&◌, ◌||◌,
  Option, none, some, List, [], ◌∷◌, ◌++◌, length, get_elem?, set, map, if◌then◌else◌, arith,
  when_lem, match_option_lem, Bool-cases, inl, inr,
}
use aoahid_player.Device.{Device, has, is_some}
use aoahid_player.DeviceGroup.Flush.{
  on_node, node_loop, each_slot, submit_slot, drain_slot, flush, is_dirty, drain_deadline_ms,
}
use aoahid_player.DeviceGroup.{Slot, DeviceGroup, Group, put_slot, places}
use aoahid_player.Event.{Profile}
use aoahid_player.Setup.{Mask, no_profiles, all_profiles}

-- A call on a node that always succeeds.
abbrev pub Succeeds : (lib : Aoahid) → (lib.Node → lib.World → AoahidResult × lib.World) → Type 0
Succeeds lib call = (n : lib.Node) (w : lib.World) → (call n w).0 ≡ ok

-- No report fails.
pub record SendsAll (lib : Aoahid) : Type 0 where
  pub submits : (n : lib.Node) (t : ℕ) (w : lib.World) → (lib.node_submit n t w).0 ≡ ok
  pub drains : (n : lib.Node) (t : ℕ) (w : lib.World) → (lib.node_submit_blocking n t w).0 ≡ ok

module _ (lib : Aoahid) where
  -- The device has a node for one of the profiles of a mask.
  abbrev pub has_any : Device lib → Mask → List Profile → Bool
  has_any d mask [] = false
  has_any d mask (p ∷ ps) = (mask p && has lib d p) || has_any d mask ps

  -- The slot after a flush of the profiles of a mask.
  abbrev pub reported : Mask → Slot lib → Slot lib
  reported mask s =
      if s.active && has_any s.device mask all_profiles
      then record s { reports = s.reports + 1 }
      else s

  pub ok_ok : same_result ok ok ≡ true
  unfolding same_result
  ok_ok = refl

  pub record IsSent (sent : Bool) (r : AoahidResult × Bool × lib.World) : Type 0 where
    pub no_failure : r.0 ≡ ok
    pub was_sent : r.1 ≡ sent

  -- A round of an inner loop asks the node, if the profile is flushed and has one.
  record IsRound (asked : Bool) (r : Option AoahidResult × lib.World) : Type 0 where
    no_call : r.0 ≡ none → asked ≡ false
    a_call : (x : AoahidResult) → r.0 ≡ some x → (x ≡ ok) × (asked ≡ true)

  on_node-IsRound :
      (call : lib.Node → lib.World → AoahidResult × lib.World)
      → Succeeds lib call
      → (d : Device lib) (m : Mask) (p : Profile) (w : lib.World)
      → IsRound (m p && has lib d p) (on_node lib call d m p w)
  unfolding on_node
  on_node-IsRound call k d m p w =
      let b = m p && has lib d p in
      when_lem (IsRound b) (m p) _ _
        (λ e.
          match_option_lem (IsRound b) (d.nodes p) _ _
            (λ n. record {
              no_call = λ q. and_eq (m p) (has lib d p) false (ap is_some n);
              a_call = λ x q. absurd cc;
            })
            (λ node n. record {
              no_call = λ q. absurd cc;
              a_call = λ x q.
                  let same : (call node w).0 ≡ x = cc in
                  (sym same ∙ k node w, both (m p) (has lib d p) e (ap is_some n));
            }))
        (λ e. record { no_call = λ q. ap (λ c. c && has lib d p) e; a_call = λ x q. absurd cc })
    where
      and_eq : (a b c : Bool) → b ≡ false → (a && b) ≡ false
      and_eq a b c e = ground arith

      both : (a b : Bool) → a ≡ true → b ≡ true → (a && b) ≡ true
      both a b e f = ground arith

  retold : (a b : Bool) (r : AoahidResult × Bool × lib.World) → a ≡ b → IsSent a r → IsSent b r
  retold a b r e v = record { no_failure = v.no_failure; was_sent = v.was_sent ∙ e }

  pub node_loop-IsSent :
      (call : lib.Node → lib.World → AoahidResult × lib.World)
      → Succeeds lib call
      → (d : Device lib) (m : Mask) (ps : List Profile) (sent : Bool) (w : lib.World)
      → IsSent (sent || has_any d m ps) (node_loop lib call d m ps sent w)
  unfolding node_loop
  node_loop-IsSent call k d m [] sent w = record { no_failure = refl; was_sent = or_no sent }
    where
      or_no : (b : Bool) → b ≡ (b || false)
      or_no b = ground arith
  node_loop-IsSent call k d m (p ∷ ps) sent w =
      let b = m p && has lib d p in
      let rest = has_any d m ps in
      let done = on_node-IsRound call k d m p w in
      match_option_lem (IsSent (sent || (b || rest))) _ _ _
        (λ n.
          retold (sent || rest) _ _ (skip sent b rest (done.no_call n))
            (node_loop-IsSent call k d m ps sent _))
        (λ x n.
          let called = done.a_call x n in
          when_lem (IsSent (sent || (b || rest))) _ _ _
            (λ o.
              retold true _ _ (taken sent b rest called.1) (node_loop-IsSent call k d m ps true _))
            (λ o. record { no_failure = called.0; was_sent = absurd (refused x called.0 o) }))
    where
      skip : (s b r : Bool) → b ≡ false → (s || r) ≡ (s || (b || r))
      skip s b r e = ground arith

      taken : (s b r : Bool) → b ≡ true → true ≡ (s || (b || r))
      taken s b r e = ground arith

      refused : (x : AoahidResult) → x ≡ ok → ¬ (same_result x ok ≡ false)
      refused x e f = no_clash (sym (ap (λ y. same_result y ok) e ∙ ok_ok) ∙ f)
