-- ===== src/DeviceGroup/Flush.antt =====
-- DeviceGroup::flush of src/device_group.cpp: every dirty node is submitted on every active device, and
-- then drained.
use aoahid_player.Aoahid.{Aoahid, AoahidResult, ok, same_result}
use aoahid_player.Base.{
  ℕ, ◌+◌, Bool, true, false, ◌||◌, Option, none, some, List, [], ◌∷◌, length, get_elem?,
  when◌then◌else◌, match_option,
}
use aoahid_player.Context.{send_ms}
use aoahid_player.Device.{Device}
use aoahid_player.DeviceGroup.{Group, places, put_slot, fail}
use aoahid_player.Event.{Profile}
use aoahid_player.Setup.{Mask, no_profiles, all_profiles}

-- DeviceGroup::drain_deadline_ms
abbrev pub drain_deadline_ms : ℕ
drain_deadline_ms = 500

-- Whether a mask has a bit.
abbrev pub any_profile : Mask → List Profile → Bool
any_profile mask [] = false
any_profile mask (p ∷ ps) = mask p || any_profile mask ps

abbrev pub is_dirty : Mask → Bool
is_dirty mask = any_profile mask all_profiles

module _ (lib : Aoahid) where
  -- One round of an inner loop: the call on the node of a flushed profile, or nothing and none.
  unfoldable pub on_node :
      (lib.Node → lib.World → AoahidResult × lib.World)
      → Device lib
      → Mask
      → Profile
      → lib.World
      → Option AoahidResult × lib.World
  on_node call device flushed profile w =
      let skip : Option AoahidResult × lib.World = (none, w) in
      when flushed profile
      then match_option (device.nodes profile) skip
          (λ node. let done = call node w in (some done.0, done.1))
      else skip

  -- An inner loop, which ends at the first failure: `failure`, `sent` and the world.
  unfoldable pub node_loop :
      (lib.Node → lib.World → AoahidResult × lib.World)
      → Device lib
      → Mask
      → List Profile
      → Bool
      → lib.World
      → AoahidResult × Bool × lib.World
  unfolding on_node same_result
  node_loop call device flushed [] sent w = (ok, sent, w)
  node_loop call device flushed (profile ∷ rest) sent w =
      let done = on_node call device flushed profile w in
      match_option done.0 (node_loop call device flushed rest sent done.1) (λ result.
        when same_result result ok
        then node_loop call device flushed rest true done.1
        else (result, sent, done.1))

  -- The body of the first loop over the slots.
  unfoldable pub submit_slot : Bool → Mask → ℕ → Group lib → Group lib
  unfolding node_loop fail
  submit_slot windows flushed i (g, w) =
      match_option (get_elem? g.slots i) (g, w)
        (λ s.
          let call = λ (node : lib.Node). lib.node_submit node send_ms in
          let done = node_loop call s.device flushed all_profiles false w in
          when s.active
          then (when same_result done.0 ok
              then (g, done.2)
              else fail lib windows i done.0 (g, done.2))
          else (g, w))

  -- The body of the second loop.
  unfoldable pub drain_slot : Bool → Mask → ℕ → Group lib → Group lib
  unfolding node_loop fail
  drain_slot windows flushed i (g, w) =
      match_option (get_elem? g.slots i) (g, w)
        (λ s.
          let call = λ (node : lib.Node). lib.node_submit_blocking node drain_deadline_ms in
          let done = node_loop call s.device flushed all_profiles false w in
          when s.active
          then (when same_result done.0 ok
              then (when done.1
                  then (put_slot lib i (record s { reports = s.reports + 1 }) g, done.2)
                  else (g, done.2))
              else fail lib windows i done.0 (g, done.2))
          else (g, w))

  -- A loop over the slots.
  unfoldable pub each_slot : (ℕ → Group lib → Group lib) → List ℕ → Group lib → Group lib
  each_slot body [] g = g
  each_slot body (i ∷ rest) g = each_slot body rest (body i g)

  unfoldable pub flush : Bool → Group lib → Bool × Group lib
  unfolding each_slot submit_slot drain_slot
  flush windows (g, w) =
      let flushed = g.dirty_mask in
      let all = places 0 (length g.slots) in
      let taken : Group lib = (record g { dirty_mask = no_profiles }, w) in
      let submitted = each_slot (submit_slot windows flushed) all taken in
      when is_dirty flushed
      then (true, each_slot (drain_slot windows flushed) all submitted)
      else (false, (g, w))
