-- ===== src/DeviceGroup/Reconfigure.antt =====
-- open_profiles, DeviceGroup::reconfigure and DeviceGroup::send_battery_levels of
-- src/device_group.cpp. A place of SIZE_MAX, which stands for every device, is none.
use aoahid_player.Aoahid.{Aoahid, AoahidResult, ok, err_stall, same_result}
use aoahid_player.Base.Int.{ℤ, eqb_ℤ}
use aoahid_player.Base.{
  ℕ, zero, suc, ◌+◌, Bool, false, not, ◌&&◌, ◌||◌, Option, none, some, List, [], ◌∷◌, ◌++◌, length,
  get_elem?, ◌==◌, if◌then◌else◌, when◌then◌else◌, match_option, match_sum,
}
use aoahid_player.Context.{explain_error}
use aoahid_player.Device.Names.{describe_profiles}
use aoahid_player.Device.{Device, has, open_node, close_node, set_at}
use aoahid_player.DeviceGroup.Flush.{flush, drain_deadline_ms, each_slot}
use aoahid_player.DeviceGroup.{
  Slot, Group, places, put_slot, fail, i32_min, set_surfaces, refresh_mask,
}
use aoahid_player.Event.{Profile}
use aoahid_player.Setup.Specs.{build_spec}
use aoahid_player.Setup.Validate.{validate_profile}
use aoahid_player.Setup.{
  ProfileSetup, Mask, no_profiles, union, only, all_profiles, profile_enabled, set_profile_enabled,
  same_node, battery_of, resolve_pen_surface,
}
use aoahid_player.Text.{Bytes, codes}

-- The state of the loop of open_profiles.
pub record Opening (lib : Aoahid) : Type 0 where
  pub device : Device lib
  pub setup : ProfileSetup
  pub error : Bytes
  pub opened : Mask
  pub world : lib.World

-- A reason, behind those before it.
abbrev pub join_error : Bytes → Bytes → Bytes
join_error [] why = why
join_error (c ∷ cs) why = (c ∷ cs) ++ codes " " ++ why

module _ (lib : Aoahid) where
  -- The end of a round that could not register the profile.
  abbrev pub switch_off : Profile → Bytes → Opening lib → Opening lib
  switch_off profile why o = record o {
    setup = set_profile_enabled o.setup profile false;
    error = join_error o.error why;
  }

  -- A round for a profile that passed validation.
  unfoldable pub register_profile : Bool → Profile → Opening lib → Opening lib
  unfolding build_spec open_node describe_profiles explain_error set_profile_enabled
  register_profile windows profile o =
      let built = build_spec lib windows profile o.setup o.world in
      let at_world = λ (w : lib.World). record o { world = w } in
      match_sum built.0 (λ why. switch_off profile why (at_world built.1))
        (λ spec.
          let opened = open_node lib o.device profile spec built.1 in
          let released : lib.World = elim spec [
            | none ↦ opened.2
            | some s ↦ lib.spec_release s opened.2
          ] in
          let after : Opening lib = record o { device = opened.1; world = released } in
          when same_result opened.0 ok
          then record after { opened = union o.opened (only profile) }
          else switch_off profile
              (codes "Could not register the "
                ++ describe_profiles (only profile)
                ++ codes " on "
                ++ opened.1.label
                ++ codes ". "
                ++ explain_error lib windows opened.0 released)
              after)

  unfoldable pub open_profile : Bool → Profile → Opening lib → Opening lib
  unfolding register_profile validate_profile set_profile_enabled
  open_profile windows profile o =
      when not (profile_enabled o.setup profile) || has lib o.device profile
      then o
      else match_option (validate_profile o.setup profile) (register_profile windows profile o)
          (λ why. switch_off profile why o)

  -- The loop of open_profiles.
  unfoldable pub open_profiles : Bool → List Profile → Opening lib → Opening lib
  unfolding open_profile
  open_profiles windows [] o = o
  open_profiles windows (profile ∷ rest) o =
      open_profiles windows rest (open_profile windows profile o)

  -- The profile keeps its node: it is wanted, and would be registered the same way.
  abbrev pub stays : Slot lib → ProfileSetup → Profile → Bool
  unfolding same_node profile_enabled
  stays s wanted profile = profile_enabled wanted profile && same_node s.setup wanted profile

  -- The first loop of reconfigure, with the text of the first refusal.
  unfoldable pub check_wanted : Slot lib → ProfileSetup → List Profile → Option Bytes
  unfolding profile_enabled same_node validate_profile
  check_wanted s wanted [] = none
  check_wanted s wanted (profile ∷ rest) =
      let next = check_wanted s wanted rest in
      let kept = has lib s.device profile && same_node s.setup wanted profile in
      when profile_enabled wanted profile && not kept
      then match_option (validate_profile wanted profile) next (λ error. some error)
      else next

  -- The second loop: the slot and the world, and the profile and result of a node that could not be closed.
  unfoldable pub close_unwanted :
      ProfileSetup
      → List Profile
      → Slot lib
      → lib.World
      → Option (Profile × AoahidResult) × Slot lib × lib.World
  unfolding close_node
  close_unwanted wanted [] s w = (none, s, w)
  close_unwanted wanted (profile ∷ rest) s w =
      let closed = close_node lib s.device profile w in
      let next : Slot lib = record s {
        battery_sent = set_at s.battery_sent profile i32_min;
        device = closed.1;
      } in
      when not (has lib s.device profile) || stays s wanted profile
      then close_unwanted wanted rest s w
      else when same_result closed.0 ok
      then close_unwanted wanted rest next closed.2
      else (some (profile, closed.0), next, closed.2)

  -- The end of reconfigure, once the nodes that are not wanted are closed.
  unfoldable pub open_wanted :
      Bool → ℕ → ProfileSetup → Slot lib → Group lib → Mask × Bytes × Group lib
  unfolding open_profiles set_surfaces
  open_wanted windows i wanted s (g, w) =
      let o = open_profiles windows all_profiles (record {
        device = s.device;
        setup = wanted;
        error = [];
        opened = no_profiles;
        world = w;
      }) in
      let slot = set_surfaces lib (record s { device = o.device; setup = o.setup }) in
      let after = record slot { profiles = o.device.profile_mask } in
      (o.opened, o.error, (refresh_mask lib (put_slot lib i after g), o.world))

  -- reconfigure from the check on, for a slot that is active after the flush.
  unfoldable pub reconfigure_slot :
      Bool → ℕ → ProfileSetup → Slot lib → Group lib → Mask × Bytes × Group lib
  unfolding check_wanted close_unwanted open_wanted fail describe_profiles explain_error
  reconfigure_slot windows i wanted s (g, w) =
      match_option (check_wanted s wanted all_profiles)
        (let closed = close_unwanted wanted all_profiles s w in
          let after = put_slot lib i closed.1 g in
          match_option closed.0 (open_wanted windows i wanted closed.1 (after, closed.2))
            (λ refused.
              let failed = fail lib windows i refused.1 (after, closed.2) in
              (
                no_profiles,
                closed.1.label
                    ++ codes " was dropped: its "
                    ++ describe_profiles (only refused.0)
                    ++ codes " could not be unregistered. "
                    ++ explain_error lib windows refused.1 failed.1,
                failed,
              )))
        (λ error. (no_profiles, error, (g, w)))

  -- The profiles that were opened, the text of `error`, and the group.
  unfoldable pub reconfigure : Bool → ℕ → ProfileSetup → Group lib → Mask × Bytes × Group lib
  unfolding reconfigure_slot flush resolve_pen_surface
  reconfigure windows i wanted (g, w) =
      let absent : Mask × Bytes × Group lib =
        (no_profiles, codes "That device is not connected.", (g, w)) in
      let flushed = (flush lib windows (g, w)).1 in
      let dropped : Mask × Bytes × Group lib =
        (no_profiles, codes "That device was dropped.", flushed) in
      match_option (get_elem? g.slots i) absent (λ s.
        when s.active
        then match_option (get_elem? flushed.0.slots i) dropped (λ t.
          when t.active
          then reconfigure_slot windows i (resolve_pen_surface wanted) t flushed
          else dropped)
        else absent)

  -- The attempts at a battery report; `attempts` are those that are left after this one.
  unfoldable pub send_report : ℕ → lib.Node → lib.World → AoahidResult × lib.World
  unfolding same_result
  send_report zero node w = lib.node_submit_blocking node drain_deadline_ms w
  send_report (suc attempts) node w =
      let sent = lib.node_submit_blocking node drain_deadline_ms w in
      when same_result sent.0 err_stall
      then send_report attempts node (lib.sleep_ms 10 sent.1)
      else sent

  abbrev pub max_resends : ℕ
  max_resends = 19

  unfoldable pub send_level : lib.Node → ℤ → lib.World → AoahidResult × lib.World
  unfolding send_report
  send_level node level w =
      let updated = lib.battery_update node level w in
      when same_result updated.0 ok then send_report max_resends node updated.1 else updated

  -- The loop over the profiles of one device; it ends when the device fails.
  unfoldable pub send_levels : Bool → ℕ → List Profile → Group lib → Group lib
  unfolding send_level battery_of fail
  send_levels windows i [] g = g
  send_levels windows i (profile ∷ rest) (g, w) =
      let next = send_levels windows i rest in
      match_option (get_elem? g.slots i) (g, w)
        (λ s. match_option (s.device.nodes profile) (next (g, w)) (λ node.
          let battery = battery_of s.setup profile in
          let sent = send_level node battery.level w in
          let slot = record s {
            battery_sent = set_at s.battery_sent profile battery.level;
            reports = s.reports + 1;
          } in
          when not battery.enabled || eqb_ℤ (s.battery_sent profile) battery.level
          then next (g, w)
          else when same_result sent.0 ok
          then next (put_slot lib i slot g, sent.1)
          else fail lib windows i sent.0 (g, sent.1)))

  -- The body of the loop over the devices.
  unfoldable pub send_slot : Bool → Option ℕ → ℕ → Group lib → Group lib
  unfolding send_levels
  send_slot windows index i (g, w) =
      let other : Bool = elim index [ none ↦ false | some j ↦ not (i == j) ] in
      match_option (get_elem? g.slots i) (g, w)
        (λ s. when other || not s.active then (g, w) else send_levels windows i all_profiles (g, w))

  unfoldable pub send_battery_levels : Bool → Option ℕ → Group lib → Group lib
  unfolding flush send_slot each_slot
  send_battery_levels windows index g =
      let flushed = (flush lib windows g).1 in
      each_slot lib (send_slot windows index) (places 0 (length (flushed.0.slots))) flushed
