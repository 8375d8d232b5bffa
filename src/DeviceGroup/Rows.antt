-- ===== src/DeviceGroup/Rows.antt =====
-- stylus_sample, mutate, broadcast, apply, scroll and toggle of src/device_group.cpp: one row, to every
-- active device that has its profile. broadcast_loop goes over the places of the slots; its tally is none
-- where the loop returns AOAHID_ERR_BUSY.
use aoahid_player.Aoahid.{
  Aoahid, AoahidResult, ok, err_busy, err_param, err_overflow, err_unsupported, same_result,
}
use aoahid_player.Base.Int.{ℤ, pos, negsuc, ltb_ℤ}
use aoahid_player.Base.{
  ℕ, ◌+◌, ◌-◌, ◌%◌, ◌^◌, Bool, true, false, not, ◌&&◌, ◌||◌, Option, none, some, List, [], ◌∷◌,
  ◌++◌, length, get_elem?, ltb, ◌==◌, if◌then◌else◌, when◌then◌else◌, match_option,
}
use aoahid_player.Context.{explain_error}
use aoahid_player.DeviceGroup.{Slot, DeviceGroup, Group, places, put_slot, fail}
use aoahid_player.Event.{
  EventPayload, StylusSample, Profile, mouse, toggle, touch_event, mouse_move, mouse_button,
  key_event, gamepad_button, gamepad_axis, gamepad_dpad, pen_sample, digitizer_sample, media_key,
  profile_of,
}
use aoahid_player.Scale.{Space, same_space, scale_coordinate}
use aoahid_player.Setup.{only, union}
use aoahid_player.Text.{Bytes, codes}

-- A position in one space, carried to the surface of a device unless they are the same.
unfoldable pub to_surface : Space → Space → ℤ × ℤ → ℤ × ℤ
unfolding scale_coordinate
to_surface space surface at =
    if ltb_ℤ (pos 0) space.width && not (same_space space surface)
    then (
      scale_coordinate at.0 space.width surface.width,
      scale_coordinate at.1 space.height surface.height,
    )
    else at

unfoldable pub stylus_sample : StylusSample → Space → Space → StylusSample
unfolding to_surface
stylus_sample value space surface =
    let at = to_surface space surface (value.x, value.y) in record value { x = at.0; y = at.1 }

-- static_cast<uint32_t> of a signed value.
unfoldable pub to_u32 : ℤ → ℕ
to_u32 (pos n) = n % 2 ^ 32
to_u32 (negsuc n) = 2 ^ 32 - 1 - n % 2 ^ 32

-- The record of a loop of broadcast; a refused device is told by its place.
pub record Tally : Type 0 where
  pub present : Bool
  pub applied : Bool
  pub refused : List ℕ
  pub refusal : AoahidResult

abbrev pub no_tally : Tally
no_tally = record { present = false; applied = false; refused = []; refusal = ok }

abbrev pub is_empty {ℓ} : {A : Type ℓ} → List A → Bool
is_empty [] = true
is_empty (x ∷ xs) = false

module _ (lib : Aoahid) where
  -- What one device is asked to do with its node of the profile.
  abbrev pub Mutation : Type 0
  Mutation = Slot lib → lib.Node → lib.World → AoahidResult × lib.World

  unfoldable pub mutate : EventPayload → Space → Mutation
  unfolding stylus_sample to_surface to_u32
  mutate (touch_event e) space s node w =
      let at = to_surface space s.touch_space (e.x, e.y) in
      lib.touchscreen_contact node (to_u32 e.finger_id) e.state at.0 at.1 w
  mutate (mouse_move e) space s node w = lib.mouse_move node e.dx e.dy w
  mutate (mouse_button e) space s node w = lib.mouse_button node e.button e.pressed w
  mutate (key_event e) space s node w = lib.keyboard_key node e.usage e.down w
  mutate (gamepad_button e) space s node w = lib.gamepad_button node e.button e.pressed w
  mutate (gamepad_axis e) space s node w = lib.gamepad_axis node e.axis_index e.value w
  mutate (gamepad_dpad e) space s node w = lib.gamepad_dpad node e.up e.down e.right e.left w
  mutate (media_key e) space s node w = lib.toggle_usage node e.usage e.down w
  mutate (pen_sample e) space s node w = lib.pen_update node (stylus_sample e space s.pen_space) w
  mutate (digitizer_sample e) space s node w =
      lib.digitizer_update node (stylus_sample e space s.digitizer_space) w

  -- The places that fit in `refused`.
  abbrev pub refused_max : ℕ
  refused_max = 16

  -- What broadcast's loop does with the result of one device.
  unfoldable pub take_result :
      Bool → ℕ → AoahidResult → Tally → Group lib → Option Tally × Group lib
  unfolding same_result fail
  take_result windows i result t g =
      let seen = record t { present = true } in
      when same_result result ok
      then (some (record seen { applied = true }), g)
      else when same_result result err_busy
      then (when t.applied then (some seen, g) else (none, g))
      else when same_result result err_param || same_result result err_overflow
      then (
        some (record seen {
          refused = if ltb (length t.refused) refused_max then t.refused ++ i ∷ [] else t.refused;
          refusal = result;
        }),
        g,
      )
      else (some seen, fail lib windows i result g)

  -- One round of broadcast's loop.
  unfoldable pub broadcast_step :
      Bool → Profile → Mutation → ℕ → Tally → Group lib → Option Tally × Group lib
  unfolding take_result
  broadcast_step windows profile mutate_one i t (g, w) =
      let skip : Option Tally × Group lib = (some t, (g, w)) in
      match_option (get_elem? g.slots i) skip (λ s.
        when s.active
        then match_option (s.device.nodes profile) skip
            (λ node. let done = mutate_one s node w in take_result windows i done.0 t (g, done.1))
        else skip)

  unfoldable pub broadcast_loop :
      Bool → Profile → Mutation → List ℕ → Tally → Group lib → Option Tally × Group lib
  unfolding broadcast_step
  broadcast_loop windows profile mutate_one [] t g = (some t, g)
  broadcast_loop windows profile mutate_one (i ∷ rest) t g =
      let stepped = broadcast_step windows profile mutate_one i t g in
      match_option stepped.0 (none, stepped.1)
        (λ u. broadcast_loop windows profile mutate_one rest u stepped.1)

  -- bump of the slots that refused the row.
  unfoldable pub bump_skipped : List ℕ → DeviceGroup lib → DeviceGroup lib
  bump_skipped [] g = g
  bump_skipped (i ∷ rest) g = bump_skipped rest (
      match_option (get_elem? g.slots i) g
        (λ s. put_slot lib i (record s { skipped = s.skipped + 1 }) g))

  abbrev label_of : Option (Slot lib) → Bytes
  label_of none = []
  label_of (some s) = s.label

  -- rejected_rows_ and rejection_detail_.
  unfoldable pub note_rejection :
      Bool → List ℕ → AoahidResult → DeviceGroup lib → lib.World → DeviceGroup lib
  unfolding explain_error
  note_rejection windows [] refusal g w = g
  note_rejection windows (i ∷ rest) refusal g w = record g {
    rejected_rows = g.rejected_rows + 1;
    rejection_detail = elim (g.rejection_detail) [
      | [] ↦ label_of (get_elem? g.slots i) ++ codes ": " ++ explain_error lib windows refusal w
      | c ∷ cs ↦ c ∷ cs
    ];
  }

  -- What follows the loop.
  unfoldable pub close_tally : Bool → Profile → Tally → Group lib → AoahidResult × Group lib
  unfolding bump_skipped note_rejection
  close_tally windows profile t (g, w) =
      let noted = note_rejection windows t.refused t.refusal (bump_skipped t.refused g) w in
      when t.applied
      then (ok, (record noted { dirty_mask = union noted.dirty_mask (only profile) }, w))
      else when not t.present
      then (err_unsupported, (noted, w))
      else when is_empty t.refused
      then (ok, (noted, w))
      else (err_param, (noted, w))

  unfoldable pub broadcast : Bool → Profile → Mutation → Group lib → AoahidResult × Group lib
  unfolding broadcast_loop close_tally
  broadcast windows profile mutate_one g =
      let looped =
        broadcast_loop windows profile mutate_one (places 0 (length (g.0.slots))) no_tally g in
      match_option looped.0 (err_busy, looped.1) (λ t. close_tally windows profile t looped.1)

  unfoldable pub apply : Bool → EventPayload → Space → Group lib → AoahidResult × Group lib
  unfolding broadcast mutate
  apply windows payload space g = broadcast windows (profile_of payload) (mutate payload space) g

  unfoldable pub scroll : Bool → ℤ → Group lib → AoahidResult × Group lib
  unfolding broadcast
  scroll windows wheel g =
      broadcast windows mouse (λ s node w. lib.mouse_scroll node wheel (pos 0) w) g

  unfoldable pub toggle_row : Bool → ℕ → ℕ → Group lib → AoahidResult × Group lib
  unfolding broadcast
  toggle_row windows usage value g =
      broadcast windows toggle (λ s node w. lib.toggle_usage node usage (not (value == 0)) w) g
