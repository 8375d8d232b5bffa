-- ===== src/Player.antt =====
-- Player of src/player.cpp, from a row to the devices: conflicts, flush_now, send, settle, report_skip and
-- execute. The device group is a record of the operations that the player calls. The observer's rows and
-- the sink's messages are kept in the order in which they are told.
pub mod Batches
pub mod Settled
pub mod Laps
pub mod Devices
pub mod Controls
pub mod Run
use aoahid_player.Aoahid.{
  Aoahid, AoahidResult, ok, err_busy, err_param, err_unsupported, same_result,
}
use aoahid_player.Base.{
  ℕ, ◌+◌, Bool, true, false, not, ◌&&◌, ◌||◌, List, [], ◌∷◌, ◌++◌, ◌==◌, when◌then◌else◌,
}
use aoahid_player.Device.Names.{describe_profiles}
use aoahid_player.DeviceGroup.Flush.{flush}
use aoahid_player.DeviceGroup.Rows.{is_empty}
use aoahid_player.DeviceGroup.{Group, DeviceStatus, snapshot}
use aoahid_player.Event.{EventPayload, EventRecord, batch_key, profile_of}
use aoahid_player.InputState.Transition.{transition}
use aoahid_player.InputState.{InputState}
use aoahid_player.Scale.{Space}
use aoahid_player.Setup.{Mask, only, union}
use aoahid_player.Text.{Bytes, codes}

-- What the player calls of DeviceGroup: apply, flush, rejection_detail, active_count, profile_mask and snapshot.
pub record RowGroup : Type 1 where
  pub State : Type 0
  pub apply_row : EventPayload → Space → State → AoahidResult × State
  pub flush_rows : State → Bool × State
  pub detail_of : State → Bytes
  pub active_of : State → ℕ
  pub mask_of : State → Mask
  pub snapshot_of : State → List DeviceStatus

-- The model of DeviceGroup.
abbrev pub device_rows : Aoahid → Bool → RowGroup
device_rows lib windows = record {
  State = Group lib;
  apply_row = aoahid_player.DeviceGroup.Rows.apply lib windows;
  flush_rows = flush lib windows;
  detail_of = λ g. g.0.rejection_detail;
  active_of = λ g. g.0.active_count;
  mask_of = λ g. g.0.profile_mask;
  snapshot_of = λ g. snapshot lib g.0;
}

pub record Player (rows : RowGroup) : Type 0 where
  pub group : rows.State
  pub space : Space
  pub live : InputState
  pub staged_keys : List ℕ
  pub reports : ℕ
  pub observed : List EventPayload
  pub has_sink : Bool
  pub messages : List Bytes
  pub warned_profiles : Mask
  pub rejection_reported : Bool

abbrev pub contains_key : List ℕ → ℕ → Bool
contains_key [] key = false
contains_key (k ∷ ks) key = k == key || contains_key ks key

module _ (rows : RowGroup) where
  unfoldable pub conflicts : Player rows → ℕ → Bool
  conflicts p key = not (key == 0) && contains_key p.staged_keys key

  unfoldable pub flush_now : Player rows → Player rows
  flush_now p =
      let flushed = rows.flush_rows p.group in
      record p {
        group = flushed.1;
        reports = when flushed.0 then p.reports + 1 else p.reports;
        staged_keys = [];
      }

  -- The end of send, with the last result of the group.
  unfoldable pub accept : EventPayload → AoahidResult → Player rows → AoahidResult × Player rows
  unfolding same_result
  accept payload result p =
      when same_result result ok
      then (
        result,
        record p {
          live = aoahid_player.InputState.apply p.live payload;
          observed = p.observed ++ payload ∷ [];
        },
      )
      else (result, p)

  unfoldable pub send : EventPayload → Player rows → AoahidResult × Player rows
  unfolding same_result flush_now accept
  send payload p =
      let first = rows.apply_row payload p.space p.group in
      let tried : Player rows = record p { group = first.1 } in
      let flushed = flush_now tried in
      let second = rows.apply_row payload p.space flushed.group in
      when same_result first.0 err_busy
      then accept payload second.0 (record flushed { group = second.1 })
      else accept payload first.0 tried

  -- A loop of settle, whose results are not read.
  unfoldable pub send_all : List EventPayload → Player rows → Player rows
  unfolding send
  send_all [] p = p
  send_all (payload ∷ rest) p = send_all rest (send payload p).1

  unfoldable pub settle : InputState → Player rows → Player rows
  unfolding transition flush_now send_all
  settle target p =
      let r = transition p.live target in
      let released = send_all r.releases (flush_now p) in
      when is_empty r.releases && is_empty r.presses
      then p
      else flush_now (send_all r.presses (flush_now released))

  unfoldable pub report_skip : AoahidResult → EventPayload → Player rows → Player rows
  unfolding same_result describe_profiles
  report_skip result payload p =
      let profile = profile_of payload in
      let said = record p {
        warned_profiles = union p.warned_profiles (only profile);
        messages =
            p.messages
            ++ (codes "The script uses the "
                ++ describe_profiles (only profile)
                ++ codes ", which is not connected; those rows are skipped.")
              ∷ [];
      } in
      let refused = record p {
        rejection_reported = true;
        messages =
            p.messages
            ++ (codes "A "
                ++ describe_profiles (only profile)
                ++ codes " row does not fit the connected settings and was skipped. "
                ++ rows.detail_of p.group)
              ∷ [];
      } in
      when not p.has_sink
      then p
      else when same_result result err_unsupported
      then (when p.warned_profiles profile then p else said)
      else when same_result result err_param && not p.rejection_reported
      then refused
      else p

  -- The end of execute.
  unfoldable pub stage : EventPayload → AoahidResult × Player rows → Player rows
  unfolding same_result report_skip
  stage payload r =
      let key = batch_key payload in
      let p = r.1 in
      when same_result r.0 ok
      then (when key == 0 then p else record p { staged_keys = p.staged_keys ++ key ∷ [] })
      else report_skip r.0 payload p

  unfoldable pub execute : EventRecord → Player rows → Player rows
  unfolding conflicts flush_now send stage
  execute row p =
      let payload = row.payload in
      stage payload (send payload (when conflicts p (batch_key payload) then flush_now p else p))
