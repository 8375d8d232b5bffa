-- ===== src/Player/Devices.antt =====
-- The device group of src/device_group.cpp as the group of the player of src/player.cpp, where libaoahid takes
-- and sends what it is asked to: the states in which active devices have nodes for the profiles of a mask.
use aoahid_player.Aoahid.{Aoahid, AoahidResult, ok, err_busy, same_result}
use aoahid_player.Base.{◌≡◌, sym, ap, ◌∙◌, inl, inr, Bool-cases, Bool, true, false, ◌==◌, no_clash}
use aoahid_player.DeviceGroup.Broadcast.Contract.{unsupported_iff, broadcast-IsAnswered}
use aoahid_player.DeviceGroup.Broadcast.{reaches}
use aoahid_player.DeviceGroup.Counts.Kept.{broadcast-Counted}
use aoahid_player.DeviceGroup.Counts.Kept.Send.{flush-Counted}
use aoahid_player.DeviceGroup.Counts.{IsCounted}
use aoahid_player.DeviceGroup.Flushed.Reports.{SendsAll}
use aoahid_player.DeviceGroup.Rows.{apply, mutate}
use aoahid_player.DeviceGroup.{Slot, Group}
use aoahid_player.Event.{EventPayload, Profile, profile_of}
use aoahid_player.Player.Settled.{Keeps, TakesOnly, TakesRows}
use aoahid_player.Player.{device_rows}
use aoahid_player.Scale.{Space}
use aoahid_player.Setup.{Mask}
use aoahid_player.DeviceGroup.Taken.{
  IsFineEnd, broadcast-IsFineEnd, reaches-flush, active_somewhere,
}

-- A library that takes every call of mutate on a node, and sends every report.
pub record TakesAll (lib : Aoahid) : Type 0 where
  pub takes_row :
      (payload : EventPayload) (space : Space) (s : Slot lib) (n : lib.Node) (w : lib.World)
      → (mutate lib payload space s n w).0 ≡ ok
  pub sends : SendsAll lib

-- The counts of the group are right, and active devices have nodes for exactly the profiles of the mask.
pub record HasNodes (lib : Aoahid) (wanted : Mask) (g : Group lib) : Type 0 where
  pub counted : IsCounted lib g.0
  pub nodes : (p : Profile) → reaches lib p (g.0.slots) ≡ wanted p

-- The profile of a row is in the mask.
abbrev pub IsWanted : Mask → EventPayload → Type 0
IsWanted wanted e = wanted (profile_of e) ≡ true

module _ (lib : Aoahid) (windows : Bool) (wanted : Mask) (taking : TakesAll lib) where
  apply-IsFineEnd :
      (e : EventPayload) (space : Space) (g : Group lib)
      → IsFineEnd lib windows (g.0) (apply lib windows e space g)
  unfolding apply
  apply-IsFineEnd e space g =
      broadcast-IsFineEnd lib windows (profile_of e) (mutate lib e space) (taking.takes_row e space)
        g

  apply-IsCounted :
      (e : EventPayload) (space : Space) (g : Group lib)
      → IsCounted lib g.0
      → IsCounted lib (apply lib windows e space g).1.0
  unfolding apply
  apply-IsCounted e space g v = (broadcast-Counted lib windows _ _ g v).result_counted

  apply-ok :
      (e : EventPayload) (space : Space) (g : Group lib)
      → HasNodes lib wanted g
      → IsWanted wanted e
      → (apply lib windows e space g).0 ≡ ok
  unfolding apply
  apply-ok e space g v w = elim ((apply-IsFineEnd e space g).answered) [
    | inl a ↦ a
    | inr a ↦
        let p = profile_of e in
        absurd (
          no_clash (
            sym (v.nodes p ∙ w)
            ∙ (unsupported_iff lib p g _ _
                  (broadcast-IsAnswered lib windows p (mutate lib e space) g).answer).0
                a))
  ]

  -- Where libaoahid takes every row and sends every report, neither rows nor flushes change which profiles the
  -- active devices have nodes for.
  pub device_rows-Keeps : Keeps (device_rows lib windows) (HasNodes lib wanted)
  device_rows-Keeps = record {
    stays = λ e space g v. record {
      counted = apply-IsCounted e space g v.counted;
      nodes = λ p. ap (reaches lib p) (apply-IsFineEnd e space g).same_slots ∙ v.nodes p;
    };
    flush_stays = λ g v. record {
      counted = (flush-Counted lib windows g v.counted).result_counted;
      nodes = λ p. reaches-flush lib windows taking.sends g p ∙ v.nodes p;
    };
  }

  -- There a device group takes every row of a profile that some active device has a node for.
  pub device_rows-TakesRows :
      (p : Profile)
      → wanted p ≡ true
      → TakesRows (device_rows lib windows) (HasNodes lib wanted) (IsWanted wanted)
  unfolding same_result
  device_rows-TakesRows p w = record {
    takes = λ e space g v f b. apply-ok e space g v f;
    retakes = λ e space g v f b. absurd (no_clash (sym b ∙ not_busy (apply-ok e space g v f)));
    has_device = λ g v.
        ap (λ n. n == 0) v.counted.count
        ∙ active_somewhere lib windows p (g.0.slots) (v.nodes p ∙ w);
  }
    where
      not_busy : {r : AoahidResult} → r ≡ ok → same_result r err_busy ≡ false
      not_busy e = ap (λ r. same_result r err_busy) e

  -- And it takes no other rows.
  pub device_rows-TakesOnly :
      TakesOnly (device_rows lib windows) (HasNodes lib wanted) (IsWanted wanted)
  unfolding same_result apply
  device_rows-TakesOnly = record {
    fitting = λ e space g v t.
        let p = profile_of e in
        elim (Bool-cases (wanted p)) [
          | inl w ↦ w
          | inr w ↦
              let refused =
                (unsupported_iff lib p g _ _
                    (broadcast-IsAnswered lib windows p (mutate lib e space) g).answer).1
                  (v.nodes p ∙ w) in
              absurd (no_clash (sym t ∙ ap (λ r. same_result r ok) refused))
        ];
  }
