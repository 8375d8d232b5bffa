-- ===== src/Player/Settled.antt =====
-- settle of src/player.cpp, over a device group that takes rows: the devices end in the state that is asked for.
use aoahid_player.Aoahid.{AoahidResult, ok, err_busy, same_result, same_ok}
use aoahid_player.Base.{
  ◌≡◌, refl, sym, ap, ◌∙◌, Bool, true, false, ◌&&◌, List, [], ◌∷◌, ◌==◌, when_lem, no_clash, arith,
}
use aoahid_player.DeviceGroup.Rows.{is_empty}
use aoahid_player.Event.Control.{Control}
use aoahid_player.Event.{EventPayload}
use aoahid_player.InputState.Apply.{IsValid}
use aoahid_player.InputState.Held.{held}
use aoahid_player.InputState.Transition.Target.{transition-held}
use aoahid_player.InputState.Transition.{transition}
use aoahid_player.InputState.{InputState, apply_all}
use aoahid_player.Player.{RowGroup, Player, flush_now, accept, send, send_all, settle}
use aoahid_player.Scale.{Space}

-- States of a group that rows and flushes do not leave, whatever they answer.
pub record Keeps (rows : RowGroup) (Ready : rows.State → Type 0) : Type 0 where
  pub stays :
      (payload : EventPayload) (space : Space) (g : rows.State)
      → Ready g
      → Ready (rows.apply_row payload space g).1
  pub flush_stays : (g : rows.State) → Ready g → Ready (rows.flush_rows g).1

-- In its ready states the group has an active device, and it takes the fitting rows: at once, or, where it
-- answers BUSY, after a flush.
pub record TakesRows (rows : RowGroup) (Ready : rows.State → Type 0)
    (Fitting : EventPayload → Type 0) : Type 0 where
  pub takes :
      (payload : EventPayload) (space : Space) (g : rows.State)
      → Ready g
      → Fitting payload
      → same_result (rows.apply_row payload space g).0 err_busy ≡ false
      → (rows.apply_row payload space g).0 ≡ ok
  pub retakes :
      (payload : EventPayload) (space : Space) (g : rows.State)
      → Ready g
      → Fitting payload
      → same_result (rows.apply_row payload space g).0 err_busy ≡ true
      → (rows.apply_row payload space (rows.flush_rows (rows.apply_row payload space g).1).1).0 ≡ ok
  pub has_device : (g : rows.State) → Ready g → (rows.active_of g == 0) ≡ false

-- In its ready states the group takes no other rows.
pub record TakesOnly (rows : RowGroup) (Ready : rows.State → Type 0)
    (Fitting : EventPayload → Type 0) : Type 0 where
  pub fitting :
      (payload : EventPayload) (space : Space) (g : rows.State)
      → Ready g
      → same_result (rows.apply_row payload space g).0 ok ≡ true
      → Fitting payload

-- Every row of a list fits.
abbrev pub AllFit : (EventPayload → Type 0) → List EventPayload → Type 0
AllFit Fitting [] = Unit
AllFit Fitting (e ∷ es) = Fitting e × AllFit Fitting es

-- The rows of settle fit.
pub record SettleFits (Fitting : EventPayload → Type 0) (live target : InputState) : Type 0 where
  pub releases_fit : AllFit Fitting (transition live target).releases
  pub presses_fit : AllFit Fitting (transition live target).presses

module _ (rows : RowGroup) (Ready : rows.State → Type 0) (keep : Keeps rows Ready) where
  -- The group of a result is ready.
  pub record IsSentReady (r : AoahidResult × Player rows) : Type 0 where
    pub sent_ready : Ready r.1.group

  accept-IsSentReady :
      (payload : EventPayload) (r : AoahidResult) (p : Player rows)
      → Ready p.group
      → IsSentReady (accept rows payload r p)
  unfolding accept
  accept-IsSentReady payload r p v =
      when_lem IsSentReady _ _ _ (λ t. record { sent_ready = v }) (λ f. record { sent_ready = v })

  pub send-IsSentReady :
      (payload : EventPayload) (p : Player rows) → Ready p.group → IsSentReady (send rows payload p)
  unfolding send flush_now
  send-IsSentReady payload p v =
      when_lem IsSentReady _ _ _
        (λ e.
          accept-IsSentReady payload _ _
            (keep.stays payload _ _ (keep.flush_stays _ (keep.stays payload _ _ v))))
        (λ e. accept-IsSentReady payload _ _ (keep.stays payload _ _ v))

  pub send_all_ready :
      (es : List EventPayload) (p : Player rows) → Ready p.group → Ready (send_all rows es p).group
  unfolding send_all
  send_all_ready [] p v = v
  send_all_ready (e ∷ es) p v = send_all_ready es _ (send-IsSentReady e p v).sent_ready

  pub flush_now_ready : (p : Player rows) → Ready p.group → Ready (flush_now rows p).group
  unfolding flush_now
  flush_now_ready p v = keep.flush_stays p.group v

  -- The group of a player is ready.
  record IsReadyNow (p : Player rows) : Type 0 where
    ready_now : Ready p.group

  settle-IsReadyNow :
      (target : InputState) (p : Player rows) → Ready p.group → IsReadyNow (settle rows target p)
  unfolding settle
  settle-IsReadyNow target p v =
      let r = transition p.live target in
      when_lem IsReadyNow _ _ _ (λ e. record { ready_now = v })
        (λ e. record {
          ready_now =
              let flushed = flush_now rows p in
              let released = send_all rows r.releases flushed in
              let pressed = send_all rows r.presses (flush_now rows released) in
              flush_now_ready pressed (
                send_all_ready r.presses (flush_now rows released) (
                  flush_now_ready released
                    (send_all_ready r.releases flushed (flush_now_ready p v))));
        })

  pub settle_ready :
      (target : InputState) (p : Player rows) → Ready p.group → Ready (settle rows target p).group
  settle_ready target p v = (settle-IsReadyNow target p v).ready_now

module _ (rows : RowGroup) (Ready : rows.State → Type 0) (Fitting : EventPayload → Type 0)
    (keep : Keeps rows Ready) (k : TakesRows rows Ready Fitting) where
  -- The tracked state of a result.
  record IsTracked (s : InputState) (r : AoahidResult × Player rows) : Type 0 where
    tracks : r.1.live ≡ s

  accept-IsTracked :
      (payload : EventPayload) (r : AoahidResult) (p : Player rows)
      → r ≡ ok
      → IsTracked (aoahid_player.InputState.apply p.live payload) (accept rows payload r p)
  unfolding accept
  accept-IsTracked payload r p e =
      when_lem (IsTracked (aoahid_player.InputState.apply p.live payload)) _ _ _
        (λ t. record { tracks = refl }) (λ f. absurd (no_clash (sym (same_ok e) ∙ f)))

  send-IsTracked :
      (payload : EventPayload) (p : Player rows)
      → Ready p.group
      → Fitting payload
      → IsTracked (aoahid_player.InputState.apply p.live payload) (send rows payload p)
  unfolding send flush_now
  send-IsTracked payload p v f =
      when_lem (IsTracked (aoahid_player.InputState.apply p.live payload)) _ _ _
        (λ e. accept-IsTracked payload _ _ (k.retakes payload _ _ v f e))
        (λ e. accept-IsTracked payload _ _ (k.takes payload _ _ v f e))

  send_all_live :
      (es : List EventPayload) (p : Player rows)
      → Ready p.group
      → AllFit Fitting es
      → (send_all rows es p).live ≡ apply_all p.live es
  unfolding send_all apply_all
  send_all_live [] p v f = refl
  send_all_live (e ∷ es) p v f =
      send_all_live es (send rows e p).1 (send-IsSentReady rows Ready keep e p v).sent_ready f.1
      ∙ ap (λ s. apply_all s es) (send-IsTracked e p v f.0).tracks

  -- The state of a player gives every control what a target holds.
  record IsSettled (target : InputState) (p : Player rows) : Type 0 where
    settled : (c : Control) → held p.live c ≡ held target c

  nothing_to_send : (es : List EventPayload) → is_empty es ≡ true → es ≡ []
  nothing_to_send [] e = refl
  nothing_to_send (x ∷ es) e = absurd cc

  settle-IsSettled :
      (target : InputState) (p : Player rows)
      → Ready p.group
      → SettleFits Fitting p.live target
      → IsValid p.live
      → IsValid target
      → IsSettled target (settle rows target p)
  unfolding settle flush_now apply_all
  settle-IsSettled target p ready fits v w =
      let r = transition p.live target in
      let reached = λ (c : Control). transition-held p.live target c v w in
      when_lem (IsSettled target) (is_empty r.releases && is_empty r.presses) _ _
        (λ e. record {
          settled = λ c.
              let none_released = nothing_to_send r.releases (first_true _ _ e) in
              let none_pressed = nothing_to_send r.presses (second_true _ _ e) in
              ap (λ (es : List EventPayload). held (apply_all p.live es) c) (sym none_released)
              ∙ ap (λ (es : List EventPayload). held (apply_all (apply_all p.live r.releases) es) c)
                  (sym none_pressed)
              ∙ reached c;
        })
        (λ e. record {
          settled = λ c.
              let flushed = flush_now_ready rows Ready keep p ready in
              let sent = send_all_ready rows Ready keep r.releases (flush_now rows p) flushed in
              let released =
                send_all_live r.releases (flush_now rows p) flushed fits.releases_fit in
              let pressed =
                send_all_live r.presses
                  (flush_now rows (send_all rows r.releases (flush_now rows p)))
                  (flush_now_ready rows Ready keep (send_all rows r.releases (flush_now rows p))
                    sent)
                  fits.presses_fit in
              ap (λ (s : InputState). held s c)
                (pressed ∙ ap (λ (s : InputState). apply_all s r.presses) released)
              ∙ reached c;
        })
    where
      first_true : (a b : Bool) → (a && b) ≡ true → a ≡ true
      first_true a b e = ground arith

      second_true : (a b : Bool) → (a && b) ≡ true → b ≡ true
      second_true a b e = ground arith

  pub settle-held :
      (target : InputState) (p : Player rows) (c : Control)
      → Ready p.group
      → SettleFits Fitting p.live target
      → IsValid p.live
      → IsValid target
      → held (settle rows target p).live c ≡ held target c
  settle-held target p c ready fits v w = (settle-IsSettled target p ready fits v w).settled c
