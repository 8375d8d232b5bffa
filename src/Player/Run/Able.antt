-- ===== src/Player/Run/Able.antt =====
-- The player of src/player.cpp over a group whose ready states rows and flushes do not leave: it stays on them, and
-- the rows that it was told fit.
use aoahid_player.Aoahid.{AoahidResult, ok, same_result}
use aoahid_player.Base.{◌≡◌, refl, sym, subst, true, List, [], ◌∷◌, ◌++◌, when_lem}
use aoahid_player.Event.{EventPayload, EventRecord}
use aoahid_player.InputState.Transition.{transition}
use aoahid_player.InputState.{InputState, cleared}
use aoahid_player.Player.Batches.{
  IsPlaying, flush_now-IsPlaying, execute-IsPlaying, settle-IsPlaying,
}
use aoahid_player.Player.Settled.{Keeps, TakesOnly, AllFit, send-IsSentReady, flush_now_ready}
use aoahid_player.Player.{
  RowGroup, Player, flush_now, accept, send, send_all, settle, report_skip, stage, execute,
}

-- The group and the rows told are those of another player.
record IsSamePlay (rows : RowGroup) (p q : Player rows) : Type 0 where
  same_group : q.group ≡ p.group
  same_told : q.observed ≡ p.observed

module _ (rows : RowGroup) where
  report_skip-IsSamePlay :
      (r : AoahidResult) (payload : EventPayload) (p : Player rows)
      → IsSamePlay rows p (report_skip rows r payload p)
  unfolding report_skip
  report_skip-IsSamePlay r payload p =
      let P = IsSamePlay rows p in
      let v : P p = record { same_group = refl; same_told = refl } in
      when_lem P _ _ _ (λ a. v)
        (λ a.
          when_lem P _ _ _
            (λ b. when_lem P _ _ _ (λ c. v) (λ c. record { same_group = refl; same_told = refl }))
            (λ b. when_lem P _ _ _ (λ c. record { same_group = refl; same_told = refl }) (λ c. v)))

  stage-IsSamePlay :
      (payload : EventPayload) (r : AoahidResult × Player rows)
      → IsSamePlay rows r.1 (stage rows payload r)
  unfolding stage
  stage-IsSamePlay payload r =
      let P = IsSamePlay rows r.1 in
      when_lem P _ _ _
        (λ a.
          when_lem P _ _ _ (λ b. record { same_group = refl; same_told = refl })
            (λ b. record { same_group = refl; same_told = refl }))
        (λ a. report_skip-IsSamePlay r.0 payload r.1)

module _ (rows : RowGroup) (Ready : rows.State → Type 0) (keep : Keeps rows Ready) where
  -- The group of a player is ready.
  pub record HasReady (p : Player rows) : Type 0 where
    pub is_ready : Ready p.group

  pub execute-HasReady :
      (row : EventRecord) (p : Player rows) → Ready p.group → HasReady (execute rows row p)
  unfolding execute
  execute-HasReady row p e =
      let before =
        when_lem HasReady _ _ _ (λ c. record { is_ready = flush_now_ready rows Ready keep p e })
          (λ c. record { is_ready = e }) in
      let sent = send-IsSentReady rows Ready keep row.payload _ before.is_ready in
      record {
        is_ready =
            subst Ready (sym (stage-IsSamePlay rows row.payload _).same_group) sent.sent_ready;
      }

AllFit-append :
    (Fitting : EventPayload → Type 0) (es : List EventPayload) (e : EventPayload)
    → AllFit Fitting es
    → Fitting e
    → AllFit Fitting (es ++ e ∷ [])
AllFit-append Fitting [] e v f = (f, _)
AllFit-append Fitting (x ∷ es) e v f = (v.0, AllFit-append Fitting es e v.1 f)

module _ (rows : RowGroup) (Ready : rows.State → Type 0) (Fitting : EventPayload → Type 0) where
  -- The group of a player is ready, and the rows that it was told fit.
  record IsFit (p : Player rows) : Type 0 where
    fit_ready : Ready p.group
    told_fit : AllFit Fitting p.observed

  -- The player keeps its state right, on a ready group, and the rows that it was told fit.
  pub record IsAble (p : Player rows) : Type 0 where
    pub plays : IsPlaying rows cleared p
    pub able : Ready p.group
    pub rows_fit : AllFit Fitting p.observed

  -- The same of a result.
  record IsSentFit (r : AoahidResult × Player rows) : Type 0 where
    sent_fit : IsFit r.1

module _ (rows : RowGroup) (Ready : rows.State → Type 0) (Fitting : EventPayload → Type 0)
    (keep : Keeps rows Ready) (only : TakesOnly rows Ready Fitting) where
  accept-IsSentFit :
      (payload : EventPayload) (r : AoahidResult) (p : Player rows)
      → (same_result r ok ≡ true → Fitting payload)
      → IsFit rows Ready Fitting p
      → IsSentFit rows Ready Fitting (accept rows payload r p)
  unfolding accept
  accept-IsSentFit payload r p f v =
      when_lem (IsSentFit rows Ready Fitting) _ _ _
        (λ a. record {
          sent_fit = record {
            fit_ready = v.fit_ready;
            told_fit = AllFit-append Fitting p.observed payload v.told_fit (f a);
          };
        })
        (λ a. record { sent_fit = v })

  send-IsSentFit :
      (payload : EventPayload) (p : Player rows)
      → IsFit rows Ready Fitting p
      → IsSentFit rows Ready Fitting (send rows payload p)
  unfolding send flush_now
  send-IsSentFit payload p v =
      let tried = keep.stays payload p.space p.group v.fit_ready in
      let flushed = keep.flush_stays _ tried in
      when_lem (IsSentFit rows Ready Fitting) _ _ _
        (λ e.
          accept-IsSentFit payload _ _ (only.fitting payload _ _ flushed)
            (record { fit_ready = keep.stays payload _ _ flushed; told_fit = v.told_fit }))
        (λ e.
          accept-IsSentFit payload _ _ (only.fitting payload _ _ v.fit_ready)
            (record { fit_ready = tried; told_fit = v.told_fit }))

  send_all-IsFit :
      (es : List EventPayload) (p : Player rows)
      → IsFit rows Ready Fitting p
      → IsFit rows Ready Fitting (send_all rows es p)
  unfolding send_all
  send_all-IsFit [] p v = v
  send_all-IsFit (e ∷ es) p v = send_all-IsFit es _ (send-IsSentFit e p v).sent_fit

  flush_now-IsFit :
      (p : Player rows) → IsFit rows Ready Fitting p → IsFit rows Ready Fitting (flush_now rows p)
  unfolding flush_now
  flush_now-IsFit p v = record {
    fit_ready = keep.flush_stays p.group v.fit_ready;
    told_fit = v.told_fit;
  }

  settle-IsFit :
      (target : InputState) (p : Player rows)
      → IsFit rows Ready Fitting p
      → IsFit rows Ready Fitting (settle rows target p)
  unfolding settle
  settle-IsFit target p v =
      let r = transition p.live target in
      let flushed = flush_now rows p in
      let released = send_all rows r.releases flushed in
      when_lem (IsFit rows Ready Fitting) _ _ _ (λ e. v)
        (λ e. flush_now-IsFit (send_all rows r.presses (flush_now rows released)) (
          send_all-IsFit r.presses (flush_now rows released)
            (flush_now-IsFit released (send_all-IsFit r.releases flushed (flush_now-IsFit p v)))))

  execute-IsFit :
      (row : EventRecord) (p : Player rows)
      → IsFit rows Ready Fitting p
      → IsFit rows Ready Fitting (execute rows row p)
  unfolding execute
  execute-IsFit row p v =
      let before = when_lem (IsFit rows Ready Fitting) _ _ _ (λ c. flush_now-IsFit p v) (λ c. v) in
      let sent = (send-IsSentFit row.payload _ before).sent_fit in
      let same = stage-IsSamePlay rows row.payload _ in
      record {
        fit_ready = subst Ready (sym same.same_group) sent.fit_ready;
        told_fit = subst (AllFit Fitting) (sym same.same_told) sent.told_fit;
      }

  IsAble-IsFit : {p : Player rows} → IsAble rows Ready Fitting p → IsFit rows Ready Fitting p
  IsAble-IsFit v = record { fit_ready = v.able; told_fit = v.rows_fit }

  pub execute-IsAble :
      (row : EventRecord) (p : Player rows)
      → IsAble rows Ready Fitting p
      → IsAble rows Ready Fitting (execute rows row p)
  execute-IsAble row p v =
      let fit = execute-IsFit row p (IsAble-IsFit v) in
      record {
        plays = execute-IsPlaying rows cleared row p v.plays;
        able = fit.fit_ready;
        rows_fit = fit.told_fit;
      }

  pub flush_now-IsAble :
      (p : Player rows) → IsAble rows Ready Fitting p → IsAble rows Ready Fitting (flush_now rows p)
  flush_now-IsAble p v =
      let fit = flush_now-IsFit p (IsAble-IsFit v) in
      record {
        plays = flush_now-IsPlaying rows cleared p v.plays;
        able = fit.fit_ready;
        rows_fit = fit.told_fit;
      }

  pub settle-IsAble :
      (target : InputState) (p : Player rows)
      → IsAble rows Ready Fitting p
      → IsAble rows Ready Fitting (settle rows target p)
  settle-IsAble target p v =
      let fit = settle-IsFit target p (IsAble-IsFit v) in
      record {
        plays = settle-IsPlaying rows cleared target p v.plays;
        able = fit.fit_ready;
        rows_fit = fit.told_fit;
      }
