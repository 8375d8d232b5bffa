-- ===== src/Player/Run/Kept.antt =====
-- What every turn of the player of src/player.cpp keeps: the state that it tracks, its batch, and that nothing is
-- held while it holds a pause or has ended.
use aoahid_player.Base.Int.{ℤ}
use aoahid_player.Base.{
  ◌≡◌, refl, sym, subst, ◌∙◌, Bool, true, false, List, [], ◌∷◌, when_lem, no_clash, ◌≢◌,
  when◌then◌else◌,
}
use aoahid_player.Event.Control.{Control}
use aoahid_player.Event.{EventPayload}
use aoahid_player.InputState.Apply.{IsValid, apply_all-IsValid, cleared-IsValid}
use aoahid_player.InputState.Held.{held}
use aoahid_player.InputState.{InputState, cleared, apply_all}
use aoahid_player.Player.Controls.{Requests}
use aoahid_player.Player.Laps.{Clock, Playback, PlaybackPosition, publish, jump, finish_lap}
use aoahid_player.Player.Run.Able.{IsAble, flush_now-IsAble, execute-IsAble, settle-IsAble}
use aoahid_player.Player.Run.{
  Run, Moment, Phase, turning, waiting, holding, ended, Outcome, proceed, jumped, stop, holds,
  retime, jump_to, hold, serve, service, without_requests, end_run, play, take_turn, follow,
  main_turn,
}
use aoahid_player.Player.Settled.{
  TakesOnly, AllFit, Keeps, TakesRows, SettleFits, flush_now_ready, settle-held,
}
use aoahid_player.Player.{RowGroup, Player, flush_now, settle}

-- The player holds a pause, or its run has ended.
abbrev pub IsResting : Phase → Type 0
IsResting turning = ⊥
IsResting (waiting t) = ⊥
IsResting holding = Unit
IsResting ended = Unit

not_held : (b : Bool) → (when b then jumped else proceed) ≡ holds → ⊥
unfolding when◌then◌else◌
not_held true h = absurd cc
not_held false h = absurd cc

module _ (rows : RowGroup) (clock : Clock) (Ready : rows.State → Type 0)
    (Fitting : EventPayload → Type 0) where
  -- From every state that fitting rows lead to, the rows that release what it holds fit.
  abbrev pub ReleasesFit : Type 0
  ReleasesFit =
      (es : List EventPayload)
      → AllFit Fitting es
      → SettleFits Fitting (apply_all cleared es) cleared

  -- What the pump does in moments does not leave the ready states.
  abbrev pub PumpsKeep : List (Moment rows clock) → Type 0
  PumpsKeep [] = Unit
  PumpsKeep (m ∷ ms) = ((g : rows.State) → Ready g → Ready (m.pump g)) × PumpsKeep ms

  -- Nothing is held, where the group takes fitting rows, and those that release what they hold fit.
  abbrev pub IsFree : Player rows → Type 0
  IsFree p =
      TakesRows rows Ready Fitting → ReleasesFit → (c : Control) → held p.live c ≡ held cleared c

  -- A run in a turn.
  pub record IsActive (r : Run rows clock) : Type 0 where
    pub playing : IsAble rows Ready Fitting r.playback.player
    pub awake : r.holding_pause ≡ false
    pub working : IsResting r.phase → ⊥

  -- A run between two turns.
  pub record IsKept (r : Run rows clock) : Type 0 where
    pub still_playing : IsAble rows Ready Fitting r.playback.player
    pub released : IsResting r.phase → IsFree r.playback.player
    pub told : r.holding_pause ≡ true → r.phase ≡ holding

  -- A result of service.
  pub record IsServed (s : Outcome × Run rows clock) : Type 0 where
    pub served : s.0 ≢ holds → IsActive s.1
    pub rests : s.0 ≡ holds → IsKept s.1

module _ (rows : RowGroup) (clock : Clock) (Ready : rows.State → Type 0)
    (Fitting : EventPayload → Type 0) (keep : Keeps rows Ready)
    (only : TakesOnly rows Ready Fitting) where
  let_go-IsAble :
      (p : Player rows)
      → IsAble rows Ready Fitting p
      → IsAble rows Ready Fitting (settle rows cleared (flush_now rows p))
  let_go-IsAble p v =
      settle-IsAble rows Ready Fitting keep only cleared _
        (flush_now-IsAble rows Ready Fitting keep only p v)

  let_go-IsFree :
      (p : Player rows)
      → IsAble rows Ready Fitting p
      → IsFree rows clock Ready Fitting (settle rows cleared (flush_now rows p))
  unfolding flush_now
  let_go-IsFree p v k fits c =
      let valid =
        subst IsValid (sym v.plays.tracked)
          (apply_all-IsValid cleared p.observed cleared-IsValid) in
      let released =
        subst (λ (t : InputState). SettleFits Fitting t cleared) (sym v.plays.tracked)
          (fits p.observed v.rows_fit) in
      settle-held rows Ready Fitting keep k cleared (flush_now rows p) c
        (flush_now_ready rows Ready keep p v.able) released valid cleared-IsValid

  pub jump_to-IsActive :
      (at : PlaybackPosition) (now : ℤ) (r : Run rows clock)
      → IsActive rows clock Ready Fitting r
      → IsActive rows clock Ready Fitting (jump_to rows clock at now r)
  unfolding jump_to jump publish
  jump_to-IsActive at now r v = record {
    playing =
        settle-IsAble rows Ready Fitting keep only _ _
          (flush_now-IsAble rows Ready Fitting keep only _ v.playing);
    awake = v.awake;
    working = v.working;
  }

  retime-IsActive :
      (now : ℤ) (r : Run rows clock)
      → IsActive rows clock Ready Fitting r
      → IsActive rows clock Ready Fitting (retime rows clock now r)
  unfolding retime publish
  retime-IsActive now r v = record { playing = v.playing; awake = v.awake; working = v.working }

  hold-IsKept :
      (at : PlaybackPosition) (r : Run rows clock)
      → IsActive rows clock Ready Fitting r
      → IsKept rows clock Ready Fitting (hold rows clock at r)
  unfolding hold publish
  hold-IsKept at r v = record {
    still_playing = let_go-IsAble _ v.playing;
    released = λ e. let_go-IsFree _ v.playing;
    told = λ e. refl;
  }

  pub end_run-IsKept :
      (r : Run rows clock)
      → IsAble rows Ready Fitting r.playback.player
      → IsKept rows clock Ready Fitting (end_run rows clock r)
  unfolding end_run publish
  end_run-IsKept r v =
      let p = let_go-IsAble _ v in
      record {
        still_playing = record {
          plays = record { tracked = p.plays.tracked; batch = p.plays.batch };
          able = p.able;
          rows_fit = p.rows_fit;
        };
        released = λ e. let_go-IsFree _ v;
        told = λ e. absurd cc;
      }

  -- A run in a turn, where it goes on.
  pub goes_on :
      (r : Run rows clock) → IsActive rows clock Ready Fitting r → IsKept rows clock Ready Fitting r
  goes_on r v = record {
    still_playing = v.playing;
    released = λ e. absurd (v.working e);
    told = λ e. absurd (no_clash (sym e ∙ v.awake));
  }

  serve-IsServed :
      (pending : Requests) (now : ℤ) (r : Run rows clock)
      → IsActive rows clock Ready Fitting r
      → IsServed rows clock Ready Fitting (serve rows clock pending now r)
  unfolding serve
  serve-IsServed pending now r v =
      let timed =
        when_lem (IsActive rows clock Ready Fitting) pending.retime _ r
          (λ e. retime-IsActive now r v) (λ e. v) in
      let sought =
        when_lem (IsActive rows clock Ready Fitting) pending.seek _ _
          (λ e. jump_to-IsActive _ now _ timed) (λ e. timed) in
      when_lem (IsServed rows clock Ready Fitting) _ _ _
        (λ e. record { served = λ n. absurd (n refl); rests = λ h. hold-IsKept _ _ sought })
        (λ e. record { served = λ n. sought; rests = λ h. absurd (not_held pending.seek h) })

  pub service-IsServed :
      (now : ℤ) (r : Run rows clock)
      → IsActive rows clock Ready Fitting r
      → IsServed rows clock Ready Fitting (service rows clock now r)
  unfolding service
  service-IsServed now r v =
      let w : IsActive rows clock Ready Fitting (without_requests rows clock r) = record {
        playing = v.playing;
        awake = v.awake;
        working = v.working;
      } in
      when_lem (IsServed rows clock Ready Fitting) r.controls.requests.stop _ _
        (λ e. record { served = λ n. w; rests = λ h. absurd cc })
        (λ e. serve-IsServed r.controls.requests now _ w)

  pub follow-IsKept :
      (here : Run rows clock → Run rows clock)
      → ((r : Run rows clock)
          → IsActive rows clock Ready Fitting r
          → IsKept rows clock Ready Fitting (here r))
      → (s : Outcome × Run rows clock) → IsServed rows clock Ready Fitting s
      → IsKept rows clock Ready Fitting (follow rows clock here s)
  unfolding follow
  follow-IsKept here k (proceed, r) v = k r (v.served cc)
  follow-IsKept here k (jumped, r) v =
      let w = v.served cc in
      goes_on (record r { phase = turning })
        (record { playing = w.playing; awake = w.awake; working = λ e. e })
  follow-IsKept here k (stop, r) v = end_run-IsKept r (v.served cc).playing
  follow-IsKept here k (holds, r) v = v.rests refl

  -- The end of a lap keeps the player but for its batch.
  record IsLapped (s : Bool × Playback rows clock) : Type 0 where
    lapped : IsAble rows Ready Fitting s.1.player

  finish_lap-IsLapped :
      (p : Playback rows clock)
      → IsAble rows Ready Fitting p.player
      → IsLapped (finish_lap rows clock p)
  unfolding finish_lap
  finish_lap-IsLapped p v =
      let f : IsAble rows Ready Fitting (flush_now rows p.player) =
        flush_now-IsAble rows Ready Fitting keep only p.player v in
      when_lem IsLapped _ _ _ (λ e. record { lapped = f })
        (λ e. when_lem IsLapped _ _ _ (λ l. record { lapped = f }) (λ l. record { lapped = f }))

  pub play-IsKept :
      (r : Run rows clock)
      → IsActive rows clock Ready Fitting r
      → IsKept rows clock Ready Fitting (play rows clock r)
  unfolding play
  play-IsKept r v =
      let l =
        finish_lap-IsLapped (record (r.playback) { loop_limit = r.controls.loop_limit })
          v.playing in
      when_lem (IsKept rows clock Ready Fitting) r.playback.walk.done _ _
        (λ e.
          when_lem (IsKept rows clock Ready Fitting) _ _ _
            (λ f. goes_on _ (record { playing = l.lapped; awake = v.awake; working = λ h. h }))
            (λ f. end_run-IsKept _ l.lapped))
        (λ e. goes_on _ (record {
          playing = execute-IsAble rows Ready Fitting keep only _ _ v.playing;
          awake = v.awake;
          working = λ h. h;
        }))

  take_turn-IsKept :
      (now : ℤ) (r : Run rows clock)
      → IsActive rows clock Ready Fitting r
      → IsKept rows clock Ready Fitting (take_turn rows clock now r)
  unfolding take_turn
  take_turn-IsKept now r v =
      let w = v.playing in
      let told : IsAble rows Ready Fitting _ =
        when_lem (IsAble rows Ready Fitting) r.playback.player.has_sink _ _
          (λ e. record {
            plays = record { tracked = w.plays.tracked; batch = w.plays.batch };
            able = w.able;
            rows_fit = w.rows_fit;
          })
          (λ e. w) in
      when_lem (IsKept rows clock Ready Fitting) _ _ _ (λ e. end_run-IsKept _ told)
        (λ e.
          when_lem (IsKept rows clock Ready Fitting) _ _ _ (λ t. end_run-IsKept _ w)
            (λ t.
              when_lem (IsKept rows clock Ready Fitting) _ _ _
                (λ d. goes_on _ (record {
                  playing = flush_now-IsAble rows Ready Fitting keep only _ w;
                  awake = v.awake;
                  working = λ h. h;
                }))
                (λ d. play-IsKept r v)))

  pub main_turn-IsKept :
      (m : Moment rows clock) (r : Run rows clock)
      → IsActive rows clock Ready Fitting r
      → IsKept rows clock Ready Fitting (main_turn rows clock m r)
  unfolding main_turn
  main_turn-IsKept m r v =
      when_lem (IsKept rows clock Ready Fitting) _ _ _
        (λ e. follow-IsKept _ (take_turn-IsKept m.now) _ (service-IsServed m.now r v))
        (λ e. take_turn-IsKept m.now r v)
