-- ===== src/Player/Batches.antt =====
-- The batch that execute of src/player.cpp stages, and the state that the player tracks.
use aoahid_player.Aoahid.{AoahidResult}
use aoahid_player.Base.{
  ◌≡◌, refl, sym, ap, subst, ◌∙◌, ◌⊎◌, inl, inr, ℕ, Bool, false, not, ◌&&◌, ◌||◌, List, [], ◌∷◌,
  ◌++◌, ◌==◌, when_lem, arith,
}
use aoahid_player.Event.{EventPayload, EventRecord, batch_key}
use aoahid_player.InputState.Transition.{transition}
use aoahid_player.InputState.{InputState, apply_all}
use aoahid_player.Player.{
  RowGroup, Player, contains_key, conflicts, flush_now, accept, send, send_all, settle, report_skip,
  stage, execute,
}

-- No key is 0, and none is there twice.
abbrev pub IsBatch : List ℕ → Type 0
IsBatch [] = Unit
IsBatch (k ∷ ks) = ((k == 0) ≡ false) × (contains_key ks k ≡ false) × IsBatch ks

or_first : (a b : Bool) → (a || b) ≡ false → a ≡ false
or_first a b h = ground arith

or_second : (a b : Bool) → (a || b) ≡ false → b ≡ false
or_second a b h = ground arith

or_false : (a b : Bool) → a ≡ false → b ≡ false → (a || b) ≡ false
or_false a b h k = ground arith

flipped : (k key : ℕ) → (k == key) ≡ false → (key == k) ≡ false
flipped k key h = ground arith

contains_key-append :
    (ks : List ℕ) (key k : ℕ)
    → contains_key ks k ≡ false
    → (key == k) ≡ false
    → contains_key (ks ++ key ∷ []) k ≡ false
contains_key-append [] key k h e = ground arith
contains_key-append (x ∷ ks) key k h e =
    or_false (x == k) _ (or_first (x == k) _ h)
      (contains_key-append ks key k (or_second (x == k) _ h) e)

IsBatch-append :
    (ks : List ℕ) (key : ℕ)
    → IsBatch ks
    → contains_key ks key ≡ false
    → (key == 0) ≡ false
    → IsBatch (ks ++ key ∷ [])
IsBatch-append [] key b h e = (e, refl, _)
IsBatch-append (k ∷ ks) key b h e = (
  b.0,
  contains_key-append ks key k b.1 (flipped k key (or_first (k == key) _ h)),
  IsBatch-append ks key b.2 (or_second (k == key) _ h) e,
)

-- The state that the player tracks is that of the rows that the observer was told, and its batch is one.
pub record IsPlaying (rows : RowGroup) (base : InputState) (p : Player rows) : Type 0 where
  pub tracked : p.live ≡ apply_all base p.observed
  pub batch : IsBatch p.staged_keys

module _ (rows : RowGroup) (base : InputState) where
  apply_all-append :
      (s : InputState) (es : List EventPayload) (e : EventPayload)
      → apply_all s (es ++ e ∷ []) ≡ aoahid_player.InputState.apply (apply_all s es) e
  unfolding apply_all
  apply_all-append s [] e = refl
  apply_all-append s (x ∷ es) e = apply_all-append (aoahid_player.InputState.apply s x) es e

  -- A result of send, from a player with these staged keys.
  record IsSent (ks : List ℕ) (r : AoahidResult × Player rows) : Type 0 where
    sent_tracked : r.1.live ≡ apply_all base r.1.observed
    keys : (r.1.staged_keys ≡ ks) ⊎ (r.1.staged_keys ≡ [])

  accept-IsSent :
      (ks : List ℕ) (payload : EventPayload) (r : AoahidResult) (p : Player rows)
      → p.live ≡ apply_all base p.observed
      → (p.staged_keys ≡ ks) ⊎ (p.staged_keys ≡ [])
      → IsSent ks (accept rows payload r p)
  unfolding accept
  accept-IsSent ks payload r p t k =
      when_lem (IsSent ks) _ _ _
        (λ e. record {
          sent_tracked =
              ap (λ s. aoahid_player.InputState.apply s payload) t
              ∙ sym (apply_all-append base p.observed payload);
          keys = k;
        })
        (λ e. record { sent_tracked = t; keys = k })

  send-IsSent :
      (payload : EventPayload) (p : Player rows)
      → p.live ≡ apply_all base p.observed
      → IsSent p.staged_keys (send rows payload p)
  unfolding send flush_now
  send-IsSent payload p t =
      when_lem (IsSent p.staged_keys) _ _ _
        (λ e. accept-IsSent p.staged_keys payload _ _ t (inr refl))
        (λ e. accept-IsSent p.staged_keys payload _ _ t (inl refl))

  keys-IsBatch : (ks ls : List ℕ) → (ls ≡ ks) ⊎ (ls ≡ []) → IsBatch ks → IsBatch ls
  keys-IsBatch ks ls (inl e) b = subst IsBatch (sym e) b
  keys-IsBatch ks ls (inr e) b = subst IsBatch (sym e) _

  pub flush_now-IsPlaying :
      (p : Player rows) → IsPlaying rows base p → IsPlaying rows base (flush_now rows p)
  unfolding flush_now
  flush_now-IsPlaying p v = record { tracked = v.tracked; batch = _ }

  send_all-IsPlaying :
      (es : List EventPayload) (p : Player rows)
      → IsPlaying rows base p
      → IsPlaying rows base (send_all rows es p)
  unfolding send_all
  send_all-IsPlaying [] p v = v
  send_all-IsPlaying (e ∷ es) p v =
      let s = send-IsSent e p v.tracked in
      send_all-IsPlaying es _
        (record { tracked = s.sent_tracked; batch = keys-IsBatch p.staged_keys _ s.keys v.batch })

  pub settle-IsPlaying :
      (target : InputState) (p : Player rows)
      → IsPlaying rows base p
      → IsPlaying rows base (settle rows target p)
  unfolding settle
  settle-IsPlaying target p v =
      when_lem (IsPlaying rows base) _ _ _ (λ e. v)
        (λ e.
          let r = transition p.live target in
          let released =
            send_all-IsPlaying r.releases (flush_now rows p) (flush_now-IsPlaying p v) in
          flush_now-IsPlaying _ (send_all-IsPlaying r.presses _ (flush_now-IsPlaying _ released)))

  report_skip-IsPlaying :
      (r : AoahidResult) (payload : EventPayload) (p : Player rows)
      → IsPlaying rows base p
      → IsPlaying rows base (report_skip rows r payload p)
  unfolding report_skip
  report_skip-IsPlaying r payload p v =
      let P = IsPlaying rows base in
      when_lem P _ _ _ (λ e. v)
        (λ e.
          when_lem P _ _ _
            (λ u. when_lem P _ _ _ (λ w. v) (λ w. record { tracked = v.tracked; batch = v.batch }))
            (λ u. when_lem P _ _ _ (λ w. record { tracked = v.tracked; batch = v.batch }) (λ w. v)))

  -- The player before the row is sent: the row's key is not staged.
  record IsReady (key : ℕ) (p : Player rows) : Type 0 where
    ready : IsPlaying rows base p
    free : conflicts rows p key ≡ false

  stage-IsPlaying :
      (payload : EventPayload) (ks : List ℕ) (r : AoahidResult × Player rows)
      → IsSent ks r
      → IsBatch ks
      → (not (batch_key payload == 0) && contains_key ks (batch_key payload)) ≡ false
      → IsPlaying rows base (stage rows payload r)
  unfolding stage
  stage-IsPlaying payload ks r s b f =
      let v : IsPlaying rows base r.1 = record {
        tracked = s.sent_tracked;
        batch = keys-IsBatch ks _ s.keys b;
      } in
      when_lem (IsPlaying rows base) _ _ _
        (λ e.
          when_lem (IsPlaying rows base) _ _ _ (λ z. v)
            (λ z. record {
              tracked = v.tracked;
              batch = IsBatch-append _ (batch_key payload) v.batch (absent ks _ _ s.keys z f) z;
            }))
        (λ e. report_skip-IsPlaying r.0 payload r.1 v)
    where
      absent :
          (ks ls : List ℕ) (key : ℕ)
          → (ls ≡ ks) ⊎ (ls ≡ [])
          → (key == 0) ≡ false
          → (not (key == 0) && contains_key ks key) ≡ false
          → contains_key ls key ≡ false
      absent ks ls key (inl e) z f =
          ap (λ xs. contains_key xs key) e ∙ sym (ap (λ b. not b && contains_key ks key) z) ∙ f
      absent ks ls key (inr e) z f = ap (λ xs. contains_key xs key) e

  pub execute-IsPlaying :
      (row : EventRecord) (p : Player rows)
      → IsPlaying rows base p
      → IsPlaying rows base (execute rows row p)
  unfolding execute conflicts flush_now
  execute-IsPlaying row p v =
      let key = batch_key row.payload in
      let before =
        when_lem (IsReady key) (conflicts rows p key) (flush_now rows p) p
          (λ e. record { ready = flush_now-IsPlaying p v; free = nothing (not (key == 0)) })
          (λ e. record { ready = v; free = e }) in
      stage-IsPlaying row.payload _ _ (send-IsSent row.payload _ before.ready.tracked)
        before.ready.batch before.free
    where
      nothing : (b : Bool) → (b && false) ≡ false
      nothing b = ground arith
