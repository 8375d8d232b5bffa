-- ===== src/Player/Run/Plays/Ends.antt =====
-- The turn at the end of a lap in an undisturbed run of src/player.cpp: the next lap begins, or the run ends.
use mathlib.Core.List.{append_assoc, append-nil}
use aoahid_player.Aoahid.{AoahidResult}
use aoahid_player.Base.Int.{pos}
use aoahid_player.Base.{
  ℕ, ◌<◌, ◌≤◌, ◌^◌, ◌+◌, ◌-◌, ◌≡◌, refl, ap, sym, subst, ◌∙◌, inl, inr, Bool, true, false, not,
  ◌&&◌, ◌||◌, List, [], ◌∷◌, ◌++◌, ltb, leb, ◌==◌, arith, when_lem, no_clash, if◌then◌else◌,
  Bool-cases,
}
use aoahid_player.Event.{EventPayload}
use aoahid_player.InputState.Transition.{transition}
use aoahid_player.InputState.{cleared}
use aoahid_player.Laps.{runs_on}
use aoahid_player.Player.Controls.{any_request}
use aoahid_player.Player.Laps.Finished.{IsDecided, finish_lap-IsFinished}
use aoahid_player.Player.Laps.{Clock, Playback, finish_lap, begin_lap, publish}
use aoahid_player.Player.Run.Plays.Lap.{time_behind}
use aoahid_player.Player.Run.Plays.{turns, IsOnLap, no_stops}
use aoahid_player.Player.Run.{Run, Phase, turning, ended, play, end_run}
use aoahid_player.Player.Settled.{Keeps, flush_now_ready}
use aoahid_player.Player.{RowGroup, Player, flush_now, accept, send, settle, send_all}
use aoahid_player.Timeline.NextLap.{something_on}
use aoahid_player.Timeline.Plan.{plan, plan_over}
use aoahid_player.Timeline.Walk.{InStep, remaining, InStep-next}
use aoahid_player.Timeline.{EventScript, Segment, LapWalk, Fits, lap_length, start}

-- At the head of the loop of run, at the start of a lap.
pub record IsLapStart (rows : RowGroup) (clock : Clock) (Ready : rows.State → Type 0)
    (script : EventScript) (lap : ℕ) (told : List EventPayload) (r : Run rows clock) : Type 0 where
  pub phase_then : r.phase ≡ turning
  pub none_asked : any_request r.controls.requests ≡ false
  pub no_stop_at : r.controls.stop_at_ns ≡ pos 0
  pub limit_fits : r.controls.loop_limit < 2 ^ 63
  pub script_then : r.playback.script ≡ script
  pub idle : LapWalk
  pub walk_then : r.playback.walk ≡ start script lap idle
  pub cursor_then : r.playback.cursor ≡ pos 0
  pub told_then : r.playback.player.observed ≡ told
  pub ready_then : Ready r.playback.player.group

-- Behind a lap: the run has ended, with some further rows told, or a later lap begins, and no lap between them has
-- a row.
pub data IsLapOver (rows : RowGroup) (clock : Clock) (Ready : rows.State → Type 0)
    (script : EventScript) (lap : ℕ) (told : List EventPayload) (r : Run rows clock) : Type 0 where
  script_ends :
      (released : List EventPayload)
      → r.phase ≡ ended
      → r.playback.player.observed ≡ told ++ released
      → IsLapOver rows clock Ready script lap told r
  next_starts :
      (n : ℕ)
      → lap < n
      → ((m : ℕ) → lap < m → m < n → plan script m ≡ [])
      → IsLapStart rows clock Ready script n told r
      → IsLapOver rows clock Ready script lap told r

-- The turns at the end of a lap, where the thread waits for it or not.
abbrev pub last_turns : Bool → ℕ
last_turns early = if early then 2 else 1

-- The turns of a lap: those of its stops, and that of its end, before which the thread may wait.
abbrev pub lap_turns : EventScript → ℕ → ℕ
lap_turns script lap =
    turns 0 (plan script lap)
    + last_turns (ltb (time_behind 0 (plan script lap)) (lap_length script lap))

runs_empty :
    (lap b e : ℕ) (r t u rest : Bool)
    → 1 ≤ lap
    → r ≡ true
    → ((leb 1 lap && (((not (b == e) || t) && r) || u)) || rest) ≡ false
    → (e - b ≡ 0) × (rest ≡ false)
runs_empty lap b e r t u rest l x h = ground arith

second_false : (a b : Bool) → (a || b) ≡ false → b ≡ false
second_false a b h = ground arith

-- A lap with nothing on it has no stop.
nothing_planned :
    (script : EventScript) (lap time : ℕ) (ss : List Segment)
    → 1 ≤ lap
    → something_on false ss lap ≡ false
    → plan_over script.rows lap time ss ≡ []
nothing_planned script lap time [] l e = refl
nothing_planned script lap time (s ∷ ss) l e = elim (Bool-cases (runs_on s.when lap)) [
  | inl r ↦
      let both = runs_empty lap s.begin s.end (runs_on s.when lap) _ _ _ l r e in
      rw (r, both.0) (nothing_planned script lap (time + s.duration) ss l both.1)
  | inr r ↦ rw r (
      nothing_planned script lap (if s.when.keep_time then time + s.duration else time) ss l
        (second_false _ _ e))
]

module _ (rows : RowGroup) (clock : Clock) (Ready : rows.State → Type 0)
    (keep : Keeps rows Ready) where
  -- What a player was told, with further rows.
  record IsToldMore (told : List EventPayload) (p : Player rows) : Type 0 where
    more : List EventPayload
    tells_more : p.observed ≡ told ++ more

  -- The same of a result.
  record SendsMore (told : List EventPayload) (r : AoahidResult × Player rows) : Type 0 where
    sends_more : IsToldMore told r.1

  accept-IsToldMore :
      (payload : EventPayload) (r : AoahidResult) (p : Player rows) (told : List EventPayload)
      → p.observed ≡ told
      → SendsMore told (accept rows payload r p)
  unfolding accept
  accept-IsToldMore payload r p told e =
      when_lem (SendsMore told) _ _ _
        (λ a. record {
          sends_more = record { more = payload ∷ []; tells_more = ap (λ xs. xs ++ payload ∷ []) e };
        })
        (λ a. record { sends_more = record { more = []; tells_more = e ∙ sym (append-nil told) } })

  send-SendsMore :
      (payload : EventPayload) (p : Player rows) (told : List EventPayload)
      → p.observed ≡ told
      → SendsMore told (send rows payload p)
  unfolding send flush_now
  send-SendsMore payload p told e =
      when_lem (SendsMore told) _ _ _ (λ a. accept-IsToldMore payload _ _ told e)
        (λ a. accept-IsToldMore payload _ _ told e)

  send_all-IsToldMore :
      (es : List EventPayload) (p : Player rows) (told : List EventPayload)
      → IsToldMore told p
      → IsToldMore told (send_all rows es p)
  unfolding send_all
  send_all-IsToldMore [] p told v = v
  send_all-IsToldMore (e ∷ es) p told v =
      let sent = (send-SendsMore e p p.observed refl).sends_more in
      send_all-IsToldMore es _ told (record {
        more = v.more ++ sent.more;
        tells_more =
            sent.tells_more
            ∙ ap (λ xs. xs ++ sent.more) v.tells_more
            ∙ append_assoc told v.more sent.more;
      })

  let_go-tells :
      (p : Player rows) (told : List EventPayload)
      → p.observed ≡ told
      → IsToldMore told (settle rows cleared (flush_now rows p))
  unfolding settle flush_now
  let_go-tells p told e =
      let r = transition p.live cleared in
      let none_yet : IsToldMore told (flush_now rows p) = record {
        more = [];
        tells_more = e ∙ sym (append-nil told);
      } in
      when_lem (IsToldMore told) _ _ _
        (λ a. record { more = []; tells_more = e ∙ sym (append-nil told) })
        (λ a.
          let twice : IsToldMore told (flush_now rows (flush_now rows p)) = record {
            more = [];
            tells_more = e ∙ sym (append-nil told);
          } in
          let released = send_all-IsToldMore r.releases _ told twice in
          let pressed =
            send_all-IsToldMore r.presses
              (flush_now rows (send_all rows r.releases (flush_now rows (flush_now rows p)))) told
              (record { more = released.more; tells_more = released.tells_more }) in
          record { more = pressed.more; tells_more = pressed.tells_more })

  -- What the end of a lap leaves of the playback.
  record IsSame (p q : Playback rows clock) : Type 0 where
    same_script : q.script ≡ p.script
    same_told : q.player.observed ≡ p.player.observed
    still_ready : Ready p.player.group → Ready q.player.group

  record IsSameLap (p : Playback rows clock) (s : Bool × Playback rows clock) : Type 0 where
    same : IsSame p s.1

  finish_lap-IsSameLap : (p : Playback rows clock) → IsSameLap p (finish_lap rows clock p)
  unfolding finish_lap flush_now begin_lap publish
  finish_lap-IsSameLap p =
      when_lem (IsSameLap p) _ _ _
        (λ a. record {
          same = record {
            same_script = refl;
            same_told = refl;
            still_ready = λ v. flush_now_ready rows Ready keep p.player v;
          };
        })
        (λ a.
          when_lem (IsSameLap p) _ _ _
            (λ b. record {
              same = record {
                same_script = refl;
                same_told = refl;
                still_ready = λ v. flush_now_ready rows Ready keep p.player v;
              };
            })
            (λ b. record {
              same = record {
                same_script = refl;
                same_told = refl;
                still_ready = λ v. flush_now_ready rows Ready keep p.player v;
              };
            }))

  -- The lap that begins, where one does.
  record Begins (p q : Playback rows clock) : Type 0 where
    lap_next : ℕ
    later : p.walk.lap < lap_next
    nothing_between :
        (m : ℕ) → p.walk.lap < m → m < lap_next → something_on false p.script.segments m ≡ false
    walk_next : q.walk ≡ start p.script lap_next p.walk
    cursor_next : q.cursor ≡ pos 0

  begins :
      {p : Playback rows clock} {b : Bool} {q : Playback rows clock}
      → IsDecided rows clock p b q
      → b ≡ true
      → Begins p q
  begins (IsDecided.script_over q none c) e = absurd cc
  begins (IsDecided.limit_reached q l none c) e = absurd cc
  begins (IsDecided.next_begins q n l on between limit walk loops cursor) e = record {
    lap_next = n;
    later = l;
    nothing_between = between;
    walk_next = walk;
    cursor_next = cursor;
  }

  end_run-ends :
      (script : EventScript) (lap : ℕ) (told : List EventPayload) (r : Run rows clock)
      → r.playback.player.observed ≡ told
      → IsLapOver rows clock Ready script lap told (end_run rows clock r)
  unfolding end_run publish
  end_run-ends script lap told r e =
      let m = let_go-tells r.playback.player told e in script_ends m.more refl m.tells_more

  no_stop_left :
      (script : EventScript) (w : LapWalk)
      → InStep script w
      → remaining script w ≡ []
      → w.done ≡ true
  no_stop_left script w i e = elim (Bool-cases w.done) [
    | inl t ↦ t
    | inr f ↦ absurd (no_stops (sym e ∙ (InStep-next script w i f).1))
  ]

  -- The turn behind the last row of a lap.
  pub play-ends :
      (script : EventScript) (lap cursor : ℕ) (phase : Phase) (told : List EventPayload)
      (r : Run rows clock)
      → Fits script
      → 1 ≤ lap
      → lap < 2 ^ 63
      → IsOnLap rows clock Ready script lap phase cursor [] told r
      → IsLapOver rows clock Ready script lap told (play rows clock r)
  unfolding play
  play-ends script lap cursor phase told r f l h v =
      let p = record (r.playback) { loop_limit = r.controls.loop_limit } in
      let s = finish_lap rows clock p in
      let same = (finish_lap-IsSameLap p).same in
      let told' = same.same_told ∙ v.observed in
      let Q = IsLapOver rows clock Ready script lap told in
      let decided =
        (finish_lap-IsFinished rows clock p (subst Fits (sym v.steady.same_script) f)
          (omega (arith, v.steady.on_lap)) v.steady.limited).decided in
      when_lem Q r.playback.walk.done _ _
        (λ a.
          when_lem Q s.0 _ _
            (λ b.
              let n = begins decided b in
              next_starts n.lap_next (omega (arith, v.steady.on_lap, n.later))
                (λ m x y. nothing_planned script m 0 script.segments (omega arith) (
                  ap (λ (g : EventScript). something_on false g.segments m)
                    (sym v.steady.same_script)
                  ∙ n.nothing_between m (omega (arith, v.steady.on_lap)) y))
                (record {
                  phase_then = refl;
                  none_asked = v.steady.quiet;
                  no_stop_at = v.steady.unlimited;
                  limit_fits = v.steady.limited;
                  script_then = same.same_script ∙ v.steady.same_script;
                  idle = r.playback.walk;
                  walk_then =
                      n.walk_next
                      ∙ ap (λ (g : EventScript). start g n.lap_next r.playback.walk)
                          v.steady.same_script;
                  cursor_then = n.cursor_next;
                  told_then = told';
                  ready_then = same.still_ready v.able;
                }))
            (λ b. end_run-ends script lap told (record r { playback = s.1 }) told'))
        (λ a. absurd (no_clash (sym (no_stop_left script _ v.steady.in_step v.steady.stops) ∙ a)))
