-- ===== src/Timeline/Seek.antt =====
-- LapWalk::seek of src/event_script.cpp stops on the first row that is due at or after a time.
use aoahid_player.Base.{
  ℕ, zero, suc, ◌≤◌, ◌≡◌, refl, ap, sym, ◌∙◌, true, false, List, [], ◌∷◌, arith, length, ltb,
  if◌then◌else◌, Bool-cases, inl, inr,
}
use aoahid_player.Timeline.Plan.{Stop, plan, length-plan}
use aoahid_player.Timeline.Walk.{
  InStep, tail_stops, remaining, remaining_done, InStep-next, start-Settled, visits, visits-stops,
}
use aoahid_player.Timeline.{EventScript, Fits, LapWalk, next, start, seek, seek_loop}

-- The stops from the first that is due at `time_ns` or later on.
abbrev pub drop_before : ℕ → List Stop → List Stop
drop_before time_ns [] = []
drop_before time_ns (s ∷ ss) = if ltb s.due time_ns then drop_before time_ns ss else s ∷ ss

length-drop_before : (t : ℕ) (ss : List Stop) → length (drop_before t ss) ≤ length ss
length-drop_before t [] = omega arith
length-drop_before t (s ∷ ss) = ground (arith, length-drop_before t ss)

drop_before_early :
    (t : ℕ) (s : Stop) (ss : List Stop)
    → ltb s.due t ≡ true
    → drop_before t (s ∷ ss) ≡ drop_before t ss
drop_before_early t s ss h = rw h

drop_before_late :
    (t : ℕ) (s : Stop) (ss : List Stop) → ltb s.due t ≡ false → drop_before t (s ∷ ss) ≡ s ∷ ss
drop_before_late t s ss h = rw h

record Sought (script : EventScript) (t : ℕ) (w : LapWalk) (l : List Stop) (w' : LapWalk)
    : Type 0 where
  in_step : InStep script w'
  stops : remaining script w' ≡ drop_before t l
  same_lap : w'.lap ≡ w.lap

module _ (script : EventScript) (t fuel : ℕ) (w : LapWalk) where
  seek_loop_done : w.done ≡ true → seek_loop (suc fuel) script t w ≡ w
  unfolding seek_loop
  seek_loop_done d = ground arith

  seek_loop_late : ltb w.due t ≡ false → seek_loop (suc fuel) script t w ≡ w
  unfolding seek_loop
  seek_loop_late l = ground arith

  seek_loop_early :
      w.done ≡ false
      → ltb w.due t ≡ true
      → seek_loop (suc fuel) script t w ≡ seek_loop fuel script t (next script w)
  unfolding seek_loop
  seek_loop_early d l = ground arith

seek_loop-Sought :
    (script : EventScript) (t fuel : ℕ) (w : LapWalk) (l : List Stop)
    → InStep script w
    → remaining script w ≡ l
    → length l ≤ fuel
    → Sought script t w l (seek_loop fuel script t w)
seek_loop-Sought script t zero w [] i e h =
    unfold seek_loop in record { in_step = i; stops = e; same_lap = refl }
seek_loop-Sought script t zero w (x ∷ l) i e h = absurd (omega arith)
seek_loop-Sought script t (suc fuel) w [] i e h = elim (Bool-cases w.done) [
  | inl d ↦
      rw (seek_loop_done script t fuel w d) (record { in_step = i; stops = e; same_lap = refl })
  | inr d ↦ let s = (InStep-next script w i d).1 in cc
]
seek_loop-Sought script t (suc fuel) w (x ∷ l) i e h = elim (Bool-cases w.done) [
  | inl d ↦ let s = remaining_done script w d in cc
  | inr d ↦
      let (i', s, lap, _) = InStep-next script w i d in
      let first : w.due ≡ x.due = cc (sym s ∙ e) in
      elim (Bool-cases (ltb w.due t)) [
        | inl early ↦
            let r =
              seek_loop-Sought script t fuel (next script w) l i' (ap tail_stops (sym s ∙ e))
                (omega arith) in
            rw (seek_loop_early script t fuel w d early) (record {
              in_step = r.in_step;
              stops = r.stops ∙ sym (drop_before_early t x l (rw first at early));
              same_lap = r.same_lap ∙ lap;
            })
        | inr late ↦ rw (seek_loop_late script t fuel w late) (record {
          in_step = i;
          stops = e ∙ sym (drop_before_late t x l (rw first at late));
          same_lap = refl;
        })
      ]
]

-- After a seek the walk visits exactly the rows of the plan from the first one on that is due at or
-- after the time asked for.
pub visits-seek :
    (script : EventScript) (lap time_ns fuel : ℕ) (w : LapWalk)
    → Fits script
    → length script.rows ≤ fuel
    → visits fuel script (seek script lap time_ns w) ≡ drop_before time_ns (plan script lap)
unfolding seek
visits-seek script lap t fuel w f h =
    let (i, s, _, _) = start-Settled script w lap f.each in
    let r =
      seek_loop-Sought script t (suc (length script.rows)) (start script lap w) (plan script lap) i
        s (omega (arith, length-plan script lap f)) in
    (visits-stops script (drop_before t (plan script lap)) fuel _ r.in_step r.stops
      (omega (arith, length-drop_before t (plan script lap), length-plan script lap f))).0
