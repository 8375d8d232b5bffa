-- ===== src/Player/Controls.antt =====
-- The controls of Player in src/player.cpp that other threads call, and status. Each is one atomic change of
-- the members that those threads share with the playback thread; `requests` is a set of bits.
use aoahid_player.Base.Int.{ℤ, pos, ◌+ℤ◌, ◌-ℤ◌}
use aoahid_player.Base.{ℕ, Bool, true, false, ◌||◌, List, [], ◌∷◌}
use aoahid_player.Player.Laps.{Clock, PlaybackPosition, PlaybackState, playing, Published}
use aoahid_player.Scale.{clamp_ℤ, to_ℕ}

pub record Requests : Type 0 where
  pub stop : Bool
  pub pause : Bool
  pub seek : Bool
  pub retime : Bool

abbrev pub no_requests : Requests
no_requests = record { stop = false; pause = false; seek = false; retime = false }

abbrev pub any_request : Requests → Bool
any_request r = r.stop || r.pause || r.seek || r.retime

-- fetch_or of the bits.
abbrev pub with_requests : Requests → Requests → Requests
with_requests a b = record {
  stop = a.stop || b.stop;
  pause = a.pause || b.pause;
  seek = a.seek || b.seek;
  retime = a.retime || b.retime;
}

pub record Controls (clock : Clock) : Type 0 where
  pub requests : Requests
  pub want_paused : Bool
  pub seek_target : PlaybackPosition
  pub speed : clock.Speed
  pub offset_ns : ℤ
  pub loop_limit : ℕ
  pub stop_at_ns : ℤ

pub record PlaybackStatus : Type 0 where
  pub state : PlaybackState
  pub position : PlaybackPosition
  pub loops : ℕ
  pub reports : ℕ

-- A call of one of the controls.
pub data Command (clock : Clock) : Type 0 where
  stop : Command clock
  pause : Command clock
  resume : Command clock
  seek : PlaybackPosition → Command clock
  set_speed : clock.Speed → Command clock
  set_loop_limit : ℤ → Command clock
  adjust_offset_ns : ℤ → Command clock
  set_offset_ns : ℤ → Command clock
  set_stop_at : ℤ → Command clock
  wake_live : Command clock

module _ (clock : Clock) where
  abbrev pub post : Requests → Controls clock → Controls clock
  post request c = record c { requests = with_requests c.requests request }

  -- What a call changes; a wake of the signal changes none of these members.
  unfoldable pub control : Command clock → Controls clock → Controls clock
  control stop c = post (record no_requests { stop = true }) c
  control pause c = post (record no_requests { pause = true }) (record c { want_paused = true })
  control resume c = post (record no_requests { pause = true }) (record c { want_paused = false })
  control (seek target) c =
      post (record no_requests { seek = true }) (record c { seek_target = target })
  control (set_speed speed) c =
      post (record no_requests { retime = true }) (record c { speed = clock.bounded speed })
  control (set_loop_limit loops) c = record c { loop_limit = to_ℕ loops }
  control (adjust_offset_ns delta) c = record c { offset_ns = c.offset_ns +ℤ delta }
  control (set_offset_ns offset) c = record c { offset_ns = offset }
  control (set_stop_at stop_at) c = record c { stop_at_ns = stop_at }
  control wake_live c = c

  -- The calls of the other threads, in the order in which they take effect.
  unfoldable pub obey : List (Command clock) → Controls clock → Controls clock
  unfolding control
  obey [] c = c
  obey (x ∷ xs) c = obey xs (control x c)

  -- discard_requests.
  abbrev pub discard_requests : Controls clock → Controls clock
  discard_requests c = record c { requests = no_requests }

  -- The position that is told at a time of the clock, with the reports that are counted then.
  unfoldable pub status : Controls clock → Published clock → ℤ → ℕ → PlaybackStatus
  unfolding clamp_ℤ
  status c p now reports =
      let shift = c.offset_ns -ℤ p.offset_anchor in
      let elapsed = now -ℤ p.anchor_real -ℤ shift in
      let time : ℤ = elim p.state [
        | playing ↦ p.anchor_script +ℤ clock.spanned elapsed p.speed
        | _ ↦ p.anchor_script
      ] in
      record {
        state = p.state;
        position = record { lap = p.lap; time_ns = clamp_ℤ time (pos 0) (pos p.duration) };
        loops = p.loops;
        reports = reports;
      }
