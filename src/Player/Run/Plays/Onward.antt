-- ===== src/Player/Run/Plays/Onward.antt =====
-- An undisturbed run of src/player.cpp gets through any number of laps.
use aoahid_player.Base.{ℕ, zero, suc, ◌≤◌, ◌^◌, ◌-◌, ◌≡◌, true, List, [], ◌∷◌, ◌++◌}
use aoahid_player.Event.{EventPayload}
use aoahid_player.InputState.Rebuild.Played.{played}
use aoahid_player.Player.Laps.{Clock}
use aoahid_player.Player.Run.Plays.Ends.{IsLapStart}
use aoahid_player.Player.Run.Plays.{RowsFit}
use aoahid_player.Player.Run.{Run, Moment, ended, run}
use aoahid_player.Player.Settled.{Keeps, TakesRows}
use aoahid_player.Player.{RowGroup}
use aoahid_player.Timeline.{EventScript, Fits}

-- The first moments of an endless schedule.
abbrev pub moments {ℓ} : {A : Type ℓ} → (ℕ → A) → ℕ → List A
moments s zero = []
moments s (suc n) = s 0 ∷ moments (λ i. s (suc i)) n

-- What is left of it.
abbrev shift {ℓ} : {A : Type ℓ} → (ℕ → A) → ℕ → ℕ → A
shift s zero = s
shift s (suc n) = shift (λ i. s (suc i)) n

-- A schedule in which no other thread calls a control, every wait reaches its deadline, and no pump leaves the
-- ready states.
abbrev pub IsQuiet :
    {rows : RowGroup} {clock : Clock} → (rows.State → Type 0) → (ℕ → Moment rows clock) → Type 0
IsQuiet {rows} Ready s =
    (i : ℕ)
    → ((s i).commands ≡ [])
      × ((s i).reached ≡ true)
      × ((g : rows.State) → Ready g → Ready ((s i).pump g))

-- A run that has ended, or has got to the start of a lap from `to` on, with all rows of the laps before told.
pub data IsThrough (rows : RowGroup) (clock : Clock) (Ready : rows.State → Type 0)
    (script : EventScript) (to : ℕ) (r : Run rows clock) : Type 0 where
  through_end :
      (lap : ℕ) (released : List EventPayload)
      → r.phase ≡ ended
      → r.playback.player.observed ≡ played script lap ++ released
      → IsThrough rows clock Ready script to r
  through_laps :
      (n : ℕ)
      → to ≤ n
      → IsLapStart rows clock Ready script n (played script (n - 1)) r
      → IsThrough rows clock Ready script to r

module _ (rows : RowGroup) (clock : Clock) (Ready : rows.State → Type 0)
    (Fitting : EventPayload → Type 0) (keep : Keeps rows Ready) (k : TakesRows rows Ready Fitting)
    (script : EventScript) (fits : (n : ℕ) → RowsFit Fitting script n) (f : Fits script) (to : ℕ)
    (small : to ≤ 2 ^ 63) where
  -- What the turns of a list and then those of the rest of the schedule reach.
  record Reaches (s : ℕ → Moment rows clock) (r : Run rows clock) : Type 0 where
    turns_taken : ℕ
    gets_through : IsThrough rows clock Ready script to (run rows clock (moments s turns_taken) r)
