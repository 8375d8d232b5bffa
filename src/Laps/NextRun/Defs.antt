-- ===== src/Laps/NextRun/Defs.antt =====
-- What next_run_from of src/event_script.cpp promises.
use aoahid_player.Base.{ℕ, ◌^◌, ◌≤◌, ◌<◌, ◌≡◌, ◌⊎◌, Bool, true, false}
use aoahid_player.Laps.{LapSelector, runs_on}

-- `r` is the earliest lap from `lap` on that passes the test, or 0 when no uint64_t lap does.
pub record IsNext (test : ℕ → Bool) (lap r : ℕ) : Type 0 where
  pub found : (r ≡ 0) ⊎ ((lap ≤ r) × (r < 2 ^ 64) × (test r ≡ true))
  pub earliest : (m : ℕ) → lap ≤ m → m < 2 ^ 64 → (r ≡ 0) ⊎ (m < r) → test m ≡ false

abbrev pub IsNextRun : LapSelector → ℕ → ℕ → Type 0
IsNextRun when = IsNext (runs_on when)
