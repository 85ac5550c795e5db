-- ===== src/Clock.antt =====
-- The Lamport clock of package hexatype, which the program only calls.
use hexalog.Prelude.{ℕ, ◌≤◌, ◌<◌}

-- Time does not go back, and after a witnessed time the clock is past it.
pub record LamportClock : Type 1 where
  pub Clock : Type 0
  pub time : Clock → ℕ
  pub increment : Clock → Clock
  pub witness : Clock → ℕ → Clock
  pub increment_grows : (c : Clock) → time c < time (increment c)
  pub witness_grows : (c : Clock) (t : ℕ) → time c ≤ time (witness c t)
  pub witness_passes : (c : Clock) (t : ℕ) → t < time (witness c t)
