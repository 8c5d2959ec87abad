-- ===== src/Storage/Tests.antt =====
-- Three attempts on the clock, and the theorem about sweeps at them.
use lur.Base.{ℕ, List, [], ◌∷◌}
use lur.Storage.{started}
use lur.Storage.Spacing.{sweeps, IsSpaced, sweeps-IsSpaced}

-- The first two loaded the same time.
abbrev attempts : List (ℕ × ℕ)
attempts = (10, 3_600_010) ∷ (10, 3_600_011) ∷ (3_600_010, 7_200_020) ∷ []

sweeps-IsSpaced_example : IsSpaced (started 10) (sweeps attempts (started 10))
sweeps-IsSpaced_example = sweeps-IsSpaced attempts (started 10)
