-- ===== src/Storage/Spacing.antt =====
-- The sweeps that the threads of a process win from one clock (src/capabilities/storage/mod.rs).
use lur.Base.{
  ℕ, ◌+◌, ◌-◌, ◌≤◌, ◌==◌, ◌&&◌, List, [], ◌∷◌, if◌then◌else◌, inl, inr, Bool-cases, leb, arith,
}
use lur.Storage.{interval_ms, due}

-- The attempts in the order of their exchanges: what each loaded, and its time. The times of
-- those that won.
unfoldable pub sweeps : List (ℕ × ℕ) → ℕ → List ℕ
sweeps [] clock = []
sweeps ((last, now) ∷ rest) clock =
    let (claims, at) = due last now clock in
    let others = sweeps rest at in if claims then now ∷ others else others

-- Each time is at least an interval after the one before it, the first after `from`.
abbrev pub IsSpaced : ℕ → List ℕ → Type 0
IsSpaced from [] = Unit {0}
IsSpaced from (t ∷ ts) = (from + interval_ms ≤ t) × IsSpaced t ts

-- However the attempts of the threads interleave, the sweeps that they win are at least an interval
-- apart, and the first is at least an interval after the time that the clock started with.
pub sweeps-IsSpaced : (attempts : List (ℕ × ℕ)) (clock : ℕ) → IsSpaced clock (sweeps attempts clock)
unfolding sweeps due
sweeps-IsSpaced [] clock = tt
sweeps-IsSpaced ((last, now) ∷ rest) clock =
    elim (Bool-cases (leb interval_ms (now - last) && clock == last)) [
      | inl won ↦ rw won (ground arith, sweeps-IsSpaced rest now)
      | inr lost ↦ rw lost (sweeps-IsSpaced rest clock)
    ]
