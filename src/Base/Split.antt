-- ===== src/Base/Split.antt =====
-- Byte strings taken apart at a byte: `split` and `split_once` of a slice or a string.
use Prim.Native.Nat.{ℕ}
use mathlib.Core.Bool.{Bool, true, false}
use mathlib.Core.Option.{Option, none, some}
use mathlib.Core.List.{List, [], ◌∷◌}
use lur.Base.Tests.{◌==◌, if◌then◌else◌}
use lur.Base.Bytes.{Bytes}

unfoldable pub push : Bool → ℕ → List Bytes → List Bytes
push true b segments = [] ∷ segments
push false b [] = (b ∷ []) ∷ []
push false b (s ∷ ss) = (b ∷ s) ∷ ss

-- `split` of a slice at a byte
unfoldable pub split : ℕ → Bytes → List Bytes
unfolding push
split c [] = [] ∷ []
split c (b ∷ bs) = push (b == c) b (split c bs)

-- What stands before and after the first `c`.
unfoldable pub cut : ℕ → Bytes → Option (Bytes × Bytes)
cut c [] = none
cut c (b ∷ bs) =
    let rest = cut c bs in
    if b == c then some ([], bs) else (elim rest [ none ↦ none | some p ↦ some (b ∷ p.0, p.1) ])
