-- ===== src/Base/Ticks.antt =====
-- A `BTreeMap` from ticks to keys: a list of pairs in ascending order of the tick, which is the
-- order in which the map iterates.
use Prim.Native.Nat.{ℕ, ◌<◌}
use mathlib.Core.Path.{◌≡◌, refl}
use mathlib.Core.List.{List, [], ◌∷◌}
use mathlib.Core.Option.{Option, none, some}
use native.Mathlib.Omega.{arith}
use lur.Base.Tests.{ltb, ◌==◌, if◌then◌else◌}
use lur.Base.Bytes.{Bytes}

abbrev pub Ticks : Type 0
Ticks = List (ℕ × Bytes)

-- `BTreeMap::get`
unfoldable pub find_tick : ℕ → Ticks → Option Bytes
find_tick t [] = none
find_tick t ((u, k) ∷ l) = if u == t then some k else find_tick t l

-- `BTreeMap::remove`
unfoldable pub erase_tick : ℕ → Ticks → Ticks
erase_tick t [] = []
erase_tick t ((u, k) ∷ l) = let rest = erase_tick t l in if u == t then rest else (u, k) ∷ rest

place : ℕ → Bytes → Ticks → Ticks
place t k [] = (t, k) ∷ []
place t k ((u, j) ∷ l) =
    let rest = place t k l in if ltb t u then (t, k) ∷ (u, j) ∷ l else (u, j) ∷ rest

-- `BTreeMap::insert`
unfoldable pub insert_tick : ℕ → Bytes → Ticks → Ticks
unfolding place
insert_tick t k l = place t k (erase_tick t l)

-- Every tick of the list is above `t`.
abbrev pub IsAbove : ℕ → Ticks → Type 0
IsAbove t [] = Unit {0}
IsAbove t ((u, k) ∷ l) = (t < u) × IsAbove t l

abbrev pub IsAscending : Ticks → Type 0
IsAscending [] = Unit {0}
IsAscending ((u, k) ∷ l) = IsAbove u l × IsAscending l

pub find-erase_tick :
    (t u : ℕ) (l : Ticks) → find_tick u (erase_tick t l) ≡ (if t == u then none else find_tick u l)
unfolding find_tick erase_tick
find-erase_tick t u [] = ground arith
find-erase_tick t u ((w, k) ∷ l) = ground (arith, find-erase_tick t u l)

find-place :
    (t u : ℕ) (k : Bytes) (l : Ticks)
    → find_tick t l ≡ none
    → find_tick u (place t k l) ≡ (if t == u then some k else find_tick u l)
unfolding find_tick place
find-place t u k [] h = ground arith
find-place t u k ((w, j) ∷ l) h = ground (arith, find-place t u k l)

pub find-insert_tick :
    (t u : ℕ) (k : Bytes) (l : Ticks)
    → find_tick u (insert_tick t k l) ≡ (if t == u then some k else find_tick u l)
unfolding insert_tick
find-insert_tick t u k l =
    ground (arith, find-place t u k (erase_tick t l), find-erase_tick t t l, find-erase_tick t u l)

erase_tick-IsAbove : (t u : ℕ) (l : Ticks) → IsAbove u l → IsAbove u (erase_tick t l)
unfolding erase_tick
erase_tick-IsAbove t u [] h = tt
erase_tick-IsAbove t u ((w, k) ∷ l) h = ground (arith, erase_tick-IsAbove t u l h.1)

pub erase_tick-IsAscending : (t : ℕ) (l : Ticks) → IsAscending l → IsAscending (erase_tick t l)
unfolding erase_tick
erase_tick-IsAscending t [] h = tt
erase_tick-IsAscending t ((u, k) ∷ l) h =
    ground (arith, erase_tick-IsAscending t l h.1, erase_tick-IsAbove t u l h.0)

IsAbove-trans : (t u : ℕ) (l : Ticks) → t < u → IsAbove u l → IsAbove t l
IsAbove-trans t u [] p h = tt
IsAbove-trans t u ((w, k) ∷ l) p h = (omega arith, IsAbove-trans t u l p h.1)

place-IsAbove : (t u : ℕ) (k : Bytes) (l : Ticks) → u < t → IsAbove u l → IsAbove u (place t k l)
unfolding place
place-IsAbove t u k [] p h = (p, tt)
place-IsAbove t u k ((w, j) ∷ l) p h = ground (arith, place-IsAbove t u k l p h.1)

place-IsAscending :
    (t : ℕ) (k : Bytes) (l : Ticks)
    → find_tick t l ≡ none
    → IsAscending l
    → IsAscending (place t k l)
unfolding place find_tick
place-IsAscending t k [] e h = (tt, tt)
place-IsAscending t k ((w, j) ∷ l) e h =
    ground (arith, place-IsAscending t k l, place-IsAbove t w k l, IsAbove-trans t w l)

pub insert_tick-IsAscending :
    (t : ℕ) (k : Bytes) (l : Ticks) → IsAscending l → IsAscending (insert_tick t k l)
unfolding insert_tick
insert_tick-IsAscending t k l h = ground (
  arith,
  place-IsAscending t k (erase_tick t l),
  find-erase_tick t t l,
  erase_tick-IsAscending t l h,
)

-- What is looked up in a list above `t` has a tick above `t`.
pub find_tick_above :
    (t u : ℕ) (k : Bytes) (l : Ticks) → IsAbove t l → find_tick u l ≡ some k → t < u
unfolding find_tick
find_tick_above t u k [] h e = cc
find_tick_above t u k ((w, j) ∷ l) h e = ground (arith, find_tick_above t u k l h.1)

pub erase-erase_tick : (t : ℕ) (l : Ticks) → erase_tick t (erase_tick t l) ≡ erase_tick t l
unfolding erase_tick
erase-erase_tick t [] = refl
erase-erase_tick t ((u, k) ∷ l) = ground (arith, erase-erase_tick t l)
