-- ===== src/Units/Decimal.antt =====
-- Sizes and durations that are written as a decimal number and a unit (src/units.rs).
use lur.Base.{
  ℕ, ◌+◌, ◌-◌, ◌*◌, ◌^◌, ◌≡◌, ◌<◌, ◌≤◌, refl, inl, inr, Bool, Bool-cases, true, not, ◌&&◌, some, [],
  ◌∷◌, ◌++◌, map, arith,
}
use lur.Base.Bytes.{Bytes}
use lur.Units.{
  is_digit, lower, is_space, trim_start, trim_end, trim, split_digits, parse_u64, parse_from, step,
  ok, number_unit, split_num_unit,
}

abbrev pub all_of : (ℕ → Bool) → Bytes → Bool
all_of p [] = true
all_of p (c ∷ cs) = p c && all_of p cs

-- Neither a digit nor a space.
abbrev pub is_solid : ℕ → Bool
is_solid c = not (is_digit c) && not (is_space c)

-- The number that decimal digits stand for, after the digits of `n`.
abbrev pub value_from : ℕ → Bytes → ℕ
value_from n [] = n
value_from n (c ∷ cs) = value_from (n * 10 + (c - 48)) cs

abbrev pub decimal : Bytes → ℕ
decimal ds = value_from 0 ds

value_from-le : (n : ℕ) (cs : Bytes) → n ≤ value_from n cs
value_from-le n [] = omega arith
value_from-le n (c ∷ cs) = omega (arith, value_from-le (n * 10 + (c - 48)) cs)

parse_from-value :
    (n : ℕ) (cs : Bytes)
    → value_from n cs < 2 ^ 64
    → parse_from (some n) cs ≡ some (value_from n cs)
unfolding parse_from step
parse_from-value n [] small = refl
parse_from-value n (c ∷ cs) small =
    ground
      (arith, parse_from-value (n * 10 + (c - 48)) cs small, value_from-le (n * 10 + (c - 48)) cs)

-- Digits and solid bytes are not trimmed.
trim_end-solid : (s : Bytes) → all_of (λ c. not (is_space c)) s ≡ true → trim_end s ≡ s
unfolding trim_end
trim_end-solid [] h = refl
trim_end-solid (c ∷ []) h = ground arith
trim_end-solid (c ∷ d ∷ ds) h = rw (trim_end-solid (d ∷ ds) (ground arith)) refl

trim-solid : (s : Bytes) → all_of (λ c. not (is_space c)) s ≡ true → trim s ≡ s
unfolding trim trim_start
trim-solid [] h = unfold trim_end in refl
trim-solid (c ∷ cs) h = elim (Bool-cases (is_space c)) [
  | inl blank ↦ absurd (ground arith)
  | inr full ↦ rw full (trim_end-solid (c ∷ cs) h)
]

solid-append :
    (ds u : Bytes)
    → all_of is_digit ds ≡ true
    → all_of is_solid u ≡ true
    → all_of (λ c. not (is_space c)) (ds ++ u) ≡ true
solid-append [] [] h g = refl
solid-append [] (c ∷ cs) h g = ground (arith, solid-append [] cs)
solid-append (d ∷ ds) u h g = ground (arith, solid-append ds u)

split-append :
    (ds u : Bytes)
    → all_of is_digit ds ≡ true
    → all_of is_solid u ≡ true
    → split_digits (ds ++ u) ≡ (ds, u)
unfolding split_digits
split-append [] [] h g = refl
split-append [] (c ∷ cs) h g = elim (Bool-cases (is_digit c)) [
  | inl digit ↦ absurd (ground arith)
  | inr other ↦ rw other refl
]
split-append (d ∷ ds) u h g = elim (Bool-cases (is_digit d)) [
  | inl digit ↦ rw (split-append ds u (ground arith) g) (rw digit refl)
  | inr other ↦ absurd (ground arith)
]

pub lower-append :
    (ds u : Bytes) → all_of is_digit ds ≡ true → map lower (ds ++ u) ≡ ds ++ map lower u
lower-append [] u h = refl
lower-append (d ∷ ds) u h = ground (arith, lower-append ds u)

-- A number before a unit in lower case.
pub split_num_unit-append :
    (d : ℕ) (ds u : Bytes)
    → all_of is_digit (d ∷ ds) ≡ true
    → all_of is_solid u ≡ true
    → decimal (d ∷ ds) < 2 ^ 64
    → split_num_unit (d ∷ ds ++ u) ≡ ok (decimal (d ∷ ds), u)
unfolding split_num_unit number_unit parse_u64
split_num_unit-append d ds u h g small =
    rw
      (
        trim-solid (d ∷ ds ++ u) (solid-append (d ∷ ds) u h g),
        split-append (d ∷ ds) u h g,
        number_unit,
        parse_u64,
        parse_from-value 0 (d ∷ ds) small,
        trim-solid u (solid-append [] u refl g),
      )
      refl
