-- ===== src/Units/Parse.antt =====
-- What `parse_size` and `parse_duration` return (src/units.rs).
use lur.Base.{
  ℕ, ◌*◌, ◌^◌, ◌≡◌, ◌<◌, refl, inl, inr, Bool-cases, true, Option, some, ◌∷◌, ◌++◌, map, ltb,
  if◌then◌else◌, arith,
}
use lur.Base.Bytes.{Bytes, codes, bytes_eq, bytes_eq_iff}
use lur.Units.{
  is_digit, lower, Parsed, ok, err, too_large, split_num_unit, checked_mul, either, size_unit,
  duration_unit, scaled, parse_size, parse_duration,
}
use lur.Units.Decimal.{all_of, is_solid, decimal, lower-append, split_num_unit-append}

spelled :
    (u : Bytes) (b : Bytes)
    → bytes_eq u b ≡ true
    → all_of is_solid b ≡ true
    → all_of is_solid u ≡ true
spelled u b h solid = ground (arith, bytes_eq_iff u b)

either-solid :
    (u a b : Bytes)
    → either u a b ≡ true
    → all_of is_solid a ≡ true
    → all_of is_solid b ≡ true
    → all_of is_solid u ≡ true
unfolding either
either-solid u a b h p q = elim (Bool-cases (bytes_eq u a)) [
  | inl first ↦ spelled u a first p
  | inr other ↦ spelled u b (ground arith) q
]

size_unit-solid : (u : Bytes) (m : ℕ) → size_unit u ≡ some m → all_of is_solid u ≡ true
unfolding size_unit
size_unit-solid u m h = elim (Bool-cases (either u (codes "") (codes "b"))) [
  | inl e ↦ either-solid u (codes "") (codes "b") e refl refl
  | inr a ↦ elim (Bool-cases (either u (codes "k") (codes "kb"))) [
    | inl e ↦ either-solid u (codes "k") (codes "kb") e refl refl
    | inr b ↦ elim (Bool-cases (either u (codes "m") (codes "mb"))) [
      | inl e ↦ either-solid u (codes "m") (codes "mb") e refl refl
      | inr c ↦ elim (Bool-cases (either u (codes "g") (codes "gb"))) [
        | inl e ↦ either-solid u (codes "g") (codes "gb") e refl refl
        | inr d ↦ absurd (ground (arith, rw (a, b, c, d) at h))
      ]
    ]
  ]
]

duration_unit-solid : (u : Bytes) (m : ℕ) → duration_unit u ≡ some m → all_of is_solid u ≡ true
unfolding duration_unit
duration_unit-solid u m h = elim (Bool-cases (bytes_eq u (codes "ms"))) [
  | inl e ↦ spelled u (codes "ms") e refl
  | inr a ↦ elim (Bool-cases (either u (codes "") (codes "s"))) [
    | inl e ↦ either-solid u (codes "") (codes "s") e refl refl
    | inr b ↦ elim (Bool-cases (bytes_eq u (codes "m"))) [
      | inl e ↦ spelled u (codes "m") e refl
      | inr c ↦ elim (Bool-cases (bytes_eq u (codes "h"))) [
        | inl e ↦ spelled u (codes "h") e refl
        | inr d ↦ absurd (ground (arith, rw (a, b, c, d) at h))
      ]
    ]
  ]
]

-- A product that fits 64 bits, or a refusal.
abbrev pub product : ℕ → ℕ → Parsed ℕ
product n m = if ltb (n * m) (2 ^ 64) then ok (n * m) else err too_large

scaled-append :
    (unit : Bytes → Option ℕ) (d : ℕ) (ds u : Bytes) (m : ℕ)
    → all_of is_digit (d ∷ ds) ≡ true
    → decimal (d ∷ ds) < 2 ^ 64
    → all_of is_solid (map lower u) ≡ true
    → unit (map lower u) ≡ some m
    → scaled unit (split_num_unit (map lower (d ∷ ds ++ u))) ≡ product (decimal (d ∷ ds)) m
unfolding scaled checked_mul
scaled-append unit d ds u m digits small solid known =
    rw
      (
        lower-append (d ∷ ds) u digits,
        split_num_unit-append d ds (map lower u) digits solid small,
        scaled,
        known,
      )
      refl

-- A decimal number below 2 ^ 64, leading zeros included, before a unit of sizes in any case is read
-- as the product of the two if this is below 2 ^ 64, and refused as too large if it is not.
pub parse_size-append :
    (d : ℕ) (ds u : Bytes) (m : ℕ)
    → all_of is_digit (d ∷ ds) ≡ true
    → decimal (d ∷ ds) < 2 ^ 64
    → size_unit (map lower u) ≡ some m
    → parse_size (d ∷ ds ++ u) ≡ product (decimal (d ∷ ds)) m
unfolding parse_size
parse_size-append d ds u m digits small known =
    scaled-append size_unit d ds u m digits small (size_unit-solid (map lower u) m known) known

-- The same for durations, in milliseconds.
pub parse_duration-append :
    (d : ℕ) (ds u : Bytes) (m : ℕ)
    → all_of is_digit (d ∷ ds) ≡ true
    → decimal (d ∷ ds) < 2 ^ 64
    → duration_unit (map lower u) ≡ some m
    → parse_duration (d ∷ ds ++ u) ≡ product (decimal (d ∷ ds)) m
unfolding parse_duration
parse_duration-append d ds u m digits small known =
    scaled-append duration_unit d ds u m digits small (duration_unit-solid (map lower u) m known)
      known
