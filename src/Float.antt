-- ===== src/Float.antt =====
-- The `f64` of the source, as far as its code looks at one: whether it is a whole number, which
-- one, its equality, and the rounding of an `i64` (src/capabilities/argcheck.rs).
pub mod Decimal
pub mod Exact
pub mod Order
mod Tests
use lur.Base.{
  ℕ, zero, suc, ◌+◌, ◌*◌, ◌/◌, ◌%◌, ◌^◌, Bool, true, false, Option, none, some, ltb, ◌==◌,
  if◌then◌else◌,
}
use lur.Base.Int.{ℤ, pos, negsuc, in_i64, eqb_ℤ}

-- `frac` is a number that is not whole, known by its bits; `inf` has its sign.
pub data F64 : Type 0 where
  whole : ℤ → F64
  neg_zero : F64
  frac : ℕ → F64
  inf : Bool → F64
  nan : F64

bool_eq : Bool → Bool → Bool
bool_eq true b = b
bool_eq false true = false
bool_eq false false = true

is_zero : ℤ → Bool
is_zero z = eqb_ℤ z (pos 0)

-- `==` on `f64`: `nan` differs from itself, and the two zeros are equal.
unfoldable pub f64_eq : F64 → F64 → Bool
unfolding bool_eq is_zero
f64_eq (whole a) (whole b) = eqb_ℤ a b
f64_eq (whole a) neg_zero = is_zero a
f64_eq neg_zero (whole b) = is_zero b
f64_eq neg_zero neg_zero = true
f64_eq (frac a) (frac b) = a == b
f64_eq (inf a) (inf b) = bool_eq a b
f64_eq _ _ = false

-- `whole_f64_to_i64`: the test on the fraction, then the range of an `i64`.
unfoldable pub whole_f64_to_i64 : F64 → Option ℤ
whole_f64_to_i64 (whole z) = if in_i64 z then some z else none
whole_f64_to_i64 neg_zero = some (pos 0)
whole_f64_to_i64 _ = none

-- The nearest multiple of `2 ^ k`, ties to the even one.
unfoldable pub round_at : ℕ → ℕ → ℕ
round_at k n =
    let q = n / 2 ^ k in
    let r = n % 2 ^ k in
    if ltb (2 * r) (2 ^ k)
    then q * 2 ^ k
    else if ltb (2 ^ k) (2 * r)
    then (q + 1) * 2 ^ k
    else if q % 2 == 0
    then q * 2 ^ k
    else (q + 1) * 2 ^ k

-- The scale at which 53 bits hold `n`: the least `k` with `n < 2 ^ (53 + k)`. An `i64` needs at
-- most 11.
unfoldable pub scale_from : ℕ → ℕ → ℕ → ℕ
scale_from zero k n = k
scale_from (suc f) k n =
    let rest = scale_from f (k + 1) n in if ltb n (2 ^ (53 + k)) then k else rest

-- The magnitude of an `i64`, rounded to 53 bits.
unfoldable pub round_53 : ℕ → ℕ
unfolding round_at scale_from
round_53 n = if ltb n (2 ^ 53) then n else round_at (scale_from 11 0 n) n

-- `n as f64`
unfoldable pub of_i64 : ℤ → F64
unfolding round_53
of_i64 (pos n) = whole (pos (round_53 n))
of_i64 (negsuc n) = let m = round_53 (suc n) in whole (elim m [ zero ↦ pos 0 | suc k ↦ negsuc k ])
