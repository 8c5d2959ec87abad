-- ===== src/Float/Exact.antt =====
-- Where an `i64` has an exact `f64`, and what the conversions keep.
use lur.Base.{ℕ, suc, ◌^◌, ◌≡◌, ◌≤◌, inl, inr, some, Bool-cases, arith, ltb}
use lur.Base.Int.{ℤ, pos, negsuc, pos_part, neg_part}
use lur.Float.{whole, of_i64, round_53, whole_f64_to_i64}

pub round_53-exact : (n : ℕ) → n ≤ 2 ^ 53 → round_53 n ≡ n
unfolding round_53
round_53-exact n h = elim (Bool-cases (ltb n (2 ^ 53))) [
  | inl small ↦ rw small
  | inr big ↦ let e : n ≡ 2 ^ 53 = ground arith in rw e
]

-- Up to 2 ^ 53 in magnitude an integer becomes the `f64` of the same value.
pub of_i64-exact : (z : ℤ) → pos_part z ≤ 2 ^ 53 → neg_part z ≤ 2 ^ 53 → of_i64 z ≡ whole z
unfolding of_i64
of_i64-exact (pos n) p q = rw (round_53-exact n p)
of_i64-exact (negsuc n) p q = rw (round_53-exact (suc n) q)

-- Such an integer survives the way through an `f64`.
pub whole_f64_to_i64-of_i64 :
    (z : ℤ) → pos_part z ≤ 2 ^ 53 → neg_part z ≤ 2 ^ 53 → whole_f64_to_i64 (of_i64 z) ≡ some z
unfolding whole_f64_to_i64
whole_f64_to_i64-of_i64 (pos n) p q = rw (of_i64-exact (pos n) p q) (ground arith)
whole_f64_to_i64-of_i64 (negsuc n) p q = rw (of_i64-exact (negsuc n) p q) (ground arith)
