-- ===== src/Float/Order.antt =====
-- The order of `f64`, and its value as a multiple of the least positive one, for the comparisons of
-- the source (src/capabilities/validate.rs).
use lur.Base.{
  ℕ, suc, ◌+◌, ◌*◌, ◌-◌, ◌/◌, ◌%◌, ◌^◌, Bool, true, false, not, ◌==◌, ◌≡◌, refl, arith,
  if◌then◌else◌,
}
use lur.Base.Int.{ℤ, pos, negsuc, sub_ℕ, ltb_ℤ}
use lur.Float.{F64, whole, neg_zero, frac, inf, nan}

-- The magnitude that the low 63 bits encode, in units of `2 ^ -1074`.
magnitude : ℕ → ℕ
magnitude bits =
    let e = (bits / 2 ^ 52) % 2 ^ 11 in
    let m = bits % 2 ^ 52 in if e == 0 then m else (m + 2 ^ 52) * 2 ^ (e - 1)

signed : Bool → ℕ → ℤ
signed negative n = if negative then sub_ℕ 0 n else pos n

scaled_int : ℤ → ℤ
scaled_int (pos n) = pos (n * 2 ^ 1074)
scaled_int (negsuc n) = sub_ℕ 0 (suc n * 2 ^ 1074)

scaled : F64 → ℤ
unfolding magnitude signed scaled_int
scaled (whole z) = scaled_int z
scaled (frac bits) = signed (bits / 2 ^ 63 == 1) (magnitude bits)
scaled _ = pos 0

abbrev pub is_finite : F64 → Bool
is_finite (inf s) = false
is_finite nan = false
is_finite _ = true

finite_lt : F64 → F64 → Bool
unfolding scaled
finite_lt x y = ltb_ℤ (scaled x) (scaled y)

-- `<` on `f64`; nothing is below or above `nan`.
unfoldable pub f64_lt : F64 → F64 → Bool
unfolding finite_lt
f64_lt nan y = false
f64_lt x nan = false
f64_lt (inf true) (inf t) = not t
f64_lt (inf true) y = true
f64_lt (inf false) y = false
f64_lt x (inf t) = not t
f64_lt x y = finite_lt x y

ltb_ℤ_irrefl : (a : ℤ) → ltb_ℤ a a ≡ false
ltb_ℤ_irrefl a = ground arith

pub f64_lt_irrefl : (x : F64) → f64_lt x x ≡ false
unfolding f64_lt finite_lt
f64_lt_irrefl (whole z) = ltb_ℤ_irrefl (scaled (whole z))
f64_lt_irrefl neg_zero = ltb_ℤ_irrefl (scaled neg_zero)
f64_lt_irrefl (frac b) = ltb_ℤ_irrefl (scaled (frac b))
f64_lt_irrefl (inf true) = refl
f64_lt_irrefl (inf false) = refl
f64_lt_irrefl nan = refl
