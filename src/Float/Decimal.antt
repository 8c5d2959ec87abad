-- ===== src/Float/Decimal.antt =====
-- `str::parse::<f64>` of decimal text: its grammar without `inf` and `nan`, and the nearest `f64`
-- with ties to even.
use lur.Base.{
  ℕ, zero, suc, ◌+◌, ◌*◌, ◌-◌, ◌/◌, ◌%◌, ◌^◌, Bool, true, false, not, ◌&&◌, ◌||◌, Option, none,
  some, [], ◌∷◌, ltb, leb, ◌==◌, if◌then◌else◌,
}
use lur.Base.Int.{pos, negsuc}
use lur.Base.Bytes.{Bytes}
use lur.Float.{F64, whole, neg_zero, frac, inf}

-- `n / d` rounded, ties to even.
divide : ℕ → ℕ → ℕ
divide n d =
    let q = n / d in
    let r = n % d in
    if ltb (2 * r) d then q else if ltb d (2 * r) then q + 1 else if q % 2 == 0 then q else q + 1

-- The least `e` up from `e` with `n / d < 2 ^ (e + 53) / 2 ^ 1074`, so that 53 bits hold the
-- quotient by `2 ^ e`, in units of `2 ^ -1074`.
scale_up : ℕ → ℕ → ℕ → ℕ → ℕ
scale_up zero e n d = e
scale_up (suc f) e n d =
    let rest = scale_up f (e + 1) n d in if ltb (n * 2 ^ 1074) (d * 2 ^ (e + 53)) then e else rest

signed_whole : Bool → ℕ → F64
signed_whole neg zero = if neg then neg_zero else whole (pos 0)
signed_whole neg (suc n) = whole (if neg then negsuc n else pos (suc n))

-- The bits of `q * 2 ^ e` in units of `2 ^ -1074`, where `q` has at most 53 bits.
bits_of : Bool → ℕ → ℕ → ℕ
bits_of neg q e =
    let magnitude = if ltb q (2 ^ 52) then q else (e + 1) * 2 ^ 52 + (q - 2 ^ 52) in
    if neg then 2 ^ 63 + magnitude else magnitude

packed : Bool → ℕ → ℕ → F64
unfolding signed_whole bits_of
packed neg q e =
    let v = q * 2 ^ e in
    if leb (2 ^ 2098) v
    then inf neg
    else if v % 2 ^ 1074 == 0
    then signed_whole neg (v / 2 ^ 1074)
    else if q == 2 ^ 53
    then frac (bits_of neg (2 ^ 52) (e + 1))
    else frac (bits_of neg q e)

-- The `f64` nearest to `n / d`; 2046 exponents cover the finite ones.
nearest : Bool → ℕ → ℕ → F64
unfolding packed divide scale_up
nearest neg n d = let e = scale_up 2046 0 n d in packed neg (divide (n * 2 ^ 1074) (d * 2 ^ e)) e

is_digit : ℕ → Bool
is_digit c = leb 48 c && leb c 57

-- The digits at the head: their value after `n`, how many there are, and the rest.
digits : ℕ → ℕ → Bytes → (ℕ × ℕ) × Bytes
unfolding is_digit
digits n k [] = ((n, k), [])
digits n k (c ∷ cs) =
    let rest = digits (n * 10 + (c - 48)) (k + 1) cs in
    if is_digit c then rest else ((n, k), c ∷ cs)

-- An exponent after its `e`, with its sign: true is negative.
exponent_digits : Bool → Bytes → Option (Bool × ℕ)
unfolding digits
exponent_digits neg cs =
    let ((n, k), rest) = digits 0 0 cs in
    if k == 0 then none else elim rest [ [] ↦ some (neg, n) | c ∷ cs ↦ none ]

exponent : Bytes → Option (Bool × ℕ)
unfolding exponent_digits
exponent [] = some (false, 0)
exponent (e ∷ []) = none
exponent (e ∷ c ∷ cs) =
    if not (e == 101 || e == 69)
    then none
    else if c == 45
    then exponent_digits true cs
    else if c == 43
    then exponent_digits false cs
    else exponent_digits false (c ∷ cs)

-- The value of `n` with `k` digits after the point, scaled by the exponent.
scaled_decimal : Bool → ℕ → ℕ → Option (Bool × ℕ) → Option F64
unfolding nearest
scaled_decimal neg n k none = none
scaled_decimal neg n k (some (true, x)) = some (nearest neg n (10 ^ (k + x)))
scaled_decimal neg n k (some (false, x)) = some (nearest neg (n * 10 ^ x) (10 ^ k))

after_point : Bytes → ℕ → (ℕ × ℕ) × Bytes
unfolding digits
after_point [] n = ((n, 0), [])
after_point (c ∷ cs) n = if c == 46 then digits n 0 cs else ((n, 0), c ∷ cs)

-- The body after its sign. One digit at least stands before or after the point.
unfoldable pub parse_f64 : Bool → Bytes → Option F64
unfolding digits after_point exponent scaled_decimal
parse_f64 neg s =
    let ((n, before), rest) = digits 0 0 s in
    let ((m, after), tail) = after_point rest n in
    if before + after == 0 then none else scaled_decimal neg m after (exponent tail)
