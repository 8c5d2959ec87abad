-- ===== src/Validate/Scalar/Safe.antt =====
-- The range of the integers that are read (src/capabilities/validate.rs).
use lur.Base.{
  ◌≡◌, ◌^◌, ◌-◌, ◌⊎◌, refl, inl, inr, Bool, Bool-cases, true, false, Option, none, some, List,
  arith,
}
use lur.Base.Int.{ℤ, pos, negsuc}
use lur.Float.{F64, whole, neg_zero, frac, inf, nan}
use lur.Validate.Value.{Value, nil, null, other, boolean, integer, number, text, table, lua_number}
use lur.Validate.Issues.{Step, Ctx}
use lur.Validate.Scalar.{
  or_range, is_safe, is_safe_i64, int_of_text, int_of_number, parse_int_str, parse_int_value,
}

abbrev pub is_text : Value → Bool
is_text (text s) = true
is_text _ = false

-- The least `i64`.
abbrev pub least_i64 : ℤ
least_i64 = negsuc (2 ^ 63 - 1)

or_range-some :
    (b : Bool) (n m : ℤ) (path : List Step) (cx : Ctx)
    → (or_range b n path cx).0 ≡ some m
    → (b ≡ true) × (n ≡ m)
or_range-some true n m path cx h = (refl, cc)
or_range-some false n m path cx h = cc

safe_i64-cases : (n : ℤ) → is_safe_i64 n ≡ true → (is_safe n ≡ true) ⊎ (n ≡ least_i64)
safe_i64-cases (pos n) h = inl (ground arith)
safe_i64-cases (negsuc n) h = elim (Bool-cases (is_safe (negsuc n))) [
  | inl safe ↦ inl safe
  | inr big ↦ inr (ground arith)
]

int_of_number-safe :
    (x : Option F64) (n : ℤ) (path : List Step) (cx : Ctx)
    → (int_of_number x path cx).0 ≡ some n
    → is_safe n ≡ true
unfolding int_of_number
int_of_number-safe (some (whole z)) n path cx h =
    let (safe, same) = or_range-some (is_safe z) z n path cx h in rw (← same) safe
int_of_number-safe (some neg_zero) n path cx h = let same : pos 0 ≡ n = cc in rw (← same) refl
int_of_number-safe (some (frac b)) n path cx h = cc
int_of_number-safe (some (inf s)) n path cx h = cc
int_of_number-safe (some nan) n path cx h = cc
int_of_number-safe none n path cx h = cc

int_of_text-safe :
    (o : Option ℤ) (n : ℤ) (path : List Step) (cx : Ctx)
    → (int_of_text o path cx).0 ≡ some n
    → (is_safe n ≡ true) ⊎ (n ≡ least_i64)
unfolding int_of_text
int_of_text-safe none n path cx h = cc
int_of_text-safe (some z) n path cx h =
    let (safe, same) = or_range-some (is_safe_i64 z) z n path cx h in
    rw (← same) (safe_i64-cases z safe)

-- An integer that is read out of a number or a text is within 2^53 of zero, or it was a text and is
-- the least `i64`, whose `abs` wraps around and so passes the check of the range.
pub parse_int_value-safe :
    (v : Value) (n : ℤ) (path : List Step) (cx : Ctx)
    → (parse_int_value v path cx).0 ≡ some n
    → (is_safe n ≡ true) ⊎ ((n ≡ least_i64) × (is_text v ≡ true))
unfolding parse_int_value
parse_int_value-safe (text s) n path cx h = elim (int_of_text-safe (parse_int_str s) n path cx h) [
  | inl safe ↦ inl safe
  | inr least ↦ inr (least, refl)
]
parse_int_value-safe nil n path cx h = inl (int_of_number-safe (lua_number nil) n path cx h)
parse_int_value-safe null n path cx h = inl (int_of_number-safe (lua_number null) n path cx h)
parse_int_value-safe other n path cx h = inl (int_of_number-safe (lua_number other) n path cx h)
parse_int_value-safe (boolean b) n path cx h =
    inl (int_of_number-safe (lua_number (boolean b)) n path cx h)
parse_int_value-safe (integer i) n path cx h =
    inl (int_of_number-safe (lua_number (integer i)) n path cx h)
parse_int_value-safe (number x) n path cx h =
    inl (int_of_number-safe (lua_number (number x)) n path cx h)
parse_int_value-safe (table es k) n path cx h =
    inl (int_of_number-safe (lua_number (table es k)) n path cx h)
