-- ===== src/Validate/Scalar.antt =====
-- The checks of texts, numbers, booleans and literals (src/capabilities/validate.rs). `find` is
-- `string.find` of Lua on a text and a pattern: whether it finds one, or raises.
pub mod Bounds
pub mod Safe
pub mod Single
use lur.Base.{
  ℕ, zero, suc, ◌+◌, ◌*◌, ◌-◌, ◌^◌, Bool, true, false, not, ◌&&◌, ◌||◌, Option, none, some, List,
  [], ◌∷◌, is_some, ltb, leb, ◌==◌, if◌then◌else◌,
}
use lur.Base.Int.{ℤ, pos, negsuc, pos_part, neg_part, ltb_ℤ, eqb_ℤ, in_i64}
use lur.Base.Bytes.{Bytes, codes, bytes_eq}
use lur.Float.{F64, whole, neg_zero, frac, inf, nan, f64_eq, of_i64}
use lur.Float.Order.{is_finite, f64_lt}
use lur.Float.Decimal.{parse_f64}
use lur.Validate.Value.{
  Value, nil, null, other, boolean, integer, number, text, table, lua_number, char_count,
}
use lur.Validate.Schema.{Lit, str, num, bool, StrRule, Limits}
use lur.Validate.Issues.{
  Step, is_required, not_string, not_boolean, not_one_of, too_short, too_long, bad_format,
  out_of_range, not_integer, not_finite, below_min, above_max, Message, Ctx, fail, Found, failed,
  Out, done, raised, finished,
}

-- `default_or_required`
unfoldable pub default_or_required : Option Value → List Step → Ctx → Found
default_or_required none path cx = failed path is_required cx
default_or_required (some d) path cx = (some d, cx)

-- `is_blank`
abbrev pub is_blank : Value → Bool
is_blank nil = true
is_blank (text []) = true
is_blank _ = false

abbrev pub Find : Type 0
Find = Bytes → Bytes → Option Bool

-- The two bounds on the number of characters.
abbrev pub under : Option ℕ → ℕ → Bool
under none len = false
under (some min) len = ltb len min

abbrev pub over : Option ℕ → ℕ → Bool
over none len = false
over (some max) len = ltb max len

unfoldable pub check_length : Bytes → StrRule → List Step → Ctx → Bool × Ctx
check_length s r path cx =
    let len = char_count s in
    let short = under r.min_len len in
    let long = over r.max_len len in
    let cx' = if short then fail path too_short cx else cx in
    (not short && not long, if long then fail path too_long cx' else cx')

unfoldable pub found : Option Bool → Bool → List Step → Ctx → Out Bool
found none ok path cx = raised
found (some true) ok path cx = done ok cx
found (some false) ok path cx = done false (fail path bad_format cx)

unfoldable pub check_pattern : Find → Bytes → Option Bytes → Bool → List Step → Ctx → Out Bool
unfolding found
check_pattern find s none ok path cx = done ok cx
check_pattern find s (some p) ok path cx = found (find s p) ok path cx

-- `check_str`
unfoldable pub check_str : Find → Bytes → StrRule → List Step → Ctx → Out Bool
unfolding check_pattern
check_str find s r path cx =
    let (ok, cx') = check_length s r path cx in check_pattern find s r.pattern ok path cx'

unfoldable pub checked_text : Bytes → Out Bool → Out (Option Value)
checked_text s raised = raised
checked_text s (done ok cx) = done (if ok then some (text s) else none) cx

abbrev pub text_default : Option Bytes → Option Value
text_default none = none
text_default (some d) = some (text d)

-- `check_str_node`
unfoldable pub check_str_node : Find → StrRule → Value → List Step → Ctx → Out (Option Value)
unfolding checked_text
check_str_node find r nil path cx = finished (default_or_required (text_default r.default) path cx)
check_str_node find r (text s) path cx = checked_text s (check_str find s r path cx)
check_str_node find r _ path cx = finished (failed path not_string cx)

unfoldable pub read_bool : Value → List Step → Ctx → Found
read_bool (boolean b) path cx = (some (boolean b), cx)
read_bool (text s) path cx =
    if bytes_eq s (codes "true")
    then (some (boolean true), cx)
    else if bytes_eq s (codes "false")
    then (some (boolean false), cx)
    else failed path not_boolean cx
read_bool _ path cx = failed path not_boolean cx

abbrev pub bool_default : Option Bool → Option Value
bool_default none = none
bool_default (some d) = some (boolean d)

-- `check_bool`
unfoldable pub check_bool : Option Bool → Value → List Step → Ctx → Found
unfolding read_bool
check_bool default value path cx =
    if is_blank value
    then default_or_required (bool_default default) path cx
    else read_bool value path cx

number_is : F64 → Option F64 → Bool
number_is a none = false
number_is a (some n) = f64_eq n a

bools_eq : Bool → Bool → Bool
bools_eq true b = b
bools_eq false b = not b

-- Whether a literal is the value.
unfoldable pub is_lit : Lit → Value → Bool
unfolding number_is bools_eq
is_lit (str a) (text b) = bytes_eq a b
is_lit (bool a) (boolean b) = bools_eq a b
is_lit (num a) v = number_is a (lua_number v)
is_lit _ _ = false

unfoldable pub any_lit : List Lit → Value → Bool
any_lit [] v = false
any_lit (l ∷ ls) v = is_lit l v || any_lit ls v

-- `check_one_of`
unfoldable pub check_one_of : List Lit → Value → List Step → Ctx → Found
check_one_of options nil path cx = failed path is_required cx
check_one_of options v path cx =
    if any_lit options v then (some v, cx) else failed path not_one_of cx

-- `-?[0-9]+` as an integer, which need not fit an `i64`.
digits_value : ℕ → Bytes → Option ℕ
digits_value n [] = some n
digits_value n (c ∷ cs) =
    let rest = digits_value (n * 10 + (c - 48)) cs in if leb 48 c && leb c 57 then rest else none

decimal : Bytes → Option ℕ
unfolding digits_value
decimal [] = none
decimal (c ∷ cs) = digits_value 0 (c ∷ cs)

negated : Option ℕ → Option ℤ
negated none = none
negated (some zero) = some (pos 0)
negated (some (suc n)) = some (negsuc n)

-- `parse_int_str` and the number that it stands for.
unfoldable pub parse_int_str : Bytes → Option ℤ
unfolding decimal negated
parse_int_str [] = none
parse_int_str (c ∷ cs) =
    if c == 45
    then negated (decimal cs)
    else (elim (decimal (c ∷ cs)) [ none ↦ none | some n ↦ some (pos n) ])

-- `n.abs() <= MAX_SAFE_INT`
abbrev pub is_safe : ℤ → Bool
is_safe n = leb (pos_part n + neg_part n) (2 ^ 53)

-- The same on an `i64`, whose `abs` leaves the least `i64` as it is when it wraps around.
abbrev pub is_safe_i64 : ℤ → Bool
is_safe_i64 n = in_i64 n && (is_safe n || eqb_ℤ n (negsuc (2 ^ 63 - 1)))

abbrev pub or_range : Bool → ℤ → List Step → Ctx → Option ℤ × Ctx
or_range safe n path cx = if safe then (some n, cx) else (none, fail path out_of_range cx)

unfoldable pub int_of_text : Option ℤ → List Step → Ctx → Option ℤ × Ctx
int_of_text none path cx = (none, fail path not_integer cx)
int_of_text (some n) path cx = or_range (is_safe_i64 n) n path cx

unfoldable pub int_of_number : Option F64 → List Step → Ctx → Option ℤ × Ctx
int_of_number (some (whole z)) path cx = or_range (is_safe z) z path cx
int_of_number (some neg_zero) path cx = (some (pos 0), cx)
int_of_number _ path cx = (none, fail path not_integer cx)

-- `parse_int_value`
unfoldable pub parse_int_value : Value → List Step → Ctx → Option ℤ × Ctx
unfolding int_of_text int_of_number
parse_int_value (text s) path cx = int_of_text (parse_int_str s) path cx
parse_int_value v path cx = int_of_number (lua_number v) path cx

module _ {T : Type 0} (lt : T → T → Bool) (clamp : Bool) (path : List Step) where
  raise_to : Option T → T → Ctx → Option T × Ctx
  raise_to none n cx = (some n, cx)
  raise_to (some lo) n cx =
      if lt n lo
      then if clamp then (some lo, cx) else (none, fail path below_min cx)
      else (some n, cx)

  lower_to : Option T → Option T × Ctx → Option T × Ctx
  lower_to hi (none, cx) = (none, cx)
  lower_to none (some n, cx) = (some n, cx)
  lower_to (some hi) (some n, cx) =
      if lt hi n
      then if clamp then (some hi, cx) else (none, fail path above_max cx)
      else (some n, cx)

-- `apply_bounds`, also where `check_number` repeats it for `f64`.
unfoldable pub apply_bounds :
    {T : Type 0} → (T → T → Bool) → Limits T → T → List Step → Ctx → Option T × Ctx
unfolding raise_to lower_to
apply_bounds lt l n path cx = lower_to lt l.clamp path l.max (raise_to lt l.clamp path l.min n cx)

abbrev pub int_found : Option ℤ × Ctx → Found
int_found (none, cx) = (none, cx)
int_found (some n, cx) = (some (number (of_i64 n)), cx)

abbrev pub int_default : Option ℤ → Option Value
int_default none = none
int_default (some d) = some (number (of_i64 d))

unfoldable pub bounded_int : Limits ℤ → List Step → Option ℤ × Ctx → Found
bounded_int l path (none, cx) = (none, cx)
bounded_int l path (some n, cx) = int_found (apply_bounds ltb_ℤ l n path cx)

-- `check_int`
unfoldable pub check_int : Value → Limits ℤ → List Step → Ctx → Found
unfolding bounded_int
check_int value l path cx =
    if is_blank value
    then default_or_required (int_default l.default) path cx
    else bounded_int l path (parse_int_value value path cx)

-- The bytes that a decimal float may hold.
is_float_byte : ℕ → Bool
is_float_byte c = (leb 48 c && leb c 57) || c == 46 || c == 101 || c == 69 || c == 43 || c == 45

all_float_bytes : Bytes → Bool
unfolding is_float_byte
all_float_bytes [] = true
all_float_bytes (c ∷ cs) = is_float_byte c && all_float_bytes cs

abbrev finite_only : Option F64 → Option F64
finite_only none = none
finite_only (some x) = if is_finite x then some x else none

float_body : Bool → Bytes → Option F64
unfolding all_float_bytes
float_body neg [] = none
float_body neg (c ∷ cs) =
    if ((leb 48 c && leb c 57) || c == 46) && all_float_bytes (c ∷ cs)
    then finite_only (parse_f64 neg (c ∷ cs))
    else none

-- `parse_float_str`
unfoldable pub parse_float_str : Bytes → Option F64
unfolding float_body
parse_float_str [] = none
parse_float_str (c ∷ cs) = if c == 45 then float_body true cs else float_body false (c ∷ cs)

unfoldable pub finite_number : Value → Option F64
finite_number (text s) = parse_float_str s
finite_number v = finite_only (lua_number v)

abbrev pub number_found : Option F64 × Ctx → Found
number_found (none, cx) = (none, cx)
number_found (some n, cx) = (some (number n), cx)

abbrev pub number_default : Option F64 → Option Value
number_default none = none
number_default (some d) = some (number d)

unfoldable pub bounded_number : Limits F64 → List Step → Ctx → Option F64 → Found
bounded_number l path cx none = failed path not_finite cx
bounded_number l path cx (some n) = number_found (apply_bounds f64_lt l n path cx)

-- `check_number`
unfoldable pub check_number : Value → Limits F64 → List Step → Ctx → Found
unfolding bounded_number
check_number value l path cx =
    if is_blank value
    then default_or_required (number_default l.default) path cx
    else bounded_number l path cx (finite_number value)
