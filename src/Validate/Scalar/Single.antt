-- ===== src/Validate/Scalar/Single.antt =====
-- What a check of a scalar finds and records (src/capabilities/validate.rs).
use lur.Base.{
  ◌≡◌, ◌⊎◌, refl, inl, inr, Bool, Bool-cases, true, false, Option, none, some, List, is_some,
  if◌then◌else◌,
}
use lur.Base.Int.{ℤ, ltb_ℤ}
use lur.Base.Bytes.{codes, bytes_eq}
use lur.Float.{F64, whole, neg_zero, frac, inf, nan}
use lur.Float.Order.{f64_lt}
use lur.Validate.Value.{Value, nil, null, other, boolean, integer, number, text, table, lua_number}
use lur.Validate.Schema.{Lit, Limits}
use lur.Validate.Issues.{
  Step, Message, nested_too_deeply, is_required, not_boolean, not_one_of, out_of_range, not_integer,
  not_finite, below_min, above_max, Ctx, fail, failed,
}
use lur.Validate.Scalar.{
  default_or_required, is_blank, read_bool, bool_default, check_bool, check_one_of, int_of_text,
  int_of_number, or_range, parse_int_str, parse_int_value, raise_to, lower_to, apply_bounds,
  int_found, int_default, bounded_int, check_int, finite_number, number_found, number_default,
  bounded_number, check_number, is_safe, is_safe_i64,
}

abbrev pub is_nested : Message → Bool
is_nested nested_too_deeply = true
is_nested _ = false

abbrev pub Single : {A : Type 0} → Ctx → Option A × Ctx → Type 0
Single cx (v, cx') =
    ((is_some v ≡ true) × (cx' ≡ cx))
    ⊎ ((path : List Step) × (m : Message) × (is_nested m ≡ false)
        × (v ≡ none)
        × (cx' ≡ fail path m cx))

one :
    {A : Type 0} (path : List Step) (m : Message) (cx : Ctx)
    → is_nested m ≡ false
    → Single {A = A} cx (none, fail path m cx)
one path m cx h = inr (path, m, h, refl, refl)

pub default_or_required-Single :
    (d : Option Value) (path : List Step) (cx : Ctx) → Single cx (default_or_required d path cx)
unfolding default_or_required
default_or_required-Single none path cx = one path is_required cx refl
default_or_required-Single (some d) path cx = inl (refl, refl)

read_bool-Single : (v : Value) (path : List Step) (cx : Ctx) → Single cx (read_bool v path cx)
unfolding read_bool
read_bool-Single (boolean b) path cx = inl (refl, refl)
read_bool-Single (text s) path cx = elim (Bool-cases (bytes_eq s (codes "true"))) [
  | inl yes' ↦ rw yes' (inl (refl, refl))
  | inr no' ↦ elim (Bool-cases (bytes_eq s (codes "false"))) [
    | inl off ↦ rw (no', off) (inl (refl, refl))
    | inr bad ↦ rw (no', bad) (one path not_boolean cx refl)
  ]
]
read_bool-Single nil path cx = one path not_boolean cx refl
read_bool-Single null path cx = one path not_boolean cx refl
read_bool-Single other path cx = one path not_boolean cx refl
read_bool-Single (integer i) path cx = one path not_boolean cx refl
read_bool-Single (number x) path cx = one path not_boolean cx refl
read_bool-Single (table es len) path cx = one path not_boolean cx refl

pub check_bool-Single :
    (d : Option Bool) (v : Value) (path : List Step) (cx : Ctx) → Single cx (check_bool d v path cx)
unfolding check_bool
check_bool-Single d v path cx = elim (Bool-cases (is_blank v)) [
  | inl blank ↦ rw blank (default_or_required-Single (bool_default d) path cx)
  | inr full ↦ rw full (read_bool-Single v path cx)
]

lit-Single :
    (b : Bool) (v : Value) (path : List Step) (cx : Ctx)
    → Single cx (if b then (some v, cx) else failed path not_one_of cx)
lit-Single true v path cx = inl (refl, refl)
lit-Single false v path cx = one path not_one_of cx refl

pub check_one_of-Single :
    (options : List Lit) (v : Value) (path : List Step) (cx : Ctx)
    → Single cx (check_one_of options v path cx)
unfolding check_one_of
check_one_of-Single options nil path cx = one path is_required cx refl
check_one_of-Single options (boolean b) path cx = lit-Single _ (boolean b) path cx
check_one_of-Single options (text s) path cx = lit-Single _ (text s) path cx
check_one_of-Single options null path cx = lit-Single _ null path cx
check_one_of-Single options other path cx = lit-Single _ other path cx
check_one_of-Single options (integer i) path cx = lit-Single _ (integer i) path cx
check_one_of-Single options (number x) path cx = lit-Single _ (number x) path cx
check_one_of-Single options (table es len) path cx = lit-Single _ (table es len) path cx

or_range-Single :
    (b : Bool) (n : ℤ) (path : List Step) (cx : Ctx) → Single cx (or_range b n path cx)
or_range-Single true n path cx = inl (refl, refl)
or_range-Single false n path cx = one path out_of_range cx refl

int_of_number-Single :
    (x : Option F64) (path : List Step) (cx : Ctx) → Single cx (int_of_number x path cx)
unfolding int_of_number
int_of_number-Single (some (whole z)) path cx = or_range-Single (is_safe z) z path cx
int_of_number-Single (some neg_zero) path cx = inl (refl, refl)
int_of_number-Single (some (frac b)) path cx = one path not_integer cx refl
int_of_number-Single (some (inf s)) path cx = one path not_integer cx refl
int_of_number-Single (some nan) path cx = one path not_integer cx refl
int_of_number-Single none path cx = one path not_integer cx refl

int_of_text-Single :
    (n : Option ℤ) (path : List Step) (cx : Ctx) → Single cx (int_of_text n path cx)
unfolding int_of_text
int_of_text-Single none path cx = one path not_integer cx refl
int_of_text-Single (some n) path cx = or_range-Single (is_safe_i64 n) n path cx

parse_int_value-Single :
    (v : Value) (path : List Step) (cx : Ctx) → Single cx (parse_int_value v path cx)
unfolding parse_int_value
parse_int_value-Single (text s) path cx = int_of_text-Single (parse_int_str s) path cx
parse_int_value-Single nil path cx = int_of_number-Single (lua_number nil) path cx
parse_int_value-Single null path cx = int_of_number-Single (lua_number null) path cx
parse_int_value-Single other path cx = int_of_number-Single (lua_number other) path cx
parse_int_value-Single (boolean b) path cx = int_of_number-Single (lua_number (boolean b)) path cx
parse_int_value-Single (integer i) path cx = int_of_number-Single (lua_number (integer i)) path cx
parse_int_value-Single (number x) path cx = int_of_number-Single (lua_number (number x)) path cx
parse_int_value-Single (table es len) path cx =
    int_of_number-Single (lua_number (table es len)) path cx

module _ {T : Type 0} (lt : T → T → Bool) (clamp : Bool) (path : List Step) where
  branch-Single :
      (b : Bool) (n k : T) (m : Message) (cx : Ctx)
      → is_nested m ≡ false
      → Single cx
          (if b then if clamp then (some k, cx) else (none, fail path m cx) else (some n, cx))
  branch-Single b n k m cx h = elim (Bool-cases b) [
    | inl out ↦ elim (Bool-cases clamp) [
      | inl pull ↦ rw (out, pull) (inl (refl, refl))
      | inr drop' ↦ rw (out, drop') (one path m cx h)
    ]
    | inr within ↦ rw within (inl (refl, refl))
  ]

  raise_to-Single : (lo : Option T) (n : T) (cx : Ctx) → Single cx (raise_to lt clamp path lo n cx)
  unfolding raise_to
  raise_to-Single none n cx = inl (refl, refl)
  raise_to-Single (some lo) n cx = branch-Single (lt n lo) n lo below_min cx refl

  lower_to-Single :
      (hi : Option T) (r : Option T × Ctx) (cx : Ctx)
      → Single cx r
      → Single cx (lower_to lt clamp path hi r)
  unfolding lower_to
  lower_to-Single hi (none, cx') cx h = h
  lower_to-Single none (some n, cx') cx h = h
  lower_to-Single (some hi) (some n, cx') cx (inl (got, e)) =
      rw e (branch-Single (lt hi n) n hi above_max cx refl)
  lower_to-Single (some hi) (some n, cx') cx (inr (p, m, o, gone, e)) = cc

apply_bounds-Single :
    {T : Type 0} (lt : T → T → Bool) (l : Limits T) (n : T) (path : List Step) (cx : Ctx)
    → Single cx (apply_bounds lt l n path cx)
unfolding apply_bounds
apply_bounds-Single lt l n path cx =
    lower_to-Single lt l.clamp path l.max _ cx (raise_to-Single lt l.clamp path l.min n cx)

int_found-Single : (r : Option ℤ × Ctx) (cx : Ctx) → Single cx r → Single cx (int_found r)
int_found-Single (none, cx') cx (inl (got, e)) = cc
int_found-Single (none, cx') cx (inr (p, m, o, gone, e)) = inr (p, m, o, refl, e)
int_found-Single (some n, cx') cx (inl (got, e)) = inl (refl, e)
int_found-Single (some n, cx') cx (inr (p, m, o, gone, e)) = cc

bounded_int-Single :
    (l : Limits ℤ) (path : List Step) (r : Option ℤ × Ctx) (cx : Ctx)
    → Single cx r
    → Single cx (bounded_int l path r)
unfolding bounded_int
bounded_int-Single l path (none, cx') cx (inl (got, e)) = cc
bounded_int-Single l path (none, cx') cx (inr (p, m, o, gone, e)) = inr (p, m, o, refl, e)
bounded_int-Single l path (some n, cx') cx (inl (got, e)) =
    rw e (int_found-Single _ cx (apply_bounds-Single ltb_ℤ l n path cx))
bounded_int-Single l path (some n, cx') cx (inr (p, m, o, gone, e)) = cc

pub check_int-Single :
    (v : Value) (l : Limits ℤ) (path : List Step) (cx : Ctx) → Single cx (check_int v l path cx)
unfolding check_int
check_int-Single v l path cx = elim (Bool-cases (is_blank v)) [
  | inl blank ↦ rw blank (default_or_required-Single (int_default l.default) path cx)
  | inr full ↦ rw full (bounded_int-Single l path _ cx (parse_int_value-Single v path cx))
]

number_found-Single : (r : Option F64 × Ctx) (cx : Ctx) → Single cx r → Single cx (number_found r)
number_found-Single (none, cx') cx (inl (got, e)) = cc
number_found-Single (none, cx') cx (inr (p, m, o, gone, e)) = inr (p, m, o, refl, e)
number_found-Single (some n, cx') cx (inl (got, e)) = inl (refl, e)
number_found-Single (some n, cx') cx (inr (p, m, o, gone, e)) = cc

bounded_number-Single :
    (l : Limits F64) (path : List Step) (cx : Ctx) (n : Option F64)
    → Single cx (bounded_number l path cx n)
unfolding bounded_number
bounded_number-Single l path cx none = one path not_finite cx refl
bounded_number-Single l path cx (some n) =
    number_found-Single _ cx (apply_bounds-Single f64_lt l n path cx)

pub check_number-Single :
    (v : Value) (l : Limits F64) (path : List Step) (cx : Ctx)
    → Single cx (check_number v l path cx)
unfolding check_number
check_number-Single v l path cx = elim (Bool-cases (is_blank v)) [
  | inl blank ↦ rw blank (default_or_required-Single (number_default l.default) path cx)
  | inr full ↦ rw full (bounded_number-Single l path cx (finite_number v))
]
