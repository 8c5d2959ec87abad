-- ===== src/Validate/Schema/Accepts.antt =====
-- What the constructors of schemas ensure (src/capabilities/validate.rs).
use lur.Base.{
  ℕ, ◌≡◌, ◌≢◌, ◌≤◌, refl, inl, inr, Bool, Bool-cases, true, false, Option, none, some, List, [],
  ◌∷◌, ltb, arith,
}
use lur.Base.Int.{ℤ, ltb_ℤ}
use lur.Float.{F64, whole, neg_zero, frac, inf, nan}
use lur.Float.Order.{f64_lt}
use lur.Validate.Value.{
  Value, nil, null, boolean, integer, number, text, table, other, Entries, sequence, lua_number,
}
use lur.Validate.Order.{ordered}
use lur.Validate.Schema.{
  Lit, str, num, bool, StrRule, Node, str_node, int_node, number_node, bool_node, one_of, list,
  object, optional, func, Fields, end, field, Limits, ListRule, max_depth, depth, Built, ok, err,
  range_check, schema, ranged, str_schema, int_schema, number_schema, bool_schema, list_schema,
  object_schema, optional_schema, literal_number, one_of_literal, literals, one_of_items,
  one_of_schema,
}
use lur.Validate.Check.{is_field}
use lur.Validate.Conforms.{IsSchema, AreFields}

-- A literal that a value can be: not NaN.
abbrev pub IsLit : Lit → Type 0
IsLit (str s) = Unit {0}
IsLit (num x) = x ≢ nan
IsLit (bool b) = Unit {0}

abbrev pub AreLits : List Lit → Type 0
AreLits [] = Unit {0}
AreLits (lit ∷ lits) = IsLit lit × AreLits lits

-- What the library promises of a schema: the bounds of texts, numbers and lists are in order, the
-- values to choose from are some and none is NaN, and the names of an object are distinct, as the
-- keys of a table are; in all of its parts.
abbrev mutual
  pub IsMade : Node → Type 0
  IsMade (str_node r) = ordered ltb r.min_len r.max_len ≡ true
  IsMade (int_node l) = ordered ltb_ℤ l.min l.max ≡ true
  IsMade (number_node l) = ordered f64_lt l.min l.max ≡ true
  IsMade (bool_node d) = Unit {0}
  IsMade (one_of options) = (options ≢ []) × AreLits options
  IsMade (list item r) = (ordered ltb r.min_items r.max_items ≡ true) × IsMade item
  IsMade (object fields strict) = AreMade fields
  IsMade (optional inner) = IsMade inner
  IsMade (func f) = Unit {0}

  pub AreMade : Fields → Type 0
  AreMade end = Unit {0}
  AreMade (field name node fields) = IsMade node × (is_field fields name ≡ false) × AreMade fields

mutual
  IsMade-IsSchema : (node : Node) → IsMade node → IsSchema node
  IsMade-IsSchema (str_node r) m = tt
  IsMade-IsSchema (int_node l) m = m
  IsMade-IsSchema (number_node l) m = m
  IsMade-IsSchema (bool_node d) m = tt
  IsMade-IsSchema (one_of options) m = tt
  IsMade-IsSchema (list item r) m = IsMade-IsSchema item m.1
  IsMade-IsSchema (object fields strict) m = AreMade-AreFields fields m
  IsMade-IsSchema (optional inner) m = IsMade-IsSchema inner m
  IsMade-IsSchema (func f) m = tt

  AreMade-AreFields : (fields : Fields) → AreMade fields → AreFields fields
  AreMade-AreFields end m = tt
  AreMade-AreFields (field name node fields) (n, distinct, m) =
      (IsMade-IsSchema node n, distinct, AreMade-AreFields fields m)

-- A constructor's result: an error, or a schema that is as promised, nests at most 64 deep, and meets
-- what the check of a value takes for granted.
abbrev pub Accepted : Built Node → Type 0
Accepted (ok node) = IsMade node × (depth node ≤ max_depth) × IsSchema node
Accepted (err e) = Unit {0}

schema-Accepted : (node : Node) → IsMade node → Accepted (schema node)
unfolding schema
schema-Accepted node m = elim (Bool-cases (ltb max_depth (depth node))) [
  | inl deep ↦ rw deep tt
  | inr fits ↦ rw fits (m, ground arith, IsMade-IsSchema node m)
]

ranged-Accepted :
    {T : Type 0} (lt : T → T → Bool) (lo hi : Option T) (node : Node)
    → (ordered lt lo hi ≡ true → IsMade node)
    → Accepted (ranged (range_check (λ a b. lt b a) lo hi) node)
unfolding range_check
ranged-Accepted lt none hi node f = schema-Accepted node (f refl)
ranged-Accepted lt (some a) none node f = schema-Accepted node (f refl)
ranged-Accepted lt (some a) (some b) node f = elim (Bool-cases (lt b a)) [
  | inl apart ↦ rw apart tt
  | inr fine ↦ rw fine (schema-Accepted node (f (rw fine refl)))
]

abbrev LitOf : Built Lit → Type 0
LitOf (ok lit) = IsLit lit
LitOf (err e) = Unit {0}

abbrev LitsOf : List Value → Built (List Lit) → Type 0
LitsOf vs (ok []) = vs ≡ []
LitsOf vs (ok (lit ∷ lits)) = IsLit lit × AreLits lits
LitsOf vs (err e) = Unit {0}

literal_number-LitOf : (x : Option F64) → LitOf (literal_number x)
unfolding one_of_literal
literal_number-LitOf none = tt
literal_number-LitOf (some nan) = tt
literal_number-LitOf (some (whole n)) = λ e. cc e
literal_number-LitOf (some neg_zero) = λ e. cc e
literal_number-LitOf (some (frac n)) = λ e. cc e
literal_number-LitOf (some (inf b)) = λ e. cc e

one_of_literal-LitOf : (v : Value) → LitOf (one_of_literal v)
unfolding one_of_literal
one_of_literal-LitOf nil = literal_number-LitOf (lua_number nil)
one_of_literal-LitOf null = literal_number-LitOf (lua_number null)
one_of_literal-LitOf other = literal_number-LitOf (lua_number other)
one_of_literal-LitOf (boolean b) = tt
one_of_literal-LitOf (integer n) = literal_number-LitOf (lua_number (integer n))
one_of_literal-LitOf (number x) = literal_number-LitOf (lua_number (number x))
one_of_literal-LitOf (text t) = tt
one_of_literal-LitOf (table es n) = literal_number-LitOf (lua_number (table es n))

LitsOf-AreLits : (vs : List Value) (lits : List Lit) → LitsOf vs (ok lits) → AreLits lits
LitsOf-AreLits vs [] h = tt
LitsOf-AreLits vs (lit ∷ lits) h = h

cons-LitsOf :
    (v : Value) (vs : List Value) (lit : Built Lit) (lits : Built (List Lit))
    → LitOf lit
    → LitsOf vs lits
    → LitsOf
        (v ∷ vs)
        (elim lit [ err e ↦ err e | ok l ↦ elim lits [ err e ↦ err e | ok ls ↦ ok (l ∷ ls) ] ])
cons-LitsOf v vs (err e) lits h hs = tt
cons-LitsOf v vs (ok l) (err e) h hs = tt
cons-LitsOf v vs (ok l) (ok ls) h hs = (h, LitsOf-AreLits vs ls hs)

literals-LitsOf : (vs : List Value) → LitsOf vs (literals vs)
unfolding literals
literals-LitsOf [] = refl
literals-LitsOf (v ∷ vs) =
    cons-LitsOf v vs (one_of_literal v) (literals vs) (one_of_literal-LitOf v) (literals-LitsOf vs)

one_of-Accepted :
    (v : Value) (vs : List Value) (lits : Built (List Lit))
    → LitsOf (v ∷ vs) lits
    → Accepted (elim lits [ err e ↦ err e | ok ls ↦ schema (one_of ls) ])
one_of-Accepted v vs (err e) h = tt
one_of-Accepted v vs (ok []) h = absurd (cc h)
one_of-Accepted v vs (ok (lit ∷ lits)) h = schema-Accepted (one_of (lit ∷ lits)) (λ e. cc e, h)

one_of_items-Accepted : (vs : Option (List Value)) → Accepted (one_of_items vs)
unfolding one_of_schema
one_of_items-Accepted none = tt
one_of_items-Accepted (some []) = tt
one_of_items-Accepted (some (v ∷ vs)) =
    one_of-Accepted v vs (literals (v ∷ vs)) (literals-LitsOf (v ∷ vs))

-- Whatever options they are given, the constructors hand out only schemas that nest at most 64 deep,
-- and in all of whose parts the bounds of texts, numbers and lists are in order, the values to choose
-- from are some and none of them is NaN; and such a schema meets what the check of a value takes for
-- granted. The schemas they are made of have to have bounds and values of that kind already, as all
-- have that scripts hold, and the field names of an object have to be distinct.
pub schemas-Accepted :
    (q : StrRule) (l : Limits ℤ) (m : Limits F64) (d : Option Bool) (es : Entries) (len : ℕ)
    (item : Node) (r : ListRule) (fields : Fields) (strict : Bool)
    → IsMade item
    → AreMade fields
    → Accepted (str_schema q)
      × Accepted (int_schema l)
      × Accepted (number_schema m)
      × Accepted (bool_schema d)
      × Accepted (one_of_schema es len)
      × Accepted (list_schema item r)
      × Accepted (object_schema fields strict)
      × Accepted (optional_schema item)
unfolding str_schema int_schema number_schema bool_schema one_of_schema list_schema object_schema
    optional_schema
schemas-Accepted q l m d es len item r fields strict o p = (
  ranged-Accepted ltb q.min_len q.max_len (str_node q) (λ h. h),
  ranged-Accepted ltb_ℤ l.min l.max (int_node l) (λ h. h),
  ranged-Accepted f64_lt m.min m.max (number_node m) (λ h. h),
  schema-Accepted (bool_node d) tt,
  one_of_items-Accepted (sequence es len),
  ranged-Accepted ltb r.min_items r.max_items (list item r) (λ h. (h, o)),
  schema-Accepted (object fields strict) p,
  schema-Accepted (optional item) o,
)
