-- ===== src/Validate/Schema.antt =====
-- The schemas: the tree `Node` and what its constructors in Lua check (src/capabilities/validate.rs).
pub mod Accepts
use lur.Base.{
  ℕ, zero, suc, ◌+◌, ◌≡◌, ◌≤◌, Bool, true, false, not, ◌&&◌, ◌||◌, Option, none, some, List, [],
  ◌∷◌, max, is_some, ltb, leb, ◌==◌, if◌then◌else◌,
}
use lur.Base.Int.{ℤ, pos, negsuc, ltb_ℤ}
use lur.Base.Bytes.{Bytes, bytes_eq}
use lur.Float.{F64, nan}
use lur.Float.Order.{f64_lt}
use lur.Validate.Value.{Value, nil, text, boolean, Entries, sequence, lua_number}

pub data Lit : Type 0 where
  str : Bytes → Lit
  num : F64 → Lit
  bool : Bool → Lit

pub record StrRule : Type 0 where
  pub pattern : Option Bytes
  pub min_len : Option ℕ
  pub max_len : Option ℕ
  pub default : Option Bytes

pub record Limits (T : Type 0) : Type 0 where
  pub min : Option T
  pub max : Option T
  pub default : Option T
  pub clamp : Bool

pub record ListRule : Type 0 where
  pub min_items : Option ℕ
  pub max_items : Option ℕ

-- A function of Lua is known by a number.
mutual
  pub data Node : Type 0 where
    str_node : StrRule → Node
    int_node : Limits ℤ → Node
    number_node : Limits F64 → Node
    bool_node : Option Bool → Node
    one_of : List Lit → Node
    list : Node → ListRule → Node
    object : Fields → Bool → Node
    optional : Node → Node
    func : ℕ → Node

  pub data Fields : Type 0 where
    end : Fields
    field : Bytes → Node → Fields → Fields

abbrev pub max_depth : ℕ
max_depth = 64

-- `Node::depth`
unfoldable mutual
  pub depth : Node → ℕ
  depth (list item r) = 1 + depth item
  depth (optional inner) = 1 + depth inner
  depth (object fields strict) = 1 + depth_fields fields
  depth (str_node r) = 1
  depth (int_node l) = 1
  depth (number_node l) = 1
  depth (bool_node d) = 1
  depth (one_of options) = 1
  depth (func f) = 1

  pub depth_fields : Fields → ℕ
  depth_fields end = 0
  depth_fields (field name node fields) = max (depth node) (depth_fields fields)

-- `Node::has_default`
unfoldable pub has_default : Node → Bool
has_default (str_node r) = is_some r.default
has_default (int_node l) = is_some l.default
has_default (number_node l) = is_some l.default
has_default (bool_node d) = is_some d
has_default (optional inner) = has_default inner
has_default _ = false

-- `Node::is_missing`
empty_is_missing : Node → Bool
empty_is_missing (int_node l) = true
empty_is_missing (number_node l) = true
empty_is_missing (bool_node d) = true
empty_is_missing (optional inner) = empty_is_missing inner
empty_is_missing _ = false

unfoldable pub is_missing : Node → Value → Bool
unfolding empty_is_missing
is_missing node nil = true
is_missing node (text []) = empty_is_missing node
is_missing node _ = false

pub data SchemaError : Type 0 where
  bad_range too_deep not_array no_values bad_literal : SchemaError

pub data Built {ℓ} (A : Type ℓ) : Type ℓ where
  ok : A → Built A
  err : SchemaError → Built A

-- `range_check`, with `>` of the type.
unfoldable pub range_check : {T : Type 0} → (T → T → Bool) → Option T → Option T → Built (Unit {0})
range_check gt (some a) (some b) = if gt a b then err bad_range else ok tt
range_check gt (some a) none = ok tt
range_check gt none hi = ok tt

-- `schema`
unfoldable pub schema : Node → Built Node
schema node = if ltb max_depth (depth node) then err too_deep else ok node

abbrev pub ranged : Built (Unit {0}) → Node → Built Node
ranged (ok u) node = schema node
ranged (err e) node = err e

-- The constructors, from options that were read already.
unfoldable pub str_schema : StrRule → Built Node
str_schema r = ranged (range_check (λ a b. ltb b a) r.min_len r.max_len) (str_node r)

unfoldable pub int_schema : Limits ℤ → Built Node
int_schema l = ranged (range_check (λ a b. ltb_ℤ b a) l.min l.max) (int_node l)

unfoldable pub number_schema : Limits F64 → Built Node
number_schema l = ranged (range_check (λ a b. f64_lt b a) l.min l.max) (number_node l)

unfoldable pub bool_schema : Option Bool → Built Node
bool_schema d = schema (bool_node d)

unfoldable pub list_schema : Node → ListRule → Built Node
list_schema item r = ranged (range_check (λ a b. ltb b a) r.min_items r.max_items) (list item r)

unfoldable pub object_schema : Fields → Bool → Built Node
object_schema fields strict = schema (object fields strict)

unfoldable pub optional_schema : Node → Built Node
optional_schema inner = schema (optional inner)

literal_number : Option F64 → Built Lit
literal_number none = err bad_literal
literal_number (some nan) = err bad_literal
literal_number (some x) = ok (num x)

-- `one_of_literal`
unfoldable pub one_of_literal : Value → Built Lit
unfolding literal_number
one_of_literal (text s) = ok (str s)
one_of_literal (boolean b) = ok (bool b)
one_of_literal v = literal_number (lua_number v)

-- The literals of the items, up to the first that is none.
unfoldable pub literals : List Value → Built (List Lit)
literals [] = ok []
literals (v ∷ vs) =
    let rest = literals vs in
    elim (one_of_literal v) [
      | err e ↦ err e
      | ok lit ↦ elim rest [ err e ↦ err e | ok lits ↦ ok (lit ∷ lits) ]
    ]

one_of_items : Option (List Value) → Built Node
one_of_items none = err not_array
one_of_items (some []) = err no_values
one_of_items (some (v ∷ vs)) = elim (literals (v ∷ vs)) [
  | err e ↦ err e
  | ok lits ↦ schema (one_of lits)
]

-- `one_of_schema` of a table
unfoldable pub one_of_schema : Entries → ℕ → Built Node
unfolding one_of_items
one_of_schema es len = one_of_items (sequence es len)
