-- ===== src/Validate/Conforms.antt =====
-- What a value has to be to conform to a schema, beside the code that checks it.
use lur.Base.{ℕ, suc, ◌≡◌, ◌<◌, ◌⊎◌, Bool, true, false, Option, none, some}
use lur.Base.Int.{ℤ, pos, ltb_ℤ}
use lur.Base.Bytes.{Bytes}
use lur.Float.{F64, of_i64}
use lur.Float.Order.{f64_lt}
use lur.Validate.Value.{
  Value, nil, boolean, number, text, table, Entries, text_key, int_key, get, char_count,
}
use lur.Validate.Schema.{
  Node, str_node, int_node, number_node, bool_node, one_of, list, object, optional, func, Fields,
  end, field, StrRule,
}
use lur.Validate.Order.{within, ordered}
use lur.Validate.Scalar.{Find, under, over, any_lit}
use lur.Validate.Check.{returned, Call, is_field}

abbrev pub FoundBy : Find → Option Bytes → Bytes → Type 0
FoundBy find none s = Unit {0}
FoundBy find (some p) s = find s p ≡ some true

abbrev pub FitsRule : Find → StrRule → Bytes → Type 0
FitsRule find r s =
    (under r.min_len (char_count s) ≡ false)
    × (over r.max_len (char_count s) ≡ false)
    × FoundBy find r.pattern s

-- What the constructors of schemas ensure: bounds in order, and the names of an object distinct, as
-- the keys of a table are.
abbrev mutual
  pub IsSchema : Node → Type 0
  IsSchema (int_node l) = ordered ltb_ℤ l.min l.max ≡ true
  IsSchema (number_node l) = ordered f64_lt l.min l.max ≡ true
  IsSchema (list item r) = IsSchema item
  IsSchema (object fields strict) = AreFields fields
  IsSchema (optional inner) = IsSchema inner
  IsSchema (str_node r) = Unit {0}
  IsSchema (bool_node d) = Unit {0}
  IsSchema (one_of options) = Unit {0}
  IsSchema (func f) = Unit {0}

  pub AreFields : Fields → Type 0
  AreFields end = Unit {0}
  AreFields (field name node fields) =
      IsSchema node × (is_field fields name ≡ false) × AreFields fields

module _ (find : Find) (call : Call) where
  abbrev mutual
    pub Conforms : Node → Value → Type 0
    Conforms (str_node r) v =
        (s : Bytes) × (v ≡ text s) × (FitsRule find r s ⊎ (r.default ≡ some s))
    Conforms (int_node l) v =
        (n : ℤ) × (v ≡ number (of_i64 n)) × ((within ltb_ℤ l n ≡ true) ⊎ (l.default ≡ some n))
    Conforms (number_node l) v =
        (n : F64) × (v ≡ number n) × ((within f64_lt l n ≡ true) ⊎ (l.default ≡ some n))
    Conforms (bool_node d) v = (b : Bool) × (v ≡ boolean b)
    Conforms (one_of options) v = any_lit options v ≡ true
    Conforms (list item r) v =
        (es : Entries) × (n : ℕ) × (v ≡ table es n)
        × (over r.max_items n ≡ false)
        × ((i : ℕ) → i < n → Conforms item (get (int_key (pos (suc i))) es))
    Conforms (object fields strict) v = (es : Entries) × (v ≡ table es 0) × ConformFields fields es
    Conforms (optional inner) v = (v ≡ nil) ⊎ Conforms inner v
    Conforms (func f) v = (x : Value) × (call f x ≡ returned v)

    -- Each field holds a value that conforms to its schema, `nil` if it is absent.
    pub ConformFields : Fields → Entries → Type 0
    ConformFields end es = Unit {0}
    ConformFields (field name node fields) es =
        Conforms node (get (text_key name) es) × ConformFields fields es
