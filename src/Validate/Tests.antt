-- ===== src/Validate/Tests.antt =====
-- A schema, some values, and the theorems about validation at them.
use lur.Base.{◌≡◌, ◌≤◌, ◌<◌, ◌⊎◌, refl, true, false, none, some, [], ◌∷◌, length, arith}
use lur.Base.Int.{ℤ, pos}
use lur.Base.Bytes.{Bytes, codes, bytes_eq}
use lur.Float.{F64, whole, frac, of_i64, round_53}
use lur.Validate.Value.{
  Value, Entries, null, number, text, table, empty, entry, text_key, int_key, get, sequence, count,
  values_from, put, char_count, lua_number,
}
use lur.Validate.Schema.{
  Node, str_node, int_node, list, object, optional, Fields, end, field, Limits, ListRule, max_depth,
  StrRule, str_schema, bool_schema, one_of_schema, int_schema, number_schema, list_schema,
  object_schema, optional_schema, depth, is_missing, has_default,
}
use lur.Validate.Issues.{Ctx, is_required, too_long, unknown_key, key, index, fail}
use lur.Validate.Scalar.{
  Find, parse_int_value, is_safe, parse_int_str, apply_bounds, bounded_int, check_int, check_length,
  check_pattern, check_str, check_str_node, checked_text, int_of_text, default_or_required,
}
use lur.Validate.Scalar.Safe.{least_i64, is_text, parse_int_value-safe}
use lur.Validate.Check.{
  is_field, returned, Call, invalid, no_issues, try, check, check_node, check_fields, within_depth,
  check_list, list_items, object_table, optional_skips, absent_if_null, check_items, stored,
  counted, reject_unknown_keys, verdict, tried,
}
use lur.Validate.Check.Entry.{Capped, try-Capped}
use lur.Validate.Conforms.{AreFields, Conforms}
use lur.Validate.Schema.Accepts.{AreMade, Accepted, schemas-Accepted}

-- A text is found if it is the pattern, and a validator function returns what it is given.
abbrev find : Find
find s p = some (bytes_eq s p)

abbrev call : Call
call f v = returned v

abbrev from_one_to_nine : Limits ℤ
from_one_to_nine = record { min = some (pos 1); max = some (pos 9); default = none; clamp = true }

abbrev no_limits : Limits F64
no_limits = record {
  min = none;
  max = some (frac 4609434218613702656);
  default = none;
  clamp = false;
}

abbrev short : Node
short = str_node (record { pattern = none; min_len = none; max_len = some 3; default = none })

abbrev few : ListRule
few = record { min_items = some 1; max_items = some 2 }

abbrev fields : Fields
fields =
    field (codes "age") (int_node from_one_to_nine)
      (field (codes "note") (optional short) (field (codes "tags") (list short few) end))

abbrev person : Node
person = object fields true

abbrev tags : Bytes → Value
tags t = table (entry (int_key (pos 1)) (text t) empty) 1

abbrev good : Value
good =
    table
      (entry (text_key (codes "age")) (text (codes "42")) (
        entry (text_key (codes "note")) null
          (entry (text_key (codes "tags")) (tags (codes "abc")) empty)))
      0

abbrev cleaned : Value
cleaned =
    table
      (entry (text_key (codes "age")) (number (whole (pos 9)))
        (entry (text_key (codes "tags")) (tags (codes "abc")) empty))
      0

-- The tag is too long, the age is missing, and one key is not known.
abbrev bad : Value
bad =
    table
      (entry (text_key (codes "tags")) (tags (codes "abcd")) (entry (int_key (pos 1)) null empty)) 0

abbrev refusal : Ctx
refusal = record {
  issues =
      record { path = key (text_key (codes "age")) ∷ []; message = is_required }
      ∷ record { path = key (text_key (codes "tags")) ∷ index 1 ∷ []; message = too_long }
      ∷ record { path = key (int_key (pos 1)) ∷ []; message = unknown_key }
      ∷ [];
  truncated = false;
}

refuses : try find call person bad ≡ invalid refusal
unfolding try check check_node check_fields within_depth check_list list_items object_table
    optional_skips absent_if_null get sequence count values_from put char_count lua_number of_i64
    round_53 check_items stored counted is_field reject_unknown_keys verdict tried apply_bounds
    bounded_int check_int check_length check_pattern check_str check_str_node checked_text
    parse_int_value parse_int_str int_of_text default_or_required fail bytes_eq is_missing
    has_default
refuses = refl

shallow : depth person ≤ max_depth
unfolding depth
shallow = omega arith

names_distinct : AreFields fields
unfolding is_field bytes_eq
names_distinct = (refl, refl, (tt, refl, (tt, refl, tt)))

try-Capped_example : (0 < length refusal.issues) × Capped refusal
try-Capped_example = try-Capped find call person bad refusal names_distinct shallow refuses

reads_least :
    (parse_int_value (text (codes "-9223372036854775808")) [] no_issues).0 ≡ some least_i64
unfolding parse_int_value parse_int_str
reads_least = refl

parse_int_value-safe_example :
    (is_safe least_i64 ≡ true)
    ⊎ ((least_i64 ≡ least_i64) × (is_text (text (codes "-9223372036854775808")) ≡ true))
parse_int_value-safe_example =
    parse_int_value-safe (text (codes "-9223372036854775808")) least_i64 [] no_issues reads_least

fields-AreMade : AreMade fields
unfolding is_field bytes_eq
fields-AreMade = (refl, refl, (refl, refl, ((refl, refl), refl, tt)))

abbrev short_rule : StrRule
short_rule = record { pattern = none; min_len = some 1; max_len = some 3; default = none }

abbrev choices : Entries
choices =
    entry (int_key (pos 1)) (text (codes "a"))
      (entry (int_key (pos 2)) (number (whole (pos 1))) empty)

schemas-Accepted_example :
    Accepted (str_schema short_rule)
    × Accepted (int_schema from_one_to_nine)
    × Accepted (number_schema no_limits)
    × Accepted (bool_schema none)
    × Accepted (one_of_schema choices 2)
    × Accepted (list_schema short few)
    × Accepted (object_schema fields true)
    × Accepted (optional_schema short)
schemas-Accepted_example =
    schemas-Accepted short_rule from_one_to_nine no_limits none choices 2 short few fields true refl
      fields-AreMade
