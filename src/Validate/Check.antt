-- ===== src/Validate/Check.antt =====
-- The check of a value against a schema, and the entry point `try` (src/capabilities/validate.rs).
-- Lua is reached through `find`, `string.find`, and `call`, which calls a validator function.
pub mod Ends
pub mod Keeps
pub mod Weight
pub mod Scalars
pub mod Tables
pub mod Items
pub mod Sound
pub mod Entry
use lur.Base.{
  ℕ, zero, suc, ◌+◌, Bool, true, false, not, ◌&&◌, ◌||◌, Option, none, some, List, [], ◌∷◌, ◌++◌,
  length, ltb, leb, ◌==◌, if◌then◌else◌,
}
use lur.Base.Int.{pos}
use lur.Base.Bytes.{Bytes, bytes_eq}
use lur.Validate.Value.{
  Value, nil, null, other, boolean, integer, number, text, table, Entries, empty, entry, Key,
  text_key, int_key, num_key, other_key, get, put, is_nil, sequence,
}
use lur.Validate.Schema.{
  Node, str_node, int_node, number_node, bool_node, one_of, list, object, optional, func, Fields,
  end, field, ListRule, max_depth, has_default, is_missing,
}
use lur.Validate.Issues.{
  Issue, Step, key, index, nested_too_deeply, is_required, not_list, too_few, too_many, not_object,
  unknown_key, user, Ctx, fail, failed, Out, done, raised, finished, and_then,
}
use lur.Validate.Scalar.{
  Find, under, over, check_str_node, check_bool, check_one_of, check_int, check_number,
}
use lur.Validate.Message.{validator_message}

-- How a call of a Lua function ends: with a value, with an error that has a text, or with another.
pub data Called : Type 0 where
  returned : Value → Called
  threw : Bytes → Called
  broken : Called

abbrev pub Call : Type 0
Call = ℕ → Value → Called

told : Option Bytes → List Step → Ctx → Out (Option Value)
told none path cx = raised
told (some message) path cx = done none (fail path (user message) cx)

-- `check_func`
unfoldable pub check_func : Called → List Step → Ctx → Out (Option Value)
unfolding told
check_func (returned v) path cx = done (some v) cx
check_func (threw message) path cx = told (validator_message message) path cx
check_func broken path cx = raised

abbrev is_func : Node → Bool
is_func (func f) = true
is_func _ = false

-- `optional_skips`
unfoldable pub optional_skips : Node → Value → Bool
optional_skips inner value =
    (is_missing inner value && not (has_default inner)) || (is_nil value && is_func inner)

reaches_func : Node → Bool
reaches_func (optional inner) = reaches_func inner
reaches_func (func f) = true
reaches_func _ = false

-- `absent_if_null`
unfoldable pub absent_if_null : Node → Value → Value
unfolding reaches_func
absent_if_null node null = if reaches_func node then null else nil
absent_if_null node value = value

-- A check of a value at a path and a depth.
abbrev pub Checker : Type 0
Checker = Value → List Step → ℕ → Ctx → Out (Option Value)

-- The items of a value, if its shape and its length are right.
abbrev Items : Type 0
Items = Option (List Value) × Ctx

sized : ListRule → List Step → Ctx → Option (List Value) → Items
sized r path cx none = (none, fail path not_list cx)
sized r path cx (some vs) =
    if under r.min_items (length vs)
    then (none, fail path too_few cx)
    else if over r.max_items (length vs)
    then (none, fail path too_many cx)
    else (some vs, cx)

-- `list_items`
unfoldable pub list_items : ListRule → Value → List Step → Ctx → Items
unfolding sized
list_items r nil path cx = (none, fail path is_required cx)
list_items r (table es len) path cx = sized r path cx (sequence es len)
list_items r _ path cx = sized r path cx none

-- `Value::Nil` and a failed check leave the table as it is.
unfoldable pub stored : Key → Option Value → Entries → Entries
stored k none out = out
stored k (some nil) out = out
stored k (some v) out = put k v out

unfoldable pub counted : Option Value → ℕ → ℕ
counted none n = n
counted (some nil) n = n
counted (some v) n = suc n

-- The loop of `check_list` from index `i` on, with `n` items in `out`.
unfoldable pub check_items :
    Checker → List Step → ℕ → ℕ → ℕ → Entries → List Value → Ctx → Out (Entries × ℕ)
unfolding stored counted
check_items item path depth i n out [] cx = done (out, n) cx
check_items item path depth i n out (v ∷ vs) cx =
    if cx.truncated
    then done (out, n) cx
    else and_then (item v (path ++ index i ∷ []) (suc depth) cx) (λ w cx'.
      check_items item path depth (suc i) (counted w n) (stored (int_key (pos (suc n))) w out) vs
        cx')

-- The result, unless an issue was recorded since there were `before` of them.
abbrev pub if_clean : ℕ → Value → Ctx → Out (Option Value)
if_clean before v cx =
    done (if length cx.issues == before && not cx.truncated then some v else none) cx

list_result : Checker → List Step → ℕ → Items → Out (Option Value)
unfolding check_items
list_result item path depth (none, cx) = done none cx
list_result item path depth (some vs, cx) =
    and_then (check_items item path depth 1 0 empty vs cx)
      (λ r cx'. if_clean (length cx.issues) (table r.0 r.1) cx')

-- `check_list`
unfoldable pub check_list : Checker → ListRule → Value → List Step → ℕ → Ctx → Out (Option Value)
unfolding list_result
check_list item r value path depth cx = list_result item path depth (list_items r value path cx)

unfoldable pub is_field : Fields → Bytes → Bool
is_field end k = false
is_field (field name node fields) k = bytes_eq name k || is_field fields k

is_known : Fields → Key → Bool
is_known fields (text_key k) = is_field fields k
is_known fields _ = false

-- `reject_unknown_keys`
unfoldable pub reject_unknown_keys : Fields → Entries → List Step → Ctx → Ctx
unfolding is_known
reject_unknown_keys fields empty path cx = cx
reject_unknown_keys fields (entry k v es) path cx =
    if cx.truncated
    then cx
    else reject_unknown_keys fields es path
        (if is_known fields k then cx else fail (path ++ key k ∷ []) unknown_key cx)

abbrev pub Table : Type 0
Table = Option Entries

-- `object_table`
unfoldable pub object_table : Value → List Step → Ctx → Table × Ctx
object_table (table es len) path cx = (some es, cx)
object_table nil path cx = (none, fail path is_required cx)
object_table _ path cx = (none, fail path not_object cx)

-- The end of `check_object`, after its loop.
object_result : Fields → Bool → Entries → List Step → ℕ → Entries → Ctx → Out (Option Value)
object_result fields strict es path before out cx =
    if_clean before (table out 0) (if strict then reject_unknown_keys fields es path cx else cx)

-- `check_object`, where `loop` checks the fields of a table.
abbrev object_checked :
    (Entries → Ctx → Out Entries) → Fields → Bool → List Step → Table × Ctx → Out (Option Value)
object_checked loop fields strict path (none, cx) = done none cx
object_checked loop fields strict path (some es, cx) =
    and_then (loop es cx)
      (λ out cx'. object_result fields strict es path (length cx.issues) out cx')

pub data Tried : Type 0 where
  valid : Value → Tried
  invalid : Ctx → Tried
  raises : Tried

abbrev pub no_issues : Ctx
no_issues = record { issues = []; truncated = false }

abbrev pub no_issue : List Issue → Bool
no_issue [] = true
no_issue (i ∷ is) = false

-- `(true, value)` of `try`, or `(false, err)` with the issues of the error.
unfoldable pub verdict : Option Value → Ctx → Tried
verdict none cx = invalid cx
verdict (some v) cx = if no_issue cx.issues then valid v else invalid cx

unfoldable pub tried : Out (Option Value) → Tried
unfolding verdict
tried raised = raises
tried (done v cx) = verdict v cx

-- The test at the head of `check`.
unfoldable pub within_depth : Checker → Checker
within_depth checker value path depth cx =
    if ltb max_depth depth
    then done none (fail path nested_too_deeply cx)
    else checker value path depth cx

module _ (find : Find) (call : Call) where
  -- `check` after its test of the depth, and the loop of `check_object`
  unfoldable mutual
    unfolding object_result stored

    pub check_node : Node → Value → List Step → ℕ → Ctx → Out (Option Value)
    check_node (func f) value path depth cx = check_func (call f value) path cx
    check_node (optional inner) value path depth cx =
        if optional_skips inner value
        then done (some nil) cx
        else within_depth (check_node inner) value path depth cx
    check_node (str_node r) value path depth cx = check_str_node find r value path cx
    check_node (int_node l) value path depth cx = finished (check_int value l path cx)
    check_node (number_node l) value path depth cx = finished (check_number value l path cx)
    check_node (bool_node d) value path depth cx = finished (check_bool d value path cx)
    check_node (one_of options) value path depth cx = finished (check_one_of options value path cx)
    check_node (list item r) value path depth cx =
        check_list (within_depth (check_node item)) r value path depth cx
    check_node (object fields strict) value path depth cx =
        object_checked (check_fields fields path depth empty) fields strict path
          (object_table value path cx)

    pub check_fields : Fields → List Step → ℕ → Entries → Entries → Ctx → Out Entries
    check_fields end path depth out es cx = done out cx
    check_fields (field name node fields) path depth out es cx =
        if cx.truncated
        then done out cx
        else and_then
            (within_depth (check_node node) (absent_if_null node (get (text_key name) es))
              (path ++ key (text_key name) ∷ []) (suc depth) cx)
            (λ w cx'. check_fields fields path depth (stored (text_key name) w out) es cx')

  unfoldable pub check : Node → Checker
  check node = within_depth (check_node node)

  -- `try` of a schema and a value; `parse` raises the same error.
  unfoldable pub try : Node → Value → Tried
  unfolding tried
  try node value = tried (check node (absent_if_null node value) [] 0 no_issues)
