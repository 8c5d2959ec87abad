-- ===== src/Validate/Check/Keeps.antt =====
-- The invariants of the issues that every check keeps (src/capabilities/validate.rs).
use lur.Base.{
  ℕ, suc, ◌+◌, ◌≡◌, ◌≤◌, refl, inl, inr, Bool, Bool-cases, true, false, Option, none, some, List,
  [], ◌∷◌, ◌++◌, length, ltb, if◌then◌else◌, arith,
}
use lur.Base.Bytes.{Bytes}
use lur.Validate.Value.{
  Value, nil, null, other, boolean, integer, number, text, table, Entries, empty, entry, text_key,
  get, sequence,
}
use lur.Validate.Schema.{
  Node, str_node, int_node, number_node, bool_node, one_of, list, object, optional, func, Fields,
  end, field, StrRule, ListRule, max_depth, depth, depth_fields,
}
use lur.Validate.Issues.{
  Step, key, index, Message, is_required, not_string, too_short, too_long, bad_format, not_list,
  too_few, too_many, not_object, unknown_key, user, Ctx, fail, Out, done, raised, finished,
}
use lur.Validate.Scalar.{
  Find, under, over, check_length, found, check_pattern, check_str, checked_text, text_default,
  check_str_node,
}
use lur.Validate.Scalar.Single.{
  is_nested, Single, default_or_required-Single, check_bool-Single, check_one_of-Single,
  check_int-Single, check_number-Single,
}
use lur.Validate.Check.{
  Called, returned, threw, broken, Call, told, check_func, optional_skips, absent_if_null, Checker,
  Items, sized, list_items, check_items, list_result, check_list, is_known, reject_unknown_keys,
  Table, object_table, object_result, object_checked, within_depth, check_node, check_fields, check,
}
use lur.Validate.Message.{validator_message}
use lur.Validate.Check.Ends.{Ends, and_then-Ends}

pub depth_pos : (node : Node) → 1 ≤ depth node
unfolding depth
depth_pos (list item r) = omega arith
depth_pos (optional inner) = omega arith
depth_pos (object fields s) = omega arith
depth_pos (str_node r) = omega arith
depth_pos (int_node l) = omega arith
depth_pos (number_node l) = omega arith
depth_pos (bool_node d) = omega arith
depth_pos (one_of options) = omega arith
depth_pos (func f) = omega arith

-- An invariant that every failure but that of the depth keeps.
module _ (P : Ctx → Type 0)
    (keep : (path : List Step) (m : Message) (cx : Ctx)
      → is_nested m ≡ false
      → P cx
      → P (fail path m cx)) where
  abbrev pub Keeps : {A : Type 0} → Out A → Type 0
  Keeps r = Ends (λ a cx. P cx) r

  if-Keeps : {A : Type 0} (b : Bool) (x y : Out A) → Keeps x → Keeps y → Keeps (if b then x else y)
  if-Keeps true x y h k = h
  if-Keeps false x y h k = k

  if-P : (b : Bool) (x y : Ctx) → P x → P y → P (if b then x else y)
  if-P true x y h k = h
  if-P false x y h k = k

  Single-Keeps : {A : Type 0} (cx : Ctx) (r : Option A × Ctx) → Single cx r → P cx → P r.1
  Single-Keeps cx (v, cx') (inl (got, e)) p = rw e p
  Single-Keeps cx (v, cx') (inr (path, m, fine, gone, e)) p = rw e (keep path m cx fine p)

  finished-Keeps : (cx : Ctx) (r : Option Value × Ctx) → Single cx r → P cx → Keeps (finished r)
  finished-Keeps cx (v, cx') h p = Single-Keeps cx (v, cx') h p

  fail_if-Keeps :
      (b : Bool) (path : List Step) (m : Message) (cx : Ctx)
      → is_nested m ≡ false
      → P cx
      → P (if b then fail path m cx else cx)
  fail_if-Keeps true path m cx fine p = keep path m cx fine p
  fail_if-Keeps false path m cx fine p = p

  check_length-Keeps :
      (s : Bytes) (r : StrRule) (path : List Step) (cx : Ctx)
      → P cx
      → P (check_length s r path cx).1
  unfolding check_length
  check_length-Keeps s r path cx p =
      fail_if-Keeps _ path too_long _ refl (fail_if-Keeps _ path too_short cx refl p)

  found-Keeps :
      (o : Option Bool) (ok : Bool) (path : List Step) (cx : Ctx)
      → P cx
      → Keeps (found o ok path cx)
  unfolding found
  found-Keeps none ok path cx p = tt
  found-Keeps (some true) ok path cx p = p
  found-Keeps (some false) ok path cx p = keep path bad_format cx refl p

  check_str-Keeps :
      (find : Find) (s : Bytes) (r : StrRule) (path : List Step) (cx : Ctx)
      → P cx
      → Keeps (check_str find s r path cx)
  unfolding check_str
  check_str-Keeps find s r path cx p =
      pattern r.pattern (check_length s r path cx).0 (check_length s r path cx).1
        (check_length-Keeps s r path cx p)
    where
      pattern :
          (o : Option Bytes) (ok : Bool) (cx' : Ctx)
          → P cx'
          → Keeps (check_pattern find s o ok path cx')
      pattern none ok cx' q = unfold check_pattern in q
      pattern (some f) ok cx' q = unfold check_pattern in (found-Keeps (find s f) ok path cx' q)

  checked_text-Keeps : (s : Bytes) (o : Out Bool) → Keeps o → Keeps (checked_text s o)
  unfolding checked_text
  checked_text-Keeps s raised h = tt
  checked_text-Keeps s (done ok cx) h = h

  check_str_node-Keeps :
      (find : Find) (r : StrRule) (v : Value) (path : List Step) (cx : Ctx)
      → P cx
      → Keeps (check_str_node find r v path cx)
  unfolding check_str_node
  check_str_node-Keeps find r nil path cx p =
      finished-Keeps cx _ (default_or_required-Single (text_default r.default) path cx) p
  check_str_node-Keeps find r (text s) path cx p =
      checked_text-Keeps s (check_str find s r path cx) (check_str-Keeps find s r path cx p)
  check_str_node-Keeps find r null path cx p = keep path not_string cx refl p
  check_str_node-Keeps find r other path cx p = keep path not_string cx refl p
  check_str_node-Keeps find r (boolean b) path cx p = keep path not_string cx refl p
  check_str_node-Keeps find r (integer i) path cx p = keep path not_string cx refl p
  check_str_node-Keeps find r (number x) path cx p = keep path not_string cx refl p
  check_str_node-Keeps find r (table es len) path cx p = keep path not_string cx refl p

  told-Keeps : (o : Option Bytes) (path : List Step) (cx : Ctx) → P cx → Keeps (told o path cx)
  unfolding told
  told-Keeps none path cx p = tt
  told-Keeps (some m) path cx p = keep path (user m) cx refl p

  check_func-Keeps :
      (c : Called) (path : List Step) (cx : Ctx) → P cx → Keeps (check_func c path cx)
  unfolding check_func
  check_func-Keeps (returned v) path cx p = p
  check_func-Keeps (threw m) path cx p = told-Keeps (validator_message m) path cx p
  check_func-Keeps broken path cx p = tt

  -- A checker that keeps the invariant at one depth.
  abbrev pub KeepsAt : ℕ → Checker → Type 0
  KeepsAt d checker = (v : Value) (path : List Step) (cx : Ctx) → P cx → Keeps (checker v path d cx)

  pub within_depth-Keeps :
      (d : ℕ) (checker : Checker)
      → d ≤ max_depth
      → KeepsAt d checker
      → KeepsAt d (within_depth checker)
  unfolding within_depth
  within_depth-Keeps d checker h k v path cx p =
      let fits : ltb max_depth d ≡ false = ground arith in rw fits (k v path cx p)

  sized-Keeps :
      (r : ListRule) (path : List Step) (cx : Ctx) (o : Option (List Value))
      → P cx
      → P (sized r path cx o).1
  unfolding sized
  sized-Keeps r path cx none p = keep path not_list cx refl p
  sized-Keeps r path cx (some vs) p = elim (Bool-cases (under r.min_items (length vs))) [
    | inl few ↦ rw few (keep path too_few cx refl p)
    | inr enough ↦ elim (Bool-cases (over r.max_items (length vs))) [
      | inl many ↦ rw (enough, many) (keep path too_many cx refl p)
      | inr fine ↦ rw (enough, fine) p
    ]
  ]

  list_items-Keeps :
      (r : ListRule) (v : Value) (path : List Step) (cx : Ctx) → P cx → P (list_items r v path cx).1
  unfolding list_items
  list_items-Keeps r nil path cx p = keep path is_required cx refl p
  list_items-Keeps r (table es len) path cx p = sized-Keeps r path cx (sequence es len) p
  list_items-Keeps r null path cx p = sized-Keeps r path cx none p
  list_items-Keeps r other path cx p = sized-Keeps r path cx none p
  list_items-Keeps r (boolean b) path cx p = sized-Keeps r path cx none p
  list_items-Keeps r (integer i) path cx p = sized-Keeps r path cx none p
  list_items-Keeps r (number x) path cx p = sized-Keeps r path cx none p
  list_items-Keeps r (text s) path cx p = sized-Keeps r path cx none p

  pub check_items-Keeps :
      (item : Checker) (path : List Step) (d i n : ℕ) (out : Entries) (vs : List Value) (cx : Ctx)
      → KeepsAt (suc d) item
      → P cx
      → Keeps (check_items item path d i n out vs cx)
  unfolding check_items
  check_items-Keeps item path d i n out [] cx k p = p
  check_items-Keeps item path d i n out (v ∷ vs) cx k p = if-Keeps cx.truncated _ _ p (
      and_then-Ends (λ w cx'. P cx') (λ w cx'. P cx') (item v (path ++ index i ∷ []) (suc d) cx) _
        (k v (path ++ index i ∷ []) cx p)
        (λ w cx' q. check_items-Keeps item path d (suc i) _ _ vs cx' k q))

  list_result-Keeps :
      (item : Checker) (path : List Step) (d : ℕ) (o : Items)
      → KeepsAt (suc d) item
      → P o.1
      → Keeps (list_result item path d o)
  unfolding list_result
  list_result-Keeps item path d (none, cx) k p = p
  list_result-Keeps item path d (some vs, cx) k p =
      and_then-Ends (λ w cx'. P cx') (λ w cx'. P cx') (check_items item path d 1 0 empty vs cx) _
        (check_items-Keeps item path d 1 0 empty vs cx k p) (λ r cx' q. q)

  check_list-Keeps :
      (item : Checker) (r : ListRule) (v : Value) (path : List Step) (d : ℕ) (cx : Ctx)
      → KeepsAt (suc d) item
      → P cx
      → Keeps (check_list item r v path d cx)
  unfolding check_list
  check_list-Keeps item r v path d cx k p =
      list_result-Keeps item path d (list_items r v path cx) k (list_items-Keeps r v path cx p)

  pub reject_unknown_keys-Keeps :
      (fields : Fields) (es : Entries) (path : List Step) (cx : Ctx)
      → P cx
      → P (reject_unknown_keys fields es path cx)
  unfolding reject_unknown_keys
  reject_unknown_keys-Keeps fields empty path cx p = p
  reject_unknown_keys-Keeps fields (entry k v es) path cx p = if-P cx.truncated _ _ p (
      reject_unknown_keys-Keeps fields es path _
        (if-P (is_known fields k) _ _ p (keep (path ++ key k ∷ []) unknown_key cx refl p)))

  object_table-Keeps :
      (v : Value) (path : List Step) (cx : Ctx) → P cx → P (object_table v path cx).1
  unfolding object_table
  object_table-Keeps (table es len) path cx p = p
  object_table-Keeps nil path cx p = keep path is_required cx refl p
  object_table-Keeps null path cx p = keep path not_object cx refl p
  object_table-Keeps other path cx p = keep path not_object cx refl p
  object_table-Keeps (boolean b) path cx p = keep path not_object cx refl p
  object_table-Keeps (integer i) path cx p = keep path not_object cx refl p
  object_table-Keeps (number x) path cx p = keep path not_object cx refl p
  object_table-Keeps (text s) path cx p = keep path not_object cx refl p

  object_checked-Keeps :
      (loop : Entries → Ctx → Out Entries) (fields : Fields) (strict : Bool) (path : List Step)
      (t : Table × Ctx)
      → ((es : Entries) (cx : Ctx) → P cx → Keeps (loop es cx))
      → P t.1
      → Keeps (object_checked loop fields strict path t)
  unfolding object_result
  object_checked-Keeps loop fields strict path (none, cx) k p = p
  object_checked-Keeps loop fields strict path (some es, cx) k p =
      and_then-Ends (λ w cx'. P cx') (λ w cx'. P cx') (loop es cx) _ (k es cx p)
        (λ out cx' q. if-P strict _ _ (reject_unknown_keys-Keeps fields es path cx' q) q)

  module _ (find : Find) (call : Call) where
    mutual
      unfolding check_node check_fields depth depth_fields

      pub check_node-Keeps :
          (node : Node) (d : ℕ)
          → d + depth node ≤ suc max_depth
          → KeepsAt d (check_node find call node)
      check_node-Keeps (func f) d h v path cx p = check_func-Keeps (call f v) path cx p
      check_node-Keeps (optional inner) d h v path cx p = if-Keeps (optional_skips inner v) _ _ p (
          within_depth-Keeps d (check_node find call inner) (omega (arith, depth_pos inner))
            (check_node-Keeps inner d (omega arith)) v path cx p)
      check_node-Keeps (str_node r) d h v path cx p = check_str_node-Keeps find r v path cx p
      check_node-Keeps (int_node l) d h v path cx p =
          finished-Keeps cx _ (check_int-Single v l path cx) p
      check_node-Keeps (number_node l) d h v path cx p =
          finished-Keeps cx _ (check_number-Single v l path cx) p
      check_node-Keeps (bool_node b) d h v path cx p =
          finished-Keeps cx _ (check_bool-Single b v path cx) p
      check_node-Keeps (one_of options) d h v path cx p =
          finished-Keeps cx _ (check_one_of-Single options v path cx) p
      check_node-Keeps (list item r) d h v path cx p =
          check_list-Keeps (within_depth (check_node find call item)) r v path d cx
            (within_depth-Keeps (suc d) (check_node find call item) (omega (arith, depth_pos item))
              (check_node-Keeps item (suc d) (omega arith)))
            p
      check_node-Keeps (object fields strict) d h v path cx p =
          object_checked-Keeps (check_fields find call fields path d empty) fields strict path
            (object_table v path cx)
            (λ es cx' q. check_fields-Keeps fields d (omega arith) path empty es cx' q)
            (object_table-Keeps v path cx p)

      pub check_fields-Keeps :
          (fields : Fields) (d : ℕ)
          → d + depth_fields fields ≤ max_depth
          → (path : List Step) (out es : Entries) (cx : Ctx) → P cx
          → Keeps (check_fields find call fields path d out es cx)
      check_fields-Keeps end d h path out es cx p = p
      check_fields-Keeps (field name node fields) d h path out es cx p =
          if-Keeps cx.truncated _ _ p (
            and_then-Ends (λ w cx'. P cx') (λ w cx'. P cx')
              (within_depth (check_node find call node)
                (absent_if_null node (get (text_key name) es)) (path ++ key (text_key name) ∷ [])
                (suc d) cx)
              _
              (within_depth-Keeps (suc d) (check_node find call node)
                (omega (arith, depth_pos node)) (check_node-Keeps node (suc d) (omega arith)) _ _ cx
                p)
              (λ w cx' q. check_fields-Keeps fields d (omega arith) path _ es cx' q))

    pub check-Keeps :
        (node : Node) (v : Value) (path : List Step) (cx : Ctx)
        → depth node ≤ max_depth
        → P cx
        → Keeps (check find call node v path 0 cx)
    unfolding check
    check-Keeps node v path cx h p =
        within_depth-Keeps 0 (check_node find call node) (omega arith)
          (check_node-Keeps node 0 (omega arith)) v path cx p
