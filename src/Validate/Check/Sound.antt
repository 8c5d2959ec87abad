-- ===== src/Validate/Check/Sound.antt =====
-- The check of a schema and the values that it returns (src/capabilities/validate.rs).
use lur.Base.{
  ℕ, suc, ◌+◌, ◌≡◌, ◌≤◌, ◌<◌, refl, ◌∙◌, inl, inr, Bool, Bool-cases, true, false, not, ◌&&◌, ◌||◌,
  Option, none, some, List, [], ◌∷◌, ◌++◌, length, ltb, ◌==◌, ap, if◌then◌else◌, arith,
}
use lur.Base.Int.{pos}
use lur.Base.Bytes.{Bytes, bytes_eq, bytes_eq_iff, bytes_eq_refl}
use lur.Validate.Value.{
  Value, nil, null, other, boolean, integer, number, text, table, Entries, empty, text_key, int_key,
  get,
}
use lur.Validate.Schema.{
  Node, str_node, int_node, number_node, bool_node, one_of, list, object, optional, func, Fields,
  end, field, ListRule, max_depth, depth, depth_fields,
}
use lur.Validate.Issues.{Step, key, index, is_required, not_object, user, Ctx, Out}
use lur.Validate.Scalar.{Find, over}
use lur.Validate.Message.{validator_message}
use lur.Validate.Check.{
  Called, returned, threw, broken, Call, told, check_func, optional_skips, absent_if_null, Checker,
  Items, list_items, stored, counted, check_items, if_clean, list_result, check_list, is_field,
  reject_unknown_keys, Table, object_table, object_result, object_checked, within_depth, check_node,
  check_fields, check,
}
use lur.Validate.Check.Ends.{Ends, and_then-Ends, Ends-map, Ends-both, if-Ends}
use lur.Validate.Check.Keeps.{
  depth_pos, check_items-Keeps, reject_unknown_keys-Keeps, within_depth-Keeps, check_node-Keeps,
  check_fields-Keeps,
}
use lur.Validate.Check.Weight.{weight, fail-grows, Since, Since-refl, Since-fail, Good}
use lur.Validate.Check.Scalars.{
  check_bool-Good, check_one_of-Good, check_int-Good, check_number-Good, check_str_node-Good,
}
use lur.Validate.Check.Tables.{get-stored_other, get-stored_self, AllItems, stored-AllItems}
use lur.Validate.Conforms.{IsSchema, AreFields, Conforms, ConformFields}
use lur.Validate.Check.Items.{ItemsPost, list_items-Post, counted-le}

module _ (find : Find) (call : Call) where
  -- A checker whose results are good at one depth, while there is room for issues.
  abbrev GoodAt : Node → ℕ → Checker → Type 0
  GoodAt node d checker =
      (v : Value) (path : List Step) (cx : Ctx)
      → cx.truncated ≡ false
      → Ends (Good find call node cx) (checker v path d cx)

  within_depth-Good :
      (node : Node) (d : ℕ) (checker : Checker)
      → d ≤ max_depth
      → GoodAt node d checker
      → GoodAt node d (within_depth checker)
  unfolding within_depth
  within_depth-Good node d checker h k v path cx room =
      let fits : ltb max_depth d ≡ false = ground arith in rw fits (k v path cx room)

  -- The end of a check of a table.
  clean-Good :
      (node : Node) (v : Value) (cx cx' : Ctx)
      → cx.truncated ≡ false
      → Since cx cx'
      → (cx' ≡ cx → Conforms find call node v)
      → Ends (Good find call node cx) (if_clean (length cx.issues) v cx')
  unfolding weight
  clean-Good node v cx cx' room (le, back) f =
      elim (Bool-cases (length cx'.issues == length cx.issues && not cx'.truncated)) [
        | inl clean ↦ let same : cx' ≡ cx = back (ground arith) in rw clean (same, f same)
        | inr dirty ↦ rw dirty (ground arith)
      ]

  -- What the loop of `check_list` has put into its table.
  abbrev Listed : Node → ℕ → Entries × ℕ → Ctx → Type 0
  Listed item most r cx' = (r.1 ≤ most) × AllItems (Conforms find call item) r.1 r.0

  Good-Conforms :
      (node : Node) (cx cx' : Ctx) (w : Option Value)
      → Good find call node cx w cx'
      → (v : Value) → w ≡ some v
      → Conforms find call node v
  Good-Conforms node cx cx' none g v e = cc
  Good-Conforms node cx cx' (some u) g v e = let same : u ≡ v = cc in rw (← same) g.1

  check_items-Listed :
      (node : Node) (item : Checker) (path : List Step) (d i n most : ℕ) (out : Entries)
      (vs : List Value) (cx : Ctx)
      → GoodAt node (suc d) item
      → n + length vs ≤ most
      → AllItems (Conforms find call node) n out
      → Ends (Listed node most) (check_items item path d i n out vs cx)
  unfolding check_items
  check_items-Listed node item path d i n most out [] cx k le h = (omega arith, h)
  check_items-Listed node item path d i n most out (v ∷ vs) cx k le h =
      if-Ends (Listed node most) cx.truncated _ _ (λ full. (omega arith, h))
        (λ room.
          and_then-Ends (Good find call node cx) (Listed node most)
            (item v (path ++ index i ∷ []) (suc d) cx) _ (k v (path ++ index i ∷ []) cx room)
            (λ w cx' g.
              check_items-Listed node item path d (suc i) (counted w n) most
                (stored (int_key (pos (suc n))) w out) vs cx' k (omega (arith, counted-le w n))
                (stored-AllItems (Conforms find call node) n w out h
                  (Good-Conforms node cx cx' w g))))

  over-le : (o : Option ℕ) (n m : ℕ) → n ≤ m → over o m ≡ false → over o n ≡ false
  over-le none n m h e = refl
  over-le (some most) n m h e = ground arith

  list_result-Good :
      (node : Node) (item : Checker) (r : ListRule) (path : List Step) (d : ℕ) (cx : Ctx)
      (o : Items)
      → cx.truncated ≡ false
      → GoodAt node (suc d) item
      → ((v : Value) (p : List Step) (cx1 : Ctx)
          → Since cx cx1
          → Ends (λ w cx'. Since cx cx') (item v p (suc d) cx1))
      → ItemsPost r cx o
      → Ends (Good find call (list node r) cx) (list_result item path d o)
  unfolding list_result
  list_result-Good node item r path d cx (none, cx1) room k s h = h
  list_result-Good node item r path d cx (some vs, cx1) room k s (same, few) = rw same (
      and_then-Ends (λ t cx'. Listed node (length vs) t cx' × Since cx cx')
        (Good find call (list node r) cx) (check_items item path d 1 0 empty vs cx) _
        (Ends-both (Listed node (length vs)) (λ t cx'. Since cx cx')
          (check_items item path d 1 0 empty vs cx)
          (check_items-Listed node item path d 1 0 (length vs) empty vs cx k (omega arith)
            (λ i lt. absurd (omega arith)))
          (check_items-Keeps (Since cx) (Since-fail cx) item path d 1 0 empty vs cx s
            (Since-refl cx)))
        (λ t cx' (l, since).
          clean-Good (list node r) (table t.0 t.1) cx cx' room since
            (λ e. (t.0, t.1, refl, over-le r.max_items t.1 (length vs) l.0 few, l.1))))

  list-Good :
      (node : Node) (item : Checker) (r : ListRule) (d : ℕ)
      → GoodAt node (suc d) item
      → ((cx : Ctx) (v : Value) (p : List Step) (cx1 : Ctx)
          → Since cx cx1
          → Ends (λ w cx'. Since cx cx') (item v p (suc d) cx1))
      → GoodAt (list node r) d (check_list item r)
  unfolding check_list
  list-Good node item r d k s v path cx room =
      list_result-Good node item r path d cx (list_items r v path cx) room k (s cx)
        (list_items-Post r v path cx room)

  told-Good :
      (f : ℕ) (o : Option Bytes) (path : List Step) (cx : Ctx)
      → cx.truncated ≡ false
      → Ends (Good find call (func f) cx) (told o path cx)
  unfolding told
  told-Good f none path cx room = tt
  told-Good f (some m) path cx room = fail-grows path (user m) cx room

  check_func-Good :
      (f : ℕ) (x : Value) (c : Called) (path : List Step) (cx : Ctx)
      → call f x ≡ c
      → cx.truncated ≡ false
      → Ends (Good find call (func f) cx) (check_func c path cx)
  unfolding check_func
  check_func-Good f x (returned v) path cx e room = (refl, (x, e))
  check_func-Good f x (threw m) path cx e room = told-Good f (validator_message m) path cx room
  check_func-Good f x broken path cx e room = tt

  optional-Good :
      (inner : Node) (cx : Ctx) (w : Option Value) (cx' : Ctx)
      → Good find call inner cx w cx'
      → Good find call (optional inner) cx w cx'
  optional-Good inner cx none cx' g = g
  optional-Good inner cx (some v) cx' g = (g.0, inr g.1)

  abbrev TablePost : Ctx → Table × Ctx → Type 0
  TablePost cx (none, cx') = weight cx < weight cx'
  TablePost cx (some es, cx') = cx' ≡ cx

  object_table-Post :
      (v : Value) (path : List Step) (cx : Ctx)
      → cx.truncated ≡ false
      → TablePost cx (object_table v path cx)
  unfolding object_table
  object_table-Post (table es len) path cx room = refl
  object_table-Post nil path cx room = fail-grows path is_required cx room
  object_table-Post null path cx room = fail-grows path not_object cx room
  object_table-Post other path cx room = fail-grows path not_object cx room
  object_table-Post (boolean b) path cx room = fail-grows path not_object cx room
  object_table-Post (integer i) path cx room = fail-grows path not_object cx room
  object_table-Post (number x) path cx room = fail-grows path not_object cx room
  object_table-Post (text s) path cx room = fail-grows path not_object cx room

  -- What the loop of `check_object` has put into its table, if it recorded nothing.
  abbrev Filled : Fields → Ctx → Entries → Ctx → Type 0
  Filled fields cx out cx' = Since cx cx' × (cx' ≡ cx → ConformFields find call fields out)

  object_checked-Good :
      (loop : Entries → Ctx → Out Entries) (fields : Fields) (strict : Bool) (path : List Step)
      (cx : Ctx) (t : Table × Ctx)
      → cx.truncated ≡ false
      → ((es : Entries) → Ends (Filled fields cx) (loop es cx))
      → TablePost cx t
      → Ends (Good find call (object fields strict) cx) (object_checked loop fields strict path t)
  unfolding object_result
  object_checked-Good loop fields strict path cx (none, cx1) room k h = h
  object_checked-Good loop fields strict path cx (some es, cx1) room k same = rw same (
      and_then-Ends (Filled fields cx) (Good find call (object fields strict) cx) (loop es cx) _
        (k es)
        (λ out cx' (since, filled).
          let (s, back) = ends es cx' strict since in
          clean-Good (object fields strict) (table out 0) cx _ room s
            (λ e. (out, refl, filled (back e)))))
    where
      ends :
          (es' : Entries) (cx' : Ctx) (b : Bool)
          → Since cx cx'
          → Since cx (if b then reject_unknown_keys fields es' path cx' else cx')
            × ((if b then reject_unknown_keys fields es' path cx' else cx') ≡ cx → cx' ≡ cx)
      ends es' cx' true since =
          let after =
            reject_unknown_keys-Keeps (Since cx') (Since-fail cx') fields es' path cx'
              (Since-refl cx') in
          (
            reject_unknown_keys-Keeps (Since cx) (Since-fail cx) fields es' path cx' since,
            λ e. since.1 (omega (arith, after.0, since.0, ap weight e)),
          )
      ends es' cx' false since = (since, λ e. e)

  -- The loop from `out` on: it fills the fields, and leaves what stands under other names.
  abbrev FilledFrom : Fields → Ctx → Entries → Entries → Ctx → Type 0
  FilledFrom fields cx out out' cx' =
      Since cx cx'
      × (cx' ≡ cx
          → ConformFields find call fields out'
            × ((k : Bytes)
                → is_field fields k ≡ false
                → get (text_key k) out' ≡ get (text_key k) out))

  abbrev Fresh : Fields → Entries → Type 0
  Fresh fields out = (k : Bytes) → is_field fields k ≡ true → get (text_key k) out ≡ nil

  stored-Fresh :
      (name : Bytes) (node : Node) (fields : Fields) (w : Option Value) (out : Entries)
      → is_field fields name ≡ false
      → Fresh (field name node fields) out
      → Fresh fields (stored (text_key name) w out)
  unfolding is_field
  stored-Fresh name node fields w out new fresh k h = elim (Bool-cases (bytes_eq name k)) [
    | inl same ↦
        let e = (bytes_eq_iff name k).0 same in absurd (ground (arith, ap (is_field fields) e))
    | inr other' ↦ get-stored_other name k w out other' ∙ fresh k (ground arith)
  ]

  field-Filled :
      (name : Bytes) (node : Node) (fields : Fields) (out : Entries) (cx cx1 : Ctx)
      (w : Option Value) (m : Out Entries)
      → is_field fields name ≡ false
      → get (text_key name) out ≡ nil
      → Good find call node cx w cx1
      → Ends (λ o cx'. Since cx1 cx') m
      → (cx1 ≡ cx → Ends (FilledFrom fields cx (stored (text_key name) w out)) m)
      → Ends (FilledFrom (field name node fields) cx out) m
  unfolding is_field
  field-Filled name node fields out cx cx1 none m new fresh g since f =
      Ends-map (λ o cx'. Since cx1 cx') (FilledFrom (field name node fields) cx out) m since
        (λ o cx' s.
          ((omega arith, λ e. absurd (omega arith)), λ e. absurd (omega (arith, ap weight e))))
  field-Filled name node fields out cx cx1 (some v) m new fresh (same, good) since f =
      Ends-map (FilledFrom fields cx (stored (text_key name) (some v) out))
        (FilledFrom (field name node fields) cx out) m (f same)
        (λ o cx' (s, rest). (
          s,
          λ e.
              let (conform, frame) = rest e in
              let got = frame name new ∙ get-stored_self name v out fresh in
              (
                (rw got good, conform),
                λ k h. frame k (ground arith) ∙ get-stored_other name k (some v) out (ground arith),
              ),
        ))

  get-empty : (k : Bytes) → get (text_key k) empty ≡ nil
  unfolding get
  get-empty k = refl

  fresh_name :
      (name : Bytes) (fields : Fields) → (bytes_eq name name || is_field fields name) ≡ true
  fresh_name name fields = rw (bytes_eq_refl name) refl

  mutual
    unfolding check_node check_fields depth depth_fields is_field

    check_node-Good :
        (node : Node) (d : ℕ)
        → d + depth node ≤ suc max_depth
        → IsSchema node
        → GoodAt node d (check_node find call node)
    check_node-Good (func f) d h o v path cx room = check_func-Good f v (call f v) path cx refl room
    check_node-Good (optional inner) d h o v path cx room =
        if-Ends (Good find call (optional inner) cx) (optional_skips inner v) _ _
          (λ skip. (refl, inl refl))
          (λ go.
            Ends-map (Good find call inner cx) (Good find call (optional inner) cx) _
              (within_depth-Good inner d (check_node find call inner)
                (omega (arith, depth_pos inner)) (check_node-Good inner d (omega arith) o) v path cx
                room)
              (λ w cx' g. optional-Good inner cx w cx' g))
    check_node-Good (str_node r) d h o v path cx room =
        check_str_node-Good find call r v path cx room
    check_node-Good (int_node l) d h o v path cx room = check_int-Good find call l v path cx o room
    check_node-Good (number_node l) d h o v path cx room =
        check_number-Good find call l v path cx o room
    check_node-Good (bool_node b) d h o v path cx room = check_bool-Good find call b v path cx room
    check_node-Good (one_of options) d h o v path cx room =
        check_one_of-Good find call options v path cx room
    check_node-Good (list item r) d h o v path cx room =
        list-Good item (within_depth (check_node find call item)) r d
          (within_depth-Good item (suc d) (check_node find call item)
            (omega (arith, depth_pos item)) (check_node-Good item (suc d) (omega arith) o))
          (λ cx0.
            within_depth-Keeps (Since cx0) (Since-fail cx0) (suc d) (check_node find call item)
              (omega (arith, depth_pos item))
              (check_node-Keeps (Since cx0) (Since-fail cx0) find call item (suc d) (omega arith)))
          v path cx room
    check_node-Good (object fields strict) d h o v path cx room =
        object_checked-Good (check_fields find call fields path d empty) fields strict path cx
          (object_table v path cx) room
          (λ es.
            Ends-map (FilledFrom fields cx empty) (Filled fields cx)
              (check_fields find call fields path d empty es cx)
              (check_fields-Filled fields d (omega arith) o path empty es cx room
                (λ k e. get-empty k))
              (λ out cx' (s, f). (s, λ e. (f e).0)))
          (object_table-Post v path cx room)

    check_fields-Filled :
        (fields : Fields) (d : ℕ)
        → d + depth_fields fields ≤ max_depth
        → AreFields fields
        → (path : List Step) (out es : Entries) (cx : Ctx) → cx.truncated ≡ false
        → Fresh fields out
        → Ends (FilledFrom fields cx out) (check_fields find call fields path d out es cx)
    check_fields-Filled end d h o path out es cx room fresh =
        (Since-refl cx, λ e. (tt, λ k n. refl))
    check_fields-Filled (field name node fields) d h o path out es cx room fresh =
        if-Ends (FilledFrom (field name node fields) cx out) cx.truncated _ _
          (λ full. absurd (ground arith))
          (λ free.
            and_then-Ends (Good find call node cx) (FilledFrom (field name node fields) cx out)
              (within_depth (check_node find call node)
                (absent_if_null node (get (text_key name) es)) (path ++ key (text_key name) ∷ [])
                (suc d) cx)
              _
              (within_depth-Good node (suc d) (check_node find call node)
                (omega (arith, depth_pos node)) (check_node-Good node (suc d) (omega arith) o.0) _ _
                cx room)
              (λ w cx1 g.
                field-Filled name node fields out cx cx1 w _ o.1
                  (fresh name (fresh_name name fields)) g
                  (check_fields-Keeps (Since cx1) (Since-fail cx1) find call fields d (omega arith)
                    path _ es cx1 (Since-refl cx1))
                  (λ same. rw same (
                    check_fields-Filled fields d (omega arith) o.2 path
                      (stored (text_key name) w out) es cx room
                      (stored-Fresh name node fields w out o.1 fresh)))))

  -- With a schema that the constructors accept and room for issues, a check that returns a value
  -- has recorded no issue, and the value conforms to the schema; one that returns none has recorded
  -- an issue.
  pub check-Good :
      (node : Node) (v : Value) (path : List Step) (cx : Ctx)
      → IsSchema node
      → depth node ≤ max_depth
      → cx.truncated ≡ false
      → Ends (Good find call node cx) (check find call node v path 0 cx)
  unfolding check
  check-Good node v path cx o h room =
      within_depth-Good node 0 (check_node find call node) (omega arith)
        (check_node-Good node 0 (omega arith) o) v path cx room
