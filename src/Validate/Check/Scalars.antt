-- ===== src/Validate/Check/Scalars.antt =====
-- The checks of texts, numbers, booleans and literals against what their schemas promise
-- (src/capabilities/validate.rs).
use lur.Base.{
  ◌≡◌, ◌<◌, refl, inl, inr, Bool, Bool-cases, true, false, Option, none, some, List, arith,
}
use lur.Base.Int.{ℤ, ltb_ℤ}
use lur.Base.Bytes.{Bytes, codes, bytes_eq}
use lur.Float.{F64}
use lur.Float.Order.{f64_lt, f64_lt_irrefl}
use lur.Validate.Value.{Value, nil, null, other, boolean, integer, number, text, table, char_count}
use lur.Validate.Schema.{str_node, int_node, number_node, bool_node, one_of, Lit, Limits, StrRule}
use lur.Validate.Issues.{
  Step, not_string, too_short, too_long, bad_format, Ctx, fail, Out, done, raised, finished,
}
use lur.Validate.Scalar.{
  Find, default_or_required, is_blank, under, over, check_length, found, check_pattern, check_str,
  checked_text, text_default, check_str_node, check_bool, bool_default, read_bool, check_one_of,
  check_int, int_default, bounded_int, int_found, parse_int_value, apply_bounds, check_number,
  number_default, bounded_number, number_found, finite_number,
}
use lur.Validate.Scalar.Bounds.{apply_bounds-within, ltb_ℤ_irrefl}
use lur.Validate.Scalar.Single.{
  default_or_required-Single, check_bool-Single, check_one_of-Single, check_int-Single,
  check_number-Single,
}
use lur.Validate.Check.{Call}
use lur.Validate.Check.Ends.{Ends}
use lur.Validate.Check.Weight.{weight, fail-grows, fail-le, Good, Single-Good}
use lur.Validate.Conforms.{FitsRule, IsSchema, Conforms}

default-some :
    (d : Option Value) (path : List Step) (cx : Ctx) (v : Value)
    → (default_or_required d path cx).0 ≡ some v
    → d ≡ some v
unfolding default_or_required
default-some none path cx v h = cc
default-some (some d) path cx v h = h

module _ (find : Find) (call : Call) where
  read_bool-Conforms :
      (d : Option Bool) (v : Value) (path : List Step) (cx : Ctx) (w : Value)
      → (read_bool v path cx).0 ≡ some w
      → Conforms find call (bool_node d) w
  unfolding read_bool
  read_bool-Conforms d (boolean b) path cx w h = (b, cc)
  read_bool-Conforms d (text s) path cx w h = elim (Bool-cases (bytes_eq s (codes "true"))) [
    | inl on ↦ (true, ground arith)
    | inr rest ↦ elim (Bool-cases (bytes_eq s (codes "false"))) [
      | inl off ↦ (false, ground arith)
      | inr bad ↦ absurd (ground arith)
    ]
  ]
  read_bool-Conforms d nil path cx w h = cc
  read_bool-Conforms d null path cx w h = cc
  read_bool-Conforms d other path cx w h = cc
  read_bool-Conforms d (integer i) path cx w h = cc
  read_bool-Conforms d (number x) path cx w h = cc
  read_bool-Conforms d (table es len) path cx w h = cc

  bool_default-Conforms :
      (e d : Option Bool) (w : Value) → bool_default d ≡ some w → Conforms find call (bool_node e) w
  bool_default-Conforms e none w h = cc
  bool_default-Conforms e (some b) w h = (b, cc)

  pub check_bool-Good :
      (d : Option Bool) (v : Value) (path : List Step) (cx : Ctx)
      → cx.truncated ≡ false
      → Ends (Good find call (bool_node d) cx) (finished (check_bool d v path cx))
  unfolding check_bool
  check_bool-Good d v path cx room =
      Single-Good find call (bool_node d) cx (check_bool d v path cx) room
        (check_bool-Single d v path cx)
        (λ w h. elim (Bool-cases (is_blank v)) [
          | inl blank ↦
              bool_default-Conforms d d w (default-some (bool_default d) path cx w (rw blank at h))
          | inr full ↦ read_bool-Conforms d v path cx w (rw full at h)
        ])

  lit-Conforms :
      (options : List Lit) (v : Value) (path : List Step) (cx : Ctx) (w : Value)
      → (check_one_of options v path cx).0 ≡ some w
      → Conforms find call (one_of options) w
  unfolding check_one_of
  lit-Conforms options nil path cx w h = cc
  lit-Conforms options null path cx w h = ground arith
  lit-Conforms options other path cx w h = ground arith
  lit-Conforms options (boolean b) path cx w h = ground arith
  lit-Conforms options (integer i) path cx w h = ground arith
  lit-Conforms options (number x) path cx w h = ground arith
  lit-Conforms options (text s) path cx w h = ground arith
  lit-Conforms options (table es len) path cx w h = ground arith

  pub check_one_of-Good :
      (options : List Lit) (v : Value) (path : List Step) (cx : Ctx)
      → cx.truncated ≡ false
      → Ends (Good find call (one_of options) cx) (finished (check_one_of options v path cx))
  check_one_of-Good options v path cx room =
      Single-Good find call (one_of options) cx (check_one_of options v path cx) room
        (check_one_of-Single options v path cx) (lit-Conforms options v path cx)

  int_found-Conforms :
      (l : Limits ℤ) (n : ℤ) (path : List Step) (cx : Ctx) (r : Option ℤ × Ctx) (w : Value)
      → IsSchema (int_node l)
      → apply_bounds ltb_ℤ l n path cx ≡ r
      → (int_found r).0 ≡ some w
      → Conforms find call (int_node l) w
  int_found-Conforms l n path cx (none, cx') w o e h = cc
  int_found-Conforms l n path cx (some k, cx') w o e h =
      (k, cc, inl (apply_bounds-within ltb_ℤ ltb_ℤ_irrefl l n path cx k o e))

  bounded_int-Conforms :
      (l : Limits ℤ) (path : List Step) (r : Option ℤ × Ctx) (w : Value)
      → IsSchema (int_node l)
      → (bounded_int l path r).0 ≡ some w
      → Conforms find call (int_node l) w
  unfolding bounded_int
  bounded_int-Conforms l path (none, cx) w o h = cc
  bounded_int-Conforms l path (some n, cx) w o h = int_found-Conforms l n path cx _ w o refl h

  int_default-Conforms :
      (l : Limits ℤ) (d : Option ℤ) (w : Value)
      → l.default ≡ d
      → int_default d ≡ some w
      → Conforms find call (int_node l) w
  int_default-Conforms l none w e h = cc
  int_default-Conforms l (some n) w e h = (n, cc, inr e)

  pub check_int-Good :
      (l : Limits ℤ) (v : Value) (path : List Step) (cx : Ctx)
      → IsSchema (int_node l)
      → cx.truncated ≡ false
      → Ends (Good find call (int_node l) cx) (finished (check_int v l path cx))
  unfolding check_int
  check_int-Good l v path cx o room =
      Single-Good find call (int_node l) cx (check_int v l path cx) room
        (check_int-Single v l path cx)
        (λ w h. elim (Bool-cases (is_blank v)) [
          | inl blank ↦
              int_default-Conforms l l.default w refl
                (default-some (int_default l.default) path cx w (rw blank at h))
          | inr full ↦ bounded_int-Conforms l path (parse_int_value v path cx) w o (rw full at h)
        ])

  number_found-Conforms :
      (l : Limits F64) (n : F64) (path : List Step) (cx : Ctx) (r : Option F64 × Ctx) (w : Value)
      → IsSchema (number_node l)
      → apply_bounds f64_lt l n path cx ≡ r
      → (number_found r).0 ≡ some w
      → Conforms find call (number_node l) w
  number_found-Conforms l n path cx (none, cx') w o e h = cc
  number_found-Conforms l n path cx (some k, cx') w o e h =
      (k, cc, inl (apply_bounds-within f64_lt f64_lt_irrefl l n path cx k o e))

  bounded_number-Conforms :
      (l : Limits F64) (path : List Step) (cx : Ctx) (n : Option F64) (w : Value)
      → IsSchema (number_node l)
      → (bounded_number l path cx n).0 ≡ some w
      → Conforms find call (number_node l) w
  unfolding bounded_number
  bounded_number-Conforms l path cx none w o h = cc
  bounded_number-Conforms l path cx (some n) w o h = number_found-Conforms l n path cx _ w o refl h

  number_default-Conforms :
      (l : Limits F64) (d : Option F64) (w : Value)
      → l.default ≡ d
      → number_default d ≡ some w
      → Conforms find call (number_node l) w
  number_default-Conforms l none w e h = cc
  number_default-Conforms l (some n) w e h = (n, cc, inr e)

  pub check_number-Good :
      (l : Limits F64) (v : Value) (path : List Step) (cx : Ctx)
      → IsSchema (number_node l)
      → cx.truncated ≡ false
      → Ends (Good find call (number_node l) cx) (finished (check_number v l path cx))
  unfolding check_number
  check_number-Good l v path cx o room =
      Single-Good find call (number_node l) cx (check_number v l path cx) room
        (check_number-Single v l path cx)
        (λ w h. elim (Bool-cases (is_blank v)) [
          | inl blank ↦
              number_default-Conforms l l.default w refl
                (default-some (number_default l.default) path cx w (rw blank at h))
          | inr full ↦ bounded_number-Conforms l path cx (finite_number v) w o (rw full at h)
        ])

  -- What a text keeps of its rule, and what it records.
  abbrev StrPost : StrRule → Bytes → Ctx → Bool → Ctx → Type 0
  StrPost r s cx true cx' = (cx' ≡ cx) × FitsRule find r s
  StrPost r s cx false cx' = weight cx < weight cx'

  -- The same before the pattern is looked at.
  abbrev LengthPost : StrRule → Bytes → Ctx → Bool → Ctx → Type 0
  LengthPost r s cx true cx' =
      (cx' ≡ cx)
      × (under r.min_len (char_count s) ≡ false)
      × (over r.max_len (char_count s) ≡ false)
  LengthPost r s cx false cx' = weight cx < weight cx'

  check_length-Post :
      (s : Bytes) (r : StrRule) (path : List Step) (cx : Ctx)
      → cx.truncated ≡ false
      → LengthPost r s cx (check_length s r path cx).0 (check_length s r path cx).1
  unfolding check_length
  check_length-Post s r path cx room = elim (Bool-cases (under r.min_len (char_count s))) [
    | inl short ↦ elim (Bool-cases (over r.max_len (char_count s))) [
      | inl long ↦
          rw (short, long)
            (omega (
              arith,
              fail-grows path too_short cx room,
              fail-le path too_long (fail path too_short cx),
            ))
      | inr fits ↦ rw (short, fits) (fail-grows path too_short cx room)
    ]
    | inr enough ↦ elim (Bool-cases (over r.max_len (char_count s))) [
      | inl long ↦ rw (enough, long) (fail-grows path too_long cx room)
      | inr fits ↦ rw (enough, fits) (refl, enough, fits)
    ]
  ]

  found-Post :
      (r : StrRule) (s p : Bytes) (o : Option Bool) (ok : Bool) (path : List Step) (cx cx' : Ctx)
      → cx.truncated ≡ false
      → r.pattern ≡ some p
      → find s p ≡ o
      → LengthPost r s cx ok cx'
      → Ends (StrPost r s cx) (found o ok path cx')
  unfolding found
  found-Post r s p none ok path cx cx' room e f h = tt
  found-Post r s p (some true) true path cx cx' room e f (same, low, high) =
      (same, (low, high, rw e f))
  found-Post r s p (some true) false path cx cx' room e f h = h
  found-Post r s p (some false) true path cx cx' room e f (same, low, high) =
      rw same (fail-grows path bad_format cx room)
  found-Post r s p (some false) false path cx cx' room e f h =
      omega (arith, h, fail-le path bad_format cx')

  check_pattern-Post :
      (r : StrRule) (s : Bytes) (o : Option Bytes) (ok : Bool) (path : List Step) (cx cx' : Ctx)
      → cx.truncated ≡ false
      → r.pattern ≡ o
      → LengthPost r s cx ok cx'
      → Ends (StrPost r s cx) (check_pattern find s o ok path cx')
  unfolding check_pattern
  check_pattern-Post r s none true path cx cx' room e (same, low, high) =
      (same, (low, high, rw e tt))
  check_pattern-Post r s none false path cx cx' room e h = h
  check_pattern-Post r s (some p) ok path cx cx' room e h =
      found-Post r s p (find s p) ok path cx cx' room e refl h

  checked_text-Good :
      (r : StrRule) (s : Bytes) (cx : Ctx) (o : Out Bool)
      → Ends (StrPost r s cx) o
      → Ends (Good find call (str_node r) cx) (checked_text s o)
  unfolding checked_text
  checked_text-Good r s cx raised h = tt
  checked_text-Good r s cx (done true cx') h = (h.0, (s, refl, inl h.1))
  checked_text-Good r s cx (done false cx') h = h

  text_default-Conforms :
      (r : StrRule) (d : Option Bytes) (w : Value)
      → r.default ≡ d
      → text_default d ≡ some w
      → Conforms find call (str_node r) w
  text_default-Conforms r none w e h = cc
  text_default-Conforms r (some s) w e h = (s, cc, inr e)

  pub check_str_node-Good :
      (r : StrRule) (v : Value) (path : List Step) (cx : Ctx)
      → cx.truncated ≡ false
      → Ends (Good find call (str_node r) cx) (check_str_node find r v path cx)
  unfolding check_str_node
  check_str_node-Good r nil path cx room =
      Single-Good find call (str_node r) cx (default_or_required (text_default r.default) path cx)
        room (default_or_required-Single (text_default r.default) path cx)
        (λ w h.
          text_default-Conforms r r.default w refl
            (default-some (text_default r.default) path cx w h))
  check_str_node-Good r (text s) path cx room =
      checked_text-Good r s cx (check_str find s r path cx) (
        unfold check_str in
        (check_pattern-Post r s r.pattern (check_length s r path cx).0 path cx
          (check_length s r path cx).1 room refl (check_length-Post s r path cx room)))
  check_str_node-Good r null path cx room = fail-grows path not_string cx room
  check_str_node-Good r other path cx room = fail-grows path not_string cx room
  check_str_node-Good r (boolean b) path cx room = fail-grows path not_string cx room
  check_str_node-Good r (integer i) path cx room = fail-grows path not_string cx room
  check_str_node-Good r (number x) path cx room = fail-grows path not_string cx room
  check_str_node-Good r (table es len) path cx room = fail-grows path not_string cx room
