-- ===== src/Validate/Check/Tables.antt =====
-- Reading a table after a write, and the tables that the loops of `check_list` and `check_object`
-- build (src/capabilities/validate.rs).
use lur.Base.{
  ℕ, suc, ◌≡◌, ◌<◌, refl, inl, inr, Bool-cases, true, false, Option, none, some, ◌==◌,
  if◌then◌else◌, arith,
}
use lur.Base.Int.{ℤ, pos, negsuc, eqb_ℤ}
use lur.Base.Bytes.{Bytes, bytes_eq, bytes_eq_iff, bytes_eq_refl}
use lur.Validate.Value.{
  Value, nil, null, other, boolean, integer, number, text, table, Entries, empty, entry, Key,
  text_key, int_key, num_key, other_key, key_eq, get, put,
}
use lur.Validate.Check.{stored, counted}

eqb_ℤ-eq : (a b : ℤ) → eqb_ℤ a b ≡ true → a ≡ b
eqb_ℤ-eq (pos a) (pos b) h = ground arith
eqb_ℤ-eq (negsuc a) (negsuc b) h = ground arith
eqb_ℤ-eq (pos a) (negsuc b) h = cc
eqb_ℤ-eq (negsuc a) (pos b) h = cc

key_eq-eq : (a b : Key) → key_eq a b ≡ true → a ≡ b
key_eq-eq (text_key a) (text_key b) h = rw ((bytes_eq_iff a b).0 h) refl
key_eq-eq (int_key a) (int_key b) h = rw (eqb_ℤ-eq a b h) refl
key_eq-eq (text_key a) (int_key b) h = cc
key_eq-eq (text_key a) (num_key b) h = cc
key_eq-eq (text_key a) other_key h = cc
key_eq-eq (int_key a) (text_key b) h = cc
key_eq-eq (int_key a) (num_key b) h = cc
key_eq-eq (int_key a) other_key h = cc
key_eq-eq (num_key a) b h = cc
key_eq-eq other_key b h = cc

pub get-put :
    (k j : Key) (v : Value) (es : Entries)
    → get k (put j v es) ≡ (if key_eq j k then v else get k es)
unfolding get put
get-put k j v empty = refl
get-put k j v (entry i w es) = elim (Bool-cases (key_eq i j)) [
  | inl same ↦ elim (Bool-cases (key_eq j k)) [
    | inl hit ↦ rw (same, hit) refl
    | inr miss ↦
        let gone : key_eq i k ≡ false = rw (key_eq-eq i j same) miss in rw (same, miss, gone) refl
  ]
  | inr other' ↦ elim (Bool-cases (key_eq i k)) [
    | inl first ↦ elim (Bool-cases (key_eq j k)) [
      | inl hit ↦ let both : key_eq i k ≡ false = rw (← key_eq-eq j k hit) other' in cc
      | inr miss ↦ rw (other', first, miss) refl
    ]
    | inr later ↦ rw (other', later) (get-put k j v es)
  ]
]

-- What `stored` leaves under another text, and under its own.
pub get-stored_other :
    (name k : Bytes) (w : Option Value) (out : Entries)
    → bytes_eq name k ≡ false
    → get (text_key k) (stored (text_key name) w out) ≡ get (text_key k) out
unfolding stored
get-stored_other name k none out h = refl
get-stored_other name k (some nil) out h = refl
get-stored_other name k (some null) out h =
    rw (get-put (text_key k) (text_key name) null out, h) refl
get-stored_other name k (some other) out h =
    rw (get-put (text_key k) (text_key name) other out, h) refl
get-stored_other name k (some (boolean b)) out h =
    rw (get-put (text_key k) (text_key name) (boolean b) out, h) refl
get-stored_other name k (some (integer i)) out h =
    rw (get-put (text_key k) (text_key name) (integer i) out, h) refl
get-stored_other name k (some (number x)) out h =
    rw (get-put (text_key k) (text_key name) (number x) out, h) refl
get-stored_other name k (some (text s)) out h =
    rw (get-put (text_key k) (text_key name) (text s) out, h) refl
get-stored_other name k (some (table es n)) out h =
    rw (get-put (text_key k) (text_key name) (table es n) out, h) refl

get-put_self : (k : Bytes) (v : Value) (es : Entries) → get (text_key k) (put (text_key k) v es) ≡ v
get-put_self k v es = rw (get-put (text_key k) (text_key k) v es, bytes_eq_refl k) refl

pub get-stored_self :
    (name : Bytes) (v : Value) (out : Entries)
    → get (text_key name) out ≡ nil
    → get (text_key name) (stored (text_key name) (some v) out) ≡ v
unfolding stored
get-stored_self name nil out h = h
get-stored_self name null out h = get-put_self name null out
get-stored_self name other out h = get-put_self name other out
get-stored_self name (boolean b) out h = get-put_self name (boolean b) out
get-stored_self name (integer i) out h = get-put_self name (integer i) out
get-stored_self name (number x) out h = get-put_self name (number x) out
get-stored_self name (text s) out h = get-put_self name (text s) out
get-stored_self name (table es n) out h = get-put_self name (table es n) out

-- The first `n` items of a table, each of which has `P`.
abbrev pub AllItems : (Value → Type 0) → ℕ → Entries → Type 0
AllItems P n es = (i : ℕ) → i < n → P (get (int_key (pos (suc i))) es)

put-AllItems :
    (P : Value → Type 0) (n : ℕ) (v : Value) (out : Entries)
    → AllItems P n out
    → P v
    → AllItems P (suc n) (put (int_key (pos (suc n))) v out)
put-AllItems P n v out h p i lt = elim (Bool-cases (suc n == suc i)) [
  | inl last ↦ rw (get-put (int_key (pos (suc i))) (int_key (pos (suc n))) v out, last) p
  | inr earlier ↦
      rw (get-put (int_key (pos (suc i))) (int_key (pos (suc n))) v out, earlier)
        (h i (ground arith))
]

pub stored-AllItems :
    (P : Value → Type 0) (n : ℕ) (w : Option Value) (out : Entries)
    → AllItems P n out
    → ((v : Value) → w ≡ some v → P v)
    → AllItems P (counted w n) (stored (int_key (pos (suc n))) w out)
unfolding stored counted
stored-AllItems P n none out h p = h
stored-AllItems P n (some nil) out h p = h
stored-AllItems P n (some null) out h p = put-AllItems P n null out h (p null refl)
stored-AllItems P n (some other) out h p = put-AllItems P n other out h (p other refl)
stored-AllItems P n (some (boolean b)) out h p =
    put-AllItems P n (boolean b) out h (p (boolean b) refl)
stored-AllItems P n (some (integer i)) out h p =
    put-AllItems P n (integer i) out h (p (integer i) refl)
stored-AllItems P n (some (number x)) out h p =
    put-AllItems P n (number x) out h (p (number x) refl)
stored-AllItems P n (some (text s)) out h p = put-AllItems P n (text s) out h (p (text s) refl)
stored-AllItems P n (some (table es k)) out h p =
    put-AllItems P n (table es k) out h (p (table es k) refl)
