-- ===== src/State/Options/Lifetimes.antt =====
-- The times to live that pass the checks of the options (src/capabilities/state.rs).
use lur.Base.{
  ℕ, ◌^◌, ◌≡◌, ◌<◌, refl, inl, inr, Bool, Bool-cases, true, false, Option, Option-cases, none, some,
  arith,
}
use lur.Base.Int.{ℤ, pos, negsuc, ltb_ℤ, in_i64}
use lur.Float.{F64, whole_f64_to_i64}
use lur.State.Entry.{Expiry, clear, keep, after, after_if_unset, Write}
use lur.State.Options.{
  Field, nil, truth, integer, number, other, Valid, ok, err, and_then, positive, whole_ms, ms_field,
  bool_field, OptTable, OptArg, missing, not_a_table, table, opts_table, NoTtl, clears, keeps,
  initial, flagged, or_false, counter_expiry, plain_expiry, expiry_opts, table_opts, write_opts,
}

-- The time of an expiry.
abbrev pub lifetime : Expiry → Option ℤ
lifetime clear = none
lifetime keep = none
lifetime (after ms) = some ms
lifetime (after_if_unset ms) = some ms

-- A positive `i64`.
pub data IsPositive : Option ℤ → Type 0 where
  no_time : IsPositive none
  time : (n : ℕ) → 0 < n → n < 2 ^ 63 → IsPositive (some (pos n))

-- An integer of Lua is an `i64`.
abbrev pub IsField : Field → Type 0
IsField (integer i) = in_i64 i ≡ true
IsField _ = Unit {0}

abbrev pub IsOptArg : OptArg → Type 0
IsOptArg (table t) = IsField t.ttl_ms
IsOptArg _ = Unit {0}

and_then-ok :
    {A B : Type 0} (m : Valid A) (f : A → Valid B) (b : B)
    → and_then m f ≡ ok b
    → (a : A) × (m ≡ ok a) × (f a ≡ ok b)
and_then-ok (ok a) f b h = (a, refl, h)
and_then-ok (err e) f b h = absurd (ground arith)

positive-IsPositive : (i : ℤ) (t : Option ℤ) → in_i64 i ≡ true → positive i ≡ ok t → IsPositive t
unfolding positive
positive-IsPositive (negsuc n) t small h = absurd (ground arith)
positive-IsPositive (pos n) t small h = elim (Bool-cases (ltb_ℤ (pos 0) (pos n))) [
  | inl more ↦
      rw (← ok-some (pos n) t (rw (positive, more) at h)) (time n (ground arith) (ground arith))
  | inr zero' ↦ absurd (ground arith)
]
  where
    ok-some : (i : ℤ) (t : Option ℤ) → ◌≡◌ {A = Valid (Option ℤ)} (ok (some i)) (ok t) → some i ≡ t
    ok-some i t h = ground arith

whole_f64_to_i64-in_i64 : (x : F64) (i : ℤ) → whole_f64_to_i64 x ≡ some i → in_i64 i ≡ true
unfolding whole_f64_to_i64
whole_f64_to_i64-in_i64 x i h = ground arith

ok-none : (t : Option ℤ) → ◌≡◌ {A = Valid (Option ℤ)} (ok none) (ok t) → IsPositive t
ok-none none h = no_time
ok-none (some i) h = absurd (ground arith)

ms_field-IsPositive : (f : Field) (t : Option ℤ) → IsField f → ms_field f ≡ ok t → IsPositive t
unfolding ms_field whole_ms
ms_field-IsPositive nil t k h = ok-none t h
ms_field-IsPositive (truth b) t k h = absurd (ground arith)
ms_field-IsPositive other t k h = absurd (ground arith)
ms_field-IsPositive (integer i) t k h = positive-IsPositive i t k h
ms_field-IsPositive (number x) t k h = elim (Option-cases (whole_f64_to_i64 x)) [
  | inl no' ↦ absurd (ground arith)
  | inr (i, some') ↦ positive-IsPositive i t (whole_f64_to_i64-in_i64 x i some') (ground arith)
]

ok-write : (v w : Write) → ◌≡◌ {A = Valid Write} (ok v) (ok w) → v ≡ w
ok-write v w h = ground arith

-- A write with the expiry `x` that passes a check.
kept :
    (v w : Write)
    → ◌≡◌ {A = Valid Write} (ok v) (ok w)
    → IsPositive (lifetime v.expiry)
    → IsPositive (lifetime w.expiry)
kept v w h p = rw (← ok-write v w h) p

counter_expiry-IsPositive :
    (ttl : Option ℤ) (renew : Bool) (v w : Write)
    → counter_expiry ttl renew v ≡ ok w
    → IsPositive ttl
    → IsPositive (lifetime v.expiry)
    → IsPositive (lifetime w.expiry)
unfolding counter_expiry
counter_expiry-IsPositive none true v w h p q = absurd (ground arith)
counter_expiry-IsPositive none false v w h p q = kept v w h q
counter_expiry-IsPositive (some ms) true v w h p q = kept (record v { expiry = after ms }) w h p
counter_expiry-IsPositive (some ms) false v w h p q =
    kept (record v { expiry = after_if_unset ms }) w h p

expiry_opts-IsPositive :
    (counter : Bool) (t : OptTable) (ttl : Option ℤ) (v w : Write)
    → expiry_opts counter t ttl v ≡ ok w
    → IsPositive ttl
    → IsPositive (lifetime v.expiry)
    → IsPositive (lifetime w.expiry)
unfolding expiry_opts plain_expiry
expiry_opts-IsPositive true t ttl v w h p q =
    let (renew, flag, h1) = and_then-ok (bool_field t.renew_ttl) _ w h in
    counter_expiry-IsPositive ttl (or_false renew) v w h1 p q
expiry_opts-IsPositive false t none v w h p q = kept v w h q
expiry_opts-IsPositive false t (some ms) v w h p q = kept (record v { expiry = after ms }) w h p

flagged-IsPositive :
    (e : Option Bool) (v : Write)
    → IsPositive (lifetime v.expiry)
    → IsPositive (lifetime (flagged e v).expiry)
unfolding flagged
flagged-IsPositive none v p = p
flagged-IsPositive (some e) v p = p

initial-IsPositive : (no_ttl : NoTtl) → IsPositive (lifetime (initial no_ttl).expiry)
unfolding initial
initial-IsPositive clears = no_time
initial-IsPositive keeps = no_time

table_opts-IsPositive :
    (counter : Bool) (t : OptTable) (v w : Write)
    → IsField t.ttl_ms
    → table_opts counter (some t) v ≡ ok w
    → IsPositive (lifetime v.expiry)
    → IsPositive (lifetime w.expiry)
unfolding table_opts
table_opts-IsPositive counter t v w k h q =
    let (ttl, ttl-ok, h1) = and_then-ok (ms_field t.ttl_ms) _ w h in
    let (e, e-ok, h2) = and_then-ok (bool_field t.evictable) _ w h1 in
    expiry_opts-IsPositive counter t ttl (flagged e v) w h2
      (ms_field-IsPositive t.ttl_ms ttl k ttl-ok) (flagged-IsPositive e v q)

-- Every write whose options are accepted, `incr` and `decr` included, has no time to live or a
-- positive one that an `i64` holds, so that its conversion to milliseconds of the clock is exact.
pub write_opts-IsPositive :
    (arg : OptArg) (no_ttl : NoTtl) (counter : Bool) (w : Write)
    → IsOptArg arg
    → write_opts arg no_ttl counter ≡ ok w
    → IsPositive (lifetime w.expiry)
unfolding write_opts opts_table table_opts
write_opts-IsPositive missing no_ttl counter w k h =
    kept (initial no_ttl) w h (initial-IsPositive no_ttl)
write_opts-IsPositive not_a_table no_ttl counter w k h = absurd (ground arith)
write_opts-IsPositive (table t) no_ttl counter w k h =
    table_opts-IsPositive counter t (initial no_ttl) w k h (initial-IsPositive no_ttl)
