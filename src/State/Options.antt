-- ===== src/State/Options.antt =====
-- The options of a write as a script gives them, and the functions of `lur.state` up to the store
-- (src/capabilities/state.rs). The values of Lua are those that these checks tell apart.
mod Tests
pub mod Lifetimes
use lur.Base.{ℕ, ◌≡◌, ◌^◌, ◌<◌, Bool, true, false, Option, none, some, if◌then◌else◌}
use lur.Base.Int.{ℤ, pos, negsuc, ltb_ℤ, checked_neg}
use lur.Base.Bytes.{Bytes}
use lur.Float.{F64, whole_f64_to_i64}
use lur.State.Entry.{Prim, Expiry, clear, keep, after, after_if_unset, Write, Limits}
use lur.State.Inner.{Inner}
use lur.State.Store.{IncrResult, incr}

-- A field of the options; an `integer` is an `i64`.
pub data Field : Type 0 where
  nil : Field
  truth : Bool → Field
  integer : ℤ → Field
  number : F64 → Field
  other : Field

pub data OptError : Type 0 where
  not_positive not_boolean not_table needs_ttl step_large : OptError

pub data Valid {ℓ} (A : Type ℓ) : Type ℓ where
  ok : A → Valid A
  err : OptError → Valid A

abbrev pub and_then : {A B : Type 0} → Valid A → (A → Valid B) → Valid B
and_then (ok a) f = f a
and_then (err e) f = err e

positive : ℤ → Valid (Option ℤ)
positive ms = if ltb_ℤ (pos 0) ms then ok (some ms) else err not_positive

whole_ms : Option ℤ → Valid (Option ℤ)
unfolding positive
whole_ms none = err not_positive
whole_ms (some ms) = positive ms

-- `ms_field`
unfoldable pub ms_field : Field → Valid (Option ℤ)
unfolding whole_ms positive
ms_field nil = ok none
ms_field (integer i) = positive i
ms_field (number x) = whole_ms (whole_f64_to_i64 x)
ms_field (truth b) = err not_positive
ms_field other = err not_positive

-- `bool_field`
unfoldable pub bool_field : Field → Valid (Option Bool)
bool_field nil = ok none
bool_field (truth b) = ok (some b)
bool_field _ = err not_boolean

pub record OptTable : Type 0 where
  pub ttl_ms : Field
  pub evictable : Field
  pub renew_ttl : Field

-- The argument that may be a table of options.
pub data OptArg : Type 0 where
  missing not_a_table : OptArg
  table : OptTable → OptArg

unfoldable pub opts_table : OptArg → Valid (Option OptTable)
opts_table missing = ok none
opts_table (table t) = ok (some t)
opts_table not_a_table = err not_table

pub data NoTtl : Type 0 where
  clears keeps : NoTtl

unfoldable pub initial : NoTtl → Write
initial clears = record { expiry = clear; evictable = some false; stale_ms = none }
initial keeps = record { expiry = keep; evictable = none; stale_ms = none }

flagged : Option Bool → Write → Write
flagged none w = w
flagged (some e) w = record w { evictable = some e }

or_false : Option Bool → Bool
or_false none = false
or_false (some b) = b

counter_expiry : Option ℤ → Bool → Write → Valid Write
counter_expiry (some ms) true w = ok (record w { expiry = after ms })
counter_expiry (some ms) false w = ok (record w { expiry = after_if_unset ms })
counter_expiry none true w = err needs_ttl
counter_expiry none false w = ok w

plain_expiry : Option ℤ → Write → Write
plain_expiry none w = w
plain_expiry (some ms) w = record w { expiry = after ms }

expiry_opts : Bool → OptTable → Option ℤ → Write → Valid Write
unfolding or_false counter_expiry plain_expiry
expiry_opts true t ttl w =
    and_then (bool_field t.renew_ttl) (λ renew. counter_expiry ttl (or_false renew) w)
expiry_opts false t ttl w = ok (plain_expiry ttl w)

table_opts : Bool → Option OptTable → Write → Valid Write
unfolding flagged expiry_opts
table_opts counter none w = ok w
table_opts counter (some t) w =
    and_then (ms_field t.ttl_ms)
      (λ ttl. and_then (bool_field t.evictable) (λ e. expiry_opts counter t ttl (flagged e w)))

-- `write_opts`
unfoldable pub write_opts : OptArg → NoTtl → Bool → Valid Write
unfolding table_opts
write_opts arg no_ttl counter =
    and_then (opts_table arg) (λ t. table_opts counter t (initial no_ttl))

or_one : Option ℤ → ℤ
or_one none = pos 1
or_one (some n) = n

unfoldable pub delta : Option ℤ → Bool → Valid ℤ
unfolding or_one
delta n true = elim (checked_neg (or_one n)) [ none ↦ err step_large | some d ↦ ok d ]
delta n false = ok (or_one n)

-- `counter_fn` after the checks of its first two arguments: `incr`, or `decr` if `negate`.
unfoldable pub counter_fn :
    Bytes → Option ℤ → OptArg → Bool → ℕ → Limits → Inner → Valid (IncrResult × Inner)
counter_fn key n arg negate now limits s =
    and_then (write_opts arg keeps true)
      (λ w. and_then (delta n negate) (λ d. ok (incr key d w now limits s)))
