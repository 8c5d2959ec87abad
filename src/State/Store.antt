-- ===== src/State/Store.antt =====
-- The methods of `StateStore` that take the lock for one read or write
-- (src/capabilities/state.rs). Each takes the instant of its `Instant::now`.
pub mod Steps
pub mod Evolves
pub mod Atomic
pub mod Counter
pub mod Expiring
use lur.Base.{
  ℕ, ◌+◌, ◌-◌, ◌*◌, ◌/◌, ◌%◌, ◌^◌, Bool, true, false, not, Option, none, some, ltb, leb, ◌==◌,
  if◌then◌else◌,
}
use lur.Base.Int.{ℤ, pos, checked_add}
use lur.Base.Bytes.{Bytes}
use lur.Base.Dict.{find}
use lur.Float.{F64, whole_f64_to_i64, of_i64}
use lur.State.Entry.{
  Prim, boolean, num, str, prim_eq, Entry, Write, Limits, freshness, is_stale, ms_ns,
}
use lur.State.Inner.{Inner, live, touch, version, version_of}
use lur.State.Put.{Result, ok, err, full, panic, PutError, put}

abbrev pub value_of : Option Entry → Option Prim
value_of none = none
value_of (some e) = some e.value

touched_if : Bytes → Option Entry → Inner → Inner
touched_if key none s = s
touched_if key (some e) s = touch key s

-- `StateStore::get`
unfoldable pub get : Bytes → ℕ → Inner → Option Prim × Inner
unfolding touched_if
get key now s = let (e, s') = live key now s in (value_of e, touched_if key e s')

pub data IncrError : Type 0 where
  not_integer overflow no_room panicked : IncrError

pub data IncrResult : Type 0 where
  counted : ℤ → IncrResult
  failed : IncrError → IncrResult

-- The counter that a value stands for; an absent one counts as 0.
unfoldable pub base_of : Option Prim → Option ℤ
base_of none = some (pos 0)
base_of (some (num x)) = whole_f64_to_i64 x
base_of (some (boolean b)) = none
base_of (some (str b)) = none

incr_error : PutError → IncrError
incr_error full = no_room
incr_error panic = panicked

incr_result : ℤ → Result (Unit {0}) → IncrResult
incr_result new (ok _) = counted new
incr_result new (err e) = failed (incr_error e)

incr_put : Bytes → ℤ → Write → ℕ → Limits → Inner → IncrResult × Inner
unfolding incr_result incr_error
incr_put key new w now limits s =
    let (r, s') = put key (some (num (of_i64 new))) w now limits s in (incr_result new r, s')

incr_add : Bytes → Option ℤ → ℤ → Write → ℕ → Limits → Inner → IncrResult × Inner
unfolding incr_put
incr_add key none n w now limits s = (failed not_integer, s)
incr_add key (some base) n w now limits s = elim (checked_add base n) [
  | none ↦ (failed overflow, s)
  | some new ↦ incr_put key new w now limits s
]

-- `StateStore::incr`
unfoldable pub incr : Bytes → ℤ → Write → ℕ → Limits → Inner → IncrResult × Inner
unfolding incr_add
incr key n w now limits s =
    let (e, s') = live key now s in incr_add key (base_of (value_of e)) n w now limits s'

pub record Snapshot : Type 0 where
  pub value : Option Prim
  pub version : ℕ

-- `StateStore::snapshot`
unfoldable pub snapshot : Bytes → ℕ → Inner → Snapshot × Inner
snapshot key now s =
    let (e, s') = live key now s in (record { value = value_of e; version = version_of e }, s')

done : Result (Unit {0}) → Result Bool
done (ok _) = ok true
done (err e) = err e

-- `StateStore::compare_and_set`
unfoldable pub compare_and_set :
    Bytes → ℕ → Option Prim → Write → ℕ → Limits → Inner → Result Bool × Inner
unfolding done
compare_and_set key expected value w now limits s =
    let (v, s') = version key now s in
    let (r, s'') = put key value w now limits s' in
    if v == expected then (done r, s'') else (ok false, s')

unfoldable pub same_value : Option Prim → Option Prim → Bool
same_value none none = true
same_value (some a) (some b) = prim_eq a b
same_value _ _ = false

-- `StateStore::cas_value` locks twice: `between` is what the other threads do to the store while
-- it does not hold the lock.
unfoldable pub cas_value :
    Bytes
    → Option Prim
    → Option Prim
    → Write
    → ℕ
    → (Inner → Inner)
    → ℕ
    → Limits
    → Inner
    → Result Bool × Inner
cas_value key expected new w now between now' limits s =
    let (current, s') = snapshot key now s in
    if same_value current.value expected
    then compare_and_set key current.version new w now' limits (between s')
    else (ok false, s')

-- What is left until an instant, in milliseconds, rounded up. It fits an `i64` or is the largest.
unfoldable pub ms_left : ℕ → ℕ → ℤ
ms_left now x =
    let left = x - now in
    let ms = left / ms_ns + (if left % ms_ns == 0 then 0 else 1) in
    pos (if ltb ms (2 ^ 63) then ms else 2 ^ 63 - 1)

pub data Ttl : Type 0 where
  absent unlimited : Ttl
  expiring : ℤ → Ttl

ttl_of : Option Entry → ℕ → Ttl
ttl_of none now = absent
ttl_of (some e) now = elim e.expires [ none ↦ unlimited | some x ↦ expiring (ms_left now x) ]

-- `StateStore::ttl`
unfoldable pub ttl : Bytes → ℕ → Inner → Ttl × Inner
unfolding ttl_of
ttl key now s = let (e, s') = live key now s in (ttl_of e now, s')

pub data Lookup : Type 0 where
  fresh stale : Prim → Lookup
  missing : Lookup

stale_or_missing : ℕ → Option Entry → Lookup
stale_or_missing now none = missing
stale_or_missing now (some e) = if is_stale (freshness e now) then stale e.value else missing

lookup_of : Bytes → ℕ → Option Entry → Inner → Lookup × Inner
lookup_of key now (some e) s = (fresh e.value, touch key s)
lookup_of key now none s = (stale_or_missing now (find key s.map), s)

-- `StateStore::lookup`
unfoldable pub lookup : Bytes → ℕ → Inner → Lookup × Inner
unfolding lookup_of stale_or_missing
lookup key now s = let (e, s') = live key now s in lookup_of key now e s'
