-- ===== src/State/Put.antt =====
-- `Inner::put`: the sweep, the options of a write, room under the limits, and the insertion
-- (src/capabilities/state.rs).
pub mod Victims
pub mod Room
pub mod Frame
pub mod Insert
pub mod Survive
pub mod Outcome
pub mod Safety
pub mod Apart
use lur.Base.{
  ℕ, ◌+◌, ◌-◌, ◌*◌, ◌^◌, ◌%◌, Bool, true, false, not, ◌&&◌, ◌||◌, Option, none, some, List, [], ◌∷◌,
  leb, ltb, ◌==◌, if◌then◌else◌, length,
}
use lur.Base.Int.{ℤ, cast_unsigned}
use lur.Base.Bytes.{Bytes, bytes_eq}
use lur.Base.Dict.{Dict, find, insert, size}
use lur.Base.Ticks.{Ticks, insert_tick, erase_tick}
use lur.State.Entry.{
  Prim, prim_size, Entry, Expiry, clear, keep, after, after_if_unset, Write, WriteMeta, Limits,
  allows, add_ms, ms_ns, sweep_every, entry_overhead,
}
use lur.State.Inner.{Inner, u64_inc, stamp, remove, drop_dead, drop_expired, live, min_opt}

-- `full` is the source's `Full`. `panic` is the index of a map at a key that is not there.
pub data PutError : Type 0 where
  full panic : PutError

pub data Result {ℓ} (A : Type ℓ) : Type ℓ where
  ok : A → Result A
  err : PutError → Result A

-- The sweep at the head of `put`.
sweep_due : Option ℕ → ℕ → Bool
sweep_due none now = true
sweep_due (some t) now = leb sweep_every (now - t)

unfoldable pub sweep : ℕ → Inner → Inner
unfolding sweep_due
sweep now s =
    if sweep_due s.last_sweep now then record (drop_dead now s) { last_sweep = some now } else s

prev_expires : Option Entry → Option ℕ
prev_expires none = none
prev_expires (some e) = e.expires

prev_evictable : Option Entry → Bool
prev_evictable none = false
prev_evictable (some e) = e.evictable

prev_stale : Option Entry → Option ℕ
prev_stale none = none
prev_stale (some e) = e.stale_for

-- The new expiry, and whether it was inherited.
new_expiry : Expiry → Option ℕ → ℕ → Option ℕ × Bool
new_expiry clear prev now = (none, false)
new_expiry keep prev now = (prev, true)
new_expiry (after ms) prev now = (some (add_ms now ms), false)
new_expiry (after_if_unset ms) none now = (some (add_ms now ms), false)
new_expiry (after_if_unset ms) (some x) now = (some x, true)

new_stale : Option ℕ → Bool → Option ℤ → Option ℕ → Option ℕ
new_stale none inherited ms prev = none
new_stale (some x) inherited (some ms) prev = some (cast_unsigned ms * ms_ns)
new_stale (some x) inherited none prev = if inherited then prev else none

flag_or : Option Bool → Bool → Bool
flag_or none b = b
flag_or (some a) b = a

-- What a write gives to an entry that replaces `prev`.
unfoldable pub meta_of : Write → Option Entry → ℕ → WriteMeta
unfolding prev_expires prev_evictable prev_stale new_expiry new_stale flag_or
meta_of w prev now =
    let x = new_expiry w.expiry (prev_expires prev) now in
    record {
      expires = x.0;
      stale_for = new_stale x.0 x.1 w.stale_ms (prev_stale prev);
      evictable = flag_or w.evictable (prev_evictable prev);
    }

unfoldable pub write_meta : Bytes → Write → ℕ → Inner → WriteMeta × Inner
write_meta key w now s = let (prev, s') = live key now s in (meta_of w prev now, s')

present_of : Option Entry → ℕ
present_of none = 0
present_of (some e) = 1

size_of : Option Entry → ℕ
size_of none = 0
size_of (some e) = e.size

-- The entries and the bytes that the store would hold after a write of `n` bytes under `key`.
unfoldable pub entries_with : Bytes → Inner → ℕ
unfolding present_of
entries_with key s = size s.map + 1 - present_of (find key s.map)

unfoldable pub bytes_with : Bytes → ℕ → Inner → ℕ
unfolding size_of
bytes_with key n s = s.bytes - size_of (find key s.map) + n

unfoldable pub over : Bytes → ℕ → Limits → Inner → Bool
unfolding entries_with bytes_with
over key n limits s = not (allows limits (entries_with key s) (bytes_with key n s))

pub record Plan : Type 0 where
  pub victims : Ticks
  pub entries : ℕ
  pub bytes : ℕ

push_victim : ℕ → Bytes → Option Plan → Option Plan
push_victim t k none = none
push_victim t k (some p) = some (record p { victims = (t, k) ∷ p.victims })

-- The loop of `plan_evictions` over the recency index; `none` if an indexed key has no entry.
unfoldable pub plan_loop : Bytes → Limits → Dict Entry → Ticks → ℕ → ℕ → Option Plan
unfolding push_victim
plan_loop key limits m [] entries bytes =
    some (record { victims = []; entries = entries; bytes = bytes })
plan_loop key limits m ((t, k) ∷ rest) entries bytes =
    let skip = plan_loop key limits m rest entries bytes in
    let take =
      λ (e : Entry). push_victim t k (plan_loop key limits m rest (entries - 1) (bytes - e.size)) in
    let stop = some (record { victims = []; entries = entries; bytes = bytes }) in
    if allows limits entries bytes
    then stop
    else if bytes_eq k key
    then skip
    else elim (find k m) [ none ↦ none | some e ↦ take e ]

plan_result : Limits → Option Plan → Result Ticks
plan_result limits none = err panic
plan_result limits (some p) = if allows limits p.entries p.bytes then ok p.victims else err full

unfoldable pub plan_evictions : Bytes → ℕ → Limits → Inner → Result Ticks
unfolding plan_result
plan_evictions key n limits s =
    plan_result limits
      (plan_loop key limits s.map s.order (entries_with key s) (bytes_with key n s))

-- The loop of `make_room` over its victims.
unfoldable pub evict : Ticks → Inner → Inner
evict [] s = s
evict ((t, k) ∷ rest) s =
    let s' = remove k (record s { order = erase_tick t s.order }) in
    evict rest (record s' { evictions = u64_inc s'.evictions })

evict_planned : Result Ticks → Inner → Result (Unit {0}) × Inner
evict_planned (err e) s = (err e, s)
evict_planned (ok victims) s = (ok tt, evict victims s)

unfoldable pub make_room : Bytes → ℕ → Limits → ℕ → Inner → Result (Unit {0}) × Inner
unfolding evict_planned
make_room key n limits now s =
    let s' = if over key n limits s then drop_expired now s else s in
    if not (over key n limits s')
    then (ok tt, s')
    else evict_planned (plan_evictions key n limits s') s'

-- The recency stamp of a new entry, which is indexed if it may be evicted.
index_new : Bytes → Bool → Inner → ℕ × Inner
index_new key true s =
    let (t, s') = stamp s in (t, record s' { order = insert_tick t key s'.order })
index_new key false s = (0, s)

earliest_with : Option ℕ → Option ℕ → Option ℕ
earliest_with none old = old
earliest_with (some x) old = min_opt old x

unfoldable pub insert_fresh : Bytes → Prim → WriteMeta → ℕ → Inner → Inner
unfolding stamp index_new earliest_with min_opt
insert_fresh key value meta n s0 =
    let s1 = remove key s0 in
    let v = u64_inc s1.last_version in
    let (tick, s2) = index_new key meta.evictable (record s1 { last_version = v }) in
    let e : Entry = record {
      value = value;
      version = v;
      expires = meta.expires;
      stale_for = meta.stale_for;
      evictable = meta.evictable;
      size = n;
      tick = tick;
    } in
    record s2 {
      bytes = s2.bytes + n;
      earliest = earliest_with meta.expires s2.earliest;
      map = insert key e s2.map;
    }

unfoldable pub too_large : Limits → ℕ → Bool
too_large limits n = not (limits.max_bytes == 0) && ltb limits.max_bytes n

unfoldable pub store_in_room :
    Bytes → Prim → WriteMeta → ℕ → Result (Unit {0}) × Inner → Result (Unit {0}) × Inner
store_in_room key value meta n (ok _, s) = (ok tt, insert_fresh key value meta n s)
store_in_room key value meta n (err e, s) = (err e, s)

unfoldable pub cost : Bytes → Prim → ℕ
cost key value = length key + prim_size value + entry_overhead

unfoldable pub put_value : Bytes → Prim → Write → ℕ → Limits → Inner → Result (Unit {0}) × Inner
unfolding too_large store_in_room
put_value key value w now limits s =
    let (meta, s') = write_meta key w now (sweep now s) in
    let n = cost key value in
    if too_large limits n
    then (err full, s')
    else store_in_room key value meta n (make_room key n limits now s')

-- `Inner::put`
unfoldable pub put : Bytes → Option Prim → Write → ℕ → Limits → Inner → Result (Unit {0}) × Inner
put key none w now limits s = (ok tt, remove key s)
put key (some value) w now limits s = put_value key value w now limits s
