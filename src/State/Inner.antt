-- ===== src/State/Inner.antt =====
-- `Inner`, the state behind the store's mutex, and its operations up to `version`
-- (src/capabilities/state.rs). An operation takes the time that `Instant::now` returned.
use lur.Base.{
  ℕ, ◌+◌, ◌-◌, ◌^◌, ◌%◌, Bool, false, ◌&&◌, ◌||◌, Option, none, some, List, [], ◌∷◌, ltb, leb, min,
  if◌then◌else◌,
}
use lur.Base.Bytes.{Bytes}
use lur.Base.Dict.{Dict, find, erase, insert, keys_where}
use lur.Base.Ticks.{Ticks, insert_tick, erase_tick}
use lur.State.Entry.{Entry, fresh, stale, dead, freshness, is_dead}

-- A loader in flight. The sending half of its channel is known by `id`, and the leader's `VmLeads`
-- by its address `owner`.
pub record Flight : Type 0 where
  pub id : ℕ
  pub waits : Dict ℕ
  pub owner : ℕ
  pub depth : ℕ

pub record Inner : Type 0 where
  pub map : Dict Entry
  pub order : Ticks
  pub next_tick : ℕ
  pub bytes : ℕ
  pub last_version : ℕ
  pub last_sweep : Option ℕ
  pub earliest : Option ℕ
  pub evictions : ℕ
  pub flights : Dict Flight
  pub next_flight : ℕ

abbrev pub empty : Inner
empty = record {
  map = [];
  order = [];
  next_tick = 0;
  bytes = 0;
  last_version = 0;
  last_sweep = none;
  earliest = none;
  evictions = 0;
  flights = [];
  next_flight = 0;
}

-- `+= 1` on a `u64`, as the release build computes it.
abbrev pub u64_inc : ℕ → ℕ
u64_inc n = (n + 1) % 2 ^ 64

unfoldable pub stamp : Inner → ℕ × Inner
stamp s = let t = u64_inc s.next_tick in (t, record s { next_tick = t })

forget : Bytes → Option Entry → Inner → Inner
forget key none s = s
forget key (some e) s = record s {
  map = erase key s.map;
  order = if e.evictable then erase_tick e.tick s.order else s.order;
  bytes = s.bytes - e.size;
}

unfoldable pub remove : Bytes → Inner → Inner
unfolding forget
remove key s = forget key (find key s.map) s

-- `for key in keys { self.remove(&key) }`
unfoldable pub remove_all : List Bytes → Inner → Inner
remove_all [] s = s
remove_all (k ∷ ks) s = remove_all ks (remove k s)

unfoldable pub drop_dead : ℕ → Inner → Inner
drop_dead now s = remove_all (keys_where (λ e. is_dead (freshness e now)) s.map) s

abbrev pub past : Option ℕ → ℕ → Bool
past none now = false
past (some x) now = leb x now

-- What `drop_expired` drops: the dead, and the stale that may be evicted.
abbrev pub droppable : ℕ → Entry → Bool
droppable now e = past e.expires now && (e.evictable || is_dead (freshness e now))

unfoldable pub min_opt : Option ℕ → ℕ → Option ℕ
min_opt none x = some x
min_opt (some e) x = some (min e x)

-- The least `expires` after `now`.
unfoldable pub next_expiry : ℕ → Dict Entry → Option ℕ
unfolding min_opt
next_expiry now [] = none
next_expiry now ((k, e) ∷ m) =
    let rest = next_expiry now m in
    elim e.expires [ none ↦ rest | some x ↦ if ltb now x then min_opt rest x else rest ]

unfoldable pub drop_expired : ℕ → Inner → Inner
drop_expired now s =
    if past s.earliest now
    then (let s' = remove_all (keys_where (droppable now) s.map) s in
        record s' { earliest = next_expiry now s'.map })
    else s

live_of : Bytes → Option Entry → ℕ → Inner → Option Entry × Inner
live_of key none now s = (none, s)
live_of key (some e) now s = elim (freshness e now) [
  | fresh ↦ (some e, s)
  | stale ↦ (none, s)
  | dead ↦ (none, remove key s)
]

unfoldable pub live : Bytes → ℕ → Inner → Option Entry × Inner
unfolding live_of
live key now s = live_of key (find key s.map) now s

touch_of : Bytes → Option Entry → Inner → Inner
touch_of key none s = s
touch_of key (some e) s =
    if e.evictable
    then (let (tick, s') = stamp s in
        record s' {
          order = insert_tick tick key (erase_tick e.tick s'.order);
          map = insert key (record e { tick = tick }) s'.map;
        })
    else s

unfoldable pub touch : Bytes → Inner → Inner
unfolding touch_of stamp
touch key s = touch_of key (find key s.map) s

abbrev pub version_of : Option Entry → ℕ
version_of none = 0
version_of (some e) = e.version

unfoldable pub version : Bytes → ℕ → Inner → ℕ × Inner
version key now s = let (e, s') = live key now s in (version_of e, s')
