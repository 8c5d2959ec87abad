-- ===== src/HttpCache.antt =====
-- The response cache of the HTTP client, `HttpCache` (src/capabilities/http.rs). An operation takes
-- the time that `Instant::now` returned in it.
pub mod Valid
pub mod Evict
pub mod Insert
pub mod Reads
pub mod Methods
mod Tests
use lur.Base.{
  ℕ, ◌+◌, ◌-◌, ◌*◌, Bool, true, false, not, ◌&&◌, ◌||◌, Option, none, some, List, [], ◌∷◌, length,
  ltb, leb, min, ◌==◌, if◌then◌else◌,
}
use lur.Base.Int.{ℤ, cast_unsigned}
use lur.Base.Bytes.{Bytes}
use lur.Base.Dict.{Dict, find, erase, insert, size, keys_where}
use lur.Base.Ticks.{Ticks, insert_tick, erase_tick}
use lur.State.Entry.{ms_ns, second_ns, instant_add}
use lur.State.Inner.{u64_inc, past}

pub record RawResponse : Type 0 where
  pub status : ℕ
  pub headers : List (Bytes × Bytes)
  pub body : Bytes

pub record CacheEntry : Type 0 where
  pub expires : ℕ
  pub raw : RawResponse
  pub size : ℕ
  pub tick : ℕ

pub record CacheInner : Type 0 where
  pub entries : Dict CacheEntry
  pub order : Ticks
  pub next_tick : ℕ
  pub bytes : ℕ
  pub last_sweep : Option ℕ
  pub earliest : Option ℕ

-- The limits of the cache; 0 is no limit.
pub record CacheLimits : Type 0 where
  pub max_entries : ℕ
  pub max_bytes : ℕ

abbrev pub empty_cache : CacheInner
empty_cache = record {
  entries = [];
  order = [];
  next_tick = 0;
  bytes = 0;
  last_sweep = none;
  earliest = none;
}

removed : Bytes → Option CacheEntry → CacheInner → CacheInner
removed key none c = c
removed key (some e) c = record c {
  entries = erase key c.entries;
  order = erase_tick e.tick c.order;
  bytes = c.bytes - e.size;
}

-- `CacheInner::remove`
unfoldable pub remove : Bytes → CacheInner → CacheInner
unfolding removed
remove key c = removed key (find key c.entries) c

unfoldable pub remove_all : List Bytes → CacheInner → CacheInner
remove_all [] c = c
remove_all (k ∷ ks) c = remove_all ks (remove k c)

min_with : Option ℕ → ℕ → ℕ
min_with none x = x
min_with (some y) x = min y x

-- The least `expires`: `values().map(|e| e.expires).min()`.
unfoldable pub least_expires : Dict CacheEntry → Option ℕ
unfolding min_with
least_expires [] = none
least_expires ((k, e) ∷ m) = some (min_with (least_expires m) e.expires)

abbrev pub is_expired : ℕ → CacheEntry → Bool
is_expired now e = leb e.expires now

-- `CacheInner::drop_expired`
unfoldable pub drop_expired : ℕ → CacheInner → CacheInner
drop_expired now c =
    let c' = remove_all (keys_where (is_expired now) c.entries) c in
    if past c.earliest now then record c' { earliest = least_expires c'.entries } else c

-- `HttpCache::over`
unfoldable pub over : CacheLimits → CacheInner → Bool
over l c =
    (not (l.max_entries == 0) && ltb l.max_entries (size c.entries))
    || (not (l.max_bytes == 0) && ltb l.max_bytes c.bytes)

-- A hit makes its entry the most recently used.
pub hit_at : Bytes → CacheEntry → CacheInner → CacheInner
hit_at key e c =
    let tick = u64_inc c.next_tick in
    record c {
      next_tick = tick;
      order = insert_tick tick key (erase_tick e.tick c.order);
      entries = insert key (record e { tick = tick }) c.entries;
    }

got : Bytes → Option CacheEntry → ℕ → CacheInner → Option RawResponse × CacheInner
unfolding hit_at
got key none now c = (none, c)
got key (some e) now c =
    if ltb now e.expires then (some e.raw, hit_at key e c) else (none, remove key c)

-- `HttpCache::get`
unfoldable pub get : Bytes → ℕ → CacheInner → Option RawResponse × CacheInner
unfolding got
get key now c = got key (find key c.entries) now c

headers_size : List (Bytes × Bytes) → ℕ
headers_size [] = 0
headers_size ((k, v) ∷ hs) = length k + length v + headers_size hs

unfoldable pub response_size : Bytes → RawResponse → ℕ
unfolding headers_size
response_size key raw = length raw.body + headers_size raw.headers + length key

cache_sweep_due : Option ℕ → ℕ → Bool
cache_sweep_due none now = true
cache_sweep_due (some t) now = leb (60 * second_ns) (now - t)

unfoldable pub cache_sweep : ℕ → CacheInner → CacheInner
unfolding cache_sweep_due
cache_sweep now c =
    if cache_sweep_due c.last_sweep now
    then record (drop_expired now c) { last_sweep = some now }
    else c

unfoldable pub expires_at : ℕ → ℤ → ℕ
expires_at now ttl_ms = elim (instant_add now (cast_unsigned ttl_ms * ms_ns)) [
  | some x ↦ x
  | none ↦ now + 10 * 365 * 24 * 3600 * second_ns
]

-- The insertion of a response, which does not look at the limits.
unfoldable pub store : Bytes → RawResponse → ℕ → ℕ → CacheInner → CacheInner
unfolding min_with
store key raw expires n c0 =
    let c = remove key c0 in
    let tick = u64_inc c.next_tick in
    record c {
      earliest = some (min_with c.earliest expires);
      next_tick = tick;
      order = insert_tick tick key c.order;
      bytes = c.bytes + n;
      entries =
          insert key (record { expires = expires; raw = raw; size = n; tick = tick }) c.entries;
    }

popped : Bytes → Option CacheEntry → CacheInner → CacheInner
popped key none c = c
popped key (some e) c = record c { entries = erase key c.entries; bytes = c.bytes - e.size }

-- The loop of `put` that evicts; its list is the recency index.
unfoldable pub evict : CacheLimits → Ticks → CacheInner → CacheInner
unfolding popped
evict l [] c = c
evict l ((t, k) ∷ rest) c =
    let less = evict l rest (popped k (find k c.entries) (record c { order = rest })) in
    if over l c then less else c

-- The end of `put`: expired entries are dropped first.
unfoldable pub shrink : CacheLimits → ℕ → CacheInner → CacheInner
shrink l now c = let c' = if over l c then drop_expired now c else c in evict l c'.order c'

-- `HttpCache::put`
unfoldable pub put : Bytes → RawResponse → ℤ → ℕ → CacheLimits → CacheInner → CacheInner
put key raw ttl_ms now l c =
    let n = response_size key raw in
    if not (l.max_bytes == 0) && ltb l.max_bytes n
    then c
    else shrink l now (store key raw (expires_at now ttl_ms) n (cache_sweep now c))

-- `HttpCache::clear`
unfoldable pub clear : CacheInner → ℕ × CacheInner
clear c = (size c.entries, record c { entries = []; order = []; bytes = 0; earliest = none })
