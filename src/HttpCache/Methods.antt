-- ===== src/HttpCache/Methods.antt =====
-- What `get` and `put` of the response cache promise (src/capabilities/http.rs).
use lur.Base.{
  ℕ, ◌≡◌, ◌<◌, List, refl, inl, inr, Option, none, some, Bool, Bool-cases, false, not, ◌&&◌, ltb,
  ◌==◌, if◌then◌else◌, arith,
}
use lur.Base.Int.{ℤ, pos, cast_unsigned}
use lur.Base.Bytes.{Bytes, bytes_eq, bytes_eq_iff}
use lur.Base.Dict.{find, find-insert, insert-Uniq, total-insert}
use lur.Base.Ticks.{
  Ticks, erase_tick, find-insert_tick, insert_tick-IsAscending, find-erase_tick,
  erase_tick-IsAscending,
}
use lur.State.Entry.{instant_add}
use lur.State.Inner.{u64_inc}
use lur.HttpCache.{
  CacheEntry, CacheInner, CacheLimits, RawResponse, is_expired, drop_expired, over, get, got,
  hit_at, response_size, cache_sweep, expires_at, store, shrink, put,
}
use lur.HttpCache.Valid.{IsCache, remove-IsCache, drop_expired-IsCache, find-drop_expired}
use lur.HttpCache.Reads.{get_all, AllBefore, Offers-get, get_all-Offers}
use lur.HttpCache.Evict.{evict-IsCache, evict-over, IsNewest, evict-newest}
use lur.HttpCache.Insert.{
  HasTicks, stored, next_tick-sweep, sweep-IsCache, store-IsCache, store-IsNewest,
}

module _ (l : CacheLimits) (now : ℕ) (c : CacheInner) (v : IsCache c) where
  trimmed-IsCache : IsCache (if over l c then drop_expired now c else c)
  trimmed-IsCache = elim (Bool-cases (over l c)) [
    | inl big ↦ rw big (drop_expired-IsCache now v)
    | inr small ↦ rw small v
  ]

  shrink-IsCache : IsCache (shrink l now c)
  unfolding shrink
  shrink-IsCache = evict-IsCache l _ _ trimmed-IsCache refl

  shrink-over : over l (shrink l now c) ≡ false
  unfolding shrink
  shrink-over = evict-over l _ _ trimmed-IsCache refl

  -- Dropping the expired entries keeps the newest one, if it has not expired.
  dropped-IsNewest :
      (key : Bytes) (e : CacheEntry)
      → is_expired now e ≡ false
      → IsNewest l key e c
      → IsNewest l key e (drop_expired now c)
  dropped-IsNewest key e alive new = record {
    found = rw (find-drop_expired now v key) (rw new.found (rw alive refl));
    last = λ t k h.
        let (x, found, same) = (drop_expired-IsCache now v).indexed t k h in
        ground (arith, find-drop_expired now v k, v.indexes k x, new.last x.tick k);
    fits = new.fits;
  }

  find-shrink :
      (key : Bytes) (e : CacheEntry)
      → is_expired now e ≡ false
      → IsNewest l key e c
      → find key (shrink l now c).entries ≡ some e
  unfolding shrink
  find-shrink key e alive new = elim (Bool-cases (over l c)) [
    | inl big ↦ rw big (
        evict-newest l key e _ _ (drop_expired-IsCache now v) (dropped-IsNewest key e alive new)
          refl)
    | inr small ↦ rw small (evict-newest l key e _ _ v new refl)
  ]

module _ (key : Bytes) (raw : RawResponse) (ttl_ms : ℤ) (now : ℕ) (l : CacheLimits) (c : CacheInner)
    (v : IsCache c) (room : HasTicks c) where
  too_large : Bool
  too_large = not (l.max_bytes == 0) && ltb l.max_bytes (response_size key raw)

  put-stored-IsCache :
      IsCache (store key raw (expires_at now ttl_ms) (response_size key raw) (cache_sweep now c))
  put-stored-IsCache =
      store-IsCache key raw _ _ (cache_sweep now c) (sweep-IsCache now c v)
        (rw (next_tick-sweep now c) room)

  put-IsCache_any : IsCache (put key raw ttl_ms now l c)
  unfolding put too_large
  put-IsCache_any = elim (Bool-cases too_large) [
    | inl big ↦ rw big v
    | inr small ↦ rw small (shrink-IsCache l now _ put-stored-IsCache)
  ]

-- `put` keeps the recency index a mirror of the entries, the byte count their sum and `earliest` a
-- lower bound, whether it stores the response or not, if the counter of ticks has a number left.
pub put-IsCache :
    (key : Bytes) (raw : RawResponse) (ttl_ms : ℤ) (now : ℕ) (l : CacheLimits) (c : CacheInner)
    → IsCache c
    → HasTicks c
    → IsCache (put key raw ttl_ms now l c)
put-IsCache key raw ttl_ms now l c v room = put-IsCache_any key raw ttl_ms now l c v room

-- The limits hold after every `put` that they held before, however large the response: the loop
-- evicts enough.
pub put-over :
    (key : Bytes) (raw : RawResponse) (ttl_ms : ℤ) (now : ℕ) (l : CacheLimits) (c : CacheInner)
    → IsCache c
    → HasTicks c
    → over l c ≡ false
    → over l (put key raw ttl_ms now l c) ≡ false
unfolding put too_large
put-over key raw ttl_ms now l c v room small =
    elim (Bool-cases (too_large key raw ttl_ms now l c v room)) [
      | inl big ↦ rw big small
      | inr fits ↦ rw fits (shrink-over l now _ (put-stored-IsCache key raw ttl_ms now l c v room))
    ]

expires_at-later : (now ms : ℕ) → 0 < ms → now < expires_at now (pos ms)
unfolding expires_at instant_add cast_unsigned
expires_at-later now ms some-time = ground arith

-- A response that fits into the cache on its own and was put with a positive time to live is what
-- `get` returns until it expires, whatever keys are looked up after the `put`, at any times before
-- it expires: no eviction in the `put` reaches it, and no lookup drops it. The cache has to be well
-- formed, and its counter of ticks to have a number left.
pub get-put :
    (key : Bytes) (raw : RawResponse) (ms now later : ℕ) (l : CacheLimits) (c : CacheInner)
    (reads : List (Bytes × ℕ))
    → IsCache c
    → HasTicks c
    → 0 < ms
    → (not (l.max_bytes == 0) && ltb l.max_bytes (response_size key raw)) ≡ false
    → AllBefore (expires_at now (pos ms)) reads
    → later < expires_at now (pos ms)
    → (get key later (get_all reads (put key raw (pos ms) now l c))).0 ≡ some raw
unfolding put
get-put key raw ms now later l c reads v room lasts fits meanwhile early =
    let end = expires_at now (pos ms) in
    let e = stored raw end (response_size key raw) (cache_sweep now c) in
    let before = sweep-IsCache now c v in
    let room' : HasTicks (cache_sweep now c) = rw (next_tick-sweep now c) room in
    let new =
      store-IsNewest key raw end (response_size key raw) (cache_sweep now c) before room' l fits in
    let found =
      find-shrink l now _ (put-stored-IsCache key raw (pos ms) now l c v room) key e
        (ground (arith, expires_at-later now ms lasts)) new in
    rw fits (
      Offers-get key raw end _
        (get_all-Offers key raw end reads _ meanwhile
          (record { entry = e; found = found; same = refl; until = refl }))
        later early)

module _ (key : Bytes) (now : ℕ) (c : CacheInner) (v : IsCache c) (room : HasTicks c) where
  -- A hit stamps its entry.
  hit-IsCache : (e : CacheEntry) → find key c.entries ≡ some e → IsCache (hit_at key e c)
  unfolding hit_at
  hit-IsCache e h = record {
    uniq = insert-Uniq key e' c.entries v.uniq;
    counted =
        ground
          (arith, total-insert (λ (e : CacheEntry). e.size) key e' c.entries v.uniq, v.counted);
    ascending =
        insert_tick-IsAscending t key order (erase_tick-IsAscending e.tick c.order v.ascending);
    indexed = λ u j p. elim (Bool-cases (bytes_eq key j)) [
      | inl same ↦ (
        e',
        ground (arith, find-insert key j e' c.entries),
        ground (
          arith,
          find-insert_tick t u key order,
          find-erase_tick e.tick u c.order,
          v.indexed u j,
          bytes_eq_iff key j,
        ),
      )
      | inr other ↦
          let (x, found, tick) = v.indexed u j (
            ground (
              arith,
              find-insert_tick t u key order,
              find-erase_tick e.tick u c.order,
              bytes_eq_iff key j,
            )) in
          (x, ground (arith, find-insert key j e' c.entries), tick)
    ];
    indexes = λ j f p. ground (
      arith,
      find-insert_tick t f.tick key order,
      find-erase_tick e.tick f.tick c.order,
      find-insert key j e' c.entries,
      v.indexes j f,
      v.indexes key e h,
      v.stamped f.tick j,
      bytes_eq_iff key j,
    );
    stamped = λ u j p.
        ground
          (arith, find-insert_tick t u key order, find-erase_tick e.tick u c.order, v.stamped u j);
    lower = λ j f p. elim (Bool-cases (bytes_eq key j)) [
      | inl same ↦
          let (x, low, le) = v.lower key e h in
          (x, low, ground (arith, find-insert key j e' c.entries))
      | inr other ↦ v.lower j f (ground (arith, find-insert key j e' c.entries))
    ];
  }
    where
      t : ℕ
      t = u64_inc c.next_tick

      order : Ticks
      order = erase_tick e.tick c.order

      e' : CacheEntry
      e' = record e { tick = t }

  got-IsCache : (o : Option CacheEntry) → find key c.entries ≡ o → IsCache (got key o now c).1
  unfolding get
  got-IsCache none h = v
  got-IsCache (some e) h = elim (Bool-cases (ltb now e.expires)) [
    | inl early ↦ rw (got, early) (hit-IsCache e h)
    | inr late ↦ rw (got, late) (remove-IsCache key v)
  ]

-- `get` keeps the cache well formed: a hit moves its entry to the end of the recency index, and a
-- lookup of an expired entry drops it.
pub get-IsCache :
    (key : Bytes) (now : ℕ) (c : CacheInner) → IsCache c → HasTicks c → IsCache (get key now c).1
unfolding get
get-IsCache key now c v room = got-IsCache key now c v room (find key c.entries) refl
