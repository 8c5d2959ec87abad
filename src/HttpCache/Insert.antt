-- ===== src/HttpCache/Insert.antt =====
-- The insertion of a response into the cache, before its limits are looked at
-- (src/capabilities/http.rs).
use lur.Base.{
  ℕ, ◌+◌, ◌^◌, ◌≡◌, ◌<◌, refl, inl, inr, Option, some, Bool-cases, false, not, ◌&&◌, List, [], ◌∷◌,
  ltb, ◌==◌, if◌then◌else◌, arith,
}
use lur.Base.Bytes.{Bytes, bytes_eq, bytes_eq_iff, bytes_eq_refl}
use lur.Base.Dict.{find, keys_where, find-insert, insert-Uniq, total-insert}
use lur.Base.Ticks.{find-insert_tick, insert_tick-IsAscending}
use lur.State.Inner.{u64_inc}
use lur.HttpCache.{
  CacheEntry, CacheInner, CacheLimits, RawResponse, remove, removed, remove_all, is_expired,
  drop_expired, cache_sweep, cache_sweep_due, store, min_with,
}
use lur.HttpCache.Valid.{IsCache, find-remove, remove-IsCache, drop_expired-IsCache}
use lur.HttpCache.Evict.{IsNewest}

abbrev pub HasTicks : CacheInner → Type 0
HasTicks c = c.next_tick + 1 < 2 ^ 64

next_tick-remove : (k : Bytes) (c : CacheInner) → (remove k c).next_tick ≡ c.next_tick
unfolding remove removed
next_tick-remove k c = ground arith

next_tick-remove_all :
    (ks : List Bytes) (c : CacheInner) → (remove_all ks c).next_tick ≡ c.next_tick
unfolding remove_all
next_tick-remove_all [] c = refl
next_tick-remove_all (k ∷ ks) c =
    ground (arith, next_tick-remove_all ks (remove k c), next_tick-remove k c)

pub next_tick-sweep : (now : ℕ) (c : CacheInner) → (cache_sweep now c).next_tick ≡ c.next_tick
unfolding cache_sweep drop_expired
next_tick-sweep now c =
    ground (arith, next_tick-remove_all (keys_where (is_expired now) c.entries) c)

-- The time of the sweep plays no part in the invariant.
swept-IsCache : (c : CacheInner) (t : Option ℕ) → IsCache c → IsCache (record c { last_sweep = t })
swept-IsCache c t v = record {
  uniq = v.uniq;
  counted = v.counted;
  ascending = v.ascending;
  indexed = v.indexed;
  indexes = v.indexes;
  stamped = v.stamped;
  lower = v.lower;
}

pub sweep-IsCache : (now : ℕ) (c : CacheInner) → IsCache c → IsCache (cache_sweep now c)
unfolding cache_sweep
sweep-IsCache now c v = elim (Bool-cases (cache_sweep_due c.last_sweep now)) [
  | inl due ↦ rw due (swept-IsCache _ _ (drop_expired-IsCache now v))
  | inr early ↦ rw early v
]

-- The entry that `put` stores.
abbrev pub stored : RawResponse → ℕ → ℕ → CacheInner → CacheEntry
stored raw expires n c = record {
  expires = expires;
  raw = raw;
  size = n;
  tick = u64_inc c.next_tick;
}

module _ (key : Bytes) (raw : RawResponse) (expires n : ℕ) (c : CacheInner) (v : IsCache c)
    (room : HasTicks c) where
  find-store :
      (j : Bytes)
      → find j (store key raw expires n c).entries
        ≡ (if bytes_eq key j then some (stored raw expires n c) else find j c.entries)
  unfolding store
  find-store j = ground (
    arith,
    find-insert key j (stored raw expires n c) (remove key c).entries,
    find-remove key j c,
    next_tick-remove key c,
  )

  pub store-IsCache : IsCache (store key raw expires n c)
  unfolding store min_with
  store-IsCache =
      let r = remove-IsCache key v in
      let tick = next_tick-remove key c in
      record {
        uniq = insert-Uniq key _ (remove key c).entries r.uniq;
        counted = ground (
          arith,
          total-insert (λ (e : CacheEntry). e.size) key (stored raw expires n (remove key c))
              (remove key c).entries r.uniq,
          find-remove key key c,
          bytes_eq_refl key,
          r.counted,
        );
        ascending = insert_tick-IsAscending _ key (remove key c).order r.ascending;
        indexed = λ t j p. elim (Bool-cases (u64_inc (remove key c).next_tick == t)) [
          | inl own ↦ (
            stored raw expires n (remove key c),
            ground (
              arith,
              find-insert key j (stored raw expires n (remove key c)) (remove key c).entries,
              find-insert_tick (u64_inc (remove key c).next_tick) t key (remove key c).order,
              bytes_eq_iff key j,
            ),
            ground arith,
          )
          | inr other ↦
              let (x, found, same) = r.indexed t j (
                ground (
                  arith,
                  find-insert_tick (u64_inc (remove key c).next_tick) t key (remove key c).order,
                )) in
              (
                x,
                ground (
                  arith,
                  find-insert key j (stored raw expires n (remove key c)) (remove key c).entries,
                  find-remove key j c,
                ),
                same,
              )
        ];
        indexes = λ j f p. ground (
          arith,
          find-insert key j (stored raw expires n (remove key c)) (remove key c).entries,
          find-insert_tick (u64_inc (remove key c).next_tick) f.tick key (remove key c).order,
          r.indexes j f,
          r.stamped f.tick j,
          tick,
          bytes_eq_iff key j,
        );
        stamped = λ t j p. ground (
          arith,
          find-insert_tick (u64_inc (remove key c).next_tick) t key (remove key c).order,
          r.stamped t j,
          tick,
        );
        lower = λ j f p. elim (Bool-cases (bytes_eq key j)) [
          | inl own ↦ (
            _,
            refl,
            ground (
              arith,
              find-insert key j (stored raw expires n (remove key c)) (remove key c).entries,
            ),
          )
          | inr other ↦
              let (x, low, le) = r.lower j f (
                ground (
                  arith,
                  find-insert key j (stored raw expires n (remove key c)) (remove key c).entries,
                )) in
              (_, refl, ground arith)
        ];
      }

  -- What is stored has the last tick.
  pub store-IsNewest :
      (l : CacheLimits)
      → (not (l.max_bytes == 0) && ltb l.max_bytes n) ≡ false
      → IsNewest l key (stored raw expires n c) (store key raw expires n c)
  unfolding store
  store-IsNewest l fits = record {
    found = rw (find-store key) (rw (bytes_eq_refl key) refl);
    last = λ t k h. ground (
      arith,
      find-insert_tick (u64_inc (remove key c).next_tick) t key (remove key c).order,
      (remove-IsCache key v).stamped t k,
      next_tick-remove key c,
    );
    fits = fits;
  }
