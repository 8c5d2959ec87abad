-- ===== src/HttpCache/Evict.antt =====
-- The loop that evicts from the response cache (src/capabilities/http.rs).
use lur.Base.{
  ℕ, ◌≡◌, ◌≤◌, refl, inl, inr, none, some, Option-cases, Bool-cases, true, false, not, ◌&&◌, [],
  ◌∷◌, ltb, ◌==◌, if◌then◌else◌, arith,
}
use lur.Base.Bytes.{Bytes, bytes_eq, bytes_eq_iff, bytes_eq_refl}
use lur.Base.Dict.{Dict, find, erase, total, find-erase, total-erase, size-erase}
use lur.Base.Ticks.{Ticks, find_tick, erase_tick, IsAbove, IsAscending, find_tick_above}
use lur.HttpCache.{CacheEntry, CacheInner, CacheLimits, remove, removed, popped, over, evict}
use lur.HttpCache.Valid.{IsCache, remove-IsCache, find-remove}

erase_tick-above : (t : ℕ) (o : Ticks) → IsAbove t o → erase_tick t o ≡ o
unfolding erase_tick
erase_tick-above t [] h = refl
erase_tick-above t ((u, k) ∷ o) h = ground (arith, erase_tick-above t o h.1)

erase_tick-first :
    (t : ℕ) (k : Bytes) (rest : Ticks) → IsAbove t rest → erase_tick t ((t, k) ∷ rest) ≡ rest
unfolding erase_tick
erase_tick-first t k rest h = ground (arith, erase_tick-above t rest h)

erase_tick-head :
    (t u : ℕ) (k : Bytes) (rest o : Ticks)
    → o ≡ (t, k) ∷ rest
    → u ≡ t
    → IsAbove t rest
    → erase_tick u o ≡ rest
erase_tick-head t u k rest o e same h = rw (e, same) (erase_tick-first t k rest h)

head-find_tick : (t : ℕ) (k : Bytes) (rest o : Ticks) → o ≡ (t, k) ∷ rest → find_tick t o ≡ some k
unfolding find_tick
head-find_tick t k rest o e = rw e (ground arith)

tail-find_tick :
    (t u : ℕ) (k j : Bytes) (rest o : Ticks)
    → o ≡ (t, k) ∷ rest
    → IsAbove t rest
    → find_tick u rest ≡ some j
    → find_tick u o ≡ some j
unfolding find_tick
tail-find_tick t u k j rest o e up h = rw e (ground (arith, find_tick_above t u j rest up h))

-- Above the greatest tick there is none.
last-tick :
    (t : ℕ) (rest : Ticks)
    → IsAbove t rest
    → ((u : ℕ) (j : Bytes) → find_tick u rest ≡ some j → u ≤ t)
    → rest ≡ []
unfolding find_tick
last-tick t [] up h = refl
last-tick t ((u, j) ∷ rest) up h = absurd (ground (arith, h u j))

-- Popping the oldest key removes its entry.
popped-remove :
    (c : CacheInner) (t : ℕ) (k : Bytes) (rest : Ticks)
    → IsCache c
    → c.order ≡ (t, k) ∷ rest
    → popped k (find k c.entries) (record c { order = rest }) ≡ remove k c
unfolding popped remove removed find_tick erase_tick
popped-remove c t k rest v e =
    let (x, found, same) = v.indexed t k (rw e (ground arith)) in
    let up : IsAscending ((t, k) ∷ rest) = rw e at v.ascending in
    let gone : erase_tick x.tick c.order ≡ rest =
      erase_tick-head t x.tick k rest c.order e same up.0 in
    rw (found, gone) refl

module _ {ℓ} {V : Type ℓ} where
  all-none : (m : Dict V) → ((j : Bytes) → find j m ≡ none) → m ≡ []
  unfolding find
  all-none [] h = refl
  all-none ((k, v) ∷ m) h = absurd (ground (arith, h k, bytes_eq_refl k))

-- With an empty index the cache is empty, and no limit is exceeded.
empty-over : (l : CacheLimits) (c : CacheInner) → IsCache c → c.order ≡ [] → over l c ≡ false
unfolding over total find_tick
empty-over l c v e =
    let none-left = all-none c.entries (λ j. elim (Option-cases (find j c.entries)) [
      | inl absent ↦ absent
      | inr (f, found) ↦ absurd (ground (arith, v.indexes j f found))
    ]) in
    ground (arith, none-left, v.counted)

module _ (l : CacheLimits) where
  evict-step :
      (c : CacheInner) (t : ℕ) (k : Bytes) (rest : Ticks)
      → IsCache c
      → c.order ≡ (t, k) ∷ rest
      → evict l ((t, k) ∷ rest) c ≡ (if over l c then evict l rest (remove k c) else c)
  unfolding evict
  evict-step c t k rest v e = rw (popped-remove c t k rest v e) refl

  order-remove :
      (c : CacheInner) (t : ℕ) (k : Bytes) (rest : Ticks)
      → IsCache c
      → c.order ≡ (t, k) ∷ rest
      → (remove k c).order ≡ rest
  unfolding popped
  order-remove c t k rest v e = rw (← popped-remove c t k rest v e) (ground arith)

  pub evict-IsCache : (o : Ticks) (c : CacheInner) → IsCache c → c.order ≡ o → IsCache (evict l o c)
  unfolding evict
  evict-IsCache [] c v e = v
  evict-IsCache ((t, k) ∷ rest) c v e =
      let next' =
        evict-IsCache rest (remove k c) (remove-IsCache k v) (order-remove c t k rest v e) in
      rw (evict-step c t k rest v e)
        (elim (Bool-cases (over l c)) [ inl big ↦ rw big next' | inr small ↦ rw small v ])

  -- The loop ends within the limits.
  pub evict-over :
      (o : Ticks) (c : CacheInner) → IsCache c → c.order ≡ o → over l (evict l o c) ≡ false
  unfolding evict
  evict-over [] c v e = empty-over l c v e
  evict-over ((t, k) ∷ rest) c v e =
      let next' = evict-over rest (remove k c) (remove-IsCache k v) (order-remove c t k rest v e) in
      rw (evict-step c t k rest v e)
        (elim (Bool-cases (over l c)) [ inl big ↦ rw big next' | inr small ↦ rw small small ])

-- The entry of `key` has the last tick and fits on its own.
pub record IsNewest (l : CacheLimits) (key : Bytes) (e : CacheEntry) (c : CacheInner) : Type 0 where
  pub found : find key c.entries ≡ some e
  pub last : (t : ℕ) (k : Bytes) → find_tick t c.order ≡ some k → t ≤ e.tick
  pub fits : (not (l.max_bytes == 0) && ltb l.max_bytes e.size) ≡ false

module _ (l : CacheLimits) (key : Bytes) (e : CacheEntry) where
  -- When the newest entry is the oldest too, it is the only one, and no limit is exceeded.
  alone-over :
      (c : CacheInner)
      → IsCache c
      → IsNewest l key e c
      → c.order ≡ (e.tick, key) ∷ []
      → over l c ≡ false
  unfolding over find_tick find total
  alone-over c v new o =
      let rest = all-none (erase key c.entries) (λ j. elim (Option-cases (find j c.entries)) [
        | inl absent ↦ ground (arith, find-erase key j c.entries)
        | inr (f, found) ↦
            ground (arith, find-erase key j c.entries, v.indexes j f found, bytes_eq_iff key j)
      ]) in
      ground (
        arith,
        rest,
        new.found,
        new.fits,
        v.counted,
        total-erase (λ (e : CacheEntry). e.size) key c.entries v.uniq,
        size-erase key c.entries v.uniq,
      )

  -- The first key of the index is another one if a limit is exceeded.
  first-other :
      (c : CacheInner) (t : ℕ) (k : Bytes) (rest : Ticks)
      → IsCache c
      → IsNewest l key e c
      → c.order ≡ (t, k) ∷ rest
      → over l c ≡ true
      → bytes_eq k key ≡ false
  first-other c t k rest v new eq big = elim (Bool-cases (bytes_eq k key)) [
    | inr other ↦ other
    | inl same ↦
        let (x, found, tick) = v.indexed t k (head-find_tick t k rest c.order eq) in
        let up : IsAscending ((t, k) ∷ rest) = rw eq at v.ascending in
        let own : e.tick ≡ t = ground (arith, bytes_eq_iff k key, new.found) in
        let none-left =
          last-tick t rest up.0 (λ u j h.
            ground (arith, new.last u j (tail-find_tick t u k j rest c.order eq up.0 h))) in
        absurd (ground (arith, alone-over c v new (ground (arith, none-left, bytes_eq_iff k key))))
  ]

  IsNewest-remove :
      (c : CacheInner) (t : ℕ) (k : Bytes) (rest : Ticks)
      → IsCache c
      → IsNewest l key e c
      → c.order ≡ (t, k) ∷ rest
      → bytes_eq k key ≡ false
      → IsNewest l key e (remove k c)
  IsNewest-remove c t k rest v new eq other =
      let up : IsAscending ((t, k) ∷ rest) = rw eq at v.ascending in
      record {
        found = ground (arith, find-remove k key c, new.found);
        last = λ u j h. new.last u j (
            tail-find_tick t u k j rest c.order eq up.0 (rw (order-remove l c t k rest v eq) at h));
        fits = new.fits;
      }

  -- The loop spares the newest entry.
  pub evict-newest :
      (o : Ticks) (c : CacheInner)
      → IsCache c
      → IsNewest l key e c
      → c.order ≡ o
      → find key (evict l o c).entries ≡ some e
  unfolding evict
  evict-newest [] c v new eq = new.found
  evict-newest ((t, k) ∷ rest) c v new eq =
      rw (evict-step l c t k rest v eq) (elim (Bool-cases (over l c)) [
        | inr small ↦ rw small new.found
        | inl big ↦ rw big (
            evict-newest rest (remove k c) (remove-IsCache k v)
              (IsNewest-remove c t k rest v new eq (first-other c t k rest v new eq big))
              (order-remove l c t k rest v eq))
      ])
