-- ===== src/HttpCache/Valid.antt =====
-- The well-formedness of the response cache (src/capabilities/http.rs).
use lur.Base.{
  ℕ, ◌≡◌, ◌≤◌, refl, inl, inr, Option, none, some, Option-cases, Bool-cases, List, [], ◌∷◌,
  if◌then◌else◌, arith,
}
use lur.Base.Bytes.{Bytes, bytes_eq, bytes_eq_iff}
use lur.Base.Dict.{
  Dict, find, Uniq, total, keys_where, contains, contains-keys_where, find-erase, erase-Uniq,
  total-erase,
}
use lur.Base.Ticks.{find_tick, IsAscending, find-erase_tick, erase_tick-IsAscending}
use lur.State.Inner.{past}
use lur.HttpCache.{
  CacheEntry, CacheInner, remove, remove_all, removed, is_expired, least_expires, drop_expired,
}

-- The recency index mirrors the entries exactly, the byte count is the sum of the sizes, and
-- `earliest` is a lower bound on the times of expiry.
pub record IsCache (c : CacheInner) : Type 0 where
  pub uniq : Uniq c.entries
  pub counted : c.bytes ≡ total (λ (e : CacheEntry). e.size) c.entries
  pub ascending : IsAscending c.order
  pub indexed :
      (t : ℕ) (k : Bytes)
      → find_tick t c.order ≡ some k
      → (e : CacheEntry) × (find k c.entries ≡ some e) × (e.tick ≡ t)
  pub indexes :
      (k : Bytes) (e : CacheEntry) → find k c.entries ≡ some e → find_tick e.tick c.order ≡ some k
  pub stamped : (t : ℕ) (k : Bytes) → find_tick t c.order ≡ some k → t ≤ c.next_tick
  pub lower :
      (k : Bytes) (e : CacheEntry)
      → find k c.entries ≡ some e
      → (x : ℕ) × (c.earliest ≡ some x) × (x ≤ e.expires)

pub find-remove :
    (k j : Bytes) (c : CacheInner)
    → find j (remove k c).entries ≡ (if bytes_eq k j then none else find j c.entries)
unfolding remove
find-remove k j c = ground (arith, find-erase k j c.entries, bytes_eq_iff k j)

module _ (k : Bytes) {c : CacheInner} (v : IsCache c) where
  removed-IsCache : (e : CacheEntry) → find k c.entries ≡ some e → IsCache (removed k (some e) c)
  unfolding removed
  removed-IsCache e h = record {
    uniq = erase-Uniq k c.entries v.uniq;
    counted =
        ground (arith, total-erase (λ (e : CacheEntry). e.size) k c.entries v.uniq, v.counted);
    ascending = erase_tick-IsAscending e.tick c.order v.ascending;
    indexed = λ t j p.
        let (x, found, same) = v.indexed t j (ground (arith, find-erase_tick e.tick t c.order)) in
        (
          x,
          ground
              (arith, find-erase k j c.entries, find-erase_tick e.tick t c.order, bytes_eq_iff k j),
          same,
        );
    indexes = λ j f p. ground (
      arith,
      find-erase k j c.entries,
      v.indexes j f,
      v.indexes k e h,
      find-erase_tick e.tick f.tick c.order,
      bytes_eq_iff k j,
    );
    stamped = λ t j p. ground (arith, find-erase_tick e.tick t c.order, v.stamped t j);
    lower = λ j f p. v.lower j f (ground (arith, find-erase k j c.entries));
  }

  pub remove-IsCache : IsCache (remove k c)
  unfolding remove
  remove-IsCache = elim (Option-cases (find k c.entries)) [
    | inl miss ↦ rw (miss, removed) v
    | inr (e, hit) ↦ rw hit (removed-IsCache e hit)
  ]

pub remove_all-IsCache : (ks : List Bytes) {c : CacheInner} → IsCache c → IsCache (remove_all ks c)
unfolding remove_all
remove_all-IsCache [] v = v
remove_all-IsCache (k ∷ ks) v = remove_all-IsCache ks (remove-IsCache k v)

find-remove_all :
    (ks : List Bytes) (j : Bytes) (c : CacheInner)
    → find j (remove_all ks c).entries ≡ (if contains j ks then none else find j c.entries)
unfolding remove_all contains
find-remove_all [] j c = refl
find-remove_all (k ∷ ks) j c = ground (arith, find-remove_all ks j (remove k c), find-remove k j c)

least_expires-le :
    (k : Bytes) (e : CacheEntry) (m : Dict CacheEntry)
    → find k m ≡ some e
    → (x : ℕ) × (least_expires m ≡ some x) × (x ≤ e.expires)
unfolding least_expires find
least_expires-le k e [] h = absurd (ground arith)
least_expires-le k e ((j, f) ∷ m) h = elim (Bool-cases (bytes_eq j k)) [
  | inl same ↦ (_, refl, ground arith)
  | inr other ↦
      let (x, least, le) = least_expires-le k e m (rw other at h) in (_, refl, ground arith)
]

-- What is left when the expired entries are dropped.
abbrev pub unless_expired : ℕ → Option CacheEntry → Option CacheEntry
unless_expired now none = none
unless_expired now (some e) = if is_expired now e then none else some e

module _ (now : ℕ) {c : CacheInner} (v : IsCache c) where
  pub drop_expired-IsCache : IsCache (drop_expired now c)
  unfolding drop_expired
  drop_expired-IsCache =
      let w = remove_all-IsCache (keys_where (is_expired now) c.entries) v in
      elim (Bool-cases (past c.earliest now)) [
        | inl due ↦ rw due (record {
          uniq = w.uniq;
          counted = w.counted;
          ascending = w.ascending;
          indexed = w.indexed;
          indexes = w.indexes;
          stamped = w.stamped;
          lower = λ k e h. least_expires-le k e _ h;
        })
        | inr early ↦ rw early v
      ]

  -- The test on `earliest` spares no expired entry: exactly the expired entries are dropped.
  pub find-drop_expired :
      (k : Bytes) → find k (drop_expired now c).entries ≡ unless_expired now (find k c.entries)
  unfolding drop_expired
  find-drop_expired k = elim (Bool-cases (past c.earliest now)) [
    | inl due ↦ rw due (
        ground (
          arith,
          find-remove_all (keys_where (is_expired now) c.entries) k c,
          contains-keys_where (is_expired now) k c.entries v.uniq,
        ))
    | inr early ↦ elim (Option-cases (find k c.entries)) [
      | inl absent ↦ rw (early, absent) refl
      | inr (e, found) ↦ rw (early, found) (ground (arith, v.lower k e found))
    ]
  ]
