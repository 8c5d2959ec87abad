-- ===== src/HttpCache/Reads.antt =====
-- What lookups leave of the responses of the cache (src/capabilities/http.rs).
use lur.Base.{
  ℕ, ◌≡◌, ◌<◌, refl, inl, inr, Option, none, some, Bool-cases, List, [], ◌∷◌, ltb, arith,
}
use lur.Base.Bytes.{Bytes, bytes_eq, bytes_eq_iff}
use lur.Base.Dict.{find, find-insert}
use lur.State.Inner.{u64_inc}
use lur.HttpCache.{CacheEntry, CacheInner, RawResponse, remove, get, got, hit_at}
use lur.HttpCache.Valid.{find-remove}

-- A run of lookups, each of a key at a time.
unfoldable pub get_all : List (Bytes × ℕ) → CacheInner → CacheInner
get_all [] c = c
get_all ((k, t) ∷ reads) c = get_all reads (get k t c).1

-- The lookups are made before `end`.
abbrev pub AllBefore : ℕ → List (Bytes × ℕ) → Type 0
AllBefore end [] = Unit {0}
AllBefore end ((k, t) ∷ reads) = (t < end) × AllBefore end reads

-- The cache has the response under the key until `end`.
pub record Offers (key : Bytes) (raw : RawResponse) (end : ℕ) (c : CacheInner) : Type 0 where
  pub entry : CacheEntry
  pub found : find key c.entries ≡ some entry
  pub same : entry.raw ≡ raw
  pub until : entry.expires ≡ end

module _ (key : Bytes) (raw : RawResponse) (end : ℕ) (c : CacheInner)
    (o : Offers key raw end c) where
  pub Offers-get : (now : ℕ) → now < end → (get key now c).0 ≡ some raw
  unfolding get
  Offers-get now early = ground (arith, o.found, o.same, o.until)

  -- A hit leaves the response and the time of every entry.
  hit_at-Offers :
      (k : Bytes) (e : CacheEntry) → find k c.entries ≡ some e → Offers key raw end (hit_at k e c)
  unfolding hit_at
  hit_at-Offers k e h = elim (Bool-cases (bytes_eq k key)) [
    | inl same ↦
        let one : k ≡ key = (bytes_eq_iff k key).0 same in
        let e' = record e { tick = u64_inc c.next_tick } in
        record {
          entry = e';
          found = ground (arith, find-insert k key e' c.entries);
          same = ground (arith, rw one at h, o.found, o.same);
          until = ground (arith, rw one at h, o.found, o.until);
        }
    | inr other ↦ record {
      entry = o.entry;
      found =
          ground
            (arith, find-insert k key (record e { tick = u64_inc c.next_tick }) c.entries, o.found);
      same = o.same;
      until = o.until;
    }
  ]

  got-Offers :
      (k : Bytes) (now : ℕ) (m : Option CacheEntry)
      → now < end
      → find k c.entries ≡ m
      → Offers key raw end (got k m now c).1
  unfolding get remove
  got-Offers k now none early h = o
  got-Offers k now (some e) early h = elim (Bool-cases (ltb now e.expires)) [
    | inl hit ↦ rw (got, hit) (hit_at-Offers k e h)
    | inr late ↦
        rw (got, late)
          (elim (Bool-cases (bytes_eq k key)) [
            | inl same ↦
                let one : k ≡ key = (bytes_eq_iff k key).0 same in
                absurd (ground (arith, rw one at h, o.found, o.until))
            | inr other ↦ record {
              entry = o.entry;
              found = ground (arith, find-remove k key c, o.found);
              same = o.same;
              until = o.until;
            }
          ])
  ]

pub get_all-Offers :
    (key : Bytes) (raw : RawResponse) (end : ℕ) (reads : List (Bytes × ℕ)) (c : CacheInner)
    → AllBefore end reads
    → Offers key raw end c
    → Offers key raw end (get_all reads c)
unfolding get_all get
get_all-Offers key raw end [] c b o = o
get_all-Offers key raw end ((k, t) ∷ reads) c (early, b) o =
    get_all-Offers key raw end reads (get k t c).1 b
      (got-Offers key raw end c o k t (find k c.entries) early refl)
