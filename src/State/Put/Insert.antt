-- ===== src/State/Put/Insert.antt =====
-- `insert_fresh` and the entry that it stores (src/capabilities/state.rs).
use lur.Base.{
  ℕ, ◌+◌, ◌^◌, ◌≡◌, ◌<◌, inl, inr, Option, none, some, Bool, Bool-cases, true, arith, if◌then◌else◌,
}
use lur.Base.Bytes.{Bytes, bytes_eq, bytes_eq_iff}
use lur.Base.Dict.{
  find, insert, find-insert, insert-Uniq, total-insert, size, size-erase, size-insert,
}
use lur.Base.Ticks.{insert_tick, find-insert_tick, insert_tick-IsAscending}
use lur.State.Entry.{Prim, Entry, WriteMeta}
use lur.State.Inner.{Inner, u64_inc, remove}
use lur.State.Valid.{IsValid}
use lur.State.Valid.Remove.{remove-IsValid, find-remove}
use lur.State.Valid.Reads.{HasTicks}
use lur.State.Put.{insert_fresh, earliest_with, entries_with, bytes_with}
use lur.State.Put.Frame.{SameFrame-remove}

abbrev pub HasVersions : Inner → Type 0
HasVersions s = s.last_version + 1 < 2 ^ 64

abbrev pub new_entry : Prim → WriteMeta → ℕ → ℕ → ℕ → Entry
new_entry value meta n version tick = record {
  value = value;
  version = version;
  expires = meta.expires;
  stale_for = meta.stale_for;
  evictable = meta.evictable;
  size = n;
  tick = tick;
}

-- The stamp of the entry that `insert_fresh` stores in `s`.
abbrev pub new_tick : Bool → Inner → ℕ
new_tick evictable s = if evictable then u64_inc s.next_tick else 0

abbrev pub stored_entry : Prim → WriteMeta → ℕ → Inner → Entry
stored_entry value meta n s =
    new_entry value meta n (u64_inc s.last_version) (new_tick meta.evictable s)

-- An entry put into a store that has none under its key.
abbrev added : Bytes → Entry → Option ℕ → Inner → Inner
added key e earliest s = record s {
  map = insert key e s.map;
  order = if e.evictable then insert_tick e.tick key s.order else s.order;
  next_tick = if e.evictable then e.tick else s.next_tick;
  last_version = e.version;
  bytes = s.bytes + e.size;
  earliest = earliest;
}

module _ (key : Bytes) (value : Prim) (meta : WriteMeta) (n : ℕ) (s : Inner) where
  insert_fresh-added :
      insert_fresh key value meta n s
      ≡ added key
          (stored_entry value meta n (remove key s))
          (earliest_with meta.expires (remove key s).earliest)
          (remove key s)
  unfolding insert_fresh
  insert_fresh-added = elim (Bool-cases meta.evictable) [ inl on ↦ rw on | inr off ↦ rw off ]

  pub find-insert_fresh :
      (j : Bytes)
      → find j (insert_fresh key value meta n s).map
        ≡ (if bytes_eq key j then some (stored_entry value meta n s) else find j s.map)
  find-insert_fresh j = rw insert_fresh-added (
      ground (
        arith,
        find-insert key j (stored_entry value meta n (remove key s)) (remove key s).map,
        find-remove key j s,
        (SameFrame-remove key s).next_tick,
        (SameFrame-remove key s).last_version,
      ))

module _ (key : Bytes) (e : Entry) (x : Option ℕ) (s : Inner) (v : IsValid s)
    (absent : find key s.map ≡ none) (version : e.version ≡ s.last_version + 1)
    (tick : e.evictable ≡ true → e.tick ≡ s.next_tick + 1) where
  added-IsValid : IsValid (added key e x s)
  added-IsValid = record {
    uniq = insert-Uniq key e s.map v.uniq;
    counted = ground (arith, total-insert (λ (e : Entry). e.size) key e s.map v.uniq, v.counted);
    ascending = elim (Bool-cases e.evictable) [
      | inl on ↦ rw on (insert_tick-IsAscending e.tick key s.order v.ascending)
      | inr off ↦ rw off v.ascending
    ];
    indexed = λ t j p. elim (Bool-cases (bytes_eq key j)) [
      | inl same ↦ (
        e,
        ground (arith, find-insert key j e s.map),
        ground (arith, find-insert_tick e.tick t key s.order, v.indexed t j, bytes_eq_iff key j),
        ground (arith, find-insert_tick e.tick t key s.order, v.indexed t j, bytes_eq_iff key j),
      )
      | inr other ↦
          let (f, found, on, stamp) =
            v.indexed t j
              (ground (arith, find-insert_tick e.tick t key s.order, bytes_eq_iff key j)) in
          (f, ground (arith, find-insert key j e s.map), on, stamp)
    ];
    indexes = λ j f p q. ground (
      arith,
      find-insert key j e s.map,
      find-insert_tick e.tick f.tick key s.order,
      v.indexes j f,
      v.stamped f.tick j,
      bytes_eq_iff key j,
    );
    stamped = λ t j p. ground (arith, find-insert_tick e.tick t key s.order, v.stamped t j);
    versioned = λ j f p. ground (arith, find-insert key j e s.map, v.versioned j f);
  }

module _ (key : Bytes) (value : Prim) (meta : WriteMeta) (n : ℕ) {s : Inner} (v : IsValid s) where
  pub insert_fresh-IsValid : HasTicks s → HasVersions s → IsValid (insert_fresh key value meta n s)
  insert_fresh-IsValid ticks versions =
      let f = SameFrame-remove key s in
      rw (insert_fresh-added key value meta n s) (
        added-IsValid key _ _ _ (remove-IsValid key v)
          (ground (arith, find-remove key key s, bytes_eq_iff key key))
          (ground (arith, f.last_version)) (λ on. ground (arith, f.next_tick)))

  -- The store after the insertion has the entries and the bytes that `over` looked at.
  pub entries-insert_fresh : size (insert_fresh key value meta n s).map ≡ entries_with key s
  unfolding entries_with remove
  entries-insert_fresh = rw (insert_fresh-added key value meta n s) (
      ground (
        arith,
        size-insert key (stored_entry value meta n (remove key s)) (remove key s).map
            (remove-IsValid key v).uniq,
        size-erase key s.map v.uniq,
        find-remove key key s,
        bytes_eq_iff key key,
      ))

  pub bytes-insert_fresh : (insert_fresh key value meta n s).bytes ≡ bytes_with key n s
  unfolding bytes_with remove
  bytes-insert_fresh = rw (insert_fresh-added key value meta n s) (ground arith)

pub last_version-insert_fresh :
    (key : Bytes) (value : Prim) (meta : WriteMeta) (n : ℕ) (s : Inner)
    → (insert_fresh key value meta n s).last_version ≡ u64_inc s.last_version
last_version-insert_fresh key value meta n s =
    rw (insert_fresh-added key value meta n s)
      (ground (arith, (SameFrame-remove key s).last_version))
