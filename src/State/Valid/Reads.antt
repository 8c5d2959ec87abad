-- ===== src/State/Valid/Reads.antt =====
-- `drop_dead`, `drop_expired`, `live` and `touch` (src/capabilities/state.rs).
use lur.Base.{
  ℕ, ◌+◌, ◌^◌, ◌≡◌, ◌<◌, inl, inr, Option, none, some, Option-cases, Bool-cases, Bool, true, false,
  arith, if◌then◌else◌,
}
use lur.Base.Bytes.{Bytes, bytes_eq, bytes_eq_iff}
use lur.Base.Dict.{find, insert, find-insert, insert-Uniq, total-insert, keys_where, passes}
use lur.Base.Ticks.{
  Ticks, erase_tick, insert_tick, find-erase_tick, find-insert_tick, erase_tick-IsAscending,
  insert_tick-IsAscending,
}
use lur.State.Entry.{Entry, freshness, is_dead, is_fresh}
use lur.State.Inner.{
  Inner, remove, remove_all, drop_dead, drop_expired, droppable, past, u64_inc, live, touch,
}
use lur.State.Valid.{IsValid}
use lur.State.Valid.Remove.{
  remove-IsValid, remove_all-IsValid, find-remove, find-remove_where, unless,
}

-- The counter of ticks has a tick left, as has that of versions.
abbrev pub HasTicks : Inner → Type 0
HasTicks s = s.next_tick + 1 < 2 ^ 64

-- The fields that the invariant does not speak of may change.
pub housekeeping-IsValid :
    (s : Inner) (swept earliest : Option ℕ) (evictions : ℕ)
    → IsValid s
    → IsValid (record s { last_sweep = swept; earliest = earliest; evictions = evictions })
housekeeping-IsValid s swept earliest evictions v = record {
  uniq = v.uniq;
  counted = v.counted;
  ascending = v.ascending;
  indexed = v.indexed;
  indexes = v.indexes;
  stamped = v.stamped;
  versioned = v.versioned;
}

-- The entry that a read at `now` sees.
abbrev pub fresh_of : ℕ → Option Entry → Option Entry
fresh_of now none = none
fresh_of now (some e) = if is_fresh (freshness e now) then some e else none

module _ (now : ℕ) (s : Inner) (v : IsValid s) where
  pub drop_dead-IsValid : IsValid (drop_dead now s)
  unfolding drop_dead
  drop_dead-IsValid = remove_all-IsValid _ v

  pub find-drop_dead :
      (j : Bytes)
      → find j (drop_dead now s).map ≡ unless (λ e. is_dead (freshness e now)) (find j s.map)
  unfolding drop_dead
  find-drop_dead j = find-remove_where _ j s v

  pub drop_expired-IsValid : IsValid (drop_expired now s)
  unfolding drop_expired
  drop_expired-IsValid =
      let s' = remove_all (keys_where (droppable now) s.map) s in
      elim (Bool-cases (past s.earliest now)) [
        | inl due ↦
            rw due (housekeeping-IsValid s' s'.last_sweep _ s'.evictions (remove_all-IsValid _ v))
        | inr no_due ↦ rw no_due v
      ]

  pub find-drop_expired :
      (j : Bytes)
      → find j (drop_expired now s).map
        ≡ (if past s.earliest now then unless (droppable now) (find j s.map) else find j s.map)
  unfolding drop_expired
  find-drop_expired j = ground (arith, find-remove_where (droppable now) j s v)

abbrev pub is_dead_at : ℕ → Entry → Bool
is_dead_at now e = is_dead (freshness e now)

pub live-remove :
    (k : Bytes) (now : ℕ) (s : Inner)
    → (live k now s).1 ≡ (if passes (is_dead_at now) (find k s.map) then remove k s else s)
unfolding live
live-remove k now s = ground arith

pub live-IsValid : (k : Bytes) (now : ℕ) {s : Inner} → IsValid s → IsValid (live k now s).1
live-IsValid k now {s} v =
    rw (live-remove k now s) (elim (Bool-cases (passes (is_dead_at now) (find k s.map))) [
      | inl dies ↦ rw dies (remove-IsValid k v)
      | inr lives ↦ rw lives v
    ])

-- `live` returns the fresh entry, and removes nothing but a dead one.
pub live-fresh_of :
    (k : Bytes) (now : ℕ) (s : Inner) → (live k now s).0 ≡ fresh_of now (find k s.map)
unfolding live
live-fresh_of k now s = ground arith

pub find-live :
    (k : Bytes) (now : ℕ) (s : Inner) (j : Bytes)
    → find j (live k now s).1.map
      ≡ (if bytes_eq k j then unless (is_dead_at now) (find j s.map) else find j s.map)
find-live k now s j = rw (live-remove k now s) (ground (arith, find-remove k j s, bytes_eq_iff k j))

-- A fresh stamp on an entry that may be evicted.
abbrev pub touched : Bytes → Entry → Inner → Inner
touched k e s =
    let t = u64_inc s.next_tick in
    record s {
      next_tick = t;
      order = insert_tick t k (erase_tick e.tick s.order);
      map = insert k (record e { tick = t }) s.map;
    }

pub touch_on :
    (k : Bytes) (s : Inner) (e : Entry)
    → find k s.map ≡ some e
    → e.evictable ≡ true
    → touch k s ≡ touched k e s
unfolding touch
touch_on k s e h flag = rw (h, touch) (rw flag)

pub touch_off :
    (k : Bytes) (s : Inner) (e : Entry)
    → find k s.map ≡ some e
    → e.evictable ≡ false
    → touch k s ≡ s
unfolding touch
touch_off k s e h flag = rw (h, touch) (rw flag)

pub touch_miss : (k : Bytes) (s : Inner) → find k s.map ≡ none → touch k s ≡ s
unfolding touch
touch_miss k s h = rw (h, touch)

module _ (k : Bytes) {s : Inner} (v : IsValid s) (room : HasTicks s) where
  touched-IsValid :
      (e : Entry) → find k s.map ≡ some e → e.evictable ≡ true → IsValid (touched k e s)
  touched-IsValid e h flag = record {
    uniq = insert-Uniq k e' s.map v.uniq;
    counted = ground (arith, total-insert (λ (e : Entry). e.size) k e' s.map v.uniq, v.counted);
    ascending =
        insert_tick-IsAscending t k order (erase_tick-IsAscending e.tick s.order v.ascending);
    indexed = λ u j p. elim (Bool-cases (bytes_eq k j)) [
      | inl same ↦ (
        e',
        ground (arith, find-insert k j e' s.map),
        flag,
        ground (
          arith,
          find-insert_tick t u k order,
          find-erase_tick e.tick u s.order,
          v.indexed u j,
          bytes_eq_iff k j,
        ),
      )
      | inr other ↦
          let (x, found, on, tick) = v.indexed u j (
            ground (
              arith,
              find-insert_tick t u k order,
              find-erase_tick e.tick u s.order,
              bytes_eq_iff k j,
            )) in
          (x, ground (arith, find-insert k j e' s.map), on, tick)
    ];
    indexes = λ j f p q. ground (
      arith,
      find-insert_tick t f.tick k order,
      find-erase_tick e.tick f.tick s.order,
      find-insert k j e' s.map,
      v.indexes j f,
      v.indexes k e h flag,
      v.stamped f.tick j,
      bytes_eq_iff k j,
    );
    stamped = λ u j p.
        ground
          (arith, find-insert_tick t u k order, find-erase_tick e.tick u s.order, v.stamped u j);
    versioned = λ j f p.
        ground
          (arith, find-insert k j e' s.map, v.versioned j f, v.versioned k e h, bytes_eq_iff k j);
  }
    where
      t : ℕ
      t = u64_inc s.next_tick

      order : Ticks
      order = erase_tick e.tick s.order

      e' : Entry
      e' = record e { tick = t }

  pub touch-IsValid : IsValid (touch k s)
  touch-IsValid = elim (Option-cases (find k s.map)) [
    | inl miss ↦ rw (touch_miss k s miss) v
    | inr (e, h) ↦ elim (Bool-cases e.evictable) [
      | inl flag ↦ rw (touch_on k s e h flag) (touched-IsValid e h flag)
      | inr off ↦ rw (touch_off k s e h off) v
    ]
  ]

-- A touch changes nothing of an entry but its stamp.
abbrev pub restamped : ℕ → Option Entry → Option Entry
restamped t none = none
restamped t (some e) = some (if e.evictable then record e { tick = t } else e)

pub find-touch :
    (k : Bytes) (s : Inner) (j : Bytes)
    → find j (touch k s).map
      ≡ (if bytes_eq k j then restamped (u64_inc s.next_tick) (find j s.map) else find j s.map)
find-touch k s j = elim (Option-cases (find k s.map)) [
  | inl miss ↦ rw (touch_miss k s miss) (ground (arith, bytes_eq_iff k j))
  | inr (e, h) ↦ elim (Bool-cases e.evictable) [
    | inl flag ↦ rw (touch_on k s e h flag) (
        ground (
          arith,
          find-insert k j (record e { tick = u64_inc s.next_tick }) s.map,
          bytes_eq_iff k j,
        ))
    | inr off ↦ rw (touch_off k s e h off) (ground (arith, bytes_eq_iff k j))
  ]
]
