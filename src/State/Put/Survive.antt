-- ===== src/State/Put/Survive.antt =====
-- The entries through the steps that `put` takes before it evicts (src/capabilities/state.rs).
use lur.Base.{ℕ, ◌≡◌, some, true, false, arith, if◌then◌else◌}
use lur.Base.Bytes.{Bytes}
use lur.Base.Dict.{find}
use lur.State.Entry.{Entry, Write, Limits, freshness, is_fresh}
use lur.State.Inner.{Inner, droppable, live}
use lur.State.Valid.{IsValid}
use lur.State.Valid.Remove.{unless}
use lur.State.Valid.Reads.{
  is_dead_at, fresh_of, live-fresh_of, find-live, find-drop_dead, live-IsValid, find-drop_expired,
}
use lur.State.Put.{sweep, sweep_due, meta_of, write_meta}
use lur.State.Put.Room.{sweep-IsValid, trimmed}

-- The store when `make_room` is called.
abbrev pub readied : Bytes → ℕ → Inner → Inner
readied key now s = (live key now (sweep now s)).1

module _ (now : ℕ) (e : Entry) where
  pub fresh-ne-dead : is_fresh (freshness e now) ≡ true → is_dead_at now e ≡ false
  fresh-ne-dead h = ground arith

  pub fresh-ne-droppable : is_fresh (freshness e now) ≡ true → droppable now e ≡ false
  unfolding freshness
  fresh-ne-droppable h = ground arith

  pub kept-ne-droppable : e.evictable ≡ false → is_dead_at now e ≡ false → droppable now e ≡ false
  kept-ne-droppable off lives = ground arith

module _ (now : ℕ) (s : Inner) (v : IsValid s) where
  find-sweep :
      (j : Bytes)
      → find j (sweep now s).map ≡ (
          if sweep_due s.last_sweep now
          then unless (is_dead_at now) (find j s.map)
          else find j s.map)
  unfolding sweep
  find-sweep j = ground (arith, find-drop_dead now s v j)

  -- A sweep changes nothing that a read can see.
  pub fresh_of-sweep :
      (j : Bytes) → fresh_of now (find j (sweep now s).map) ≡ fresh_of now (find j s.map)
  fresh_of-sweep j = ground (arith, find-sweep j)

  pub write_meta_lem :
      (key : Bytes) (w : Write)
      → (write_meta key w now (sweep now s)).0 ≡ meta_of w (fresh_of now (find key s.map)) now
  unfolding write_meta
  write_meta_lem key w = rw (live-fresh_of key now (sweep now s)) (rw (fresh_of-sweep key))

  module _ (key : Bytes) where
    pub readied-IsValid : IsValid (readied key now s)
    readied-IsValid = live-IsValid key now (sweep-IsValid now v)

    pub find-readied :
        (j : Bytes) (e : Entry)
        → find j s.map ≡ some e
        → is_dead_at now e ≡ false
        → find j (readied key now s).map ≡ some e
    find-readied j e found lives = ground (arith, find-live key now (sweep now s) j, find-sweep j)

    -- No step before the eviction brings an entry back or changes one.
    pub readied-find :
        (j : Bytes) (e : Entry) → find j (readied key now s).map ≡ some e → find j s.map ≡ some e
    readied-find j e found = ground (arith, find-live key now (sweep now s) j, find-sweep j)

    module _ (n : ℕ) (limits : Limits) where
      find-trimmed :
          (j : Bytes) (e : Entry)
          → find j (readied key now s).map ≡ some e
          → droppable now e ≡ false
          → find j (trimmed key n limits now (readied key now s)).map ≡ some e
      find-trimmed j e found stays =
          ground (arith, find-drop_expired now (readied key now s) readied-IsValid j)

      pub trimmed-find :
          (j : Bytes) (e : Entry)
          → find j (trimmed key n limits now (readied key now s)).map ≡ some e
          → find j s.map ≡ some e
      trimmed-find j e found =
          readied-find j e
            (ground (arith, find-drop_expired now (readied key now s) readied-IsValid j))

      pub find-trimmed-readied :
          (j : Bytes) (e : Entry)
          → find j s.map ≡ some e
          → is_dead_at now e ≡ false
          → droppable now e ≡ false
          → find j (trimmed key n limits now (readied key now s)).map ≡ some e
      find-trimmed-readied j e found lives stays =
          find-trimmed j e (find-readied j e found lives) stays
