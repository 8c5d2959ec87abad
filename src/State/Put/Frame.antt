-- ===== src/State/Put/Frame.antt =====
-- The counters and the flights under a removal (src/capabilities/state.rs).
use lur.Base.{ℕ, ◌≡◌, refl, Bool-cases, inl, inr, List, [], ◌∷◌, arith}
use lur.Base.Bytes.{Bytes}
use lur.Base.Dict.{keys_where}
use lur.Base.Ticks.{Ticks, erase_tick}
use lur.State.Entry.{Limits}
use lur.State.Inner.{
  Inner, u64_inc, remove, remove_all, drop_dead, drop_expired, droppable, past, live,
}
use lur.State.Valid.Reads.{is_dead_at}
use lur.State.Put.{sweep, sweep_due, evict, over}
use lur.State.Put.Room.{trimmed}

pub record SameFrame (s s' : Inner) : Type 0 where
  pub next_tick : s'.next_tick ≡ s.next_tick
  pub last_version : s'.last_version ≡ s.last_version
  pub flights : s'.flights ≡ s.flights
  pub next_flight : s'.next_flight ≡ s.next_flight

pub SameFrame-refl : (s : Inner) → SameFrame s s
SameFrame-refl s = record {
  next_tick = refl;
  last_version = refl;
  flights = refl;
  next_flight = refl;
}

pub SameFrame-trans : {s t u : Inner} → SameFrame s t → SameFrame t u → SameFrame s u
SameFrame-trans a b = record {
  next_tick = ground (arith, a.next_tick, b.next_tick);
  last_version = ground (arith, a.last_version, b.last_version);
  flights = ground (arith, a.flights, b.flights);
  next_flight = ground (arith, a.next_flight, b.next_flight);
}

pub SameFrame-remove : (k : Bytes) (s : Inner) → SameFrame s (remove k s)
unfolding remove
SameFrame-remove k s = record {
  next_tick = ground arith;
  last_version = ground arith;
  flights = ground arith;
  next_flight = ground arith;
}

pub SameFrame-remove_all : (ks : List Bytes) (s : Inner) → SameFrame s (remove_all ks s)
unfolding remove_all
SameFrame-remove_all [] s = SameFrame-refl s
SameFrame-remove_all (k ∷ ks) s =
    SameFrame-trans (SameFrame-remove k s) (SameFrame-remove_all ks (remove k s))

module _ (now : ℕ) (s : Inner) where
  pub SameFrame-drop_expired : SameFrame s (drop_expired now s)
  unfolding drop_expired
  SameFrame-drop_expired =
      let f = SameFrame-remove_all (keys_where (droppable now) s.map) s in
      elim (Bool-cases (past s.earliest now)) [
        | inl due ↦ rw due (record {
          next_tick = f.next_tick;
          last_version = f.last_version;
          flights = f.flights;
          next_flight = f.next_flight;
        })
        | inr early ↦ rw early (SameFrame-refl s)
      ]

  pub SameFrame-sweep : SameFrame s (sweep now s)
  unfolding sweep drop_dead
  SameFrame-sweep =
      let f = SameFrame-remove_all (keys_where (is_dead_at now) s.map) s in
      elim (Bool-cases (sweep_due s.last_sweep now)) [
        | inl due ↦ rw due (record {
          next_tick = f.next_tick;
          last_version = f.last_version;
          flights = f.flights;
          next_flight = f.next_flight;
        })
        | inr early ↦ rw early (SameFrame-refl s)
      ]

  pub SameFrame-live : (k : Bytes) → SameFrame s (live k now s).1
  unfolding live
  SameFrame-live k =
      let f = SameFrame-remove k s in
      record {
        next_tick = ground arith;
        last_version = ground arith;
        flights = ground arith;
        next_flight = ground arith;
      }

  pub SameFrame-trimmed :
      (key : Bytes) (n : ℕ) (limits : Limits) → SameFrame s (trimmed key n limits now s)
  SameFrame-trimmed key n limits = elim (Bool-cases (over key n limits s)) [
    | inl big ↦ rw big SameFrame-drop_expired
    | inr small ↦ rw small (SameFrame-refl s)
  ]

pub SameFrame-evict : (l : Ticks) (s : Inner) → SameFrame s (evict l s)
unfolding evict
SameFrame-evict [] s = SameFrame-refl s
SameFrame-evict ((t, k) ∷ l) s =
    let s' = remove k (record s { order = erase_tick t s.order }) in
    let f = SameFrame-remove k (record s { order = erase_tick t s.order }) in
    SameFrame-trans {t = record s' { evictions = u64_inc s'.evictions }}
      (record {
        next_tick = f.next_tick;
        last_version = f.last_version;
        flights = f.flights;
        next_flight = f.next_flight;
      })
      (SameFrame-evict l (record s' { evictions = u64_inc s'.evictions }))
