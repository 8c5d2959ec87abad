-- ===== src/Flights/Handoff.antt =====
-- Who leads and who hears: the one leader of a key, the outcome that reaches its waiters, and the
-- hand-off when a leader ends without one (src/capabilities/state.rs).
use lur.Base.{
  ℕ, ◌^◌, ◌≡◌, ◌≢◌, ◌≤◌, ◌<◌, refl, inl, inr, Option, none, some, Option-cases, Bool-cases, true,
  false, List, [], ◌∷◌, ◌==◌, if◌then◌else◌, arith,
}
use lur.Base.Bytes.{Bytes, bytes_eq, bytes_eq_iff, bytes_eq_refl}
use lur.Base.Dict.{
  Dict, find, Uniq, total, keys_where, contains, contains-keys_where, find-erase, total-erase,
}
use lur.State.Entry.{Prim}
use lur.State.Inner.{Flight}
use lur.Flights.{
  World, runs, remove_flight, remove_flights, led_from, end_flights, end_run, resumed,
}
use lur.Flights.Led.{IsLed, owned, owned_nested}

pub runs-find :
    (id : ℕ) (fl : Dict Flight)
    → Uniq fl
    → runs id fl ≡ true
    → (k : Bytes) × (f : Flight) × (find k fl ≡ some f) × (f.id ≡ id)
unfolding runs find
runs-find id [] u h = absurd (ground arith)
runs-find id ((k, f) ∷ fl) u h = elim (Bool-cases (f.id == id)) [
  | inl same ↦ (k, f, rw (bytes_eq_refl k) refl, ground arith)
  | inr other ↦
      let (j, g, found, same) = runs-find id fl u.1 (rw other at h) in
      (j, g, ground (arith, bytes_eq_iff k j), same)
]

pub find-runs :
    (k : Bytes) (f : Flight) (fl : Dict Flight) → find k fl ≡ some f → runs f.id fl ≡ true
unfolding runs find
find-runs k f [] h = absurd (ground arith)
find-runs k f ((j, g) ∷ fl) h = ground (arith, find-runs k f fl)

pub runs-none :
    (id : ℕ) (fl : Dict Flight)
    → Uniq fl
    → ((k : Bytes) (f : Flight) → find k fl ≡ some f → f.id ≢ id)
    → runs id fl ≡ false
runs-none id fl u none' = elim (Bool-cases (runs id fl)) [
  | inl yes' ↦ let (k, f, found, same) = runs-find id fl u yes' in absurd (none' k f found same)
  | inr no' ↦ no'
]

-- What removing flights does: those of the keys are gone, nothing is sent.
find-remove_flight :
    (key j : Bytes) (w : World)
    → find j (remove_flight key w).1.inner.flights
      ≡ (if bytes_eq key j then none else find j w.inner.flights)
unfolding remove_flight
find-remove_flight key j w = elim (Option-cases (find key w.inner.flights)) [
  | inl absent ↦ rw absent (ground (arith, bytes_eq_iff key j))
  | inr (f, found) ↦ rw found (find-erase key j w.inner.flights)
]

find-remove_flights :
    (ks : List Bytes) (j : Bytes) (w : World)
    → find j (remove_flights ks w).inner.flights
      ≡ (if contains j ks then none else find j w.inner.flights)
unfolding remove_flights contains
find-remove_flights [] j w = refl
find-remove_flights (k ∷ ks) j w =
    ground (arith, find-remove_flights ks j (remove_flight k w).1, find-remove_flight k j w)

sent-remove_flight : (key : Bytes) (w : World) → (remove_flight key w).1.sent ≡ w.sent
unfolding remove_flight
sent-remove_flight key w = elim (Option-cases (find key w.inner.flights)) [
  | inl absent ↦ rw absent refl
  | inr (f, found) ↦ rw found refl
]

pub sent-remove_flights : (ks : List Bytes) (w : World) → (remove_flights ks w).sent ≡ w.sent
unfolding remove_flights
sent-remove_flights [] w = refl
sent-remove_flights (k ∷ ks) w =
    ground (arith, sent-remove_flights ks (remove_flight k w).1, sent-remove_flight k w)

-- The flight, unless `vm` leads it from a depth of at least `depth`.
abbrev pub unless_led : ℕ → ℕ → Option Flight → Option Flight
unless_led vm depth none = none
unless_led vm depth (some f) = if led_from vm depth f then none else some f

find-end_flights :
    (vm depth : ℕ) (w : World) (k : Bytes)
    → Uniq w.inner.flights
    → find k (end_flights vm depth w).inner.flights ≡ unless_led vm depth (find k w.inner.flights)
unfolding end_flights
find-end_flights vm depth w k u = ground (
  arith,
  find-remove_flights (keys_where (led_from vm depth) w.inner.flights) k w,
  contains-keys_where (led_from vm depth) k w.inner.flights u,
)

-- A machine whose count is 0 leads nothing.
owned-le :
    (weight : Flight → ℕ) (k : Bytes) (f : Flight) (fl : Dict Flight)
    → Uniq fl
    → find k fl ≡ some f
    → weight f ≤ total weight fl
owned-le weight k f fl u found = ground (arith, total-erase weight k fl u)

unless_idle :
    (vm : ℕ) (w : World) (k : Bytes)
    → IsLed w
    → total (owned vm) w.inner.flights < 2 ^ 64
    → (w.vms vm).all ≡ 0
    → unless_led vm 0 (find k w.inner.flights) ≡ find k w.inner.flights
unless_idle vm w k l few idle = elim (Option-cases (find k w.inner.flights)) [
  | inl absent ↦ rw absent refl
  | inr (f, found) ↦
      rw found (ground (arith, owned-le (owned vm) k f w.inner.flights l.uniq found, l.all vm))
]

unless_idle_nested :
    (vm depth : ℕ) (w : World) (k : Bytes)
    → IsLed w
    → total (owned_nested vm) w.inner.flights < 2 ^ 64
    → 0 < depth
    → (w.vms vm).nested ≡ 0
    → unless_led vm depth (find k w.inner.flights) ≡ find k w.inner.flights
unless_idle_nested vm depth w k l few deep idle = elim (Option-cases (find k w.inner.flights)) [
  | inl absent ↦ rw absent refl
  | inr (f, found) ↦
      rw found
        (ground (arith, owned-le (owned_nested vm) k f w.inner.flights l.uniq found, l.nested vm))
]

-- When a run on a machine ends, exactly the flights that the machine leads leave the table, the
-- early return on its count included, if it leads fewer than 2 ^ 64 of them.
pub find-end_run :
    (vm : ℕ) (w : World) (k : Bytes)
    → IsLed w
    → total (owned vm) w.inner.flights < 2 ^ 64
    → find k (end_run vm w).inner.flights ≡ unless_led vm 0 (find k w.inner.flights)
unfolding end_run
find-end_run vm w k l few = elim (Bool-cases ((w.vms vm).all == 0)) [
  | inl idle ↦ rw idle (ground (arith, unless_idle vm w k l few))
  | inr busy ↦ rw busy (find-end_flights vm 0 w k l.uniq)
]

-- When a resume at a depth returns, exactly the flights that its machine started at that depth or
-- deeper leave the table.
pub find-resumed :
    (vm depth : ℕ) (w : World) (k : Bytes)
    → IsLed w
    → total (owned_nested vm) w.inner.flights < 2 ^ 64
    → 0 < depth
    → find k (resumed vm depth w).inner.flights ≡ unless_led vm depth (find k w.inner.flights)
unfolding resumed
find-resumed vm depth w k l few deep = elim (Bool-cases ((w.vms vm).nested == 0)) [
  | inl idle ↦ rw idle (ground (arith, unless_idle_nested vm depth w k l few deep))
  | inr busy ↦ rw busy (find-end_flights vm depth w k l.uniq)
]
