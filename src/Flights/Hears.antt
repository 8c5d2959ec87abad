-- ===== src/Flights/Hears.antt =====
-- What the waiters of a flight hear when its leader finishes, gives up, or is cut off by the end of
-- its run, and how a flight begins (src/capabilities/state.rs).
use lur.Base.{
  ℕ, ◌^◌, ◌≡◌, ◌≢◌, ◌<◌, refl, inl, inr, Option, none, some, Bool-cases, true, ◌==◌, ◌&&◌,
  if◌then◌else◌, arith,
}
use lur.Base.Bytes.{Bytes, bytes_eq, bytes_eq_iff}
use lur.Base.Dict.{find, Uniq, total, find-erase}
use lur.State.Entry.{Prim, Write, Limits}
use lur.State.Inner.{Flight}
use lur.Flights.{
  World, Shared, at_id, nothing, closed, outcome, hears, end_flights, end_run, finish, store_loaded,
  publish, drop_lead,
}
use lur.Flights.Led.{
  IsLed, removed-IsLed, sent-IsLed, owned, without, Take, misses, takes, take_flight-Take,
}
use lur.Flights.Sound.{IsSound, HasRoom, end_run-IsSound, store_loaded-IsSound, store_loaded-Apart}
use lur.Flights.Handoff.{runs-none, find-runs, find-end_run, sent-remove_flights}

pub hears-running :
    (k : Bytes) (f : Flight) (w : World)
    → IsLed w
    → find k w.inner.flights ≡ some f
    → hears f.id w ≡ nothing
unfolding hears
hears-running k f w l found =
    ground (arith, l.unsent k f found, find-runs k f w.inner.flights found)

hears-gone :
    (id : ℕ) (w : World)
    → Uniq w.inner.flights
    → w.sent id ≡ none
    → ((k : Bytes) (f : Flight) → find k w.inner.flights ≡ some f → f.id ≢ id)
    → hears id w ≡ closed
unfolding hears
hears-gone id w u unsent gone = ground (arith, runs-none id w.inner.flights u gone)

sent-end_run : (vm : ℕ) (w : World) → (end_run vm w).sent ≡ w.sent
unfolding end_run end_flights
sent-end_run vm w = elim (Bool-cases ((w.vms vm).all == 0)) [
  | inl idle ↦ rw idle refl
  | inr busy ↦ rw busy (sent-remove_flights _ w)
]

-- The end of a run on a machine hands off: the waiters of every flight that the machine leads find
-- the channel closed, so that they race to lead, and those of the others go on waiting.
pub hears-end_run :
    (vm : ℕ) (w : World) (k : Bytes) (f : Flight)
    → IsSound w
    → total (owned vm) w.inner.flights < 2 ^ 64
    → find k w.inner.flights ≡ some f
    → hears f.id (end_run vm w) ≡ (if f.owner == vm then closed else nothing)
hears-end_run vm w k f sound few found =
    let l = sound.led in
    let after = end_run-IsSound vm w sound in
    let left = λ (j : Bytes). find-end_run vm w j l few in
    elim (Bool-cases (f.owner == vm)) [
      | inl mine ↦ rw mine (
          hears-gone f.id (end_run vm w) after.led.uniq
            (ground (arith, sent-end_run vm w, l.unsent k f))
            (λ j g there same. ground (arith, left j, l.distinct k j f g, bytes_eq_iff k j)))
      | inr other ↦ rw other (hears-running k f (end_run vm w) after.led (ground (arith, left k)))
    ]

without-hears :
    (key : Bytes) (g : Flight) (w : World) (k : Bytes) (f : Flight)
    → IsLed w
    → IsLed (without key g w)
    → find key w.inner.flights ≡ some g
    → find k w.inner.flights ≡ some f
    → hears f.id (without key g w) ≡ (if bytes_eq key k then closed else nothing)
without-hears key g w k f l after there found = elim (Bool-cases (bytes_eq key k)) [
  | inl same ↦ rw same (
      hears-gone f.id (without key g w) after.uniq (l.unsent k f found) (λ j h found' e. ground (
        arith,
        find-erase key j w.inner.flights,
        l.distinct k j f h,
        bytes_eq_iff k j,
        bytes_eq_iff key k,
      )))
  | inr other ↦
      rw other (
        hears-running k f (without key g w) after
          (ground (arith, find-erase key k w.inner.flights)))
]

module _ (key : Bytes) (id : ℕ) (w : World) (k : Bytes) (f : Flight) (l : IsLed w)
    (found : find k w.inner.flights ≡ some f) where
  dropped-hears :
      (r : Option Flight × World)
      → Take key id w r
      → hears f.id r.1 ≡ (if bytes_eq key k && f.id == id then closed else nothing)
  dropped-hears r (misses other e) =
      rw e (ground (arith, hears-running k f w l, bytes_eq_iff key k))
  dropped-hears r (takes g there same e) = rw e (
      ground (
        arith,
        without-hears key g w k f l (removed-IsLed key w l g there) there found,
        bytes_eq_iff key k,
      ))

  sent-heard :
      (o : Shared) (g : Flight)
      → find key w.inner.flights ≡ some g
      → g.id ≡ id
      → bytes_eq key k ≡ true
      → hears f.id (record (without key g w) { sent = at_id g.id o w.sent })
        ≡ (if bytes_eq key k && f.id == id then outcome o else nothing)
  unfolding hears at_id
  sent-heard o g there same own = ground (arith, bytes_eq_iff key k)

  published-hears :
      (o : Shared) (r : Option Flight × World)
      → Take key id w r
      → hears f.id (publish o r) ≡ (if bytes_eq key k && f.id == id then outcome o else nothing)
  unfolding publish
  published-hears o r (misses other e) =
      rw e (ground (arith, hears-running k f w l, bytes_eq_iff key k))
  published-hears o r (takes g there same e) = elim (Bool-cases (bytes_eq key k)) [
    | inl own ↦ rw e (sent-heard o g there same own)
    | inr other ↦
        rw (e, other)
          (hears-running k f _ (sent-IsLed key w l g o there)
            (ground (arith, find-erase key k w.inner.flights)))
  ]

-- A leader that gives up hands off: the waiters of its flight find the channel closed. Nothing
-- changes for the waiters of any other flight, and if the guard is left over from an earlier
-- leadership of its key, nothing changes for anybody.
pub hears-drop_lead :
    (key : Bytes) (id : ℕ) (w : World) (k : Bytes) (f : Flight)
    → IsSound w
    → find k w.inner.flights ≡ some f
    → hears f.id (drop_lead key id w) ≡ (if bytes_eq key k && f.id == id then closed else nothing)
unfolding drop_lead
hears-drop_lead key id w k f sound found =
    dropped-hears key id w k f sound.led found _ (take_flight-Take key id w)

-- What a leader publishes reaches the waiters of its own flight, and nothing changes for the
-- waiters of any other; a guard that is left over from an earlier leadership publishes nothing.
pub hears-finish :
    (key : Bytes) (id : ℕ) (o : Shared) (opts : Write) (now : ℕ) (limits : Limits) (w : World)
    (k : Bytes) (f : Flight)
    → IsSound w
    → HasRoom w
    → find k w.inner.flights ≡ some f
    → hears f.id (finish key id o opts now limits w)
      ≡ (if bytes_eq key k && f.id == id then outcome o else nothing)
unfolding finish
hears-finish key id o opts now limits w k f sound room found =
    let after = store_loaded-IsSound key o opts now limits w sound room in
    published-hears key id (record w { inner = store_loaded key o opts now limits w.inner }) k f
      after.led (rw (store_loaded-Apart key o opts now limits w.inner sound.valid).flights found) o
      _ (take_flight-Take key id _)
