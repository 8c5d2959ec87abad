-- ===== src/Flights/Sound.antt =====
-- The well-formedness of the store with its flights, and the locked sections of `fetch`
-- (src/capabilities/state.rs).
use lur.Base.{
  ℕ, ◌+◌, ◌^◌, ◌<◌, ◌≡◌, refl, inl, inr, Option, none, some, Option-cases, Bool, Bool-cases, true,
  List, [], ◌∷◌, ◌==◌, arith,
}
use lur.Base.Bytes.{Bytes}
use lur.Base.Dict.{Dict, find}
use lur.State.Entry.{Prim, Entry, Write, Limits}
use lur.State.Inner.{Flight, Inner, live, touch, version, version_of}
use lur.State.Valid.{IsValid}
use lur.State.Valid.Reads.{HasTicks, live-IsValid, touch-IsValid}
use lur.State.Put.Frame.{SameFrame-live}
use lur.State.Put.Insert.{HasVersions}
use lur.State.Put.Outcome.{put-IsValid}
use lur.State.Put.Apart.{Apart, Apart-trans, Apart-refl, Apart-live, Apart-touch, Apart-put}
use lur.Flights.{
  World, at_vm, Shared, value, raised, rejected, Chain, wait_up, wait_down, edge, edge_at,
  edge_loop, join, join_of, start, wait_on, new_flight, waits_for, finish, store_loaded, publish,
  drop_lead, end_flights, end_run, resumed, remove_flight, remove_flights,
}
use lur.Flights.Led.{
  IsLed, IsLed-inner, replace-IsLed, start-IsLed, removed-IsLed, sent-IsLed, without, Take, misses,
  takes, take_flight-Take,
}

pub record IsSound (w : World) : Type 0 where
  pub valid : IsValid w.inner
  pub led : IsLed w

-- The store with another table of flights.
with_flights-IsValid :
    (s : Inner) (fl : Dict Flight) (n : ℕ)
    → IsValid s
    → IsValid (record s { flights = fl; next_flight = n })
with_flights-IsValid s fl n v = record {
  uniq = v.uniq;
  counted = v.counted;
  ascending = v.ascending;
  indexed = v.indexed;
  indexes = v.indexes;
  stamped = v.stamped;
  versioned = v.versioned;
}

abbrev re_edged : Dict Flight → World → World
re_edged fl w = record w { inner = record w.inner { flights = fl } }

edge_at-IsLed :
    (c : Bytes) (id : ℕ) (key : Bytes) (up : Bool) (w : World)
    → IsLed w
    → IsLed (re_edged (edge_at c id key up w.inner.flights) w)
unfolding edge_at wait_up wait_down
edge_at-IsLed c id key up w l = elim (Option-cases (find c w.inner.flights)) [
  | inl absent ↦ rw (edge_at, absent) l
  | inr (f, found) ↦ elim (Bool-cases (f.id == id)) [
    | inl same ↦ elim (Bool-cases up) [
      | inl more ↦
          rw (edge_at, found, same, more)
            (replace-IsLed c f (wait_up key f) w l found refl refl refl)
      | inr less ↦
          rw (edge_at, found, same, less)
            (replace-IsLed c f (wait_down key f) w l found (ground arith) (ground arith)
              (ground arith))
    ]
    | inr other ↦ rw (edge_at, found, other) l
  ]
]

edge_loop-IsLed :
    (chain : Chain) (key : Bytes) (up : Bool) (w : World)
    → IsLed w
    → IsLed (re_edged (edge_loop chain key up w.inner.flights) w)
unfolding edge edge_loop
edge_loop-IsLed [] key up w l = l
edge_loop-IsLed ((c, id) ∷ rest) key up w l =
    edge_loop-IsLed rest key up (re_edged (edge_at c id key up w.inner.flights) w)
      (edge_at-IsLed c id key up w l)

pub edge-IsSound :
    (chain : Chain) (key : Bytes) (up : Bool) (w : World)
    → IsSound w
    → IsSound (record w { inner = edge chain key up w.inner })
unfolding edge edge_loop
edge-IsSound chain key up w sound = record {
  valid = with_flights-IsValid w.inner _ _ sound.valid;
  led = edge_loop-IsLed chain key up w sound.led;
}

-- The operations on entries.
pub store-IsSound :
    {w : World} (s : Inner)
    → IsSound w
    → IsValid s
    → Apart w.inner s
    → IsSound (record w { inner = s })
store-IsSound s sound v a = record {
  valid = v;
  led = IsLed-inner s sound.led a.flights a.next_flight;
}

pub record HasRoom (w : World) : Type 0 where
  pub ticks : HasTicks w.inner
  pub versions : HasVersions w.inner
  pub flights : w.inner.next_flight + 1 < 2 ^ 64

module _ (key : Bytes) (vm : ℕ) (w : World) (sound : IsSound w) where
  pub start-IsSound :
      w.inner.next_flight + 1 < 2 ^ 64
      → find key w.inner.flights ≡ none
      → IsSound (start key vm w).1
  unfolding start new_flight
  start-IsSound room absent = record {
    valid = with_flights-IsValid w.inner _ _ sound.valid;
    led = start-IsLed key _ w sound.led room absent refl;
  }

  wait_on-IsSound : (f : Flight) (chain : Chain) → IsSound (wait_on key f vm chain w).1
  unfolding wait_on
  wait_on-IsSound f [] = sound
  wait_on-IsSound f (c ∷ chain) = elim (Option-cases (waits_for key (c ∷ chain) w.inner)) [
    | inl lost ↦ rw (wait_on, lost) sound
    | inr (b, walked) ↦ elim (Bool-cases b) [
      | inl cycle ↦ rw (wait_on, walked, cycle) sound
      | inr no' ↦ rw (wait_on, walked, no') (edge-IsSound (c ∷ chain) key true w sound)
    ]
  ]

  join_of-IsSound :
      (chain : Chain) (o : Option Entry)
      → HasTicks w.inner
      → w.inner.next_flight + 1 < 2 ^ 64
      → IsSound (join_of key vm chain o w).1
  unfolding join_of
  join_of-IsSound chain (some e) ticks room =
      store-IsSound (touch key w.inner) sound (touch-IsValid key sound.valid ticks)
        (Apart-touch key w.inner)
  join_of-IsSound chain none ticks room = elim (Option-cases (find key w.inner.flights)) [
    | inl absent ↦ rw (join_of, absent) (start-IsSound room absent)
    | inr (f, found) ↦ rw (join_of, found) (wait_on-IsSound f chain)
  ]

pub live-IsSound :
    (key : Bytes) (now : ℕ) (w : World)
    → IsSound w
    → IsSound (record w { inner = (live key now w.inner).1 })
live-IsSound key now w sound =
    store-IsSound _ sound (live-IsValid key now sound.valid) (Apart-live key now w.inner)

pub join-IsSound :
    (key : Bytes) (vm : ℕ) (chain : Chain) (now : ℕ) (w : World)
    → IsSound w
    → HasRoom w
    → IsSound (join key vm chain now w).1
unfolding join
join-IsSound key vm chain now w sound room =
    let f = SameFrame-live now w.inner key in
    join_of-IsSound key vm _ (live-IsSound key now w sound) chain (live key now w.inner).0
      (rw f.next_tick room.ticks) (rw f.next_flight room.flights)

pub store_loaded-Apart :
    (key : Bytes) (o : Shared) (opts : Write) (now : ℕ) (limits : Limits) (s : Inner)
    → IsValid s
    → Apart s (store_loaded key o opts now limits s)
unfolding store_loaded version
store_loaded-Apart key (value none) opts now limits s v = Apart-refl s
store_loaded-Apart key (raised e) opts now limits s v = Apart-refl s
store_loaded-Apart key (rejected e) opts now limits s v = Apart-refl s
store_loaded-Apart key (value (some p)) opts now limits s v =
    let l = Apart-live key now s in
    elim (Bool-cases (version_of (live key now s).0 == 0)) [
      | inl absent ↦
          rw absent
            (Apart-trans l (Apart-put key (some p) opts now limits _ (live-IsValid key now v)))
      | inr there ↦ rw there l
    ]

pub store_loaded-IsSound :
    (key : Bytes) (shared : Shared) (opts : Write) (now : ℕ) (limits : Limits) (w : World)
    → IsSound w
    → HasRoom w
    → IsSound (record w { inner = store_loaded key shared opts now limits w.inner })
unfolding store_loaded version
store_loaded-IsSound key (value none) opts now limits w sound room = sound
store_loaded-IsSound key (raised e) opts now limits w sound room = sound
store_loaded-IsSound key (rejected e) opts now limits w sound room = sound
store_loaded-IsSound key (value (some p)) opts now limits w sound room =
    let f = SameFrame-live now w.inner key in
    let l = live-IsSound key now w sound in
    elim (Bool-cases (version_of (live key now w.inner).0 == 0)) [
      | inl absent ↦ rw absent (
          store-IsSound _ l
            (put-IsValid key (some p) opts now limits _ l.valid (rw f.next_tick room.ticks)
              (rw f.last_version room.versions))
            (Apart-put key (some p) opts now limits _ l.valid))
      | inr there ↦ rw there l
    ]

without-IsSound :
    (key : Bytes) (f : Flight) (w : World)
    → IsSound w
    → find key w.inner.flights ≡ some f
    → IsSound (without key f w)
without-IsSound key f w sound found = record {
  valid = with_flights-IsValid w.inner _ _ sound.valid;
  led = removed-IsLed key w sound.led f found;
}

publish-IsSound :
    (key : Bytes) (id : ℕ) (o : Shared) (w : World) (r : Option Flight × World)
    → IsSound w
    → Take key id w r
    → IsSound (publish o r)
unfolding publish
publish-IsSound key id o w r sound (misses other e) = rw e sound
publish-IsSound key id o w r sound (takes f found same e) = rw e (record {
  valid = with_flights-IsValid w.inner _ _ sound.valid;
  led = sent-IsLed key w sound.led f o found;
})

pub finish-IsSound :
    (key : Bytes) (id : ℕ) (o : Shared) (opts : Write) (now : ℕ) (limits : Limits) (w : World)
    → IsSound w
    → HasRoom w
    → IsSound (finish key id o opts now limits w)
unfolding finish
finish-IsSound key id o opts now limits w sound room =
    publish-IsSound key id o _ _ (store_loaded-IsSound key o opts now limits w sound room)
      (take_flight-Take key id _)

pub dropped-IsSound :
    (key : Bytes) (id : ℕ) (w : World) (r : Option Flight × World)
    → IsSound w
    → Take key id w r
    → IsSound r.1
dropped-IsSound key id w r sound (misses other e) = rw e sound
dropped-IsSound key id w r sound (takes f found same e) = rw e (without-IsSound key f w sound found)

pub drop_lead-IsSound :
    (key : Bytes) (id : ℕ) (w : World) → IsSound w → IsSound (drop_lead key id w)
unfolding drop_lead
drop_lead-IsSound key id w sound = dropped-IsSound key id w _ sound (take_flight-Take key id w)

remove_flight-IsSound : (key : Bytes) (w : World) → IsSound w → IsSound (remove_flight key w).1
unfolding remove_flight
remove_flight-IsSound key w sound = elim (Option-cases (find key w.inner.flights)) [
  | inl absent ↦ rw absent sound
  | inr (f, found) ↦ rw found (without-IsSound key f w sound found)
]

remove_flights-IsSound : (ks : List Bytes) (w : World) → IsSound w → IsSound (remove_flights ks w)
unfolding remove_flights
remove_flights-IsSound [] w sound = sound
remove_flights-IsSound (k ∷ ks) w sound =
    remove_flights-IsSound ks (remove_flight k w).1 (remove_flight-IsSound k w sound)

end_flights-IsSound : (vm depth : ℕ) (w : World) → IsSound w → IsSound (end_flights vm depth w)
unfolding end_flights
end_flights-IsSound vm depth w sound = remove_flights-IsSound _ w sound

pub resumed-IsSound : (vm depth : ℕ) (w : World) → IsSound w → IsSound (resumed vm depth w)
unfolding resumed
resumed-IsSound vm depth w sound = elim (Bool-cases ((w.vms vm).nested == 0)) [
  | inl idle ↦ rw idle sound
  | inr busy ↦ rw busy (end_flights-IsSound vm depth w sound)
]

-- The depth of a machine changes as it resumes coroutines.
abbrev pub at_depth : ℕ → ℕ → World → World
at_depth vm d w = record w { vms = at_vm vm (record (w.vms vm) { depth = d }) w.vms }

pub at_depth-IsSound : (vm d : ℕ) (w : World) → IsSound w → IsSound (at_depth vm d w)
unfolding at_vm
at_depth-IsSound vm d w sound =
    let l = sound.led in
    record {
      valid = sound.valid;
      led = record {
        uniq = l.uniq;
        all = λ a. ground (arith, l.all a);
        nested = λ a. ground (arith, l.nested a);
        issued = l.issued;
        distinct = l.distinct;
        unsent = l.unsent;
        unsent_later = l.unsent_later;
      };
    }

pub end_run-IsSound : (vm : ℕ) (w : World) → IsSound w → IsSound (end_run vm w)
unfolding end_run
end_run-IsSound vm w sound = elim (Bool-cases ((w.vms vm).all == 0)) [
  | inl idle ↦ rw idle (at_depth-IsSound vm 0 w sound)
  | inr busy ↦ rw busy (at_depth-IsSound vm 0 _ (end_flights-IsSound vm 0 w sound))
]
