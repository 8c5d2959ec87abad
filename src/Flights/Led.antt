-- ===== src/Flights/Led.antt =====
-- The invariant of the table of flights (src/capabilities/state.rs).
use lur.Base.{
  ℕ, ◌+◌, ◌^◌, ◌%◌, ◌≡◌, ◌≤◌, ◌<◌, refl, inl, inr, Option, none, some, Option-cases, Bool-cases,
  true, false, ◌&&◌, ltb, ◌==◌, to_nat, arith,
}
use lur.Base.Bytes.{Bytes, bytes_eq, bytes_eq_iff}
use lur.Base.Dict.{
  find, erase, insert, Uniq, total, find-erase, find-insert, erase-Uniq, insert-Uniq, total-erase,
  total-insert,
}
use lur.State.Inner.{Flight, Inner, u64_inc}
use lur.Flights.{World, Shared, at_id, at_vm, one_more, one_less, remove_flight, take_flight, is_id}

-- How many flights a machine leads, and how many of them inside a resume.
abbrev pub owned : ℕ → Flight → ℕ
owned a f = to_nat (f.owner == a)

abbrev pub owned_nested : ℕ → Flight → ℕ
owned_nested a f = to_nat (f.owner == a && ltb 0 f.depth)

-- The counts of every machine are exact (modulo the size of a word), every flight has an id of its
-- own that was issued, and nothing was sent on the channel of a flight in the table or of an id
-- still to come.
pub record IsLed (w : World) : Type 0 where
  pub uniq : Uniq w.inner.flights
  pub all : (a : ℕ) → (w.vms a).all ≡ total (owned a) w.inner.flights % 2 ^ 64
  pub nested : (a : ℕ) → (w.vms a).nested ≡ total (owned_nested a) w.inner.flights % 2 ^ 64
  pub issued :
      (k : Bytes) (f : Flight) → find k w.inner.flights ≡ some f → f.id ≤ w.inner.next_flight
  pub distinct :
      (k j : Bytes) (f g : Flight)
      → find k w.inner.flights ≡ some f
      → find j w.inner.flights ≡ some g
      → f.id ≡ g.id
      → bytes_eq k j ≡ true
  pub unsent : (k : Bytes) (f : Flight) → find k w.inner.flights ≡ some f → w.sent f.id ≡ none
  pub unsent_later : (id : ℕ) → w.inner.next_flight < id → w.sent id ≡ none

pub IsLed-inner :
    {w : World} (s : Inner)
    → IsLed w
    → s.flights ≡ w.inner.flights
    → s.next_flight ≡ w.inner.next_flight
    → IsLed (record w { inner = s })
IsLed-inner s l e n = record {
  uniq = rw e l.uniq;
  all = λ a. rw e (l.all a);
  nested = λ a. rw e (l.nested a);
  issued = λ k f h. rw n (l.issued k f (rw e at h));
  distinct = λ k j f g h i. l.distinct k j f g (rw e at h) (rw e at i);
  unsent = λ k f h. l.unsent k f (rw e at h);
  unsent_later = λ id h. l.unsent_later id (rw n at h);
}

-- The world without the flight `f` of a key.
abbrev pub without : Bytes → Flight → World → World
without key f w = record w {
  inner = record w.inner { flights = erase key w.inner.flights };
  vms = at_vm f.owner (one_less f.depth (w.vms f.owner)) w.vms;
}

-- The two ways in which `take_flight` ends.
pub data Take (key : Bytes) (id : ℕ) (w : World) (r : Option Flight × World) : Type 0 where
  misses : is_id id (find key w.inner.flights) ≡ false → r ≡ (none, w) → Take key id w r
  takes :
      (f : Flight)
      → find key w.inner.flights ≡ some f
      → f.id ≡ id
      → r ≡ (some f, without key f w)
      → Take key id w r

pub take_flight-Take : (key : Bytes) (id : ℕ) (w : World) → Take key id w (take_flight key id w)
unfolding take_flight remove_flight
take_flight-Take key id w = elim (Option-cases (find key w.inner.flights)) [
  | inl absent ↦ rw absent (misses (ground arith) refl)
  | inr (f, found) ↦ elim (Bool-cases (f.id == id)) [
    | inl same ↦ rw (found, same) (takes f (ground arith) (ground arith) refl)
    | inr other ↦ rw (found, other) (misses (ground arith) refl)
  ]
]

module _ (key : Bytes) (w : World) (l : IsLed w) where
  pub removed-IsLed : (f : Flight) → find key w.inner.flights ≡ some f → IsLed (without key f w)
  unfolding at_vm one_less
  removed-IsLed f found = record {
    uniq = erase-Uniq key w.inner.flights l.uniq;
    all = λ a. ground (arith, l.all a, total-erase (owned a) key w.inner.flights l.uniq);
    nested =
        λ a. ground (arith, l.nested a, total-erase (owned_nested a) key w.inner.flights l.uniq);
    issued = λ k g h. ground (arith, l.issued k g, find-erase key k w.inner.flights);
    distinct = λ k j g i h h' same. ground (
      arith,
      l.distinct k j g i,
      find-erase key k w.inner.flights,
      find-erase key j w.inner.flights,
    );
    unsent = λ k g h. ground (arith, l.unsent k g, find-erase key k w.inner.flights);
    unsent_later = l.unsent_later;
  }

  -- A flight that was taken is gone from the table, so that an outcome may be sent for it.
  pub sent-IsLed :
      (f : Flight) (o : Shared)
      → find key w.inner.flights ≡ some f
      → IsLed (record (without key f w) { sent = at_id f.id o w.sent })
  unfolding at_id
  sent-IsLed f o found =
      let t = removed-IsLed f found in
      record {
        uniq = t.uniq;
        all = t.all;
        nested = t.nested;
        issued = t.issued;
        distinct = t.distinct;
        unsent = λ k g h.
            ground (arith, l.unsent k g, l.distinct key k f g, find-erase key k w.inner.flights);
        unsent_later = λ id h. ground (arith, l.unsent_later id, l.issued key f);
      }

-- A flight that is replaced by one of the same leadership.
pub replace-IsLed :
    (key : Bytes) (f g : Flight) (w : World)
    → IsLed w
    → find key w.inner.flights ≡ some f
    → g.id ≡ f.id
    → g.owner ≡ f.owner
    → g.depth ≡ f.depth
    → IsLed (record w { inner = record w.inner { flights = insert key g w.inner.flights } })
replace-IsLed key f g w l found id owner depth =
    let get = λ (k : Bytes). find-insert key k g w.inner.flights in
    record {
      uniq = insert-Uniq key g w.inner.flights l.uniq;
      all = λ a. ground (arith, l.all a, total-insert (owned a) key g w.inner.flights l.uniq);
      nested = λ a.
          ground (arith, l.nested a, total-insert (owned_nested a) key g w.inner.flights l.uniq);
      issued = λ k i h. ground (arith, l.issued k i, l.issued key f, get k);
      distinct = λ k j i i' h h' same. ground (
        arith,
        get k,
        get j,
        l.distinct k j i i',
        l.distinct k key i f,
        l.distinct key j f i',
        bytes_eq_iff k j,
        bytes_eq_iff key k,
        bytes_eq_iff key j,
      );
      unsent = λ k i h. ground (arith, l.unsent k i, l.unsent key f, get k);
      unsent_later = l.unsent_later;
    }

-- A new flight under a new id.
pub start-IsLed :
    (key : Bytes) (f : Flight) (w : World)
    → IsLed w
    → w.inner.next_flight + 1 < 2 ^ 64
    → find key w.inner.flights ≡ none
    → f.id ≡ u64_inc w.inner.next_flight
    → IsLed (record w {
      inner = record w.inner { next_flight = f.id; flights = insert key f w.inner.flights };
      vms = at_vm f.owner (one_more f.depth (w.vms f.owner)) w.vms;
    })
unfolding at_vm one_more
start-IsLed key f w l room absent id =
    let get = λ (k : Bytes). find-insert key k f w.inner.flights in
    record {
      uniq = insert-Uniq key f w.inner.flights l.uniq;
      all = λ a. ground (arith, l.all a, total-insert (owned a) key f w.inner.flights l.uniq);
      nested = λ a.
          ground (arith, l.nested a, total-insert (owned_nested a) key f w.inner.flights l.uniq);
      issued = λ k i h. ground (arith, l.issued k i, get k);
      distinct = λ k j i i' h h' same. ground (
        arith,
        get k,
        get j,
        l.distinct k j i i',
        l.issued k i,
        l.issued j i',
        bytes_eq_iff k j,
        bytes_eq_iff key k,
        bytes_eq_iff key j,
      );
      unsent = λ k i h. ground (arith, l.unsent k i, l.unsent_later f.id, get k);
      unsent_later = λ j h. ground (arith, l.unsent_later j);
    }
