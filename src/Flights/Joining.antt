-- ===== src/Flights/Joining.antt =====
-- The four ways in which a `fetch` that missed goes on (src/capabilities/state.rs).
use lur.Base.{
  ℕ, ◌+◌, ◌^◌, ◌≡◌, ◌<◌, refl, inl, inr, Option, none, some, Option-cases, Bool-cases, true, [],
  ◌∷◌, ◌==◌, arith,
}
use lur.Base.Bytes.{Bytes, bytes_eq_refl}
use lur.Base.Dict.{find, find-insert}
use lur.State.Entry.{Entry}
use lur.State.Inner.{Flight, live}
use lur.State.Valid.Reads.{fresh_of, live-fresh_of}
use lur.State.Put.Apart.{Apart, Apart-live, Apart-touch}
use lur.Flights.{
  World, Chain, on_chain, nothing, hears, Join, hit, lead, wait, inline, join, join_of, start,
  new_flight, wait_on,
}
use lur.Flights.Sound.{IsSound, HasRoom, live-IsSound, start-IsSound}
use lur.Flights.Cycle.{WaitsOn, waits_for_lem}
use lur.Flights.Hears.{hears-running}

-- Waiting for `key` would be waiting for a flight that the task itself leads.
abbrev pub IsCycle : Bytes → Chain → World → Type 0
IsCycle key chain w = (t : Bytes) × (on_chain t chain ≡ true) × WaitsOn w.inner.flights t key

-- A flight of `key` that `vm` leads under the id `id`, on whose channel nothing was sent.
pub record IsStarted (key : Bytes) (vm id : ℕ) (w : World) : Type 0 where
  pub flight : Flight
  pub found : find key w.inner.flights ≡ some flight
  pub named : flight.id ≡ id
  pub owned : flight.owner ≡ vm
  pub running : hears id w ≡ nothing

pub data Joined (key : Bytes) (vm : ℕ) (chain : Chain) (now : ℕ) (w : World) (r : Join × World)
    : Type 0 where
  hits :
      (e : Entry)
      → fresh_of now (find key w.inner.map) ≡ some e
      → r.0 ≡ hit e.value
      → r.1.inner.flights ≡ w.inner.flights
      → Joined key vm chain now w r
  leads :
      fresh_of now (find key w.inner.map) ≡ none
      → find key w.inner.flights ≡ none
      → r.0 ≡ lead (w.inner.next_flight + 1)
      → IsStarted key vm (w.inner.next_flight + 1) r.1
      → Joined key vm chain now w r
  waits :
      (f : Flight) (edges : Option Chain)
      → fresh_of now (find key w.inner.map) ≡ none
      → find key w.inner.flights ≡ some f
      → ¬ IsCycle key chain w
      → r.0 ≡ wait f.id (f.owner == vm) edges
      → Joined key vm chain now w r
  inlines :
      (f : Flight)
      → fresh_of now (find key w.inner.map) ≡ none
      → find key w.inner.flights ≡ some f
      → IsCycle key chain w
      → r.0 ≡ inline
      → Joined key vm chain now w r

module _ (key : Bytes) (vm : ℕ) (w : World) (sound : IsSound w)
    (room : w.inner.next_flight + 1 < 2 ^ 64) where
  start-IsStarted :
      find key w.inner.flights ≡ none
      → IsStarted key vm (w.inner.next_flight + 1) (start key vm w).1
  unfolding start new_flight
  start-IsStarted absent =
      let after = (start-IsSound key vm w sound room absent).led in
      let there : find key (start key vm w).1.inner.flights ≡ some (new_flight vm w) =
        rw (find-insert key key (new_flight vm w) w.inner.flights) (rw (bytes_eq_refl key) refl) in
      record {
        flight = new_flight vm w;
        found = there;
        named = ground arith;
        owned = refl;
        running =
            ground (arith, hears-running key (new_flight vm w) (start key vm w).1 after there);
      }

  -- The state of the joining thread after its read of the entry.
  module _ (now : ℕ) (w0 : World) (absent : fresh_of now (find key w0.inner.map) ≡ none)
      (apart : Apart w0.inner w.inner) where
    wait_on-Joined :
        (chain : Chain) (f : Flight)
        → find key w.inner.flights ≡ some f
        → Joined key vm chain now w0 (wait_on key f vm chain w)
    unfolding wait_on on_chain
    wait_on-Joined [] f found =
        waits f none absent (rw (← apart.flights) found) (λ (t, there, path). ground arith) refl
    wait_on-Joined (c ∷ chain) f found =
        let (b, walked, decides) = waits_for_lem key (c ∷ chain) w.inner sound.led.uniq in
        let here' : find key w0.inner.flights ≡ some f = rw (← apart.flights) found in
        elim (Bool-cases b) [
          | inl cycle ↦
              inlines f absent here' (rw apart.flights at (decides.0 cycle))
                (rw (wait_on, walked, cycle) refl)
          | inr free ↦
              waits f (some (c ∷ chain)) absent here'
                (λ cycle. ground (arith, decides.1 (rw apart.flights cycle)))
                (rw (wait_on, walked, free) refl)
        ]

    miss-Joined : (chain : Chain) → Joined key vm chain now w0 (join_of key vm chain none w)
    unfolding join_of
    miss-Joined chain = elim (Option-cases (find key w.inner.flights)) [
      | inl unled ↦
          rw (join_of, unled)
            (leads absent (rw (← apart.flights) unled)
              (unfold start in ground (arith, apart.next_flight))
              (rw (← apart.next_flight) (start-IsStarted unled)))
      | inr (f, found) ↦ rw (join_of, found) (wait_on-Joined chain f found)
    ]

-- A `fetch` that missed goes on in exactly one of four ways: it returns a value that became fresh
-- meanwhile; it leads, under a new id, if nobody leads the key; it waits for the leader, if this
-- cannot close a cycle of waits; or it loads on its own, if it would. The search for a cycle
-- always ends.
pub join-Joined :
    (key : Bytes) (vm : ℕ) (chain : Chain) (now : ℕ) (w : World)
    → IsSound w
    → HasRoom w
    → Joined key vm chain now w (join key vm chain now w)
unfolding join
join-Joined key vm chain now w sound room =
    let l = live-IsSound key now w sound in
    let a = Apart-live key now w.inner in
    let e = live-fresh_of key now w.inner in
    elim (Option-cases (live key now w.inner).0) [
      | inl none' ↦
          rw none'
            (miss-Joined key vm _ l (rw a.next_flight room.flights) now w (rw e at none') a chain)
      | inr (entry, there) ↦ rw there (
          hits entry (rw e at there) refl
            (ground (arith, a.flights, (Apart-touch key (live key now w.inner).1).flights)))
    ]
