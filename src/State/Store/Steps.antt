-- ===== src/State/Store/Steps.antt =====
-- The locked sections of the store as steps of a transition relation, so that a run of many
-- threads is a sequence of steps, and the invariants of every such run.
use lur.Base.{ℕ, ◌≡◌, ◌==◌, Option, none, some, Bool-cases, Option-cases, inl, inr}
use lur.Base.Int.{ℤ, checked_add}
use lur.Float.{of_i64}
use lur.Base.Bytes.{Bytes}
use lur.State.Entry.{Prim, num, Entry, Write, Limits}
use lur.State.Inner.{Inner, live, touch, version, version_of}
use lur.State.Valid.{IsValid}
use lur.State.Valid.Reads.{HasTicks, live-IsValid, touch-IsValid}
use lur.State.Put.{put}
use lur.State.Put.Frame.{SameFrame-live}
use lur.State.Put.Insert.{HasVersions}
use lur.State.Put.Outcome.{put-IsValid}
use lur.State.Put.Apart.{Apart, Apart-refl, Apart-trans, Apart-live, Apart-touch, Apart-put}
use lur.State.Store.{
  get, touched_if, value_of, base_of, incr_add, lookup_of, incr, snapshot, compare_and_set, ttl,
  lookup,
}
use lur.State.Store.Evolves.{
  Evolves, Evolves-refl, Evolves-trans, Evolves-live, Evolves-touch, Evolves-put,
}

-- One locked section of any thread, with its arguments and its time.
pub data Step (limits : Limits) (s s' : Inner) : Type 0 where
  gets : (key : Bytes) (now : ℕ) → s' ≡ (get key now s).1 → Step limits s s'
  sets :
      (key : Bytes) (value : Option Prim) (w : Write) (now : ℕ)
      → s' ≡ (put key value w now limits s).1
      → Step limits s s'
  counts :
      (key : Bytes) (n : ℤ) (w : Write) (now : ℕ)
      → s' ≡ (incr key n w now limits s).1
      → Step limits s s'
  snapshots : (key : Bytes) (now : ℕ) → s' ≡ (snapshot key now s).1 → Step limits s s'
  swaps :
      (key : Bytes) (expected : ℕ) (value : Option Prim) (w : Write) (now : ℕ)
      → s' ≡ (compare_and_set key expected value w now limits s).1
      → Step limits s s'
  asks_ttl : (key : Bytes) (now : ℕ) → s' ≡ (ttl key now s).1 → Step limits s s'
  looks : (key : Bytes) (now : ℕ) → s' ≡ (lookup key now s).1 → Step limits s s'

-- A run, none of whose states has used up the counters of ticks and versions.
pub data Reach (limits : Limits) (s : Inner) : Inner → Type 0 where
  here : Reach limits s s
  next :
      {t u : Inner}
      → Reach limits s t
      → HasTicks t
      → HasVersions t
      → Step limits t u
      → Reach limits s u

-- What every step keeps.
pub record Good (s s' : Inner) : Type 0 where
  pub valid : IsValid s'
  pub evolves : Evolves s s'
  pub apart : Apart s s'

module _ {s : Inner} (v : IsValid s) (ticks : HasTicks s) where
  live-Good : (key : Bytes) (now : ℕ) → Good s (live key now s).1
  live-Good key now = record {
    valid = live-IsValid key now v;
    evolves = Evolves-live key now s;
    apart = Apart-live key now s;
  }

  touch-live-Good : (key : Bytes) (now : ℕ) → Good s (touch key (live key now s).1)
  touch-live-Good key now =
      let f = SameFrame-live now s key in
      record {
        valid = touch-IsValid key (live-IsValid key now v) (rw f.next_tick ticks);
        evolves = Evolves-trans (Evolves-live key now s) (Evolves-touch key (live key now s).1);
        apart = Apart-trans (Apart-live key now s) (Apart-touch key (live key now s).1);
      }

  module _ (versions : HasVersions s) (limits : Limits) where
    put-Good :
        (key : Bytes) (value : Option Prim) (w : Write) (now : ℕ)
        → Good s (put key value w now limits s).1
    put-Good key value w now = record {
      valid = put-IsValid key value w now limits s v ticks versions;
      evolves = Evolves-put key value w now limits s v versions;
      apart = Apart-put key value w now limits s v;
    }

    put-live-Good :
        (key : Bytes) (value : Option Prim) (w : Write) (now : ℕ)
        → Good s (put key value w now limits (live key now s).1).1
    put-live-Good key value w now =
        let f = SameFrame-live now s key in
        let l = live-IsValid key now v in
        let s' = (live key now s).1 in
        let versions' : HasVersions s' = rw f.last_version versions in
        record {
          valid = put-IsValid key value w now limits s' l (rw f.next_tick ticks) versions';
          evolves =
              Evolves-trans (Evolves-live key now s)
                (Evolves-put key value w now limits s' l versions');
          apart = Apart-trans (Apart-live key now s) (Apart-put key value w now limits s' l);
        }

    touched_if-Good :
        (key : Bytes) (now : ℕ) (o : Option Entry) → Good s (touched_if key o (live key now s).1)
    unfolding get
    touched_if-Good key now none = live-Good key now
    touched_if-Good key now (some e) = touch-live-Good key now

    get-Good : (key : Bytes) (now : ℕ) → Good s (get key now s).1
    unfolding get
    get-Good key now = touched_if-Good key now (live key now s).0

    lookup_of-Good :
        (key : Bytes) (now : ℕ) (o : Option Entry)
        → Good s (lookup_of key now o (live key now s).1).1
    unfolding lookup
    lookup_of-Good key now none = live-Good key now
    lookup_of-Good key now (some e) = touch-live-Good key now

    lookup-Good : (key : Bytes) (now : ℕ) → Good s (lookup key now s).1
    unfolding lookup
    lookup-Good key now = lookup_of-Good key now (live key now s).0

    swap-Good :
        (key : Bytes) (expected : ℕ) (value : Option Prim) (w : Write) (now : ℕ)
        → Good s (compare_and_set key expected value w now limits s).1
    unfolding compare_and_set version
    swap-Good key expected value w now =
        elim (Bool-cases (version_of (live key now s).0 == expected)) [
          | inl same ↦ rw same (put-live-Good key value w now)
          | inr other ↦ rw other (live-Good key now)
        ]

    incr_add-Good :
        (key : Bytes) (base : Option ℤ) (n : ℤ) (w : Write) (now : ℕ)
        → Good s (incr_add key base n w now limits (live key now s).1).1
    unfolding incr
    incr_add-Good key none n w now = live-Good key now
    incr_add-Good key (some base) n w now = elim (Option-cases (checked_add base n)) [
      | inl no' ↦ rw (no', incr_add) (live-Good key now)
      | inr (new, sum) ↦ rw (sum, incr_add) (put-live-Good key (some (num (of_i64 new))) w now)
    ]

    incr-Good : (key : Bytes) (n : ℤ) (w : Write) (now : ℕ) → Good s (incr key n w now limits s).1
    unfolding incr
    incr-Good key n w now = incr_add-Good key (base_of (value_of (live key now s).0)) n w now

    pub Step-Good : {s' : Inner} → Step limits s s' → Good s s'
    unfolding snapshot ttl
    Step-Good (gets key now e) = rw e (get-Good key now)
    Step-Good (sets key value w now e) = rw e (put-Good key value w now)
    Step-Good (counts key n w now e) = rw e (incr-Good key n w now)
    Step-Good (snapshots key now e) = rw e (live-Good key now)
    Step-Good (swaps key expected value w now e) = rw e (swap-Good key expected value w now)
    Step-Good (asks_ttl key now e) = rw e (live-Good key now)
    Step-Good (looks key now e) = rw e (lookup-Good key now)

Reach-Good : {limits : Limits} {s s' : Inner} → IsValid s → Reach limits s s' → Good s s'
Reach-Good {s = s} v here = record { valid = v; evolves = Evolves-refl s; apart = Apart-refl s }
Reach-Good {limits} v (next {t} {u} r ticks versions step) =
    let g = Reach-Good v r in
    let h = Step-Good g.valid ticks versions limits step in
    record {
      valid = h.valid;
      evolves = Evolves-trans g.evolves h.evolves;
      apart = Apart-trans g.apart h.apart;
    }

pub Reach-IsValid : {limits : Limits} {s s' : Inner} → IsValid s → Reach limits s s' → IsValid s'
Reach-IsValid v r = (Reach-Good v r).valid

pub Reach-Evolves : {limits : Limits} {s s' : Inner} → IsValid s → Reach limits s s' → Evolves s s'
Reach-Evolves v r = (Reach-Good v r).evolves
