-- ===== src/Flights/Fetch/Agree.antt =====
-- The leader of a fetch and its waiters (src/capabilities/state.rs).
use lur.Base.{ℕ, ◌≡◌, ◌∙◌, refl, inl, inr, Option, Option-cases, some, true, false, arith}
use lur.Base.Bytes.{Bytes, bytes_eq_refl}
use lur.Base.Dict.{find}
use lur.State.Entry.{Prim, Write, Limits}
use lur.State.Inner.{Inner, Flight, live}
use lur.State.Put.Apart.{Apart, Apart-trans, Apart-live, Apart-touch}
use lur.State.Store.{lookup}
use lur.Flights.{World, Shared, value, raised, rejected, finish, drop_lead, hears, outcome, closed}
use lur.Flights.Sound.{IsSound, HasRoom}
use lur.Flights.Hears.{hears-finish, hears-drop_lead}
use lur.Flights.Fetch.{
  LuaValue, Primitive, prim, no_prim, from_lua, Fetched, returned, raises, miss, fallback,
  not_storable, published, publish_loaded, LoaderEnd, gives, fails, failed, load,
}

-- Looking up an entry leaves the flights alone.
Apart-lookup : (key : Bytes) (now : ℕ) (s : Inner) → Apart s (lookup key now s).1
unfolding lookup
Apart-lookup key now s = elim (Option-cases (live key now s).0) [
  | inl none' ↦ rw none' (Apart-live key now s)
  | inr (e, some') ↦
      rw some' (Apart-trans (Apart-live key now s) (Apart-touch key (live key now s).1))
]

-- What is heard depends on the table of flights and the channels only.
hears-inner :
    (id : ℕ) (w : World) (s : Inner)
    → s.flights ≡ w.inner.flights
    → hears id (record w { inner = s }) ≡ hears id w
unfolding hears
hears-inner id w s e = ground arith

hears-fallback :
    (id : ℕ) (key e : Bytes) (now : ℕ) (w : World) → hears id (fallback key e now w).1 ≡ hears id w
unfolding fallback
hears-fallback id key e now w =
    hears-inner id w (lookup key now w.inner).1 (Apart-lookup key now w.inner).flights

-- How a leader's call ends, and what its waiters hear then: a value that the store takes, which
-- they return too; a refusal of the value, which they raise too; an error of the loader, after which
-- the leader and every waiter fall back on what the store holds; or, once the leader's own time is
-- up, a closed channel, so that they take over.
pub data LeaderEnd (key : Bytes) (id now : ℕ) (end : LoaderEnd) (r : Fetched × World) : Type 0 where
  same :
      (v : LuaValue) (p : Option Prim)
      → end ≡ gives v
      → from_lua v ≡ prim p
      → r.0 ≡ returned v miss
      → hears id r.1 ≡ outcome (value p)
      → LeaderEnd key id now end r
  refused :
      (v : LuaValue)
      → end ≡ gives v
      → from_lua v ≡ no_prim
      → r.0 ≡ raises not_storable
      → hears id r.1 ≡ outcome (rejected not_storable)
      → LeaderEnd key id now end r
  fell_back :
      (e : Bytes) (u : World)
      → end ≡ fails e false
      → r ≡ fallback key e now u
      → hears id r.1 ≡ outcome (raised e)
      → LeaderEnd key id now end r
  too_late :
      (e : Bytes)
      → end ≡ fails e true
      → r.0 ≡ raises e
      → hears id r.1 ≡ closed
      → LeaderEnd key id now end r

module _ (key : Bytes) (opts : Write) (now : ℕ) (limits : Limits) (w : World) (f : Flight)
    (sound : IsSound w) (room : HasRoom w) (found : find key w.inner.flights ≡ some f) where
  finished : (o : Shared) → hears f.id (finish key f.id o opts now limits w) ≡ outcome o
  finished o =
      ground
        (arith, hears-finish key f.id o opts now limits w key f sound room found, bytes_eq_refl key)

  dropped : hears f.id (drop_lead key f.id w) ≡ closed
  dropped = ground (arith, hears-drop_lead key f.id w key f sound found, bytes_eq_refl key)

  published-LeaderEnd :
      (v : LuaValue) (p : Primitive)
      → from_lua v ≡ p
      → LeaderEnd key f.id now (gives v) (published key (some f.id) v p opts now limits w)
  unfolding published
  published-LeaderEnd v (prim p) h = same v p refl h refl (finished (value p))
  published-LeaderEnd v no_prim h = refused v refl h refl (finished (rejected not_storable))

  load_end :
      (end : LoaderEnd) → LeaderEnd key f.id now end (load key (some f.id) end opts now limits w)
  unfolding load publish_loaded failed
  load_end (gives v) = published-LeaderEnd v (from_lua v) refl
  load_end (fails e true) = too_late e refl refl dropped
  load_end (fails e false) = fell_back e (finish key f.id (raised e) opts now limits w) refl refl (
      hears-fallback f.id key e now (finish key f.id (raised e) opts now limits w)
      ∙ finished (raised e))

-- However the loader of a leader ends, the waiters of its flight hear of it: they get the value
-- that the leader returns, the refusal or the error that it raises or falls back from, or the
-- closed channel that hands leadership to one of them. None goes on waiting.
pub load-LeaderEnd :
    (key : Bytes) (end : LoaderEnd) (opts : Write) (now : ℕ) (limits : Limits) (w : World)
    (f : Flight)
    → IsSound w
    → HasRoom w
    → find key w.inner.flights ≡ some f
    → LeaderEnd key f.id now end (load key (some f.id) end opts now limits w)
load-LeaderEnd key end opts now limits w f sound room found =
    load_end key opts now limits w f sound room found end
