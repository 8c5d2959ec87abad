-- ===== src/Flights/Fetch.antt =====
-- What a `fetch` returns once its loader has ended, and what its waiters return: `load` and `share`
-- (src/capabilities/state.rs). The counts of hits and misses are left out.
pub mod Agree
use lur.Base.{ℕ, Bool, true, false, Option, none, some, if◌then◌else◌}
use lur.Base.Bytes.{Bytes, codes}
use lur.Float.{F64, of_i64}
use lur.Base.Int.{ℤ}
use lur.State.Entry.{Prim, boolean, num, str, Write, Limits}
use lur.State.Store.{Lookup, fresh, stale, missing, lookup, compare_and_set}
use lur.Flights.{World, Shared, value, raised, rejected, finish, drop_lead}

-- The values of Lua that the store tells apart.
pub data LuaValue : Type 0 where
  nil : LuaValue
  truth : Bool → LuaValue
  integer : ℤ → LuaValue
  number : F64 → LuaValue
  text : Bytes → LuaValue
  other : LuaValue

pub data Primitive : Type 0 where
  prim : Option Prim → Primitive
  no_prim : Primitive

-- `from_lua`
unfoldable pub from_lua : LuaValue → Primitive
from_lua nil = prim none
from_lua (truth b) = prim (some (boolean b))
from_lua (integer i) = prim (some (num (of_i64 i)))
from_lua (number x) = prim (some (num x))
from_lua (text s) = prim (some (str s))
from_lua other = no_prim

pub data Tag : Type 0 where
  hit miss stale_hit : Tag

pub data Fetched : Type 0 where
  returned : LuaValue → Tag → Fetched
  raises : Bytes → Fetched

-- `to_lua`
unfoldable pub to_lua : Option Prim → LuaValue
to_lua none = nil
to_lua (some (boolean b)) = truth b
to_lua (some (num x)) = number x
to_lua (some (str s)) = text s

looked : Bytes → Lookup → Fetched
looked e (fresh p) = returned (to_lua (some p)) hit
looked e (stale p) = returned (to_lua (some p)) stale_hit
looked e missing = raises e

-- `fallback`
unfoldable pub fallback : Bytes → Bytes → ℕ → World → Fetched × World
unfolding looked
fallback key e now w =
    let (found, s) = lookup key now w.inner in (looked e found, record w { inner = s })

-- `share`
unfoldable pub share : Bytes → Shared → ℕ → World → Fetched × World
share key (value p) now w = (returned (to_lua p) hit, w)
share key (raised e) now w = fallback key e now w
share key (rejected e) now w = (raises e, w)

-- The message of `from_lua` for a value that the store does not take.
pub not_storable : Bytes
not_storable =
    codes "lur.state stores only nil/boolean/number/string (lur.json.encode tables yourself)"

cached : Bytes → Option Prim → Write → ℕ → Limits → World → World
cached key none opts now limits w = w
cached key (some p) opts now limits w = record w {
  inner = (compare_and_set key 0 (some p) opts now limits w.inner).1;
}

published : Bytes → Option ℕ → LuaValue → Primitive → Write → ℕ → Limits → World → Fetched × World
published key (some id) v no_prim opts now limits w =
    (raises not_storable, finish key id (rejected not_storable) opts now limits w)
published key none v no_prim opts now limits w = (raises not_storable, w)
published key (some id) v (prim p) opts now limits w =
    (returned v miss, finish key id (value p) opts now limits w)
published key none v (prim p) opts now limits w = (returned v miss, cached key p opts now limits w)

-- `publish_loaded`, with the result of `load`; the guard is known by its id.
unfoldable pub publish_loaded :
    Bytes → Option ℕ → LuaValue → Write → ℕ → Limits → World → Fetched × World
unfolding published cached
publish_loaded key guard v opts now limits w = published key guard v (from_lua v) opts now limits w

-- How a loader ends: with a value, or with an error, as text, after the deadline of its own
-- machine or before it.
pub data LoaderEnd : Type 0 where
  gives : LuaValue → LoaderEnd
  fails : Bytes → Bool → LoaderEnd

failed : Bytes → Option ℕ → Bytes → Bool → Write → ℕ → Limits → World → Fetched × World
failed key none e late opts now limits w = fallback key e now w
failed key (some id) e true opts now limits w = (raises e, drop_lead key id w)
failed key (some id) e false opts now limits w =
    fallback key e now (finish key id (raised e) opts now limits w)

-- `load`, with `publish_failure`, after the loader has run. An error of memory is shared as text,
-- as every error is here. The lock is free between `finish` and the look-up of `fallback`, and a
-- thread that takes it there changes what the look-up finds; here they stand at one time, next to
-- each other.
unfoldable pub load : Bytes → Option ℕ → LoaderEnd → Write → ℕ → Limits → World → Fetched × World
unfolding failed
load key guard (gives v) opts now limits w = publish_loaded key guard v opts now limits w
load key guard (fails e late) opts now limits w = failed key guard e late opts now limits w
