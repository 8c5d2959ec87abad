-- ===== src/LuaApi.antt =====
-- The functions of `lur.state` that write a value and the one that reads a time to live, from their
-- arguments to the store (src/capabilities/state.rs). The key is a string already, and the call
-- does not come from inside an `update`.
mod Add
mod Tests
use lur.Base.{ℕ, Bool, true, false, Option, none, some, if◌then◌else◌}
use lur.Base.Int.{ℤ}
use lur.Base.Bytes.{Bytes}
use lur.State.Entry.{Prim, Write, Limits}
use lur.State.Inner.{Inner}
use lur.State.Put.{Result, full, panic, put}
use lur.State.Store.{Ttl, absent, unlimited, expiring, get, cas_value, ttl}
use lur.State.Options.{Valid, OptError, OptArg, clears, keeps, write_opts}
use lur.Flights.Fetch.{LuaValue, nil, integer, Primitive, prim, no_prim, from_lua, to_lua}

pub data LuaError : Type 0 where
  bad_opts : OptError → LuaError
  not_primitive state_full : LuaError

pub data Returned {ℓ} (A : Type ℓ) : Type ℓ where
  returns : A → Returned A
  raises : LuaError → Returned A
  panics : Returned A

-- `map_err(|Full| full_err(fname))`
abbrev pub full_err : {A : Type 0} → Result A × Inner → Returned A × Inner
full_err (Result.ok a, s) = (returns a, s)
full_err (Result.err full, s) = (raises state_full, s)
full_err (Result.err panic, s) = (panics, s)

abbrev pub with_opts :
    {A : Type 0} → Valid Write → Inner → (Write → Returned A × Inner) → Returned A × Inner
with_opts (Valid.ok w) s f = f w
with_opts (Valid.err e) s f = (raises (bad_opts e), s)

abbrev pub with_prim :
    {A : Type 0} → Primitive → Inner → (Option Prim → Returned A × Inner) → Returned A × Inner
with_prim (prim p) s f = f p
with_prim no_prim s f = (raises not_primitive, s)

shown : Ttl → LuaValue × Bool
shown absent = (nil, false)
shown unlimited = (nil, true)
shown (expiring ms) = (integer ms, true)

-- `get_fn`, the counts of hits and misses left out
unfoldable pub get_fn : Bytes → ℕ → Inner → LuaValue × Inner
get_fn key now s = let (found, s') = get key now s in (to_lua found, s')

-- `ttl_fn`
unfoldable pub ttl_fn : Bytes → ℕ → Inner → (LuaValue × Bool) × Inner
unfolding shown
ttl_fn key now s = let (t, s') = ttl key now s in (shown t, s')

-- `set_fn`
unfoldable pub set_fn : Bytes → LuaValue → OptArg → ℕ → Limits → Inner → Returned (Unit {0}) × Inner
set_fn key value opts now limits s =
    with_opts (write_opts opts clears false) s
      (λ w. with_prim (from_lua value) s (λ p. full_err (put key p w now limits s)))

-- `cas_fn`; `between` is what other threads do between the two locked sections of `cas_value`.
unfoldable pub cas_fn :
    Bytes
    → LuaValue
    → LuaValue
    → OptArg
    → ℕ
    → (Inner → Inner)
    → ℕ
    → Limits
    → Inner
    → Returned Bool × Inner
cas_fn key expected new opts now between now' limits s =
    with_opts (write_opts opts keeps false) s (λ w. with_prim (from_lua expected) s (λ e.
      with_prim (from_lua new) s (λ p. full_err (cas_value key e p w now between now' limits s))))

-- `add_fn`
unfoldable pub add_fn :
    Bytes → LuaValue → OptArg → ℕ → (Inner → Inner) → ℕ → Limits → Inner → Returned Bool × Inner
add_fn key value opts now between now' limits s = with_opts (write_opts opts clears false) s (λ w.
    with_prim (from_lua value) s (λ p. full_err (cas_value key none p w now between now' limits s)))
