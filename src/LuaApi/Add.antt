-- ===== src/LuaApi/Add.antt =====
-- `lur.state.add` among the writes of other threads (src/capabilities/state.rs).
use lur.Base.{ℕ, ◌≡◌, refl, Option, none, some, true, false}
use lur.Base.Bytes.{Bytes}
use lur.State.Entry.{Prim, Write, Limits}
use lur.State.Inner.{Inner}
use lur.State.Put.{Result, full, panic}
use lur.State.Valid.{IsValid}
use lur.State.Store.{snapshot, cas_value, same_value}
use lur.State.Store.Steps.{Reach}
use lur.State.Store.Atomic.{Replaces, cas_atomic}
use lur.State.Options.{Valid, OptArg, clears, write_opts}
use lur.Flights.Fetch.{LuaValue, prim, from_lua}
use lur.LuaApi.{returns, full_err, add_fn}

full_err-returns :
    {A : Type 0} (r : Result A × Inner) (a : A) {s : Inner}
    → full_err r ≡ (returns a, s)
    → r ≡ (Result.ok a, s)
full_err-returns (Result.ok b, t) a h = cc
full_err-returns (Result.err full, t) a h = cc
full_err-returns (Result.err panic, t) a h = cc

same_value-none : (old : Option Prim) → same_value old none ≡ true → old ≡ none
unfolding same_value
same_value-none none h = refl
same_value-none (some p) h = cc

-- `add` never replaces a value: if it reports success, then in the store that its write finds, the
-- one that other threads have left by then, a read of the key at the time of the write sees no value,
-- although the lock was free between its look at the key and the write; and the store afterwards is
-- that of a plain write there of the value of the call with its options. The store has to be well
-- formed, and other threads change it by its operations and use up neither ticks nor versions.
pub add_fn-Replaces :
    (limits : Limits) (key : Bytes) (v : LuaValue) (p : Option Prim) (opts : OptArg) (w : Write)
    (now now' : ℕ) (between : Inner → Inner) (s : Inner) {s' : Inner}
    → IsValid s
    → write_opts opts clears false ≡ Valid.ok w
    → from_lua v ≡ prim p
    → Reach limits (snapshot key now s).1 (between (snapshot key now s).1)
    → add_fn key v opts now between now' limits s ≡ (returns true, s')
    → Replaces limits key w now' (between (snapshot key now s).1) none p s'
unfolding add_fn
add_fn-Replaces limits key v p opts w now now' between s valid o f reach h =
    let swapped = cas_value key none p w now between now' limits s in
    let (old, same, r) =
      cas_atomic limits key none p w now now' between s valid reach
        (full_err-returns swapped true (rw (o, f) at h)) in
    rw (same_value-none old same) at r
