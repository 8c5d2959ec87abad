-- ===== src/Lib.antt =====
-- Verification of lur, a runtime for Lua scripts with capabilities.
--
-- The program (src/ of the repository) gives Lua scripts a set of capabilities. Every VM of a process
-- shares one state store (`lur.state`, src/capabilities/state.rs): a map from keys to primitive
-- values behind a mutex, with limits on entries and bytes, expiry, stale values, versions and
-- counters. This development models
--
--   Base    names of the library, Boolean tests, integers, byte strings, dictionaries (`HashMap`)
--           and the recency index (`BTreeMap`);
--   Float   the `f64` as far as the code looks at one (src/capabilities/argcheck.rs);
--   State   src/capabilities/state.rs:
--           State/Entry   `Prim`, `Entry`, `Freshness`, `Write`, `Limits`, `add_ms`;
--           State/Inner   `Inner` and its `stamp`, `remove`, `drop_dead`, `drop_expired`, `live`,
--                         `touch` and `version`;
--           State/Put     `Inner::put` and what it calls;
--           State/Valid   the well-formedness of the store;
--           State/Store   `StateStore`: `get`, `set` (which is `put`), `incr`, `snapshot`,
--                         `compare_and_set`, `cas_value`, `ttl`, `lookup`; the loop of `update_fn`
--                         as the relation `UpdateRun`;
--           State/Options `ms_field`, `bool_field`, `write_opts`, `counter_fn`;
--   LuaApi  `get_fn`, `set_fn`, `cas_fn`, `add_fn` and `ttl_fn` of src/capabilities/state.rs;
--   Flights single-flight loading, also src/capabilities/state.rs: the flights of the store, the
--           `VmLeads` of every VM and what was sent on the channels make a `World`; `join`,
--           `LeadGuard::finish` and its drop, `end_flights`, `resumed`, `end_run`, `waits_for`,
--           `edge` and `leading`; Flights/Sound the well-formedness of the whole and
--           Flights/Run the steps of all threads on it,
--           Flights/Fetch what `load` and `share` do once a loader has ended;
--   HttpCache the cache of the HTTP client (src/capabilities/http.rs): `CacheInner`, `HttpCache`;
--   Policy  src/policy.rs: Policy/Address the deny set of private addresses, Policy/Paths the gate
--           on paths and the handles it opens, and the matching of environment names and hosts;
--   Units   src/units.rs: sizes and durations on the command line;
--   Cookie  src/capabilities/cookie.rs: `cookie_pairs`, `serialize` and its attributes;
--   Storage src/capabilities/storage/mod.rs: `PurgeClock`;
--   Serve   src/serve.rs: Serve/Router `parse_pattern`, `overlaps`, `match_pattern`, `more_specific`
--           and `Router`;
--   Validate src/capabilities/validate.rs: Validate/Schema `Node` and the constructors, Validate/Scalar the
--           checks of texts and numbers, Validate/Check `check` and `try`, Validate/Message
--           `validator_message`; Validate/Conforms says what a value has to be,
--           Validate/Schema/Accepts what a schema has to be;
--   Text    src/capabilities/text.rs: `Builder`, `Matcher::lookup`, in Text/Replace `Matcher::replace`
--           and in Text/Keyed `keyed_matcher` and `live_matcher`;
--           Text/Spec says which pair wins at a position and Text/Replace/Rewrites what the pass over a
--           text is to do.
--
-- The components meet in few places. `Flights` acts on the `Inner` of `State` and uses its
-- operations; every other part of the program reaches the store through the methods of
-- `StateStore`. `HttpCache` shares with `State` the clock and the counters, and no state.
--
-- How the model stands to the code. A method that takes the lock is a function from the state to its
-- result and the new state; the call of `Instant::now` in it is an argument. A run of several threads
-- is a sequence of such locked sections (`Reach`). An `Instant` is a number of nanoseconds, at most
-- the largest that Linux's `Instant` holds. A `HashMap` is an association list, since the code never
-- relies on the order of its iteration; a `BTreeMap` is a list in ascending order. Byte strings are
-- lists of numbers. The `u64` counters of ticks and versions wrap around, and the theorems that need
-- fresh numbers say that the counter is below its last value; sizes are sums of lengths in memory and
-- stand as plain numbers. The index of a map at a missing key is the error `panic`. `cas_value` locks
-- twice, so it takes what other threads do between. Loops are recursions on the list they
-- walk. Four take fuel: the scale of a rounding, for which 11 steps cover an `i64`, the
-- digits of an `i64`, of which there are at most 19, and the loop of `waits_for`, which follows every
-- edge of the wait graph at most once, so that the number of edges and two more steps are enough, and the
-- pass of `replace`, which goes on by a byte or comes from a match that was not empty, so that twice the
-- length of the text and three more steps are enough.
-- A `watch` channel is known by the id of its flight. A receiver sees the outcome that was sent; else
-- nothing while the flight is in the table, and a closed channel once it has left.
-- An `f64` is a whole number, the negative zero, a number with a fraction (known by its bits), an
-- infinity or NaN: the code compares them and converts whole ones only.
--
-- A validation reaches Lua through two functions that are its arguments: `string.find`, and the call of
-- a validator function. A table is what `pairs` iterates over and the length that `raw_len` returns. A
-- path and a message of an issue are kept as what their texts are made of. The release build wraps
-- `i64::abs` around. `Router` takes the percent decoding of a segment as an argument.
--
-- The answers of `interrupted` to the polls of `replace` are an argument. The children of a node are
-- looked up in the order of their bytes, as the binary search finds them.
--
-- Threads that share a `PurgeClock` take turns at its exchange, and each may have loaded any time.
--
-- What `std::fs::canonicalize` says is an argument of the policy's functions, and a path is the list of
-- its components. Host names reach `allows_net` in lower case, with their parsed address.
--
-- Not modelled: the Lua VM, the async runtime, network, databases and files, which belong to other
-- crates, and the parts of the program that are glue around them.
pub mod Base
pub mod Float
pub mod State
pub mod Flights
pub mod HttpCache
pub mod Policy
pub mod Units
pub mod Cookie
pub mod LuaApi
pub mod Serve
pub mod Storage
pub mod Text
pub mod Validate
