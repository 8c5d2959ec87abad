-- ===== src/LuaApi/Tests.antt =====
-- A call of `add`, and the theorem about `add` at it.
use lur.Base.{refl, none, some, false, [], ◌∷◌}
use lur.Base.Bytes.{Bytes, codes}
use lur.Base.Dict.{find, keys_where}
use lur.State.Entry.{Prim, str, prim_size, clear, Write, Limits, allows}
use lur.State.Inner.{Inner, empty, live, drop_dead, remove_all, version}
use lur.State.Put.{put, put_value, cost, make_room, over, write_meta, sweep}
use lur.State.Valid.{empty-IsValid}
use lur.State.Store.{snapshot, compare_and_set, cas_value, same_value}
use lur.State.Store.Steps.{here}
use lur.State.Store.Atomic.{Replaces}
use lur.State.Options.{missing, initial, opts_table, write_opts}
use lur.Flights.Fetch.{text, from_lua}
use lur.LuaApi.{add_fn}
use lur.LuaApi.Add.{add_fn-Replaces}

abbrev limits : Limits
limits = record { max_entries = 3; max_bytes = 1_000 }

abbrev options : Write
options = record { expiry = clear; evictable = some false; stale_ms = none }

abbrev key : Bytes
key = 1 ∷ []

abbrev value : Prim
value = str (codes "a")

abbrev added : Inner
added = (compare_and_set key 0 (some value) options 7 limits empty).1

add_fn-Replaces_example : Replaces limits key options 7 empty none (some value) added
unfolding add_fn cas_value snapshot compare_and_set same_value version live find write_opts
    opts_table initial from_lua drop_dead put put_value cost prim_size make_room over allows
    write_meta sweep remove_all keys_where
add_fn-Replaces_example =
    add_fn-Replaces limits key (text (codes "a")) (some value) missing options 6 7 (λ s. s) empty
      empty-IsValid refl refl here refl
