-- ===== src/State/Tests.antt =====
-- A small store and the theorems about the store at it.
use lur.Base.{ℕ, ◌+◌, ◌≡◌, ◌<◌, refl, true, Option, none, some, [], ◌∷◌, arith}
use lur.Base.Int.{ℤ, pos, checked_add}
use lur.Base.Bytes.{codes, bytes_eq}
use lur.Base.Dict.{find, size}
use lur.Float.{whole, of_i64}
use lur.Base.Int.{◌+ℤ◌}
use lur.Float.{f64_eq, round_53}
use lur.State.Entry.{prim_eq, instant_max}
use lur.State.Inner.{version}
use lur.State.Store.{IncrResult}
use lur.Base.Int.{cast_unsigned}
use lur.Base.Dict.{insert, erase, keys_where}
use lur.Base.Ticks.{insert_tick, erase_tick}
use lur.State.Entry.{prim_size, instant_add, add_ms}
use lur.State.Inner.{drop_dead, drop_expired, remove_all, remove}
use lur.State.Put.{
  put_value, make_room, over, write_meta, sweep, insert_fresh, plan_evictions, plan_loop, evict,
  entries_with,
}
use lur.State.Entry.{Prim, num, str, Write, Limits, clear, after, after_if_unset, allows, freshness}
use lur.State.Inner.{Inner, empty, live}
use lur.State.Valid.{IsValid, empty-IsValid}
use lur.State.Put.{put, cost, meta_of}
use lur.State.Put.Insert.{stored_entry}
use lur.State.Put.Outcome.{put-IsValid, put-allows}
use lur.State.Put.Safety.{put-keeps_unevictable, put_full-keeps_fresh, put-find, put-evicts_oldest}
use lur.State.Store.{
  snapshot, compare_and_set, cas_value, incr, ttl, expiring, base_of, value_of, same_value,
}
use lur.State.Store.Steps.{sets, Reach, here, next}
use lur.State.Store.Atomic.{seen, Replaces, cas_atomic}
use lur.State.Store.Counter.{incr-find}
use lur.State.Store.Expiring.{ttl-put}

abbrev plain : Write
plain = record { expiry = clear; evictable = none; stale_ms = none }

abbrev cached : Write
cached = record { expiry = clear; evictable = some true; stale_ms = none }

abbrev window : Write
window = record { expiry = after_if_unset (pos 1_000); evictable = none; stale_ms = none }

abbrev brief : Write
brief = record { expiry = after (pos 1_000); evictable = none; stale_ms = none }

-- Room for three entries.
abbrev limits : Limits
limits = record { max_entries = 3; max_bytes = 1_000 }

abbrev write : ℕ → Write → Inner → Inner
write k w s = (put (k ∷ []) (some (num (whole (pos k)))) w 5 limits s).1

-- One kept entry, then two that may be evicted.
abbrev one : Inner
one = write 1 plain empty

abbrev two : Inner
two = write 2 cached one

abbrev three : Inner
three = write 3 cached two

one-IsValid : IsValid one
one-IsValid =
    put-IsValid (1 ∷ []) (some (num (whole (pos 1)))) plain 5 limits empty empty-IsValid
      (omega arith) (omega arith)

two-IsValid : IsValid two
unfolding put put_value cost prim_size make_room over allows write_meta live find sweep drop_dead
    remove_all keys_where insert_fresh meta_of remove plan_evictions plan_loop bytes_eq evict
    drop_expired freshness add_ms instant_add cast_unsigned entries_with insert_tick erase_tick
    insert erase
two-IsValid =
    put-IsValid (2 ∷ []) (some (num (whole (pos 2)))) cached 5 limits one one-IsValid (omega arith)
      (omega arith)

three-IsValid : IsValid three
unfolding put put_value cost prim_size make_room over allows write_meta live find sweep drop_dead
    remove_all keys_where insert_fresh meta_of remove plan_evictions plan_loop bytes_eq evict
    drop_expired freshness add_ms instant_add cast_unsigned entries_with insert_tick erase_tick
    insert erase
three-IsValid =
    put-IsValid (3 ∷ []) (some (num (whole (pos 3)))) cached 5 limits two two-IsValid (omega arith)
      (omega arith)

put-IsValid_example : IsValid (put (4 ∷ []) (some (str (codes "abc"))) cached 7 limits three).1
unfolding put put_value cost prim_size make_room over allows write_meta live find sweep drop_dead
    remove_all keys_where insert_fresh meta_of remove plan_evictions plan_loop bytes_eq evict
    drop_expired freshness add_ms instant_add cast_unsigned entries_with insert_tick erase_tick
    insert erase
put-IsValid_example =
    put-IsValid (4 ∷ []) (some (str (codes "abc"))) cached 7 limits three three-IsValid
      (omega arith) (omega arith)

-- The fourth entry does not fit: the second one, the oldest that may be evicted, leaves.
put-allows_example :
    allows limits (size (write 4 cached three).map) (write 4 cached three).bytes ≡ true
unfolding put put_value cost prim_size make_room over allows write_meta live find sweep drop_dead
    remove_all keys_where insert_fresh meta_of remove plan_evictions plan_loop bytes_eq evict
    drop_expired freshness add_ms instant_add cast_unsigned entries_with insert_tick erase_tick
    insert erase
put-allows_example =
    put-allows (4 ∷ []) (num (whole (pos 4))) cached 5 limits three three-IsValid refl

put-keeps_unevictable_example :
    find (1 ∷ []) (put (4 ∷ []) (some (num (whole (pos 4)))) cached 5 limits three).1.map
    ≡ some (stored_entry (num (whole (pos 1))) (meta_of plain none 5) 73 empty)
unfolding put put_value cost prim_size make_room over allows write_meta live find sweep drop_dead
    remove_all keys_where insert_fresh meta_of remove plan_evictions plan_loop bytes_eq evict
    drop_expired freshness add_ms instant_add cast_unsigned entries_with insert_tick erase_tick
    insert erase
put-keeps_unevictable_example =
    put-keeps_unevictable (4 ∷ []) (some (num (whole (pos 4)))) cached 5 limits three (1 ∷ []) _
      three-IsValid refl refl refl refl

-- Too large for the limit on bytes.
abbrev tight : Limits
tight = record { max_entries = 3; max_bytes = 70 }

put_full-keeps_fresh_example :
    find (3 ∷ []) (put (3 ∷ []) (some (str (codes "abcdefgh"))) cached 7 tight three).1.map
    ≡ find (3 ∷ []) three.map
unfolding put put_value cost prim_size make_room over allows write_meta live find sweep drop_dead
    remove_all keys_where insert_fresh meta_of remove plan_evictions plan_loop bytes_eq evict
    drop_expired freshness add_ms instant_add cast_unsigned entries_with insert_tick erase_tick
    insert erase
put_full-keeps_fresh_example =
    put_full-keeps_fresh (3 ∷ []) (some (str (codes "abcdefgh"))) cached 7 tight three (3 ∷ []) _
      three-IsValid refl refl refl

put-find_example :
    find (4 ∷ []) (write 4 cached three).map
    ≡ some (stored_entry (num (whole (pos 4))) (meta_of cached none 5) 73 three)
unfolding put put_value cost prim_size make_room over allows write_meta live find sweep drop_dead
    remove_all keys_where insert_fresh meta_of remove plan_evictions plan_loop bytes_eq evict
    drop_expired freshness add_ms instant_add cast_unsigned entries_with insert_tick erase_tick
    insert erase
put-find_example = put-find (4 ∷ []) (num (whole (pos 4))) cached 5 limits three three-IsValid refl

put-evicts_oldest_example : 1 < 2
unfolding put put_value cost prim_size make_room over allows write_meta live find sweep drop_dead
    remove_all keys_where insert_fresh meta_of remove plan_evictions plan_loop bytes_eq evict
    drop_expired freshness add_ms instant_add cast_unsigned entries_with insert_tick erase_tick
    insert erase
put-evicts_oldest_example =
    put-evicts_oldest (4 ∷ []) (num (whole (pos 4))) cached 5 limits three (2 ∷ []) (3 ∷ []) _ _
      three-IsValid refl refl refl refl refl refl refl refl

-- Another thread writes key 2 twice after key 1 was read.
run : Reach limits one two
unfolding put put_value cost prim_size make_room over allows write_meta live find sweep drop_dead
    remove_all keys_where insert_fresh meta_of remove plan_evictions plan_loop bytes_eq evict
    drop_expired freshness add_ms instant_add cast_unsigned entries_with insert_tick erase_tick
    insert erase
run =
    next here (omega arith) (omega arith) (sets (2 ∷ []) (some (num (whole (pos 2)))) cached 5 refl)

-- A round of `update` on key 1, during which the other thread writes key 2.
abbrev doubled : Option Prim → Option (Option Prim)
doubled (some (num (whole (pos n)))) = some (some (num (whole (pos (n + n)))))
doubled _ = none

abbrev updated : Inner
updated = (compare_and_set (1 ∷ []) 1 (some (num (whole (pos 2)))) plain 7 limits two).1

cas_atomic_example :
    (old : Option Prim) × (same_value old (some (num (whole (pos 1)))) ≡ true)
    × Replaces limits (1 ∷ []) plain 7 two old (some (num (whole (pos 2)))) updated
unfolding put put_value cost prim_size make_room over allows write_meta live find sweep drop_dead
    remove_all keys_where insert_fresh meta_of remove plan_evictions plan_loop bytes_eq evict
    drop_expired freshness add_ms instant_add cast_unsigned entries_with insert_tick erase_tick
    insert erase snapshot compare_and_set version cas_value same_value prim_eq f64_eq
cas_atomic_example =
    cas_atomic limits (1 ∷ []) (some (num (whole (pos 1)))) (some (num (whole (pos 2)))) plain 6 7
      (λ _. two) one one-IsValid run refl

abbrev bump : Inner → IncrResult × Inner
bump s = incr (9 ∷ []) (pos 1) window 5 limits s

incr-find_example :
    (b : ℤ) × (base_of (value_of (seen (9 ∷ []) 5 one)) ≡ some b)
    × (checked_add b (pos 1) ≡ some (pos 1))
    × (find (9 ∷ []) (bump one).1.map
        ≡ some (stored_entry (num (whole (pos 1))) (meta_of window none 5) 73 one))
unfolding put put_value cost prim_size make_room over allows write_meta live find sweep drop_dead
    remove_all keys_where insert_fresh meta_of remove plan_evictions plan_loop bytes_eq evict
    drop_expired freshness add_ms instant_add cast_unsigned entries_with insert_tick erase_tick
    insert erase incr base_of checked_add ◌+ℤ◌ of_i64 round_53
incr-find_example = incr-find (9 ∷ []) (pos 1) window 5 limits one {c = pos 1} one-IsValid refl

bumped-IsValid : IsValid (bump one).1
unfolding put put_value cost prim_size make_room over allows write_meta live find sweep drop_dead
    remove_all keys_where insert_fresh meta_of remove plan_evictions plan_loop bytes_eq evict
    drop_expired freshness add_ms instant_add cast_unsigned entries_with insert_tick erase_tick
    insert erase incr base_of checked_add ◌+ℤ◌ of_i64 round_53
bumped-IsValid =
    put-IsValid (9 ∷ []) (some (num (whole (pos 1)))) window 5 limits one one-IsValid (omega arith)
      (omega arith)

ttl-put_example : (ttl (1 ∷ []) 400_000_005 (write 1 brief empty)).0 ≡ expiring (pos 600)
unfolding put put_value cost prim_size make_room over allows write_meta live find sweep drop_dead
    remove_all keys_where insert_fresh meta_of remove plan_evictions plan_loop bytes_eq evict
    drop_expired freshness add_ms instant_add cast_unsigned entries_with insert_tick erase_tick
    insert erase instant_max
ttl-put_example =
    ttl-put (1 ∷ []) (num (whole (pos 1))) brief 5 1_000 400 limits empty empty-IsValid refl
      (omega arith) (omega arith) refl (omega arith)
