-- ===== src/State/Put/Safety.antt =====
-- What a write does to the entries of a well-formed store (src/capabilities/state.rs).
use lur.Base.{ℕ, ◌≡◌, ◌<◌, Option, none, some, true, false, arith}
use lur.Base.Bytes.{Bytes, bytes_eq, bytes_eq_iff}
use lur.Base.Dict.{find}
use lur.State.Entry.{Prim, Entry, Write, Limits, freshness, is_fresh}
use lur.State.Inner.{Inner}
use lur.State.Valid.{IsValid}
use lur.State.Valid.Remove.{find-remove}
use lur.State.Valid.Reads.{is_dead_at, fresh_of}
use lur.State.Put.{Result, ok, err, full, cost, put, meta_of}
use lur.State.Put.Room.{Room, fits, evicts, stuck, find-evict, contains-evictable, victim-older}
use lur.State.Put.Victims.{Listed-order}
use lur.State.Put.Insert.{find-insert_fresh, stored_entry}
use lur.State.Put.Survive.{
  find-readied, find-trimmed-readied, fresh-ne-dead, fresh-ne-droppable, kept-ne-droppable,
}
use lur.State.Put.Outcome.{
  too_big, no_room, stored, put-Ending, end_trim-IsValid, end_meta, SameFrame-end_trim,
}

module _ {key : Bytes} {n : ℕ} {limits : Limits} {t : Inner} (v : IsValid t) where
  -- Making room spares what may not be evicted.
  spared :
      {r : Result (Unit {0}) × Inner} (j : Bytes) (e : Entry)
      → Room key n limits t r
      → find j t.map ≡ some e
      → e.evictable ≡ false
      → find j r.1.map ≡ some e
  spared j e (fits p small) found off = rw p found
  spared j e (evicts l p o big w small) found off =
      rw p (ground (arith, find-evict l t j, contains-evictable t.map o (Listed-order t v) j))
  spared j e (stuck l p o c w big) found off = rw p found

  -- Making room adds nothing.
  was_there :
      {r : Result (Unit {0}) × Inner} (j : Bytes) (e : Entry)
      → Room key n limits t r
      → find j r.1.map ≡ some e
      → find j t.map ≡ some e
  was_there j e (fits p small) h = ground (arith, p)
  was_there j e (evicts l p o big w small) h = ground (arith, p, find-evict l t j)
  was_there j e (stuck l p o c w big) h = ground (arith, p)

  -- An entry that making room drops was used before any evictable entry that it spares.
  dropped-older :
      {r : Result (Unit {0}) × Inner} (j i : Bytes) (e f : Entry)
      → Room key n limits t r
      → bytes_eq i key ≡ false
      → find j t.map ≡ some e
      → find j r.1.map ≡ none
      → find i t.map ≡ some f
      → f.evictable ≡ true
      → find i r.1.map ≡ some f
      → e.tick < f.tick
  dropped-older j i e f (fits p small) ne a b c on d = cc
  dropped-older {r} j i e f (evicts l p o big w small) ne a b c on d =
      victim-older t.map o v.ascending (Listed-order t v) j i e f
        (ground (arith, find-evict l t j, p)) a (v.indexes i f c on) ne
        (ground (arith, find-evict l t i, p))
  dropped-older j i e f (stuck l p o c' w big) ne a b c on d = cc

module _ (key : Bytes) (value : Prim) (w : Write) (now : ℕ) (limits : Limits) (s : Inner)
    (v : IsValid s) where
  put_value-keeps :
      (j : Bytes) (e : Entry)
      → bytes_eq key j ≡ false
      → find j s.map ≡ some e
      → e.evictable ≡ false
      → is_dead_at now e ≡ false
      → find j (put key (some value) w now limits s).1.map ≡ some e
  put_value-keeps j e ne found off lives =
      let n = cost key value in
      let ready = find-readied now s v key j e found lives in
      let trim =
        find-trimmed-readied now s v key n limits j e found lives
          (kept-ne-droppable now e off lives) in
      elim (put-Ending key value w now limits s v) [
        | too_big big p ↦ rw p ready
        | no_room room p ↦ rw p trim
        | stored t room t-IsValid frame small p ↦ rw p (
            ground (
              arith,
              find-insert_fresh key value (end_meta key value w now limits s v) n t j,
              spared (end_trim-IsValid key value w now limits s v) j e room trim off,
            ))
      ]

  put_value_full :
      (j : Bytes) (e : Entry)
      → (put key (some value) w now limits s).0 ≡ err full
      → find j s.map ≡ some e
      → is_fresh (freshness e now) ≡ true
      → find j (put key (some value) w now limits s).1.map ≡ some e
  put_value_full j e failed found lives =
      let n = cost key value in
      elim (put-Ending key value w now limits s v) [
        | too_big big p ↦ rw p (find-readied now s v key j e found (fresh-ne-dead now e lives))
        | no_room room p ↦ rw p (
            find-trimmed-readied now s v key n limits j e found (fresh-ne-dead now e lives)
              (fresh-ne-droppable now e lives))
        | stored t room t-IsValid frame small p ↦ cc
      ]

  put_value-find :
      {s' : Inner}
      → put key (some value) w now limits s ≡ (ok tt, s')
      → find key s'.map
        ≡ some
            (stored_entry value (meta_of w (fresh_of now (find key s.map)) now) (cost key value) s)
  put_value-find h = elim (put-Ending key value w now limits s v) [
    | too_big big p ↦ cc
    | no_room room p ↦ cc
    | stored t room t-IsValid frame small p ↦
        let a = SameFrame-end_trim key value w now limits s v in
        ground (
          arith,
          find-insert_fresh key value (end_meta key value w now limits s v) (cost key value) t key,
          bytes_eq_iff key key,
          frame.next_tick,
          frame.last_version,
          a.next_tick,
          a.last_version,
        )
  ]

  put_value-oldest :
      {s' : Inner} (j i : Bytes) (e f : Entry)
      → put key (some value) w now limits s ≡ (ok tt, s')
      → bytes_eq key j ≡ false
      → bytes_eq key i ≡ false
      → find j s.map ≡ some e
      → is_fresh (freshness e now) ≡ true
      → find j s'.map ≡ none
      → f.evictable ≡ true
      → find i s'.map ≡ some f
      → e.tick < f.tick
  put_value-oldest j i e f h nj ni a lives b on c = elim (put-Ending key value w now limits s v) [
    | too_big big p ↦ cc
    | no_room room p ↦ cc
    | stored t room t-IsValid frame small p ↦
        let n = cost key value in
        let m = end_meta key value w now limits s v in
        let trim = end_trim-IsValid key value w now limits s v in
        let i_kept : find i t.map ≡ some f =
          ground (arith, find-insert_fresh key value m n t i, p, h) in
        dropped-older trim j i e f room (ground (arith, bytes_eq_iff key i, bytes_eq_iff i key))
          (find-trimmed-readied now s v key n limits j e a (fresh-ne-dead now e lives)
            (fresh-ne-droppable now e lives))
          (ground (arith, find-insert_fresh key value m n t j, p, h))
          (was_there trim i f room i_kept) on i_kept
  ]

-- Whatever a write to `key` does, an entry of another key that is not evictable and not yet past
-- its stale window is found unchanged afterwards: only evictable entries are dropped for room.
pub put-keeps_unevictable :
    (key : Bytes) (value : Option Prim) (w : Write) (now : ℕ) (limits : Limits) (s : Inner)
    (j : Bytes) (e : Entry)
    → IsValid s
    → bytes_eq key j ≡ false
    → find j s.map ≡ some e
    → e.evictable ≡ false
    → is_dead_at now e ≡ false
    → find j (put key value w now limits s).1.map ≡ some e
unfolding put
put-keeps_unevictable key none w now limits s j e v ne found off lives =
    rw (find-remove key j s) (rw ne found)
put-keeps_unevictable key (some value) w now limits s j e v ne found off lives =
    put_value-keeps key value w now limits s v j e ne found off lives

-- A write that fails for want of room leaves every fresh entry as it was, that of its own key too.
pub put_full-keeps_fresh :
    (key : Bytes) (value : Option Prim) (w : Write) (now : ℕ) (limits : Limits) (s : Inner)
    (j : Bytes) (e : Entry)
    → IsValid s
    → (put key value w now limits s).0 ≡ err full
    → find j s.map ≡ some e
    → is_fresh (freshness e now) ≡ true
    → find j (put key value w now limits s).1.map ≡ some e
unfolding put
put_full-keeps_fresh key none w now limits s j e v failed found lives = cc
put_full-keeps_fresh key (some value) w now limits s j e v failed found lives =
    put_value_full key value w now limits s v j e failed found lives

-- A successful write of a value leaves exactly one entry to find under its key: the value, under
-- the next version, with the expiry, the stale window and the flag that the options give it
-- against the entry that was fresh before.
pub put-find :
    (key : Bytes) (value : Prim) (w : Write) (now : ℕ) (limits : Limits) (s : Inner) {s' : Inner}
    → IsValid s
    → put key (some value) w now limits s ≡ (ok tt, s')
    → find key s'.map
      ≡ some (stored_entry value (meta_of w (fresh_of now (find key s.map)) now) (cost key value) s)
put-find key value w now limits s v h = put_value-find key value w now limits s v h

-- Eviction is in the order of use: a fresh entry that a successful write drops has an older stamp
-- than every evictable entry, of a key other than the written one, that it leaves in the store.
pub put-evicts_oldest :
    (key : Bytes) (value : Prim) (w : Write) (now : ℕ) (limits : Limits) (s : Inner) {s' : Inner}
    (j i : Bytes) (e f : Entry)
    → IsValid s
    → put key (some value) w now limits s ≡ (ok tt, s')
    → bytes_eq key j ≡ false
    → bytes_eq key i ≡ false
    → find j s.map ≡ some e
    → is_fresh (freshness e now) ≡ true
    → find j s'.map ≡ none
    → find i s'.map ≡ some f
    → f.evictable ≡ true
    → e.tick < f.tick
put-evicts_oldest key value w now limits s j i e f v h nj ni a lives b c on =
    put_value-oldest key value w now limits s v j i e f h nj ni a lives b on c
