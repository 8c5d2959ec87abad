-- ===== src/State/Put/Outcome.antt =====
-- The ends of `put` (src/capabilities/state.rs).
use lur.Base.{ℕ, ◌≡◌, ◌≢◌, refl, inl, inr, Option, none, some, Bool-cases, true, false, arith}
use lur.Base.Bytes.{Bytes}
use lur.Base.Dict.{find, size}
use lur.State.Entry.{Prim, WriteMeta, Write, Limits, allows}
use lur.State.Inner.{Inner}
use lur.State.Valid.{IsValid}
use lur.State.Valid.Remove.{remove-IsValid}
use lur.State.Valid.Reads.{HasTicks, fresh_of}
use lur.State.Put.{
  Result, ok, err, full, panic, sweep, write_meta, meta_of, too_large, store_in_room, insert_fresh,
  cost, put_value, put, over, evict,
}
use lur.State.Put.Room.{Room, fits, evicts, stuck, trimmed, trimmed-IsValid, make_room-Room}
use lur.State.Put.Frame.{
  SameFrame, SameFrame-refl, SameFrame-trans, SameFrame-sweep, SameFrame-live, SameFrame-trimmed,
  SameFrame-evict,
}
use lur.State.Put.Insert.{
  HasVersions, insert_fresh-IsValid, entries-insert_fresh, bytes-insert_fresh,
}
use lur.State.Put.Survive.{readied, readied-IsValid, write_meta_lem}

-- The ends of a write of a value. `s` is the store after the expired entries made way; `stored`
-- may have evicted entries from it.
pub data Ending (key : Bytes) (value : Prim) (meta : WriteMeta) (limits : Limits)
    (ready trim : Inner) (r : Result (Unit {0}) × Inner) : Type 0 where
  too_big :
      too_large limits (cost key value) ≡ true
      → r ≡ (err full, ready)
      → Ending key value meta limits ready trim r
  no_room :
      Room key (cost key value) limits trim (err full, trim)
      → r ≡ (err full, trim)
      → Ending key value meta limits ready trim r
  stored :
      (s : Inner)
      → Room key (cost key value) limits trim (ok tt, s)
      → IsValid s
      → SameFrame trim s
      → over key (cost key value) limits s ≡ false
      → r ≡ (ok tt, insert_fresh key value meta (cost key value) s)
      → Ending key value meta limits ready trim r

Ending-of :
    (key : Bytes) (value : Prim) (meta : WriteMeta) (limits : Limits) (ready trim : Inner)
    → IsValid trim
    → (m : Result (Unit {0}) × Inner) → Room key (cost key value) limits trim m
    → Ending key value meta limits ready trim (store_in_room key value meta (cost key value) m)
unfolding put_value
Ending-of key value meta limits ready trim v m (fits e small) =
    rw e (stored trim (fits refl small) v (SameFrame-refl trim) small refl)
Ending-of key value meta limits ready trim v m (evicts l e o big v' small) =
    rw e
      (stored (evict l trim) (evicts l refl o big v' small) v' (SameFrame-evict l trim) small refl)
Ending-of key value meta limits ready trim v m (stuck l e o c v' big) =
    rw e (no_room (stuck l refl o c v' big) refl)

module _ (key : Bytes) (value : Prim) (w : Write) (now : ℕ) (limits : Limits) (s : Inner)
    (v : IsValid s) where
  abbrev pub end_meta : WriteMeta
  end_meta = meta_of w (fresh_of now (find key s.map)) now

  abbrev pub end_trim : Inner
  end_trim = trimmed key (cost key value) limits now (readied key now s)

  pub end_trim-IsValid : IsValid end_trim
  end_trim-IsValid = trimmed-IsValid key (cost key value) limits now (readied-IsValid now s v key)

  pub SameFrame-end_trim : SameFrame s end_trim
  SameFrame-end_trim = SameFrame-trans (SameFrame-sweep now s) (
      SameFrame-trans (SameFrame-live now (sweep now s) key)
        (SameFrame-trimmed now (readied key now s) key (cost key value) limits))

  pub put-Ending :
      Ending key value end_meta limits
        (readied key now s)
        end_trim
        (put key (some value) w now limits s)
  unfolding put put_value write_meta
  put-Ending =
      let room =
        make_room-Room key (cost key value) limits now (readied key now s)
          (readied-IsValid now s v key) in
      elim (Bool-cases (too_large limits (cost key value))) [
        | inl big ↦ rw big (too_big big refl)
        | inr small ↦ rw small (
            rw (← write_meta_lem now s v key w)
              (Ending-of key value _ limits (readied key now s) end_trim end_trim-IsValid _ room))
      ]

  put_value-IsValid : HasTicks s → HasVersions s → IsValid (put key (some value) w now limits s).1
  put_value-IsValid ticks versions = elim put-Ending [
    | too_big big e ↦ rw e (readied-IsValid now s v key)
    | no_room room e ↦ rw e end_trim-IsValid
    | stored t room t-IsValid frame small e ↦
        let f = SameFrame-trans SameFrame-end_trim frame in
        rw e (
          insert_fresh-IsValid key value end_meta _ t-IsValid (rw f.next_tick ticks)
            (rw f.last_version versions))
  ]

  put_value-allows :
      {s' : Inner}
      → put key (some value) w now limits s ≡ (ok tt, s')
      → allows limits (size s'.map) s'.bytes ≡ true
  unfolding over
  put_value-allows h = elim put-Ending [
    | too_big big e ↦ cc
    | no_room room e ↦ cc
    | stored t room t-IsValid frame small e ↦ ground (
      arith,
      entries-insert_fresh key value end_meta (cost key value) t-IsValid,
      bytes-insert_fresh key value end_meta (cost key value) t-IsValid,
    )
  ]

  put_value-ne-panic : (put key (some value) w now limits s).0 ≢ err panic
  put_value-ne-panic h = elim put-Ending [
    | too_big big e ↦ cc
    | no_room room e ↦ cc
    | stored t room t-IsValid frame small e ↦ cc
  ]

-- A write keeps the store well formed, whether it stores, deletes or fails, as long as the 64-bit
-- counters of ticks and versions have a number left.
pub put-IsValid :
    (key : Bytes) (value : Option Prim) (w : Write) (now : ℕ) (limits : Limits) (s : Inner)
    → IsValid s
    → HasTicks s
    → HasVersions s
    → IsValid (put key value w now limits s).1
unfolding put
put-IsValid key none w now limits s v ticks versions = remove-IsValid key v
put-IsValid key (some value) w now limits s v ticks versions =
    put_value-IsValid key value w now limits s v ticks versions

-- After a successful write of a value to a well-formed store the number of entries and the count
-- of bytes respect the limits, whatever they were before.
pub put-allows :
    (key : Bytes) (value : Prim) (w : Write) (now : ℕ) (limits : Limits) (s : Inner) {s' : Inner}
    → IsValid s
    → put key (some value) w now limits s ≡ (ok tt, s')
    → allows limits (size s'.map) s'.bytes ≡ true
put-allows key value w now limits s v h = put_value-allows key value w now limits s v h

-- On a well-formed store no write looks up a key of the recency index that has no entry, which
-- would panic.
pub put-ne-panic :
    (key : Bytes) (value : Option Prim) (w : Write) (now : ℕ) (limits : Limits) (s : Inner)
    → IsValid s
    → (put key value w now limits s).0 ≢ err panic
unfolding put
put-ne-panic key none w now limits s v = λ h. cc
put-ne-panic key (some value) w now limits s v = put_value-ne-panic key value w now limits s v
