-- ===== src/State/Put/Apart.antt =====
-- The operations on entries and the table of flights (src/capabilities/state.rs).
use lur.Base.{ℕ, ◌≡◌, refl, inl, inr, Option, none, some, Bool-cases, arith}
use lur.Base.Bytes.{Bytes}
use lur.State.Entry.{Prim, Write, WriteMeta, Limits}
use lur.State.Inner.{Inner, live, touch}
use lur.State.Valid.{IsValid}
use lur.State.Put.{put, insert_fresh, cost}
use lur.State.Put.Frame.{
  SameFrame, SameFrame-remove, SameFrame-live, SameFrame-sweep, SameFrame-trans,
}
use lur.State.Put.Outcome.{too_big, no_room, stored, put-Ending, end_meta, SameFrame-end_trim}

pub record Apart (s s' : Inner) : Type 0 where
  pub flights : s'.flights ≡ s.flights
  pub next_flight : s'.next_flight ≡ s.next_flight

pub Apart-refl : (s : Inner) → Apart s s
Apart-refl s = record { flights = refl; next_flight = refl }

pub Apart-trans : {s t u : Inner} → Apart s t → Apart t u → Apart s u
Apart-trans a b = record {
  flights = ground (arith, a.flights, b.flights);
  next_flight = ground (arith, a.next_flight, b.next_flight);
}

Apart-frame : {s s' : Inner} → SameFrame s s' → Apart s s'
Apart-frame f = record { flights = f.flights; next_flight = f.next_flight }

pub Apart-touch : (key : Bytes) (s : Inner) → Apart s (touch key s)
unfolding touch
Apart-touch key s = record { flights = ground arith; next_flight = ground arith }

pub Apart-live : (key : Bytes) (now : ℕ) (s : Inner) → Apart s (live key now s).1
Apart-live key now s = Apart-frame (SameFrame-live now s key)

insert_fresh-Apart :
    (key : Bytes) (value : Prim) (meta : WriteMeta) (n : ℕ) (s : Inner)
    → Apart s (insert_fresh key value meta n s)
unfolding insert_fresh
insert_fresh-Apart key value meta n s =
    let f = SameFrame-remove key s in
    elim (Bool-cases meta.evictable) [
      | inl on ↦ rw on (record { flights = f.flights; next_flight = f.next_flight })
      | inr off ↦ rw off (record { flights = f.flights; next_flight = f.next_flight })
    ]

put_value-Apart :
    (key : Bytes) (value : Prim) (w : Write) (now : ℕ) (limits : Limits) (s : Inner)
    → IsValid s
    → Apart s (put key (some value) w now limits s).1
put_value-Apart key value w now limits s v = elim (put-Ending key value w now limits s v) [
  | too_big big e ↦
      rw e (Apart-frame (SameFrame-trans (SameFrame-sweep now s) (SameFrame-live now _ key)))
  | no_room room e ↦ rw e (Apart-frame (SameFrame-end_trim key value w now limits s v))
  | stored t room t-IsValid frame small e ↦ rw e (
      Apart-trans
        (Apart-frame (SameFrame-trans (SameFrame-end_trim key value w now limits s v) frame))
        (insert_fresh-Apart key value (end_meta key value w now limits s v) (cost key value) t))
]

pub Apart-put :
    (key : Bytes) (value : Option Prim) (w : Write) (now : ℕ) (limits : Limits) (s : Inner)
    → IsValid s
    → Apart s (put key value w now limits s).1
unfolding put
Apart-put key none w now limits s v = Apart-frame (SameFrame-remove key s)
Apart-put key (some value) w now limits s v = put_value-Apart key value w now limits s v
