-- ===== src/State/Store/Counter.antt =====
-- `incr`: its count and its fixed window (src/capabilities/state.rs).
use lur.Base.{
  ℕ, ◌+◌, ◌^◌, ◌≡◌, ◌<◌, refl, ap, inl, inr, Option, none, some, Option-cases, true, arith,
}
use lur.Base.Int.{ℤ, pos, checked_add, checked_add-pos}
use lur.Base.Bytes.{Bytes}
use lur.Base.Dict.{find}
use lur.Float.{whole, of_i64, whole_f64_to_i64}
use lur.Float.Exact.{of_i64-exact}
use lur.State.Entry.{Prim, num, Entry, Write, Limits, after_if_unset, freshness, is_fresh}
use lur.State.Inner.{Inner, live}
use lur.State.Valid.{IsValid}
use lur.State.Valid.Reads.{live-fresh_of, live-IsValid, find-live}
use lur.State.Put.{Result, ok, err, put, meta_of, cost}
use lur.State.Put.Frame.{SameFrame-live}
use lur.State.Put.Insert.{stored_entry}
use lur.State.Put.Safety.{put-find}
use lur.State.Store.{value_of, IncrResult, counted, base_of, incr_add, incr_result, incr}
use lur.State.Store.Atomic.{seen}

-- Reading does not change what is seen.
seen-live : (key : Bytes) (now : ℕ) (s : Inner) → seen key now (live key now s).1 ≡ seen key now s
seen-live key now s = ground (arith, find-live key now s key)

incr_result-counted :
    (new : ℤ) (r : Result (Unit {0})) (s : Inner) {c : ℤ} {s' : Inner}
    → ◌≡◌ {A = IncrResult × Inner} (incr_result new r, s) (counted c, s')
    → (c ≡ new) × (◌≡◌ {A = Result (Unit {0}) × Inner} (r, s) (ok tt, s'))
unfolding incr
incr_result-counted new (ok u) s h = (ground arith, ground arith)
incr_result-counted new (err e) s h = cc

incr_add-counted :
    (key : Bytes) (base : Option ℤ) (n : ℤ) (w : Write) (now : ℕ) (limits : Limits) (s : Inner)
    {c : ℤ} {s' : Inner}
    → incr_add key base n w now limits s ≡ (counted c, s')
    → (b : ℤ) × (base ≡ some b)
      × (checked_add b n ≡ some c)
      × (put key (some (num (of_i64 c))) w now limits s ≡ (ok tt, s'))
unfolding incr
incr_add-counted key none n w now limits s h = cc
incr_add-counted key (some b) n w now limits s h = elim (Option-cases (checked_add b n)) [
  | inl no' ↦ cc
  | inr (new, sum) ↦
      let (r, t) = put key (some (num (of_i64 new))) w now limits s in
      let (same, made) = incr_result-counted new r t (rw (sum, incr_add) at h) in
      (b, refl, rw same sum, rw same made)
]

-- When `incr` returns a count, it is the sum of the step and of the counter that a read sees (0 if
-- there is none), without overflow, and the key then holds that sum as an `f64`, under the expiry
-- that the options give it.
pub incr-find :
    (key : Bytes) (n : ℤ) (w : Write) (now : ℕ) (limits : Limits) (s : Inner) {c : ℤ} {s' : Inner}
    → IsValid s
    → incr key n w now limits s ≡ (counted c, s')
    → (b : ℤ) × (base_of (value_of (seen key now s)) ≡ some b)
      × (checked_add b n ≡ some c)
      × (find key s'.map
          ≡ some (
              stored_entry
                (num (of_i64 c))
                (meta_of w (seen key now s) now)
                (cost key (num (of_i64 c)))
                s))
unfolding incr
incr-find key n w now limits s v h =
    let (b, base, sum, made) = incr_add-counted key _ n w now limits (live key now s).1 h in
    let f = SameFrame-live now s key in
    (
      b,
      rw (← live-fresh_of key now s) base,
      sum,
      ground (
        arith,
        put-find key (num (of_i64 _)) w now limits (live key now s).1 (live-IsValid key now v) made,
        seen-live key now s,
        f.next_tick,
        f.last_version,
      ),
    )

fresh_before :
    (e : Entry) (x now : ℕ) → e.expires ≡ some x → now < x → is_fresh (freshness e now) ≡ true
unfolding freshness
fresh_before e x now window early = ground arith

base_of-whole : (c : ℕ) → c < 2 ^ 53 → base_of (some (num (whole (pos c)))) ≡ some (pos c)
unfolding base_of whole_f64_to_i64
base_of-whole c small = ground arith

-- `after_if_unset` keeps an expiry that is there.
kept_expiry :
    (w : Write) (ms : ℤ) (e : Entry) (x now : ℕ)
    → w.expiry ≡ after_if_unset ms
    → e.expires ≡ some x
    → (meta_of w (some e) now).expires ≡ some x
unfolding meta_of
kept_expiry w ms e x now rule window = ground arith

-- A rate limit: while the window that the first `incr` opened lasts, an `incr` by one with the same
-- options either finds no room or returns the next count, stores it exactly, and leaves the end of
-- the window where it was, as long as the counter stays below 2 ^ 53.
pub incr_in_window :
    (key : Bytes) (ms : ℤ) (w : Write) (now : ℕ) (limits : Limits) (s : Inner) (c x : ℕ) (e : Entry)
    {d : ℤ} {s' : Inner}
    → IsValid s
    → w.expiry ≡ after_if_unset ms
    → find key s.map ≡ some e
    → e.value ≡ num (whole (pos c))
    → e.expires ≡ some x
    → now < x
    → c < 2 ^ 53
    → incr key (pos 1) w now limits s ≡ (counted d, s')
    → (f : Entry) × (d ≡ pos (c + 1))
      × (find key s'.map ≡ some f)
      × (f.value ≡ num (whole (pos (c + 1))))
      × (f.expires ≡ some x)
incr_in_window key ms w now limits s c x e v rule found value window early small h =
    let seen_e : seen key now s ≡ some e = ground (arith, fresh_before e x now window early) in
    let (b, base, sum, stored) = incr-find key (pos 1) w now limits s v h in
    let b-eq : b ≡ pos c = ground (arith, base_of-whole c small, seen_e) in
    let d-eq = (checked_add-pos c 1 (rw b-eq at sum)).0 in
    (
      _,
      d-eq,
      stored,
      rw d-eq (ap num (of_i64-exact (pos (c + 1)) (omega arith) (omega arith))),
      rw seen_e (kept_expiry w ms e x now rule window),
    )
