-- ===== src/State/Put/Room.antt =====
-- `sweep` and `make_room` (src/capabilities/state.rs).
use lur.Base.{
  ℕ, ◌≡◌, ◌<◌, refl, inl, inr, none, some, Bool-cases, true, false, [], ◌∷◌, arith, if◌then◌else◌,
}
use lur.Base.Bytes.{Bytes, bytes_eq, bytes_eq_iff}
use lur.Base.Dict.{Dict, find, contains}
use lur.Base.Ticks.{Ticks, find_tick, erase_tick, IsAscending, find_tick_above}
use lur.State.Entry.{Entry, Limits, allows}
use lur.State.Inner.{Inner, remove, u64_inc, drop_dead, drop_expired}
use lur.State.Valid.{IsValid}
use lur.State.Valid.Remove.{find-remove}
use lur.State.Valid.Reads.{housekeeping-IsValid, drop_dead-IsValid, drop_expired-IsValid}
use lur.State.Put.{
  Result, ok, err, full, plan_evictions, sweep, sweep_due, evict, evict_planned, make_room, over,
}
use lur.State.Put.Victims.{
  Listed, Listed-order, Oldest, stop, skip, take, keys_of, IsComplete, plan_loop-Planned,
}

pub sweep-IsValid : (now : ℕ) {s : Inner} → IsValid s → IsValid (sweep now s)
unfolding sweep
sweep-IsValid now {s} v = elim (Bool-cases (sweep_due s.last_sweep now)) [
  | inl due ↦
      let s' = drop_dead now s in
      rw due
        (housekeeping-IsValid s' (some now) s'.earliest s'.evictions (drop_dead-IsValid now s v))
  | inr early ↦ rw early v
]

pub find-evict :
    (l : Ticks) (s : Inner) (j : Bytes)
    → find j (evict l s).map ≡ (if contains j (keys_of l) then none else find j s.map)
unfolding evict contains
find-evict [] s j = refl
find-evict ((t, k) ∷ l) s j =
    let s' = remove k (record s { order = erase_tick t s.order }) in
    ground (
      arith,
      find-evict l (record s' { evictions = u64_inc s'.evictions }) j,
      find-remove k j (record s { order = erase_tick t s.order }),
    )

-- A victim is an evictable entry.
pub contains-evictable :
    {key : Bytes} {l v : Ticks} (m : Dict Entry)
    → Oldest key l v
    → Listed m m l
    → (j : Bytes) → contains j (keys_of v) ≡ true
    → (e : Entry) × (find j m ≡ some e) × (e.evictable ≡ true)
unfolding contains
contains-evictable m (stop l) h j c = cc
contains-evictable m (skip own o) h j c = contains-evictable m o h.1 j c
contains-evictable m (take {k = k} other o) h j c = elim (Bool-cases (bytes_eq k j)) [
  | inl same ↦ (h.0.0, ground (arith, bytes_eq_iff k j, h.0.1), h.0.3)
  | inr ne ↦ contains-evictable m o h.1 j (ground arith)
]

-- A victim was used less recently than any evictable entry that is spared.
pub victim-older :
    {key : Bytes} {l v : Ticks} (m : Dict Entry)
    → Oldest key l v
    → IsAscending l
    → Listed m m l
    → (j i : Bytes) (e f : Entry) → contains j (keys_of v) ≡ true
    → find j m ≡ some e
    → find_tick f.tick l ≡ some i
    → bytes_eq i key ≡ false
    → contains i (keys_of v) ≡ false
    → e.tick < f.tick
unfolding contains find_tick
victim-older m (stop l) up h j i e f c a b ne spared = cc
victim-older m (skip {t = t} {k = k} own o) up h j i e f c a b ne spared =
    victim-older m o up.1 h.1 j i e f c a (ground (arith, bytes_eq_iff i k)) ne spared
victim-older m (take {t = t} {k = k} {l = l} other o) up h j i e f c a b ne spared = ground (
  arith,
  victim-older m o up.1 h.1 j i e f,
  find_tick_above t f.tick i l up.0,
  bytes_eq_iff k j,
  bytes_eq_iff k i,
  h.0.1,
)

abbrev pub trimmed : Bytes → ℕ → Limits → ℕ → Inner → Inner
trimmed key n limits now s = if over key n limits s then drop_expired now s else s

pub trimmed-IsValid :
    (key : Bytes) (n : ℕ) (limits : Limits) (now : ℕ) {s : Inner}
    → IsValid s
    → IsValid (trimmed key n limits now s)
trimmed-IsValid key n limits now {s} v = elim (Bool-cases (over key n limits s)) [
  | inl big ↦ rw big (drop_expired-IsValid now s v)
  | inr fits ↦ rw fits v
]

-- How `make_room` may end, for a store `s` that has been trimmed of expired entries.
pub data Room (key : Bytes) (n : ℕ) (limits : Limits) (s : Inner)
    : Result (Unit {0}) × Inner → Type 0 where
  fits :
      {r : Result (Unit {0}) × Inner}
      → r ≡ (ok tt, s)
      → over key n limits s ≡ false
      → Room key n limits s r
  evicts :
      {r : Result (Unit {0}) × Inner} (v : Ticks)
      → r ≡ (ok tt, evict v s)
      → Oldest key s.order v
      → over key n limits s ≡ true
      → IsValid (evict v s)
      → over key n limits (evict v s) ≡ false
      → Room key n limits s r
  stuck :
      {r : Result (Unit {0}) × Inner} (v : Ticks)
      → r ≡ (err full, s)
      → Oldest key s.order v
      → IsComplete key s.order v
      → IsValid (evict v s)
      → over key n limits (evict v s) ≡ true
      → Room key n limits s r

plan-Room :
    (key : Bytes) (n : ℕ) (limits : Limits) (now : ℕ) (s : Inner)
    → IsValid s
    → over key n limits s ≡ true
    → Room key n limits s (evict_planned (plan_evictions key n limits s) s)
unfolding make_room plan_evictions over
plan-Room key n limits now s v big =
    let (p, made, good) =
      plan_loop-Planned key n limits s.map s.order s v v.ascending (Listed-order s v) in
    elim (Bool-cases (allows limits p.entries p.bytes)) [
      | inl yes' ↦
          evicts p.victims (rw made (rw yes')) good.oldest big good.valid
            (rw (good.entries, good.bytes) (rw yes'))
      | inr no' ↦
          stuck p.victims (rw made (rw no')) good.oldest (good.complete no') good.valid
            (rw (good.entries, good.bytes) (rw no'))
    ]

pub make_room-Room :
    (key : Bytes) (n : ℕ) (limits : Limits) (now : ℕ) (s : Inner)
    → IsValid s
    → Room key n limits (trimmed key n limits now s) (make_room key n limits now s)
unfolding make_room
make_room-Room key n limits now s v =
    let s' = trimmed key n limits now s in
    elim (Bool-cases (over key n limits s')) [
      | inl big ↦ rw big (plan-Room key n limits now s' (trimmed-IsValid key n limits now v) big)
      | inr small ↦ rw small (fits refl small)
    ]
