-- ===== src/State/Put/Victims.antt =====
-- The eviction plan of `plan_evictions` and its execution (src/capabilities/state.rs).
use lur.Base.{
  ℕ, ◌-◌, ◌≡◌, refl, inl, inr, none, some, Bool-cases, true, false, List, [], ◌∷◌, arith,
  if◌then◌else◌, map,
}
use lur.Base.Bytes.{Bytes, bytes_eq, bytes_eq_iff}
use lur.Base.Dict.{Dict, find, size-erase, weight-two-le, contains}
use lur.Base.Ticks.{
  Ticks, find_tick, erase_tick, IsAbove, IsAscending, find_tick_above, erase-erase_tick,
}
use lur.State.Entry.{Entry, Limits, allows}
use lur.State.Inner.{Inner, remove, u64_inc}
use lur.State.Valid.{IsValid}
use lur.State.Valid.Remove.{remove-IsValid, find-remove}
use lur.State.Valid.Reads.{housekeeping-IsValid}
use lur.State.Put.{Plan, plan_loop, evict, entries_with, bytes_with}

-- `(t, k)` is the index of an evictable entry that both maps hold.
abbrev pub Indexes : Dict Entry → Dict Entry → ℕ → Bytes → Type 0
Indexes m m' t k =
    (e : Entry) × (find k m ≡ some e) × (find k m' ≡ some e) × (e.evictable ≡ true) × (e.tick ≡ t)

abbrev pub Listed : Dict Entry → Dict Entry → Ticks → Type 0
Listed m m' [] = Unit {0}
Listed m m' ((t, k) ∷ l) = Indexes m m' t k × Listed m m' l

-- The index of a well-formed store lists entries of its map.
Listed-of :
    (m : Dict Entry) (l : Ticks)
    → IsAscending l
    → ((t : ℕ) (k : Bytes)
        → find_tick t l ≡ some k
        → (e : Entry) × (find k m ≡ some e) × (e.evictable ≡ true) × (e.tick ≡ t))
    → Listed m m l
unfolding find_tick
Listed-of m [] up h = tt
Listed-of m ((t, k) ∷ l) up h = (
  (let (e, found, flag, tick) = h t k (ground arith) in (e, found, found, flag, tick)),
  Listed-of m l up.1 (λ u j p. h u j (ground (arith, find_tick_above t u j l up.0))),
)

pub Listed-order : (s : Inner) → IsValid s → Listed s.map s.map s.order
Listed-order s v = Listed-of s.map s.order v.ascending v.indexed

-- One round of the loop of `make_room`.
abbrev evict_one : ℕ → Bytes → Inner → Inner
evict_one t k s =
    let s' = remove k (record s { order = erase_tick t s.order }) in
    record s' { evictions = u64_inc s'.evictions }

module _ (t : ℕ) (k : Bytes) (s : Inner) (e : Entry) (found : find k s.map ≡ some e)
    (flag : e.evictable ≡ true) (tick : e.tick ≡ t) where
  remove-erase_tick : remove k (record s { order = erase_tick t s.order }) ≡ remove k s
  unfolding remove
  remove-erase_tick = rw (found, remove) (rw flag (rw tick (rw (erase-erase_tick t s.order))))

  evict_one-IsValid : IsValid s → IsValid (evict_one t k s)
  evict_one-IsValid v =
      let s' = remove k s in
      rw remove-erase_tick (
        housekeeping-IsValid s' s'.last_sweep s'.earliest (u64_inc s'.evictions)
          (remove-IsValid k v))

  find-evict_one :
      (j : Bytes) → find j (evict_one t k s).map ≡ (if bytes_eq k j then none else find j s.map)
  find-evict_one j = rw remove-erase_tick (find-remove k j s)

  module _ (key : Bytes) (v : IsValid s) (other : bytes_eq k key ≡ false) where
    entries-evict_one : entries_with key (evict_one t k s) ≡ entries_with key s - 1
    unfolding entries_with remove
    entries-evict_one = ground (arith, size-erase k s.map v.uniq, find-remove k key s)

    bytes-evict_one : (n : ℕ) → bytes_with key n (evict_one t k s) ≡ bytes_with key n s - e.size
    unfolding bytes_with remove
    bytes-evict_one n = ground (
      arith,
      v.counted,
      weight-two-le (λ (e : Entry). e.size) k key s.map v.uniq other,
      find-remove k key s,
    )

-- Removing one listed entry leaves the others listed.
Listed-evict_one :
    (m : Dict Entry) (t : ℕ) (k : Bytes) (s : Inner) (l : Ticks)
    → Indexes m s.map t k
    → IsAbove t l
    → Listed m s.map l
    → Listed m (evict_one t k s).map l
Listed-evict_one m t k s [] i up h = tt
Listed-evict_one m t k s ((u, j) ∷ l) (e, a, b, flag, tick) up ((f, c, d, on, stamp), h) = (
  (f, c, ground (arith, find-evict_one t k s e b flag tick j, bytes_eq_iff k j), on, stamp),
  Listed-evict_one m t k s l (e, a, b, flag, tick) up.1 h,
)

-- The victims are the first entries of the index, in order, without that of `key`.
pub data Oldest (key : Bytes) : Ticks → Ticks → Type 0 where
  stop : (l : Ticks) → Oldest key l []
  skip :
      {t : ℕ} {k : Bytes} {l v : Ticks}
      → bytes_eq k key ≡ true
      → Oldest key l v
      → Oldest key ((t, k) ∷ l) v
  take :
      {t : ℕ} {k : Bytes} {l v : Ticks}
      → bytes_eq k key ≡ false
      → Oldest key l v
      → Oldest key ((t, k) ∷ l) ((t, k) ∷ v)

abbrev pub keys_of : Ticks → List Bytes
keys_of = map (λ p. p.1)

-- All that could be evicted is among the victims.
abbrev pub IsComplete : Bytes → Ticks → Ticks → Type 0
IsComplete key l v =
    (t : ℕ) (k : Bytes)
    → find_tick t l ≡ some k
    → bytes_eq k key ≡ false
    → contains k (keys_of v) ≡ true

-- What holds of a plan made for `s`, and of the store after it is carried out.
pub record Planned (key : Bytes) (n : ℕ) (limits : Limits) (l : Ticks) (s : Inner) (p : Plan)
    : Type 0 where
  pub complete : allows limits p.entries p.bytes ≡ false → IsComplete key l p.victims
  pub oldest : Oldest key l p.victims
  pub valid : IsValid (evict p.victims s)
  pub entries : entries_with key (evict p.victims s) ≡ p.entries
  pub bytes : bytes_with key n (evict p.victims s) ≡ p.bytes

module _ (key : Bytes) (n : ℕ) (limits : Limits) (m : Dict Entry) where
  plan_loop_take :
      (t : ℕ) (k : Bytes) (l : Ticks) (entries bytes : ℕ) (e : Entry) (p : Plan)
      → allows limits entries bytes ≡ false
      → bytes_eq k key ≡ false
      → find k m ≡ some e
      → plan_loop key limits m l (entries - 1) (bytes - e.size) ≡ some p
      → plan_loop key limits m ((t, k) ∷ l) entries bytes
        ≡ some (record p { victims = (t, k) ∷ p.victims })
  unfolding plan_loop
  plan_loop_take t k l entries bytes e p big other found made = rw (big, found) (rw other (rw made))

  pub plan_loop-Planned :
      (l : Ticks) (s : Inner)
      → IsValid s
      → IsAscending l
      → Listed m s.map l
      → (p : Plan) × (plan_loop key limits m l (entries_with key s) (bytes_with key n s) ≡ some p)
        × Planned key n limits l s p
  unfolding plan_loop evict find_tick contains
  plan_loop-Planned [] s v up h = (
    _,
    refl,
    record { complete = λ _ t k p. cc; oldest = stop []; valid = v; entries = refl; bytes = refl },
  )
  plan_loop-Planned ((t, k) ∷ l) s v up ((e, a, b, flag, tick), h) =
      elim (Bool-cases (allows limits (entries_with key s) (bytes_with key n s))) [
        | inl fits ↦ (
          record { victims = []; entries = entries_with key s; bytes = bytes_with key n s },
          rw fits,
          record {
            complete = λ r. cc;
            oldest = stop ((t, k) ∷ l);
            valid = v;
            entries = refl;
            bytes = refl;
          },
        )
        | inr big ↦ elim (Bool-cases (bytes_eq k key)) [
          | inl own ↦
              let (p, made, good) = plan_loop-Planned l s v up.1 h in
              (
                p,
                rw big (rw own made),
                record {
                  complete = λ r u j q other. ground (arith, good.complete r u j);
                  oldest = skip own good.oldest;
                  valid = good.valid;
                  entries = good.entries;
                  bytes = good.bytes;
                },
              )
          | inr other ↦
              let s' = evict_one t k s in
              let v' = evict_one-IsValid t k s e b flag tick v in
              let h' = Listed-evict_one m t k s l (e, a, b, flag, tick) up.0 h in
              let (p, made, good) = plan_loop-Planned l s' v' up.1 h' in
              let fewer = entries-evict_one t k s e b flag tick key v other in
              let less = bytes-evict_one t k s e b flag tick key v other n in
              (
                record p { victims = (t, k) ∷ p.victims },
                plan_loop_take t k l _ _ e p big other a (rw (← fewer, ← less) made),
                record {
                  complete = λ r u j q ne. ground (arith, good.complete r u j, bytes_eq_iff k j);
                  oldest = take other good.oldest;
                  valid = good.valid;
                  entries = good.entries;
                  bytes = good.bytes;
                },
              )
        ]
      ]
