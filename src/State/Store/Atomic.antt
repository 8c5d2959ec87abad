-- ===== src/State/Store/Atomic.antt =====
-- Optimistic writes: compare-and-set, `update`, and the steps of other threads between a read
-- and its write (src/capabilities/state.rs).
use lur.Base.{
  ℕ, ◌≡◌, ◌<◌, ◌⊎◌, ap, ◌==◌, Option, none, some, Option-cases, Bool, true, false, Bool-cases, inl,
  inr, arith,
}
use lur.Base.Bytes.{Bytes}
use lur.Base.Dict.{find}
use lur.State.Entry.{Prim, Entry, Write, Limits}
use lur.State.Inner.{Inner, live, version, version_of}
use lur.State.Valid.{IsValid}
use lur.State.Valid.Reads.{fresh_of, live-fresh_of, live-IsValid}
use lur.State.Put.{Result, ok, err, PutError, put}
use lur.State.Store.{value_of, snapshot, done, compare_and_set, cas_value, same_value}
use lur.State.Store.Evolves.{Evolves, Evolves-trans, Evolves-live, Known}
use lur.State.Store.Steps.{Reach, Reach-IsValid, Reach-Evolves}

-- What a read of `key` sees at `now`.
abbrev pub seen : Bytes → ℕ → Inner → Option Entry
seen key now s = fresh_of now (find key s.map)

-- `IN_UPDATE` and the conversions aside, the loop of `update_fn`: rounds that lost the race, then
-- one that ends it. The transform `f` returns `none` when it raises. Between the two locked
-- sections of a round the other threads take any steps. `committed` also tells when the
-- compare-and-set that wrote took the lock, and the store that it found then.
pub data UpdateEnd : Type 0 where
  committed : ℕ → Inner → Option Prim → UpdateEnd
  raised : UpdateEnd
  refused : PutError → UpdateEnd

pub data UpdateRun (limits : Limits) (key : Bytes) (f : Option Prim → Option (Option Prim))
    (w : Write) : Inner → UpdateEnd → Inner → Type 0 where
  loses :
      (now now' : ℕ) (new : Option Prim) {s t t' : Inner} {r : UpdateEnd} {s' : Inner}
      → f (snapshot key now s).0.value ≡ some new
      → Reach limits (snapshot key now s).1 t
      → compare_and_set key (snapshot key now s).0.version new w now' limits t ≡ (ok false, t')
      → UpdateRun limits key f w t' r s'
      → UpdateRun limits key f w s r s'
  commits :
      (now now' : ℕ) (new : Option Prim) {s t s' : Inner} {r : UpdateEnd}
      → f (snapshot key now s).0.value ≡ some new
      → Reach limits (snapshot key now s).1 t
      → compare_and_set key (snapshot key now s).0.version new w now' limits t ≡ (ok true, s')
      → r ≡ committed now' t new
      → UpdateRun limits key f w s r s'
  fails :
      (now now' : ℕ) (new : Option Prim) (e : PutError) {s t s' : Inner} {r : UpdateEnd}
      → f (snapshot key now s).0.value ≡ some new
      → Reach limits (snapshot key now s).1 t
      → compare_and_set key (snapshot key now s).0.version new w now' limits t ≡ (err e, s')
      → r ≡ refused e
      → UpdateRun limits key f w s r s'
  raises :
      (now : ℕ) {s s' : Inner} {r : UpdateEnd}
      → f (snapshot key now s).0.value ≡ none
      → s' ≡ (snapshot key now s).1
      → r ≡ raised
      → UpdateRun limits key f w s r s'

seen-find :
    (key : Bytes) (now : ℕ) (s : Inner) (e : Entry)
    → seen key now s ≡ some e
    → find key s.map ≡ some e
seen-find key now s e h = ground arith

module _ (key : Bytes) {s t : Inner} (v : IsValid s) (v' : IsValid t) (evo : Evolves s t)
    (now now' : ℕ) where
  Known-value :
      (e f : Entry)
      → find key s.map ≡ some e
      → e.version ≡ f.version
      → (s.last_version < f.version) ⊎ Known s key f
      → e.value ≡ f.value
  Known-value e f found same (inl new) = absurd (omega (arith, (v.versioned key e found).1))
  Known-value e f found same (inr (d, found', p, q)) = ground (arith, found, found', q)

  -- Two reads that see one version see one value.
  same_version-same_value :
      version_of (seen key now s) ≡ version_of (seen key now' t)
      → value_of (seen key now s) ≡ value_of (seen key now' t)
  same_version-same_value h = elim (Option-cases (seen key now s)) [
    | inl a ↦ elim (Option-cases (seen key now' t)) [
      | inl b ↦ rw (a, b)
      | inr (f, b) ↦ absurd (ground (arith, a, b, v'.versioned key f (seen-find key now' t f b)))
    ]
    | inr (e, a) ↦
        let found = seen-find key now s e a in
        elim (Option-cases (seen key now' t)) [
          | inl b ↦ absurd (ground (arith, a, b, v.versioned key e found))
          | inr (f, b) ↦
              let same =
                Known-value e f found (ground (arith, a, b))
                  (evo.known key f (seen-find key now' t f b)) in
              rw (a, b) (ap some same)
        ]
  ]

done-ok :
    (r : Result (Unit {0})) (s : Inner) {s' : Inner}
    → ◌≡◌ {A = Result Bool × Inner} (done r, s) (ok true, s')
    → ◌≡◌ {A = Result (Unit {0}) × Inner} (r, s) (ok tt, s')
unfolding done
done-ok (ok u) s h = ground arith
done-ok (err e) s h = cc

-- A successful compare-and-set found the version that it was given, and has put the value.
compare_and_set-true :
    (key : Bytes) (n : ℕ) (value : Option Prim) (w : Write) (now : ℕ) (limits : Limits) (t : Inner)
    {s' : Inner}
    → compare_and_set key n value w now limits t ≡ (ok true, s')
    → (version_of (seen key now t) ≡ n)
      × (put key value w now limits (live key now t).1 ≡ (ok tt, s'))
unfolding compare_and_set version
compare_and_set-true key n value w now limits t h =
    elim (Bool-cases (version_of (live key now t).0 == n)) [
      | inl same ↦ (
        ground (arith, live-fresh_of key now t),
        let (r, t') = put key value w now limits (live key now t).1 in done-ok r t' (rw same at h),
      )
      | inr other ↦ absurd (ground arith)
    ]

-- A write of `new` that takes the lock at `at` and finds the store `before`: a read of `key` there
-- and then sees `old`, and the write leaves `s'`.
abbrev pub Replaces :
    Limits → Bytes → Write → ℕ → Inner → Option Prim → Option Prim → Inner → Type 0
Replaces limits key w at before old new s' =
    (value_of (seen key at before) ≡ old)
    × (put key new w at limits (live key at before).1 ≡ (ok tt, s'))

commit-Replaces :
    (limits : Limits) (key : Bytes) (w : Write) (now now' : ℕ) (new : Option Prim) (s t : Inner)
    {s' : Inner}
    → IsValid s
    → Reach limits (snapshot key now s).1 t
    → compare_and_set key (snapshot key now s).0.version new w now' limits t ≡ (ok true, s')
    → Replaces limits key w now' t (snapshot key now s).0.value new s'
unfolding snapshot
commit-Replaces limits key w now now' new s t v reach h =
    let l = live-IsValid key now v in
    let (same, writes) =
      compare_and_set-true key (version_of (live key now s).0) new w now' limits t h in
    let evo = Evolves-trans (Evolves-live key now s) (Reach-Evolves l reach) in
    (
      ground (
        arith,
        live-fresh_of key now s,
        same_version-same_value key v (Reach-IsValid l reach) evo now now',
        same,
      ),
      writes,
    )

-- `cas_value`, which `cas` and `add` call, compares and writes as one action: if the call reports
-- success, the value that a read would see in the store that the write finds, the one that the other
-- threads have left by then, equals the expected one, although the lock was free between the
-- comparison and the write; and the store afterwards is that of a plain write there. The store has to
-- be well formed, and other threads change it by its operations and use up neither ticks nor versions.
pub cas_atomic :
    (limits : Limits) (key : Bytes) (expected new : Option Prim) (w : Write) (now now' : ℕ)
    (between : Inner → Inner) (s : Inner) {s' : Inner}
    → IsValid s
    → Reach limits (snapshot key now s).1 (between (snapshot key now s).1)
    → cas_value key expected new w now between now' limits s ≡ (ok true, s')
    → (old : Option Prim) × (same_value old expected ≡ true)
      × Replaces limits key w now' (between (snapshot key now s).1) old new s'
unfolding cas_value
cas_atomic limits key expected new w now now' between s v reach h =
    elim (Bool-cases (same_value (snapshot key now s).0.value expected)) [
      | inl same ↦ (
        (snapshot key now s).0.value,
        same,
        commit-Replaces limits key w now now' new s (between (snapshot key now s).1) v reach
            (rw same at h),
      )
      | inr other ↦ cc
    ]
