-- ===== src/State/Store/Evolves.antt =====
-- How values and versions evolve under the operations of the store
-- (src/capabilities/state.rs).
use lur.Base.{ℕ, ◌+◌, ◌≡◌, ◌≤◌, ◌<◌, ◌⊎◌, refl, inl, inr, Option, none, some, Bool-cases, arith}
use lur.Base.Bytes.{Bytes, bytes_eq}
use lur.Base.Dict.{find, passes}
use lur.State.Entry.{Prim, Entry, Write, Limits}
use lur.State.Inner.{Inner, u64_inc, remove, live, touch}
use lur.State.Valid.{IsValid}
use lur.State.Valid.Remove.{find-remove}
use lur.State.Valid.Reads.{find-touch, live-remove, is_dead_at, restamped}
use lur.State.Put.{Result, put, cost, sweep}
use lur.State.Put.Room.{Room, fits, evicts, stuck, find-evict}
use lur.State.Put.Frame.{SameFrame-remove, SameFrame-live, SameFrame-sweep, SameFrame-trans}
use lur.State.Put.Insert.{HasVersions, find-insert_fresh, last_version-insert_fresh}
use lur.State.Put.Survive.{readied-find, trimmed-find}
use lur.State.Put.Outcome.{too_big, no_room, stored, put-Ending, end_meta, SameFrame-end_trim}

-- The entry was there before, under the same version and with the same value.
abbrev pub Known : Inner → Bytes → Entry → Type 0
Known s k f = (e : Entry) × (find k s.map ≡ some e) × (e.version ≡ f.version) × (e.value ≡ f.value)

pub record Evolves (s s' : Inner) : Type 0 where
  pub newer : s.last_version ≤ s'.last_version
  pub known :
      (k : Bytes) (f : Entry) → find k s'.map ≡ some f → (s.last_version < f.version) ⊎ Known s k f

pub Evolves-refl : (s : Inner) → Evolves s s
Evolves-refl s = record { newer = omega arith; known = λ k f h. inr (f, h, refl, refl) }

pub Evolves-trans : {s t u : Inner} → Evolves s t → Evolves t u → Evolves s u
Evolves-trans {s} {t} {u} a b = record {
  newer = omega (arith, a.newer, b.newer);
  known = λ k f h. go k f (b.known k f h);
}
  where
    later :
        (k : Bytes) (f e : Entry)
        → e.version ≡ f.version
        → e.value ≡ f.value
        → (s.last_version < e.version) ⊎ Known s k e
        → (s.last_version < f.version) ⊎ Known s k f
    later k f e p q (inl new) = inl (omega arith)
    later k f e p q (inr (d, found, v, w)) = inr (d, found, ground arith, ground arith)

    go :
        (k : Bytes) (f : Entry)
        → (t.last_version < f.version) ⊎ Known t k f
        → (s.last_version < f.version) ⊎ Known s k f
    go k f (inl new) = inl (omega (arith, a.newer))
    go k f (inr (e, found, p, q)) = later k f e p q (a.known k e found)

Evolves-remove : (k : Bytes) (s : Inner) → Evolves s (remove k s)
Evolves-remove k s = record {
  newer = omega (arith, (SameFrame-remove k s).last_version);
  known = λ j f h. inr (f, ground (arith, find-remove k j s), refl, refl);
}

pub Evolves-live : (k : Bytes) (now : ℕ) (s : Inner) → Evolves s (live k now s).1
Evolves-live k now s =
    rw (live-remove k now s) (elim (Bool-cases (passes (is_dead_at now) (find k s.map))) [
      | inl dies ↦ rw dies (Evolves-remove k s)
      | inr lives ↦ rw lives (Evolves-refl s)
    ])

last_version-touch : (k : Bytes) (s : Inner) → (touch k s).last_version ≡ s.last_version
unfolding touch
last_version-touch k s = ground arith

-- A stamp changes no value and no version.
restamped-known :
    (t : ℕ) (o : Option Entry) (f : Entry)
    → restamped t o ≡ some f
    → (e : Entry) × (o ≡ some e) × (e.version ≡ f.version) × (e.value ≡ f.value)
restamped-known t none f h = cc
restamped-known t (some e) f h = (e, refl, ground arith, ground arith)

pub Evolves-touch : (k : Bytes) (s : Inner) → Evolves s (touch k s)
Evolves-touch k s = record {
  newer = omega (arith, last_version-touch k s);
  known = λ j f h. elim (Bool-cases (bytes_eq k j)) [
    | inl same ↦
        inr (
          restamped-known (u64_inc s.next_tick) (find j s.map) f (ground (arith, find-touch k s j)))
    | inr other ↦ inr (f, ground (arith, find-touch k s j), refl, refl)
  ];
}

Room-find :
    {key : Bytes} {n : ℕ} {limits : Limits} {t : Inner} {r : Result (Unit {0}) × Inner}
    → Room key n limits t r
    → (j : Bytes) (f : Entry) → find j r.1.map ≡ some f
    → find j t.map ≡ some f
Room-find (fits p small) j f h = ground (arith, p)
Room-find {t = t} (evicts l p o big w small) j f h = ground (arith, p, find-evict l t j)
Room-find (stuck l p o c w big) j f h = ground (arith, p)

module _ (key : Bytes) (value : Prim) (w : Write) (now : ℕ) (limits : Limits) (s : Inner)
    (v : IsValid s) (versions : HasVersions s) where
  Evolves-put_value : Evolves s (put key (some value) w now limits s).1
  Evolves-put_value = elim (put-Ending key value w now limits s v) [
    | too_big big p ↦
        let a = SameFrame-trans (SameFrame-sweep now s) (SameFrame-live now (sweep now s) key) in
        rw p (record {
          newer = omega (arith, a.last_version);
          known = λ j f h. inr (f, readied-find now s v key j f h, refl, refl);
        })
    | no_room room p ↦
        let a = SameFrame-end_trim key value w now limits s v in
        rw p (record {
          newer = omega (arith, a.last_version);
          known =
              λ j f h. inr (f, trimmed-find now s v key (cost key value) limits j f h, refl, refl);
        })
    | stored t room t-IsValid frame small p ↦
        let a = SameFrame-end_trim key value w now limits s v in
        let n = cost key value in
        let m = end_meta key value w now limits s v in
        let last : u64_inc t.last_version ≡ s.last_version + 1 =
          omega (arith, a.last_version, frame.last_version) in
        rw p (record {
          newer = omega (arith, last, last_version-insert_fresh key value m n t);
          known = λ j f h. elim (Bool-cases (bytes_eq key j)) [
            | inl same ↦ inl (ground (arith, find-insert_fresh key value m n t j, last))
            | inr other ↦ inr (
              f,
              trimmed-find now s v key n limits j f
                  (Room-find room j f (ground (arith, find-insert_fresh key value m n t j))),
              refl,
              refl,
            )
          ];
        })
  ]

pub Evolves-put :
    (key : Bytes) (value : Option Prim) (w : Write) (now : ℕ) (limits : Limits) (s : Inner)
    → IsValid s
    → HasVersions s
    → Evolves s (put key value w now limits s).1
unfolding put
Evolves-put key none w now limits s v versions = Evolves-remove key s
Evolves-put key (some value) w now limits s v versions =
    Evolves-put_value key value w now limits s v versions
