-- ===== src/Flights/Cycle.antt =====
-- `waits_for` against the chains of waits it follows (src/capabilities/state.rs).
use lur.Base.{
  ℕ, zero, suc, ◌+◌, ◌≡◌, ◌<◌, ◌↔◌, refl, inl, inr, none, some, Bool, Bool-cases, true, false, ◌||◌,
  List, [], ◌∷◌, ◌++◌, length, length-append, if◌then◌else◌, arith,
}
use lur.Base.Bytes.{Bytes, bytes_eq, bytes_eq_iff, bytes_eq_refl}
use lur.Base.Dict.{Dict, find, Uniq, total, contains}
use lur.State.Inner.{Flight, Inner}
use lur.Flights.{Chain, on_chain, keys, waits_of, waits_loop, edges, waits_for}

-- A key waits for `t`: it is `t`, or a key that its loader waits on waits for `t`.
pub data WaitsOn (fl : Dict Flight) (t : Bytes) : Bytes → Type 0 where
  self : {k : Bytes} → k ≡ t → WaitsOn fl t k
  through :
      {k : Bytes} (j : Bytes) → contains j (waits_of k fl) ≡ true → WaitsOn fl t j → WaitsOn fl t k

-- The waits that the loop has not followed yet.
pending : List Bytes → Dict Flight → ℕ
pending seen [] = 0
pending seen ((k, f) ∷ fl) =
    let rest = pending seen fl in (if contains k seen then 0 else length (keys f.waits)) + rest

pending-none : (fl : Dict Flight) → pending [] fl ≡ edges fl
unfolding pending edges contains total
pending-none [] = refl
pending-none ((k, f) ∷ fl) = ground (arith, pending-none fl)

pending-absent :
    (k : Bytes) (seen : List Bytes) (fl : Dict Flight)
    → find k fl ≡ none
    → pending (k ∷ seen) fl ≡ pending seen fl
unfolding pending contains find
pending-absent k seen [] h = refl
pending-absent k seen ((j, f) ∷ fl) h =
    ground (arith, pending-absent k seen fl, bytes_eq_iff k j, bytes_eq_iff j k)

pending-seen :
    (k : Bytes) (seen : List Bytes) (fl : Dict Flight)
    → Uniq fl
    → contains k seen ≡ false
    → pending (k ∷ seen) fl + length (waits_of k fl) ≡ pending seen fl
unfolding pending waits_of find contains
pending-seen k seen [] u h = refl
pending-seen k seen ((j, f) ∷ fl) u h = elim (Bool-cases (bytes_eq j k)) [
  | inl same ↦ ground (arith, pending-absent k seen fl, bytes_eq_iff k j, bytes_eq_iff j k)
  | inr other ↦ ground (arith, pending-seen k seen fl u.1, bytes_eq_iff k j, bytes_eq_iff j k)
]

loop-ends :
    (fuel : ℕ) (fl : Dict Flight) (chain : Chain) (seen stack : List Bytes)
    → Uniq fl
    → length stack + pending seen fl < fuel
    → (b : Bool) × (waits_loop fuel fl chain seen stack ≡ some b)
unfolding waits_loop
loop-ends zero fl chain seen stack u h = absurd (omega arith)
loop-ends (suc n) fl chain seen [] u h = (false, refl)
loop-ends (suc n) fl chain seen (k ∷ stack) u h = elim (Bool-cases (on_chain k chain)) [
  | inl found ↦ (true, rw found refl)
  | inr off ↦ elim (Bool-cases (contains k seen)) [
    | inl old ↦ rw (off, old) (loop-ends n fl chain seen stack u (omega arith))
    | inr new ↦
        rw (off, new)
          (loop-ends n fl chain (k ∷ seen) (waits_of k fl ++ stack) u
            (omega (arith, pending-seen k seen fl u new, length-append (waits_of k fl) stack)))
  ]
]

contains-append :
    (j : Bytes) (xs ys : List Bytes) → contains j (xs ++ ys) ≡ (contains j xs || contains j ys)
unfolding contains
contains-append j [] ys = refl
contains-append j (x ∷ xs) ys = ground (arith, contains-append j xs ys)

-- A key of the stack that waits for a key of the chain.
Found : Dict Flight → Chain → List Bytes → Type 0
Found fl chain stack =
    (k t : Bytes) × (contains k stack ≡ true) × (on_chain t chain ≡ true) × WaitsOn fl t k

loop-Found :
    (fuel : ℕ) (fl : Dict Flight) (chain : Chain) (seen stack : List Bytes)
    → waits_loop fuel fl chain seen stack ≡ some true
    → Found fl chain stack
unfolding waits_loop contains Found
loop-Found zero fl chain seen stack h = cc
loop-Found (suc n) fl chain seen [] h = absurd (ground arith)
loop-Found (suc n) fl chain seen (k ∷ stack) h = elim (Bool-cases (on_chain k chain)) [
  | inl found ↦ (k, k, rw (bytes_eq_refl k) refl, found, self refl)
  | inr off ↦ elim (Bool-cases (contains k seen)) [
    | inl old ↦
        let (j, t, there, goal, waits) = loop-Found n fl chain seen stack (rw (off, old) at h) in
        (j, t, ground arith, goal, waits)
    | inr new ↦
        let (j, t, there, goal, waits) =
          loop-Found n fl chain (k ∷ seen) (waits_of k fl ++ stack) (rw (off, new) at h) in
        elim (Bool-cases (contains j (waits_of k fl))) [
          | inl direct ↦ (k, t, rw (bytes_eq_refl k) refl, goal, through j direct waits)
          | inr later ↦ (j, t, ground (arith, contains-append j (waits_of k fl) stack), goal, waits)
        ]
  ]
]

-- What is known of the keys seen: none is on the chain, and what they wait on has been seen or is
-- on the stack.
record Closed (fl : Dict Flight) (chain : Chain) (seen stack : List Bytes) : Type 0 where
  off : (k : Bytes) → contains k seen ≡ true → on_chain k chain ≡ false
  waits :
      (k j : Bytes)
      → contains k seen ≡ true
      → contains j (waits_of k fl) ≡ true
      → (contains j seen || contains j stack) ≡ true

Closed-off :
    (fl : Dict Flight) (chain : Chain) (seen : List Bytes)
    → Closed fl chain seen []
    → (t k : Bytes) → contains k seen ≡ true
    → WaitsOn fl t k
    → on_chain t chain ≡ false
unfolding contains
Closed-off fl chain seen c t k there (self e) = rw (← e) (c.off k there)
Closed-off fl chain seen c t k there (through j waits rest) =
    Closed-off fl chain seen c t j (ground (arith, c.waits k j there waits)) rest

loop-off :
    (fuel : ℕ) (fl : Dict Flight) (chain : Chain) (seen stack : List Bytes)
    → Closed fl chain seen stack
    → waits_loop fuel fl chain seen stack ≡ some false
    → (k t : Bytes) → (contains k seen || contains k stack) ≡ true
    → WaitsOn fl t k
    → on_chain t chain ≡ false
unfolding waits_loop contains
loop-off zero fl chain seen stack c h k t there waits = cc
loop-off (suc n) fl chain seen [] c h k t there waits =
    Closed-off fl chain seen c t k (ground arith) waits
loop-off (suc n) fl chain seen (i ∷ stack) c h k t there waits =
    elim (Bool-cases (on_chain i chain)) [
      | inl found ↦ absurd (ground arith)
      | inr off ↦ elim (Bool-cases (contains i seen)) [
        | inl old ↦
            loop-off n fl chain seen stack
              (record {
                off = c.off;
                waits =
                    λ a b in_seen edge. ground (arith, c.waits a b in_seen edge, bytes_eq_iff i b);
              })
              (rw (off, old) at h) k t (ground (arith, bytes_eq_iff i k)) waits
        | inr new ↦
            loop-off n fl chain (i ∷ seen) (waits_of i fl ++ stack)
              (record {
                off = λ a in_seen. ground (arith, c.off a, bytes_eq_iff i a);
                waits = λ a b in_seen edge.
                    ground (
                      arith,
                      c.waits a b,
                      bytes_eq_iff i a,
                      contains-append b (waits_of i fl) stack,
                    );
              })
              (rw (off, new) at h) k t (ground (arith, contains-append k (waits_of i fl) stack))
              waits
      ]
    ]

-- `waits_for` always ends, and says yes exactly if the key is on the chain or waits, through the
-- loaders in flight, for a key of the chain: a wait is refused if and only if it would close a
-- cycle of waits.
pub waits_for_lem :
    (key : Bytes) (chain : Chain) (s : Inner)
    → Uniq s.flights
    → (b : Bool) × (waits_for key chain s ≡ some b)
      × ((b ≡ true) ↔ ((t : Bytes) × (on_chain t chain ≡ true) × WaitsOn s.flights t key))
unfolding waits_for contains Found
waits_for_lem key chain s u =
    let (b, walked) =
      loop-ends (edges s.flights + 2) s.flights chain [] (key ∷ []) u
        (omega (arith, pending-none s.flights)) in
    (
      b,
      walked,
      (
        (λ yes'.
            let (k, t, there, goal, waits) =
              loop-Found (edges s.flights + 2) s.flights chain [] (key ∷ []) (rw yes' at walked) in
            (t, goal, rw (← (bytes_eq_iff key k).0 (ground arith)) at waits)),
        (λ (t, goal, waits). elim (Bool-cases b) [
          | inl yes' ↦ yes'
          | inr no' ↦ absurd (
              ground (
                arith,
                loop-off (edges s.flights + 2) s.flights chain [] (key ∷ [])
                    (record {
                      off = λ k h. absurd (ground arith);
                      waits = λ k j h. absurd (ground arith);
                    })
                    (rw no' at walked) key t (rw (bytes_eq_refl key) refl) waits,
              ))
        ]),
      ),
    )
