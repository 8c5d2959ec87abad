-- ===== src/Text/Keyed/Held.antt =====
-- A key of the registry while a VM holds its replacer (src/capabilities/text.rs).
use lur.Base.{
  ℕ, ◌<◌, ◌≡◌, refl, ap, ◌∙◌, inl, inr, Bool, true, false, Bool-cases, Option, none, some, [], ◌∷◌,
  ltb, ◌==◌, if◌then◌else◌, arith,
}
use lur.Base.Bytes.{Bytes, bytes_eq, bytes_eq_iff}
use lur.Base.Dict.{Dict, find, find-insert}
use lur.Text.Keyed.{
  Shape, Registry, retain, upgraded, live_matcher, release, make, ok, other_shape, same_shape,
  checked, register, found_or_built, keyed_matcher,
}

-- The key stands for the replacer `id`, which was made with a shape.
pub record Names (key : Bytes) (id : ℕ) (shape : Shape) (r : Registry) : Type 0 where
  pub found : find key r.keyed ≡ some id
  pub made : id < r.made
  pub same : r.shape id ≡ shape

-- It does, and a VM holds it.
abbrev pub IsHeld : Bytes → ℕ → Shape → Registry → Type 0
IsHeld key id shape r = Names key id shape r × (0 < r.strong id)

find-retain :
    (strong : ℕ → ℕ) (key : Bytes) (id : ℕ) (m : Dict ℕ)
    → find key m ≡ some id
    → 0 < strong id
    → find key (retain strong m) ≡ some id
unfolding find retain
find-retain strong key id [] e h = absurd (cc e)
find-retain strong key id ((k, j) ∷ m) e h = ground (arith, find-retain strong key id m)

-- The parts that `live_matcher` leaves.
upgraded-keyed :
    (o : Option ℕ) (r : Registry)
    → ((upgraded o r).1.keyed ≡ r.keyed)
      × ((upgraded o r).1.made ≡ r.made)
      × ((upgraded o r).1.shape ≡ r.shape)
upgraded-keyed none r = (refl, refl, refl)
upgraded-keyed (some id) r = elim (Bool-cases (ltb 0 (r.strong id))) [
  | inl y ↦ rw y (refl, refl, refl)
  | inr y ↦ rw y (refl, refl, refl)
]

live_matcher-Names :
    (key other : Bytes) (id : ℕ) (shape : Shape) (r : Registry)
    → IsHeld key id shape r
    → Names key id shape (live_matcher other r).1
unfolding live_matcher
live_matcher-Names key other id shape r (n, h) =
    let kept = retain r.strong r.keyed in
    let (k, m, s) = upgraded-keyed (find other kept) (record r { keyed = kept }) in
    record {
      found = ap (find key) k ∙ find-retain r.strong key id r.keyed n.found h;
      made = omega (arith, n.made, m);
      same = ap (λ f. f id) s ∙ n.same;
    }

-- A key that is held is found.
live_matcher-finds :
    (key : Bytes) (id : ℕ) (shape : Shape) (r : Registry)
    → IsHeld key id shape r
    → (live_matcher key r).0 ≡ some id
unfolding live_matcher
live_matcher-finds key id shape r (n, h) =
    let alive : ltb 0 (r.strong id) ≡ true = ground arith in
    rw (find-retain r.strong key id r.keyed n.found h, alive) refl

checked-Names :
    (key : Bytes) (id m : ℕ) (shape want : Shape) (r : Registry)
    → Names key id shape r
    → Names key id shape (checked m want r).1
unfolding checked
checked-Names key id m shape want r n = elim (Bool-cases (same_shape (r.shape m) want)) [
  | inl y ↦ rw y n
  | inr y ↦ rw y (record { found = n.found; made = n.made; same = n.same })
]

register-Names :
    (key other : Bytes) (id built : ℕ) (shape want : Shape) (o : Option ℕ) (r : Registry)
    → Names key id shape r
    → (bytes_eq other key ≡ true → o ≡ some id)
    → Names key id shape (register other want built (o, r)).1
unfolding register
register-Names key other id built shape want (some m) r n f =
    let c = checked-Names key id m shape want r n in
    record { found = c.found; made = c.made; same = c.same }
register-Names key other id built shape want none r n f = elim (Bool-cases (bytes_eq other key)) [
  | inl y ↦ absurd (cc (f y))
  | inr y ↦ record {
    found = find-insert other key built r.keyed ∙ rw y n.found;
    made = n.made;
    same = n.same;
  }
]

-- What another thread does to the registry between two locks.
pub data Turn (r : Registry) (r' : Registry) : Type 0 where
  looks : (key : Bytes) → r' ≡ (live_matcher key r).1 → Turn r r'
  makes : (shape : Shape) → r' ≡ make shape r → Turn r r'
  releases : (id : ℕ) → r' ≡ release id r → Turn r r'
  registers :
      (key : Bytes) (want : Shape) (built : ℕ)
      → r' ≡ (register key want built (live_matcher key r)).1
      → Turn r r'

Turn-Names :
    (key : Bytes) (id : ℕ) (shape : Shape) (r r' : Registry)
    → Turn r r'
    → IsHeld key id shape r
    → Names key id shape r'
Turn-Names key id shape r r' (looks other e) h = rw e (live_matcher-Names key other id shape r h)
Turn-Names key id shape r r' (makes s e) (n, h) =
    let ne : (id == r.made) ≡ false = ground (arith, n.made) in
    rw e (record { found = n.found; made = omega (arith, n.made); same = rw ne n.same })
Turn-Names key id shape r r' (releases j e) (n, h) =
    rw e (record { found = n.found; made = n.made; same = n.same })
Turn-Names key id shape r r' (registers other want built e) h = rw e (
    register-Names key other id built shape want (live_matcher other r).0 (live_matcher other r).1
      (live_matcher-Names key other id shape r h)
      (λ y.
        let mine : other ≡ key = (bytes_eq_iff other key).0 y in
        rw mine (live_matcher-finds key id shape r h)))

-- Turns of other threads while some VM holds the replacer `id`.
pub data Turns (id : ℕ) (r : Registry) : Registry → Type 0 where
  here : Turns id r r
  turn : {s t : Registry} → Turns id r s → Turn s t → 0 < t.strong id → Turns id r t

Turns-IsHeld :
    {key : Bytes} {id : ℕ} {shape : Shape} {r s : Registry}
    → IsHeld key id shape r
    → Turns id r s
    → IsHeld key id shape s
Turns-IsHeld h here = h
Turns-IsHeld {key} {id} {shape} h (turn {s} {t} run step held) =
    (Turn-Names key id shape s t step (Turns-IsHeld h run), held)

found_or_built-found :
    (key : Bytes) (id : ℕ) (shape want : Shape) (build : Registry → Bool × Registry)
    (after : Registry → Registry) (o : Option ℕ × Registry)
    → o.0 ≡ some id
    → o.1.shape id ≡ shape
    → (found_or_built key want build after o).0
      ≡ (if same_shape shape want then ok id else other_shape)
unfolding found_or_built checked
found_or_built-found key id shape want build after (none, r) e same = absurd (cc e)
found_or_built-found key id shape want build after (some m, r) e same =
    let x : m ≡ id = cc e in
    elim (Bool-cases (same_shape shape want)) [
      | inl y ↦ rw (x, same, y) refl
      | inr y ↦ rw (x, same, y) refl
    ]

-- The first definition of a key wins: while a VM holds the replacer of a key, whatever other threads
-- do to the registry, `keyed_matcher` gives that replacer for the key, or an error when the shape is another one.
pub keyed_matcher-held :
    (key : Bytes) (id : ℕ) (shape want : Shape) (build : Registry → Bool × Registry)
    (after : Registry → Registry) (r s : Registry)
    → IsHeld key id shape r
    → Turns id r s
    → (keyed_matcher key want build after s).0
      ≡ (if same_shape shape want then ok id else other_shape)
unfolding keyed_matcher
keyed_matcher-held key id shape want build after r s h run =
    let held = Turns-IsHeld h run in
    let e = live_matcher-finds key id shape s held in
    let n = live_matcher-Names key key id shape s held in
    found_or_built-found key id shape want build after (live_matcher key s) e n.same
