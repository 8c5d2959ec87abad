-- ===== src/Text/Lookup.antt =====
-- The pair that wins at a position (src/capabilities/text.rs, `Matcher::lookup`).
use lur.Base.{
  ℕ, ◌+◌, ◌<◌, ◌≤◌, ◌≡◌, refl, ap, ◌⊎◌, inl, inr, Bool, true, false, ◌&&◌, Bool-cases, Option, none,
  some, if◌then◌else◌, List, [], ◌∷◌, ◌++◌, length, get_elem?, ◌==◌, ltb, arith,
}
use lur.Base.Bytes.{Bytes}
use lur.Text.{Mode, first, longest, Best, offered, earlier}
use lur.Text.Build.{onto, Finds}

-- A pair may be taken: an empty text is left out where the match before it was empty.
abbrev pub Allowed : Bool → ℕ → Type 0
Allowed skip_empty len = (len == 0 && skip_empty) ≡ false

-- The pair `p` with a text of `len` bytes wins over `k` with one of `l` bytes, or is the same.
abbrev pub Wins : Mode → ℕ → ℕ → ℕ → ℕ → Type 0
Wins first p len k l = p ≤ k
Wins longest p len k l = (l < len) ⊎ ((l ≡ len) × (p ≤ k))

abbrev pub BestWins : Mode → Best → ℕ → ℕ → Type 0
BestWins mode none k l = ⊥
BestWins mode (some (p, len)) k l = Wins mode p len k l

Wins-trans :
    (mode : Mode) (p len k l j m : ℕ)
    → Wins mode p len k l
    → Wins mode k l j m
    → Wins mode p len j m
Wins-trans first p len k l j m a b = omega arith
Wins-trans longest p len k l j m a b = ground arith

pub BestWins-trans :
    (mode : Mode) (o : Best) (k l j m : ℕ)
    → BestWins mode o k l
    → Wins mode k l j m
    → BestWins mode o j m
BestWins-trans mode none k l j m a b = a
BestWins-trans mode (some (p, len)) k l j m a b = Wins-trans mode p len k l j m a b

module _ (texts : List Bytes) (mode : Mode) (skip_empty : Bool) where
  -- The text `k` continues what was read (`r`) by `u`, and `u` starts what is left (`rest`).
  pub record Continues (r rest : Bytes) (k len : ℕ) : Type 0 where
    pub old : Bytes
    pub u : Bytes
    pub v : Bytes
    pub listed : get_elem? texts k ≡ some old
    pub parts : rest ≡ u ++ v
    pub whole : onto [] old ≡ onto r u
    pub long : len ≡ length r + length u
    pub allowed : Allowed skip_empty len

  -- The text `k` is `r`.
  unfoldable pub Here : Bytes → ℕ → ℕ → Type 0
  Here r k len =
      (old : Bytes) × (get_elem? texts k ≡ some old)
      × (onto [] old ≡ r)
      × (len ≡ length r)
      × Allowed skip_empty len

  pub Here-Continues : (r rest : Bytes) (k len : ℕ) → Here r k len → Continues r rest k len
  unfolding Here
  Here-Continues r rest k len (old, g, e, l, a) = record {
    old = old;
    u = [];
    v = rest;
    listed = g;
    parts = refl;
    whole = e;
    long = omega arith;
    allowed = a;
  }

  pub Continues-byte :
      (c : ℕ) (r rest : Bytes) (k len : ℕ)
      → Continues (c ∷ r) rest k len
      → Continues r (c ∷ rest) k len
  Continues-byte c r rest k len n = record {
    old = n.old;
    u = c ∷ n.u;
    v = n.v;
    listed = n.listed;
    parts = ap (λ l. c ∷ l) n.parts;
    whole = n.whole;
    long = omega (arith, n.long);
    allowed = n.allowed;
  }

  module _ (r : Bytes) (k len : ℕ) (old v : Bytes) (listed : get_elem? texts k ≡ some old)
      (allowed : Allowed skip_empty len) where
    end_at :
        (u : Bytes)
        → [] ≡ u ++ v
        → onto [] old ≡ onto r u
        → len ≡ length r + length u
        → Here r k len
    unfolding Here
    end_at [] s w l = (old, listed, w, omega arith, allowed)
    end_at (x ∷ u) s w l = absurd (cc s)

    cases_at :
        (c : ℕ) (rest u : Bytes)
        → (c ∷ rest) ≡ u ++ v
        → onto [] old ≡ onto r u
        → len ≡ length r + length u
        → Here r k len ⊎ Continues (c ∷ r) rest k len
    unfolding Here
    cases_at c rest [] s w l = inl (old, listed, w, omega arith, allowed)
    cases_at c rest (x ∷ u) s w l =
        let same : c ≡ x = cc s in
        inr (record {
          old = old;
          u = u;
          v = v;
          listed = listed;
          parts = cc s;
          whole = rw same w;
          long = omega arith;
          allowed = allowed;
        })

  pub Continues-end : (r : Bytes) (k len : ℕ) → Continues r [] k len → Here r k len
  Continues-end r k len n = end_at r k len n.old n.v n.listed n.allowed n.u n.parts n.whole n.long

  pub Continues-cases :
      (c : ℕ) (r rest : Bytes) (k len : ℕ)
      → Continues r (c ∷ rest) k len
      → Here r k len ⊎ Continues (c ∷ r) rest k len
  Continues-cases c r rest k len n =
      cases_at r k len n.old n.v n.listed n.allowed c rest n.u n.parts n.whole n.long

  -- What was found before was shorter than what is read now.
  abbrev pub Older : ℕ → Best → Type 0
  Older n none = Unit {0}
  Older n (some (p, len)) = len < n

  -- What a node offers.
  pub record Offers (r : Bytes) (best out : Best) : Type 0 where
    pub from : (out ≡ best) ⊎ ((p : ℕ) × (out ≡ some (p, length r)) × Here r p (length r))
    pub wins : (k len : ℕ) → Here r k len → BestWins mode out k len
    pub keeps : (k len : ℕ) → best ≡ some (k, len) → BestWins mode out k len
    pub older : Older (length r + 1) out

  -- The outcome of the loop from `best` on.
  pub record Outcome (r rest : Bytes) (best out : Best) : Type 0 where
    pub from : (out ≡ best) ⊎ ((p len : ℕ) × (out ≡ some (p, len)) × Continues r rest p len)
    pub wins : (k len : ℕ) → Continues r rest k len → BestWins mode out k len
    pub keeps : (k len : ℕ) → best ≡ some (k, len) → BestWins mode out k len

  Wins-refl : (p len : ℕ) → Wins mode p len p len
  Wins-refl p len = elim mode as (λ m. Wins m p len p len) [
    | first ↦ omega arith
    | longest ↦ inr (refl, omega arith)
  ]

  self-BestWins : (best : Best) (k len : ℕ) → best ≡ some (k, len) → BestWins mode best k len
  self-BestWins best k len e = rw e (Wins-refl k len)

  -- The node's pair is taken, and wins over what was found before.
  taken-Offers :
      (r : Bytes) (best : Best) (p : ℕ)
      → Finds texts r (some p)
      → Allowed skip_empty (length r)
      → ((k len : ℕ) → best ≡ some (k, len) → Wins mode p (length r) k len)
      → Offers r best (some (p, length r))
  unfolding Here
  taken-Offers r best p ((o, g, e), least) a better = record {
    from = inr (p, refl, (o, g, e, refl, a));
    wins = λ k len (old, g', e', l, _). rw l (elim mode as (λ m. Wins m p (length r) k (length r)) [
      | first ↦ least k old g' e'
      | longest ↦ inr (refl, least k old g' e')
    ]);
    keeps = better;
    older = omega arith;
  }

  Older-weaken : (n : ℕ) (best : Best) → Older n best → Older (n + 1) best
  Older-weaken n none h = h
  Older-weaken n (some (p, len)) h = omega arith

  -- Nothing is taken.
  kept-Offers :
      (r : Bytes) (best : Best)
      → Older (length r) best
      → ((k len : ℕ) → Here r k len → BestWins mode best k len)
      → Offers r best best
  kept-Offers r best o wins = record {
    from = inl refl;
    wins = wins;
    keeps = self-BestWins best;
    older = Older-weaken (length r) best o;
  }

-- A pair that is skipped is not allowed.
skipped :
    (skip_empty : Bool) (len n : ℕ)
    → len ≡ n
    → (n == 0 && skip_empty) ≡ true
    → Allowed skip_empty len
    → ⊥
skipped skip_empty len n e y a = let a' = rw e at a in cc (y, a')

first_taken :
    (texts : List Bytes) (skip_empty : Bool) (r : Bytes) (best : Best) (p : ℕ)
    → Older texts first skip_empty (length r) best
    → Finds texts r (some p)
    → Allowed skip_empty (length r)
    → Offers texts first skip_empty r best (if earlier p best then some (p, length r) else best)
unfolding earlier Here
first_taken texts skip_empty r none p o f a =
    taken-Offers texts first skip_empty r none p f a λ k len e. absurd (cc e)
first_taken texts skip_empty r (some (b, l)) p o f a = elim (Bool-cases (ltb p b)) [
  | inl y ↦ rw y (
      taken-Offers texts first skip_empty r (some (b, l)) p f a
        λ k len e. let x : b ≡ k = cc e in ground arith)
  | inr n ↦ rw n (
      kept-Offers texts first skip_empty r (some (b, l)) o
        λ k len (old, g, e, l', a'). let least = f.1 k old g e in ground arith)
]

pub offered-Offers :
    (texts : List Bytes) (mode : Mode) (skip_empty : Bool) (r : Bytes) (best : Best)
    (pair : Option ℕ)
    → Older texts mode skip_empty (length r) best
    → Finds texts r pair
    → Offers texts mode skip_empty r best (offered mode pair (length r) skip_empty best)
unfolding offered earlier Here
offered-Offers texts mode skip_empty r best none o f =
    kept-Offers texts mode skip_empty r best o λ k len (old, g, e, _, _). absurd (f k old g e)
offered-Offers texts longest skip_empty r best (some p) o f =
    elim (Bool-cases (length r == 0 && skip_empty)) [
      | inl y ↦ rw y (
          kept-Offers texts longest skip_empty r best o
            λ k len (old, g, e, l, a). absurd (skipped skip_empty len (length r) l y a))
      | inr n ↦ rw n (
          taken-Offers texts longest skip_empty r best p f n
            λ k len e. let o' = rw e at o in inl o')
    ]
offered-Offers texts first skip_empty r best (some p) o f =
    elim (Bool-cases (length r == 0 && skip_empty)) [
      | inl y ↦ rw y (
          kept-Offers texts first skip_empty r best o
            λ k len (old, g, e, l, a). absurd (skipped skip_empty len (length r) l y a))
      | inr n ↦ rw n (first_taken texts skip_empty r best p o f n)
    ]
