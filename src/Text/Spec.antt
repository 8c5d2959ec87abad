-- ===== src/Text/Spec.antt =====
-- Which pair a replacer is to take at a position (src/capabilities/text.rs).
use lur.Base.{
  ℕ, zero, suc, ◌≡◌, refl, ap, inl, inr, Bool, none, some, List, [], ◌∷◌, ◌++◌, length, get_elem?,
  arith,
}
use lur.Base.Bytes.{Bytes}
use lur.Text.{Mode, Best, build, lookup}
use lur.Text.Trie.{walk}
use lur.Text.Build.{onto, length-onto}
use lur.Text.Pairs.{olds, FitsU32, build-Holds}
use lur.Text.Lookup.{Allowed, Wins, Continues, Outcome}
use lur.Text.Winner.{look-Outcome}

-- The old text of pair `k`, of `len` bytes, starts the text and may be taken.
pub record Candidate (pairs : List (Bytes × Bytes)) (skip_empty : Bool) (text : Bytes) (k len : ℕ)
    : Type 0 where
  pub old : Bytes
  pub new : Bytes
  pub rest : Bytes
  pub listed : get_elem? pairs k ≡ some (old, new)
  pub parts : text ≡ old ++ rest
  pub long : len ≡ length old
  pub allowed : Allowed skip_empty len

abbrev pub IsWinner : List (Bytes × Bytes) → Mode → Bool → Bytes → Best → Type 0
IsWinner pairs mode skip_empty text none = (k len : ℕ) → Candidate pairs skip_empty text k len → ⊥
IsWinner pairs mode skip_empty text (some (p, len)) =
    Candidate pairs skip_empty text p len
    × ((k l : ℕ) → Candidate pairs skip_empty text k l → Wins mode p len k l)

onto_inj : (xs ys r s : Bytes) → length r ≡ length s → onto r xs ≡ onto s ys → (r ≡ s) × (xs ≡ ys)
onto_inj [] [] r s l e = (e, refl)
onto_inj [] (y ∷ ys) r s l e = absurd (omega (arith, ap (length {A = ℕ}) e, length-onto (y ∷ s) ys))
onto_inj (x ∷ xs) [] r s l e = absurd (omega (arith, ap (length {A = ℕ}) e, length-onto (x ∷ r) xs))
onto_inj (x ∷ xs) (y ∷ ys) r s l e =
    let (a, b) = onto_inj xs ys (x ∷ r) (y ∷ s) (omega arith) e in
    let c : x ≡ y = cc a in (cc a, cc (c, b))

get_elem?-olds :
    (pairs : List (Bytes × Bytes)) (k : ℕ) (old : Bytes)
    → get_elem? (olds pairs) k ≡ some old
    → (new : Bytes) × (get_elem? pairs k ≡ some (old, new))
get_elem?-olds [] k old e = absurd (cc e)
get_elem?-olds ((o, n) ∷ pairs) zero old e = let same : o ≡ old = cc e in (n, cc same)
get_elem?-olds ((o, n) ∷ pairs) (suc k) old e = get_elem?-olds pairs k old e

olds-get_elem? :
    (pairs : List (Bytes × Bytes)) (k : ℕ) (old new : Bytes)
    → get_elem? pairs k ≡ some (old, new)
    → get_elem? (olds pairs) k ≡ some old
olds-get_elem? [] k old new e = absurd (cc e)
olds-get_elem? ((o, n) ∷ pairs) zero old new e = cc e
olds-get_elem? ((o, n) ∷ pairs) (suc k) old new e = olds-get_elem? pairs k old new e

module _ (pairs : List (Bytes × Bytes)) (mode : Mode) (skip_empty : Bool) (text : Bytes) where
  Candidate-Continues :
      (k len : ℕ)
      → Candidate pairs skip_empty text k len
      → Continues (olds pairs) mode skip_empty [] text k len
  Candidate-Continues k len c = record {
    old = c.old;
    u = c.old;
    v = c.rest;
    listed = olds-get_elem? pairs k c.old c.new c.listed;
    parts = c.parts;
    whole = refl;
    long = omega (arith, c.long);
    allowed = c.allowed;
  }

  Continues-Candidate :
      (k len : ℕ)
      → Continues (olds pairs) mode skip_empty [] text k len
      → Candidate pairs skip_empty text k len
  Continues-Candidate k len n =
      let (_, same) = onto_inj n.old n.u [] [] refl n.whole in
      let (new, listed) = get_elem?-olds pairs k n.old n.listed in
      record {
        old = n.old;
        new = new;
        rest = n.v;
        listed = listed;
        parts = rw same n.parts;
        long = rw same (omega (arith, n.long));
        allowed = n.allowed;
      }

  Outcome-IsWinner :
      (out : Best)
      → Outcome (olds pairs) mode skip_empty [] text none out
      → IsWinner pairs mode skip_empty text out
  Outcome-IsWinner none o = λ k len c. o.wins k len (Candidate-Continues k len c)
  Outcome-IsWinner (some (p, len)) o = elim o.from [
    | inl e ↦ absurd (cc e)
    | inr (q, l, e, n) ↦
        let x : p ≡ q = cc e in
        let y : len ≡ l = cc e in
        (rw (x, y) (Continues-Candidate q l n), λ k m c. o.wins k m (Candidate-Continues k m c))
  ]

-- Where the pairs and the bytes of their old texts can be counted in a `u32`, `lookup` in the trie of
-- the pairs finds the pair that wins at the start of a text, and none only if no pair may be taken.
pub lookup-IsWinner :
    (pairs : List (Bytes × Bytes)) (mode : Mode) (skip_empty : Bool) (text : Bytes)
    → FitsU32 pairs
    → IsWinner pairs mode skip_empty text (lookup (build pairs mode) text skip_empty).0
unfolding lookup build walk
lookup-IsWinner pairs mode skip_empty text fits = Outcome-IsWinner pairs mode skip_empty text _ (
    look-Outcome (olds pairs) _ (build-Holds pairs mode fits) mode skip_empty text [] 0 none refl
      tt)
