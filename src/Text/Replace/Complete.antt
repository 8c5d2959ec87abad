-- ===== src/Text/Replace/Complete.antt =====
-- The results of the pass over a text, and of `Matcher::replace` (src/capabilities/text.rs).
use mathlib.Core.List.{append_cancel_left}
use lur.Base.{
  ℕ, ◌≤◌, ◌≡◌, sym, ap, ◌∙◌, Bool, false, none, some, List, [], ◌∷◌, ◌++◌, length, ◌==◌, arith,
}
use lur.Base.Bytes.{Bytes}
use lur.Text.{Mode, first, longest, build}
use lur.Text.Pairs.{FitsU32}
use lur.Text.Lookup.{Wins}
use lur.Text.Spec.{IsWinner}
use lur.Text.Replace.{Replaced, done, too_large, interrupted, out_of_fuel, replace}
use lur.Text.Replace.Rewrites.{Rewrites, stop, keep, swap}
use lur.Text.Replace.Round.{Ends}
use lur.Text.Replace.Loop.{replace-Ends}

Wins-both : (mode : Mode) (p len k l : ℕ) → Wins mode p len k l → Wins mode k l p len → p ≡ k
Wins-both first p len k l a b = omega arith
Wins-both longest p len k l a b = ground arith

module _ (pairs : List (Bytes × Bytes)) (mode : Mode) where
  no_winner :
      (skip_empty : Bool) (text : Bytes) (p len : ℕ)
      → IsWinner pairs mode skip_empty text none
      → IsWinner pairs mode skip_empty text (some (p, len))
      → ⊥
  no_winner skip_empty text p len f (c, _) = f p len c

  one_winner :
      (skip_empty : Bool) (text : Bytes) (p len k l : ℕ)
      → IsWinner pairs mode skip_empty text (some (p, len))
      → IsWinner pairs mode skip_empty text (some (k, l))
      → p ≡ k
  one_winner skip_empty text p len k l (c, wins) (d, also) =
      Wins-both mode p len k l (wins k l d) (also p len c)

  pub Rewrites-unique :
      {skip_empty : Bool} {text out out' : Bytes}
      → Rewrites pairs mode skip_empty text out
      → Rewrites pairs mode skip_empty text out'
      → out ≡ out'
  Rewrites-unique (stop w t o) (stop w' t' o') = o ∙ sym o'
  Rewrites-unique (stop w t o) (keep b rest more w' t' o' r) = absurd (cc (t, t'))
  Rewrites-unique {skip_empty} {text} (stop w t o) (swap p old new rest more w' g t' o' r) =
      absurd (no_winner skip_empty text p (length old) w w')
  Rewrites-unique (keep b rest more w t o r) (stop w' t' o') = absurd (cc (t, t'))
  Rewrites-unique (keep b rest more w t o r) (keep b' rest' more' w' t' o' r') =
      let same : rest ≡ rest' = cc (t, t') in
      let s' : Rewrites pairs mode false rest more' = rw same r' in
      let first_byte : b ≡ b' = cc (t, t') in
      o ∙ ap (λ l. l ∷ more) first_byte ∙ ap (λ l. b' ∷ l) (Rewrites-unique r s') ∙ sym o'
  Rewrites-unique {skip_empty} {text} (keep b rest more w t o r)
        (swap p old new rest' more' w' g t' o' r') =
      absurd (no_winner skip_empty text p (length old) w w')
  Rewrites-unique {skip_empty} {text} (swap p old new rest more w g t o r) (stop w' t' o') =
      absurd (no_winner skip_empty text p (length old) w' w)
  Rewrites-unique {skip_empty} {text} (swap p old new rest more w g t o r)
        (keep b rest' more' w' t' o' r') =
      absurd (no_winner skip_empty text p (length old) w' w)
  Rewrites-unique {skip_empty} {text} (swap p old new rest more w g t o r)
        (swap p' old' new' rest' more' w' g' t' o' r') =
      let q = one_winner skip_empty text p (length old) p' (length old') w w' in
      let same_old : old ≡ old' = cc (q, g, g') in
      let same_new : new ≡ new' = cc (q, g, g') in
      let same = append_cancel_left old rest rest' (sym t ∙ (rw (← same_old) at t')) in
      let s' : Rewrites pairs mode (length old == 0) rest more' = rw (same, same_old) r' in
      let more_same = Rewrites-unique r s' in
      o ∙ ap (λ l. l ++ more) same_new ∙ ap (λ l. new' ++ l) more_same ∙ sym o'

returned :
    (pairs : List (Bytes × Bytes)) (mode : Mode) (text out : Bytes) (budget : ℕ)
    (interrupt : ℕ → Bool) (r : Replaced)
    → ((n : ℕ) → interrupt n ≡ false)
    → Rewrites pairs mode false text out
    → length out ≤ budget
    → Ends pairs mode text budget interrupt false text [] r
    → r ≡ done out
returned pairs mode text out budget interrupt (done r) quiet w fine (o, v, e, l) =
    ap done (e ∙ Rewrites-unique pairs mode v w)
returned pairs mode text out budget interrupt too_large quiet w fine (o, v, l) =
    let same = Rewrites-unique pairs mode v w in absurd (omega (arith, ap (length {A = ℕ}) same))
returned pairs mode text out budget interrupt interrupted quiet w fine (n, e) =
    absurd (cc (quiet n, e))
returned pairs mode text out budget interrupt out_of_fuel quiet w fine e = absurd e

-- Where the pairs and the bytes of their old texts can be counted in a `u32`, and no poll interrupts,
-- `replace` with the trie of the pairs returns the rewriting of the text, if it keeps to the budget.
pub replace-Returns :
    (pairs : List (Bytes × Bytes)) (mode : Mode) (text out : Bytes) (budget : ℕ)
    (interrupt : ℕ → Bool)
    → FitsU32 pairs
    → ((n : ℕ) → interrupt n ≡ false)
    → Rewrites pairs mode false text out
    → length out ≤ budget
    → replace (build pairs mode) text budget interrupt ≡ done out
replace-Returns pairs mode text out budget interrupt fits quiet w fine =
    returned pairs mode text out budget interrupt _ quiet w fine
      (replace-Ends pairs mode text budget interrupt fits)
