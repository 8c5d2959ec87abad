-- ===== src/Text/Replace/Rewrites.antt =====
-- The pass of a replacer over a text, as it is meant (src/capabilities/text.rs).
use lur.Base.{
  ℕ, zero, suc, ◌+◌, ◌*◌, ◌<◌, ◌≡◌, refl, Bool, true, false, Option, none, some, List, [], ◌∷◌,
  ◌++◌, length, length-append, get_elem?, to_nat, not, ◌==◌, arith,
}
use lur.Base.Bytes.{Bytes}
use lur.Text.{Mode, build, lookup}
use lur.Text.Pairs.{FitsU32}
use lur.Text.Lookup.{Allowed}
use lur.Text.Spec.{IsWinner, lookup-IsWinner}

-- From the left: where a pair wins its new text stands for the old one, and any other byte stays. An
-- empty text is not replaced again at the end of another.
pub data Rewrites (pairs : List (Bytes × Bytes)) (mode : Mode) : Bool → Bytes → Bytes → Type 0 where
  stop :
      {skip_empty : Bool} {text out : Bytes}
      → IsWinner pairs mode skip_empty text none
      → text ≡ []
      → out ≡ []
      → Rewrites pairs mode skip_empty text out
  keep :
      {skip_empty : Bool} {text out : Bytes} (b : ℕ) (rest more : Bytes)
      → IsWinner pairs mode skip_empty text none
      → text ≡ b ∷ rest
      → out ≡ b ∷ more
      → Rewrites pairs mode false rest more
      → Rewrites pairs mode skip_empty text out
  swap :
      {skip_empty : Bool} {text out : Bytes} (p : ℕ) (old new rest more : Bytes)
      → IsWinner pairs mode skip_empty text (some (p, length old))
      → get_elem? pairs p ≡ some (old, new)
      → text ≡ old ++ rest
      → out ≡ new ++ more
      → Rewrites pairs mode (length old == 0) rest more
      → Rewrites pairs mode skip_empty text out

-- The rounds that are left, at most.
abbrev pub rounds : Bool → Bytes → ℕ
rounds skip_empty text = 2 * length text + to_nat (not skip_empty)

rounds-lt :
    (skip_empty : Bool) (old rest : Bytes)
    → Allowed skip_empty (length old)
    → rounds (length old == 0) rest < rounds skip_empty (old ++ rest)
rounds-lt true [] rest a = absurd (cc a)
rounds-lt false [] rest a = omega arith
rounds-lt skip_empty (b ∷ old) rest a = ground (arith, length-append old rest)

module _ (pairs : List (Bytes × Bytes)) (mode : Mode) where
  -- A pair that wins is there, and after it there are fewer rounds.
  pub swap_at :
      (skip_empty : Bool) (text : Bytes) (p len : ℕ)
      → IsWinner pairs mode skip_empty text (some (p, len))
      → (old new rest : Bytes) × (text ≡ old ++ rest)
        × (len ≡ length old)
        × (get_elem? pairs p ≡ some (old, new))
        × (rounds (length old == 0) rest < rounds skip_empty text)
        × ((out : Bytes)
            → Rewrites pairs mode (length old == 0) rest out
            → Rewrites pairs mode skip_empty text (new ++ out))
  swap_at skip_empty text p len (c, wins) = (
    c.old,
    c.new,
    c.rest,
    c.parts,
    c.long,
    c.listed,
    rw c.parts (rounds-lt skip_empty c.old c.rest (rw c.long at c.allowed)),
    λ out r. swap p c.old c.new c.rest out (rw (← c.long) (c, wins)) c.listed c.parts refl r,
  )

  total_step :
      (n : ℕ) (skip_empty : Bool) (text : Bytes) (found : Option (ℕ × ℕ))
      → IsWinner pairs mode skip_empty text found
      → rounds skip_empty text < suc n
      → ((s : Bool) (t : Bytes) → rounds s t < n → (out : Bytes) × Rewrites pairs mode s t out)
      → (out : Bytes) × Rewrites pairs mode skip_empty text out
  total_step n skip_empty [] none w h next = ([], stop w refl refl)
  total_step n skip_empty (b ∷ text) none w h next =
      let (out, r) = next false text (omega arith) in (b ∷ out, keep b text out w refl refl r)
  total_step n skip_empty text (some (p, len)) w h next =
      let (old, new, rest, _, _, _, fewer, after) = swap_at skip_empty text p len w in
      let (out, r) = next (length old == 0) rest (omega arith) in (new ++ out, after out r)

  total_at :
      (n : ℕ) (skip_empty : Bool) (text : Bytes)
      → FitsU32 pairs
      → rounds skip_empty text < n
      → (out : Bytes) × Rewrites pairs mode skip_empty text out
  total_at zero skip_empty text fits h = absurd (omega arith)
  total_at (suc n) skip_empty text fits h =
      total_step n skip_empty text (lookup (build pairs mode) text skip_empty).0
        (lookup-IsWinner pairs mode skip_empty text fits) h λ s t l. total_at n s t fits l

  -- Every text is rewritten to something.
  pub Rewrites-total :
      (skip_empty : Bool) (text : Bytes)
      → FitsU32 pairs
      → (out : Bytes) × Rewrites pairs mode skip_empty text out
  Rewrites-total skip_empty text fits =
      total_at (rounds skip_empty text + 1) skip_empty text fits (omega arith)
