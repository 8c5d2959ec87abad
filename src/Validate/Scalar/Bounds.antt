-- ===== src/Validate/Scalar/Bounds.antt =====
-- Where the checks of numbers leave a number (src/capabilities/validate.rs).
use lur.Base.{◌≡◌, refl, Bool, true, false, Option, none, some, List, arith}
use lur.Base.Int.{ℤ, ltb_ℤ}
use lur.Validate.Schema.{Limits}
use lur.Validate.Issues.{Step, Ctx}
use lur.Validate.Order.{below, above, within, ordered}
use lur.Validate.Scalar.{raise_to, lower_to, apply_bounds}

pub ltb_ℤ_irrefl : (a : ℤ) → ltb_ℤ a a ≡ false
ltb_ℤ_irrefl a = ground arith

pair : {T : Type 0} (r : Option T × Ctx) (m : T) → r.0 ≡ some m → r ≡ (some m, r.1)
pair (n, cx) m e = rw e refl

module _ {T : Type 0} (lt : T → T → Bool) (irrefl : (x : T) → lt x x ≡ false) (clamp : Bool)
    (path : List Step) where
  raise_to-below :
      (lo : Option T) (n : T) (cx : Ctx) (k : T) {cx' : Ctx}
      → raise_to lt clamp path lo n cx ≡ (some k, cx')
      → below lt lo k ≡ false
  unfolding raise_to
  raise_to-below none n cx k h = refl
  raise_to-below (some lo) n cx k h = ground (arith, irrefl lo)

  -- A maximum that is not below the minimum keeps what the minimum ensures.
  lower_to-within :
      (lo hi : Option T) (n : Option T) (cx : Ctx) (k : T) {cx' : Ctx}
      → ordered lt lo hi ≡ true
      → ((m : T) → n ≡ some m → below lt lo m ≡ false)
      → lower_to lt clamp path hi (n, cx) ≡ (some k, cx')
      → (below lt lo k ≡ false) × (above lt hi k ≡ false)
  unfolding lower_to
  lower_to-within lo hi none cx k o low h = cc
  lower_to-within lo none (some n) cx k o low h = (ground (arith, low n refl), refl)
  lower_to-within none (some hi) (some n) cx k o low h = (refl, ground (arith, irrefl hi))
  lower_to-within (some lo) (some hi) (some n) cx k o low h =
      (ground (arith, low n refl, irrefl hi), ground (arith, low n refl, irrefl hi))

pub apply_bounds-within :
    {T : Type 0} (lt : T → T → Bool)
    → ((x : T) → lt x x ≡ false)
    → (l : Limits T) (n : T) (path : List Step) (cx : Ctx) (k : T) {cx' : Ctx}
    → ordered lt l.min l.max ≡ true
    → apply_bounds lt l n path cx ≡ (some k, cx')
    → within lt l k ≡ true
unfolding apply_bounds
apply_bounds-within lt irrefl l n path cx k o h =
    let raised = raise_to lt l.clamp path l.min n cx in
    let (a, b) =
      lower_to-within lt irrefl l.clamp path l.min l.max raised.0 raised.1 k o
        (λ m e. raise_to-below lt irrefl l.clamp path l.min n cx m (pair raised m e)) h in
    rw (a, b) refl
