-- ===== src/Validate/Check/Weight.antt =====
-- How much a context has recorded, which tells whether a check failed
-- (src/capabilities/validate.rs).
use lur.Base.{
  ℕ, ◌+◌, ◌≡◌, ◌≤◌, ◌<◌, ◌⊎◌, refl, inl, inr, Bool-cases, true, false, Option, none, some, List, [],
  ◌∷◌, to_nat, length, length-append, leb, arith,
}
use lur.Validate.Value.{Value}
use lur.Validate.Schema.{Node}
use lur.Validate.Issues.{Step, Message, Ctx, max_issues, fail}
use lur.Validate.Scalar.{Find}
use lur.Validate.Scalar.Single.{is_nested, Single}
use lur.Validate.Check.{Call}
use lur.Validate.Conforms.{Conforms}

unfoldable pub weight : Ctx → ℕ
weight cx = length cx.issues + to_nat cx.truncated

-- A failure is recorded, or there was no room for it already.
pub fail-weight :
    (path : List Step) (m : Message) (cx : Ctx)
    → (weight cx < weight (fail path m cx)) ⊎ ((cx.truncated ≡ true) × (fail path m cx ≡ cx))
unfolding weight fail
fail-weight path m cx = elim (Bool-cases (leb max_issues (length cx.issues))) [
  | inl full ↦ elim (Bool-cases cx.truncated) [
    | inl already ↦ inr (already, ground arith)
    | inr first ↦ inl (rw full (ground arith))
  ]
  | inr room ↦ inl (
      rw room
        (omega (arith, length-append {0} cx.issues ((record { path = path; message = m }) ∷ []))))
]

pub fail-grows :
    (path : List Step) (m : Message) (cx : Ctx)
    → cx.truncated ≡ false
    → weight cx < weight (fail path m cx)
fail-grows path m cx room = elim (fail-weight path m cx) [
  | inl more ↦ more
  | inr (full, e) ↦ absurd (ground arith)
]

pub fail-le : (path : List Step) (m : Message) (cx : Ctx) → weight cx ≤ weight (fail path m cx)
fail-le path m cx = elim (fail-weight path m cx) [
  | inl more ↦ omega arith
  | inr (full, e) ↦ rw e (omega arith)
]

-- Nothing was recorded since `cx`, or something was.
abbrev pub Since : Ctx → Ctx → Type 0
Since cx cx' = (weight cx ≤ weight cx') × (weight cx' ≡ weight cx → cx' ≡ cx)

pub Since-refl : (cx : Ctx) → Since cx cx
Since-refl cx = (omega arith, λ e. refl)

pub Since-fail :
    (cx0 : Ctx) (path : List Step) (m : Message) (cx : Ctx)
    → is_nested m ≡ false
    → Since cx0 cx
    → Since cx0 (fail path m cx)
Since-fail cx0 path m cx fine (le, back) = elim (fail-weight path m cx) [
  | inl more ↦ (omega arith, λ e. absurd (omega arith))
  | inr (full, e) ↦ rw e (le, back)
]

module _ (find : Find) (call : Call) where
  -- A check that finds a value has recorded nothing, and the value conforms; one that finds none has
  -- recorded an issue.
  abbrev pub Good : Node → Ctx → Option Value → Ctx → Type 0
  Good node cx none cx' = weight cx < weight cx'
  Good node cx (some v) cx' = (cx' ≡ cx) × Conforms find call node v

  pub Single-Good :
      (node : Node) (cx : Ctx) (r : Option Value × Ctx)
      → cx.truncated ≡ false
      → Single cx r
      → ((v : Value) → r.0 ≡ some v → Conforms find call node v)
      → Good node cx r.0 r.1
  Single-Good node cx (none, cx') room (inl (got, e)) f = cc
  Single-Good node cx (none, cx') room (inr (path, m, fine, gone, e)) f =
      rw e (fail-grows path m cx room)
  Single-Good node cx (some v, cx') room (inl (got, e)) f = (e, f v refl)
  Single-Good node cx (some v, cx') room (inr (path, m, fine, gone, e)) f = cc
