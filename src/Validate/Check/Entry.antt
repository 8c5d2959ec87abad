-- ===== src/Validate/Check/Entry.antt =====
-- What `try` returns (src/capabilities/validate.rs).
use lur.Base.{
  ◌≡◌, ◌≤◌, ◌<◌, refl, inl, inr, Bool-cases, true, false, Option, none, some, List, [], ◌∷◌, ◌++◌,
  length, length-append, leb, ap, arith,
}
use lur.Validate.Value.{Value}
use lur.Validate.Schema.{Node, max_depth, depth}
use lur.Validate.Issues.{Step, Message, Issue, Ctx, max_issues, fail, Out, done, raised}
use lur.Validate.Scalar.{Find}
use lur.Validate.Scalar.Single.{is_nested}
use lur.Validate.Check.{
  Call, absent_if_null, Tried, valid, invalid, raises, no_issues, no_issue, verdict, tried, check,
  try,
}
use lur.Validate.Check.Ends.{Ends, Ends-both}
use lur.Validate.Check.Keeps.{check-Keeps}
use lur.Validate.Check.Weight.{weight, Good}
use lur.Validate.Check.Sound.{check-Good}
use lur.Validate.Conforms.{IsSchema, Conforms}

abbrev pub NoneNested : List Issue → Type 0
NoneNested [] = Unit {0}
NoneNested (i ∷ is) = (is_nested i.message ≡ false) × NoneNested is

-- At most 100 issues, no fewer if some were left out, and none about the depth.
abbrev pub Capped : Ctx → Type 0
Capped cx =
    (length cx.issues ≤ max_issues)
    × (cx.truncated ≡ true → length cx.issues ≡ max_issues)
    × NoneNested cx.issues

NoneNested-append :
    (is : List Issue) (i : Issue)
    → NoneNested is
    → is_nested i.message ≡ false
    → NoneNested (is ++ i ∷ [])
NoneNested-append [] i h fine = (fine, tt)
NoneNested-append (j ∷ is) i h fine = (h.0, NoneNested-append is i h.1 fine)

fail-Capped :
    (path : List Step) (m : Message) (cx : Ctx)
    → is_nested m ≡ false
    → Capped cx
    → Capped (fail path m cx)
unfolding fail
fail-Capped path m cx fine (most, full, other) =
    elim (Bool-cases (leb max_issues (length cx.issues))) [
      | inl no_room ↦ rw no_room (most, (λ e. ground arith), other)
      | inr room ↦
          let i : Issue = record { path = path; message = m } in
          let more = length-append {0} cx.issues (i ∷ []) in
          rw room (
            ground (arith, more),
            (λ e. absurd (ground (arith, full e))),
            NoneNested-append cx.issues i other fine,
          )
    ]

module _ (find : Find) (call : Call) (node : Node) (schema : IsSchema node)
    (fits : depth node ≤ max_depth) where
  abbrev Verdict : Tried → Type 0
  Verdict (valid v) = Conforms find call node v
  Verdict (invalid cx) = (0 < length cx.issues) × Capped cx
  Verdict raises = Unit {0}

  verdict-Verdict :
      (w : Option Value) (cx : Ctx)
      → Good find call node no_issues w cx
      → Capped cx
      → Verdict (verdict w cx)
  unfolding verdict weight
  verdict-Verdict none cx g c = (ground (arith, c.1), c)
  verdict-Verdict (some v) cx (same, good) c = rw (ap (λ (c' : Ctx). no_issue c'.issues) same) good

  tried-Verdict :
      (o : Out (Option Value))
      → Ends (λ w cx. Good find call node no_issues w cx × Capped cx) o
      → Verdict (tried o)
  unfolding tried
  tried-Verdict raised h = tt
  tried-Verdict (done w cx) h = verdict-Verdict w cx h.0 h.1

  try-Verdict : (v : Value) → Verdict (try find call node v)
  unfolding try
  try-Verdict v = tried-Verdict (check find call node (absent_if_null node v) [] 0 no_issues) (
      Ends-both (Good find call node no_issues) (λ w cx. Capped cx) _
        (check-Good find call node (absent_if_null node v) [] no_issues schema fits refl)
        (check-Keeps Capped fail-Capped find call node (absent_if_null node v) [] no_issues fits
          (omega arith, (λ e. cc), tt)))

-- When `try` refuses a value, it reports at least one issue and at most 100 of them, exactly 100 if
-- it left some out; and none that the value is nested too deeply, since the traversal never goes
-- below the schema. The schema is one that its constructors accept.
pub try-Capped :
    (find : Find) (call : Call) (node : Node) (v : Value) (cx : Ctx)
    → IsSchema node
    → depth node ≤ max_depth
    → try find call node v ≡ invalid cx
    → (0 < length cx.issues) × Capped cx
try-Capped find call node v cx schema fits h = rw h at (try-Verdict find call node schema fits v)
