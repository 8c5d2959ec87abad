-- ===== src/Validate/Check/Ends.antt =====
-- What holds of a check when it ends, and the rule for two checks in a row
-- (src/capabilities/validate.rs).
use lur.Base.{◌≡◌, refl, Bool, true, false, if◌then◌else◌}
use lur.Validate.Issues.{Ctx, Out, done, raised, and_then}

-- A script error that is passed on leaves nothing to say.
abbrev pub Ends : {A : Type 0} → (A → Ctx → Type 0) → Out A → Type 0
Ends P (done a cx) = P a cx
Ends P raised = Unit {0}

pub and_then-Ends :
    {A B : Type 0} (P : A → Ctx → Type 0) (Q : B → Ctx → Type 0) (m : Out A) (f : A → Ctx → Out B)
    → Ends P m
    → ((a : A) (cx : Ctx) → P a cx → Ends Q (f a cx))
    → Ends Q (and_then m f)
and_then-Ends P Q (done a cx) f h k = k a cx h
and_then-Ends P Q raised f h k = tt

pub Ends-map :
    {A : Type 0} (P Q : A → Ctx → Type 0) (m : Out A)
    → Ends P m
    → ((a : A) (cx : Ctx) → P a cx → Q a cx)
    → Ends Q m
Ends-map P Q (done a cx) h f = f a cx h
Ends-map P Q raised h f = tt

pub Ends-both :
    {A : Type 0} (P Q : A → Ctx → Type 0) (m : Out A)
    → Ends P m
    → Ends Q m
    → Ends (λ a cx. P a cx × Q a cx) m
Ends-both P Q (done a cx) h k = (h, k)
Ends-both P Q raised h k = tt

pub if-Ends :
    {A : Type 0} (P : A → Ctx → Type 0) (b : Bool) (x y : Out A)
    → (b ≡ true → Ends P x)
    → (b ≡ false → Ends P y)
    → Ends P (if b then x else y)
if-Ends P true x y f g = f refl
if-Ends P false x y f g = g refl
