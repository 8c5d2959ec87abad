-- ===== src/Validate/Issues.antt =====
-- The issues that a validation collects, `Ctx` (src/capabilities/validate.rs). A path is the list of
-- its steps, and a message is known by the rule that it reports; their texts are left out.
use lur.Base.{ℕ, Bool, true, Option, none, List, [], ◌∷◌, ◌++◌, length, leb, if◌then◌else◌}
use lur.Base.Bytes.{Bytes}
use lur.Validate.Value.{Value, Key}

pub data Step : Type 0 where
  key : Key → Step
  index : ℕ → Step

pub data Message : Type 0 where
  nested_too_deeply is_required not_string not_boolean not_one_of : Message
  too_short too_long bad_format : Message
  out_of_range not_integer not_finite below_min above_max : Message
  not_list too_few too_many not_object unknown_key : Message
  user : Bytes → Message

pub record Issue : Type 0 where
  pub path : List Step
  pub message : Message

pub record Ctx : Type 0 where
  pub issues : List Issue
  pub truncated : Bool

abbrev pub max_issues : ℕ
max_issues = 100

-- `Ctx::fail`
unfoldable pub fail : List Step → Message → Ctx → Ctx
fail path message cx =
    if leb max_issues (length cx.issues)
    then record cx { truncated = true }
    else record cx { issues = cx.issues ++ record { path = path; message = message } ∷ [] }

-- What a check of a scalar returns.
abbrev pub Found : Type 0
Found = Option Value × Ctx

abbrev pub failed : List Step → Message → Ctx → Found
failed path message cx = (none, fail path message cx)

-- What a check that calls into Lua returns; `raised` is an error that is passed on.
pub data Out {ℓ} (A : Type ℓ) : Type ℓ where
  done : A → Ctx → Out A
  raised : Out A

abbrev pub finished : Found → Out (Option Value)
finished (v, cx) = done v cx

abbrev pub and_then {ℓ κ} : {A : Type ℓ} {B : Type κ} → Out A → (A → Ctx → Out B) → Out B
and_then (done a cx) f = f a cx
and_then raised f = raised
