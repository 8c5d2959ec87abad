-- ===== src/Text/Keyed.antt =====
-- The registry of the replacers that VMs share by a key, `ReplacerStore` (src/capabilities/text.rs).
-- A matcher is known by a number. `strong` counts the handles of each, and a `Weak` of the registry
-- is the number: it upgrades while the count is not zero. The building of a trie may fail, and other
-- threads act before and after it.
pub mod Held
mod Tests
use lur.Base.{
  ℕ, ◌+◌, ◌-◌, Bool, true, false, ◌&&◌, Option, none, some, List, [], ◌∷◌, ltb, ◌==◌, if◌then◌else◌,
}
use lur.Base.Bytes.{Bytes}
use lur.Base.Dict.{Dict, find, insert}
use lur.Text.{Mode, first, longest}

abbrev pub mode_eq : Mode → Mode → Bool
mode_eq first first = true
mode_eq longest longest = true
mode_eq _ _ = false

-- What `check_key_shape` compares.
pub record Shape : Type 0 where
  pub mode : Mode
  pub pairs : ℕ

pub record Registry : Type 0 where
  pub keyed : Dict ℕ
  pub strong : ℕ → ℕ
  pub shape : ℕ → Shape
  pub made : ℕ

abbrev pub with_at {ℓ} : {A : Type ℓ} → ℕ → A → (ℕ → A) → ℕ → A
with_at id a f j = if j == id then a else f j

-- `keyed.retain(|_, w| w.strong_count() > 0)`
unfoldable pub retain : (ℕ → ℕ) → Dict ℕ → Dict ℕ
retain strong [] = []
retain strong ((k, id) ∷ m) =
    let rest = retain strong m in if ltb 0 (strong id) then (k, id) ∷ rest else rest

-- `Weak::upgrade`
abbrev pub upgraded : Option ℕ → Registry → Option ℕ × Registry
upgraded none r = (none, r)
upgraded (some id) r =
    if ltb 0 (r.strong id)
    then (some id, record r { strong = with_at id (r.strong id + 1) r.strong })
    else (none, r)

-- `live_matcher`
unfoldable pub live_matcher : Bytes → Registry → Option ℕ × Registry
live_matcher key r =
    let kept = retain r.strong r.keyed in upgraded (find key kept) (record r { keyed = kept })

-- A handle goes.
abbrev pub release : ℕ → Registry → Registry
release id r = record r { strong = with_at id (r.strong id - 1) r.strong }

-- `Arc::new` at the end of `build_matcher`.
abbrev pub make : Shape → Registry → Registry
make shape r = record r {
  strong = with_at r.made 1 r.strong;
  shape = with_at r.made shape r.shape;
  made = r.made + 1;
}

pub data Keyed : Type 0 where
  ok : ℕ → Keyed
  other_shape not_built : Keyed

abbrev pub same_shape : Shape → Shape → Bool
same_shape a b = mode_eq a.mode b.mode && a.pairs == b.pairs

-- `check_key_shape`, with the handle that goes when it fails.
unfoldable pub checked : ℕ → Shape → Registry → Keyed × Registry
checked id want r = if same_shape (r.shape id) want then (ok id, r) else (other_shape, release id r)

-- The second time that `keyed_matcher` locks, with `built` in hand.
unfoldable pub register : Bytes → Shape → ℕ → Option ℕ × Registry → Keyed × Registry
unfolding checked
register key want built (some id, r) = let (out, r') = checked id want r in (out, release built r')
register key want built (none, r) = (ok built, record r { keyed = insert key built r.keyed })

-- What follows `build_matcher`.
unfoldable pub built_matcher :
    Bytes → Shape → (Registry → Registry) → Bool × Registry → Keyed × Registry
unfolding live_matcher register
built_matcher key want after (false, r) = (not_built, r)
built_matcher key want after (true, r) =
    register key want r.made (live_matcher key (after (make want r)))

unfoldable pub found_or_built :
    Bytes
    → Shape
    → (Registry → Bool × Registry)
    → (Registry → Registry)
    → Option ℕ × Registry
    → Keyed × Registry
unfolding checked built_matcher
found_or_built key want build after (some id, r) = checked id want r
found_or_built key want build after (none, r) = built_matcher key want after (build r)

-- `keyed_matcher`; `build` says what other threads did until the trie was built, if it was, and
-- `after` what they did until the lock was taken.
unfoldable pub keyed_matcher :
    Bytes
    → Shape
    → (Registry → Bool × Registry)
    → (Registry → Registry)
    → Registry
    → Keyed × Registry
unfolding live_matcher found_or_built
keyed_matcher key want build after r = found_or_built key want build after (live_matcher key r)
