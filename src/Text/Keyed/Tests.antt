-- ===== src/Text/Keyed/Tests.antt =====
-- A registry with one replacer, which two VMs use.
use lur.Base.{◌≡◌, refl, false, [], ◌∷◌, arith}
use lur.Base.Bytes.{codes, bytes_eq}
use lur.Base.Dict.{find}
use lur.Text.{longest}
use lur.Text.Keyed.{
  Shape, Registry, with_at, make, live_matcher, retain, other_shape, keyed_matcher,
}
use lur.Text.Keyed.Held.{IsHeld, Turns, here, turn, looks, makes, keyed_matcher-held}

abbrev pairs_3 : Shape
pairs_3 = record { mode = longest; pairs = 3 }

abbrev pairs_4 : Shape
pairs_4 = record { mode = longest; pairs = 4 }

abbrev shared : Registry
shared = record {
  keyed = (codes "t2s", 0) ∷ [];
  strong = with_at 0 1 (λ j. 0);
  shape = λ j. pairs_3;
  made = 1;
}

shared-IsHeld : IsHeld (codes "t2s") 0 pairs_3 shared
unfolding find bytes_eq
shared-IsHeld = (record { found = refl; made = omega arith; same = refl }, omega arith)

-- Another VM looks the key up and builds a replacer of its own.
abbrev busy : Registry
busy = make pairs_4 (live_matcher (codes "t2s") shared).1

shared-Turns : Turns 0 shared busy
unfolding live_matcher retain find bytes_eq
shared-Turns =
    turn (turn here (looks (codes "t2s") refl) (omega arith)) (makes pairs_4 refl) (omega arith)

keyed_matcher-held_example :
    (keyed_matcher (codes "t2s") pairs_4 (λ r. (false, r)) (λ r. r) busy).0 ≡ other_shape
keyed_matcher-held_example =
    keyed_matcher-held (codes "t2s") 0 pairs_3 pairs_4 (λ r. (false, r)) (λ r. r) shared busy
      shared-IsHeld shared-Turns
