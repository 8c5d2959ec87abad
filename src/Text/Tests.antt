-- ===== src/Text/Tests.antt =====
-- Runs of the replacer, and its theorems at concrete texts.
use lur.Base.{◌≡◌, refl, false, List, [], ◌∷◌, some, arith}
use lur.Base.Bytes.{Bytes, codes}
use lur.Text.{
  first, longest, build, lookup, look, offered, settled, earlier, child, insert_child, modify,
  descend, add_from, add, build_from,
}
use lur.Text.Pairs.{FitsU32}
use lur.Text.Spec.{IsWinner, lookup-IsWinner}
use lur.Text.Replace.{done, too_large, replace, replace_loop, poll, move, finish}
use lur.Text.Replace.Rewrites.{Rewrites, stop, keep, swap}
use lur.Text.Replace.Round.{Ends}
use lur.Text.Replace.Loop.{replace-Ends}
use lur.Text.Replace.Complete.{replace-Returns}

abbrev sample : List (Bytes × Bytes)
sample =
    (codes "a", codes "1")
    ∷ (codes "ab", codes "22")
    ∷ (codes "abc", codes "3")
    ∷ (codes "", codes "-")
    ∷ []

abbrev sample-FitsU32 : FitsU32 sample
sample-FitsU32 = (omega arith, omega arith)

replaces_first :
    replace (build sample first) (codes "xabc") 20 (λ n. false) ≡ done (codes "-x1-b-c-")
unfolding replace replace_loop poll move finish build lookup look offered settled earlier child
    insert_child modify descend add_from add build_from
replaces_first = refl

lookup-IsWinner_example : IsWinner sample longest false (codes "abx") (some (1, 2))
unfolding build lookup look offered settled earlier child insert_child modify descend add_from add
    build_from
lookup-IsWinner_example = lookup-IsWinner sample longest false (codes "abx") sample-FitsU32

replace-Ends_example :
    Ends sample longest (codes "xabc") 3 (λ n. false) false (codes "xabc") [] too_large
unfolding replace replace_loop poll move finish build lookup look offered settled earlier child
    insert_child modify descend add_from add build_from
replace-Ends_example = replace-Ends sample longest (codes "xabc") 3 (λ n. false) sample-FitsU32

abbrev vowel : List (Bytes × Bytes)
vowel = (codes "a", codes "e") ∷ []

abbrev vowel-FitsU32 : FitsU32 vowel
vowel-FitsU32 = (omega arith, omega arith)

vowel_rewritten : Rewrites vowel first false (codes "xa") (codes "xe")
unfolding build lookup look offered settled earlier child insert_child modify descend add_from add
    build_from
vowel_rewritten =
    keep 120 (codes "a") (codes "e") (lookup-IsWinner vowel first false (codes "xa") vowel-FitsU32)
      refl refl
      (swap 0 (codes "a") (codes "e") [] []
        (lookup-IsWinner vowel first false (codes "a") vowel-FitsU32) refl refl refl
        (stop (lookup-IsWinner vowel first false [] vowel-FitsU32) refl refl))

replace-Returns_example :
    replace (build vowel first) (codes "xa") 2 (λ n. false) ≡ done (codes "xe")
replace-Returns_example =
    replace-Returns vowel first (codes "xa") (codes "xe") 2 (λ n. false) vowel-FitsU32 (λ n. refl)
      vowel_rewritten (omega arith)
