-- ===== src/Text/Replace/Loop.antt =====
-- The loop of `Matcher::replace` and the pass over a text (src/capabilities/text.rs).
use lur.Base.{
  ℕ, zero, suc, ◌+◌, ◌*◌, ◌^◌, ◌<◌, ◌≡◌, refl, ap, ◌∙◌, inl, inr, Bool, true, false, Bool-cases,
  none, some, List, [], ◌∷◌, ◌++◌, map, length, ◌==◌, leb, arith,
}
use lur.Base.Bytes.{Bytes}
use lur.Text.{Mode, Best, Matcher, build, lookup}
use lur.Text.Pairs.{FitsU32, build-news}
use lur.Text.Spec.{IsWinner, lookup-IsWinner}
use lur.Text.Replace.{Replaced, new_of, Scan, move, poll, finish, replace_loop, replace}
use lur.Text.Replace.Rewrites.{Rewrites, rounds, swap_at}
use lur.Text.Replace.Round.{
  Ends, At, Goes, new_of-map, past-Ends, keep-Ends, swap-Ends, drop-At, length-At,
}

module _ (pairs : List (Bytes × Bytes)) (mode : Mode) (text : Bytes) (budget : ℕ)
    (interrupt : ℕ → Bool) where
  abbrev Left : Bool → Bytes → Bytes → Replaced → Type 0
  Left = Ends pairs mode text budget interrupt

  abbrev Stands : Scan → Bytes → Bytes → Bytes → Type 0
  Stands = At pairs mode text budget interrupt

  abbrev Follows : ℕ → (Scan → Replaced) → Matcher → Type 0
  Follows = Goes pairs mode text budget interrupt

  swap_any-Ends :
      (m : Matcher) (fuel : ℕ) (next : Scan → Replaced) (s : Scan) (head pend rest : Bytes)
      (p len : ℕ) (old new t : Bytes)
      → FitsU32 pairs
      → Follows fuel next m
      → Stands s head pend rest
      → rest ≡ old ++ t
      → len ≡ length old
      → new_of m.news p ≡ new
      → rounds (length old == 0) t + 1 < fuel
      → ((o : Bytes)
          → Rewrites pairs mode (length old == 0) t o
          → Rewrites pairs mode s.prev_empty rest (new ++ o))
      → Left s.prev_empty rest (s.out ++ pend) (move m text budget interrupt next s (some (p, len)))
  unfolding move
  swap_any-Ends m fuel next s head pend rest p len old new t fits goes a split long same small
        after =
      rw (split, long, same)
        (swap-Ends pairs mode text budget interrupt m fuel next goes s head pend p old new t
          (rw split at a) (rw split at after) small fits)

  move-Ends :
      (m : Matcher) (fits : FitsU32 pairs) (fuel : ℕ) (next : Scan → Replaced) (s : Scan)
      (head pend rest : Bytes) (found : Best)
      → m.news ≡ map (λ q. q.1) pairs
      → Follows fuel next m
      → Stands s head pend rest
      → IsWinner pairs mode s.prev_empty rest found
      → rounds s.prev_empty rest + 1 < fuel + 1
      → Left s.prev_empty rest (s.out ++ pend) (move m text budget interrupt next s found)
  unfolding move
  move-Ends m fits fuel next s head pend [] none n goes a w small =
      past-Ends pairs mode text budget interrupt m fuel next goes s head pend a w (omega arith)
  move-Ends m fits fuel next s head pend (b ∷ rest) none n goes a w small =
      keep-Ends pairs mode text budget interrupt m fuel next goes s head pend b rest a w
        (omega arith)
  move-Ends m fits fuel next s head pend rest (some (p, len)) n goes a w small =
      let (old, new, t, split, long, listed, fewer, after) =
        swap_at pairs mode s.prev_empty rest p len w in
      swap_any-Ends m fuel next s head pend rest p len old new t fits goes a split long
        (ap (λ l. new_of l p) n ∙ new_of-map pairs p old new listed) (omega arith) after

  -- A poll leaves the text and the variables that say where the pass is.
  poll-Ends :
      (m : Matcher) (fits : FitsU32 pairs) (fuel : ℕ) (next : Scan → Replaced) (s : Scan)
      (head pend rest : Bytes) (found : Best) (steps : ℕ)
      → m.news ≡ map (λ q. q.1) pairs
      → Follows fuel next m
      → Stands s head pend rest
      → IsWinner pairs mode s.prev_empty rest found
      → rounds s.prev_empty rest + 1 < fuel + 1
      → Left s.prev_empty rest (s.out ++ pend) (poll m text budget interrupt next s found steps)
  unfolding poll
  poll-Ends m fits fuel next s head pend rest found steps n goes a w small =
      elim (Bool-cases (leb (2 ^ 16) (s.work + steps))) [
        | inl y ↦ elim (Bool-cases (interrupt s.polls)) [
          | inl x ↦ rw (y, x) (s.polls, x)
          | inr x ↦
              rw (y, x)
                (move-Ends m fits fuel next (record s { work = 0; polls = s.polls + 1 }) head pend
                  rest found n goes (record { parts = a.parts; last = a.last; here = a.here }) w
                  small)
        ]
        | inr y ↦ rw y (
            move-Ends m fits fuel next (record s { work = s.work + steps }) head pend rest found n
              goes (record { parts = a.parts; last = a.last; here = a.here }) w small)
      ]

  module _ (fits : FitsU32 pairs) where
    loop_past :
        (fuel : ℕ) (s : Scan)
        → length text < s.i
        → 0 < fuel
        → replace_loop (build pairs mode) text budget interrupt fuel s
          ≡ finish (build pairs mode) text budget interrupt s
    unfolding replace_loop
    loop_past zero s h f = absurd (omega arith)
    loop_past (suc fuel) s h f =
        let past : leb s.i (length text) ≡ false = ground arith in rw past refl

    loop-Ends :
        (fuel : ℕ) (s : Scan) (head pend rest : Bytes)
        → Stands s head pend rest
        → rounds s.prev_empty rest + 1 < fuel
        → Left s.prev_empty rest
            (s.out ++ pend)
            (replace_loop (build pairs mode) text budget interrupt fuel s)
    unfolding replace_loop
    loop-Ends zero s head pend rest a small = absurd (omega arith)
    loop-Ends (suc fuel) s head pend rest a small =
        let inside : leb s.i (length text) ≡ true =
          ground (arith, length-At pairs mode text budget interrupt s head pend rest a, a.here) in
        rw (inside, drop-At pairs mode text budget interrupt s head pend rest a)
          (poll-Ends (build pairs mode) fits fuel
            (replace_loop (build pairs mode) text budget interrupt fuel) s head pend rest
            (lookup (build pairs mode) rest s.prev_empty).0
            (lookup (build pairs mode) rest s.prev_empty).1 (build-news pairs mode fits)
            (loop-Ends fuel, loop_past fuel) a (lookup-IsWinner pairs mode s.prev_empty rest fits)
            (omega arith))

-- Where the pairs and the bytes of their old texts can be counted in a `u32`, `replace` with the trie
-- of the pairs ends, and it does the pass: it returns the text rewritten from the left, of at most
-- `budget` bytes, or says that this text is over the budget, or was told to stop by a poll.
pub replace-Ends :
    (pairs : List (Bytes × Bytes)) (mode : Mode) (text : Bytes) (budget : ℕ) (interrupt : ℕ → Bool)
    → FitsU32 pairs
    → Ends pairs mode text budget interrupt false text []
        (replace (build pairs mode) text budget interrupt)
unfolding replace
replace-Ends pairs mode text budget interrupt fits =
    loop-Ends pairs mode text budget interrupt fits (2 * length text + 3) _ [] [] text
      (record { parts = refl; last = refl; here = refl }) (omega arith)
