-- ===== src/Text/Replace.antt =====
-- `Matcher::replace` (src/capabilities/text.rs). `interrupted` gives the answer of each poll in turn.
-- Sums of lengths are taken in ℕ; a pair past the new texts, which would panic, reads as empty.
pub mod Rewrites
pub mod Round
pub mod Loop
pub mod Complete
use lur.Base.{
  ℕ, zero, suc, ◌+◌, ◌-◌, ◌*◌, ◌^◌, min, Bool, true, false, Option, none, some, List, [], ◌∷◌, ◌++◌,
  length, ltb, leb, ◌==◌, if◌then◌else◌,
}
use lur.Base.Bytes.{Bytes}
use lur.Text.{Best, Matcher, lookup}

-- `Stop` and the result of `replace`; the model may also run out of fuel.
pub data Replaced : Type 0 where
  done : Bytes → Replaced
  too_large interrupted out_of_fuel : Replaced

abbrev pub check_every : ℕ
check_every = 2 ^ 16

abbrev pub drop : ℕ → Bytes → Bytes
drop zero bs = bs
drop (suc n) [] = []
drop (suc n) (b ∷ bs) = drop n bs

abbrev pub take : ℕ → Bytes → Bytes
take zero bs = []
take (suc n) [] = []
take (suc n) (b ∷ bs) = b ∷ take n bs

-- `text[last..i]`
abbrev pub slice : Bytes → ℕ → ℕ → Bytes
slice text last i = take (i - last) (drop last text)

-- `self.news[p as usize]`
abbrev pub new_of : List Bytes → ℕ → Bytes
new_of [] p = []
new_of (new ∷ news) zero = new
new_of (new ∷ news) (suc p) = new_of news p

-- The variables of the loop, and the number of polls so far.
pub record Scan : Type 0 where
  pub out : Bytes
  pub last : ℕ
  pub i : ℕ
  pub work : ℕ
  pub polls : ℕ
  pub prev_empty : Bool

module _ (m : Matcher) (text : Bytes) (budget : ℕ) (interrupt : ℕ → Bool) where
  -- What is done with the pair that was found; `next` is the rest of the loop.
  unfoldable pub move : (Scan → Replaced) → Scan → Best → Replaced
  move next s none = next (record s { prev_empty = false; i = s.i + 1 })
  move next s (some (p, len)) =
      let new = new_of m.news p in
      if ltb budget (length s.out + (s.i - s.last) + length new)
      then too_large
      else next (record s {
        out = s.out ++ slice text s.last s.i ++ new;
        prev_empty = len == 0;
        i = s.i + len;
        last = s.i + len;
      })

  -- The deadline is polled when enough work was done.
  unfoldable pub poll : (Scan → Replaced) → Scan → Best → ℕ → Replaced
  unfolding move
  poll next s found steps =
      if leb check_every (s.work + steps)
      then if interrupt s.polls
        then interrupted
        else move next (record s { work = 0; polls = s.polls + 1 }) found
      else move next (record s { work = s.work + steps }) found

  -- What stands after the loop.
  unfoldable pub finish : Scan → Replaced
  finish s =
      let tail = drop (min s.last (length text)) text in
      if ltb budget (length s.out + length tail) then too_large else done (s.out ++ tail)

  unfoldable pub replace_loop : ℕ → Scan → Replaced
  unfolding poll finish
  replace_loop zero s = out_of_fuel
  replace_loop (suc fuel) s =
      let (found, steps) = lookup m (drop s.i text) s.prev_empty in
      if leb s.i (length text) then poll (replace_loop fuel) s found steps else finish s

-- `Matcher::replace`
unfoldable pub replace : Matcher → Bytes → ℕ → (ℕ → Bool) → Replaced
unfolding replace_loop
replace m text budget interrupt =
    replace_loop m text budget interrupt (2 * length text + 3)
      (record { out = []; last = 0; i = 0; work = 0; polls = 0; prev_empty = false })
