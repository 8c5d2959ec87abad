-- ===== src/Validate/Message.antt =====
-- The message of a validator function that failed, from the text of its error
-- (src/capabilities/validate.rs). The text is ASCII.
use lur.Base.{
  ℕ, zero, suc, Bool, true, false, ◌&&◌, ◌||◌, Option, none, some, List, [], ◌∷◌, ◌==◌,
  if◌then◌else◌,
}
use lur.Base.Bytes.{Bytes, codes, bytes_eq}
use lur.Base.Split.{split}
use lur.Units.{trim, is_digit}

-- What follows a prefix.
after_prefix : Bytes → Bytes → Option Bytes
after_prefix [] s = some s
after_prefix (p ∷ ps) [] = none
after_prefix (p ∷ ps) (c ∷ cs) = let rest = after_prefix ps cs in if p == c then rest else none

starts_with : Bytes → Bytes → Bool
unfolding after_prefix
starts_with p s = elim (after_prefix p s) [ none ↦ false | some r ↦ true ]

-- `split_once` of a text at a text that is not empty.
cut_at : Bytes → Bytes → Option (Bytes × Bytes)
unfolding after_prefix
cut_at sep [] = none
cut_at sep (c ∷ cs) =
    let later = cut_at sep cs in
    elim (after_prefix sep (c ∷ cs)) [
      | some rest ↦ some ([], rest)
      | none ↦ elim later [ none ↦ none | some p ↦ some (c ∷ p.0, p.1) ]
    ]

before : Bytes → Bytes → Bytes
unfolding cut_at
before sep s = elim (cut_at sep s) [ none ↦ s | some p ↦ p.0 ]

all_digits : Bytes → Bool
all_digits [] = true
all_digits (c ∷ cs) = is_digit c && all_digits cs

is_number : Bytes → Bool
unfolding all_digits
is_number [] = false
is_number (c ∷ cs) = all_digits (c ∷ cs)

is_full : Bytes → Bool
is_full [] = false
is_full (c ∷ cs) = true

-- The pieces between the colons, the last one first.
pieces_back : List Bytes → List Bytes → List Bytes
pieces_back acc [] = acc
pieces_back acc (p ∷ ps) = pieces_back (p ∷ acc) ps

-- `<chunk>:<line>` or `<chunk>:<line>:<col>`, from the pieces of `rsplitn(3, ':')`.
position_pieces : List Bytes → Bool
unfolding is_number is_full
position_pieces (last ∷ chunk ∷ []) = is_number last && is_full chunk
position_pieces (last ∷ line ∷ chunk ∷ []) = is_number last && is_number line && is_full chunk
position_pieces (last ∷ line ∷ chunk ∷ d ∷ ds) = is_number last && is_number line
position_pieces _ = false

-- `looks_like_position`
unfoldable pub looks_like_position : Bytes → Bool
unfolding pieces_back position_pieces
looks_like_position s = position_pieces (pieces_back [] (split 58 s))

take : ℕ → Bytes → Bytes
take zero s = []
take (suc n) [] = []
take (suc n) (c ∷ cs) = c ∷ take n cs

or_failed : Bytes → Bytes
or_failed [] = codes "validation failed"
or_failed (c ∷ cs) = c ∷ cs

unpositioned : Bytes → Bytes
unfolding cut_at
unpositioned head = elim (cut_at (codes ": ") head) [
  | none ↦ head
  | some p ↦ if looks_like_position p.0 then p.1 else head
]

-- `validator_message` on the text of an error; `none` is an error that is passed on.
unfoldable pub validator_message : Bytes → Option Bytes
unfolding before starts_with take or_failed unpositioned
validator_message raw =
    let head = trim (before (10 ∷ codes "stack traceback:") raw) in
    if bytes_eq head (codes "lur: deadline exceeded")
      || starts_with (codes "not enough memory") head
    then none
    else if starts_with (codes "table: 0x") head
    then some (codes "validation function failed")
    else some (or_failed (take 200 (unpositioned head)))
