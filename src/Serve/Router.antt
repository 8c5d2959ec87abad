-- ===== src/Serve/Router.antt =====
-- The routes of the server and the choice among them, `Router` (src/serve.rs). Paths and methods are
-- bytes; `decode` is `percent_decode` of the crate percent_encoding. A method is ASCII, as the HTTP
-- library has it.
pub mod Fits
pub mod Rank
pub mod Build
pub mod Resolve
use lur.Base.{
  ℕ, zero, suc, ◌-◌, Bool, true, false, not, ◌&&◌, ◌||◌, Option, none, some, List, [], ◌∷◌, ◌++◌,
  map, min, max, length, ltb, leb, ◌==◌, if◌then◌else◌,
}
use lur.Base.Bytes.{Bytes, codes, bytes_eq}
use lur.Base.Split.{split}

pub data Seg : Type 0 where
  static : Bytes → Seg
  param : Bytes → Bool → Seg

-- `split('/')` without its empty pieces.
full_pieces : List Bytes → List Bytes
full_pieces [] = []
full_pieces ([] ∷ ss) = full_pieces ss
full_pieces ((c ∷ cs) ∷ ss) = (c ∷ cs) ∷ full_pieces ss

unfoldable pub segments : Bytes → List Bytes
unfolding full_pieces
segments path = full_pieces (split 47 path)

-- `strip_suffix` of one byte.
strip_last : ℕ → Bytes → Option Bytes
strip_last b [] = none
strip_last b (c ∷ []) = if c == b then some [] else none
strip_last b (c ∷ d ∷ ds) = elim (strip_last b (d ∷ ds)) [ none ↦ none | some s ↦ some (c ∷ s) ]

named_param : Bytes → Seg
unfolding strip_last
named_param name = elim (strip_last 63 name) [ none ↦ param name false | some n ↦ param n true ]

seg_of : Bytes → Seg
unfolding named_param
seg_of [] = static []
seg_of (c ∷ cs) = if c == 58 then named_param cs else static (c ∷ cs)

abbrev pub is_optional : Seg → Bool
is_optional (static s) = false
is_optional (param name o) = o

abbrev is_unnamed : Seg → Bool
is_unnamed (static s) = false
is_unnamed (param [] o) = true
is_unnamed (param (c ∷ cs) o) = false

any_unnamed : List Seg → Bool
any_unnamed [] = false
any_unnamed (s ∷ ss) = is_unnamed s || any_unnamed ss

-- The loop that looks for a segment after an optional one; `seen` is `seen_optional`.
unfoldable pub is_ordered : Bool → List Seg → Bool
is_ordered seen [] = true
is_ordered seen (s ∷ ss) = (is_optional s || not seen) && is_ordered (is_optional s || seen) ss

pub data PatternError : Type 0 where
  unnamed optional_inside : PatternError

pub data Loaded {ℓ} (A : Type ℓ) : Type ℓ where
  ok : A → Loaded A
  bad_pattern : PatternError → Loaded A
  duplicate : Loaded A

abbrev pub and_then : {A B : Type 0} → Loaded A → (A → Loaded B) → Loaded B
and_then (ok a) f = f a
and_then (bad_pattern e) f = bad_pattern e
and_then duplicate f = duplicate

checked_pattern : List Seg → Loaded (List Seg)
unfolding any_unnamed is_ordered
checked_pattern segs =
    if any_unnamed segs
    then bad_pattern unnamed
    else if is_ordered false segs
    then ok segs
    else bad_pattern optional_inside

unfoldable pub parse_pattern : Bytes → Loaded (List Seg)
unfolding checked_pattern seg_of
parse_pattern path = checked_pattern (map seg_of (segments path))

unfoldable pub min_len : List Seg → ℕ
min_len [] = 0
min_len (s ∷ ss) = let rest = min_len ss in if is_optional s then 0 else suc rest

same_seg : Seg → Seg → Bool
same_seg (static p) (static q) = bytes_eq p q
same_seg (param n o) (param m u) = true
same_seg _ _ = false

-- Whether the first `n` segments of two patterns are alike.
unfoldable pub alike : ℕ → List Seg → List Seg → Bool
unfolding same_seg
alike (suc n) (x ∷ a) (y ∷ b) = same_seg x y && alike n a b
alike _ _ _ = true

-- `any` over the `k` lengths from `n` on.
unfoldable pub alike_from : ℕ → ℕ → List Seg → List Seg → Bool
alike_from zero n a b = false
alike_from (suc k) n a b = alike n a b || alike_from k (suc n) a b

unfoldable pub overlaps : List Seg → List Seg → Bool
overlaps a b =
    let lo = max (min_len a) (min_len b) in
    let hi = min (length a) (length b) in alike_from (suc hi - lo) lo a b

abbrev pub Params : Type 0
Params = List (Bytes × Bytes)

module _ (decode : Bytes → Bytes) where
  -- The loop of `match_pattern` over the zipped segments.
  unfoldable pub bind_segs : List Seg → List Bytes → Option Params
  bind_segs (static s ∷ ss) (raw ∷ raws) =
      let rest = bind_segs ss raws in if bytes_eq s raw then rest else none
  bind_segs (param name o ∷ ss) (raw ∷ raws) = elim (bind_segs ss raws) [
    | none ↦ none
    | some ps ↦ some ((name, decode raw) ∷ ps)
  ]
  bind_segs _ _ = some []

  unfoldable pub match_pattern : List Seg → List Bytes → Option Params
  match_pattern pattern req_segs =
      if ltb (length req_segs) (min_len pattern) || ltb (length pattern) (length req_segs)
      then none
      else bind_segs pattern req_segs

pub record Route : Type 0 where
  pub method : Bytes
  pub pattern : List Seg
  pub id : ℕ

abbrev pub is_any : Bytes → Bool
is_any method = bytes_eq method (codes "ANY")

-- The loop over the zipped patterns; `tie` is what stands after it.
unfoldable pub beats : List Seg → List Seg → Bool → Bool
beats (static s ∷ a) (param n o ∷ b) tie = true
beats (param n o ∷ a) (static s ∷ b) tie = false
beats (static s ∷ a) (static t ∷ b) tie = beats a b tie
beats (param n o ∷ a) (param m u ∷ b) tie = beats a b tie
beats _ _ tie = tie

unfoldable pub more_specific : Route → Route → Bool
more_specific a b = beats a.pattern b.pattern (not (is_any a.method) && is_any b.method)

unfoldable pub clashes : List Route → Bytes → List Seg → Bool
clashes [] method pattern = false
clashes (r ∷ rs) method pattern =
    (bytes_eq r.method method && overlaps r.pattern pattern) || clashes rs method pattern

-- One round of the loop of `Router::build`.
unfoldable pub add_route : ℕ → Bytes → List Route → List Seg → Loaded (List Route)
add_route id method routes pattern =
    if clashes routes method pattern
    then duplicate
    else ok (routes ++ record { method = method; pattern = pattern; id = id } ∷ [])

unfoldable pub build_from : ℕ → List Route → List (Bytes × Bytes) → Loaded (List Route)
build_from id routes [] = ok routes
build_from id routes ((method, path) ∷ rest) =
    and_then (and_then (parse_pattern path) (add_route id method routes))
      (λ routes'. build_from (suc id) routes' rest)

-- `Router::build`
unfoldable pub build : List (Bytes × Bytes) → Loaded (List Route)
build registrations = build_from 0 [] registrations

-- `to_uppercase` of an ASCII text
upper : ℕ → ℕ
upper c = if leb 97 c && leb c 122 then c - 32 else c

unfoldable pub to_uppercase : Bytes → Bytes
unfolding upper
to_uppercase s = map upper s

abbrev pub Best : Type 0
Best = Option (Route × Params)

-- `is_none_or(|b| more_specific(route, b))`
better : Route → Best → Bool
better r none = true
better r (some (b, ps)) = more_specific r b

module _ (decode : Bytes → Bytes) (method : Bytes) (req_segs : List Bytes) where
  -- The parameters with which a route admits the request.
  unfoldable pub admits : Route → Option Params
  admits r =
      if is_any r.method || bytes_eq r.method method
      then match_pattern decode r.pattern req_segs
      else none

  unfoldable pub pick : Route → Option Params → Best → Best
  unfolding better
  pick r none best = best
  pick r (some ps) best = if better r best then some (r, ps) else best

  unfoldable pub best_of : List Route → Best → Best
  best_of [] best = best
  best_of (r ∷ rs) best = best_of rs (pick r (admits r) best)

-- `Router::resolve`
unfoldable pub resolve : (Bytes → Bytes) → List Route → Bytes → Bytes → Option (ℕ × Params)
resolve decode routes method path =
    elim (best_of decode (to_uppercase method) (segments path) routes none) [
      | none ↦ none
      | some (r, ps) ↦ some (r.id, ps)
    ]
