-- ===== src/Serve/Router/Rank.antt =====
-- The order on the routes that match one request, as an order on numbers (src/serve.rs).
use lur.Base.{
  ℕ, zero, suc, ◌+◌, ◌*◌, ◌≡◌, ◌≤◌, ◌<◌, refl, inl, inr, Bool, Bool-cases, true, not, ◌&&◌, ◌||◌,
  List, [], ◌∷◌, length, ltb, ◌==◌, if◌then◌else◌, arith,
}
use lur.Base.Bytes.{Bytes, codes, bytes_eq, bytes_eq_iff}
use lur.Serve.Router.{
  Seg, static, param, same_seg, alike, alike_from, overlaps, Route, is_any, beats, more_specific,
}
use lur.Serve.Router.Fits.{AllOptional, Fits, Fits-length}

pow2 : ℕ → ℕ
pow2 zero = 1
pow2 (suc n) = pow2 n + pow2 n

-- A binary numeral with a digit for each segment of the request: 1 where the pattern is static.
rank : List Seg → List Bytes → ℕ
rank p [] = 0
rank [] (q ∷ qs) = 0
rank (static s ∷ p) (q ∷ qs) = pow2 (length qs) + rank p qs
rank (param n o ∷ p) (q ∷ qs) = rank p qs

-- A last digit tells a concrete method from `ANY`.
pub key : List Bytes → Route → ℕ
key qs r = 2 * rank r.pattern qs + (if is_any r.method then 0 else 1)

rank-lt : (p : List Seg) (qs : List Bytes) → rank p qs < pow2 (length qs)
unfolding rank pow2
rank-lt p [] = omega arith
rank-lt [] (q ∷ qs) = omega (arith, rank-lt [] qs)
rank-lt (static s ∷ p) (q ∷ qs) = omega (arith, rank-lt p qs)
rank-lt (param n o ∷ p) (q ∷ qs) = omega (arith, rank-lt p qs)

beats-optional : (a b : List Seg) (tie : Bool) → AllOptional a → AllOptional b → beats a b tie ≡ tie
unfolding beats
beats-optional [] b tie h g = refl
beats-optional (static s ∷ a) b tie h g = cc h.0
beats-optional (param n o ∷ a) [] tie h g = refl
beats-optional (param n o ∷ a) (static s ∷ b) tie h g = cc g.0
beats-optional (param n o ∷ a) (param m u ∷ b) tie h g = beats-optional a b tie h.1 g.1

beats-rank :
    (a b : List Seg) (qs : List Bytes) (tie : Bool)
    → Fits a qs
    → Fits b qs
    → beats a b tie ≡ (ltb (rank b qs) (rank a qs) || (rank a qs == rank b qs && tie))
unfolding beats rank
beats-rank a b [] tie h g = rw (beats-optional a b tie h g) (ground arith)
beats-rank [] b (q ∷ qs) tie h g = absurd h
beats-rank a [] (q ∷ qs) tie h g = absurd g
beats-rank (static s ∷ a) (static t ∷ b) (q ∷ qs) tie h g =
    ground (arith, beats-rank a b qs tie h.1 g.1)
beats-rank (static s ∷ a) (param m u ∷ b) (q ∷ qs) tie h g = ground (arith, rank-lt b qs)
beats-rank (param n o ∷ a) (static t ∷ b) (q ∷ qs) tie h g = ground (arith, rank-lt a qs)
beats-rank (param n o ∷ a) (param m u ∷ b) (q ∷ qs) tie h g = beats-rank a b qs tie h g

alike-rank :
    (a b : List Seg) (qs : List Bytes)
    → Fits a qs
    → Fits b qs
    → rank a qs ≡ rank b qs
    → alike (length qs) a b ≡ true
unfolding alike rank same_seg
alike-rank [] b [] h g e = refl
alike-rank (x ∷ a) [] [] h g e = refl
alike-rank (x ∷ a) (y ∷ b) [] h g e = refl
alike-rank [] b (q ∷ qs) h g e = absurd h
alike-rank (x ∷ a) [] (q ∷ qs) h g e = absurd g
alike-rank (static s ∷ a) (static t ∷ b) (q ∷ qs) h g e =
    ground (arith, bytes_eq_iff s t, alike-rank a b qs h.1 g.1)
alike-rank (static s ∷ a) (param m u ∷ b) (q ∷ qs) h g e = absurd (omega (arith, rank-lt b qs))
alike-rank (param n o ∷ a) (static t ∷ b) (q ∷ qs) h g e = absurd (omega (arith, rank-lt a qs))
alike-rank (param n o ∷ a) (param m u ∷ b) (q ∷ qs) h g e = alike-rank a b qs h g e

alike_from-true :
    (k n m : ℕ) (a b : List Seg)
    → n ≤ m
    → m < n + k
    → alike m a b ≡ true
    → alike_from k n a b ≡ true
unfolding alike_from
alike_from-true zero n m a b lo hi h = absurd (omega arith)
alike_from-true (suc k) n m a b lo hi h = elim (Bool-cases (m == n)) [
  | inl here ↦ let e : m ≡ n = ground arith in rw (← e) (rw h refl)
  | inr later ↦ ground (arith, alike_from-true k (suc n) m a b)
]

-- Two patterns that match one request and have the same rank at it overlap.
rank-overlaps :
    (a b : List Seg) (qs : List Bytes)
    → Fits a qs
    → Fits b qs
    → rank a qs ≡ rank b qs
    → overlaps a b ≡ true
unfolding overlaps
rank-overlaps a b qs h g e =
    let (alo, ahi) = Fits-length a qs h in
    let (blo, bhi) = Fits-length b qs g in
    alike_from-true _ _ (length qs) a b (omega arith) (omega arith) (alike-rank a b qs h g e)

-- At a request that both match, one route is more specific than another if its key is larger.
pub more_specific-key :
    (a b : Route) (qs : List Bytes)
    → Fits a.pattern qs
    → Fits b.pattern qs
    → more_specific a b ≡ ltb (key qs b) (key qs a)
unfolding more_specific key
more_specific-key a b qs h g =
    ground (arith, beats-rank a.pattern b.pattern qs (not (is_any a.method) && is_any b.method) h g)

-- Routes of a request that have the same key have the same method and overlap.
pub key-overlaps :
    (a b : Route) (method : Bytes) (qs : List Bytes)
    → Fits a.pattern qs
    → Fits b.pattern qs
    → (is_any a.method || bytes_eq a.method method) ≡ true
    → (is_any b.method || bytes_eq b.method method) ≡ true
    → key qs a ≡ key qs b
    → (bytes_eq a.method b.method && overlaps a.pattern b.pattern) ≡ true
unfolding key
key-overlaps a b method qs h g p q e = ground (
  arith,
  rank-overlaps a.pattern b.pattern qs h g,
  bytes_eq_iff a.method (codes "ANY"),
  bytes_eq_iff b.method (codes "ANY"),
  bytes_eq_iff a.method method,
  bytes_eq_iff b.method method,
  bytes_eq_iff a.method b.method,
)
