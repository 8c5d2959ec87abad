-- ===== src/Serve/Router/Fits.antt =====
-- The requests that a pattern of the router matches (src/serve.rs).
use lur.Base.{
  ◌↔◌, ℕ, suc, ◌≡◌, ◌≤◌, refl, inl, inr, Bool-cases, true, false, ◌||◌, Option-cases, some, List,
  [], ◌∷◌, length, ltb, arith,
}
use lur.Base.Bytes.{Bytes, bytes_eq, bytes_eq_iff}
use lur.Serve.Router.{
  Seg, static, param, is_optional, is_ordered, min_len, bind_segs, match_pattern, Params,
}

-- After the first optional segment there are only optional ones.
abbrev pub IsPattern : List Seg → Type 0
IsPattern p = is_ordered false p ≡ true

abbrev pub AllOptional : List Seg → Type 0
AllOptional [] = Unit {0}
AllOptional (s ∷ ss) = (is_optional s ≡ true) × AllOptional ss

-- A static segment stands for itself, a parameter for any segment, and an optional one at the end
-- for none.
abbrev pub Fits : List Seg → List Bytes → Type 0
Fits p [] = AllOptional p
Fits [] (q ∷ qs) = ⊥
Fits (static s ∷ p) (q ∷ qs) = (s ≡ q) × Fits p qs
Fits (param n o ∷ p) (q ∷ qs) = Fits p qs

-- The parameters that such a request binds.
abbrev pub bound : (Bytes → Bytes) → List Seg → List Bytes → Params
bound decode [] qs = []
bound decode (s ∷ p) [] = []
bound decode (static s ∷ p) (q ∷ qs) = bound decode p qs
bound decode (param n o ∷ p) (q ∷ qs) = (n, decode q) ∷ bound decode p qs

seen-AllOptional : (p : List Seg) → is_ordered true p ≡ true → AllOptional p
unfolding is_ordered
seen-AllOptional [] h = tt
seen-AllOptional (static s ∷ p) h = cc
seen-AllOptional (param n true ∷ p) h = (refl, seen-AllOptional p h)
seen-AllOptional (param n false ∷ p) h = cc

seen-IsPattern : (p : List Seg) → is_ordered true p ≡ true → IsPattern p
unfolding is_ordered
seen-IsPattern [] h = refl
seen-IsPattern (static s ∷ p) h = cc
seen-IsPattern (param n true ∷ p) h = h
seen-IsPattern (param n false ∷ p) h = cc

pub IsPattern-tail : (s : Seg) (p : List Seg) → IsPattern (s ∷ p) → IsPattern p
unfolding is_ordered
IsPattern-tail (static s) p h = h
IsPattern-tail (param n false) p h = h
IsPattern-tail (param n true) p h = seen-IsPattern p h

pub min_len-optional : (p : List Seg) → AllOptional p → min_len p ≡ 0
unfolding min_len
min_len-optional [] h = refl
min_len-optional (s ∷ p) h = rw h.0 refl

min_len-zero : (p : List Seg) → IsPattern p → min_len p ≡ 0 → AllOptional p
unfolding min_len is_ordered
min_len-zero [] w h = tt
min_len-zero (static s ∷ p) w h = absurd (omega (arith, h))
min_len-zero (param n false ∷ p) w h = absurd (omega (arith, h))
min_len-zero (param n true ∷ p) w h = (refl, seen-AllOptional p w)

-- A pattern that starts with an optional segment has no required one.
min_len-tail :
    (s : Seg) (p : List Seg) (k : ℕ) → IsPattern (s ∷ p) → min_len (s ∷ p) ≤ suc k → min_len p ≤ k
unfolding min_len is_ordered
min_len-tail (static s) p k w h = omega (arith, h)
min_len-tail (param n false) p k w h = omega (arith, h)
min_len-tail (param n true) p k w h = rw (min_len-optional p (seen-AllOptional p w)) (omega arith)

min_len-cons : (s : Seg) (p : List Seg) → min_len (s ∷ p) ≤ suc (min_len p)
unfolding min_len
min_len-cons (static s) p = omega arith
min_len-cons (param n false) p = omega arith
min_len-cons (param n true) p = omega arith

pub Fits-length :
    (p : List Seg) (qs : List Bytes) → Fits p qs → (min_len p ≤ length qs) × (length qs ≤ length p)
Fits-length p [] h = rw (min_len-optional p h) (omega arith)
Fits-length [] (q ∷ qs) h = absurd h
Fits-length (static s ∷ p) (q ∷ qs) h =
    omega (arith, Fits-length p qs h.1, min_len-cons (static s) p)
Fits-length (param n o ∷ p) (q ∷ qs) h =
    omega (arith, Fits-length p qs h, min_len-cons (param n o) p)

bind_segs-Fits :
    (decode : Bytes → Bytes) (p : List Seg) (qs : List Bytes) (ps : Params)
    → IsPattern p
    → min_len p ≤ length qs
    → length qs ≤ length p
    → bind_segs decode p qs ≡ some ps
    → Fits p qs × (ps ≡ bound decode p qs)
unfolding bind_segs
bind_segs-Fits decode [] [] ps w lo hi h = (tt, cc)
bind_segs-Fits decode (static s ∷ p) [] ps w lo hi h = (min_len-zero _ w (omega arith), cc)
bind_segs-Fits decode (param n o ∷ p) [] ps w lo hi h = (min_len-zero _ w (omega arith), cc)
bind_segs-Fits decode [] (q ∷ qs) ps w lo hi h = absurd (omega arith)
bind_segs-Fits decode (static s ∷ p) (q ∷ qs) ps w lo hi h = elim (Bool-cases (bytes_eq s q)) [
  | inl same ↦
      let (fit, e) =
        bind_segs-Fits decode p qs ps (IsPattern-tail (static s) p w)
          (min_len-tail (static s) p (length qs) w lo) (omega arith) (rw same at h) in
      (((bytes_eq_iff s q).0 same, fit), e)
  | inr other ↦ cc
]
bind_segs-Fits decode (param n o ∷ p) (q ∷ qs) ps w lo hi h =
    elim (Option-cases (bind_segs decode p qs)) [
      | inl gone ↦ cc
      | inr (rest, got) ↦
          let (fit, e) =
            bind_segs-Fits decode p qs rest (IsPattern-tail (param n o) p w)
              (min_len-tail (param n o) p (length qs) w lo) (omega arith) got in
          (fit, cc)
    ]

pub bind_segs-bound :
    (decode : Bytes → Bytes) (p : List Seg) (qs : List Bytes)
    → Fits p qs
    → bind_segs decode p qs ≡ some (bound decode p qs)
unfolding bind_segs
bind_segs-bound decode [] [] h = refl
bind_segs-bound decode (static s ∷ p) [] h = refl
bind_segs-bound decode (param n o ∷ p) [] h = refl
bind_segs-bound decode [] (q ∷ qs) h = absurd h
bind_segs-bound decode (static s ∷ p) (q ∷ qs) h =
    rw ((bytes_eq_iff s q).1 h.0) (bind_segs-bound decode p qs h.1)
bind_segs-bound decode (param n o ∷ p) (q ∷ qs) h = rw (bind_segs-bound decode p qs h) refl

-- A pattern matches exactly the requests that fit it: each static segment stands for itself, each
-- parameter for any one segment, and optional ones at the end for none; and it then binds each
-- parameter to its decoded segment. The optional segments have to be the last ones.
pub match_pattern_iff :
    (decode : Bytes → Bytes) (p : List Seg) (qs : List Bytes) (ps : Params)
    → IsPattern p
    → (match_pattern decode p qs ≡ some ps) ↔ (Fits p qs × (ps ≡ bound decode p qs))
unfolding match_pattern
match_pattern_iff decode p qs ps w = (
  λ h. elim (Bool-cases (ltb (length qs) (min_len p) || ltb (length p) (length qs))) [
    | inl out ↦ cc
    | inr within ↦ bind_segs-Fits decode p qs ps w (ground arith) (ground arith) (rw within at h)
  ],
  λ (fit, e). ground (arith, Fits-length p qs fit, bind_segs-bound decode p qs fit),
)
