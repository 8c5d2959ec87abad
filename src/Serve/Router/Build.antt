-- ===== src/Serve/Router/Build.antt =====
-- The table of routes that `Router::build` makes of the registrations (src/serve.rs).
use lur.Base.{
  ℕ, suc, ◌≡◌, ◌⊎◌, refl, inl, inr, Bool, sym, ◌∙◌, Bool-cases, false, ◌&&◌, List, [], ◌∷◌, ◌++◌,
  arith,
}
use lur.Base.Bytes.{Bytes, bytes_eq}
use mathlib.Core.List.{append-nil, append_assoc}
use lur.Serve.Router.{
  Seg, Loaded, ok, bad_pattern, duplicate, and_then, checked_pattern, parse_pattern, overlaps,
  Route, clashes, add_route, build_from, build,
}
use lur.Serve.Router.Fits.{IsPattern}

abbrev pub clash : Route → Route → Bool
clash a b = bytes_eq a.method b.method && overlaps a.pattern b.pattern

abbrev pub Apart : Route → List Route → Type 0
Apart r [] = Unit {0}
Apart r (s ∷ ss) = (clash r s ≡ false) × Apart r ss

-- The patterns are in order, and no two routes of one method overlap.
abbrev pub IsTable : List Route → Type 0
IsTable [] = Unit {0}
IsTable (r ∷ rs) = IsPattern r.pattern × Apart r rs × IsTable rs

abbrev pub Member : Route → List Route → Type 0
Member r [] = ⊥
Member r (s ∷ ss) = (r ≡ s) ⊎ Member r ss

-- The routes are those that were registered, in order, with numbers from `n` on.
abbrev pub Registered : ℕ → List Route → List (Bytes × Bytes) → Type 0
Registered n [] [] = Unit {0}
Registered n (r ∷ rs) ((method, path) ∷ regs) =
    (r.id ≡ n)
    × (r.method ≡ method)
    × (parse_pattern path ≡ ok r.pattern)
    × Registered (suc n) rs regs
Registered n _ _ = ⊥

parse_pattern-IsPattern : (path : Bytes) {p : List Seg} → parse_pattern path ≡ ok p → IsPattern p
unfolding parse_pattern checked_pattern
parse_pattern-IsPattern path h = ground arith

Apart-append :
    (a r : Route) (rs : List Route) → Apart a rs → clash a r ≡ false → Apart a (rs ++ r ∷ [])
Apart-append a r [] h g = (g, tt)
Apart-append a r (s ∷ ss) h g = (h.0, Apart-append a r ss h.1 g)

IsTable-append :
    (rs : List Route) (r : Route)
    → IsTable rs
    → IsPattern r.pattern
    → clashes rs r.method r.pattern ≡ false
    → IsTable (rs ++ r ∷ [])
unfolding clashes
IsTable-append [] r h w free = (w, tt, tt)
IsTable-append (s ∷ ss) r h w free =
    (h.0, Apart-append s r ss h.1 (ground arith), IsTable-append ss r h.2 w (ground arith))

and_then-ok :
    {A B : Type 0} (l : Loaded A) (f : A → Loaded B) {b : B}
    → and_then l f ≡ ok b
    → (a : A) × (l ≡ ok a) × (f a ≡ ok b)
and_then-ok (ok a) f h = (a, refl, h)
and_then-ok (bad_pattern e) f h = cc
and_then-ok duplicate f h = cc

add_route-ok :
    (id : ℕ) (method : Bytes) (routes : List Route) (p : List Seg) {routes' : List Route}
    → add_route id method routes p ≡ ok routes'
    → (clashes routes method p ≡ false)
      × (routes' ≡ routes ++ record { method = method; pattern = p; id = id } ∷ [])
unfolding add_route
add_route-ok id method routes p h = elim (Bool-cases (clashes routes method p)) [
  | inl taken ↦ cc
  | inr free ↦ (free, cc)
]

build_from-Registered :
    (n : ℕ) (acc : List Route) (regs : List (Bytes × Bytes)) {out : List Route}
    → IsTable acc
    → build_from n acc regs ≡ ok out
    → IsTable out × ((new : List Route) × (out ≡ acc ++ new) × Registered n new regs)
unfolding build_from
build_from-Registered n acc [] {out} h e =
    let same : acc ≡ out = cc in (rw (← same) h, ([], simp (sym same, append-nil), tt))
build_from-Registered n acc ((method, path) ∷ rest) {out} h e =
    let (acc', added, more) =
      and_then-ok (and_then (parse_pattern path) (add_route n method acc))
        (λ next. build_from (suc n) next rest) e in
    let (p, parsed, fits) = and_then-ok (parse_pattern path) (add_route n method acc) added in
    let (free, grown) = add_route-ok n method acc p fits in
    let r : Route = record { method = method; pattern = p; id = n } in
    let table = IsTable-append acc r h (parse_pattern-IsPattern path parsed) free in
    let (t, (new, e', reg)) =
      build_from-Registered (suc n) (acc ++ r ∷ []) rest table (rw grown at more) in
    (t, (r ∷ new, e' ∙ append_assoc acc (r ∷ []) new, (refl, refl, parsed, reg)))

-- A table that `build` accepts holds the registrations in order, each under its position as its
-- number and with the pattern that its path is parsed into; its optional segments are the last of
-- their pattern; and no two routes of one method overlap.
pub build-IsTable :
    (regs : List (Bytes × Bytes)) {routes : List Route}
    → build regs ≡ ok routes
    → IsTable routes × Registered 0 routes regs
unfolding build
build-IsTable regs h =
    let (t, (new, e, reg)) = build_from-Registered 0 [] regs tt h in (t, rw e reg)

pub Member-IsPattern :
    (rs : List Route) (s : Route) → IsTable rs → Member s rs → IsPattern s.pattern
Member-IsPattern [] s t m = absurd m
Member-IsPattern (r ∷ rs) s t (inl e) = rw e t.0
Member-IsPattern (r ∷ rs) s t (inr m) = Member-IsPattern rs s t.2 m

Apart-Member : (a s : Route) (rs : List Route) → Apart a rs → Member s rs → clash a s ≡ false
Apart-Member a s [] h m = absurd m
Apart-Member a s (r ∷ rs) h (inl e) = rw e h.0
Apart-Member a s (r ∷ rs) h (inr m) = Apart-Member a s rs h.1 m

pub Member-Apart :
    (rs : List Route) (a b : Route)
    → IsTable rs
    → Member a rs
    → Member b rs
    → (a ≡ b) ⊎ (clash a b ≡ false) ⊎ (clash b a ≡ false)
Member-Apart [] a b t m n = absurd m
Member-Apart (r ∷ rs) a b t (inl p) (inl q) = inl (p ∙ sym q)
Member-Apart (r ∷ rs) a b t (inl p) (inr n) = inr (inl (rw p (Apart-Member r b rs t.1 n)))
Member-Apart (r ∷ rs) a b t (inr m) (inl q) = inr (inr (rw q (Apart-Member r a rs t.1 m)))
Member-Apart (r ∷ rs) a b t (inr m) (inr n) = Member-Apart rs a b t.2 m n
