-- ===== src/Serve/Router/Resolve.antt =====
-- The choice among the routes that match a request, `Router::resolve` (src/serve.rs).
use lur.Base.{
  ℕ, ◌≡◌, ◌≤◌, ◌⊎◌, refl, inl, inr, Bool-cases, ap, Option, Option-cases, none, some, true, ◌||◌,
  List, [], ◌∷◌, arith,
}
use lur.Base.Bytes.{Bytes, bytes_eq}
use lur.Serve.Router.{
  Params, ok, build, Route, is_any, more_specific, to_uppercase, segments, Best, better, admits,
  pick, best_of, resolve,
}
use lur.Serve.Router.Fits.{IsPattern, Fits, match_pattern_iff}
use lur.Serve.Router.Rank.{key, more_specific-key, key-overlaps}
use lur.Serve.Router.Build.{IsTable, Member, build-IsTable, Member-IsPattern, Member-Apart}

module _ (decode : Bytes → Bytes) (method : Bytes) (qs : List Bytes) where
  -- Every route that admits the request, but `r` itself, is less specific than `r`.
  abbrev pub BeatsAll : Route → List Route → Type 0
  BeatsAll r [] = Unit {0}
  BeatsAll r (s ∷ ss) =
      ((ps : Params) → admits decode method qs s ≡ some ps → (s ≡ r) ⊎ (more_specific r s ≡ true))
      × BeatsAll r ss

  abbrev pub NoneAdmits : List Route → Type 0
  NoneAdmits [] = Unit {0}
  NoneAdmits (s ∷ ss) = (admits decode method qs s ≡ none) × NoneAdmits ss

  -- What a choice among routes has to be.
  abbrev pub Resolved : List Route → Option (ℕ × Params) → Type 0
  Resolved routes none = NoneAdmits routes
  Resolved routes (some (id, ps)) =
      (r : Route) × (r.id ≡ id)
      × Member r routes
      × (admits decode method qs r ≡ some ps)
      × BeatsAll r routes

  admits-Fits :
      (r : Route) (ps : Params)
      → IsPattern r.pattern
      → admits decode method qs r ≡ some ps
      → Fits r.pattern qs × ((is_any r.method || bytes_eq r.method method) ≡ true)
  unfolding admits
  admits-Fits r ps w h = elim (Bool-cases (is_any r.method || bytes_eq r.method method)) [
    | inl fine ↦ (((match_pattern_iff decode r.pattern qs ps w).0 (rw fine at h)).0, fine)
    | inr other ↦ cc
  ]

  -- The best route so far fits the request, and has a key of at least `k`.
  abbrev Holds : Best → Type 0
  Holds none = Unit {0}
  Holds (some (b, ps)) = Fits b.pattern qs

  abbrev AtLeast : ℕ → Best → Type 0
  AtLeast k none = ⊥
  AtLeast k (some (b, ps)) = k ≤ key qs b

  pick-Holds :
      (r : Route) (o : Option Params) (best : Best)
      → IsPattern r.pattern
      → admits decode method qs r ≡ o
      → Holds best
      → Holds (pick decode method qs r o best)
  unfolding pick
  pick-Holds r none best w e h = h
  pick-Holds r (some ps) best w e h = elim (Bool-cases (better r best)) [
    | inl new ↦ rw new (admits-Fits r ps w e).0
    | inr old ↦ rw old h
  ]

  pick-AtLeast :
      (r : Route) (o : Option Params) (best : Best) (k : ℕ)
      → IsPattern r.pattern
      → admits decode method qs r ≡ o
      → Holds best
      → AtLeast k best
      → AtLeast k (pick decode method qs r o best)
  unfolding pick
  pick-AtLeast r none best k w e h a = a
  pick-AtLeast r (some ps) none k w e h a = absurd a
  pick-AtLeast r (some ps) (some (b, bs)) k w e h a = elim (Bool-cases (more_specific r b)) [
    | inl new ↦ rw new (ground (arith, more_specific-key r b qs (admits-Fits r ps w e).0 h))
    | inr old ↦ rw old a
  ]

  pick-AtLeast_self :
      (r : Route) (ps : Params) (best : Best)
      → IsPattern r.pattern
      → admits decode method qs r ≡ some ps
      → Holds best
      → AtLeast (key qs r) (pick decode method qs r (some ps) best)
  unfolding pick
  pick-AtLeast_self r ps none w e h = omega arith
  pick-AtLeast_self r ps (some (b, bs)) w e h = elim (Bool-cases (more_specific r b)) [
    | inl new ↦ rw new (omega arith)
    | inr old ↦ rw old (ground (arith, more_specific-key r b qs (admits-Fits r ps w e).0 h))
  ]

  best_of-AtLeast :
      (rs : List Route) (best : Best) (k : ℕ)
      → IsTable rs
      → Holds best
      → AtLeast k best
      → AtLeast k (best_of decode method qs rs best)
  unfolding best_of
  best_of-AtLeast [] best k t h a = a
  best_of-AtLeast (r ∷ rs) best k t h a =
      best_of-AtLeast rs _ k t.2 (pick-Holds r (admits decode method qs r) best t.0 refl h)
        (pick-AtLeast r (admits decode method qs r) best k t.0 refl h a)

  -- No route that admits the request has a larger key than the choice.
  best_of-all :
      (rs : List Route) (best : Best) (s : Route) (ps : Params)
      → IsTable rs
      → Holds best
      → Member s rs
      → admits decode method qs s ≡ some ps
      → AtLeast (key qs s) (best_of decode method qs rs best)
  unfolding best_of
  best_of-all [] best s ps t h m a = absurd m
  best_of-all (r ∷ rs) best s ps t h (inl e) a =
      let a' : admits decode method qs r ≡ some ps = rw (← e) a in
      rw (e, a')
        (best_of-AtLeast rs _ (key qs r) t.2 (pick-Holds r (some ps) best t.0 a' h)
          (pick-AtLeast_self r ps best t.0 a' h))
  best_of-all (r ∷ rs) best s ps t h (inr m) a =
      best_of-all rs _ s ps t.2 (pick-Holds r (admits decode method qs r) best t.0 refl h) m a

  pick-chosen :
      (r : Route) (o : Option Params) (best : Best) (b : Route) (ps : Params)
      → pick decode method qs r o best ≡ some (b, ps)
      → (best ≡ some (b, ps)) ⊎ ((b ≡ r) × (o ≡ some ps))
  unfolding pick
  pick-chosen r none best b ps h = inl h
  pick-chosen r (some os) best b ps h = elim (Bool-cases (better r best)) [
    | inl new ↦
        let e : some (r, os) ≡ some (b, ps) = rw new at h in
        let same : b ≡ r = cc e in let os' : os ≡ ps = cc e in inr (same, ap some os')
    | inr old ↦ inl (rw old at h)
  ]

  -- The choice is one of the routes, with the parameters that it binds.
  best_of-chosen :
      (rs : List Route) (best : Best) (b : Route) (ps : Params)
      → best_of decode method qs rs best ≡ some (b, ps)
      → (best ≡ some (b, ps)) ⊎ (Member b rs × (admits decode method qs b ≡ some ps))
  unfolding best_of
  best_of-chosen [] best b ps h = inl h
  best_of-chosen (r ∷ rs) best b ps h = elim (best_of-chosen rs _ b ps h) [
    | inr (m, a) ↦ inr (inr m, a)
    | inl e ↦ elim (pick-chosen r (admits decode method qs r) best b ps e) [
      | inl old ↦ inl old
      | inr (same, a) ↦ inr (inl same, rw same a)
    ]
  ]

  all-NoneAdmits :
      (rs : List Route)
      → ((s : Route) (ps : Params) → Member s rs → admits decode method qs s ≡ some ps → ⊥)
      → NoneAdmits rs
  all-NoneAdmits [] f = tt
  all-NoneAdmits (r ∷ rs) f = (
    elim (Option-cases (admits decode method qs r)) [
      | inl e ↦ e
      | inr (ps, e) ↦ absurd (f r ps (inl refl) e)
    ],
    all-NoneAdmits rs (λ s ps m. f s ps (inr m)),
  )

  all-BeatsAll :
      (b : Route) (rs : List Route)
      → ((s : Route) (ps : Params)
          → Member s rs
          → admits decode method qs s ≡ some ps
          → (s ≡ b) ⊎ (more_specific b s ≡ true))
      → BeatsAll b rs
  all-BeatsAll b [] f = tt
  all-BeatsAll b (r ∷ rs) f =
      (λ ps a. f r ps (inl refl) a, all-BeatsAll b rs (λ s ps m. f s ps (inr m)))

  -- Of two routes of a table that admit the request, the one with the larger key is more specific.
  key-more_specific :
      (rs : List Route) (b s : Route) (bs ps : Params)
      → IsTable rs
      → Member b rs
      → Member s rs
      → admits decode method qs b ≡ some bs
      → admits decode method qs s ≡ some ps
      → key qs s ≤ key qs b
      → (s ≡ b) ⊎ (more_specific b s ≡ true)
  key-more_specific rs b s bs ps t mb ms ab as' le =
      let (fb, nb) = admits-Fits b bs (Member-IsPattern rs b t mb) ab in
      let (fs, ns) = admits-Fits s ps (Member-IsPattern rs s t ms) as' in
      elim (Member-Apart rs s b t ms mb) [
        | inl same ↦ inl same
        | inr (inl free) ↦
            inr (
              ground
                (arith, more_specific-key b s qs fb fs, key-overlaps s b method qs fs fb ns nb))
        | inr (inr free) ↦
            inr (
              ground
                (arith, more_specific-key b s qs fb fs, key-overlaps b s method qs fb fs nb ns))
      ]

  best_of-Resolved :
      (rs : List Route) (o : Best)
      → IsTable rs
      → best_of decode method qs rs none ≡ o
      → Resolved rs (elim o [ none ↦ none | some (r, ps) ↦ some (r.id, ps) ])
  best_of-Resolved rs none t e = all-NoneAdmits rs (λ s ps m a.
      let k = best_of-all rs none s ps t tt m a in
      let k' : AtLeast (key qs s) none = rw e at k in k')
  best_of-Resolved rs (some (b, bs)) t e = elim (best_of-chosen rs none b bs e) [
    | inl wrong ↦ cc
    | inr (m, a) ↦ (
      b,
      refl,
      m,
      a,
      all-BeatsAll b rs (λ s ps ms as'.
          let k = best_of-all rs none s ps t tt ms as' in
          let k' : AtLeast (key qs s) (some (b, bs)) = rw e at k in
          key-more_specific rs b s bs ps t m ms a as' k'),
    )
  ]

-- With the routes that `build` accepts, a request is resolved to a route of the table that admits
-- it, with the parameters that it binds, and every other route that admits it is less specific;
-- or it is not resolved, and no route admits it.
pub resolve-Resolved :
    (decode : Bytes → Bytes) (regs : List (Bytes × Bytes)) (method path : Bytes)
    {routes : List Route}
    → build regs ≡ ok routes
    → Resolved decode
        (to_uppercase method)
        (segments path)
        routes
        (resolve decode routes method path)
unfolding resolve
resolve-Resolved decode regs method path {routes} h =
    best_of-Resolved decode (to_uppercase method) (segments path) routes _ (build-IsTable regs h).0
      refl
