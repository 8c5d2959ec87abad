-- ===== src/Text/Replace/Round.antt =====
-- One round of the loop of `Matcher::replace` and the pass over a text (src/capabilities/text.rs).
use mathlib.Core.List.{append-nil, append_assoc}
use lur.Base.{
  ℕ, zero, suc, ◌+◌, ◌-◌, ◌<◌, ◌≤◌, min, ◌≡◌, refl, sym, ap, ◌∙◌, inl, inr, Bool, true, false,
  Bool-cases, none, some, List, [], ◌∷◌, ◌++◌, map, length, length-append, get_elem?, ◌==◌, ltb,
  if◌then◌else◌, arith,
}
use lur.Base.Bytes.{Bytes}
use lur.Text.{Mode, Matcher}
use lur.Text.Pairs.{FitsU32}
use lur.Text.Spec.{IsWinner}
use lur.Text.Replace.{
  Replaced, done, too_large, interrupted, out_of_fuel, drop, take, slice, new_of, Scan, finish,
}
use lur.Text.Replace.Rewrites.{Rewrites, stop, keep, rounds, Rewrites-total}

drop-append : (a b : Bytes) → drop (length a) (a ++ b) ≡ b
drop-append [] b = refl
drop-append (x ∷ a) b = drop-append a b

take-append : (a b : Bytes) → take (length a) (a ++ b) ≡ a
take-append [] b = refl
take-append (x ∷ a) b = ap (λ l. x ∷ l) (take-append a b)

pub new_of-map :
    (pairs : List (Bytes × Bytes)) (p : ℕ) (old new : Bytes)
    → get_elem? pairs p ≡ some (old, new)
    → new_of (map (λ q. q.1) pairs) p ≡ new
new_of-map [] p old new e = absurd (cc e)
new_of-map ((o, n) ∷ pairs) zero old new e = cc e
new_of-map ((o, n) ∷ pairs) (suc p) old new e = new_of-map pairs p old new e

module _ (pairs : List (Bytes × Bytes)) (mode : Mode) (text : Bytes) (budget : ℕ)
    (interrupt : ℕ → Bool) where
  -- How the pass ends from `prefix` on, with `rest` left: with the text rewritten within the budget,
  -- with one that is over it, or because a poll said so; but not without fuel.
  abbrev pub Ends : Bool → Bytes → Bytes → Replaced → Type 0
  Ends skip_empty rest prefix (done r) =
      (o : Bytes) × Rewrites pairs mode skip_empty rest o × (r ≡ prefix ++ o) × (length r ≤ budget)
  Ends skip_empty rest prefix too_large =
      (o : Bytes) × Rewrites pairs mode skip_empty rest o × (budget < length (prefix ++ o))
  Ends skip_empty rest prefix interrupted = (n : ℕ) × (interrupt n ≡ true)
  Ends skip_empty rest prefix out_of_fuel = ⊥

  Ends-map :
      (s s' : Bool) (t t' prefix prefix' : Bytes) (r : Replaced)
      → ((o : Bytes)
          → Rewrites pairs mode s t o
          → (o' : Bytes) × Rewrites pairs mode s' t' o' × (prefix ++ o ≡ prefix' ++ o'))
      → Ends s t prefix r
      → Ends s' t' prefix' r
  Ends-map s s' t t' prefix prefix' (done r) f (o, w, e, l) =
      let (o', w', e') = f o w in (o', w', e ∙ e', l)
  Ends-map s s' t t' prefix prefix' too_large f (o, w, l) =
      let (o', w', e') = f o w in (o', w', rw (← e') l)
  Ends-map s s' t t' prefix prefix' interrupted f e = e
  Ends-map s s' t t' prefix prefix' out_of_fuel f e = absurd e

  -- What the loop's variables say of the text: `head` is done, `pend` is to be copied.
  pub record At (s : Scan) (head pend rest : Bytes) : Type 0 where
    pub parts : text ≡ head ++ (pend ++ rest)
    pub last : s.last ≡ length head
    pub here : s.i ≡ length head + length pend

  module _ (s : Scan) (head pend rest : Bytes) (a : At s head pend rest) where
    pub drop-At : drop s.i text ≡ rest
    drop-At =
        let l : s.i ≡ length (head ++ pend) = omega (arith, length-append head pend, a.here) in
        let e : text ≡ (head ++ pend) ++ rest = a.parts ∙ sym (append_assoc head pend rest) in
        rw (l, e) (drop-append (head ++ pend) rest)

    drop_last-At : drop s.last text ≡ pend ++ rest
    drop_last-At = rw (a.last, a.parts) (drop-append head (pend ++ rest))

    slice-At : slice text s.last s.i ≡ pend
    slice-At =
        let l : s.i - s.last ≡ length pend = omega (arith, a.here, a.last) in
        rw (l, drop_last-At) (take-append pend rest)

    pub length-At : length text ≡ length head + length pend + length rest
    length-At = omega (
      arith,
      ap (length {A = ℕ}) a.parts,
      length-append head (pend ++ rest),
      length-append pend rest,
    )

  -- The loop runs past the end of the text, and the rest is copied.
  finish-Ends :
      (m : Matcher) (s : Scan) (head pend : Bytes) (skip_empty : Bool)
      → At s head pend []
      → IsWinner pairs mode skip_empty [] none
      → Ends skip_empty [] (s.out ++ pend) (finish m text budget interrupt s)
  unfolding finish
  finish-Ends m s head pend skip_empty a w =
      let l : min s.last (length text) ≡ s.last =
        omega (arith, length-At s head pend [] a, a.last) in
      let tail : drop (min s.last (length text)) text ≡ pend =
        ap (λ n. drop n text) l ∙ drop_last-At s head pend [] a ∙ append-nil pend in
      elim (Bool-cases (ltb budget (length s.out + length pend))) [
        | inl y ↦
            let big : budget < length s.out + length pend = ground arith in
            rw (tail, y)
              (
                [],
                stop w refl refl,
                omega (
                  arith,
                  length-append s.out pend,
                  ap (length {A = ℕ}) (append-nil (s.out ++ pend)),
                ),
              )
        | inr y ↦
            let fine : length s.out + length pend ≤ budget = ground arith in
            rw (tail, y)
              (
                [],
                stop w refl refl,
                sym (append-nil (s.out ++ pend)),
                omega (arith, length-append s.out pend),
              )
      ]

  -- The rest of the loop, as the induction gives it.
  abbrev pub Goes : ℕ → (Scan → Replaced) → Matcher → Type 0
  Goes fuel next m =
      ((s : Scan) (head pend rest : Bytes)
        → At s head pend rest
        → rounds s.prev_empty rest + 1 < fuel
        → Ends s.prev_empty rest (s.out ++ pend) (next s))
      × ((s : Scan) → length text < s.i → 0 < fuel → next s ≡ finish m text budget interrupt s)

  module _ (m : Matcher) (fuel : ℕ) (next : Scan → Replaced) (goes : Goes fuel next m) (s : Scan)
      (head pend : Bytes) where
    pub past-Ends :
        At s head pend []
        → IsWinner pairs mode s.prev_empty [] none
        → 0 < fuel
        → Ends s.prev_empty [] (s.out ++ pend) (next (record s { prev_empty = false; i = s.i + 1 }))
    unfolding finish
    past-Ends a w f =
        rw
          (goes.1 (record s { prev_empty = false; i = s.i + 1 })
            (omega (arith, length-At s head pend [] a, a.here)) f)
          (finish-Ends m s head pend s.prev_empty a w)

    pub keep-Ends :
        (b : ℕ) (rest : Bytes)
        → At s head pend (b ∷ rest)
        → IsWinner pairs mode s.prev_empty (b ∷ rest) none
        → rounds false rest + 1 < fuel
        → Ends s.prev_empty
            (b ∷ rest)
            (s.out ++ pend)
            (next (record s { prev_empty = false; i = s.i + 1 }))
    keep-Ends b rest a w f =
        Ends-map false s.prev_empty rest (b ∷ rest) (s.out ++ (pend ++ b ∷ [])) (s.out ++ pend) _
          (λ o r. (b ∷ o, keep b rest o w refl refl r, simp append_assoc))
          (goes.0 (record s { prev_empty = false; i = s.i + 1 }) head (pend ++ b ∷ []) rest
            (record {
              parts = a.parts ∙ simp append_assoc;
              last = a.last;
              here = omega (arith, length-append pend (b ∷ []), a.here);
            })
            f)

    pub swap-Ends :
        (p : ℕ) (old new rest : Bytes)
        → At s head pend (old ++ rest)
        → ((o : Bytes)
            → Rewrites pairs mode (length old == 0) rest o
            → Rewrites pairs mode s.prev_empty (old ++ rest) (new ++ o))
        → rounds (length old == 0) rest + 1 < fuel
        → FitsU32 pairs
        → Ends s.prev_empty (old ++ rest) (s.out ++ pend) (
            if ltb budget (length s.out + (s.i - s.last) + length new)
            then too_large
            else next (record s {
              out = s.out ++ slice text s.last s.i ++ new;
              prev_empty = length old == 0;
              i = s.i + length old;
              last = s.i + length old;
            }))
    swap-Ends p old new rest a after f fits =
        elim (Bool-cases (ltb budget (length s.out + (s.i - s.last) + length new))) [
          | inl y ↦
              let (o, r) = Rewrites-total pairs mode (length old == 0) rest fits in
              let big : budget < length s.out + (s.i - s.last) + length new = ground arith in
              rw y (
                new ++ o,
                after o r,
                omega (
                  arith,
                  length-append (s.out ++ pend) (new ++ o),
                  length-append s.out pend,
                  length-append new o,
                  a.here,
                  a.last,
                ),
              )
          | inr y ↦ rw y (
              Ends-map (length old == 0) s.prev_empty rest (old ++ rest)
                ((s.out ++ slice text s.last s.i ++ new) ++ []) (s.out ++ pend) _
                (λ o r. (
                  new ++ o,
                  after o r,
                  rw (slice-At s head pend (old ++ rest) a) (simp (append_assoc, append-nil)),
                ))
                (goes.0
                  (record s {
                    out = s.out ++ slice text s.last s.i ++ new;
                    prev_empty = length old == 0;
                    i = s.i + length old;
                    last = s.i + length old;
                  })
                  (head ++ (pend ++ old)) [] rest
                  (record {
                    parts = a.parts ∙ simp append_assoc;
                    last =
                        omega
                          (arith, length-append head (pend ++ old), length-append pend old, a.here);
                    here =
                        omega
                          (arith, length-append head (pend ++ old), length-append pend old, a.here);
                  })
                  f))
        ]
