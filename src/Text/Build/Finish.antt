-- ===== src/Text/Build/Finish.antt =====
-- The end of a new text, and all of its bytes (src/capabilities/text.rs, `Builder::add`).
use lur.Base.{
  ◌≢◌, ℕ, zero, suc, ◌+◌, ◌<◌, ◌≤◌, ◌^◌, ◌≡◌, refl, sym, ap, ◌∙◌, ◌⊎◌, inl, inr, Bool-cases, Option,
  none, some, List, [], ◌∷◌, ◌++◌, length, get_elem?, ◌==◌, arith,
}
use lur.Base.Bytes.{Bytes}
use lur.Text.{Node, node_at, modify, with_min, with_pair, or_insert, descend, add_from}
use lur.Text.Trie.{
  walk, length-modify, node_at-modify, node_at-modify_other, field-modify, walk-modify,
  modify-IsTrie,
}
use lur.Text.Build.{onto, Finds, Covers, Holds, Walked}
use lur.Text.Build.Descend.{Read, descend-Led, touch-Read}

get_elem?-snoc :
    (olds : List Bytes) (new old : Bytes) (k : ℕ)
    → get_elem? (olds ++ new ∷ []) k ≡ some old
    → (get_elem? olds k ≡ some old) ⊎ ((k ≡ length olds) × (new ≡ old))
get_elem?-snoc [] new old zero e = inr (refl, cc e)
get_elem?-snoc [] new old (suc k) e = absurd (cc e)
get_elem?-snoc (o ∷ olds) new old zero e = inl e
get_elem?-snoc (o ∷ olds) new old (suc k) e = elim (get_elem?-snoc olds new old k e) [
  | inl x ↦ inl x
  | inr (x, y) ↦ inr (ap suc x, y)
]

get_elem?-old :
    (olds : List Bytes) (new old : Bytes) (k : ℕ)
    → get_elem? olds k ≡ some old
    → get_elem? (olds ++ new ∷ []) k ≡ some old
get_elem?-old [] new old k e = absurd (cc e)
get_elem?-old (o ∷ olds) new old zero e = e
get_elem?-old (o ∷ olds) new old (suc k) e = get_elem?-old olds new old k e

get_elem?-end :
    (olds : List Bytes) (new : Bytes) → get_elem? (olds ++ new ∷ []) (length olds) ≡ some new
get_elem?-end [] new = refl
get_elem?-end (o ∷ olds) new = get_elem?-end olds new

get_elem?-lt :
    (olds : List Bytes) (old : Bytes) (k : ℕ) → get_elem? olds k ≡ some old → k < length olds
get_elem?-lt [] old k e = absurd (cc e)
get_elem?-lt (o ∷ olds) old zero e = omega arith
get_elem?-lt (o ∷ olds) old (suc k) e = omega (arith, get_elem?-lt olds old k e)

-- One more text changes what is found for that text only.
module _ (olds : List Bytes) (new : Bytes) where
  Finds-other :
      (q : Bytes) (p : Option ℕ) → onto [] new ≢ q → Finds olds q p → Finds (olds ++ new ∷ []) q p
  Finds-other q none ne f = λ k old g e. elim (get_elem?-snoc olds new old k g) [
    | inl x ↦ f k old x e
    | inr (_, y) ↦ ne (ap (onto []) y ∙ e)
  ]
  Finds-other q (some p) ne ((o, g', e'), f) = (
    (o, get_elem?-old olds new o p g', e'),
    λ k old g e. elim (get_elem?-snoc olds new old k g) [
      | inl x ↦ f k old x e
      | inr (_, y) ↦ absurd (ne (ap (onto []) y ∙ e))
    ],
  )

  Finds-here :
      (q : Bytes) (p : Option ℕ)
      → onto [] new ≡ q
      → Finds olds q p
      → Finds (olds ++ new ∷ []) q (or_insert p (length olds))
  Finds-here q none ne f = (
    (new, get_elem?-end olds new, ne),
    λ k old g e. elim (get_elem?-snoc olds new old k g) [
      | inl x ↦ absurd (f k old x e)
      | inr (x, _) ↦ omega arith
    ],
  )
  Finds-here q (some p) ne ((o, g', e'), f) = (
    (o, get_elem?-old olds new o p g', e'),
    λ k old g e. elim (get_elem?-snoc olds new old k g) [
      | inl x ↦ f k old x e
      | inr (x, _) ↦ omega (arith, get_elem?-lt olds o p g')
    ],
  )

  module _ (r : Bytes) (at : ℕ) (nodes : List Node) (h : Holds olds nodes)
      (here : walk nodes r ≡ some at) (path : Walked nodes (length olds) r)
      (whole : onto [] new ≡ r) where
    Covers-end :
        (q : Bytes) (k : ℕ)
        → Covers nodes q k
        → Covers (modify (with_pair (length olds)) nodes at) q k
    Covers-end q k (j, w, m) = (
      j,
      walk-modify (with_pair (length olds)) nodes at q (λ n. refl) ∙ w,
      omega
          (arith, field-modify (λ n. n.min_pair) (with_pair (length olds)) nodes at j (λ n. refl)),
    )

    Finds-end :
        (q : Bytes) (j : ℕ)
        → walk nodes q ≡ some j
        → Finds (olds ++ new ∷ []) q (node_at (modify (with_pair (length olds)) nodes at) j).pair
    Finds-end q j w = elim (Bool-cases (j == at)) [
      | inl y ↦
          let e : j ≡ at = ground arith in
          let same = h.trie.apart q r at (w ∙ ap some e) here in
          rw (e, node_at-modify (with_pair (length olds)) nodes at (h.trie.within r at here))
            (Finds-here q (node_at nodes at).pair (whole ∙ sym same) (h.pairs q at (w ∙ ap some e)))
      | inr n ↦
          let ne : j ≢ at = λ x. ground arith in
          rw (node_at-modify_other (with_pair (length olds)) nodes at j ne) (
            Finds-other q (node_at nodes j).pair
              (λ x. ne (cc (w, here, ap (walk nodes) (sym whole ∙ x)))) (h.pairs q j w))
    ]

    end-Holds : Holds (olds ++ new ∷ []) (modify (with_pair (length olds)) nodes at)
    end-Holds = record {
      trie = modify-IsTrie (with_pair (length olds)) nodes at (λ n. refl) h.trie;
      pairs = λ q j w.
          Finds-end q j (sym (walk-modify (with_pair (length olds)) nodes at q (λ n. refl)) ∙ w);
      mins = λ k old q rest g e. elim (get_elem?-snoc olds new old k g) [
        | inl x ↦ Covers-end q k (h.mins k old q rest x e)
        | inr (x, y) ↦
            rw x (Covers-end q (length olds) (path q rest (e ∙ ap (onto []) (sym y) ∙ whole)))
      ];
    }

  pub add_from-Holds :
      (bs r : Bytes) (at : ℕ) (nodes : List Node) (n : ℕ)
      → n + length bs < 2 ^ 32
      → Read olds (length olds) r (at, nodes) n
      → onto r bs ≡ onto [] new
      → Holds (olds ++ new ∷ []) (add_from (length olds) bs at nodes)
        × (length (add_from (length olds) bs at nodes) ≤ n + length bs)
  unfolding add_from
  add_from-Holds [] r at nodes n small (h, w, p, len) e = (
    end-Holds r at nodes h w p (sym e),
    omega (arith, length-modify (with_pair (length olds)) nodes at),
  )
  add_from-Holds (b ∷ bs) r at nodes n small read e =
      let (at', nodes') = descend b at nodes in
      let (f, len) =
        add_from-Holds bs (b ∷ r) at' (modify (with_min (length olds)) nodes' at') (n + 1)
          (omega arith)
          (touch-Read olds (length olds) r b at' (n + 1) nodes'
            (descend-Led olds (length olds) r b at n nodes (omega arith) read))
          e in
      (f, omega arith)
