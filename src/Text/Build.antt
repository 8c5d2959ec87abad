-- ===== src/Text/Build.antt =====
-- What the trie says of the texts that were added to it (src/capabilities/text.rs, `Builder::add`).
pub mod Descend
pub mod Finish
use lur.Base.{
  ◌≢◌, ℕ, zero, suc, ◌+◌, ◌<◌, ◌≤◌, ◌^◌, ◌≡◌, refl, sym, ap, ◌∙◌, ◌⊎◌, inl, inr, Bool-cases, Option,
  none, some, List, [], ◌∷◌, ◌++◌, length, get_elem?, ◌==◌, arith,
}
use lur.Base.Bytes.{Bytes}
use lur.Text.{
  Node, new_node, node_at, modify, child, with_child, with_min, with_pair, or_insert, u32, descend,
  add_from,
}
use lur.Text.Trie.{
  walk, follow, IsTrie, length-modify, node_at-modify, node_at-modify_other, field-modify,
  walk-modify, modify-IsTrie,
}
use lur.Text.Trie.Grown.{
  grown, length-grown, node_at-grown, node_at-grown_other, node_at-grown_end, walk-grown,
  none_before, grown-IsTrie,
}

-- A text put onto another one that is kept from its last byte to its first.
abbrev pub onto : Bytes → Bytes → Bytes
onto r [] = r
onto r (b ∷ bs) = onto (b ∷ r) bs

pub length-onto : (r bs : Bytes) → length (onto r bs) ≡ length r + length bs
length-onto r [] = omega arith
length-onto r (b ∷ bs) = omega (arith, length-onto (b ∷ r) bs)

pub onto_nil : (q rest : Bytes) → onto q rest ≡ [] → q ≡ []
onto_nil [] rest e = refl
onto_nil (c ∷ q) rest e = absurd (omega (arith, ap (length {A = ℕ}) e, length-onto (c ∷ q) rest))

-- What ends in `b ∷ r` is all of it or ends in `r`.
pub onto_cases :
    (q rest : Bytes) (b : ℕ) (r : Bytes)
    → onto q rest ≡ (b ∷ r)
    → (q ≡ (b ∷ r)) ⊎ ((rest' : Bytes) × (onto q rest' ≡ r))
onto_cases q [] b r e = inl e
onto_cases q (c ∷ rest) b r e = elim (onto_cases (c ∷ q) rest b r e) [
  | inl x ↦ inr ([], cc x)
  | inr (rest', x) ↦ inr (c ∷ rest', x)
]

-- `p` is the first of the texts that is `q`.
abbrev pub Finds : List Bytes → Bytes → Option ℕ → Type 0
Finds olds q none = (k : ℕ) (old : Bytes) → get_elem? olds k ≡ some old → onto [] old ≡ q → ⊥
Finds olds q (some p) =
    ((old : Bytes) × (get_elem? olds p ≡ some old) × (onto [] old ≡ q))
    × ((k : ℕ) (old : Bytes) → get_elem? olds k ≡ some old → onto [] old ≡ q → p ≤ k)

-- `q` leads to a node, and the node's smallest pair is at most `k`.
abbrev pub Covers : List Node → Bytes → ℕ → Type 0
Covers nodes q k = (j : ℕ) × (walk nodes q ≡ some j) × ((node_at nodes j).min_pair ≤ k)

pub record Holds (olds : List Bytes) (nodes : List Node) : Type 0 where
  pub trie : IsTrie nodes
  pub pairs : (q : Bytes) (j : ℕ) → walk nodes q ≡ some j → Finds olds q (node_at nodes j).pair
  pub mins :
      (k : ℕ) (old q rest : Bytes)
      → get_elem? olds k ≡ some old
      → onto q rest ≡ onto [] old
      → Covers nodes q k

-- Every start of the text that leads to the present node.
abbrev pub Walked : List Node → ℕ → Bytes → Type 0
Walked nodes i r = (q rest : Bytes) → onto q rest ≡ r → Covers nodes q i

module _ (olds : List Bytes) (nodes : List Node) (h : Holds olds nodes) where
  inside : (r : Bytes) (at : ℕ) → walk nodes r ≡ some at → at < length nodes
  inside r at w = h.trie.within r at w

  -- A smaller `min_pair` at one node.
  module _ (i at : ℕ) (r : Bytes) (here : walk nodes r ≡ some at) where
    min-touch :
        (j : ℕ) → (node_at (modify (with_min i) nodes at) j).min_pair ≤ (node_at nodes j).min_pair
    min-touch j = elim (Bool-cases (j == at)) [
      | inl y ↦
          let e : j ≡ at = ground arith in
          let v = ap (λ n. n.min_pair) (node_at-modify (with_min i) nodes at (inside r at here)) in
          rw e (omega (arith, v))
      | inr n ↦
          let ne : j ≢ at = λ x. ground arith in
          omega (arith, ap (λ n. n.min_pair) (node_at-modify_other (with_min i) nodes at j ne))
    ]

    pub Covers-touch :
        (q : Bytes) (k : ℕ) → Covers nodes q k → Covers (modify (with_min i) nodes at) q k
    Covers-touch q k (j, w, m) =
        (j, walk-modify (with_min i) nodes at q (λ n. refl) ∙ w, omega (arith, min-touch j))

    pub Covers-touch_here : Covers (modify (with_min i) nodes at) r i
    Covers-touch_here =
        let v = ap (λ n. n.min_pair) (node_at-modify (with_min i) nodes at (inside r at here)) in
        (at, walk-modify (with_min i) nodes at r (λ n. refl) ∙ here, omega (arith, v))

    pub touch-Holds : Holds olds (modify (with_min i) nodes at)
    touch-Holds = record {
      trie = modify-IsTrie (with_min i) nodes at (λ n. refl) h.trie;
      pairs = λ q j w.
          rw (field-modify (λ n. n.pair) (with_min i) nodes at j (λ n. refl))
            (h.pairs q j (sym (walk-modify (with_min i) nodes at q (λ n. refl)) ∙ w));
      mins = λ k old q rest g e. Covers-touch q k (h.mins k old q rest g e);
    }

  -- A new node.
  module _ (b at : ℕ) (r : Bytes) (here : walk nodes r ≡ some at)
      (no_child : child b (node_at nodes at).children ≡ none) where
    field-grown {ℓ} :
        {X : Type ℓ} (g : Node → X) (j : ℕ)
        → ((n : Node) → g (with_child b (length nodes) n) ≡ g n)
        → j < length nodes
        → g (node_at (grown b at nodes) j) ≡ g (node_at nodes j)
    field-grown g j same lt = elim (Bool-cases (j == at)) [
      | inl y ↦
          let e : j ≡ at = ground arith in
          rw e (ap g (node_at-grown b at nodes (inside r at here)) ∙ same (node_at nodes at))
      | inr n ↦
          let ne : j ≢ at = λ x. ground arith in
          ap g (node_at-grown_other b at nodes (inside r at here) j lt ne)
    ]

    pub Covers-grown : (q : Bytes) (k : ℕ) → Covers nodes q k → Covers (grown b at nodes) q k
    Covers-grown q k (j, w, m) = elim (walk-grown b at nodes r h.trie here no_child q) [
      | inl (x, _) ↦
          absurd (cc (ap (walk nodes) x, none_before b at nodes r h.trie here no_child, w))
      | inr (_, v) ↦
          (j, v ∙ w, omega (arith, field-grown (λ n. n.min_pair) j (λ n. refl) (inside q j w)))
    ]

    pub walk-grown_here : walk (grown b at nodes) (b ∷ r) ≡ some (length nodes)
    walk-grown_here = elim (walk-grown b at nodes r h.trie here no_child (b ∷ r)) [
      | inl (_, v) ↦ v
      | inr (ne, _) ↦ absurd (ne refl)
    ]

    pub grown-Holds : Holds olds (grown b at nodes)
    grown-Holds = record {
      trie = grown-IsTrie b at nodes r h.trie here no_child;
      pairs = λ q j w. elim (walk-grown b at nodes r h.trie here no_child q) [
        | inl (x, v) ↦
            let l : length nodes ≡ j = cc (v, w) in
            rw (← l, node_at-grown_end b at nodes (inside r at here))
              (λ k old g e.
                let (_, u, _) = h.mins k old q [] g (sym e) in
                cc (ap (walk nodes) x, none_before b at nodes r h.trie here no_child, u))
        | inr (_, v) ↦
            let u = sym v ∙ w in
            rw (field-grown (λ n. n.pair) j (λ n. refl) (inside q j u)) (h.pairs q j u)
      ];
      mins = λ k old q rest g e. Covers-grown q k (h.mins k old q rest g e);
    }
