-- ===== src/Text/Build/Descend.antt =====
-- One byte of a new text on its way through the trie (src/capabilities/text.rs, `Builder::add`).
use lur.Base.{
  ℕ, ◌+◌, ◌<◌, ◌≤◌, ◌^◌, ◌≡◌, refl, ap, ◌∙◌, inl, inr, Option, none, some, List, [], ◌∷◌, ◌++◌,
  length, arith,
}
use lur.Base.Bytes.{Bytes}
use lur.Text.{Node, new_node, node_at, modify, child, with_child, with_min, u32, descend}
use lur.Text.Trie.{walk, follow, length-modify, walk-modify}
use lur.Text.Trie.Grown.{length-grown}
use lur.Text.Build.{
  onto_cases, Holds, Walked, touch-Holds, Covers-touch, Covers-touch_here, grown-Holds,
  Covers-grown, walk-grown_here,
}

-- A byte is read: `r` is the text that leads to `at`.
abbrev pub Read : List Bytes → ℕ → Bytes → ℕ × List Node → ℕ → Type 0
Read olds i r (at, nodes) n =
    Holds olds nodes × (walk nodes r ≡ some at) × Walked nodes i r × (length nodes ≤ n)

-- The node that `descend` gives, before its `min_pair` is set.
abbrev pub Led : List Bytes → ℕ → Bytes → ℕ → ℕ × List Node → ℕ → Type 0
Led olds i r b (at, nodes) n =
    Holds olds nodes × (walk nodes (b ∷ r) ≡ some at) × Walked nodes i r × (length nodes ≤ n)

walk-child :
    (nodes : List Node) (r : Bytes) (b at : ℕ)
    → walk nodes r ≡ some at
    → walk nodes (b ∷ r) ≡ child b (node_at nodes at).children
unfolding walk
walk-child nodes r b at w = ap (follow nodes b) w

pub descend-Led :
    (olds : List Bytes) (i : ℕ) (r : Bytes) (b at n : ℕ) (nodes : List Node)
    → n < 2 ^ 32
    → Read olds i r (at, nodes) n
    → Led olds i r b (descend b at nodes) (n + 1)
unfolding descend
descend-Led olds i r b at n nodes small (h, w, p, len) =
    go (child b (node_at nodes at).children) refl
  where
    go :
        (o : Option ℕ)
        → child b (node_at nodes at).children ≡ o
        → Led olds i r b
            (elim o [
              | some id ↦ (id, nodes)
              | none ↦ (
                length nodes,
                modify (with_child b (u32 (length nodes))) (nodes ++ new_node ∷ []) at,
              )
            ])
            (n + 1)
    go (some id) e = (h, walk-child nodes r b at w ∙ e, p, omega arith)
    go none e =
        let u : u32 (length nodes) ≡ length nodes = omega arith in
        rw u (
          grown-Holds olds nodes h b at r w e,
          walk-grown_here olds nodes h b at r w e,
          λ q rest x. Covers-grown olds nodes h b at r w e q i (p q rest x),
          omega (arith, length-grown b at nodes),
        )

pub touch-Read :
    (olds : List Bytes) (i : ℕ) (r : Bytes) (b at n : ℕ) (nodes : List Node)
    → Led olds i r b (at, nodes) n
    → Read olds i (b ∷ r) (at, modify (with_min i) nodes at) n
touch-Read olds i r b at n nodes (h, w, p, len) = (
  touch-Holds olds nodes h i at (b ∷ r) w,
  walk-modify (with_min i) nodes at (b ∷ r) (λ n. refl) ∙ w,
  λ q rest x. elim (onto_cases q rest b r x) [
    | inl e ↦ rw e (Covers-touch_here olds nodes h i at (b ∷ r) w)
    | inr (rest', e) ↦ Covers-touch olds nodes h i at (b ∷ r) w q i (p q rest' e)
  ],
  omega (arith, length-modify (with_min i) nodes at),
)
