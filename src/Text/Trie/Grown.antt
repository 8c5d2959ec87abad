-- ===== src/Text/Trie/Grown.antt =====
-- The trie with one more node (src/capabilities/text.rs, `Builder::add`).
use lur.Base.{
  ◌≢◌, ℕ, ◌+◌, ◌<◌, ◌≡◌, refl, sym, ap, ◌∙◌, if◌then◌else◌, ◌⊎◌, inl, inr, Bool-cases, Option-cases,
  none, some, List, [], ◌∷◌, ◌++◌, length, length-append, ◌==◌, arith,
}
use lur.Base.Bytes.{Bytes}
use lur.Text.{Node, new_node, node_at, modify, child, with_child}
use lur.Text.Trie.{
  follow, walk, IsTrie, length-modify, node_at-modify, node_at-modify_other, node_at-append,
  node_at_end, child-insert,
}

-- `nodes` with a new node below node `at`, as `descend` makes it.
abbrev pub grown : ℕ → ℕ → List Node → List Node
grown b at nodes = modify (with_child b (length nodes)) (nodes ++ new_node ∷ []) at

pub length-grown : (b at : ℕ) (nodes : List Node) → length (grown b at nodes) ≡ length nodes + 1
length-grown b at nodes =
    length-modify (with_child b (length nodes)) (nodes ++ new_node ∷ []) at
    ∙ length-append nodes (new_node ∷ [])

module _ (b at : ℕ) (nodes : List Node) (h : at < length nodes) where
  wide : at < length (nodes ++ new_node ∷ [])
  wide = omega (arith, length-append nodes (new_node ∷ []))

  pub node_at-grown : node_at (grown b at nodes) at ≡ with_child b (length nodes) (node_at nodes at)
  node_at-grown =
      node_at-modify (with_child b (length nodes)) (nodes ++ new_node ∷ []) at wide
      ∙ ap (with_child b (length nodes)) (node_at-append nodes (new_node ∷ []) at h)

  pub node_at-grown_other :
      (j : ℕ) → j < length nodes → j ≢ at → node_at (grown b at nodes) j ≡ node_at nodes j
  node_at-grown_other j hj ne =
      node_at-modify_other (with_child b (length nodes)) (nodes ++ new_node ∷ []) at j ne
      ∙ node_at-append nodes (new_node ∷ []) j hj

  pub node_at-grown_end : node_at (grown b at nodes) (length nodes) ≡ new_node
  node_at-grown_end =
      node_at-modify_other (with_child b (length nodes)) (nodes ++ new_node ∷ []) at (length nodes)
        (λ e. omega arith)
      ∙ node_at_end nodes new_node

longer : (c b : ℕ) (r : Bytes) → (c ∷ b ∷ r) ≢ (b ∷ r)
longer c b r e = omega (arith, ap (length {A = ℕ}) e)

tails : (c b : ℕ) (q r : Bytes) → (c ∷ q) ≡ (b ∷ r) → (c ≡ b) × (q ≡ r)
tails c b q r e = (cc e, cc e)

-- The new node is where `r` and the new byte lead, and all else is as before.
module _ (b at : ℕ) (nodes : List Node) (r : Bytes) (t : IsTrie nodes)
    (here : walk nodes r ≡ some at) (no_child : child b (node_at nodes at).children ≡ none) where
  abbrev Grows : Bytes → Type 0
  Grows q =
      ((q ≡ b ∷ r) × (walk (grown b at nodes) q ≡ some (length nodes)))
      ⊎ ((q ≢ b ∷ r) × (walk (grown b at nodes) q ≡ walk nodes q))

  inside : at < length nodes
  inside = t.within r at here

  pub none_before : walk nodes (b ∷ r) ≡ none
  unfolding walk
  none_before = rw here no_child

  child-grown :
      (c : ℕ)
      → child c (node_at (grown b at nodes) at).children
        ≡ (if b == c then some (length nodes) else child c (node_at nodes at).children)
  child-grown c =
      ap (λ n. child c n.children) (node_at-grown b at nodes inside)
      ∙ child-insert b (length nodes) c (node_at nodes at).children no_child

  follow-grown_other :
      (c j : ℕ)
      → j < length nodes
      → j ≢ at
      → follow (grown b at nodes) c (some j) ≡ follow nodes c (some j)
  follow-grown_other c j hj ne =
      ap (λ n. child c n.children) (node_at-grown_other b at nodes inside j hj ne)

  follow-grown_end : (c : ℕ) → follow (grown b at nodes) c (some (length nodes)) ≡ none
  unfolding child
  follow-grown_end c = ap (λ n. child c n.children) (node_at-grown_end b at nodes inside)

  -- The case of the text that leads to the changed node.
  changed_here :
      (c : ℕ) (q : Bytes)
      → walk (grown b at nodes) q ≡ walk nodes q
      → walk nodes q ≡ some at
      → Grows (c ∷ q)
  unfolding walk
  changed_here c q w e =
      let same = t.apart q r at e here in
      let go = ap (follow (grown b at nodes) c) (w ∙ e) ∙ child-grown c in
      elim (Bool-cases (b == c)) [
        | inl y ↦ let bc : b ≡ c = ground arith in inl (cc, rw y at go)
        | inr n ↦
            let ne : c ≢ b = λ x. ground arith in
            inr (λ x. ne (tails c b q r x).0, (rw n at go) ∙ sym (ap (follow nodes c) e))
      ]

  apart_here : (q : Bytes) (j : ℕ) → walk nodes q ≡ some j → j ≢ at → q ≡ r → ⊥
  apart_here q j e ne x = ne (cc (ap (walk nodes) x, e, here))

  pub walk-grown : (q : Bytes) → Grows q
  unfolding walk
  walk-grown [] = inr (λ e. cc e, refl)
  walk-grown (c ∷ q) = elim (walk-grown q) [
    | inl (e, w) ↦ inr (
      λ x. longer c b r (sym (ap (λ l. c ∷ l) e) ∙ x),
      ap (follow (grown b at nodes) c) w
          ∙ follow-grown_end c
          ∙ sym (ap (follow nodes c) (ap (walk nodes) e ∙ none_before)),
    )
    | inr (ne, w) ↦ elim (Option-cases (walk nodes q)) [
      | inl e ↦ inr (
        λ x. cc (here, e, (tails c b q r x).1),
        ap (follow (grown b at nodes) c) (w ∙ e) ∙ sym (ap (follow nodes c) e),
      )
      | inr (j, e) ↦ elim (Bool-cases (j == at)) [
        | inl y ↦ let ej : j ≡ at = ground arith in changed_here c q w (rw ej at e)
        | inr n ↦
            let ne : j ≢ at = λ x. ground arith in
            inr (
              λ x. apart_here q j e ne (tails c b q r x).1,
              ap (follow (grown b at nodes) c) (w ∙ e)
                  ∙ follow-grown_other c j (t.within q j e) ne
                  ∙ sym (ap (follow nodes c) e),
            )
      ]
    ]
  ]

  -- Where a text leads after it.
  arrives :
      (q : Bytes) (j : ℕ)
      → walk (grown b at nodes) q ≡ some j
      → ((q ≡ b ∷ r) × (j ≡ length nodes)) ⊎ ((walk nodes q ≡ some j) × (j < length nodes))
  arrives q j e = elim (walk-grown q) [
    | inl (x, w) ↦ inl (x, cc (w, e))
    | inr (n, w) ↦ let v = sym w ∙ e in inr (v, t.within q j v)
  ]

  pub grown-IsTrie : IsTrie (grown b at nodes)
  grown-IsTrie = record {
    within = λ q j e. elim (arrives q j e) [
      | inl (x, y) ↦ omega (arith, length-grown b at nodes)
      | inr (w, y) ↦ omega (arith, length-grown b at nodes)
    ];
    apart = λ q s j e e'. elim (arrives q j e) [
      | inl (x, y) ↦ elim (arrives s j e') [
        | inl (x', y') ↦ x ∙ sym x'
        | inr (w', y') ↦ absurd (omega arith)
      ]
      | inr (w, y) ↦ elim (arrives s j e') [
        | inl (x', y') ↦ absurd (omega arith)
        | inr (w', y') ↦ t.apart q s j w w'
      ]
    ];
  }
