-- ===== src/Text/Trie.antt =====
-- The nodes of the trie (src/capabilities/text.rs) as a graph: where a text leads, and what a change
-- of one node or a new one does to that. A text is kept from its last byte to its first.
pub mod Grown
use lur.Base.{
  ◌≢◌, ℕ, zero, suc, ◌+◌, ◌<◌, ◌≡◌, refl, sym, ap, ◌∙◌, if◌then◌else◌, ◌⊎◌, inl, inr, Bool-cases,
  Option, Option-cases, none, some, List, [], ◌∷◌, ◌++◌, length, length-append, ◌==◌, arith,
}
use lur.Base.Bytes.{Bytes}
use lur.Text.{Node, new_node, node_at, modify, child, insert_child, with_child}

abbrev pub follow : List Node → ℕ → Option ℕ → Option ℕ
follow nodes c none = none
follow nodes c (some at) = child c (node_at nodes at).children

-- The node that a text leads to.
unfoldable pub walk : List Node → Bytes → Option ℕ
walk nodes [] = some 0
walk nodes (c ∷ r) = follow nodes c (walk nodes r)

-- No link leads out of the nodes, and two texts never lead to one node.
pub record IsTrie (nodes : List Node) : Type 0 where
  pub within : (r : Bytes) (j : ℕ) → walk nodes r ≡ some j → j < length nodes
  pub apart : (r s : Bytes) (j : ℕ) → walk nodes r ≡ some j → walk nodes s ≡ some j → r ≡ s

pub length-modify :
    (f : Node → Node) (nodes : List Node) (at : ℕ) → length (modify f nodes at) ≡ length nodes
unfolding modify
length-modify f [] at = refl
length-modify f (n ∷ ns) zero = refl
length-modify f (n ∷ ns) (suc at) = ap suc (length-modify f ns at)

pub node_at-modify :
    (f : Node → Node) (nodes : List Node) (at : ℕ)
    → at < length nodes
    → node_at (modify f nodes at) at ≡ f (node_at nodes at)
unfolding modify
node_at-modify f [] at h = absurd (omega arith)
node_at-modify f (n ∷ ns) zero h = refl
node_at-modify f (n ∷ ns) (suc at) h = node_at-modify f ns at (omega arith)

pub node_at-modify_other :
    (f : Node → Node) (nodes : List Node) (at j : ℕ)
    → j ≢ at
    → node_at (modify f nodes at) j ≡ node_at nodes j
unfolding modify
node_at-modify_other f [] at j h = refl
node_at-modify_other f (n ∷ ns) zero zero h = absurd (h refl)
node_at-modify_other f (n ∷ ns) zero (suc j) h = refl
node_at-modify_other f (n ∷ ns) (suc at) zero h = refl
node_at-modify_other f (n ∷ ns) (suc at) (suc j) h =
    node_at-modify_other f ns at j λ e. h (ap suc e)

pub node_at-append :
    (nodes more : List Node) (j : ℕ)
    → j < length nodes
    → node_at (nodes ++ more) j ≡ node_at nodes j
node_at-append [] more j h = absurd (omega arith)
node_at-append (n ∷ ns) more zero h = refl
node_at-append (n ∷ ns) more (suc j) h = node_at-append ns more j (omega arith)

pub node_at_end : (nodes : List Node) (n : Node) → node_at (nodes ++ n ∷ []) (length nodes) ≡ n
node_at_end [] n = refl
node_at_end (m ∷ ns) n = node_at_end ns n

-- What a change leaves alone in a node it leaves alone in the nodes.
pub field-modify {ℓ} :
    {X : Type ℓ} (g : Node → X) (f : Node → Node) (nodes : List Node) (at j : ℕ)
    → ((n : Node) → g (f n) ≡ g n)
    → g (node_at (modify f nodes at) j) ≡ g (node_at nodes j)
unfolding modify
field-modify g f [] at j h = refl
field-modify g f (n ∷ ns) zero zero h = h n
field-modify g f (n ∷ ns) zero (suc j) h = refl
field-modify g f (n ∷ ns) (suc at) zero h = refl
field-modify g f (n ∷ ns) (suc at) (suc j) h = field-modify g f ns at j h

abbrev pub KeepsChildren : (Node → Node) → Type 0
KeepsChildren f = (n : Node) → (f n).children ≡ n.children

pub walk-modify :
    (f : Node → Node) (nodes : List Node) (at : ℕ) (r : Bytes)
    → KeepsChildren f
    → walk (modify f nodes at) r ≡ walk nodes r
unfolding walk
walk-modify f nodes at [] h = refl
walk-modify f nodes at (c ∷ r) h = elim (Option-cases (walk nodes r)) [
  | inl e ↦ rw (walk-modify f nodes at r h, e)
  | inr (j, e) ↦
      rw (walk-modify f nodes at r h, e)
        (ap (child c) (field-modify (λ n. n.children) f nodes at j h))
]

pub modify-IsTrie :
    (f : Node → Node) (nodes : List Node) (at : ℕ)
    → KeepsChildren f
    → IsTrie nodes
    → IsTrie (modify f nodes at)
modify-IsTrie f nodes at h t =
    let w = λ (r : Bytes). walk-modify f nodes at r h in
    record {
      within = λ r j e. rw (length-modify f nodes at) (t.within r j (sym (w r) ∙ e));
      apart = λ r s j e e'. t.apart r s j (sym (w r) ∙ e) (sym (w s) ∙ e');
    }

pub child-insert :
    (b id c : ℕ) (cs : List (ℕ × ℕ))
    → child b cs ≡ none
    → child c (insert_child b id cs) ≡ (if b == c then some id else child c cs)
unfolding child insert_child
child-insert b id c [] h = refl
child-insert b id c ((d, j) ∷ cs) h = ground (arith, child-insert b id c cs)
