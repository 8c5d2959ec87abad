-- ===== src/Text.antt =====
-- The replacer of `lur.text` (src/capabilities/text.rs): a trie over the texts to replace, built pair
-- by pair, and the pass over a text. The bytes that it is charged for are left out. A child is looked
-- up in the children in ascending order of their bytes, as the binary search finds it; an index past
-- the nodes, which would panic, reads as a new node.
pub mod Trie
pub mod Build
pub mod Pairs
pub mod Lookup
pub mod Winner
pub mod Spec
pub mod Replace
pub mod Keyed
mod Tests
use lur.Base.{
  ℕ, zero, suc, ◌+◌, ◌-◌, ◌%◌, ◌^◌, Bool, true, false, not, ◌&&◌, ◌||◌, Option, none, some, List,
  [], ◌∷◌, ◌++◌, min, length, get_elem?, ltb, leb, ◌==◌, if◌then◌else◌,
}
use lur.Base.Bytes.{Bytes}

pub data Mode : Type 0 where
  first longest : Mode

pub record Node : Type 0 where
  pub children : List (ℕ × ℕ)
  pub pair : Option ℕ
  pub min_pair : ℕ

-- `u32::MAX`
abbrev pub no_pair : ℕ
no_pair = 2 ^ 32 - 1

-- `Node::new`
abbrev pub new_node : Node
new_node = record { children = []; pair = none; min_pair = no_pair }

-- `nodes[at]`
abbrev pub node_at : List Node → ℕ → Node
node_at [] at = new_node
node_at (n ∷ ns) zero = n
node_at (n ∷ ns) (suc at) = node_at ns at

-- A change of `nodes[at]`.
unfoldable pub modify : (Node → Node) → List Node → ℕ → List Node
modify f [] at = []
modify f (n ∷ ns) zero = f n ∷ ns
modify f (n ∷ ns) (suc at) = n ∷ modify f ns at

unfoldable pub child : ℕ → List (ℕ × ℕ) → Option ℕ
child b [] = none
child b ((c, id) ∷ cs) = if c == b then some id else child b cs

unfoldable pub insert_child : ℕ → ℕ → List (ℕ × ℕ) → List (ℕ × ℕ)
insert_child b id [] = (b, id) ∷ []
insert_child b id ((c, j) ∷ cs) =
    if ltb b c then (b, id) ∷ (c, j) ∷ cs else (c, j) ∷ insert_child b id cs

abbrev pub u32 : ℕ → ℕ
u32 n = n % 2 ^ 32

abbrev pub with_min : ℕ → Node → Node
with_min i n = record n { min_pair = min n.min_pair i }

-- `get_or_insert`
abbrev pub or_insert : Option ℕ → ℕ → Option ℕ
or_insert none i = some i
or_insert (some p) i = some p

abbrev pub with_pair : ℕ → Node → Node
with_pair i n = record n { pair = or_insert n.pair i }

abbrev pub with_child : ℕ → ℕ → Node → Node
with_child b id n = record n { children = insert_child b id n.children }

-- The node that the next byte leads to, a new one if there is none.
unfoldable pub descend : ℕ → ℕ → List Node → ℕ × List Node
descend b at nodes = elim (child b (node_at nodes at).children) [
  | some id ↦ (id, nodes)
  | none ↦ (length nodes, modify (with_child b (u32 (length nodes))) (nodes ++ new_node ∷ []) at)
]

-- The loop of `Builder::add` from node `at` on, and its end.
unfoldable pub add_from : ℕ → Bytes → ℕ → List Node → List Node
add_from i [] at nodes = modify (with_pair i) nodes at
add_from i (b ∷ bs) at nodes =
    let (at', nodes') = descend b at nodes in add_from i bs at' (modify (with_min i) nodes' at')

pub record Builder : Type 0 where
  pub nodes : List Node
  pub news : List Bytes

-- `Builder::new`
abbrev pub new_builder : Builder
new_builder = record { nodes = new_node ∷ []; news = [] }

-- `Builder::add`
unfoldable pub add : Bytes → Bytes → Builder → Builder
add old new b =
    let i = u32 (length b.news) in
    record { nodes = add_from i old 0 (modify (with_min i) b.nodes 0); news = b.news ++ new ∷ [] }

unfoldable pub build_from : List (Bytes × Bytes) → Builder → Builder
build_from [] b = b
build_from ((old, new) ∷ pairs) b = build_from pairs (add old new b)

pub record Matcher : Type 0 where
  pub nodes : List Node
  pub news : List Bytes
  pub mode : Mode

-- `Builder::finish`, after `add` of each pair. `build_matcher` makes the same calls, and stops early
-- with an error when the trie outgrows the limit.
unfoldable pub build : List (Bytes × Bytes) → Mode → Matcher
build pairs mode =
    let b = build_from pairs new_builder in record { nodes = b.nodes; news = b.news; mode = mode }

-- The pair that wins so far, with the length of its text.
abbrev pub Best : Type 0
Best = Option (ℕ × ℕ)

unfoldable pub earlier : ℕ → Best → Bool
earlier p none = true
earlier p (some (b, len)) = ltb p b

-- What a node offers at a depth.
unfoldable pub offered : Mode → Option ℕ → ℕ → Bool → Best → Best
unfolding earlier
offered mode none depth skip_empty best = best
offered first (some p) depth skip_empty best =
    if depth == 0 && skip_empty then best else if earlier p best then some (p, depth) else best
offered longest (some p) depth skip_empty best =
    if depth == 0 && skip_empty then best else some (p, depth)

-- Nothing deeper is listed earlier than what there is.
unfoldable pub settled : Mode → ℕ → Best → Bool
settled longest min_pair best = false
settled first min_pair none = false
settled first min_pair (some (b, len)) = leb b min_pair

-- The loop of `Matcher::lookup` from node `at` on.
unfoldable pub look : Mode → List Node → Bool → ℕ → ℕ → Best → Bytes → Best × ℕ
unfolding offered settled
look mode nodes skip_empty at depth best [] =
    (offered mode (node_at nodes at).pair depth skip_empty best, depth + 1)
look mode nodes skip_empty at depth best (c ∷ cs) =
    let node = node_at nodes at in
    let best' = offered mode node.pair depth skip_empty best in
    if settled mode node.min_pair best' then (best', depth + 1) else elim (child c node.children) [
      | none ↦ (best', depth + 1)
      | some id ↦ look mode nodes skip_empty id (depth + 1) best' cs
    ]

-- `Matcher::lookup`
unfoldable pub lookup : Matcher → Bytes → Bool → Best × ℕ
lookup m text skip_empty = look m.mode m.nodes skip_empty 0 0 none text
