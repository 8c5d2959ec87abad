-- ===== src/Text/Pairs.antt =====
-- The trie of all the pairs (src/capabilities/text.rs, `Builder::add` for each of them).
use lur.Base.{
  ℕ, zero, suc, ◌+◌, ◌<◌, ◌≤◌, ◌^◌, ◌≡◌, refl, sym, ap, ◌∙◌, Option-cases, none, some, inl, inr,
  List, [], ◌∷◌, ◌++◌, map, length, length-append, arith,
}
use lur.Base.Bytes.{Bytes}
use lur.Text.{
  Node, new_node, modify, child, with_min, u32, add_from, Builder, new_builder, add, build_from,
  Mode, build,
}
use lur.Text.Trie.{walk, follow, IsTrie, length-modify}
use lur.Text.Build.{Holds, Walked, onto_nil, touch-Holds, Covers-touch_here}
use lur.Text.Build.Finish.{add_from-Holds}

abbrev pub olds : List (Bytes × Bytes) → List Bytes
olds pairs = map (λ p. p.0) pairs

abbrev pub total : List (Bytes × Bytes) → ℕ
total [] = 0
total ((old, new) ∷ pairs) = length old + total pairs

-- The pairs, and the nodes that their texts can need, can be counted in a `u32`.
abbrev pub FitsU32 : List (Bytes × Bytes) → Type 0
FitsU32 pairs = (length pairs < 2 ^ 32) × (total pairs + 1 < 2 ^ 32)

-- A builder that has been given `done`, and whose nodes are at most `n`.
record Built (done : List (Bytes × Bytes)) (b : Builder) (n : ℕ) : Type 0 where
  holds : Holds (olds done) b.nodes
  news : b.news ≡ map (λ p. p.1) done
  size : length b.nodes ≤ n

walk-new : (c : ℕ) (r : Bytes) → walk (new_node ∷ []) (c ∷ r) ≡ none
unfolding walk child
walk-new c r = elim (Option-cases (walk (new_node ∷ []) r)) [
  | inl e ↦ ap (follow (new_node ∷ []) c) e
  | inr (zero, e) ↦ ap (follow (new_node ∷ []) c) e
  | inr (suc j, e) ↦ ap (follow (new_node ∷ []) c) e
]

new-within : (r : Bytes) (j : ℕ) → walk (new_node ∷ []) r ≡ some j → (r ≡ []) × (j ≡ 0)
unfolding walk
new-within [] j e = (refl, cc e)
new-within (c ∷ r) j e = absurd (cc (walk-new c r, e))

new-IsTrie : IsTrie (new_node ∷ [])
new-IsTrie = record {
  within = λ r j e. omega (arith, (new-within r j e).1);
  apart = λ r s j e e'. (new-within r j e).0 ∙ sym (new-within s j e').0;
}

new-Built : Built [] new_builder 1
new-Built = record {
  holds = record {
    trie = new-IsTrie;
    pairs = λ q j w. rw ((new-within q j w).1) (λ k old g e. cc g);
    mins = λ k old q rest g e. absurd (cc g);
  };
  news = refl;
  size = omega arith;
}

module _ {A : Type 0} (f : Bytes × Bytes → A) where
  map-snoc :
      (done : List (Bytes × Bytes)) (p : Bytes × Bytes)
      → map f (done ++ p ∷ []) ≡ map f done ++ f p ∷ []
  map-snoc [] p = refl
  map-snoc (d ∷ done) p = ap (λ l. f d ∷ l) (map-snoc done p)

  length-map : (done : List (Bytes × Bytes)) → length (map f done) ≡ length done
  length-map [] = refl
  length-map (d ∷ done) = ap suc (length-map done)

snoc-append :
    (done : List (Bytes × Bytes)) (p : Bytes × Bytes) (more : List (Bytes × Bytes))
    → (done ++ p ∷ []) ++ more ≡ done ++ p ∷ more
snoc-append [] p more = refl
snoc-append (d ∷ done) p more = ap (λ l. d ∷ l) (snoc-append done p more)

append_none : (done : List (Bytes × Bytes)) → done ++ [] ≡ done
append_none [] = refl
append_none (d ∷ done) = ap (λ l. d ∷ l) (append_none done)

-- The root covers the new pair before its first byte is read.
root-Walked :
    (done : List Bytes) (nodes : List Node) (i : ℕ)
    → Holds done nodes
    → Walked (modify (with_min i) nodes 0) i []
unfolding walk
root-Walked done nodes i h =
    λ q rest e. rw (onto_nil q rest e) (Covers-touch_here done nodes h i 0 [] refl)

add_at-Holds :
    (done : List Bytes) (old : Bytes) (nodes : List Node) (i n : ℕ)
    → i ≡ length done
    → n + length old < 2 ^ 32
    → length nodes ≤ n
    → Holds done nodes
    → Holds (done ++ old ∷ []) (add_from i old 0 (modify (with_min i) nodes 0))
      × (length (add_from i old 0 (modify (with_min i) nodes 0)) ≤ n + length old)
unfolding walk
add_at-Holds done old nodes i n e small size h = rw e (
    add_from-Holds done old old [] 0 (modify (with_min (length done)) nodes 0) n small
      (
        touch-Holds done nodes h (length done) 0 [] refl,
        refl,
        root-Walked done nodes (length done) h,
        omega (arith, length-modify (with_min (length done)) nodes 0),
      )
      refl)

add-Built :
    (done : List (Bytes × Bytes)) (old new : Bytes) (b : Builder) (n : ℕ)
    → length done < 2 ^ 32
    → n + length old < 2 ^ 32
    → Built done b n
    → Built (done ++ (old, new) ∷ []) (add old new b) (n + length old)
unfolding add
add-Built done old new b n few small s =
    let count = ap (length {A = Bytes}) s.news ∙ length-map (λ p. p.1) done in
    let same : u32 (length b.news) ≡ length (olds done) =
      omega (arith, count, length-map (λ p. p.0) done) in
    let (f, size) =
      add_at-Holds (olds done) old b.nodes (u32 (length b.news)) n same small s.size s.holds in
    record {
      holds = rw (map-snoc (λ p. p.0) done (old, new)) f;
      news = ap (λ l. l ++ new ∷ []) s.news ∙ sym (map-snoc (λ p. p.1) done (old, new));
      size = size;
    }

build_from-Built :
    (pairs done : List (Bytes × Bytes)) (b : Builder) (n : ℕ)
    → length done + length pairs < 2 ^ 32
    → n + total pairs < 2 ^ 32
    → Built done b n
    → Built (done ++ pairs) (build_from pairs b) (n + total pairs)
unfolding build_from
build_from-Built [] done b n few small s =
    let z : n + 0 ≡ n = omega arith in rw (append_none done, z) s
build_from-Built ((old, new) ∷ pairs) done b n few small s =
    let added = add-Built done old new b n (omega arith) (omega arith) s in
    let rest =
      build_from-Built pairs (done ++ (old, new) ∷ []) (add old new b) (n + length old)
        (omega (arith, length-append done ((old, new) ∷ []))) (omega arith) added in
    let sum : n + (length old + total pairs) ≡ n + length old + total pairs = omega arith in
    rw (sum, ← snoc-append done (old, new) pairs) rest

-- The trie of a replacer says of its pairs what it should.
pub build-Holds :
    (pairs : List (Bytes × Bytes)) (mode : Mode)
    → FitsU32 pairs
    → Holds (olds pairs) (build pairs mode).nodes
unfolding build
build-Holds pairs mode (few, small) =
    (build_from-Built pairs [] new_builder 1 (omega arith) (omega arith) new-Built).holds

pub build-news :
    (pairs : List (Bytes × Bytes)) (mode : Mode)
    → FitsU32 pairs
    → (build pairs mode).news ≡ map (λ p. p.1) pairs
unfolding build
build-news pairs mode (few, small) =
    (build_from-Built pairs [] new_builder 1 (omega arith) (omega arith) new-Built).news
