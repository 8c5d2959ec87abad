-- ===== src/Text/Winner.antt =====
-- The loop of `Matcher::lookup` and the pair that wins (src/capabilities/text.rs).
use lur.Base.{
  ℕ, ◌+◌, ◌≤◌, ◌≡◌, refl, sym, ap, ◌∙◌, ◌⊎◌, inl, inr, Bool, true, Bool-cases, Option-cases, none,
  some, List, [], ◌∷◌, length, arith,
}
use lur.Base.Bytes.{Bytes}
use lur.Text.{Mode, first, longest, Node, node_at, child, Best, offered, settled, look}
use lur.Text.Trie.{walk, follow}
use lur.Text.Build.{Covers, Holds}
use lur.Text.Lookup.{
  BestWins, BestWins-trans, Continues, Here-Continues, Continues-byte, Continues-end,
  Continues-cases, Older, Offers, Outcome, offered-Offers,
}

-- The loop breaks off only where nothing below is listed earlier.
settled-BestWins :
    (mode : Mode) (min_pair k l : ℕ) (best : Best)
    → settled mode min_pair best ≡ true
    → min_pair ≤ k
    → BestWins mode best k l
unfolding settled
settled-BestWins longest min_pair k l best s m = absurd (cc s)
settled-BestWins first min_pair k l none s m = absurd (cc s)
settled-BestWins first min_pair k l (some (b, len)) s m = ground arith

module _ (texts : List Bytes) (nodes : List Node) (h : Holds texts nodes) (mode : Mode)
    (skip_empty : Bool) where
  abbrev pub Found : Bytes → Bytes → Best → Best → Type 0
  Found = Outcome texts mode skip_empty

  Here-from :
      (r rest : Bytes) (best out : Best)
      → Offers texts mode skip_empty r best out
      → (out ≡ best)
        ⊎ ((p len : ℕ) × (out ≡ some (p, len)) × Continues texts mode skip_empty r rest p len)
  Here-from r rest best out o = elim o.from [
    | inl e ↦ inl e
    | inr (p, e, x) ↦
        inr (p, length r, e, Here-Continues texts mode skip_empty r rest p (length r) x)
  ]

  -- What wins over what wins.
  through :
      (o out : Best) (k l : ℕ)
      → BestWins mode o k l
      → ((k l : ℕ) → o ≡ some (k, l) → BestWins mode out k l)
      → BestWins mode out k l
  through none out k l w f = absurd w
  through (some (p, len)) out k l w f = BestWins-trans mode out p len k l (f p len refl) w

  -- The loop stops at a node: the node's offer is the outcome, if nothing that goes on wins over it.
  stop-Outcome :
      (r : Bytes) (c : ℕ) (rest : Bytes) (best out : Best)
      → Offers texts mode skip_empty r best out
      → ((k l : ℕ) → Continues texts mode skip_empty (c ∷ r) rest k l → BestWins mode out k l)
      → Found r (c ∷ rest) best out
  stop-Outcome r c rest best out o no_more = record {
    from = Here-from r (c ∷ rest) best out o;
    wins = λ k l n. elim (Continues-cases texts mode skip_empty c r rest k l n) [
      | inl x ↦ o.wins k l x
      | inr x ↦ no_more k l x
    ];
    keeps = o.keeps;
  }

  end-Outcome :
      (r : Bytes) (best out : Best) → Offers texts mode skip_empty r best out → Found r [] best out
  end-Outcome r best out o = record {
    from = Here-from r [] best out o;
    wins = λ k l n. o.wins k l (Continues-end texts mode skip_empty r k l n);
    keeps = o.keeps;
  }

  -- The loop goes on.
  next-Outcome :
      (r : Bytes) (c : ℕ) (rest : Bytes) (best mid out : Best)
      → Offers texts mode skip_empty r best mid
      → Found (c ∷ r) rest mid out
      → Found r (c ∷ rest) best out
  next-Outcome r c rest best mid out o f = record {
    from = elim f.from [
      | inl e ↦ rw e (Here-from r (c ∷ rest) best mid o)
      | inr (p, len, e, n) ↦ inr (p, len, e, Continues-byte texts mode skip_empty c r rest p len n)
    ];
    wins = λ k l n. elim (Continues-cases texts mode skip_empty c r rest k l n) [
      | inl x ↦ through mid out k l (o.wins k l x) f.keeps
      | inr x ↦ f.wins k l x
    ];
    keeps = λ k l e. through mid out k l (o.keeps k l e) f.keeps;
  }

  -- What goes on has a node, and the nodes on the way say that it is there.
  Continues-Covers :
      (c k l : ℕ) (r rest : Bytes)
      → Continues texts mode skip_empty (c ∷ r) rest k l
      → Covers nodes r k × Covers nodes (c ∷ r) k
  Continues-Covers c k l r rest n = (
    h.mins k n.old r (c ∷ n.u) n.listed (sym n.whole),
    h.mins k n.old (c ∷ r) n.u n.listed (sym n.whole),
  )

  settled_wins :
      (r rest : Bytes) (c at : ℕ) (best : Best)
      → walk nodes r ≡ some at
      → settled mode (node_at nodes at).min_pair best ≡ true
      → (k l : ℕ) → Continues texts mode skip_empty (c ∷ r) rest k l
      → BestWins mode best k l
  settled_wins r rest c at best w s k l n =
      let ((j, w', m), _) = Continues-Covers c k l r rest n in
      let same : j ≡ at = cc (w, w') in
      settled-BestWins mode (node_at nodes at).min_pair k l best s (rw same at m)

  childless_wins :
      (r rest : Bytes) (c at : ℕ) (best : Best)
      → walk nodes r ≡ some at
      → child c (node_at nodes at).children ≡ none
      → (k l : ℕ) → Continues texts mode skip_empty (c ∷ r) rest k l
      → BestWins mode best k l
  unfolding walk
  childless_wins r rest c at best w e k l n =
      let (_, (j, w', _)) = Continues-Covers c k l r rest n in absurd (cc (w, w', e))

  pub look-Outcome :
      (rest r : Bytes) (at : ℕ) (best : Best)
      → walk nodes r ≡ some at
      → Older texts mode skip_empty (length r) best
      → Found r rest best (look mode nodes skip_empty at (length r) best rest).0
  unfolding look walk
  look-Outcome [] r at best w o =
      end-Outcome r best _
        (offered-Offers texts mode skip_empty r best (node_at nodes at).pair o (h.pairs r at w))
  look-Outcome (c ∷ rest) r at best w o =
      let offer =
        offered-Offers texts mode skip_empty r best (node_at nodes at).pair o (h.pairs r at w) in
      let mid = offered mode (node_at nodes at).pair (length r) skip_empty best in
      elim (Bool-cases (settled mode (node_at nodes at).min_pair mid)) [
        | inl y ↦ rw y (stop-Outcome r c rest best mid offer (settled_wins r rest c at mid w y))
        | inr y ↦ elim (Option-cases (child c (node_at nodes at).children)) [
          | inl x ↦
              rw (y, x) (stop-Outcome r c rest best mid offer (childless_wins r rest c at mid w x))
          | inr (id, x) ↦
              let z : length (c ∷ r) ≡ length r + 1 = omega arith in
              let next =
                look-Outcome rest (c ∷ r) id mid (ap (follow nodes c) w ∙ x) (rw z offer.older) in
              rw (y, x) (next-Outcome r c rest best mid _ offer (rw z at next))
        ]
      ]
