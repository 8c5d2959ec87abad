-- ===== src/Base/Dict.antt =====
-- A hash map with byte-string keys, as an association list. The source never relies on the order
-- in which a `HashMap` iterates.
use Prim.Native.Nat.{ℕ, suc, ◌+◌, ◌≤◌}
use mathlib.Core.Path.{◌≡◌, refl}
use mathlib.Core.Bool.{Bool, false, ◌||◌}
use mathlib.Core.List.{List, [], ◌∷◌}
use mathlib.Core.Option.{Option, none, some}
use native.Mathlib.Omega.{arith}
use lur.Base.Tests.{if◌then◌else◌, to_nat, is_some}
use lur.Base.Bytes.{Bytes, bytes_eq, bytes_eq_iff}

abbrev pub Dict {ℓ} : Type ℓ → Type ℓ
Dict V = List (Bytes × V)

module _ {ℓ} {V : Type ℓ} where
  -- `HashMap::get`
  unfoldable pub find : Bytes → Dict V → Option V
  find k [] = none
  find k ((j, v) ∷ m) = if bytes_eq j k then some v else find k m

  -- `HashMap::remove`
  unfoldable pub erase : Bytes → Dict V → Dict V
  erase k [] = []
  erase k ((j, v) ∷ m) = let rest = erase k m in if bytes_eq j k then rest else (j, v) ∷ rest

  -- `HashMap::insert`
  unfoldable pub insert : Bytes → V → Dict V → Dict V
  insert k v m = (k, v) ∷ erase k m

  -- No key is listed twice.
  abbrev pub Uniq : Dict V → Type ℓ
  Uniq [] = Unit
  Uniq ((k, v) ∷ m) = (find k m ≡ none) × Uniq m

  pub find-erase :
      (k j : Bytes) (m : Dict V) → find j (erase k m) ≡ (if bytes_eq k j then none else find j m)
  unfolding find erase
  find-erase k j [] = ground arith
  find-erase k j ((i, v) ∷ m) =
      ground (arith, find-erase k j m, bytes_eq_iff i k, bytes_eq_iff i j, bytes_eq_iff k j)

  pub find-insert :
      (k j : Bytes) (v : V) (m : Dict V)
      → find j (insert k v m) ≡ (if bytes_eq k j then some v else find j m)
  unfolding find insert
  find-insert k j v m = ground (arith, find-erase k j m)

  pub erase-Uniq : (k : Bytes) (m : Dict V) → Uniq m → Uniq (erase k m)
  unfolding erase
  erase-Uniq k [] h = tt
  erase-Uniq k ((j, v) ∷ m) h = ground (arith, erase-Uniq k m h.1, find-erase k j m)

  pub insert-Uniq : (k : Bytes) (v : V) (m : Dict V) → Uniq m → Uniq (insert k v m)
  unfolding insert
  insert-Uniq k v m h = ground (arith, erase-Uniq k m h, find-erase k k m, bytes_eq_iff k k)

  abbrev pub size : Dict V → ℕ
  size [] = 0
  size (e ∷ m) = suc (size m)

  module _ (weight : V → ℕ) where
    -- The sum of a measure over the values.
    unfoldable pub total : Dict V → ℕ
    total [] = 0
    total ((k, v) ∷ m) = weight v + total m

    abbrev pub weight_of : Option V → ℕ
    weight_of none = 0
    weight_of (some v) = weight v

    total-erase_absent : (k : Bytes) (m : Dict V) → find k m ≡ none → total (erase k m) ≡ total m
    unfolding total erase find
    total-erase_absent k [] h = refl
    total-erase_absent k ((j, v) ∷ m) h = ground (arith, total-erase_absent k m)

    pub total-erase :
        (k : Bytes) (m : Dict V) → Uniq m → total (erase k m) + weight_of (find k m) ≡ total m
    unfolding total erase find
    total-erase k [] h = omega arith
    total-erase k ((j, v) ∷ m) h =
        ground (arith, total-erase k m h.1, total-erase_absent k m, bytes_eq_iff j k)

    pub total-insert :
        (k : Bytes) (v : V) (m : Dict V)
        → Uniq m
        → total (insert k v m) + weight_of (find k m) ≡ weight v + total m
    unfolding total insert
    total-insert k v m h = omega (arith, total-erase k m h)

    -- Two entries together weigh no more than the whole.
    pub weight-two-le :
        (k j : Bytes) (m : Dict V)
        → Uniq m
        → bytes_eq k j ≡ false
        → weight_of (find k m) + weight_of (find j m) ≤ total m
    weight-two-le k j m h ne =
        ground
          (arith, total-erase k m h, total-erase j (erase k m) (erase-Uniq k m h), find-erase k j m)

  size-erase_absent : (k : Bytes) (m : Dict V) → find k m ≡ none → size (erase k m) ≡ size m
  unfolding erase find
  size-erase_absent k [] h = refl
  size-erase_absent k ((j, v) ∷ m) h = ground (arith, size-erase_absent k m)

  pub size-erase :
      (k : Bytes) (m : Dict V) → Uniq m → size (erase k m) + to_nat (is_some (find k m)) ≡ size m
  unfolding erase find
  size-erase k [] h = omega arith
  size-erase k ((j, v) ∷ m) h =
      ground (arith, size-erase k m h.1, size-erase_absent k m, bytes_eq_iff j k)

  pub size-insert :
      (k : Bytes) (v : V) (m : Dict V)
      → Uniq m
      → size (insert k v m) + to_nat (is_some (find k m)) ≡ size m + 1
  unfolding insert
  size-insert k v m h = omega (arith, size-erase k m h)

  -- The keys whose entries pass a test: `iter().filter(..).map(|(k, _)| k.clone()).collect()`.
  unfoldable pub keys_where : (V → Bool) → Dict V → List Bytes
  keys_where p [] = []
  keys_where p ((k, v) ∷ m) = if p v then k ∷ keys_where p m else keys_where p m

  abbrev pub passes : (V → Bool) → Option V → Bool
  passes p none = false
  passes p (some v) = p v

unfoldable pub contains : Bytes → List Bytes → Bool
contains j [] = false
contains j (k ∷ ks) = bytes_eq k j || contains j ks

module _ {ℓ} {V : Type ℓ} where
  pub contains-keys_where :
      (p : V → Bool) (j : Bytes) (m : Dict V)
      → Uniq m
      → contains j (keys_where p m) ≡ passes p (find j m)
  unfolding contains keys_where find
  contains-keys_where p j [] h = refl
  contains-keys_where p j ((k, v) ∷ m) h =
      ground (arith, contains-keys_where p j m h.1, bytes_eq_iff k j)
