-- ===== src/Cookie/Pairs.antt =====
-- The `Cookie` header of a list of pairs (src/capabilities/cookie.rs).
use lur.Base.{
  ℕ, ◌≡◌, refl, inl, inr, Bool, Bool-cases, true, false, not, some, List, [], ◌∷◌, ◌++◌, ◌==◌,
  arith,
}
use lur.Base.Bytes.{Bytes}
use lur.Base.Split.{push, split, cut}
use lur.Cookie.{
  is_ows, trim_first, trim_last, trim_ows, named, pair_of, pairs_of, cookie_pairs, any_of,
  is_separator, is_name_byte, is_bad_byte, ok, validate_name, reject_bad_bytes,
}

-- One pair as it stands in a header, and a header of pairs.
abbrev pub written : Bytes × Bytes → Bytes
written (n, v) = n ++ 61 ∷ v

abbrev pub header_of : List (Bytes × Bytes) → Bytes
header_of [] = []
header_of (p ∷ []) = written p
header_of (p ∷ q ∷ ps) = written p ++ 59 ∷ 32 ∷ header_of (q ∷ ps)

-- A pair that `serialize` accepts and whose value does not end in a space.
pub record IsCookie (p : Bytes × Bytes) : Type 0 where
  pub name : validate_name p.0 ≡ ok tt
  pub value : reject_bad_bytes p.1 ≡ ok tt
  pub trimmed : trim_last p.1 ≡ p.1

abbrev pub AllCookies : List (Bytes × Bytes) → Type 0
AllCookies [] = Unit {0}
AllCookies (p ∷ ps) = IsCookie p × AllCookies ps

split-append :
    (a b : Bytes) → any_of (λ c. c == 59) a ≡ false → split 59 (a ++ 59 ∷ b) ≡ a ∷ split 59 b
unfolding split push
split-append [] b h = refl
split-append (c ∷ a) b h = rw (split-append a b (ground arith)) (ground arith)

split-whole : (a : Bytes) → any_of (λ c. c == 59) a ≡ false → split 59 a ≡ a ∷ []
unfolding split push
split-whole [] h = refl
split-whole (c ∷ a) h = rw (split-whole a (ground arith)) (ground arith)

cut-append : (n v : Bytes) → any_of (λ c. c == 61) n ≡ false → cut 61 (n ++ 61 ∷ v) ≡ some (n, v)
unfolding cut
cut-append [] v h = refl
cut-append (c ∷ n) v h = rw (cut-append n v (ground arith)) (ground arith)

trim_last-cons :
    (c d : ℕ) (ds : Bytes) → trim_last (d ∷ ds) ≡ d ∷ ds → trim_last (c ∷ d ∷ ds) ≡ c ∷ d ∷ ds
unfolding trim_last
trim_last-cons c d ds h = rw h refl

trim_last-equals : (v : Bytes) → trim_last v ≡ v → trim_last (61 ∷ v) ≡ 61 ∷ v
unfolding trim_last
trim_last-equals [] h = refl
trim_last-equals (c ∷ cs) h = trim_last-cons 61 c cs h

trim_last-written : (n v : Bytes) → trim_last v ≡ v → trim_last (n ++ 61 ∷ v) ≡ n ++ 61 ∷ v
trim_last-written [] v h = trim_last-equals v h
trim_last-written (c ∷ []) v h = trim_last-cons c 61 v (trim_last-equals v h)
trim_last-written (c ∷ d ∷ n) v h = trim_last-cons c d (n ++ 61 ∷ v) (trim_last-written (d ∷ n) v h)

-- What the checks of a name and of a value exclude.
name-byte :
    (b : ℕ) → is_name_byte b ≡ true → (is_ows b ≡ false) × ((b == 59) ≡ false) × ((b == 61) ≡ false)
unfolding is_separator
name-byte b h = (ground arith, ground arith, ground arith)

pub all-name :
    (n : Bytes)
    → any_of (λ b. not (is_name_byte b)) n ≡ false
    → (any_of (λ c. c == 59) n ≡ false) × (any_of (λ c. c == 61) n ≡ false)
all-name [] h = (refl, refl)
all-name (c ∷ n) h = elim (Bool-cases (is_name_byte c)) [
  | inl fine ↦
      let (no59, no61) = all-name n (ground arith) in
      let (a, b, d) = name-byte c fine in (ground arith, ground arith)
  | inr bad ↦ absurd (ground arith)
]

pub all-value : (v : Bytes) → any_of is_bad_byte v ≡ false → any_of (λ c. c == 59) v ≡ false
all-value [] h = refl
all-value (c ∷ v) h = ground (arith, all-value v)

pub valid-name :
    (n : Bytes) → validate_name n ≡ ok tt → any_of (λ b. not (is_name_byte b)) n ≡ false
unfolding validate_name
valid-name [] h = absurd (ground arith)
valid-name (c ∷ n) h = elim (Bool-cases (any_of (λ b. not (is_name_byte b)) (c ∷ n))) [
  | inl bad ↦ absurd (ground (arith, rw (validate_name, bad) at h))
  | inr fine ↦ fine
]

pub valid-value : (v : Bytes) → reject_bad_bytes v ≡ ok tt → any_of is_bad_byte v ≡ false
unfolding reject_bad_bytes
valid-value v h = elim (Bool-cases (any_of is_bad_byte v)) [
  | inl bad ↦ absurd (ground (arith, rw bad at h))
  | inr fine ↦ fine
]

written-plain : (p : Bytes × Bytes) → IsCookie p → any_of (λ c. c == 59) (written p) ≡ false
written-plain (n, v) k =
    plain n (all-name n (valid-name n k.name)).0 (all-value v (valid-value v k.value))
  where
    plain :
        (n : Bytes)
        → any_of (λ c. c == 59) n ≡ false
        → any_of (λ c. c == 59) v ≡ false
        → any_of (λ c. c == 59) (n ++ 61 ∷ v) ≡ false
    plain [] h g = g
    plain (c ∷ n) h g = ground (arith, plain n)

-- A segment of the header, with or without the space before it.
abbrev lead : Bool → Bytes → Bytes
lead true s = 32 ∷ s
lead false s = s

first-solid :
    (c : ℕ) (s : Bytes) (space : Bool) → is_ows c ≡ false → trim_first (lead space (c ∷ s)) ≡ c ∷ s
unfolding trim_first
first-solid c s true h = rw h refl
first-solid c s false h = rw h refl

pair_of-lead :
    (p : Bytes × Bytes) (space : Bool) → IsCookie p → pair_of (lead space (written p)) ≡ some p
unfolding pair_of named trim_ows
pair_of-lead ([], v) space k = absurd (unfold validate_name in ground (arith, k.name))
pair_of-lead (c ∷ n, v) space k =
    let fine = valid-name (c ∷ n) k.name in
    let (first, no59, no61) = name-byte c (ground arith) in
    rw
      (
        first-solid c (n ++ 61 ∷ v) space first,
        trim_last-written (c ∷ n) v k.trimmed,
        cut-append (c ∷ n) v (all-name (c ∷ n) fine).1,
      )
      refl

split-lead :
    (p : Bytes × Bytes) (space : Bool) (b : Bytes)
    → IsCookie p
    → split 59 (lead space (written p ++ 59 ∷ b)) ≡ lead space (written p) ∷ split 59 b
split-lead p true b k = split-append (32 ∷ written p) b (written-plain p k)
split-lead p false b k = split-append (written p) b (written-plain p k)

whole-lead :
    (p : Bytes × Bytes) (space : Bool)
    → IsCookie p
    → split 59 (lead space (written p)) ≡ lead space (written p) ∷ []
whole-lead p true k = split-whole (32 ∷ written p) (written-plain p k)
whole-lead p false k = split-whole (written p) (written-plain p k)

lead-pairs :
    (p : Bytes × Bytes) (ps : List (Bytes × Bytes)) (space : Bool)
    → AllCookies (p ∷ ps)
    → cookie_pairs (lead space (header_of (p ∷ ps))) ≡ p ∷ ps
unfolding cookie_pairs pairs_of
lead-pairs p [] space k = rw (whole-lead p space k.0, pairs_of, pair_of-lead p space k.0) refl
lead-pairs p (q ∷ ps) space k =
    rw (split-lead p space (32 ∷ header_of (q ∷ ps)) k.0, pairs_of, pair_of-lead p space k.0)
      (ground (arith, lead-pairs q ps true k.1))

-- A header of pairs whose names and values `serialize` accepts and whose values do not end in a
-- space is parsed into exactly these pairs, in their order, duplicates included.
pub cookie_pairs-header_of :
    (ps : List (Bytes × Bytes)) → AllCookies ps → cookie_pairs (header_of ps) ≡ ps
unfolding cookie_pairs pairs_of split pair_of named trim_ows trim_first trim_last cut
cookie_pairs-header_of [] k = refl
cookie_pairs-header_of (p ∷ ps) k = lead-pairs p ps false k
