-- ===== src/Cookie/Segments.antt =====
-- The attributes of a serialized cookie (src/capabilities/cookie.rs).
use lur.Base.{
  ℕ, zero, suc, ◌+◌, ◌/◌, ◌%◌, ◌≡◌, refl, inl, inr, Bool, Bool-cases, true, false, Option, none,
  some, List, [], ◌∷◌, ◌++◌, ltb, ◌==◌, length, is_some, to_nat, arith,
}
use lur.Base.Int.{ℤ, pos, negsuc}
use lur.Base.Bytes.{Bytes, codes}
use lur.Base.Split.{push, split}
use lur.Cookie.{
  any_of, is_bad_byte, Checked, ok, err, validate_name, reject_bad_bytes, canon_same_site, SameSite,
  strict, lax, unrestricted, MaxAge, max_age_seconds, digits, format_i64, CookieOpts,
}
use lur.Cookie.Pairs.{valid-name, valid-value, all-name, all-value}
use lur.Cookie.Attributes.{
  text_attr, age_attr, same_site_opt, flag_attrs, attributes, with_opts, serialize, and_then,
}

-- The semicolons of a text.
abbrev pub semicolons : Bytes → ℕ
semicolons [] = 0
semicolons (c ∷ cs) = to_nat (c == 59) + semicolons cs

segments : (s : Bytes) → length (split 59 s) ≡ 1 + semicolons s
unfolding split push
segments [] = refl
segments (c ∷ s) = elim (Bool-cases (c == 59)) [
  | inl sep ↦ rw sep (ground (arith, segments s))
  | inr other ↦ rw other (omega (arith, more (split 59 s) (segments s)))
]
  where
    more :
        (l : List Bytes) → length l ≡ 1 + semicolons s → length (push false c l) ≡ semicolons s + 1
    more [] h = absurd (omega arith)
    more (x ∷ l) h = omega arith

semicolons-append : (a b : Bytes) → semicolons (a ++ b) ≡ semicolons a + semicolons b
semicolons-append [] b = omega arith
semicolons-append (c ∷ a) b = omega (arith, semicolons-append a b)

no-semicolons : (a : Bytes) → any_of (λ c. c == 59) a ≡ false → semicolons a ≡ 0
no-semicolons [] h = refl
no-semicolons (c ∷ a) h = ground (arith, no-semicolons a)

semicolons-digits : (f n : ℕ) → semicolons (digits f n) ≡ 0
unfolding digits
semicolons-digits zero n = refl
semicolons-digits (suc f) n = elim (Bool-cases (ltb n 10)) [
  | inl small ↦ rw small (ground arith)
  | inr big ↦
      rw
        (
          big,
          semicolons-append (digits f (n / 10)) ((48 + n % 10) ∷ []),
          semicolons-digits f (n / 10),
        )
        (ground arith)
]

semicolons-format_i64 : (n : ℤ) → semicolons (format_i64 n) ≡ 0
unfolding format_i64
semicolons-format_i64 (pos n) = semicolons-digits 19 n
semicolons-format_i64 (negsuc n) = omega (arith, semicolons-digits 19 (n + 1))

and_then-ok :
    {A B : Type 0} (m : Checked A) (f : A → Checked B) (b : B)
    → and_then m f ≡ ok b
    → (a : A) × (m ≡ ok a) × (f a ≡ ok b)
and_then-ok (ok a) f b h = (a, refl, h)
and_then-ok (err e) f b h = absurd (ground arith)

counted :
    (x a : Bytes) (n : ℕ)
    → ◌≡◌ {A = Checked Bytes} (ok x) (ok a)
    → semicolons x ≡ n
    → semicolons a ≡ n
counted x a n h e = ground arith

clean : (v : Bytes) → any_of is_bad_byte v ≡ false → semicolons v ≡ 0
clean v h = no-semicolons v (all-value v h)

text_attr-count :
    (prefix : Bytes) (o : Option Bytes) (a : Bytes)
    → semicolons prefix ≡ 1
    → text_attr prefix o ≡ ok a
    → semicolons a ≡ to_nat (is_some o)
unfolding text_attr
text_attr-count prefix none a one h = counted [] a 0 h refl
text_attr-count prefix (some t) a one h =
    let (u, fine, made) = and_then-ok (reject_bad_bytes t) (λ u. ok (prefix ++ t)) a h in
    counted (prefix ++ t) a 1 made
      (omega (arith, semicolons-append prefix t, clean t (valid-value t (ground arith))))

age_attr-count :
    (o : Option MaxAge) (a : Bytes) → age_attr o ≡ ok a → semicolons a ≡ to_nat (is_some o)
unfolding age_attr
age_attr-count none a h = counted [] a 0 h refl
age_attr-count (some m) a h =
    let (n, fine, made) =
      and_then-ok (max_age_seconds m) (λ n. ok (codes "; Max-Age=" ++ format_i64 n)) a h in
    counted (codes "; Max-Age=" ++ format_i64 n) a 1 made (
      omega (arith, semicolons-append (codes "; Max-Age=") (format_i64 n), semicolons-format_i64 n))

same_site_opt-some :
    (o : Option Bytes) (m : Option SameSite) → same_site_opt o ≡ ok m → is_some o ≡ is_some m
unfolding same_site_opt
same_site_opt-some none m h = ground arith
same_site_opt-some (some s) m h =
    let (x, fine, made) = and_then-ok (canon_same_site s) (λ m. ok (some m)) m h in ground arith

flag_attrs-count :
    (secure http_only : Bool) (site : Option SameSite) (a : Bytes)
    → flag_attrs secure http_only site ≡ ok a
    → semicolons a ≡ to_nat secure + to_nat http_only + to_nat (is_some site)
unfolding flag_attrs
flag_attrs-count true true none a h = counted _ a 2 h refl
flag_attrs-count true false none a h = counted _ a 1 h refl
flag_attrs-count false true none a h = counted _ a 1 h refl
flag_attrs-count false false none a h = counted _ a 0 h refl
flag_attrs-count true true (some strict) a h = counted _ a 3 h refl
flag_attrs-count true true (some lax) a h = counted _ a 3 h refl
flag_attrs-count true true (some unrestricted) a h = counted _ a 3 h refl
flag_attrs-count true false (some strict) a h = counted _ a 2 h refl
flag_attrs-count true false (some lax) a h = counted _ a 2 h refl
flag_attrs-count true false (some unrestricted) a h = counted _ a 2 h refl
flag_attrs-count false true (some strict) a h = counted _ a 2 h refl
flag_attrs-count false true (some lax) a h = counted _ a 2 h refl
flag_attrs-count false false (some strict) a h = counted _ a 1 h refl
flag_attrs-count false false (some lax) a h = counted _ a 1 h refl
flag_attrs-count false http_only (some unrestricted) a h = absurd (ground arith)

-- How many attributes the options ask for.
abbrev pub attr_count : Option CookieOpts → ℕ
attr_count none = 0
attr_count (some o) =
    to_nat (is_some o.domain)
    + to_nat (is_some o.path)
    + to_nat (is_some o.max_age)
    + to_nat (is_some o.expires)
    + to_nat (is_some o.same_site)
    + to_nat o.secure
    + to_nat o.http_only

pieces :
    (d p m e f : Bytes) (a b c g n k : ℕ)
    → semicolons d ≡ a
    → semicolons p ≡ b
    → semicolons m ≡ c
    → semicolons e ≡ g
    → semicolons f ≡ n
    → a + b + c + g + n ≡ k
    → semicolons (d ++ p ++ m ++ e ++ f) ≡ k
pieces d p m e f a b c g n k dh ph mh eh fh sum = omega (
  arith,
  semicolons-append d p,
  semicolons-append (d ++ p) m,
  semicolons-append (d ++ p ++ m) e,
  semicolons-append (d ++ p ++ m ++ e) f,
)

attributes-count :
    (o : CookieOpts) (out : Bytes) → attributes o ≡ ok out → semicolons out ≡ attr_count (some o)
unfolding attributes
attributes-count o out h =
    let (d, d-ok, h1) = and_then-ok (text_attr (codes "; Domain=") o.domain) _ out h in
    let (p, p-ok, h2) = and_then-ok (text_attr (codes "; Path=") o.path) _ out h1 in
    let (m, m-ok, h3) = and_then-ok (age_attr o.max_age) _ out h2 in
    let (e, e-ok, h4) = and_then-ok (text_attr (codes "; Expires=") o.expires) _ out h3 in
    let (s, s-ok, h5) = and_then-ok (same_site_opt o.same_site) _ out h4 in
    let (f, f-ok, h6) = and_then-ok (flag_attrs o.secure o.http_only s) _ out h5 in
    counted (d ++ p ++ m ++ e ++ f) out (attr_count (some o)) h6 (
      pieces d p m e f _ _ _ _ _ (attr_count (some o))
        (text_attr-count (codes "; Domain=") o.domain d refl d-ok)
        (text_attr-count (codes "; Path=") o.path p refl p-ok) (age_attr-count o.max_age m m-ok)
        (text_attr-count (codes "; Expires=") o.expires e refl e-ok)
        (flag_attrs-count o.secure o.http_only s f f-ok)
        (rw (same_site_opt-some o.same_site s s-ok) (omega arith)))

base-count :
    (name value : Bytes)
    → validate_name name ≡ ok tt
    → reject_bad_bytes value ≡ ok tt
    → semicolons (name ++ 61 ∷ value) ≡ 0
base-count name value n v = ground (
  arith,
  semicolons-append name (61 ∷ value),
  no-semicolons name (all-name name (valid-name name n)).0,
  clean value (valid-value value v),
)

with_opts-count :
    (b : Bytes) (opts : Option CookieOpts) (out : Bytes)
    → with_opts b opts ≡ ok out
    → semicolons b ≡ 0
    → semicolons out ≡ attr_count opts
unfolding with_opts
with_opts-count b none out h none' = counted b out 0 h none'
with_opts-count b (some o) out h none' =
    let (a, a-ok, made) = and_then-ok (attributes o) (λ a. ok (b ++ a)) out h in
    counted (b ++ a) out _ made (omega (arith, semicolons-append b a, attributes-count o a a-ok))

-- No name, value or option adds an attribute of its own: what `serialize` returns splits at its
-- semicolons into the pair and exactly one segment for each attribute that the options ask for.
pub length-split :
    (name value : Bytes) (opts : Option CookieOpts) (out : Bytes)
    → serialize name value opts ≡ ok out
    → length (split 59 out) ≡ 1 + attr_count opts
unfolding serialize
length-split name value opts out h =
    let (u, n-ok, h1) = and_then-ok (validate_name name) _ out h in
    let (v, v-ok, h2) = and_then-ok (reject_bad_bytes value) _ out h1 in
    omega (
      arith,
      segments out,
      with_opts-count (name ++ 61 ∷ value) opts out h2 (base-count name value n-ok v-ok),
    )
