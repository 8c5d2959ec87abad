-- ===== src/Cookie.antt =====
-- `lur.cookie`: the pairs of a `Cookie` header and the text of a `Set-Cookie` header
-- (src/capabilities/cookie.rs). The options are what the Lua table holds under each name.
pub mod Pairs
pub mod Attributes
pub mod Segments
mod Tests
use lur.Base.{
  ℕ, zero, suc, ◌+◌, ◌-◌, ◌*◌, ◌/◌, ◌%◌, Bool, true, false, not, ◌&&◌, ◌||◌, Option, none, some,
  List, [], ◌∷◌, ◌++◌, map, ltb, leb, ◌==◌, if◌then◌else◌,
}
use lur.Base.Int.{ℤ, pos, negsuc}
use lur.Base.Bytes.{Bytes, codes, bytes_eq}
use lur.Base.Split.{split, cut}
use lur.Float.{F64, whole_f64_to_i64}

abbrev pub is_ows : ℕ → Bool
is_ows c = c == 32 || c == 9

unfoldable pub trim_first : Bytes → Bytes
trim_first [] = []
trim_first (c ∷ cs) = let rest = trim_first cs in if is_ows c then rest else c ∷ cs

unfoldable pub trim_last : Bytes → Bytes
trim_last [] = []
trim_last (c ∷ cs) = elim (trim_last cs) [
  | [] ↦ if is_ows c then [] else c ∷ []
  | d ∷ ds ↦ c ∷ d ∷ ds
]

unfoldable pub trim_ows : Bytes → Bytes
trim_ows s = trim_last (trim_first s)

named : Option (Bytes × Bytes) → Option (Bytes × Bytes)
named none = none
named (some ([], v)) = none
named (some (c ∷ cs, v)) = some (c ∷ cs, v)

unfoldable pub pair_of : Bytes → Option (Bytes × Bytes)
unfolding named
pair_of segment = named (cut 61 (trim_ows segment))

pairs_of : List Bytes → List (Bytes × Bytes)
pairs_of [] = []
pairs_of (s ∷ ss) = let rest = pairs_of ss in elim (pair_of s) [ none ↦ rest | some p ↦ p ∷ rest ]

unfoldable pub cookie_pairs : Bytes → List (Bytes × Bytes)
unfolding pairs_of
cookie_pairs header = pairs_of (split 59 header)

abbrev pub any_of : (ℕ → Bool) → Bytes → Bool
any_of p [] = false
any_of p (c ∷ cs) = p c || any_of p cs

-- `( ) < > @ , ; : \ " / [ ] ? = { }`
unfoldable pub is_separator : ℕ → Bool
is_separator b =
    any_of (λ c. c == b)
      (40 ∷ 41 ∷ 60 ∷ 62 ∷ 64 ∷ 44 ∷ 59 ∷ 58 ∷ 92 ∷ 34 ∷ 47 ∷ 91 ∷ 93 ∷ 63 ∷ 61 ∷ 123 ∷ 125 ∷ [])

pub data CookieError : Type 0 where
  empty_name bad_name bad_bytes bad_same_site insecure_none bad_max_age : CookieError

pub data Checked {ℓ} (A : Type ℓ) : Type ℓ where
  ok : A → Checked A
  err : CookieError → Checked A

abbrev pub is_name_byte : ℕ → Bool
is_name_byte b = (leb 0x21 b && leb b 0x7e) && not (is_separator b)

unfoldable pub validate_name : Bytes → Checked (Unit {0})
validate_name [] = err empty_name
validate_name (c ∷ cs) = if any_of (λ b. not (is_name_byte b)) (c ∷ cs) then err bad_name else ok tt

abbrev pub is_bad_byte : ℕ → Bool
is_bad_byte b = ltb b 0x20 || (b == 0x7f || b == 59)

unfoldable pub reject_bad_bytes : Bytes → Checked (Unit {0})
reject_bad_bytes v = if any_of is_bad_byte v then err bad_bytes else ok tt

-- `u8::to_ascii_lowercase`, on which `eq_ignore_ascii_case` compares.
lower_byte : ℕ → ℕ
lower_byte c = if leb 65 c && leb c 90 then c + 32 else c

pub data SameSite : Type 0 where
  strict lax unrestricted : SameSite

unfoldable pub canon_same_site : Bytes → Checked SameSite
unfolding lower_byte
canon_same_site v =
    let l = map lower_byte v in
    if bytes_eq l (codes "strict")
    then ok strict
    else if bytes_eq l (codes "lax")
    then ok lax
    else if bytes_eq l (codes "none")
    then ok unrestricted
    else err bad_same_site

-- The values that the option `max_age` tells apart.
pub data MaxAge : Type 0 where
  integer : ℤ → MaxAge
  number : F64 → MaxAge
  other : MaxAge

unfoldable pub max_age_seconds : MaxAge → Checked ℤ
max_age_seconds (integer i) = ok i
max_age_seconds (number x) = elim (whole_f64_to_i64 x) [ none ↦ err bad_max_age | some i ↦ ok i ]
max_age_seconds other = err bad_max_age

-- The decimal digits of a number, most significant first; an `i64` has at most 19.
unfoldable pub digits : ℕ → ℕ → Bytes
digits zero n = []
digits (suc f) n =
    let rest = digits f (n / 10) in if ltb n 10 then (48 + n) ∷ [] else rest ++ (48 + n % 10) ∷ []

unfoldable pub format_i64 : ℤ → Bytes
format_i64 (pos n) = digits 19 n
format_i64 (negsuc n) = 45 ∷ digits 19 (n + 1)

pub record CookieOpts : Type 0 where
  pub domain : Option Bytes
  pub path : Option Bytes
  pub max_age : Option MaxAge
  pub expires : Option Bytes
  pub same_site : Option Bytes
  pub secure : Bool
  pub http_only : Bool
