-- ===== src/Cookie/Tests.antt =====
-- Some cookies, and the theorems about cookies at them.
use lur.Base.{◌≡◌, refl, List, true, false, none, some, [], ◌∷◌}
use lur.Base.Int.{pos}
use lur.Base.Bytes.{Bytes, codes}
use lur.Cookie.{
  validate_name, reject_bad_bytes, trim_last, is_separator, cookie_pairs, integer, CookieOpts,
}
use lur.Cookie.Pairs.{AllCookies, cookie_pairs-header_of}
use lur.Cookie.Attributes.{}

abbrev pairs : List (Bytes × Bytes)
pairs = (codes "sid", codes "a=b") ∷ (codes "theme", codes "dark") ∷ []

pairs-AllCookies : AllCookies pairs
unfolding validate_name reject_bad_bytes trim_last is_separator
pairs-AllCookies = (
  record { name = refl; value = refl; trimmed = refl },
  (record { name = refl; value = refl; trimmed = refl }, tt),
)

cookie_pairs-header_of_example : cookie_pairs (codes "sid=a=b; theme=dark") ≡ pairs
cookie_pairs-header_of_example = cookie_pairs-header_of pairs pairs-AllCookies

abbrev opts : CookieOpts
opts = record {
  domain = none;
  path = some (codes "/");
  max_age = some (integer (pos 60));
  expires = none;
  same_site = some (codes "LAX");
  secure = true;
  http_only = false;
}
