-- ===== src/Cookie/Attributes.antt =====
-- `serialize` and the attributes that it appends (src/capabilities/cookie.rs).
use lur.Base.{Bool, true, false, Option, none, some, [], ◌∷◌, ◌++◌}
use lur.Base.Bytes.{Bytes, codes}
use lur.Cookie.{
  insecure_none, Checked, ok, err, validate_name, reject_bad_bytes, canon_same_site, SameSite,
  strict, lax, unrestricted, MaxAge, max_age_seconds, format_i64, CookieOpts,
}

-- The operator `?`.
abbrev pub and_then : {A B : Type 0} → Checked A → (A → Checked B) → Checked B
and_then (ok a) f = f a
and_then (err e) f = err e

-- `append_text_attr`: what it appends.
unfoldable pub text_attr : Bytes → Option Bytes → Checked Bytes
text_attr prefix none = ok []
text_attr prefix (some text) = and_then (reject_bad_bytes text) (λ u. ok (prefix ++ text))

unfoldable pub age_attr : Option MaxAge → Checked Bytes
age_attr none = ok []
age_attr (some a) = and_then (max_age_seconds a) (λ n. ok (codes "; Max-Age=" ++ format_i64 n))

unfoldable pub same_site_opt : Option Bytes → Checked (Option SameSite)
same_site_opt none = ok none
same_site_opt (some s) = and_then (canon_same_site s) (λ m. ok (some m))

abbrev pub site_name : SameSite → Bytes
site_name strict = codes "Strict"
site_name lax = codes "Lax"
site_name unrestricted = codes "None"

abbrev pub flag : Bool → Bytes → Bytes
flag true s = s
flag false s = []

-- The flags, unless `SameSite=None` comes without `Secure`.
unfoldable pub flag_attrs : Bool → Bool → Option SameSite → Checked Bytes
flag_attrs secure http_only none =
    ok (flag http_only (codes "; HttpOnly") ++ flag secure (codes "; Secure"))
flag_attrs false http_only (some unrestricted) = err insecure_none
flag_attrs secure http_only (some m) = ok (
    flag http_only (codes "; HttpOnly")
    ++ flag secure (codes "; Secure")
    ++ codes "; SameSite="
    ++ site_name m)

-- `append_attributes`: what it appends.
unfoldable pub attributes : CookieOpts → Checked Bytes
unfolding same_site_opt
attributes o = and_then (text_attr (codes "; Domain=") o.domain) (λ domain.
    and_then (text_attr (codes "; Path=") o.path) (λ path. and_then (age_attr o.max_age) (λ age.
      and_then (text_attr (codes "; Expires=") o.expires) (λ expires.
        and_then (same_site_opt o.same_site) (λ site.
          and_then (flag_attrs o.secure o.http_only site)
            (λ flags. ok (domain ++ path ++ age ++ expires ++ flags)))))))

unfoldable pub with_opts : Bytes → Option CookieOpts → Checked Bytes
with_opts out none = ok out
with_opts out (some o) = and_then (attributes o) (λ a. ok (out ++ a))

unfoldable pub serialize : Bytes → Bytes → Option CookieOpts → Checked Bytes
unfolding with_opts
serialize name value opts =
    and_then (validate_name name)
      (λ u. and_then (reject_bad_bytes value) (λ v. with_opts (name ++ 61 ∷ value) opts))
