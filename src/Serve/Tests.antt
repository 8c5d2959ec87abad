-- ===== src/Serve/Tests.antt =====
-- Three routes, and the theorems about routes at them.
use lur.Base.Split.{split}
use lur.Base.{◌≡◌, ◌↔◌, refl, true, false, some, List, [], ◌∷◌}
use lur.Base.Bytes.{Bytes, codes, bytes_eq}
use lur.Serve.Router.{
  static, param, ok, Route, build, resolve, segments, to_uppercase, match_pattern, build_from,
  parse_pattern, add_route, clashes, overlaps, alike_from, min_len, alike, best_of, pick, admits,
  bind_segs, more_specific, beats, is_ordered,
}
use lur.Serve.Router.Fits.{Fits, bound, match_pattern_iff}
use lur.Serve.Router.Build.{IsTable, Registered, build-IsTable}
use lur.Serve.Router.Resolve.{Resolved, resolve-Resolved}

abbrev plain : Bytes → Bytes
plain s = s

abbrev registrations : List (Bytes × Bytes)
registrations =
    (codes "ANY", codes "/users/:id/:tab?")
    ∷ (codes "GET", codes "/users/:id")
    ∷ (codes "GET", codes "//users/me/")
    ∷ []

abbrev routes : List Route
routes =
    record {
      method = codes "ANY";
      pattern = static (codes "users") ∷ param (codes "id") false ∷ param (codes "tab") true ∷ [];
      id = 0;
    }
    ∷ record {
      method = codes "GET";
      pattern = static (codes "users") ∷ param (codes "id") false ∷ [];
      id = 1;
    }
    ∷ record {
      method = codes "GET";
      pattern = static (codes "users") ∷ static (codes "me") ∷ [];
      id = 2;
    }
    ∷ []

built : build registrations ≡ ok routes
unfolding build build_from parse_pattern segments split add_route clashes bytes_eq overlaps
    alike_from min_len alike
built = refl

resolves_me : resolve plain routes (codes "get") (codes "/users/me") ≡ some (2, [])
unfolding resolve best_of pick admits bytes_eq to_uppercase match_pattern segments split min_len
    bind_segs more_specific beats
resolves_me = refl

build-IsTable_example : IsTable routes × Registered 0 routes registrations
build-IsTable_example = build-IsTable registrations built

resolve-Resolved_example :
    Resolved plain
      (to_uppercase (codes "post"))
      (segments (codes "/users/7/mail"))
      routes
      (resolve plain routes (codes "post") (codes "/users/7/mail"))
resolve-Resolved_example =
    resolve-Resolved plain registrations (codes "post") (codes "/users/7/mail") built

abbrev pattern_id : Route
pattern_id = record {
  method = [];
  pattern = static (codes "a") ∷ param (codes "b") true ∷ [];
  id = 0;
}

match_pattern_iff_example : (match_pattern plain pattern_id.pattern (codes "a" ∷ []) ≡ some []) ↔ (
    Fits pattern_id.pattern (codes "a" ∷ [])
    × ([] ≡ bound plain pattern_id.pattern (codes "a" ∷ [])))
unfolding is_ordered
match_pattern_iff_example = match_pattern_iff plain pattern_id.pattern (codes "a" ∷ []) [] refl
