-- ===== src/Float/Tests.antt =====
-- Decimal texts and their `f64`.
use lur.Base.{◌≡◌, refl, true, false, some}
use lur.Base.Int.{pos, negsuc}
use lur.Base.Bytes.{codes}
use lur.Float.{whole, frac, inf}
use lur.Float.Decimal.{parse_f64}
use lur.Float.Order.{f64_lt}

parses_one_and_half : parse_f64 false (codes "1.5") ≡ some (frac 4609434218613702656)
unfolding parse_f64
parses_one_and_half = refl

parses_tenth : parse_f64 false (codes ".1") ≡ some (frac 4591870180066957722)
unfolding parse_f64
parses_tenth = refl

parses_thousand : parse_f64 true (codes "1e3") ≡ some (whole (negsuc 999))
unfolding parse_f64
parses_thousand = refl

parses_huge : parse_f64 false (codes "1e309") ≡ some (inf false)
unfolding parse_f64
parses_huge = refl

tenth_below_one : f64_lt (frac 4591870180066957722) (whole (pos 1)) ≡ true
unfolding f64_lt
tenth_below_one = refl
