-- ===== src/Units/Tests.antt =====
-- Sizes and durations, and the theorems about them at these.
use lur.Base.{◌*◌, ◌≡◌, refl, arith}
use lur.Base.Bytes.{codes, bytes_eq}
use lur.Units.{ok, size_unit, parse_size}
use lur.Units.Parse.{parse_size-append}

parse_size-append_example : parse_size (codes "128Mb") ≡ ok (128 * 1_048_576)
unfolding size_unit bytes_eq
parse_size-append_example =
    parse_size-append 49 (codes "28") (codes "Mb") 1_048_576 refl (omega arith) refl
