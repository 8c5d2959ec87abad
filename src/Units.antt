-- ===== src/Units.antt =====
-- Sizes and durations on the command line (src/units.rs). The arguments are ASCII, as bytes.
pub mod Decimal
pub mod Parse
mod Tests
use lur.Base.{
  ℕ, zero, suc, ◌+◌, ◌-◌, ◌*◌, ◌/◌, ◌%◌, ◌^◌, Bool, true, false, not, ◌&&◌, ◌||◌, Option, none,
  some, List, [], ◌∷◌, ◌++◌, map, ltb, leb, ◌==◌, if◌then◌else◌,
}
use lur.Base.Bytes.{Bytes, codes, bytes_eq}

abbrev pub is_digit : ℕ → Bool
is_digit c = leb 48 c && leb c 57

-- `u8::to_ascii_lowercase`
abbrev pub lower : ℕ → ℕ
lower c = if leb 65 c && leb c 90 then c + 32 else c

-- The ASCII bytes that `str::trim` takes off: tab, line feed, vertical tab, form feed, carriage
-- return and space.
abbrev pub is_space : ℕ → Bool
is_space c = c == 32 || (leb 9 c && leb c 13)

unfoldable pub trim_start : Bytes → Bytes
trim_start [] = []
trim_start (c ∷ cs) = let rest = trim_start cs in if is_space c then rest else c ∷ cs

unfoldable pub trim_end : Bytes → Bytes
trim_end [] = []
trim_end (c ∷ cs) = elim (trim_end cs) [
  | [] ↦ if is_space c then [] else c ∷ []
  | d ∷ ds ↦ c ∷ d ∷ ds
]

unfoldable pub trim : Bytes → Bytes
trim s = trim_end (trim_start s)

-- The leading digits, and the rest.
unfoldable pub split_digits : Bytes → Bytes × Bytes
split_digits [] = ([], [])
split_digits (c ∷ cs) =
    let (ds, rest) = split_digits cs in if is_digit c then (c ∷ ds, rest) else ([], c ∷ cs)

-- `str::parse::<u64>` of a run of digits: each step multiplies and adds with a check.
step : Option ℕ → ℕ → Option ℕ
step none c = none
step (some n) c =
    let m = n * 10 in
    let k = n * 10 + (c - 48) in if ltb m (2 ^ 64) && ltb k (2 ^ 64) then some k else none

parse_from : Option ℕ → Bytes → Option ℕ
parse_from n [] = n
parse_from n (c ∷ cs) = parse_from (step n c) cs

unfoldable pub parse_u64 : Bytes → Option ℕ
unfolding step parse_from
parse_u64 [] = none
parse_u64 (c ∷ cs) = parse_from (some 0) (c ∷ cs)

pub data UnitError : Type 0 where
  no_number bad_number unknown_unit too_large : UnitError

pub data Parsed {ℓ} (A : Type ℓ) : Type ℓ where
  ok : A → Parsed A
  err : UnitError → Parsed A

number_unit : Bytes × Bytes → Parsed (ℕ × Bytes)
number_unit ([], unit) = err no_number
number_unit (d ∷ ds, unit) = elim (parse_u64 (d ∷ ds)) [
  | none ↦ err bad_number
  | some n ↦ ok (n, trim unit)
]

unfoldable pub split_num_unit : Bytes → Parsed (ℕ × Bytes)
unfolding number_unit
split_num_unit s = number_unit (split_digits (trim s))

-- `u64::checked_mul`
checked_mul : ℕ → ℕ → Parsed ℕ
checked_mul n m = if ltb (n * m) (2 ^ 64) then ok (n * m) else err too_large

either : Bytes → Bytes → Bytes → Bool
either u a b = bytes_eq u a || bytes_eq u b

unfoldable pub size_unit : Bytes → Option ℕ
unfolding either
size_unit u =
    if either u (codes "") (codes "b")
    then some 1
    else if either u (codes "k") (codes "kb")
    then some 1024
    else if either u (codes "m") (codes "mb")
    then some (1024 * 1024)
    else if either u (codes "g") (codes "gb")
    then some (1024 * 1024 * 1024)
    else none

-- The number of milliseconds of a unit.
unfoldable pub duration_unit : Bytes → Option ℕ
unfolding either
duration_unit u =
    if bytes_eq u (codes "ms")
    then some 1
    else if either u (codes "") (codes "s")
    then some 1_000
    else if bytes_eq u (codes "m")
    then some 60_000
    else if bytes_eq u (codes "h")
    then some 3_600_000
    else none

scaled : (Bytes → Option ℕ) → Parsed (ℕ × Bytes) → Parsed ℕ
unfolding checked_mul
scaled unit (err e) = err e
scaled unit (ok (n, u)) = elim (unit u) [ none ↦ err unknown_unit | some m ↦ checked_mul n m ]

-- `usize` has 64 bits.
unfoldable pub parse_size : Bytes → Parsed ℕ
unfolding scaled
parse_size s = scaled size_unit (split_num_unit (map lower s))

-- In milliseconds.
unfoldable pub parse_duration : Bytes → Parsed ℕ
unfolding scaled
parse_duration s = scaled duration_unit (split_num_unit (map lower s))
