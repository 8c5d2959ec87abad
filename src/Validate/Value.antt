-- ===== src/Validate/Value.antt =====
-- The Lua values that a validation looks into. A table is the list of what `pairs` iterates over,
-- with the length that `raw_len` returns, which Lua leaves open for a table with holes.
use lur.Base.{
  ℕ, zero, suc, ◌+◌, ◌-◌, Bool, true, false, ◌&&◌, Option, none, some, List, [], ◌∷◌, ltb, leb,
  ◌==◌, if◌then◌else◌,
}
use lur.Base.Int.{ℤ, pos, eqb_ℤ}
use lur.Base.Bytes.{Bytes, bytes_eq}
use lur.Float.{F64, of_i64}

-- A key of a table; one that is neither a text nor a number is `other_key`.
pub data Key : Type 0 where
  text_key : Bytes → Key
  int_key : ℤ → Key
  num_key : F64 → Key
  other_key : Key

-- `null` is the sentinel `lur.null`; `other` is any other userdata, a function or a thread.
mutual
  pub data Value : Type 0 where
    nil null other : Value
    boolean : Bool → Value
    integer : ℤ → Value
    number : F64 → Value
    text : Bytes → Value
    table : Entries → ℕ → Value

  pub data Entries : Type 0 where
    empty : Entries
    entry : Key → Value → Entries → Entries

abbrev pub key_eq : Key → Key → Bool
key_eq (text_key a) (text_key b) = bytes_eq a b
key_eq (int_key a) (int_key b) = eqb_ℤ a b
key_eq _ _ = false

-- `raw_get`
unfoldable pub get : Key → Entries → Value
get k empty = nil
get k (entry j v es) = if key_eq j k then v else get k es

-- `raw_set` of a value that is not `nil`.
unfoldable pub put : Key → Value → Entries → Entries
put k v empty = entry k v empty
put k v (entry j w es) = if key_eq j k then entry k v es else entry j w (put k v es)

unfoldable pub count : Entries → ℕ
count empty = 0
count (entry k v es) = suc (count es)

abbrev pub is_nil : Value → Bool
is_nil nil = true
is_nil _ = false

-- The values at `n` indices from `i` on.
unfoldable pub values_from : ℕ → ℕ → Entries → List Value
values_from i zero es = []
values_from i (suc n) es = get (int_key (pos i)) es ∷ values_from (suc i) n es

-- `sequence`
unfoldable pub sequence : Entries → ℕ → Option (List Value)
sequence es len = if count es == len then some (values_from 1 len es) else none

unfoldable pub lua_number : Value → Option F64
lua_number (integer i) = some (of_i64 i)
lua_number (number x) = some x
lua_number _ = none

-- How many continuation bytes may follow a first byte, and the range of the next byte.
follow : ℕ → ℕ
follow b =
    if leb 194 b && leb b 223
    then 1
    else if leb 224 b && leb b 239
    then 2
    else if leb 240 b && leb b 244
    then 3
    else 0

next_low : ℕ → ℕ
next_low b = if b == 224 then 160 else if b == 240 then 144 else 128

next_high : ℕ → ℕ
next_high b = if b == 237 then 159 else if b == 244 then 143 else 191

-- The characters of `String::from_utf8_lossy`: each byte that cannot continue the character before
-- it begins another, which is a replacement character if it is cut short.
chars_from : ℕ → ℕ → ℕ → Bytes → ℕ
unfolding follow next_low next_high
chars_from k low high [] = 0
chars_from k low high (b ∷ bs) =
    let goes_on = ltb 0 k && leb low b && leb b high in
    (if goes_on then 0 else 1)
    + chars_from (if goes_on then k - 1 else follow b) (if goes_on then 128 else next_low b)
        (if goes_on then 191 else next_high b) bs

unfoldable pub char_count : Bytes → ℕ
unfolding chars_from
char_count s = chars_from 0 128 191 s
