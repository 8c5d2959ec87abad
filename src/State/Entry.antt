-- ===== src/State/Entry.antt =====
-- The values of the store, its entries with their freshness, and the options of a write
-- (src/capabilities/state.rs). An `Instant` is a number of nanoseconds of the monotonic clock.
use lur.Base.{
  ℕ, ◌+◌, ◌*◌, ◌^◌, ◌-◌, Bool, true, false, ◌&&◌, ◌||◌, Option, none, some, ltb, leb, ◌==◌,
  if◌then◌else◌, length,
}
use lur.Base.Int.{ℤ, cast_unsigned}
use lur.Base.Bytes.{Bytes, bytes_eq}
use lur.Float.{F64, f64_eq}

pub data Prim : Type 0 where
  boolean : Bool → Prim
  num : F64 → Prim
  str : Bytes → Prim

same_bool : Bool → Bool → Bool
same_bool true b = b
same_bool false true = false
same_bool false false = true

-- The derived `PartialEq`.
unfoldable pub prim_eq : Prim → Prim → Bool
unfolding same_bool
prim_eq (boolean a) (boolean b) = same_bool a b
prim_eq (num a) (num b) = f64_eq a b
prim_eq (str a) (str b) = bytes_eq a b
prim_eq _ _ = false

unfoldable pub prim_size : Prim → ℕ
prim_size (boolean b) = 1
prim_size (num x) = 8
prim_size (str s) = length s

abbrev pub entry_overhead : ℕ
entry_overhead = 64

-- Nanoseconds in a millisecond and in a second.
abbrev pub ms_ns : ℕ
ms_ns = 1_000_000

abbrev pub second_ns : ℕ
second_ns = 1_000_000_000

abbrev pub sweep_every : ℕ
sweep_every = 60 * second_ns

-- The last instant that an `Instant` holds: its seconds are an `i64`.
unfoldable pub instant_max : ℕ
instant_max = 2 ^ 63 * second_ns - 1

-- `Instant::checked_add`
unfoldable pub instant_add : ℕ → ℕ → Option ℕ
instant_add t d = if leb (t + d) instant_max then some (t + d) else none

pub record Entry : Type 0 where
  pub value : Prim
  pub version : ℕ
  pub expires : Option ℕ
  pub stale_for : Option ℕ
  pub evictable : Bool
  pub size : ℕ
  pub tick : ℕ

pub data Freshness : Type 0 where
  fresh stale dead : Freshness

-- Within the stale window, which is open for ever if its end is past the last instant.
unfoldable pub in_window : ℕ → Option ℕ → ℕ → Bool
in_window x none now = false
in_window x (some d) now = elim (instant_add x d) [ none ↦ true | some s ↦ ltb now s ]

unfoldable pub freshness_at : Option ℕ → Option ℕ → ℕ → Freshness
freshness_at none stale_for now = fresh
freshness_at (some x) stale_for now =
    if leb x now then (if in_window x stale_for now then stale else dead) else fresh

-- `Entry::freshness`
unfoldable pub freshness : Entry → ℕ → Freshness
unfolding freshness_at
freshness e now = freshness_at e.expires e.stale_for now

abbrev pub is_dead : Freshness → Bool
is_dead dead = true
is_dead _ = false

abbrev pub is_fresh : Freshness → Bool
is_fresh fresh = true
is_fresh _ = false

abbrev pub is_stale : Freshness → Bool
is_stale stale = true
is_stale _ = false

pub data Expiry : Type 0 where
  clear keep : Expiry
  after after_if_unset : ℤ → Expiry

pub record Write : Type 0 where
  pub expiry : Expiry
  pub evictable : Option Bool
  pub stale_ms : Option ℤ

pub record WriteMeta : Type 0 where
  pub expires : Option ℕ
  pub stale_for : Option ℕ
  pub evictable : Bool

-- `add_ms`: ten years stand in for a time past the last instant.
unfoldable pub add_ms : ℕ → ℤ → ℕ
add_ms now ms = elim (instant_add now (cast_unsigned ms * ms_ns)) [
  | some x ↦ x
  | none ↦ now + 10 * 365 * 24 * 3600 * second_ns
]

pub record Limits : Type 0 where
  pub max_entries : ℕ
  pub max_bytes : ℕ

-- `Limits::allows`
unfoldable pub allows : Limits → ℕ → ℕ → Bool
allows l entries bytes =
    (l.max_entries == 0 || leb entries l.max_entries) && (l.max_bytes == 0 || leb bytes l.max_bytes)
