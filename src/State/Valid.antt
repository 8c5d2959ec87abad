-- ===== src/State/Valid.antt =====
-- The well-formedness of the store, and the operations of `Inner` up to `version`
-- (src/capabilities/state.rs).
pub mod Remove
pub mod Reads
use lur.Base.{ℕ, refl, arith, ◌+◌, ◌≡◌, ◌≤◌, ◌<◌, Option, some, Bool, true}
use lur.Base.Bytes.{Bytes}
use lur.Base.Dict.{find, Uniq, total}
use lur.Base.Ticks.{find_tick, IsAscending}
use lur.State.Entry.{Entry}
use lur.State.Inner.{Inner, empty}

-- The recency index holds exactly the evictable entries, under their ticks; the byte count is the
-- sum of the sizes; ticks and versions have been handed out.
pub record IsValid (s : Inner) : Type 0 where
  pub uniq : Uniq s.map
  pub counted : s.bytes ≡ total (λ (e : Entry). e.size) s.map
  pub ascending : IsAscending s.order
  pub indexed :
      (t : ℕ) (k : Bytes)
      → find_tick t s.order ≡ some k
      → (e : Entry) × (find k s.map ≡ some e) × (e.evictable ≡ true) × (e.tick ≡ t)
  pub indexes :
      (k : Bytes) (e : Entry)
      → find k s.map ≡ some e
      → e.evictable ≡ true
      → find_tick e.tick s.order ≡ some k
  pub stamped : (t : ℕ) (k : Bytes) → find_tick t s.order ≡ some k → t ≤ s.next_tick
  pub versioned :
      (k : Bytes) (e : Entry)
      → find k s.map ≡ some e
      → (0 < e.version) × (e.version ≤ s.last_version)

pub empty-IsValid : IsValid empty
unfolding find total find_tick
empty-IsValid = record {
  uniq = tt;
  counted = refl;
  ascending = tt;
  indexed = λ t k h. ground arith;
  indexes = λ k e h on. ground arith;
  stamped = λ t k h. ground arith;
  versioned = λ k e h. ground arith;
}
