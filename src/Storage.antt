-- ===== src/Storage.antt =====
-- The storage seam (src/capabilities/storage/mod.rs): the clock that limits how often the expired
-- rows are swept. A time is the `i64` of `now_ms`, which is never negative.
mod Spacing
mod Tests
use lur.Base.{ℕ, ◌-◌, ◌==◌, ◌&&◌, Bool, true, false, leb, if◌then◌else◌}

abbrev pub interval_ms : ℕ
interval_ms = 3600000

-- `PurgeClock::started`
abbrev pub started : ℕ → ℕ
started now = now

-- `PurgeClock::due` at `now`, in a thread that has loaded `last`, when the clock has come to
-- `clock` at the exchange.
unfoldable pub due : ℕ → ℕ → ℕ → Bool × ℕ
due last now clock =
    if leb interval_ms (now - last) && clock == last then (true, now) else (false, clock)
