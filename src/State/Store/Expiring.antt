-- ===== src/State/Store/Expiring.antt =====
-- The time to live: what `ttl` reports of a key that was written with one
-- (src/capabilities/state.rs).
use lur.Base.{ℕ, ◌+◌, ◌-◌, ◌*◌, ◌^◌, ◌≡◌, ◌<◌, ◌≤◌, some, arith}
use lur.Base.Int.{pos, cast_unsigned}
use lur.Base.Bytes.{Bytes}
use lur.State.Entry.{Prim, Write, Limits, after, add_ms, instant_add, instant_max, freshness, ms_ns}
use lur.State.Inner.{Inner}
use lur.State.Valid.{IsValid}
use lur.State.Valid.Reads.{live-fresh_of}
use lur.State.Put.{ok, put, meta_of}
use lur.State.Put.Safety.{put-find}
use lur.State.Store.{expiring, ms_left, ttl}

ms_left-exact : (t k : ℕ) → k < 2 ^ 63 → ms_left t (t + k * ms_ns) ≡ pos k
unfolding ms_left
ms_left-exact t k small = ground arith

add_ms-exact : (t k : ℕ) → t + k * ms_ns ≤ instant_max → add_ms t (pos k) ≡ t + k * ms_ns
unfolding add_ms instant_add cast_unsigned
add_ms-exact t k fits = ground arith

-- A key written with a time to live of `ms` milliseconds that the clock can express has, after `j`
-- of them, exactly `ms - j` left.
pub ttl-put :
    (key : Bytes) (value : Prim) (w : Write) (now ms j : ℕ) (limits : Limits) (s : Inner)
    {s' : Inner}
    → IsValid s
    → w.expiry ≡ after (pos ms)
    → ms < 2 ^ 63
    → now + ms * ms_ns ≤ instant_max
    → put key (some value) w now limits s ≡ (ok tt, s')
    → j < ms
    → (ttl key (now + j * ms_ns) s').0 ≡ expiring (pos (ms - j))
unfolding ttl freshness meta_of
ttl-put key value w now ms j limits s {s'} v rule small fits h early = ground (
  arith,
  live-fresh_of key (now + j * ms_ns) s',
  put-find key value w now limits s v h,
  add_ms-exact now ms fits,
  ms_left-exact (now + j * ms_ns) (ms - j),
)
