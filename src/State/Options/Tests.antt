-- ===== src/State/Options/Tests.antt =====
-- The options of a rate limit, and the theorem about options at them.
use lur.Base.{refl, true, none}
use lur.Base.Int.{pos}
use lur.State.Entry.{Write, after_if_unset}
use lur.State.Options.{
  integer, nil, OptTable, table, opts_table, keeps, initial, write_opts, ms_field, bool_field,
}
use lur.State.Options.Lifetimes.{IsPositive, lifetime, write_opts-IsPositive}

abbrev window : OptTable
window = record { ttl_ms = integer (pos 60_000); evictable = nil; renew_ttl = nil }

abbrev limited : Write
limited = record { expiry = after_if_unset (pos 60_000); evictable = none; stale_ms = none }

write_opts-IsPositive_example : IsPositive (lifetime limited.expiry)
unfolding write_opts opts_table initial ms_field bool_field
write_opts-IsPositive_example = write_opts-IsPositive (table window) keeps true limited refl refl
