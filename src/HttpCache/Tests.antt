-- ===== src/HttpCache/Tests.antt =====
-- A small cache and the theorems about the cache at it.
use lur.Base.{◌≡◌, refl, false, some, [], ◌∷◌, arith}
use lur.Base.Int.{pos, cast_unsigned}
use lur.State.Entry.{instant_add, instant_max}
use lur.Base.Bytes.{codes}
use lur.Base.Dict.{find, erase, insert, keys_where, total}
use lur.Base.Ticks.{find_tick, insert_tick, erase_tick}
use lur.HttpCache.{
  CacheInner, CacheLimits, RawResponse, empty_cache, remove, remove_all, drop_expired, over, get,
  put, response_size, cache_sweep, store, shrink, evict, expires_at,
}
use lur.HttpCache.Valid.{IsCache}
use lur.HttpCache.Insert.{HasTicks}
use lur.HttpCache.Reads.{get_all}
use lur.HttpCache.Methods.{put-IsCache, put-over, get-put}

empty-IsCache : IsCache empty_cache
unfolding find total find_tick
empty-IsCache = record {
  uniq = tt;
  counted = refl;
  ascending = tt;
  indexed = λ t k h. ground arith;
  indexes = λ k e h. ground arith;
  stamped = λ t k h. ground arith;
  lower = λ k e h. absurd (ground arith);
}

abbrev two_at_most : CacheLimits
two_at_most = record { max_entries = 2; max_bytes = 1_000 }

abbrev page : RawResponse
page = record { status = 200; headers = []; body = codes "hello" }

abbrev one : CacheInner
one = put (1 ∷ []) page (pos 1_000) 5 two_at_most empty_cache

put-IsCache_example : IsCache one
put-IsCache_example =
    put-IsCache (1 ∷ []) page (pos 1_000) 5 two_at_most empty_cache empty-IsCache (omega arith)

one-IsCache : IsCache one
one-IsCache =
    put-IsCache (1 ∷ []) page (pos 1_000) 5 two_at_most empty_cache empty-IsCache (omega arith)

one-HasTicks : HasTicks one
unfolding put response_size shrink store cache_sweep drop_expired remove remove_all over evict find
    erase insert keys_where expires_at insert_tick erase_tick
one-HasTicks = omega arith

put-over_example : over two_at_most (put (2 ∷ []) page (pos 1_000) 6 two_at_most one) ≡ false
unfolding put response_size shrink store cache_sweep drop_expired remove remove_all over evict find
    erase insert keys_where expires_at insert_tick erase_tick
put-over_example =
    put-over (2 ∷ []) page (pos 1_000) 6 two_at_most one one-IsCache one-HasTicks refl

-- Both keys are looked up before the second response is.
get-put_example :
    (get (2 ∷ []) 900 (
      get_all
        ((1 ∷ [], 700) ∷ (2 ∷ [], 800) ∷ [])
        (put (2 ∷ []) page (pos 1_000) 6 two_at_most one))).0
    ≡ some page
unfolding response_size expires_at instant_add cast_unsigned instant_max
get-put_example =
    get-put (2 ∷ []) page 1_000 6 900 two_at_most one ((1 ∷ [], 700) ∷ (2 ∷ [], 800) ∷ [])
      one-IsCache one-HasTicks (omega arith) refl (omega arith, (omega arith, tt)) (omega arith)
