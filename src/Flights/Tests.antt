-- ===== src/Flights/Tests.antt =====
-- Two machines that load keys, and the theorems about flights at them.
use lur.Base.{◌≡◌, ◌↔◌, refl, Bool, true, false, none, some, [], ◌∷◌, arith}
use lur.Base.Int.{pos}
use lur.Base.Bytes.{Bytes, codes, bytes_eq}
use lur.Base.Dict.{find, erase, insert, total}
use lur.State.Entry.{Prim, Write, Limits, after}
use lur.State.Inner.{empty, Flight, live}
use lur.State.Valid.{empty-IsValid}
use lur.Flights.{
  World, raised, at_vm, one_more, closed, outcome, hears, end_run, finish, join, waits_for,
  on_chain,
}
use lur.Flights.Sound.{IsSound, HasRoom, at_depth}
use lur.Flights.Run.{Run, here, next, joins, enters, Run-IsSound}
use lur.Flights.Cycle.{WaitsOn, waits_for_lem}
use lur.Flights.Hears.{hears-end_run, hears-finish}
use lur.Flights.Fetch.{fails, load}
use lur.Flights.Fetch.Agree.{LeaderEnd, load-LeaderEnd}
use lur.Flights.Joining.{Joined, join-Joined}

abbrev quiet : World
quiet = record {
  inner = empty;
  vms = λ a. record { all = 0; nested = 0; depth = 0 };
  sent = λ id. none;
}

quiet-IsSound : IsSound quiet
unfolding find total
quiet-IsSound = record {
  valid = empty-IsValid;
  led = record {
    uniq = tt;
    all = λ a. refl;
    nested = λ a. refl;
    issued = λ k f h. ground arith;
    distinct = λ k j f g h i e. ground arith;
    unsent = λ k f h. refl;
    unsent_later = λ id h. refl;
  };
}

abbrev limits : Limits
limits = record { max_entries = 10; max_bytes = 1_000 }

abbrev brief : Write
brief = record { expiry = after (pos 1_000); evictable = some true; stale_ms = none }

-- Machine 1 leads key 7 from inside a resume, and then machine 2 leads key 8.
abbrev led_one : World
led_one = (join (7 ∷ []) 1 [] 5 (at_depth 1 1 quiet)).1

abbrev led_two : World
led_two = (join (8 ∷ []) 2 [] 6 led_one).1

run : Run limits quiet led_two
unfolding join live find at_vm insert erase one_more bytes_eq
run =
    next
      (next
        (next here (record { ticks = omega arith; versions = omega arith; flights = omega arith })
          (enters 1 1 refl))
        (record { ticks = omega arith; versions = omega arith; flights = omega arith })
        (joins (7 ∷ []) 1 [] 5 refl))
      (record { ticks = omega arith; versions = omega arith; flights = omega arith })
      (joins (8 ∷ []) 2 [] 6 refl)

Run-IsSound_example : IsSound led_two
Run-IsSound_example = Run-IsSound quiet-IsSound run

two-IsSound : IsSound led_two
two-IsSound = Run-IsSound quiet-IsSound run

two-HasRoom : HasRoom led_two
unfolding join live find at_vm insert erase one_more bytes_eq
two-HasRoom = record { ticks = omega arith; versions = omega arith; flights = omega arith }

abbrev first : Flight
first = record { id = 1; waits = []; owner = 1; depth = 1 }

hears-end_run_example : hears 1 (end_run 1 led_two) ≡ closed
unfolding join live find at_vm insert erase one_more bytes_eq total
hears-end_run_example = hears-end_run 1 led_two (7 ∷ []) first two-IsSound (omega arith) refl

hears-finish_example :
    hears 1 (finish (7 ∷ []) 1 (raised (codes "no")) brief 9 limits led_two)
    ≡ outcome (raised (codes "no"))
unfolding join live find at_vm insert erase one_more bytes_eq
hears-finish_example =
    hears-finish (7 ∷ []) 1 (raised (codes "no")) brief 9 limits led_two (7 ∷ []) first two-IsSound
      two-HasRoom refl

-- The loader of key 8 joins key 7.
join-Joined_example :
    Joined (7 ∷ []) 2 ((8 ∷ [], 2) ∷ []) 7 led_two (join (7 ∷ []) 2 ((8 ∷ [], 2) ∷ []) 7 led_two)
join-Joined_example = join-Joined (7 ∷ []) 2 ((8 ∷ [], 2) ∷ []) 7 led_two two-IsSound two-HasRoom

waits_for_lem_example :
    (b : Bool) × (waits_for (7 ∷ []) ((8 ∷ [], 2) ∷ []) led_two.inner ≡ some b)
    × ((b ≡ true) ↔ (
        (t : Bytes) × (on_chain t ((8 ∷ [], 2) ∷ []) ≡ true)
        × WaitsOn led_two.inner.flights t (7 ∷ [])))
waits_for_lem_example = waits_for_lem (7 ∷ []) ((8 ∷ [], 2) ∷ []) led_two.inner two-IsSound.led.uniq

load-LeaderEnd_example :
    LeaderEnd
      (7 ∷ [])
      1
      9
      (fails (codes "no") false)
      (load (7 ∷ []) (some 1) (fails (codes "no") false) brief 9 limits led_two)
unfolding join live find at_vm insert erase one_more bytes_eq
load-LeaderEnd_example =
    load-LeaderEnd (7 ∷ []) (fails (codes "no") false) brief 9 limits led_two first two-IsSound
      two-HasRoom refl
