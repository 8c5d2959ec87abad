-- ===== src/Flights.antt =====
-- Single-flight loading: the table of loaders in flight, the virtual machines that lead them, and
-- what the waiters of a loader hear (src/capabilities/state.rs).
pub mod Led
pub mod Cycle
pub mod Sound
pub mod Run
pub mod Handoff
pub mod Hears
pub mod Joining
pub mod Fetch
mod Tests
use lur.Base.{
  ℕ, zero, suc, ◌+◌, ◌-◌, ◌^◌, ◌%◌, Bool, true, false, not, ◌&&◌, ◌||◌, Option, none, some, List,
  [], ◌∷◌, ◌++◌, ltb, leb, ◌==◌, if◌then◌else◌, length,
}
use lur.Base.Bytes.{Bytes, bytes_eq}
use lur.Base.Dict.{Dict, find, erase, insert, keys_where, contains, total}
use lur.State.Entry.{Prim, Entry, Write, Limits}
use lur.State.Inner.{Flight, Inner, u64_inc, live, touch, version}
use lur.State.Put.{put}

-- What a leader publishes. An error of the Lua VM is known by its message.
pub data Shared : Type 0 where
  value : Option Prim → Shared
  raised rejected : Bytes → Shared

pub record VmLeads : Type 0 where
  pub all : ℕ
  pub nested : ℕ
  pub depth : ℕ

-- The store, the `VmLeads` of the virtual machines by their addresses, and the outcomes sent on
-- the channels of the flights by their ids.
pub record World : Type 0 where
  pub inner : Inner
  pub vms : ℕ → VmLeads
  pub sent : ℕ → Option Shared

unfoldable pub at_vm : ℕ → VmLeads → (ℕ → VmLeads) → ℕ → VmLeads
at_vm a v vms b = if b == a then v else vms b

unfoldable pub at_id : ℕ → Shared → (ℕ → Option Shared) → ℕ → Option Shared
at_id a v sent b = if b == a then some v else sent b

-- `fetch_sub(1)` on an atomic `usize`.
abbrev pub u64_dec : ℕ → ℕ
u64_dec n = (n + (2 ^ 64 - 1)) % 2 ^ 64

-- One flight more or less on the machine that leads it.
unfoldable pub one_more : ℕ → VmLeads → VmLeads
one_more depth v = record v {
  all = u64_inc v.all;
  nested = if ltb 0 depth then u64_inc v.nested else v.nested;
}

unfoldable pub one_less : ℕ → VmLeads → VmLeads
one_less depth v = record v {
  all = u64_dec v.all;
  nested = if ltb 0 depth then u64_dec v.nested else v.nested;
}

removed : Bytes → Option Flight → World → Option Flight × World
removed key none w = (none, w)
removed key (some f) w = (
  some f,
  record w {
    inner = record w.inner { flights = erase key w.inner.flights };
    vms = at_vm f.owner (one_less f.depth (w.vms f.owner)) w.vms;
  },
)

unfoldable pub remove_flight : Bytes → World → Option Flight × World
unfolding removed
remove_flight key w = removed key (find key w.inner.flights) w

-- A flight is still the leadership `id`.
abbrev pub is_id : ℕ → Option Flight → Bool
is_id id none = false
is_id id (some f) = f.id == id

unfoldable pub take_flight : Bytes → ℕ → World → Option Flight × World
unfolding remove_flight
take_flight key id w =
    let taken = remove_flight key w in
    if is_id id (find key w.inner.flights) then taken else (none, w)

unfoldable pub remove_flights : List Bytes → World → World
remove_flights [] w = w
remove_flights (k ∷ ks) w = remove_flights ks (remove_flight k w).1

abbrev pub led_from : ℕ → ℕ → Flight → Bool
led_from vm depth f = f.owner == vm && leb depth f.depth

-- `VmFlights::end_flights`
unfoldable pub end_flights : ℕ → ℕ → World → World
end_flights vm min_depth w = remove_flights (keys_where (led_from vm min_depth) w.inner.flights) w

-- `VmFlights::resumed`
unfoldable pub resumed : ℕ → ℕ → World → World
resumed vm depth w = if (w.vms vm).nested == 0 then w else end_flights vm depth w

-- `end_run`
unfoldable pub end_run : ℕ → World → World
end_run vm w =
    let w' = if (w.vms vm).all == 0 then w else end_flights vm 0 w in
    record w' { vms = at_vm vm (record (w'.vms vm) { depth = 0 }) w'.vms }

-- The flights that a task is leading, innermost first: keys with ids.
abbrev pub Chain : Type 0
Chain = List (Bytes × ℕ)

pub record Link : Type 0 where
  pub store : ℕ
  pub key : Bytes
  pub id : ℕ

-- `leading`: the links of the task that belong to this store.
unfoldable pub leading : ℕ → List Link → Chain
leading store [] = []
leading store (l ∷ ls) =
    let rest = leading store ls in if l.store == store then (l.key, l.id) ∷ rest else rest

unfoldable pub on_chain : Bytes → Chain → Bool
on_chain k [] = false
on_chain k ((c, id) ∷ rest) = bytes_eq c k || on_chain k rest

keys : Dict ℕ → List Bytes
keys [] = []
keys ((k, n) ∷ m) = k ∷ keys m

-- The keys that the loader of `k` waits on, if `k` is in flight.
unfoldable pub waits_of : Bytes → Dict Flight → List Bytes
unfolding keys
waits_of k fl = elim (find k fl) [ none ↦ [] | some f ↦ keys f.waits ]

-- The loop of `waits_for` on a stack; `none` if the fuel runs out.
unfoldable pub waits_loop : ℕ → Dict Flight → Chain → List Bytes → List Bytes → Option Bool
waits_loop zero fl chain seen stack = none
waits_loop (suc fuel) fl chain seen [] = some false
waits_loop (suc fuel) fl chain seen (k ∷ stack) =
    let skip = waits_loop fuel fl chain seen stack in
    let walk = waits_loop fuel fl chain (k ∷ seen) (waits_of k fl ++ stack) in
    if on_chain k chain then some true else if contains k seen then skip else walk

-- The edges of the wait graph, which bound the steps of the loop.
unfoldable pub edges : Dict Flight → ℕ
unfolding keys
edges fl = total (λ (f : Flight). length (keys f.waits)) fl

-- `Inner::waits_for`
unfoldable pub waits_for : Bytes → Chain → Inner → Option Bool
waits_for key chain s = waits_loop (edges s.flights + 2) s.flights chain [] (key ∷ [])

-- One more or one less wait for `key` on a flight.
unfoldable pub wait_up : Bytes → Flight → Flight
wait_up key f = record f {
  waits = elim (find key f.waits) [
    | none ↦ insert key 1 f.waits
    | some n ↦ insert key (n + 1) f.waits
  ];
}

unfoldable pub wait_down : Bytes → Flight → Flight
wait_down key f = elim (find key f.waits) [
  | none ↦ f
  | some n ↦ record f { waits = if n == 1 then erase key f.waits else insert key (n - 1) f.waits }
]

edge_at : Bytes → ℕ → Bytes → Bool → Dict Flight → Dict Flight
unfolding wait_up wait_down
edge_at c id key up fl = elim (find c fl) [
  | none ↦ fl
  | some f ↦ if f.id == id then insert c (if up then wait_up key f else wait_down key f) fl else fl
]

edge_loop : Chain → Bytes → Bool → Dict Flight → Dict Flight
unfolding edge_at
edge_loop [] key up fl = fl
edge_loop ((c, id) ∷ rest) key up fl = edge_loop rest key up (edge_at c id key up fl)

-- `Inner::edge`
unfoldable pub edge : Chain → Bytes → Bool → Inner → Inner
unfolding edge_loop
edge chain key up s = record s { flights = edge_loop chain key up s.flights }

-- `lead` names the new leadership, and `wait` the one whose channel is subscribed, with whether it
-- is of the caller's own machine and the chain that got wait edges. `lost` stands for the loop of
-- `waits_for` out of fuel.
pub data Join : Type 0 where
  hit : Prim → Join
  lead : ℕ → Join
  wait : ℕ → Bool → Option Chain → Join
  inline lost : Join

pub new_flight : ℕ → World → Flight
new_flight vm w = record {
  id = u64_inc w.inner.next_flight;
  waits = [];
  owner = vm;
  depth = (w.vms vm).depth;
}

pub start : Bytes → ℕ → World → Join × World
unfolding one_more new_flight
start key vm w =
    let depth = (w.vms vm).depth in
    let id = u64_inc w.inner.next_flight in
    (
      lead id,
      record w {
        inner = record w.inner {
          next_flight = id;
          flights = insert key (new_flight vm w) w.inner.flights;
        };
        vms = at_vm vm (one_more depth (w.vms vm)) w.vms;
      },
    )

pub wait_on : Bytes → Flight → ℕ → Chain → World → Join × World
wait_on key f vm [] w = (wait f.id (f.owner == vm) none, w)
wait_on key f vm (c ∷ chain) w = elim (waits_for key (c ∷ chain) w.inner) [
  | none ↦ (lost, w)
  | some true ↦ (inline, w)
  | some false ↦ (
    wait f.id (f.owner == vm) (some (c ∷ chain)),
    record w { inner = edge (c ∷ chain) key true w.inner },
  )
]

pub join_of : Bytes → ℕ → Chain → Option Entry → World → Join × World
unfolding start wait_on
join_of key vm chain (some e) w = (hit e.value, record w { inner = touch key w.inner })
join_of key vm chain none w = elim (find key w.inner.flights) [
  | none ↦ start key vm w
  | some f ↦ wait_on key f vm chain w
]

-- `StateStore::join`
unfoldable pub join : Bytes → ℕ → Chain → ℕ → World → Join × World
unfolding join_of
join key vm chain now w =
    let (e, s) = live key now w.inner in join_of key vm chain e (record w { inner = s })

-- The write of `finish`.
pub store_loaded : Bytes → Shared → Write → ℕ → Limits → Inner → Inner
store_loaded key (value (some p)) w now limits s =
    let (v, s') = version key now s in
    let written = (put key (some p) w now limits s').1 in if v == 0 then written else s'
store_loaded key (value none) w now limits s = s
store_loaded key (raised e) w now limits s = s
store_loaded key (rejected e) w now limits s = s

pub publish : Shared → Option Flight × World → World
publish shared (none, w) = w
publish shared (some f, w) = record w { sent = at_id f.id shared w.sent }

-- `LeadGuard::finish`
unfoldable pub finish : Bytes → ℕ → Shared → Write → ℕ → Limits → World → World
unfolding store_loaded publish
finish key id shared opts now limits w =
    publish shared
      (take_flight key id (record w { inner = store_loaded key shared opts now limits w.inner }))

-- `LeadGuard::drop` of an unfinished guard
unfoldable pub drop_lead : Bytes → ℕ → World → World
drop_lead key id w = (take_flight key id w).1

-- What the receiver of the channel of `id` sees: nothing yet, an outcome, or that the sender is
-- gone.
pub data Heard : Type 0 where
  nothing closed : Heard
  outcome : Shared → Heard

unfoldable pub runs : ℕ → Dict Flight → Bool
runs id [] = false
runs id ((k, f) ∷ fl) = f.id == id || runs id fl

unfoldable pub hears : ℕ → World → Heard
hears id w = elim (w.sent id) [
  | some o ↦ outcome o
  | none ↦ if runs id w.inner.flights then nothing else closed
]
