-- ===== src/Flights/Run.antt =====
-- The locked sections of `fetch` and of the other methods as steps on the store, the machines and
-- the channels, and the invariant of every run (src/capabilities/state.rs).
use lur.Base.{ℕ, ◌≡◌, false}
use lur.Base.Bytes.{Bytes}
use lur.State.Entry.{Prim, Write, Limits}
use lur.State.Inner.{Inner}
use lur.State.Store.Steps.{Step, Step-Good}
use lur.Flights.{World, Shared, Chain, edge, join, finish, drop_lead, end_run, resumed}
use lur.Flights.Led.{}
use lur.Flights.Sound.{
  IsSound, HasRoom, at_depth, at_depth-IsSound, drop_lead-IsSound, edge-IsSound, end_run-IsSound,
  finish-IsSound, join-IsSound, resumed-IsSound, store-IsSound,
}

-- One locked section of any thread.
pub data Turn (limits : Limits) (w w' : World) : Type 0 where
  uses : (s : Inner) → Step limits w.inner s → w' ≡ record w { inner = s } → Turn limits w w'
  joins :
      (key : Bytes) (vm : ℕ) (chain : Chain) (now : ℕ)
      → w' ≡ (join key vm chain now w).1
      → Turn limits w w'
  finishes :
      (key : Bytes) (id : ℕ) (o : Shared) (opts : Write) (now : ℕ)
      → w' ≡ finish key id o opts now limits w
      → Turn limits w w'
  drops : (key : Bytes) (id : ℕ) → w' ≡ drop_lead key id w → Turn limits w w'
  unwaits :
      (chain : Chain) (key : Bytes)
      → w' ≡ record w { inner = edge chain key false w.inner }
      → Turn limits w w'
  enters : (vm d : ℕ) → w' ≡ at_depth vm d w → Turn limits w w'
  resumes : (vm d : ℕ) → w' ≡ resumed vm d w → Turn limits w w'
  ends : (vm : ℕ) → w' ≡ end_run vm w → Turn limits w w'

pub Turn-IsSound :
    {limits : Limits} {w w' : World} → IsSound w → HasRoom w → Turn limits w w' → IsSound w'
Turn-IsSound {limits} {w} sound room (uses s step e) =
    let g = Step-Good sound.valid room.ticks room.versions limits step in
    rw e (store-IsSound s sound g.valid g.apart)
Turn-IsSound {w = w} sound room (joins key vm chain now e) =
    rw e (join-IsSound key vm chain now w sound room)
Turn-IsSound {limits} {w} sound room (finishes key id o opts now e) =
    rw e (finish-IsSound key id o opts now limits w sound room)
Turn-IsSound {w = w} sound room (drops key id e) = rw e (drop_lead-IsSound key id w sound)
Turn-IsSound {w = w} sound room (unwaits chain key e) = rw e (edge-IsSound chain key false w sound)
Turn-IsSound {w = w} sound room (enters vm d e) = rw e (at_depth-IsSound vm d w sound)
Turn-IsSound {w = w} sound room (resumes vm d e) = rw e (resumed-IsSound vm d w sound)
Turn-IsSound {w = w} sound room (ends vm e) = rw e (end_run-IsSound vm w sound)

-- A run of many threads, none of whose states has used up a counter.
pub data Run (limits : Limits) (w : World) : World → Type 0 where
  here : Run limits w w
  next : {t u : World} → Run limits w t → HasRoom t → Turn limits t u → Run limits w u

-- Whatever the threads do, in any order: the store stays well formed; the counts of every machine
-- are those of the flights it leads; every flight has an id of its own; and nothing has been sent
-- on the channel of a flight that is still in the table.
pub Run-IsSound : {limits : Limits} {w w' : World} → IsSound w → Run limits w w' → IsSound w'
Run-IsSound sound here = sound
Run-IsSound sound (next r room turn) = Turn-IsSound (Run-IsSound sound r) room turn
