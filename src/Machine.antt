-- ===== src/Machine.antt =====
-- fsm.go: the loop that applies entries to the application's state machine, and the check that queues
-- what the machine has not applied yet. The application is a parameter. A stable store is a parameter
-- too, with the laws of a map whose writes may fail.
pub mod Order
pub mod Owing
pub mod Replay
pub mod Startup
use hexalog.Prelude.{
  ℕ, ◌+◌, ◌≡◌, refl, Bool, true, false, Option, none, some, List, [], ◌∷◌, ◌++◌, if◌then◌else◌,
  ◌>>=◌, arith,
}
use hexalog.Bytes.{Bytes, or_nil, equal}
use hexalog.Error.{Error, Result, ok, err, merge_errors}
use hexalog.Entry.{Entry}
use hexalog.Future.{FutureEntry, new_future_entry, applied}
use hexalog.Index.{UnsafeKeylogIndex, last}
use hexalog.Index
use hexalog.IndexStore
use hexalog.Clock.{LamportClock}
use hexalog.Node.{Config, Node}
use hexalog.Transfer.{apply}

-- What `Apply` of the application returns: nil, an error, or data.
pub data Response (Data : Type 0) : Type 0 where
  nothing : Response Data
  failure : Error → Response Data
  value : Data → Response Data

-- The interface `StableStore`, as far as fsm.go calls it.
pub record StableStore : Type 1 where
  pub Store : Type 0
  pub get : Store → Bytes → Result Bytes
  pub set : Store → Bytes → Bytes → Store × Option Error
  pub get-set :
      (s : Store) (key j val : Bytes)
      → (set s key val).1 ≡ none
      → get (set s key val).0 j ≡ (if equal key j then ok val else get s j)

-- The interface `FSM`, and the value that stands for `struct{}{}`.
pub record App (conf : Config) : Type 1 where
  pub State : Type 0
  pub apply : State → Bytes → Entry → State × Response conf.Data
  pub unit : conf.Data

module _ (conf : Config) (app : App conf) (S : StableStore) where
  pub record Machine : Type 0 where
    pub state : app.State
    pub ss : S.Store
    pub clock : conf.lamport_clock.Clock

  abbrev pub data_of : Response conf.Data → conf.Data
  data_of nothing = app.unit
  data_of (failure e) = app.unit
  data_of (value d) = d

  abbrev pub error_of : Response conf.Data → Option Error
  error_of nothing = none
  error_of (failure e) = some e
  error_of (value d) = none

  -- One round of the loop of `start`; `none` where it blocks on the channel of the future.
  unfoldable pub apply_one :
      Machine → FutureEntry conf.Data → ℕ → Option (Machine × FutureEntry conf.Data)
  apply_one m fentry now =
      let (state, resp) = app.apply m.state fentry.id fentry.entry in
      let clock = conf.lamport_clock.witness m.clock fentry.entry.ltime in
      let (ss, e2) = S.set m.ss fentry.entry.key fentry.id in
      do
        told ← applied fentry (data_of resp) (merge_errors (error_of resp) e2) now
        some (record { state = state; ss = ss; clock = clock }, told)

  -- The loop of `start`, until the queue is empty; the futures as it leaves them.
  unfoldable pub start :
      Machine → List (FutureEntry conf.Data) → ℕ → Option (Machine × List (FutureEntry conf.Data))
  unfolding apply_one
  start m [] now = some (m, [])
  start m (fentry ∷ queue) now = do
    one ← apply_one m fentry now
    rest ← start one.0 queue now
    some (rest.0, one.1 ∷ rest.1)

  -- The node, and the counters `t` and `c` of `check`.
  pub record Checked : Type 0 where
    pub node : Node conf
    pub total : ℕ
    pub updated : ℕ

  -- The callback on an id: an entry that the store does not have is logged and passed over.
  unfoldable pub replay : ℕ → Bytes → Checked → Checked × Option Error
  unfolding apply
  replay now id s = elim (conf.entry_store.get s.node.store.entries id) [
    | err x ↦ (s, none)
    | ok ent ↦ (record s { node = apply conf s.node (new_future_entry id ent) now }, none)
  ]

  -- `bytes.Compare` reads a nil id as an empty one; the seek position of a key that the stable store
  -- does not have is nil.
  unfoldable pub seek_of : Result Bytes → Option Bytes
  seek_of (ok seek) = some seek
  seek_of (err x) = none

  unfoldable pub is_caught_up : Result Bytes → Option Bytes → Bool
  is_caught_up (ok seek) last = equal seek (or_nil last)
  is_caught_up (err x) last = false

  -- The callback on a key; the error of the inner `Iter` is dropped.
  unfoldable pub check_key :
      S.Store → ℕ → Bytes → UnsafeKeylogIndex → Checked → Checked × Option Error
  unfolding replay seek_of is_caught_up
  check_key ss now key ki s =
      let counted = record s { total = s.total + 1 } in
      if is_caught_up (S.get ss key) (last ki)
      then (counted, none)
      else (let (after, _) = Index.iter ki (seek_of (S.get ss key)) (replay now) counted in
          (record after { updated = after.updated + 1 }, none))

  unfoldable pub check : S.Store → Node conf → ℕ → Checked × Option Error
  unfolding check_key
  check ss hlog now =
      IndexStore.iter hlog.store.index (check_key ss now)
        (record { node = hlog; total = 0; updated = 0 })
