-- ===== src/Future.antt =====
-- future.go: an entry on its way to the application's state machine, with the two channels, of
-- capacity 1, that tell of its end. Times are what the clock shows at the call.
use hexalog.Prelude.{ℕ, Option, none, some, Bool, true, false}
use hexalog.Bytes.{Bytes}
use hexalog.Error.{Error, timed_out}
use hexalog.Entry.{Entry}

-- `Data` stands for what the application's machine returns.
pub record FutureEntry (Data : Type 0) : Type 0 where
  pub id : Bytes
  pub entry : Entry
  pub err : Option Error
  pub done : Option Data
  pub dispatched : Option ℕ
  pub completed : Option ℕ

-- What `Wait` comes back with.
pub data Waited (Data : Type 0) : Type 0 where
  data_of : Data → Waited Data
  failed : Error → Waited Data

module _ {Data : Type 0} where
  unfoldable pub new_future_entry : Bytes → Entry → FutureEntry Data
  new_future_entry id entry = record {
    id = id;
    entry = entry;
    err = none;
    done = none;
    dispatched = none;
    completed = none;
  }

  unfoldable pub dispatch : FutureEntry Data → ℕ → FutureEntry Data
  dispatch f now = record f { dispatched = some now }

  -- `none` where the channel is full, and the send blocks.
  unfoldable pub applied : FutureEntry Data → Data → Option Error → ℕ → Option (FutureEntry Data)
  applied f value (some e) now = elim f.err [
    | none ↦ some (record f { completed = some now; err = some e })
    | some _ ↦ none
  ]
  applied f value none now = elim f.done [
    | none ↦ some (record f { completed = some now; done = some value })
    | some _ ↦ none
  ]

  -- What `Wait` takes once a channel has something, or, with `late`, once the time is up. `none`
  -- while it blocks.
  unfoldable pub wait : FutureEntry Data → Bool → Option (FutureEntry Data × Waited Data)
  wait f late = elim f.done [
    | some value ↦ some (record f { done = none }, data_of value)
    | none ↦ elim f.err [
      | some e ↦ some (record f { err = none }, failed e)
      | none ↦ elim late [ true ↦ some (f, failed timed_out) | false ↦ none ]
    ]
  ]
