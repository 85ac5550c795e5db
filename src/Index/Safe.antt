-- ===== src/Index/Safe.antt =====
-- keylogindex.go: `SafeKeylogIndex`, an index under a `sync.RWMutex`. Goroutines call its methods; a
-- call takes the lock, reads the index, and when it is done writes it back, if it is one that writes,
-- and returns. Between the two, other goroutines may run. The mutex is what package sync documents:
-- `Lock` waits until nobody holds it, `RLock` until nobody holds it for writing.
pub mod Effects
pub mod Interleaving
use hexalog.Prelude.{
  ℕ, ◌≡◌, ◌≢◌, Bool, true, Option, none, some, List, [], ◌∷◌, ◌++◌, ◌==◌, if◌then◌else◌,
}
use hexalog.Bytes.{Bytes}
use hexalog.Error.{Error}
use hexalog.Index.{UnsafeKeylogIndex, append, set_marker, rollback, last, contains, count, iter}

-- The methods, with their arguments. The callback of `Iter` changes a state `S` of its own.
pub data Method (S : Type 0) : Type 0 where
  asks_key asks_marker asks_last asks_count asks_height copies closes : Method S
  asks_contains : Bytes → Method S
  iterates : Option Bytes → (Bytes → S → S × Option Error) → S → Method S
  sets_marker : Option Bytes → Method S
  appends : Bytes → Bytes → ℕ → Method S
  rolls_back : ℕ → Method S

pub data Answer (S : Type 0) : Type 0 where
  an_id : Option Bytes → Answer S
  a_number : ℕ → Answer S
  a_flag : Bool → Answer S
  an_index : UnsafeKeylogIndex → Answer S
  an_error : Option Error → Answer S
  placed : Bool → Option Error → Answer S
  rolled : ℕ → Bool → Answer S
  iterated : S → Option Error → Answer S

-- How a method takes the lock: not at all, by `RLock` or by `Lock`.
pub data Mode : Type 0 where
  free reads writes : Mode

module _ {S : Type 0} where
  unfoldable pub mode : Method S → Mode
  mode asks_key = free
  mode closes = free
  mode (sets_marker marker) = writes
  mode (appends id prev ltime) = writes
  mode (rolls_back ltime) = writes
  mode _ = reads

  -- What the body of the method does to the index, and what it returns.
  unfoldable pub effect : Method S → UnsafeKeylogIndex → UnsafeKeylogIndex × Answer S
  effect asks_key idx = (idx, an_id (some idx.key))
  effect asks_marker idx = (idx, an_id idx.marker)
  effect asks_last idx = (idx, an_id (last idx))
  effect asks_count idx = (idx, a_number (count idx))
  effect asks_height idx = (idx, a_number idx.height)
  effect copies idx = (idx, an_index idx)
  effect closes idx = (idx, an_error none)
  effect (asks_contains id) idx = (idx, a_flag (contains idx id))
  effect (iterates seek cb s) idx = let (t, e) = iter idx seek cb s in (idx, iterated t e)
  effect (sets_marker marker) idx =
      let (after, set) = set_marker idx marker in (after, placed set none)
  effect (appends id prev ltime) idx =
      let (after, e) = append idx id prev ltime in (after, an_error e)
  effect (rolls_back ltime) idx =
      let (after, n, done) = rollback idx ltime in (after, rolled n done)

-- Where a goroutine is: in no call, in one, or in one with the index that it has read.
pub data Phase (S : Type 0) : Type 0 where
  outside : Phase S
  entered : Method S → Phase S
  loaded : Method S → UnsafeKeylogIndex → Phase S

-- The index, the goroutines, and the calls that have returned, with their answers.
pub record Shared (S : Type 0) : Type 0 where
  pub idx : UnsafeKeylogIndex
  pub threads : ℕ → Phase S
  pub log : List (Method S × Answer S)

-- The index that a call leaves: what it computed if it writes, and else what is there.
abbrev pub stored : Mode → UnsafeKeylogIndex → UnsafeKeylogIndex → UnsafeKeylogIndex
stored free new old = old
stored reads new old = old
stored writes new old = new

module _ {S : Type 0} where
  abbrev pub holds : Phase S → Mode
  holds outside = free
  holds (entered m) = mode m
  holds (loaded m x) = mode m

  abbrev pub moved : (ℕ → Phase S) → ℕ → Phase S → ℕ → Phase S
  moved threads i p j = if j == i then p else threads j

  -- When the mutex lets a call in.
  abbrev pub MayEnter : (ℕ → Phase S) → Mode → Type 0
  MayEnter threads free = Unit {0}
  MayEnter threads reads = (j : ℕ) → holds (threads j) ≢ writes
  MayEnter threads writes = (j : ℕ) → holds (threads j) ≡ free

  pub data Step : Shared S → Shared S → Type 0 where
    enters :
        (s : Shared S) (i : ℕ) (m : Method S)
        → s.threads i ≡ outside
        → MayEnter s.threads (mode m)
        → Step s (record s { threads = moved s.threads i (entered m) })
    loads :
        (s : Shared S) (i : ℕ) (m : Method S)
        → s.threads i ≡ entered m
        → Step s (record s { threads = moved s.threads i (loaded m s.idx) })
    finishes :
        (s : Shared S) (i : ℕ) (m : Method S) (x : UnsafeKeylogIndex)
        → s.threads i ≡ loaded m x
        → Step s (record {
          idx = stored (mode m) (effect m x).0 s.idx;
          threads = moved s.threads i outside;
          log = s.log ++ (m, (effect m x).1) ∷ [];
        })

  pub data Reach (s : Shared S) : Shared S → Type 0 where
    here : Reach s s
    next : {t u : Shared S} → Reach s t → Step t u → Reach s u

  abbrev pub started : UnsafeKeylogIndex → Shared S
  started idx = record { idx = idx; threads = λ i. outside; log = [] }

  -- The calls, one after the other without a lock, give these answers and this index.
  abbrev pub Replays : UnsafeKeylogIndex → List (Method S × Answer S) → UnsafeKeylogIndex → Type 0
  Replays from [] idx = from ≡ idx
  Replays from (c ∷ log) idx = (c.1 ≡ (effect c.0 from).1) × Replays (effect c.0 from).0 log idx
