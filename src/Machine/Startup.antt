-- ===== src/Machine/Startup.antt =====
-- `NewHexalog` and `start` of hexalog.go with `newFsm` of fsm.go: how a node comes up. The goroutines
-- that it starts are the loops of the other modules.
use hexalog.Prelude.{ap, ℕ, ◌≡◌, ◌<◌, refl, Option, none, some, List, [], sym, subst}
use hexalog.Bytes.{Bytes}
use hexalog.Error.{Error, Result, ok, err}
use hexalog.IndexStore.{sorted_keys}
use hexalog.Machine.Owing.{OwesAll, futures_of, check_queues}
use hexalog.LogStore.{LogStore}
use hexalog.Map
use hexalog.Node.{Config, Node}
use hexalog.Machine.{StableStore, App, check}

module _ (conf : Config) (app : App conf) (S : StableStore) where
  -- The node before the check, with the clock of the configuration.
  unfoldable pub new_node : LogStore conf.entry_store → conf.lamport_clock.Clock → Node conf
  new_node store clock = record {
    store = store;
    ballots = Map.empty;
    pch = [];
    cch = [];
    hch = [];
    apply_ch = [];
    clock = clock;
  }

  -- `start`
  unfoldable pub start_node : Node conf → Node conf
  start_node hlog = record hlog { clock = conf.lamport_clock.increment hlog.clock }

  -- `newFsm`; `opened` is what `Open` of the stable store leaves and returns.
  unfoldable pub new_fsm : S.Store × Option Error → Result S.Store
  new_fsm opened = elim opened.1 [ some x ↦ err x | none ↦ ok opened.0 ]

  unfoldable pub new_hexalog :
      LogStore conf.entry_store
      → S.Store × Option Error
      → conf.lamport_clock.Clock
      → ℕ
      → Result (Node conf)
  unfolding new_node start_node new_fsm
  new_hexalog store opened clock now = elim (new_fsm opened) [
    | err x ↦ err x
    | ok ss ↦
        let (checked, e) = check conf app S ss (new_node store clock) now in
        elim e [ some x ↦ err x | none ↦ ok (start_node checked.node) ]
  ]

  -- `NewHexalog` fails only if the stable store does not open. Otherwise it comes back with a node that
  -- has queued for the application's machine, key by key in the order of the keys, what the machine has
  -- not applied of each log: nothing if the id in the stable store is the log's last or not in the log,
  -- the ids from it on if it is further back, and all if there is none; in the order of the log, but for
  -- entries that the entry store does not have. The node has the logs that it was given, no ballots,
  -- nothing to broadcast and nothing to heal, and its clock is past the time of the configuration's.
  pub new_hexalog-starts :
      (store : LogStore conf.entry_store) (ss : S.Store) (clock : conf.lamport_clock.Clock)
      (now : ℕ) (x : Error)
      → (new_hexalog store (ss, some x) clock now ≡ err x)
        × (hlog : Node conf) × (ids : List Bytes) × (new_hexalog store (ss, none) clock now
            ≡ ok hlog)
        × OwesAll conf app S store.index ss (sorted_keys store.index) ids
        × (hlog.apply_ch ≡ futures_of conf app S store.entries now ids)
        × (hlog.store ≡ store)
        × (hlog.ballots ≡ Map.empty)
        × (hlog.pch ≡ [])
        × (hlog.cch ≡ [])
        × (hlog.hch ≡ [])
        × (conf.lamport_clock.time clock < conf.lamport_clock.time hlog.clock)
  unfolding new_hexalog new_node start_node new_fsm
  new_hexalog-starts store ss clock now x =
      let blank = new_node store clock in
      let (ids, owed, queued, fine) = check_queues conf app S ss blank now in
      let after = (check conf app S ss blank now).0.node in
      (
        refl,
        start_node after,
        ids,
        rw (fine, new_hexalog) refl,
        owed,
        ap (λ (n : Node conf). n.apply_ch) queued,
        ap (λ (n : Node conf). n.store) queued,
        ap (λ (n : Node conf). n.ballots) queued,
        ap (λ (n : Node conf). n.pch) queued,
        ap (λ (n : Node conf). n.cch) queued,
        ap (λ (n : Node conf). n.hch) queued,
        subst
            (λ (n : Node conf).
              conf.lamport_clock.time clock
              < conf.lamport_clock.time (conf.lamport_clock.increment n.clock))
            (sym queued) (conf.lamport_clock.increment_grows clock),
      )
