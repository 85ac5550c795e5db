-- ===== src/Transfer.antt =====
-- The transfer of keylogs between nodes: `append` of hexalog_utils.go, the receiving loop of
-- `PullKeylog`, and `PullKeylogRPC` and `PushKeylogRPC` of net.go. What one side sends on a stream is the
-- list of messages that the other receives, with the error that ends it, nil at its regular end.
pub mod Pull
pub mod Feed
pub mod Serve
pub mod Push
use hexalog.Prelude.{ℕ, Bool, true, false, Option, none, some, List, [], ◌∷◌, ◌++◌}
use hexalog.Bytes.{Bytes}
use hexalog.Error.{Error, Result, ok, err, key_invalid}
use hexalog.Entry.{Entry, hash}
use hexalog.Future.{FutureEntry, new_future_entry, dispatch}
use hexalog.Keylog.{Keylog}
use hexalog.Keylog
use hexalog.LogStore
use hexalog.LogStore.{LogStore}
use hexalog.Node.{Config, Node}

-- The `ID` and `Entry` of a message.
pub record Message : Type 0 where
  pub id : Bytes
  pub entry : Entry

module _ (conf : Config) where
  -- fsm.apply
  unfoldable pub apply : Node conf → FutureEntry conf.Data → ℕ → Node conf
  apply hlog fentry now = record hlog { apply_ch = hlog.apply_ch ++ dispatch fentry now ∷ [] }

  -- `append` once the log store has answered.
  unfoldable pub appended :
      Node conf
      → Bytes
      → Entry
      → ℕ
      → LogStore conf.entry_store × Option Error
      → Node conf × Option (FutureEntry conf.Data) × Option Error
  unfolding apply
  appended hlog id entry now (store, some x) = (record hlog { store = store }, none, some x)
  appended hlog id entry now (store, none) =
      let fentry = new_future_entry id entry in
      (apply (record hlog { store = store }) fentry now, some (dispatch fentry now), none)

  -- `append`, which bypasses the vote.
  unfoldable pub append :
      Node conf → Bytes → Entry → ℕ → Node conf × Option (FutureEntry conf.Data) × Option Error
  unfolding appended
  append hlog id entry now =
      appended hlog id entry now
        (LogStore.append_entry conf.entry_store conf.hasher hlog.store entry)

  -- The loop of `PullKeylog` that receives. An entry that cannot be appended is logged and passed
  -- over, and leaves no future.
  unfoldable pub receive :
      Node conf
      → Option (FutureEntry conf.Data)
      → List Message
      → ℕ
      → Node conf × Option (FutureEntry conf.Data)
  receive hlog fentry [] now = (hlog, fentry)
  receive hlog fentry (msg ∷ msgs) now =
      let (hlog', fentry', _) = append hlog msg.id msg.entry now in receive hlog' fentry' msgs now

  -- What `PullKeylog` asks for: the id of the entry to start at, none if it has no previous id.
  unfoldable pub pull_request : Entry → Option Bytes
  pull_request entry = elim entry.previous [ none ↦ none | some p ↦ some (hash conf.hasher entry) ]

  unfoldable pub pull_keylog :
      Node conf
      → List Message
      → Option Error
      → ℕ
      → Node conf × Option (FutureEntry conf.Data) × Option Error
  unfolding receive
  pull_keylog hlog msgs ending now =
      let (hlog', fentry) = receive hlog none msgs now in (hlog', fentry, ending)

  -- `ent == nil || ent.Key == nil || len(ent.Key) == 0`
  abbrev pub key_of : Option Entry → Option Bytes
  key_of none = none
  key_of (some ent) = elim ent.key [ [] ↦ none | c ∷ k ↦ some (c ∷ k) ]

  pub send : Bytes → Entry → List Message → List Message × Option Error
  send id entry sent = (sent ++ record { id = id; entry = entry } ∷ [], none)

  -- The messages of a keylog from the seek position on.
  unfoldable pub stream :
      Node conf → Keylog conf.entry_store → Option Bytes → List Message × Option Error
  unfolding send
  stream hlog keylog seek =
      Keylog.iter conf.entry_store conf.hasher keylog.idx (λ s. hlog.store.entries) seek send []

  unfoldable pub pull_keylog_rpc :
      Node conf → Option Bytes → Option Entry → List Message × Option Error
  unfolding stream
  pull_keylog_rpc hlog id ent = elim (key_of ent) [
    | none ↦ ([], some key_invalid)
    | some key ↦ elim (LogStore.get_key conf.entry_store conf.hasher hlog.store key) [
      | err x ↦ ([], some x)
      | ok keylog ↦ stream hlog keylog id
    ]
  ]

  -- One message of `PushKeylogRPC`: the keylog that it fills, and the queue of the node.
  accept_message :
      Keylog conf.entry_store
      → List (FutureEntry conf.Data)
      → Message
      → ℕ
      → Keylog conf.entry_store × List (FutureEntry conf.Data)
  accept_message keylog queue msg now =
      elim (Keylog.get_entry conf.entry_store conf.hasher keylog msg.id) [
        | err x ↦ (keylog, queue)
        | ok known ↦
            let (keylog', e) = Keylog.append_entry conf.entry_store conf.hasher keylog msg.entry in
            elim e [
              | some x ↦ (keylog', queue)
              | none ↦ (keylog', queue ++ dispatch (new_future_entry msg.id msg.entry) now ∷ [])
            ]
      ]

  unfoldable pub accept_all :
      Keylog conf.entry_store
      → List (FutureEntry conf.Data)
      → List Message
      → ℕ
      → Keylog conf.entry_store × List (FutureEntry conf.Data)
  unfolding accept_message
  accept_all keylog queue [] now = (keylog, queue)
  accept_all keylog queue (msg ∷ msgs) now =
      let (keylog', queue') = accept_message keylog queue msg now in
      accept_all keylog' queue' msgs now

  -- `PushKeylogRPC`: the node after the transfer, the last entry that it answers with, and the error.
  unfoldable pub push_keylog_rpc :
      Node conf
      → Option Entry
      → List Message
      → Option Error
      → ℕ
      → Node conf × Option Entry × Option Error
  unfolding accept_all
  push_keylog_rpc hlog ent msgs ending now = elim (key_of ent) [
    | none ↦ (hlog, none, some key_invalid)
    | some key ↦ elim (LogStore.get_key conf.entry_store conf.hasher hlog.store key) [
      | err x ↦ (hlog, none, some x)
      | ok keylog ↦
          let (keylog', queue) = accept_all keylog hlog.apply_ch msgs now in
          (
            record hlog {
              store = LogStore.write_back conf.entry_store conf.hasher hlog.store key keylog';
              apply_ch = queue;
            },
            Keylog.last_entry conf.entry_store conf.hasher keylog,
            ending,
          )
    ]
  ]
