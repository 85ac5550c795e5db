-- ===== src/Transfer/Serve.antt =====
-- What a peer sends on a pull (`PullKeylogRPC` of net.go), and what the one that pulls has then.
use hexalog.Prelude.{◌≡◌, none, some, List, ◌∷◌}
use hexalog.Bytes.{Bytes}
use hexalog.Error.{Error}
use hexalog.Entry.{Entry}
use hexalog.Index.{UnsafeKeylogIndex, contains_id}
use hexalog.Index
use hexalog.IndexStore
use hexalog.Keylog.{Keylog}
use hexalog.Keylog
use hexalog.Keylog.Chain.{Holds, last_or}
use hexalog.Keylog.Chain.Distinct.{Distinct}
use hexalog.LogStore
use hexalog.Node.{Config, Node}
use hexalog.Transfer.{Message, pull_keylog_rpc}
use hexalog.Transfer.Pull.{IsFeed, ids_of}

module _ (conf : Config) where
  -- What the peer sends: the entry of the seek position, and those after it.
  record Served (remote : Node conf) (ent : Entry) (key : Bytes) (before : List Bytes) (l : Bytes)
      (after : List Bytes) : Type 0 where
    held : Holds conf.entry_store conf.hasher remote.store.entries key (last_or none before) l
    feed : List Message
    is_feed : IsFeed conf key (some l) feed
    ids_are : ids_of conf feed ≡ after
    sends :
        pull_keylog_rpc conf remote (some l) (some ent)
        ≡ (record { id = l; entry = held.entry } ∷ feed, none)

  abbrev remote_keylog : Node conf → UnsafeKeylogIndex → Keylog conf.entry_store
  remote_keylog remote ridx = record { entries = remote.store.entries; idx = ridx }
