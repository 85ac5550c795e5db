-- ===== src/Tests/Transfers.antt =====
-- A node that is one entry behind its peer.
use hexalog.Prelude.{◌≡◌, refl, [], ◌∷◌, All}
use hexalog.Bytes.{Bytes}
use hexalog.Error.{err, entry_not_found}
use hexalog.Entry.{hash}
use hexalog.EntryStore.InMem.{in_mem_entry_store}
use hexalog.EntryStore.InMem
use hexalog.Map
use hexalog.Index.{UnsafeKeylogIndex}
use hexalog.Index
use hexalog.IndexStore
use hexalog.Keylog.{Keylog}
use hexalog.Keylog
use hexalog.LogStore.Appending.{TakesAll}
use hexalog.Node.{Node}
use hexalog.Transfer.{Message, accept_all}
use hexalog.Transfer.Push.{accept_all-missing}
use hexalog.Tests.Data.{conf, toy_hasher, key, entry_1}
use hexalog.Tests.Logs.{entry_2, keylog_1, keylog_2, empty_keylog}

abbrev holder : Keylog in_mem_entry_store → Node conf
holder keylog = record {
  store = record {
    index = IndexStore.write_back IndexStore.new key keylog.idx;
    entries = keylog.entries;
  };
  ballots = Map.empty;
  pch = [];
  cch = [];
  hch = [];
  apply_ch = [];
  clock = 0;
}

abbrev local : Node conf
local = holder keylog_1

abbrev pub remote : Node conf
remote = holder keylog_2

abbrev pub id_1 : Bytes
id_1 = hash toy_hasher entry_1

abbrev pub id_2 : Bytes
id_2 = hash toy_hasher entry_2

pub takes_all : TakesAll in_mem_entry_store
unfolding InMem.set
takes_all s id e = refl

not_there :
    All
      (λ (m : Message). in_mem_entry_store.get empty_keylog.entries m.id ≡ err entry_not_found)
      (record { id = id_1; entry = entry_1 } ∷ record { id = id_2; entry = entry_2 } ∷ [])
unfolding InMem.get InMem.new Map.get Map.empty
not_there = (refl, (refl, tt))

accept_all-missing_example :
    accept_all conf empty_keylog []
      (record { id = id_1; entry = entry_1 } ∷ record { id = id_2; entry = entry_2 } ∷ [])
      8
    ≡ (empty_keylog, [])
accept_all-missing_example =
    accept_all-missing conf empty_keylog []
      (record { id = id_1; entry = entry_1 } ∷ record { id = id_2; entry = entry_2 } ∷ []) 8
      not_there
