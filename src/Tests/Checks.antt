-- ===== src/Tests/Checks.antt =====
-- An entry that a node with one entry lets through.
use hexalog.Prelude.{Option, List, All, map, ◌≡◌, refl, none, some, []}
use hexalog.Bytes.{equal, is_zero_bytes, big_endian}
use hexalog.Error.{Result, ok}
use hexalog.Entry.{Entry, encode, hash}
use hexalog.EntryStore.InMem
use hexalog.Map
use hexalog.Index.{UnsafeKeylogIndex}
use hexalog.Index
use hexalog.IndexStore
use hexalog.Keylog
use hexalog.LogStore
use hexalog.Node.{Node, verify_entry}
use hexalog.Node.Checks.{verify_entry-appends}
use hexalog.Node.Entries.{new_entry, get_entry, new_entry-append_entry}
use mathlib.Core.List.{Perm}
use hexalog.IndexStore.Sorting.{IsSorted}
use hexalog.LogStore.{KeySeed}
use hexalog.Pool.{OutPool, new_out_pool}
use hexalog.Rpc.{seed_keys_rpc, remote_last_entry}
use hexalog.Rpc.Answers.{IsSeed, served_last, seed_keys_rpc-IsSeed}
use hexalog.Tests.Data.{conf, from_b, host_b, key, checksum}
use hexalog.Tests.Logs.{entry_2, logs_1, logs_1-IsSound, keylog_1}
use hexalog.Tests.Transfers.{takes_all}

abbrev holding_one : Node conf
holding_one = record {
  store = logs_1;
  ballots = Map.empty;
  pch = [];
  cch = [];
  hch = [];
  apply_ch = [];
  clock = 0;
}

has_log : IndexStore.get_key logs_1.index key ≡ ok keylog_1.idx
unfolding InMem.get InMem.set InMem.new Map.get Map.put Map.empty equal hash encode checksum
    big_endian Keylog.append_entry Index.append Index.last Index.links Index.accept is_zero_bytes
    Index.new_safe_keylog_index IndexStore.get_key IndexStore.write_back IndexStore.new
    IndexStore.new_key LogStore.new_key LogStore.append_entry LogStore.get_key
has_log = refl

let_through : verify_entry conf holding_one entry_2 ≡ (1, none)
unfolding InMem.get InMem.set InMem.new Map.get Map.put Map.empty equal hash encode checksum
    big_endian Keylog.append_entry Index.append Index.last Index.links Index.accept is_zero_bytes
    Index.new_safe_keylog_index IndexStore.get_key IndexStore.write_back IndexStore.new
    IndexStore.new_key LogStore.new_key LogStore.append_entry LogStore.get_key LogStore.last_entry
    verify_entry
let_through = refl

verify_entry-appends_example :
    (LogStore.append_entry conf.entry_store conf.hasher logs_1 entry_2).1 ≡ none
verify_entry-appends_example =
    verify_entry-appends conf holding_one entry_2 keylog_1.idx 1 logs_1-IsSound takes_all has_log
      let_through

unmarked : keylog_1.idx.marker ≡ none
unfolding InMem.get InMem.set InMem.new Map.get Map.put Map.empty equal hash encode checksum
    big_endian Keylog.append_entry Index.append Index.last Index.links Index.accept is_zero_bytes
    Index.new_safe_keylog_index
unmarked = refl

new_entry-append_entry_example :
    let entry = new_entry conf holding_one key 2000 in
    let after = LogStore.append_entry conf.entry_store conf.hasher logs_1 entry in
    ((verify_entry conf holding_one entry).1 ≡ none)
    × (after.1 ≡ none)
    × (LogStore.last_entry conf.entry_store conf.hasher after.0 key ≡ some entry)
    × (get_entry conf (record holding_one { store = after.0 }) key (hash conf.hasher entry)
        ≡ ok entry)
new_entry-append_entry_example =
    new_entry-append_entry conf holding_one key keylog_1.idx 2000 logs_1-IsSound takes_all has_log
      unmarked

seed_keys_rpc-IsSeed_example :
    (seeds : List KeySeed) × (seed_keys_rpc conf holding_one ≡ (seeds, none))
    × All (IsSeed conf holding_one) seeds
    × IsSorted (map (λ (s : KeySeed). s.key) seeds)
    × Perm (map (λ (s : KeySeed). s.key) seeds) (Map.keys logs_1.index.m)
seed_keys_rpc-IsSeed_example = seed_keys_rpc-IsSeed conf holding_one

asking : OutPool × Result (Option Entry)
asking =
    remote_last_entry (ok 7) 3 5 (λ x. x) (new_out_pool 60) host_b key from_b
      (served_last conf holding_one)
