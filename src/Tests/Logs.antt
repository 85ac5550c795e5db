-- ===== src/Tests/Logs.antt =====
-- The logs of a node with two entries under one key.
use hexalog.Prelude.{◌≡◌, refl, none, some, [], ◌∷◌, true, arith}
use hexalog.Bytes.{equal, is_zero_bytes, big_endian}
use hexalog.Error.{err, entry_not_found}
use hexalog.Entry.{Entry, encode, hash}
use hexalog.Entry.Encoding.{SameContent, IsInRange, encode-SameContent, hash-move_boundary}
use hexalog.EntryStore.InMem.{in_mem_entry_store, get-set, get-delete}
use hexalog.EntryStore.InMem
use hexalog.Map
use hexalog.Index.{
  UnsafeKeylogIndex, new_safe_keylog_index, links, last, count, lower, rollback, iter, contains,
  contains_id,
}
use hexalog.Index
use hexalog.Index.Rollback.{rollback-append}
use hexalog.Index.Invariant.{IsValid}
use hexalog.Index.Iteration.{iter_missing, note}
use hexalog.Index.Sequence.{sequence-IsValid, appends, rolls_back, sets_marker, sequence}
use hexalog.IndexStore
use hexalog.IndexStore.{InMemIndexStore, sorted_keys}
use hexalog.IndexStore.Sorting.{sorted_keys-IsSorted, IsSorted}
use mathlib.Core.List.{Perm}
use hexalog.Keylog.{Keylog}
use hexalog.Keylog
use hexalog.Keylog.Chain.{NoClash}
use hexalog.Keylog.Chain.Distinct.{IsChain, append_entry-IsChain}
use hexalog.LogStore.{LogStore}
use hexalog.LogStore
use hexalog.LogStore.Soundness.{IsSound, append_entry-IsSound, new_key-IsSound}
use hexalog.LogStore.Removal.{remove_key-IsSound}
use hexalog.LogStore.Rollback.{rollback_entry-IsSound}
use hexalog.Tests.Data.{toy_hasher, toy_hasher-NeverZero, key, entry_1, checksum}

abbrev pub entry_2 : Entry
entry_2 = record entry_1 {
  previous = some (hash toy_hasher entry_1);
  height = 2;
  ltime = 4;
  payload = 9 ∷ [];
}

abbrev pub empty_keylog : Keylog in_mem_entry_store
empty_keylog = record { entries = InMem.new; idx = new_safe_keylog_index key none }

abbrev pub keylog_1 : Keylog in_mem_entry_store
keylog_1 = (Keylog.append_entry in_mem_entry_store toy_hasher empty_keylog entry_1).0

abbrev pub keylog_2 : Keylog in_mem_entry_store
keylog_2 = (Keylog.append_entry in_mem_entry_store toy_hasher keylog_1 entry_2).0

NoClash-entry_1 : NoClash in_mem_entry_store toy_hasher InMem.new entry_1
unfolding InMem.get InMem.new Map.get Map.empty
NoClash-entry_1 e h = cc

not_stored : in_mem_entry_store.get keylog_1.entries (hash toy_hasher entry_2) ≡ err entry_not_found
unfolding InMem.get InMem.set InMem.new Map.get Map.put Map.empty equal hash encode checksum
    big_endian Keylog.append_entry Index.append Index.last Index.links Index.accept is_zero_bytes
    new_safe_keylog_index
not_stored = refl

NoClash-entry_2 : NoClash in_mem_entry_store toy_hasher keylog_1.entries entry_2
NoClash-entry_2 e h = ground (arith, not_stored)

empty-IsChain : IsChain in_mem_entry_store toy_hasher empty_keylog key
unfolding new_safe_keylog_index
empty-IsChain = record { chained = tt; distinct = tt }

one-IsChain : IsChain in_mem_entry_store toy_hasher keylog_1 key
one-IsChain =
    append_entry-IsChain in_mem_entry_store toy_hasher empty_keylog key entry_1 toy_hasher-NeverZero
      NoClash-entry_1 refl empty-IsChain

pub two-IsChain : IsChain in_mem_entry_store toy_hasher keylog_2 key
two-IsChain =
    append_entry-IsChain in_mem_entry_store toy_hasher keylog_1 key entry_2 toy_hasher-NeverZero
      NoClash-entry_2 refl one-IsChain

abbrev pub no_logs : LogStore in_mem_entry_store
no_logs = record { index = IndexStore.new; entries = InMem.new }

pub no_logs-IsSound : IsSound in_mem_entry_store toy_hasher no_logs
unfolding IndexStore.new IndexStore.get_key Map.get Map.empty
no_logs-IsSound = record { at = λ k idx h. cc }

abbrev pub logs_0 : LogStore in_mem_entry_store
logs_0 = (LogStore.new_key in_mem_entry_store toy_hasher no_logs key).0

logs_0-IsSound : IsSound in_mem_entry_store toy_hasher logs_0
logs_0-IsSound = new_key-IsSound in_mem_entry_store toy_hasher no_logs key no_logs-IsSound

NoClash-logs : NoClash in_mem_entry_store toy_hasher logs_0.entries entry_1
unfolding InMem.get InMem.new Map.get Map.empty LogStore.new_key IndexStore.new_key IndexStore.new
    IndexStore.get_key
NoClash-logs e h = cc

abbrev pub logs_1 : LogStore in_mem_entry_store
logs_1 = (LogStore.append_entry in_mem_entry_store toy_hasher logs_0 entry_1).0

append_entry-IsSound_example : IsSound in_mem_entry_store toy_hasher logs_1
append_entry-IsSound_example =
    append_entry-IsSound in_mem_entry_store toy_hasher logs_0 entry_1 toy_hasher-NeverZero
      NoClash-logs logs_0-IsSound

pub logs_1-IsSound : IsSound in_mem_entry_store toy_hasher logs_1
logs_1-IsSound =
    append_entry-IsSound in_mem_entry_store toy_hasher logs_0 entry_1 toy_hasher-NeverZero
      NoClash-logs logs_0-IsSound

remove_key-IsSound_example :
    IsSound in_mem_entry_store toy_hasher
      (LogStore.remove_key in_mem_entry_store toy_hasher logs_1 key).0
remove_key-IsSound_example =
    remove_key-IsSound in_mem_entry_store toy_hasher logs_1 key logs_1-IsSound

rollback_entry-IsSound_example :
    IsSound in_mem_entry_store toy_hasher
      (LogStore.rollback_entry in_mem_entry_store toy_hasher logs_1 entry_1).0
rollback_entry-IsSound_example =
    rollback_entry-IsSound in_mem_entry_store toy_hasher logs_1 entry_1 logs_1-IsSound

-- The index with two entries and a third that repeats the first.
abbrev idx_3 : UnsafeKeylogIndex
idx_3 = record (new_safe_keylog_index key none) {
  height = 3;
  entries = (1 ∷ []) ∷ (2 ∷ []) ∷ (1 ∷ []) ∷ [];
}

not_found : iter idx_3 (some (3 ∷ [])) note [] ≡ ([], some entry_not_found)
unfolding contains contains_id equal
not_found = iter_missing idx_3 (3 ∷ []) note [] refl

sequence-IsValid_example : IsValid (
    sequence (new_safe_keylog_index key (some (2 ∷ []))) (
      appends (1 ∷ []) (0 ∷ []) 3
      ∷ appends (2 ∷ []) (1 ∷ []) 4
      ∷ rolls_back 3
      ∷ sets_marker (some (5 ∷ []))
      ∷ []))
sequence-IsValid_example = sequence-IsValid key (some (2 ∷ [])) (
    appends (1 ∷ []) (0 ∷ []) 3
    ∷ appends (2 ∷ []) (1 ∷ []) 4
    ∷ rolls_back 3
    ∷ sets_marker (some (5 ∷ []))
    ∷ [])

idx_3-IsValid : IsValid idx_3
unfolding new_safe_keylog_index
idx_3-IsValid = record { counted = refl; missing = tt }

rollback-append_example :
    let (after, left, done) = rollback (Index.append idx_3 (4 ∷ []) (1 ∷ []) 9).0 5 in
    (after.entries ≡ idx_3.entries)
    × (after.height ≡ idx_3.height)
    × (after.key ≡ idx_3.key)
    × (after.ltime ≡ lower 5 9)
    × (left ≡ count idx_3)
    × (done ≡ true)
unfolding links last equal
rollback-append_example = rollback-append idx_3 (4 ∷ []) (1 ∷ []) 9 5 idx_3-IsValid refl

two_keys : InMemIndexStore
unfolding IndexStore.new IndexStore.new_key Map.get Map.put Map.empty equal
two_keys = (IndexStore.new_key (IndexStore.new_key IndexStore.new (7 ∷ [])).0 (5 ∷ [])).0

sorted_keys-IsSorted_example :
    IsSorted (sorted_keys two_keys) × Perm (sorted_keys two_keys) (Map.keys two_keys.m)
sorted_keys-IsSorted_example = sorted_keys-IsSorted two_keys

entry_1-IsInRange : IsInRange entry_1
entry_1-IsInRange = record {
  timestamp_fits = omega arith;
  ltime_fits = omega arith;
  height_fits = omega arith;
}

encode-SameContent_example : SameContent entry_1 entry_1
encode-SameContent_example =
    encode-SameContent entry_1 entry_1 entry_1-IsInRange entry_1-IsInRange refl refl refl

hash-move_boundary_example :
    hash toy_hasher (record entry_1 { key = 107 ∷ 1 ∷ []; payload = 2 ∷ [] })
    ≡ hash toy_hasher entry_1
hash-move_boundary_example = hash-move_boundary toy_hasher entry_1 (1 ∷ []) (2 ∷ []) refl
