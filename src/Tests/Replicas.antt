-- ===== src/Tests/Replicas.antt =====
-- Two nodes that have the same log of a key, one of them with a second key.
use hexalog.Prelude.{◌≡◌, refl, true, none, some, List, [], ◌∷◌, All, arith, get_elem?}
use hexalog.Bytes.{Bytes, equal, is_zero_bytes, big_endian}
use hexalog.Entry.{Entry, encode, hash}
use hexalog.EntryStore.InMem.{in_mem_entry_store}
use hexalog.EntryStore.InMem
use hexalog.Index
use hexalog.IndexStore
use hexalog.Keylog
use hexalog.Keylog.Chain.Agreement.{AgreesWith}
use hexalog.LogStore.{LogStore}
use hexalog.LogStore
use hexalog.LogStore.Soundness.{IsSound, new_key-IsSound}
use hexalog.Leader.{KeyLeader, first_other, is_consistent}
use hexalog.Leader.Consistency.{HasLog, is_consistent-same_log}
use hexalog.Map
use hexalog.Tests.Data.{toy_hasher, toy_hasher-NeverZero, key, entry_1, peers, checksum}
use hexalog.Tests.Leaders.{host_at}
use hexalog.Tests.Logs.{logs_1, logs_1-IsSound}

abbrev logs_two : LogStore in_mem_entry_store
logs_two = (LogStore.new_key in_mem_entry_store toy_hasher logs_1 (9 ∷ [])).0

logs_two-IsSound : IsSound in_mem_entry_store toy_hasher logs_two
logs_two-IsSound = new_key-IsSound in_mem_entry_store toy_hasher logs_1 (9 ∷ []) logs_1-IsSound

abbrev named : Bytes → Entry
named id = entry_1

logs_1-AgreesWith : AgreesWith in_mem_entry_store toy_hasher named logs_1.entries
unfolding InMem.get InMem.set InMem.new Map.get Map.put Map.empty equal hash encode checksum
    big_endian Keylog.append_entry Index.append Index.last Index.links Index.accept is_zero_bytes
    Index.new_safe_keylog_index IndexStore.new IndexStore.new_key IndexStore.get_key
    IndexStore.write_back LogStore.new_key LogStore.get_key LogStore.append_entry
logs_1-AgreesWith id e h = ground arith

abbrev both : KeyLeader
both = record { key = none; idx = 0; locs = peers; lasts = some entry_1 ∷ some entry_1 ∷ [] }

agrees : is_consistent toy_hasher both ≡ some (true, host_at (get_elem? peers 0))
unfolding is_consistent first_other hash encode big_endian checksum equal
agrees = refl

lasts_seen :
    both.lasts
    ≡ LogStore.last_entry in_mem_entry_store toy_hasher logs_1 key
      ∷ LogStore.last_entry in_mem_entry_store toy_hasher logs_two key
      ∷ []
unfolding InMem.get InMem.set InMem.new Map.get Map.put Map.empty equal hash encode checksum
    big_endian Keylog.append_entry Keylog.last_entry Index.append Index.last Index.links
    Index.accept is_zero_bytes Index.new_safe_keylog_index IndexStore.new IndexStore.new_key
    IndexStore.get_key IndexStore.write_back LogStore.new_key LogStore.get_key LogStore.append_entry
    LogStore.last_entry
lasts_seen = refl

logs_two-AgreesWith : AgreesWith in_mem_entry_store toy_hasher named logs_two.entries
unfolding LogStore.new_key IndexStore.new IndexStore.new_key IndexStore.get_key
    IndexStore.write_back Map.get Map.put Map.empty equal Keylog.append_entry Index.append
    Index.last Index.links Index.accept is_zero_bytes Index.new_safe_keylog_index LogStore.get_key
    LogStore.append_entry InMem.set InMem.new InMem.get
logs_two-AgreesWith = logs_1-AgreesWith

is_consistent-same_log_example :
    (ids : List Bytes) × All (HasLog in_mem_entry_store toy_hasher key ids) (logs_1 ∷ logs_two ∷ [])
is_consistent-same_log_example =
    is_consistent-same_log in_mem_entry_store toy_hasher named key (logs_1 ∷ logs_two ∷ []) both
      (host_at (get_elem? peers 0)) toy_hasher-NeverZero
      ((logs_1-IsSound, logs_1-AgreesWith), ((logs_two-IsSound, logs_two-AgreesWith), tt))
      lasts_seen agrees
