-- ===== src/Tests/Machines.antt =====
-- An application that counts the entries that it applies.
use hexalog.Prelude.{ℕ, ◌<◌, some, ◌+◌, ◌≡◌, refl, false, none, List, [], ◌∷◌, ◌++◌, All}
use hexalog.Bytes.{Bytes, equal, or_nil, is_zero_bytes, big_endian}
use hexalog.Error.{ok, err, key_invalid}
use hexalog.Entry.{encode, hash}
use hexalog.Future.{FutureEntry, new_future_entry}
use hexalog.EntryStore.InMem
use hexalog.Map
use hexalog.Index.{UnsafeKeylogIndex, last, contains_id, new_safe_keylog_index}
use hexalog.Index
use hexalog.Keylog
use hexalog.StableStore
use hexalog.StableStore.Laws.{in_mem_stable_store}
use hexalog.Machine.{App, Machine, value, Checked, check_key}
use hexalog.Machine.Order.{Applied, IsFresh, start-Applied}
use hexalog.IndexStore.{sorted_keys}
use hexalog.Machine.Owing.{OwesAll, futures_of}
use hexalog.Machine.Startup.{new_hexalog, new_hexalog-starts}
use hexalog.Node.{Node}
use hexalog.Machine.Replay.{check_key-replays, queueing, futures, AreStored}
use hexalog.Tests.Data.{conf, key, entry_1, checksum}
use hexalog.Tests.Logs.{entry_2, keylog_2, logs_1}
use hexalog.Tests.Transfers.{remote, id_1, id_2}

abbrev counting : App conf
counting = record { State = ℕ; apply = λ n id entry. (n + 1, value n); unit = 0 }

abbrev machine : Machine conf counting in_mem_stable_store
machine = record { state = 0; ss = record { m = Map.empty }; clock = 0 }

abbrev queue : List (FutureEntry ℕ)
queue = new_future_entry id_1 entry_1 ∷ new_future_entry id_2 entry_2 ∷ []

takes_all : (s : StableStore.InMemStableStore) (k v : Bytes) → (StableStore.set s k v).1 ≡ none
unfolding StableStore.set
takes_all s k v = refl

all-IsFresh : All (λ (f : FutureEntry ℕ). IsFresh f) queue
unfolding new_future_entry
all-IsFresh =
    (record { no_error = refl; not_done = refl }, (record { no_error = refl; not_done = refl }, tt))

start-Applied_example : Applied conf counting in_mem_stable_store machine queue 9
start-Applied_example =
    start-Applied conf counting in_mem_stable_store queue machine 9 takes_all all-IsFresh

-- The machine has applied the first of the two entries.
abbrev half : StableStore.InMemStableStore
half = record { m = Map.put Map.empty key id_1 }

abbrev unchecked : Checked conf counting in_mem_stable_store
unchecked = record { node = remote; total = 0; updated = 0 }

half_applied : StableStore.get half key ≡ ok id_1
unfolding StableStore.get Map.get Map.put Map.empty equal
half_applied = refl

behind : equal id_1 (or_nil (last keylog_2.idx)) ≡ false
unfolding InMem.get InMem.set InMem.new Map.get Map.put Map.empty equal hash encode checksum
    big_endian Keylog.append_entry Index.append Index.last Index.links Index.accept is_zero_bytes
    new_safe_keylog_index
behind = refl

two_ids : keylog_2.idx.entries ≡ [] ++ id_1 ∷ id_2 ∷ []
unfolding InMem.get InMem.set InMem.new Map.get Map.put Map.empty equal hash encode checksum
    big_endian Keylog.append_entry Index.append Index.last Index.links Index.accept is_zero_bytes
    new_safe_keylog_index
two_ids = refl

both_stored :
    AreStored conf counting in_mem_stable_store remote.store.entries
      (id_1 ∷ id_2 ∷ [])
      (entry_1 ∷ entry_2 ∷ [])
unfolding InMem.get InMem.set InMem.new Map.get Map.put Map.empty equal hash encode checksum
    big_endian Keylog.append_entry Index.append Index.last Index.links Index.accept is_zero_bytes
    new_safe_keylog_index
both_stored = (refl, (refl, tt))

nothing_before : contains_id [] id_1 ≡ false
unfolding contains_id
nothing_before = refl

check_key-replays_example :
    check_key conf counting in_mem_stable_store half 9 key keylog_2.idx unchecked ≡ (
      record (queueing conf counting in_mem_stable_store unchecked (
          futures conf counting in_mem_stable_store 9
            (id_1 ∷ id_2 ∷ [])
            (entry_1 ∷ entry_2 ∷ []))) { total = 1; updated = 1 },
      none,
    )
check_key-replays_example =
    check_key-replays conf counting in_mem_stable_store half 9 key keylog_2.idx unchecked []
      (id_2 ∷ []) id_1 (entry_1 ∷ entry_2 ∷ []) half_applied behind two_ids nothing_before
      both_stored

-- The machine has applied an entry that the log does not have.
abbrev astray : StableStore.InMemStableStore
astray = record { m = Map.put Map.empty key (1 ∷ 1 ∷ []) }

astray_applied : StableStore.get astray key ≡ ok (1 ∷ 1 ∷ [])
unfolding StableStore.get Map.get Map.put Map.empty equal
astray_applied = refl

other_last : equal (1 ∷ 1 ∷ []) (or_nil (last keylog_2.idx)) ≡ false
unfolding InMem.get InMem.set InMem.new Map.get Map.put Map.empty equal hash encode checksum
    big_endian Keylog.append_entry Index.append Index.last Index.links Index.accept is_zero_bytes
    new_safe_keylog_index
other_last = refl

new_hexalog-starts_example :
    (new_hexalog conf counting in_mem_stable_store logs_1 (half, some key_invalid) 3 9
      ≡ err key_invalid)
    × (hlog : Node conf) × (ids : List Bytes) × (new_hexalog conf counting in_mem_stable_store
          logs_1
          (half, none)
          3
          9
        ≡ ok hlog)
    × OwesAll conf counting in_mem_stable_store logs_1.index half (sorted_keys logs_1.index) ids
    × (hlog.apply_ch ≡ futures_of conf counting in_mem_stable_store logs_1.entries 9 ids)
    × (hlog.store ≡ logs_1)
    × (hlog.ballots ≡ Map.empty)
    × (hlog.pch ≡ [])
    × (hlog.cch ≡ [])
    × (hlog.hch ≡ [])
    × (3 < conf.lamport_clock.time hlog.clock)
new_hexalog-starts_example =
    new_hexalog-starts conf counting in_mem_stable_store logs_1 half 3 9 key_invalid
