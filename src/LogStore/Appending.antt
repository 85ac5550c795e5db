-- ===== src/LogStore/Appending.antt =====
-- `AppendEntry` of logstore.go on a key that has a log, in the store that takes every write.
use hexalog.Prelude.{◌≡◌, true, false, none, some}
use hexalog.Bytes.{Bytes, or_nil}
use hexalog.Error.{ok, previous_hash}
use hexalog.Entry.{Entry, Hasher, hash}
use hexalog.EntryStore.{EntryStore}
use hexalog.Index.{UnsafeKeylogIndex, last, links, accept}
use hexalog.IndexStore
use hexalog.Keylog.{Keylog}
use hexalog.Keylog.Calls.{append_entry_accepted, append_entry_refused}
use hexalog.LogStore.{LogStore, append_entry, get_key}

-- The store takes every write.
abbrev pub TakesAll : EntryStore → Type 0
TakesAll E = (s : E.Store) (id : Bytes) (e : Entry) → (E.set s id e).1 ≡ none

module _ (E : EntryStore) (hasher : Hasher) (hlog : LogStore E) (entry : Entry)
    (idx : UnsafeKeylogIndex) (takes : TakesAll E)
    (found : IndexStore.get_key hlog.index entry.key ≡ ok idx) where
  before : Keylog E
  before = record { entries = hlog.entries; idx = idx }

  pub append_entry_taken :
      links (last idx) (or_nil entry.previous) ≡ true
      → append_entry E hasher hlog entry ≡ (
        record {
          index =
              IndexStore.write_back hlog.index entry.key
                (accept idx (hash hasher entry) entry.ltime);
          entries = (E.set hlog.entries (hash hasher entry) entry).0;
        },
        none,
      )
  unfolding append_entry get_key before
  append_entry_taken h =
      rw (found, append_entry)
        (rw (
          append_entry_accepted E hasher before entry (takes hlog.entries (hash hasher entry) entry)
            h))

  pub append_entry_left :
      links (last idx) (or_nil entry.previous) ≡ false
      → append_entry E hasher hlog entry ≡ (
        record {
          index = IndexStore.write_back hlog.index entry.key idx;
          entries = (E.set hlog.entries (hash hasher entry) entry).0;
        },
        some previous_hash,
      )
  unfolding append_entry get_key before
  append_entry_left h =
      rw (found, append_entry)
        (rw (
          append_entry_refused E hasher before entry (takes hlog.entries (hash hasher entry) entry)
            h))
