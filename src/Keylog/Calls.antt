-- ===== src/Keylog/Calls.antt =====
-- The branches of `AppendEntry` and `RollbackEntry` (keylog.go), as equations for the other proofs.
use hexalog.Prelude.{pos, negsuc, ◌≡◌, true, false, none, some, List, [], ◌∷◌, ◌++◌, length}
use hexalog.Bytes.{Bytes, or_nil, equal}
use hexalog.Error.{Error, previous_hash, entry_not_found, not_last_entry}
use hexalog.Entry.{Entry, Hasher, hash}
use hexalog.EntryStore.{EntryStore}
use hexalog.Index.{links, last, accept}
use hexalog.Index
use hexalog.Index.Calls.{append_accepted, append_refused, shortened, rollback-snoc}
use hexalog.Keylog.{Keylog, append_entry, rollback_entry, drop_last, ltime_of}

module _ (E : EntryStore) (hasher : Hasher) (keylog : Keylog E) (entry : Entry) where
  abbrev stored : E.Store
  stored = (E.set keylog.entries (hash hasher entry) entry).0

  pub append_entry_failed :
      (x : Error)
      → (E.set keylog.entries (hash hasher entry) entry).1 ≡ some x
      → append_entry E hasher keylog entry
        ≡ (record keylog { entries = (E.set keylog.entries (hash hasher entry) entry).0 }, some x)
  unfolding append_entry
  append_entry_failed x q = rw (q, append_entry)

  pub append_entry_refused :
      (E.set keylog.entries (hash hasher entry) entry).1 ≡ none
      → links (last keylog.idx) (or_nil entry.previous) ≡ false
      → append_entry E hasher keylog entry ≡ (
        record keylog { entries = (E.set keylog.entries (hash hasher entry) entry).0 },
        some previous_hash,
      )
  unfolding append_entry
  append_entry_refused q h =
      rw (q, append_entry)
        (rw (append_refused keylog.idx (hash hasher entry) (or_nil entry.previous) entry.ltime h))

  pub append_entry_accepted :
      (E.set keylog.entries (hash hasher entry) entry).1 ≡ none
      → links (last keylog.idx) (or_nil entry.previous) ≡ true
      → append_entry E hasher keylog entry ≡ (
        record {
          entries = (E.set keylog.entries (hash hasher entry) entry).0;
          idx = accept keylog.idx (hash hasher entry) entry.ltime;
        },
        none,
      )
  unfolding append_entry
  append_entry_accepted q h =
      rw (q, append_entry)
        (rw (append_accepted keylog.idx (hash hasher entry) (or_nil entry.previous) entry.ltime h))

  pub rollback_entry_empty :
      last keylog.idx ≡ none
      → rollback_entry E hasher keylog entry
        ≡ (keylog, pos (Index.count keylog.idx), some entry_not_found)
  unfolding rollback_entry
  rollback_entry_empty q = rw (q, rollback_entry)

  pub rollback_entry_other :
      (lid : Bytes)
      → last keylog.idx ≡ some lid
      → equal (hash hasher entry) lid ≡ false
      → rollback_entry E hasher keylog entry ≡ (keylog, negsuc 0, some not_last_entry)
  unfolding rollback_entry
  rollback_entry_other lid q h = rw (q, rollback_entry) (rw h)

  pub rollback_entry_failed :
      (lid : Bytes) (x : Error)
      → last keylog.idx ≡ some lid
      → equal (hash hasher entry) lid ≡ true
      → (E.delete keylog.entries (hash hasher entry)).1 ≡ some x
      → rollback_entry E hasher keylog entry ≡ (
        record keylog { entries = (E.delete keylog.entries (hash hasher entry)).0 },
        pos (Index.count keylog.idx),
        some x,
      )
  unfolding rollback_entry
  rollback_entry_failed lid x q h f = rw (q, rollback_entry) (rw h (rw (f, drop_last)))

  -- The keylog once its last entry is deleted.
  abbrev pub dropped : List Bytes → Keylog E
  dropped ids = record {
    entries = (E.delete keylog.entries (hash hasher entry)).0;
    idx = shortened keylog.idx ids (
        ltime_of E hasher
          (E.get (E.delete keylog.entries (hash hasher entry)).0 (or_nil entry.previous)));
  }

  pub rollback_entry_done :
      (ids : List Bytes) (lid : Bytes)
      → last keylog.idx ≡ some lid
      → keylog.idx.entries ≡ ids ++ lid ∷ []
      → equal (hash hasher entry) lid ≡ true
      → (E.delete keylog.entries (hash hasher entry)).1 ≡ none
      → rollback_entry E hasher keylog entry ≡ (dropped ids, pos (length ids), none)
  unfolding rollback_entry
  rollback_entry_done ids lid q e h f =
      rw (q, rollback_entry) (rw h (rw (f, drop_last) (rw (rollback-snoc keylog.idx ids lid _ e))))
