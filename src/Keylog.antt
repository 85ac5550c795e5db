-- ===== src/Keylog.antt =====
-- keylog.go: the log of one key, an index of ids and the entries that they name in an entry store.
-- A method returns the keylog beside its results. The entry store and the hash function are
-- parameters.
pub mod Calls
pub mod Chain
use hexalog.Prelude.{ℤ, pos, negsuc, ℕ, zero, suc, ◌-◌, Option, none, some, if◌then◌else◌, ltb}
use hexalog.Bytes.{Bytes, or_nil, equal}
use hexalog.Error.{Error, Result, ok, err, entry_not_found, not_last_entry}
use hexalog.Entry.{Entry, Hasher, hash}
use hexalog.EntryStore.{EntryStore}
use hexalog.Index.{UnsafeKeylogIndex}
use hexalog.Index

pub record Keylog (E : EntryStore) : Type 0 where
  pub entries : E.Store
  pub idx : UnsafeKeylogIndex

-- What a call `entry, _ :=` leaves in `entry`.
abbrev pub ignore_error {ℓ} : {A : Type ℓ} → Result A → Option A
ignore_error (ok a) = some a
ignore_error (err x) = none

module _ (E : EntryStore) (hasher : Hasher) where
  unfoldable pub last_entry : Keylog E → Option Entry
  last_entry keylog = elim (Index.last keylog.idx) [
    | none ↦ none
    | some lid ↦ ignore_error (E.get keylog.entries lid)
  ]

  unfoldable pub append_entry : Keylog E → Entry → Keylog E × Option Error
  append_entry keylog entry =
      let id = hash hasher entry in
      let (entries, failed) = E.set keylog.entries id entry in
      elim failed [
        | some x ↦ (record keylog { entries = entries }, some x)
        | none ↦
            let (idx, e) = Index.append keylog.idx id (or_nil entry.previous) entry.ltime in
            (record { entries = entries; idx = idx }, e)
      ]

  unfoldable pub get_entry : Keylog E → Bytes → Result Entry
  get_entry keylog id = E.get keylog.entries id

  -- The ltime of the entry before, 0 if it is not in the store.
  pub ltime_of : Result Entry → ℕ
  ltime_of (ok before) = before.ltime
  ltime_of (err x) = 0

  -- `RollbackEntry` once the entry is known to be the last.
  pub drop_last : Keylog E → Entry → Keylog E × ℤ × Option Error
  unfolding ltime_of
  drop_last keylog entry =
      let (entries, failed) = E.delete keylog.entries (hash hasher entry) in
      elim failed [
        | some x ↦ (record keylog { entries = entries }, pos (Index.count keylog.idx), some x)
        | none ↦
            let ltime = ltime_of (E.get entries (or_nil entry.previous)) in
            let (idx, n, _) = Index.rollback keylog.idx ltime in
            (record { entries = entries; idx = idx }, pos n, none)
      ]

  unfoldable pub rollback_entry : Keylog E → Entry → Keylog E × ℤ × Option Error
  unfolding drop_last
  rollback_entry keylog entry = elim (Index.last keylog.idx) [
    | none ↦ (keylog, pos (Index.count keylog.idx), some entry_not_found)
    | some lid ↦
        if equal (hash hasher entry) lid
        then drop_last keylog entry
        else (keylog, negsuc 0, some not_last_entry)
  ]

  -- The callback that `Iter` hands to the index: it looks the entry up in the store as it then is.
  unfoldable pub visit {ℓ} :
      {S : Type ℓ}
      → (S → E.Store)
      → (Bytes → Entry → S → S × Option Error)
      → Bytes
      → S
      → S × Option Error
  visit entries_in cb eid s = elim (E.get (entries_in s) eid) [
    | err x ↦ (s, some x)
    | ok entry ↦ cb eid entry s
  ]

  unfoldable pub iter {ℓ} :
      {S : Type ℓ}
      → UnsafeKeylogIndex
      → (S → E.Store)
      → Option Bytes
      → (Bytes → Entry → S → S × Option Error)
      → S
      → S × Option Error
  unfolding visit
  iter idx entries_in seek cb s = Index.iter idx seek (visit entries_in cb) s
