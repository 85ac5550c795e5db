-- ===== src/LogStore/Spec.antt =====
-- What logstore.go promises: for every key the ids of its entries in order, or that it is not there.
-- A log store takes commands; the specification says what each does to these lists, and its error.
pub mod View
pub mod Growing
pub mod Refinement
pub mod Shrinking
use hexalog.Prelude.{
  ◌-◌, ◌≡◌, Option, none, some, List, [], ◌∷◌, ◌++◌, if◌then◌else◌, length, take, get_last?,
}
use hexalog.Bytes.{Bytes, or_nil, equal}
use hexalog.Error.{
  Error, Result, ok, err, key_exists, key_not_found, previous_hash, entry_not_found, not_last_entry,
}
use hexalog.Entry.{Entry, Hasher, hash}
use hexalog.EntryStore.{EntryStore}
use hexalog.Index.{links}
use hexalog.Index
use hexalog.IndexStore
use hexalog.LogStore.{LogStore, new_key, append_entry, rollback_entry, remove_key}

-- The methods of `LogStore` that change it.
pub data Command : Type 0 where
  creates : Bytes → Command
  appends : Entry → Command
  rolls_back : Entry → Command
  removes : Bytes → Command

abbrev pub Logs : Type 0
Logs = Bytes → Option (List Bytes)

pub same_logs : (l m : Logs) → ((key : Bytes) → l key ≡ m key) → l ≡ m
same_logs l m h i key = h key i

abbrev pub update : Logs → Bytes → Option (List Bytes) → Logs
update logs key ids j = if equal key j then ids else logs j

-- A log that loses its only entry goes.
abbrev pub unless_empty : List Bytes → Option (List Bytes)
unless_empty [] = none
unless_empty (id ∷ ids) = some (id ∷ ids)

module _ (hasher : Hasher) where
  unfoldable pub spec_create : Logs → Bytes → Option (List Bytes) → Logs × Option Error
  spec_create logs key (some ids) = (logs, some key_exists)
  spec_create logs key none = (update logs key (some []), none)

  unfoldable pub spec_append : Logs → Entry → Option (List Bytes) → Logs × Option Error
  spec_append logs entry none = (logs, some key_not_found)
  spec_append logs entry (some ids) =
      if links (get_last? ids) (or_nil entry.previous)
      then (update logs entry.key (some (ids ++ hash hasher entry ∷ [])), none)
      else (logs, some previous_hash)

  -- A rollback of an empty log takes the key away, and fails.
  unfoldable pub spec_roll_back : Logs → Entry → Option (List Bytes) → Logs × Option Error
  spec_roll_back logs entry none = (logs, some key_not_found)
  spec_roll_back logs entry (some ids) = elim (get_last? ids) [
    | none ↦ (update logs entry.key none, some entry_not_found)
    | some lid ↦
        if equal (hash hasher entry) lid
        then (update logs entry.key (unless_empty (take (length ids - 1) ids)), none)
        else (logs, some not_last_entry)
  ]

  unfoldable pub spec_remove : Logs → Bytes → Option (List Bytes) → Logs × Option Error
  spec_remove logs key none = (logs, some key_not_found)
  spec_remove logs key (some ids) = (update logs key none, none)

  unfoldable pub spec : Logs → Command → Logs × Option Error
  spec logs (creates key) = spec_create logs key (logs key)
  spec logs (appends entry) = spec_append logs entry (logs entry.key)
  spec logs (rolls_back entry) = spec_roll_back logs entry (logs entry.key)
  spec logs (removes key) = spec_remove logs key (logs key)

  unfoldable pub spec_all : Logs → List Command → Logs × List (Option Error)
  spec_all logs [] = (logs, [])
  spec_all logs (c ∷ cs) = let (l, e) = spec logs c in let (m, es) = spec_all l cs in (m, e ∷ es)

abbrev pub error_of {ℓ} : {A : Type ℓ} → Result A → Option Error
error_of (ok a) = none
error_of (err x) = some x

-- The ids that an index lookup finds.
abbrev pub ids_of : Result Index.UnsafeKeylogIndex → Option (List Bytes)
ids_of (ok idx) = some idx.entries
ids_of (err x) = none

module _ (E : EntryStore) (hasher : Hasher) where
  unfoldable pub obey : LogStore E → Command → LogStore E × Option Error
  obey hlog (creates key) = let (after, r) = new_key E hasher hlog key in (after, error_of r)
  obey hlog (appends entry) = append_entry E hasher hlog entry
  obey hlog (rolls_back entry) = rollback_entry E hasher hlog entry
  obey hlog (removes key) = remove_key E hasher hlog key

  unfoldable pub obey_all : LogStore E → List Command → LogStore E × List (Option Error)
  obey_all hlog [] = (hlog, [])
  obey_all hlog (c ∷ cs) =
      let (after, e) = obey hlog c in let (last, es) = obey_all after cs in (last, e ∷ es)

  -- The ids of each key in its index.
  unfoldable pub view : LogStore E → Logs
  view hlog key = ids_of (IndexStore.get_key hlog.index key)
