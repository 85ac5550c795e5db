-- ===== src/LogStore/Spec/View.antt =====
-- What the calls of logstore.go do to the ids of each key.
use hexalog.Prelude.{◌≡◌, sym, ap, ◌∙◌, Option, none, some, List, inl, inr, arith, Bool-cases}
use hexalog.Bytes.{Bytes, equal, equal_iff}
use hexalog.Error.{Error, ok, err}
use hexalog.Entry.{Hasher}
use hexalog.EntryStore.{EntryStore}
use hexalog.Index.{UnsafeKeylogIndex}
use hexalog.IndexStore
use hexalog.IndexStore.{InMemIndexStore}
use hexalog.IndexStore.Lookup.{get_key-write_back, get_key-remove_key}
use hexalog.LogStore.{LogStore}
use hexalog.LogStore.Spec.{Logs, same_logs, update, view}

-- Writing back what is there changes nothing.
pub update_same :
    (logs : Logs) (key : Bytes) (ids : Option (List Bytes))
    → logs key ≡ ids
    → update logs key ids ≡ logs
update_same logs key ids h = same_logs _ _ (λ j. elim (Bool-cases (equal key j)) [
  | inl e ↦ rw e (sym h ∙ ap logs ((equal_iff key j).0 e))
  | inr e ↦ rw e
])

-- The last update counts.
pub update_twice :
    (logs : Logs) (key : Bytes) (a b : Option (List Bytes))
    → update (update logs key a) key b ≡ update logs key b
update_twice logs key a b = same_logs _ _ (λ j. ground arith)

module _ (E : EntryStore) (hasher : Hasher) where
  pub view_found :
      (hlog : LogStore E) (key : Bytes) (idx : UnsafeKeylogIndex)
      → IndexStore.get_key hlog.index key ≡ ok idx
      → view E hasher hlog key ≡ some idx.entries
  unfolding view
  view_found hlog key idx h = rw h

  pub view_missing :
      (hlog : LogStore E) (key : Bytes) (x : Error)
      → IndexStore.get_key hlog.index key ≡ err x
      → view E hasher hlog key ≡ none
  unfolding view
  view_missing hlog key x h = rw h

  pub view-write_back :
      (hlog : LogStore E) (entries : E.Store) (key : Bytes) (idx : UnsafeKeylogIndex)
      → view E hasher
          (record { index = IndexStore.write_back hlog.index key idx; entries = entries })
        ≡ update (view E hasher hlog) key (some idx.entries)
  unfolding view
  view-write_back hlog entries key idx = same_logs _ _ (λ j. elim (Bool-cases (equal key j)) [
    | inl e ↦ ground (arith, get_key-write_back hlog.index key j idx)
    | inr e ↦ ground (arith, get_key-write_back hlog.index key j idx)
  ])

  pub view-remove_key :
      (hlog : LogStore E) (entries : E.Store) (key : Bytes)
      → view E hasher
          (record { index = (IndexStore.remove_key hlog.index key).0; entries = entries })
        ≡ update (view E hasher hlog) key none
  unfolding view
  view-remove_key hlog entries key =
      same_logs _ _ (λ j. ground (arith, get_key-remove_key hlog.index key j))
