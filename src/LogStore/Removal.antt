-- ===== src/LogStore/Removal.antt =====
-- `RemoveKey` of logstore.go, which deletes entries that other logs do not hold.
use hexalog.Prelude.{
  ◌≡◌, sym, ap, ◌∙◌, inl, inr, true, false, Option, none, some, List, [], ◌∷◌, ◌++◌, arith,
  Bool-cases, Option-cases, if◌then◌else◌,
}
use hexalog.Bytes.{Bytes, equal, equal_iff}
use hexalog.Error.{Error, ok, err, key_not_found}
use hexalog.Entry.{Entry, Hasher}
use hexalog.EntryStore.{EntryStore}
use hexalog.Index.{UnsafeKeylogIndex, contains_id, last}
use hexalog.Index
use hexalog.IndexStore
use hexalog.IndexStore.Lookup.{get_key-remove_key, remove_key_found as found}
use hexalog.Keylog.{Keylog}
use hexalog.Keylog
use hexalog.Keylog.Chain.{IsLinked, IsLinked-stable}
use hexalog.Keylog.Chain.Distinct.{IsChain}
use hexalog.LogStore.{LogStore, get_key, remove_key, drop_entry}
use hexalog.LogStore.Soundness.{IsSound, Result-cases}

module _ (E : EntryStore) (hasher : Hasher) where
  -- An id of a chain names an entry of the chain's key.
  owner :
      (s : E.Store) (key : Bytes) (p : Option Bytes) (ids : List Bytes) (id : Bytes) (e : Entry)
      → IsLinked E hasher s key p ids
      → contains_id ids id ≡ true
      → E.get s id ≡ ok e
      → e.key ≡ key
  unfolding contains_id
  owner s key p [] id e c m g = cc
  owner s key p (x ∷ ids) id e (h, c) m g = elim (Bool-cases (equal x id)) [
    | inl same ↦
        let at : ok h.entry ≡ ok e = sym h.stored ∙ (ap (E.get s) ((equal_iff x id).0 same) ∙ g) in
        let this : h.entry ≡ e = cc in ap (λ (f : Entry). f.key) (sym this) ∙ h.owned
    | inr other ↦ owner s key (some x) ids id e c (ground arith) g
  ]

  pub stored_in :
      (s : E.Store) (key : Bytes) (p : Option Bytes) (ids : List Bytes) (id : Bytes)
      → IsLinked E hasher s key p (ids ++ id ∷ [])
      → (e : Entry) × (E.get s id ≡ ok e) × (e.key ≡ key)
  stored_in s key p [] id c = (c.0.entry, c.0.stored, c.0.owned)
  stored_in s key p (x ∷ ids) id c = stored_in s key (some x) ids id c.1

  kept_by_delete :
      (s : E.Store) (x id : Bytes) (e : Entry)
      → equal x id ≡ false
      → E.get s id ≡ ok e
      → E.get (E.delete s x).0 id ≡ ok e
  kept_by_delete s x id e n g = elim (Option-cases (E.delete s x).1) [
    | inl q ↦ E.get-delete s x id q ∙ rw n g
    | inr (y, q) ↦ E.get-delete_failed s x id y q ∙ g
  ]

  abbrev pub dropping : List Bytes → E.Store → E.Store × Option Error
  dropping = Index.each (Keylog.visit E hasher (λ (s : E.Store). s) (drop_entry E hasher))

  pub dropping_stops :
      (x : Bytes) (ids : List Bytes) (s : E.Store) (y : Error)
      → E.get s x ≡ err y
      → dropping (x ∷ ids) s ≡ (s, some y)
  unfolding Index.each Keylog.visit
  dropping_stops x ids s y q = ground (arith)

  pub dropping_goes_on :
      (x : Bytes) (ids : List Bytes) (s : E.Store) (e : Entry)
      → E.get s x ≡ ok e
      → dropping (x ∷ ids) s ≡ dropping ids (E.delete s x).0
  unfolding Index.each Keylog.visit drop_entry
  dropping_goes_on x ids s e q = ground (arith)

  -- The loop of `RemoveKey` leaves every entry whose id it does not meet.
  kept_by_dropping :
      (ids : List Bytes) (s : E.Store) (id : Bytes) (e : Entry)
      → contains_id ids id ≡ false
      → E.get s id ≡ ok e
      → E.get (dropping ids s).0 id ≡ ok e
  unfolding contains_id Index.each
  kept_by_dropping [] s id e n g = g
  kept_by_dropping (x ∷ ids) s id e n g = elim (Result-cases (E.get s x)) [
    | inl (y, q) ↦ rw (dropping_stops x ids s y q) g
    | inr (f, q) ↦
        let other : equal x id ≡ false = ground arith in
        let rest : contains_id ids id ≡ false = ground arith in
        rw (dropping_goes_on x ids s f q)
          (kept_by_dropping ids (E.delete s x).0 id e rest (kept_by_delete s x id e other g))
  ]

  pub remove_key_missing :
      (hlog : LogStore E) (key : Bytes) (x : Error)
      → IndexStore.get_key hlog.index key ≡ err x
      → remove_key E hasher hlog key ≡ (hlog, some x)
  unfolding remove_key get_key
  remove_key_missing hlog key x e = rw (e, remove_key)

  pub remove_key_found :
      (hlog : LogStore E) (key : Bytes) (idx : UnsafeKeylogIndex)
      → IndexStore.get_key hlog.index key ≡ ok idx
      → remove_key E hasher hlog key ≡ (
        record {
          index = (IndexStore.remove_key hlog.index key).0;
          entries = (dropping idx.entries hlog.entries).0;
        },
        (dropping idx.entries hlog.entries).1,
      )
  unfolding remove_key get_key Keylog.iter Index.iter
  remove_key_found hlog key idx e = rw (e, remove_key) (rw (found hlog.index key idx e))

  -- Another key's chain holds no id of the chain of this key.
  pub foreign_id :
      (s : E.Store) (key j : Bytes) (ids ids' : List Bytes) (id : Bytes) (e : Entry)
      → equal key j ≡ false
      → IsLinked E hasher s key none ids
      → IsLinked E hasher s j none ids'
      → contains_id ids' id ≡ true
      → E.get s id ≡ ok e
      → contains_id ids id ≡ false
  foreign_id s key j ids ids' id e n c c' m g = elim (Bool-cases (contains_id ids id)) [
    | inr out ↦ out
    | inl here ↦
        let mine = owner s key none ids id e c here g in
        let yours = owner s j none ids' id e c' m g in
        let same : equal key j ≡ true = (equal_iff key j).1 (sym mine ∙ yours) in cc
  ]

  -- `RemoveKey` keeps all logs sound: where all keys had chains of stored entries, those that are
  -- left have them in the store that is left, whether the key was there or not.
  pub remove_key-IsSound :
      (hlog : LogStore E) (key : Bytes)
      → IsSound E hasher hlog
      → IsSound E hasher (remove_key E hasher hlog key).0
  remove_key-IsSound hlog key s = elim (Result-cases (IndexStore.get_key hlog.index key)) [
    | inl (x, e) ↦ rw (remove_key_missing hlog key x e) s
    | inr (idx, e) ↦ rw (remove_key_found hlog key idx e) (record {
      at = λ j idx' h. left idx e j idx' (sym (get_key-remove_key hlog.index key j) ∙ h);
    })
  ]
    where
      left :
          (idx : UnsafeKeylogIndex)
          → IndexStore.get_key hlog.index key ≡ ok idx
          → (j : Bytes) (idx' : UnsafeKeylogIndex)
          → (if equal key j then err key_not_found else IndexStore.get_key hlog.index j) ≡ ok idx'
          → IsChain E hasher
              (record { entries = (dropping idx.entries hlog.entries).0; idx = idx' })
              j
      left idx e j idx' h = elim (Bool-cases (equal key j)) [
        | inl same ↦ let gone : err key_not_found ≡ ok idx' = rw same at h in cc
        | inr other ↦
            let c = s.at j idx' (rw other at h) in
            record {
              chained =
                  IsLinked-stable E hasher hlog.entries (dropping idx.entries hlog.entries).0 j none
                    idx'.entries
                    (λ id f m o g.
                      kept_by_dropping idx.entries hlog.entries id f
                        (foreign_id hlog.entries key j idx.entries idx'.entries id f other
                          (s.at key idx e).chained c.chained m g)
                        g)
                    c.chained;
              distinct = c.distinct;
            }
      ]
