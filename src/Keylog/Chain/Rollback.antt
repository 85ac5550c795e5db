-- ===== src/Keylog/Chain/Rollback.antt =====
-- What `RollbackEntry` does to the chain of a keylog (keylog.go).
use hexalog.Prelude.{
  ◌≡◌, sym, ◌∙◌, subst, true, false, none, some, List, [], ◌∷◌, ◌++◌, Bool-cases, inl, inr,
  Option-cases,
}
use hexalog.Bytes.{Bytes, equal, equal_iff}
use hexalog.Error.{Error}
use hexalog.Entry.{Entry, Hasher, hash}
use hexalog.EntryStore.{EntryStore}
use hexalog.Index.{contains_id, last}
use hexalog.Keylog.Calls.{
  rollback_entry_empty, rollback_entry_other, rollback_entry_failed, rollback_entry_done, dropped,
}
use hexalog.Keylog.{Keylog, rollback_entry}
use hexalog.Keylog.Chain.{IsLinked, IsLinked-drop, IsLinked-stable, IsLinked-delete}
use hexalog.Keylog.Chain.Distinct.{Distinct, Distinct-drop, IsChain, last_snoc}

module _ (E : EntryStore) (hasher : Hasher) where
  -- The keylog after `RollbackEntry` has dropped the last entry.
  dropped-IsChain :
      (keylog : Keylog E) (key : Bytes) (entry : Entry) (ids : List Bytes) (lid : Bytes)
      → keylog.idx.entries ≡ ids ++ lid ∷ []
      → equal (hash hasher entry) lid ≡ true
      → IsChain E hasher keylog key
      → IsChain E hasher (dropped E hasher keylog entry ids) key
  dropped-IsChain keylog key entry ids lid e h c =
      let d = Distinct-drop ids lid (subst Distinct e c.distinct) in
      let same : hash hasher entry ≡ lid = (equal_iff (hash hasher entry) lid).0 h in
      let linked =
        IsLinked-drop E hasher keylog.entries key none ids lid
          (subst (IsLinked E hasher keylog.entries key none) e c.chained) in
      record {
        chained =
            IsLinked-delete E hasher keylog.entries (hash hasher entry) key none ids
              (subst (λ b. contains_id ids b ≡ false) (sym same) d.1) linked;
        distinct = d.0;
      }

  -- `RollbackEntry` keeps the chain of the key, on every branch: whether the log is empty, the
  -- entry is not the last one, the store fails, or the entry goes.
  pub rollback_entry-IsChain :
      (keylog : Keylog E) (key : Bytes) (entry : Entry)
      → IsChain E hasher keylog key
      → IsChain E hasher (rollback_entry E hasher keylog entry).0 key
  rollback_entry-IsChain keylog key entry c = elim (Option-cases (last keylog.idx)) [
    | inl e ↦ rw (rollback_entry_empty E hasher keylog entry e) c
    | inr (lid, e) ↦ elim (Bool-cases (equal (hash hasher entry) lid)) [
      | inr h ↦ rw (rollback_entry_other E hasher keylog entry lid e h) c
      | inl h ↦ elim (Option-cases (E.delete keylog.entries (hash hasher entry)).1) [
        | inr (x, f) ↦ rw (rollback_entry_failed E hasher keylog entry lid x e h f) (untouched x f)
        | inl f ↦ removed lid e h f (last_snoc keylog.idx lid e)
      ]
    ]
  ]
    where
      untouched :
          (x : Error)
          → (E.delete keylog.entries (hash hasher entry)).1 ≡ some x
          → IsChain E hasher
              (record keylog { entries = (E.delete keylog.entries (hash hasher entry)).0 })
              key
      untouched x f = record {
        chained =
            IsLinked-stable E hasher keylog.entries (E.delete keylog.entries (hash hasher entry)).0
              key none keylog.idx.entries
              (λ j e m o g. E.get-delete_failed keylog.entries (hash hasher entry) j x f ∙ g)
              c.chained;
        distinct = c.distinct;
      }

      removed :
          (lid : Bytes)
          → last keylog.idx ≡ some lid
          → equal (hash hasher entry) lid ≡ true
          → (E.delete keylog.entries (hash hasher entry)).1 ≡ none
          → (ids : List Bytes) × (keylog.idx.entries ≡ ids ++ lid ∷ [])
          → IsChain E hasher (rollback_entry E hasher keylog entry).0 key
      removed lid e h f (ids, s) =
          rw (rollback_entry_done E hasher keylog entry ids lid e s h f)
            (dropped-IsChain keylog key entry ids lid s h c)
