-- ===== src/LogStore/Rollback.antt =====
-- `RollbackEntry` of logstore.go, which deletes an entry that other logs do not hold.
use hexalog.Prelude.{
  ◌≡◌, refl, sym, ap, ◌∙◌, subst, inl, inr, true, false, Option, none, some, List, [], ◌∷◌, ◌++◌,
  arith, Bool-cases, Option-cases, if◌then◌else◌, ℤ,
}
use hexalog.Bytes.{Bytes, equal, equal_iff, equal_refl}
use hexalog.Error.{Error, ok}
use hexalog.Entry.{Entry, Hasher, hash}
use hexalog.EntryStore.{EntryStore}
use hexalog.Index.{UnsafeKeylogIndex, contains_id, last}
use hexalog.Index.Invariant.{contains_id-append}
use hexalog.IndexStore
use hexalog.Keylog.{Keylog}
use hexalog.Keylog
use hexalog.Keylog.Calls.{
  rollback_entry_empty, rollback_entry_other, rollback_entry_failed, rollback_entry_done,
}
use hexalog.Keylog.Chain.{IsLinked, IsLinked-delete}
use hexalog.Keylog.Chain.Distinct.{IsChain, last_snoc}
use hexalog.Keylog.Chain.Rollback.{rollback_entry-IsChain}
use hexalog.LogStore.{LogStore, get_key, remove_key, rollback_entry, write_back, is_zero}
use hexalog.LogStore.Soundness.{IsSound, Result-cases, write_back-IsSound}
use hexalog.LogStore.Removal.{stored_in, foreign_id, remove_key-IsSound}

module _ (E : EntryStore) (hasher : Hasher) where
  -- What `RollbackEntry` of a keylog does to the store: nothing, or the entry is its last and goes.
  pub data Rolled (keylog : Keylog E) (entry : Entry) (t : E.Store) : Type 0 where
    untouched : t ≡ keylog.entries → Rolled keylog entry t
    deleted :
        last keylog.idx ≡ some (hash hasher entry)
        → t ≡ (E.delete keylog.entries (hash hasher entry)).0
        → Rolled keylog entry t

  pub entries-rollback_entry :
      (keylog : Keylog E) (entry : Entry)
      → Rolled keylog entry (Keylog.rollback_entry E hasher keylog entry).0.entries
  entries-rollback_entry keylog entry = elim (Option-cases (last keylog.idx)) [
    | inl e ↦ rw (rollback_entry_empty E hasher keylog entry e) (untouched refl)
    | inr (lid, e) ↦ elim (Bool-cases (equal (hash hasher entry) lid)) [
      | inr h ↦ rw (rollback_entry_other E hasher keylog entry lid e h) (untouched refl)
      | inl h ↦ hit lid e h
    ]
  ]
    where
      hit :
          (lid : Bytes)
          → last keylog.idx ≡ some lid
          → equal (hash hasher entry) lid ≡ true
          → Rolled keylog entry (Keylog.rollback_entry E hasher keylog entry).0.entries
      hit lid e h =
          let at : last keylog.idx ≡ some (hash hasher entry) =
            e ∙ ap (λ (b : Bytes). some b) (sym ((equal_iff (hash hasher entry) lid).0 h)) in
          let (ids, split) = last_snoc keylog.idx lid e in
          elim (Option-cases (E.delete keylog.entries (hash hasher entry)).1) [
            | inr (x, f) ↦
                rw (rollback_entry_failed E hasher keylog entry lid x e h f) (deleted at refl)
            | inl f ↦
                rw (rollback_entry_done E hasher keylog entry ids lid e split h f) (deleted at refl)
          ]

  -- The logs of the other keys are in the store that a rollback leaves.
  others_kept :
      (hlog : LogStore E) (entry : Entry) (idx : UnsafeKeylogIndex) (t : E.Store)
      → IsSound E hasher hlog
      → IndexStore.get_key hlog.index entry.key ≡ ok idx
      → Rolled (record { entries = hlog.entries; idx = idx }) entry t
      → (j : Bytes) (idx' : UnsafeKeylogIndex) → equal entry.key j ≡ false
      → IndexStore.get_key hlog.index j ≡ ok idx'
      → IsChain E hasher (record { entries = t; idx = idx' }) j
  others_kept hlog entry idx t s e (untouched same) j idx' n h = rw same (s.at j idx' h)
  others_kept hlog entry idx t s e (deleted at same) j idx' n h =
      let c = s.at j idx' h in
      let (ids, split) = last_snoc idx (hash hasher entry) at in
      let mine =
        subst (IsLinked E hasher hlog.entries entry.key none) split
          (s.at entry.key idx e).chained in
      let (f, stored, owned) =
        stored_in E hasher hlog.entries entry.key none ids (hash hasher entry) mine in
      rw same (record {
        chained =
            IsLinked-delete E hasher hlog.entries (hash hasher entry) j none idx'.entries
              (foreign_id E hasher hlog.entries j entry.key idx'.entries idx.entries
                (hash hasher entry) f (flipped entry.key j n) c.chained
                (s.at entry.key idx e).chained
                (subst (λ (l : List Bytes). contains_id l (hash hasher entry) ≡ true) (sym split)
                  (at_end ids (hash hasher entry)))
                stored)
              c.chained;
        distinct = c.distinct;
      })
    where
      flipped : (a b : Bytes) → equal a b ≡ false → equal b a ≡ false
      flipped a b h = ground (arith, equal_iff a b, equal_iff b a)

      at_end : (ids : List Bytes) (id : Bytes) → contains_id (ids ++ id ∷ []) id ≡ true
      at_end ids id = ground (arith, contains_id-append ids id id, equal_refl id)

  -- `RollbackEntry` keeps all logs sound: whether the key is missing, its log is empty, the entry is
  -- not the last one, the store fails, the entry goes, or the key goes with its only entry.
  pub rollback_entry-IsSound :
      (hlog : LogStore E) (entry : Entry)
      → IsSound E hasher hlog
      → IsSound E hasher (rollback_entry E hasher hlog entry).0
  unfolding rollback_entry get_key
  rollback_entry-IsSound hlog entry s =
      elim (Result-cases (IndexStore.get_key hlog.index entry.key)) [
        | inl (x, e) ↦ rw (e, rollback_entry) s
        | inr (idx, e) ↦ rw (e, rollback_entry) (ended idx e)
      ]
    where
      rolled : UnsafeKeylogIndex → Keylog E × ℤ × Option Error
      rolled idx =
          Keylog.rollback_entry E hasher (record { entries = hlog.entries; idx = idx }) entry

      kept :
          (idx : UnsafeKeylogIndex)
          → IndexStore.get_key hlog.index entry.key ≡ ok idx
          → IsSound E hasher (write_back E hasher hlog entry.key (rolled idx).0)
      kept idx e =
          write_back-IsSound E hasher hlog entry.key (rolled idx).0
            (rollback_entry-IsChain E hasher (record { entries = hlog.entries; idx = idx })
              entry.key entry (s.at entry.key idx e))
            (others_kept hlog entry idx (rolled idx).0.entries s e
              (entries-rollback_entry (record { entries = hlog.entries; idx = idx }) entry))

      ended :
          (idx : UnsafeKeylogIndex)
          → IndexStore.get_key hlog.index entry.key ≡ ok idx
          → IsSound E hasher (
              if is_zero (rolled idx).1
              then (remove_key E hasher
                  (write_back E hasher hlog entry.key (rolled idx).0)
                  entry.key).0
              else write_back E hasher hlog entry.key (rolled idx).0)
      ended idx e = elim (Bool-cases (is_zero (rolled idx).1)) [
        | inl z ↦ rw z (
            remove_key-IsSound E hasher (write_back E hasher hlog entry.key (rolled idx).0)
              entry.key (kept idx e))
        | inr z ↦ rw z (kept idx e)
      ]
