-- ===== src/LogStore/Spec/Shrinking.antt =====
-- `RollbackEntry` and `RemoveKey` do what the specification says (logstore.go).
use hexalog.Prelude.{
  ◌≡◌, refl, sym, ap, ◌∙◌, subst, Option, none, some, List, [], ◌∷◌, ◌++◌, inl, inr, arith, true,
  false, if◌then◌else◌, Bool-cases, Option-cases, take, length, ◌-◌, get_last?, get_last?-none,
  ◌==◌, take-length-snoc, pos, ℤ,
}
use hexalog.Bytes.{Bytes, equal, equal_iff, equal_refl}
use hexalog.Error.{Error, ok, entry_not_found, not_last_entry}
use hexalog.Entry.{Entry, Hasher, hash}
use hexalog.EntryStore.{EntryStore}
use hexalog.Index.{UnsafeKeylogIndex, new_safe_keylog_index, links, last, accept}
use hexalog.Index
use hexalog.IndexStore
use hexalog.IndexStore.{InMemIndexStore}
use hexalog.IndexStore.Lookup.{get_key-write_back}
use hexalog.Keylog
use hexalog.Keylog.{Keylog}
use hexalog.Keylog.Calls.{rollback_entry_empty, rollback_entry_other, rollback_entry_done, dropped}
use hexalog.Keylog.Chain.{IsLinked, IsLinked-delete}
use hexalog.Keylog.Chain.Distinct.{Distinct, last_snoc}
use hexalog.LogStore.{LogStore, get_key, is_zero, write_back, rollback_entry, remove_key}
use hexalog.LogStore.Soundness.{IsSound, Result-cases}
use hexalog.LogStore.Removal.{
  stored_in, dropping, dropping_goes_on, remove_key_found, remove_key_missing,
}
use hexalog.LogStore.Spec.{
  Logs, rolls_back, removes, update, spec, spec_roll_back, spec_remove, unless_empty, obey, view,
}
use hexalog.LogStore.Spec.View.{
  view_found, view-write_back, view-remove_key, update_same, update_twice,
}
use hexalog.LogStore.Spec.Growing.{seen, obeyed_missing, obeyed_found}

-- An entry that the store has can be deleted from it.
abbrev pub DropsHeld : EntryStore → Type 0
DropsHeld E = (s : E.Store) (id : Bytes) (e : Entry) → E.get s id ≡ ok e → (E.delete s id).1 ≡ none

module _ (E : EntryStore) (hasher : Hasher) where
  -- `RollbackEntry` of the log, given what that of the keylog answers.
  abbrev concluded : LogStore E → Entry → Keylog E × ℤ × Option Error → LogStore E × Option Error
  concluded hlog entry t =
      let after = write_back E hasher hlog entry.key t.0 in
      (if is_zero t.1 then (remove_key E hasher after entry.key).0 else after, t.2)

  view-write_back_removed :
      (hlog : LogStore E) (key : Bytes) (keylog : Keylog E)
      → view E hasher (remove_key E hasher (write_back E hasher hlog key keylog) key).0
        ≡ update (view E hasher hlog) key none
  view-write_back_removed hlog key keylog =
      let after = write_back E hasher hlog key keylog in
      let found : IndexStore.get_key after.index key ≡ ok keylog.idx =
        get_key-write_back hlog.index key key keylog.idx ∙ rw (equal_refl key) refl in
      ap (λ (t : LogStore E × Option Error). view E hasher t.0)
        (remove_key_found E hasher after key keylog.idx found)
      ∙ (view-remove_key E hasher after _ key
          ∙ (ap (λ (l : Logs). update l key none)
                (view-write_back E hasher hlog keylog.entries key keylog.idx)
              ∙ update_twice (view E hasher hlog) key (some keylog.idx.entries) none))

  roll_back_found :
      (hlog : LogStore E) (entry : Entry) (idx : UnsafeKeylogIndex)
      → IndexStore.get_key hlog.index entry.key ≡ ok idx
      → rollback_entry E hasher hlog entry
        ≡ concluded hlog entry
            (Keylog.rollback_entry E hasher (record { entries = hlog.entries; idx = idx }) entry)
  unfolding rollback_entry get_key
  roll_back_found hlog entry idx e = rw (e, rollback_entry) refl

  rolled_back :
      (hlog : LogStore E) (entry : Entry) (idx : UnsafeKeylogIndex) (lid : Bytes) (ids : List Bytes)
      → last idx ≡ some lid
      → idx.entries ≡ ids ++ lid ∷ []
      → seen E hasher (
          concluded hlog entry (
            dropped E hasher (record { entries = hlog.entries; idx = idx }) entry ids,
            pos (length ids),
            none,
          ))
        ≡ (update (view E hasher hlog) entry.key (unless_empty ids), none)
  rolled_back hlog entry idx lid [] e split =
      ap (λ (l : Logs). (l, none)) (view-write_back_removed hlog entry.key _)
  rolled_back hlog entry idx lid (id ∷ ids) e split =
      let more : (length (id ∷ ids) == 0) ≡ false = ground arith in
      let kept = dropped E hasher (record { entries = hlog.entries; idx = idx }) entry (id ∷ ids) in
      rw more (
        ap (λ (l : Logs). (l, none))
          (view-write_back E hasher hlog kept.entries entry.key kept.idx))

  spec_rolled :
      (logs : Logs) (entry : Entry) (from ids : List Bytes) (lid : Bytes)
      → get_last? from ≡ some lid
      → equal (hash hasher entry) lid ≡ true
      → take (length from - 1) from ≡ ids
      → spec_roll_back hasher logs entry (some from)
        ≡ (update logs entry.key (unless_empty ids), none)
  unfolding spec_roll_back
  spec_rolled logs entry from ids lid e h t = rw (e, spec_roll_back) (rw h (rw t refl))

  spec_other :
      (logs : Logs) (entry : Entry) (from : List Bytes) (lid : Bytes)
      → get_last? from ≡ some lid
      → equal (hash hasher entry) lid ≡ false
      → spec_roll_back hasher logs entry (some from) ≡ (logs, some not_last_entry)
  unfolding spec_roll_back
  spec_other logs entry from lid e h = rw (e, spec_roll_back) (rw h refl)

  spec_empty :
      (logs : Logs) (entry : Entry) (from : List Bytes)
      → get_last? from ≡ none
      → spec_roll_back hasher logs entry (some from)
        ≡ (update logs entry.key none, some entry_not_found)
  unfolding spec_roll_back
  spec_empty logs entry from e = rw (e, spec_roll_back) refl

  concluded_refines :
      (hlog : LogStore E) (entry : Entry) (idx : UnsafeKeylogIndex)
      → DropsHeld E
      → IsSound E hasher hlog
      → IndexStore.get_key hlog.index entry.key ≡ ok idx
      → seen E hasher (
          concluded hlog entry
            (Keylog.rollback_entry E hasher (record { entries = hlog.entries; idx = idx }) entry))
        ≡ spec_roll_back hasher (view E hasher hlog) entry (some idx.entries)
  unfolding spec_roll_back last Index.count
  concluded_refines hlog entry idx drops s found = elim (Option-cases (last idx)) [
    | inl e ↦
        let none_left : (length idx.entries == 0) ≡ true =
          ap (λ (l : List Bytes). length l == 0) (get_last?-none idx.entries e) in
        ap (λ t. seen E hasher (concluded hlog entry t))
          (rollback_entry_empty E hasher (record { entries = hlog.entries; idx = idx }) entry e)
        ∙ (rw none_left (
              ap (λ (l : Logs). (l, some entry_not_found))
                (view-write_back_removed hlog entry.key
                  (record { entries = hlog.entries; idx = idx })))
            ∙ sym (spec_empty (view E hasher hlog) entry idx.entries e))
    | inr (lid, e) ↦ elim (Bool-cases (equal (hash hasher entry) lid)) [
      | inr h ↦
          ap (λ t. seen E hasher (concluded hlog entry t))
            (rollback_entry_other E hasher (record { entries = hlog.entries; idx = idx }) entry lid
              e h)
          ∙ (ap (λ (l : Logs). (l, some not_last_entry))
                (view-write_back E hasher hlog hlog.entries entry.key idx
                  ∙ update_same (view E hasher hlog) entry.key (some idx.entries)
                      (view_found E hasher hlog entry.key idx found))
              ∙ sym (spec_other (view E hasher hlog) entry idx.entries lid e h))
      | inl h ↦
          let (ids, split) = last_snoc idx lid e in
          let (w, stored, _) = stored_in E hasher hlog.entries entry.key none ids lid (
            subst (IsLinked E hasher hlog.entries entry.key none) split
              (s.at entry.key idx found).chained) in
          let held : E.get hlog.entries (hash hasher entry) ≡ ok w =
            ap (E.get hlog.entries) ((equal_iff (hash hasher entry) lid).0 h) ∙ stored in
          let short : take (length idx.entries - 1) idx.entries ≡ ids =
            ap (λ (l : List Bytes). take (length l - 1) l) split ∙ take-length-snoc ids lid in
          ap (λ t. seen E hasher (concluded hlog entry t))
            (rollback_entry_done E hasher (record { entries = hlog.entries; idx = idx }) entry ids
              lid e split h (drops hlog.entries (hash hasher entry) w held))
          ∙ (rolled_back hlog entry idx lid ids e split
              ∙ sym (spec_rolled (view E hasher hlog) entry idx.entries ids lid e h short))
    ]
  ]

  pub roll_back_refines :
      (hlog : LogStore E) (entry : Entry)
      → DropsHeld E
      → IsSound E hasher hlog
      → seen E hasher (obey E hasher hlog (rolls_back entry))
        ≡ spec hasher (view E hasher hlog) (rolls_back entry)
  unfolding obey spec spec_roll_back rollback_entry get_key last
  roll_back_refines hlog entry drops s =
      elim (Result-cases (IndexStore.get_key hlog.index entry.key)) [
        | inl (x, e) ↦
            obeyed_missing E hasher hlog entry.key (rollback_entry E hasher hlog entry) x
              (spec_roll_back hasher (view E hasher hlog) entry) refl e
              (rw (e, rollback_entry) refl)
        | inr (idx, e) ↦
            obeyed_found E hasher hlog entry.key (rollback_entry E hasher hlog entry) idx _
              (spec_roll_back hasher (view E hasher hlog) entry) e
              (roll_back_found hlog entry idx e) (concluded_refines hlog entry idx drops s e)
      ]

  pub dropping_succeeds :
      (s : E.Store) (key : Bytes) (p : Option Bytes) (ids : List Bytes)
      → DropsHeld E
      → IsLinked E hasher s key p ids
      → Distinct ids
      → (dropping E hasher ids s).1 ≡ none
  unfolding Index.each
  dropping_succeeds s key p [] drops c d = refl
  dropping_succeeds s key p (id ∷ ids) drops (h, c) (out, d) =
      rw (dropping_goes_on E hasher id ids s h.entry h.stored) (
        dropping_succeeds (E.delete s id).0 key (some id) ids drops
          (IsLinked-delete E hasher s id key (some id) ids out c) d)

  pub remove_refines :
      (hlog : LogStore E) (key : Bytes)
      → DropsHeld E
      → IsSound E hasher hlog
      → seen E hasher (obey E hasher hlog (removes key))
        ≡ spec hasher (view E hasher hlog) (removes key)
  unfolding obey spec spec_remove
  remove_refines hlog key drops s = elim (Result-cases (IndexStore.get_key hlog.index key)) [
    | inl (x, e) ↦
        obeyed_missing E hasher hlog key (remove_key E hasher hlog key) x
          (spec_remove hasher (view E hasher hlog) key) refl e
          (remove_key_missing E hasher hlog key x e)
    | inr (idx, e) ↦
        let c = s.at key idx e in
        obeyed_found E hasher hlog key (remove_key E hasher hlog key) idx _
          (spec_remove hasher (view E hasher hlog) key) e (remove_key_found E hasher hlog key idx e)
          (rw (dropping_succeeds hlog.entries key none idx.entries drops c.chained c.distinct)
            (ap (λ (l : Logs). (l, none)) (view-remove_key E hasher hlog _ key)))
  ]
