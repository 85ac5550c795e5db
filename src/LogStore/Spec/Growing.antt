-- ===== src/LogStore/Spec/Growing.antt =====
-- `NewKey` and `AppendEntry` do what the specification says (logstore.go).
use hexalog.Prelude.{◌≡◌, refl, sym, ap, ◌∙◌, Option, none, some, List, inl, inr, arith, Bool-cases}
use hexalog.Bytes.{Bytes, or_nil}
use hexalog.Error.{Error, Result, ok, err, key_exists, key_not_found, previous_hash}
use hexalog.Entry.{Entry, Hasher, hash}
use hexalog.EntryStore.{EntryStore}
use hexalog.Index.{UnsafeKeylogIndex, new_safe_keylog_index, links, last, accept}
use hexalog.IndexStore
use hexalog.IndexStore.{InMemIndexStore}
use hexalog.IndexStore.Lookup.{get_key_error}
use hexalog.Keylog.{Keylog}
use hexalog.LogStore.{LogStore, get_key, new_key, append_entry}
use hexalog.LogStore.Soundness.{Result-cases}
use hexalog.LogStore.Appending.{TakesAll, append_entry_taken, append_entry_left}
use hexalog.LogStore.Spec.{
  Logs, creates, appends, spec, spec_create, spec_append, obey, view, error_of,
}
use hexalog.LogStore.Spec.View.{view_found, view_missing, view-write_back, update_same}

new_key_taken :
    (s : InMemIndexStore) (k : Bytes) (idx : UnsafeKeylogIndex)
    → IndexStore.get_key s k ≡ ok idx
    → IndexStore.new_key s k ≡ (s, err key_exists)
unfolding IndexStore.get_key IndexStore.new_key
new_key_taken s k idx h = ground arith

new_key_made :
    (s : InMemIndexStore) (k : Bytes) (x : Error)
    → IndexStore.get_key s k ≡ err x
    → IndexStore.new_key s k ≡ (
      IndexStore.write_back s k (new_safe_keylog_index k none),
      ok (new_safe_keylog_index k none),
    )
unfolding IndexStore.get_key IndexStore.new_key IndexStore.write_back
new_key_made s k x h = ground arith

module _ (E : EntryStore) (hasher : Hasher) where
  -- What can be seen of a call's result.
  abbrev pub seen : LogStore E × Option Error → Logs × Option Error
  seen t = (view E hasher t.0, t.1)

  -- The same, once a lookup of the key is known.
  module _ (hlog : LogStore E) (key : Bytes) where
    pub obeyed_found :
        (run : LogStore E × Option Error) (idx : UnsafeKeylogIndex)
        (after : LogStore E × Option Error) (says : Option (List Bytes) → Logs × Option Error)
        → IndexStore.get_key hlog.index key ≡ ok idx
        → run ≡ after
        → seen after ≡ says (some idx.entries)
        → seen run ≡ says (view E hasher hlog key)
    obeyed_found run idx after says e ran told =
        ap seen ran ∙ (told ∙ ap says (sym (view_found E hasher hlog key idx e)))

    pub obeyed_missing :
        (run : LogStore E × Option Error) (x : Error)
        (says : Option (List Bytes) → Logs × Option Error)
        → says none ≡ (view E hasher hlog, some key_not_found)
        → IndexStore.get_key hlog.index key ≡ err x
        → run ≡ (hlog, some x)
        → seen run ≡ says (view E hasher hlog key)
    obeyed_missing run x says fails e ran =
        ap seen ran
        ∙ (ap (λ (y : Error). (view E hasher hlog, some y)) (get_key_error hlog.index key x e)
            ∙ (sym fails ∙ ap says (sym (view_missing E hasher hlog key x e))))

  abbrev created :
      LogStore E → InMemIndexStore × Result UnsafeKeylogIndex → LogStore E × Option Error
  created hlog t =
      let u : LogStore E × Result (Keylog E) = elim t.1 [
        | ok idx ↦ (record hlog { index = t.0 }, ok (record { entries = hlog.entries; idx = idx }))
        | err x ↦ (record hlog { index = t.0 }, err x)
      ] in
      (u.0, error_of u.1)

  pub create_refines :
      (hlog : LogStore E) (key : Bytes)
      → seen (obey E hasher hlog (creates key)) ≡ spec hasher (view E hasher hlog) (creates key)
  unfolding obey spec spec_create new_key new_safe_keylog_index
  create_refines hlog key = elim (Result-cases (IndexStore.get_key hlog.index key)) [
    | inr (idx, e) ↦
        obeyed_found hlog key (obey E hasher hlog (creates key)) idx (hlog, some key_exists)
          (spec_create hasher (view E hasher hlog) key) e
          (ap (created hlog) (new_key_taken hlog.index key idx e)) refl
    | inl (x, e) ↦
        ap seen (ap (created hlog) (new_key_made hlog.index key x e))
        ∙ (ap (λ (l : Logs). (l, none))
              (view-write_back E hasher hlog hlog.entries key (new_safe_keylog_index key none))
            ∙ ap (spec_create hasher (view E hasher hlog) key)
                (sym (view_missing E hasher hlog key x e)))
  ]

  pub append_refines :
      (hlog : LogStore E) (entry : Entry)
      → TakesAll E
      → seen (obey E hasher hlog (appends entry)) ≡ spec hasher (view E hasher hlog) (appends entry)
  unfolding obey spec spec_append accept last append_entry get_key
  append_refines hlog entry takes = elim (Result-cases (IndexStore.get_key hlog.index entry.key)) [
    | inl (x, e) ↦
        obeyed_missing hlog entry.key (append_entry E hasher hlog entry) x
          (spec_append hasher (view E hasher hlog) entry) refl e (rw (e, append_entry) refl)
    | inr (idx, e) ↦ elim (Bool-cases (links (last idx) (or_nil entry.previous))) [
      | inl h ↦
          obeyed_found hlog entry.key (append_entry E hasher hlog entry) idx _
            (spec_append hasher (view E hasher hlog) entry) e
            (append_entry_taken E hasher hlog entry idx takes e h)
            (rw h (
              ap (λ (l : Logs). (l, none))
                (view-write_back E hasher hlog _ entry.key
                  (accept idx (hash hasher entry) entry.ltime))))
      | inr h ↦
          obeyed_found hlog entry.key (append_entry E hasher hlog entry) idx _
            (spec_append hasher (view E hasher hlog) entry) e
            (append_entry_left E hasher hlog entry idx takes e h)
            (rw h (
              ap (λ (l : Logs). (l, some previous_hash))
                (view-write_back E hasher hlog _ entry.key idx
                  ∙ update_same (view E hasher hlog) entry.key (some idx.entries)
                      (view_found E hasher hlog entry.key idx e))))
    ]
  ]
