-- ===== src/Node/Checks.antt =====
-- What `verifyEntry` of hexalog_utils.go lets through.
use hexalog.Prelude.{
  ℕ, ◌≡◌, ap, ◌∙◌, subst, true, Option, none, some, List, [], ◌∷◌, ◌++◌, Option-cases, inl, inr,
  if◌then◌else◌, arith,
}
use hexalog.Bytes.{
  Bytes, or_nil, equal, equal_iff, zero_bytes, is_zero_bytes, is_zero_bytes-zero_bytes,
}
use hexalog.Error.{Error, previous_hash, ok}
use hexalog.Entry.{Entry, hash}
use hexalog.Index.{UnsafeKeylogIndex, last, links}
use hexalog.IndexStore
use hexalog.Keylog
use hexalog.Keylog.Chain.{IsLinked}
use hexalog.Keylog.Chain.Distinct.{last_snoc}
use hexalog.LogStore
use hexalog.LogStore.Soundness.{IsSound}
use hexalog.LogStore.Appending.{TakesAll, append_entry_taken}
use hexalog.Node.{Config, Node, verify_entry, check_previous, last_of}

module _ (conf : Config) where
  -- The last id of a chain is the hash of the entry that `LastEntry` returns.
  pub last_held :
      (s : conf.entry_store.Store) (key : Bytes) (p : Option Bytes) (ids : List Bytes) (id : Bytes)
      → IsLinked conf.entry_store conf.hasher s key p (ids ++ id ∷ [])
      → (e : Entry) × (conf.entry_store.get s id ≡ ok e) × (hash conf.hasher e ≡ id)
  last_held s key p [] id c = (c.0.entry, c.0.stored, c.0.hashed)
  last_held s key p (x ∷ ids) id c = last_held s key (some x) ids id c.1

  abbrev compared : ℕ → Bytes → Bytes → ℕ × Option Error
  compared n prev id = (n, if equal prev id then none else some previous_hash)

  abbrev passed : ℕ → ℕ × Option Error
  passed n = (n, none)

  matched : (m n : ℕ) (prev id : Bytes) → compared m prev id ≡ passed n → equal prev id ≡ true
  matched m n prev id q = ground arith

  pub no_last :
      (hlog : Node conf) (key : Bytes) (idx : UnsafeKeylogIndex)
      → IndexStore.get_key hlog.store.index key ≡ ok idx
      → last idx ≡ none
      → LogStore.last_entry conf.entry_store conf.hasher hlog.store key ≡ none
  unfolding LogStore.last_entry Keylog.last_entry
  no_last hlog key idx found e = ground arith

  pub is_last :
      (hlog : Node conf) (key : Bytes) (idx : UnsafeKeylogIndex) (lid : Bytes) (w : Entry)
      → IndexStore.get_key hlog.store.index key ≡ ok idx
      → last idx ≡ some lid
      → conf.entry_store.get hlog.store.entries lid ≡ ok w
      → LogStore.last_entry conf.entry_store conf.hasher hlog.store key ≡ some w
  unfolding LogStore.last_entry Keylog.last_entry
  is_last hlog key idx lid w found e stored = ground arith

  checked_links :
      (hlog : Node conf) (entry : Entry) (idx : UnsafeKeylogIndex) (h : ℕ)
      → IsSound conf.entry_store conf.hasher hlog.store
      → IndexStore.get_key hlog.store.index entry.key ≡ ok idx
      → check_previous conf hlog entry ≡ (h, none)
      → links (last idx) (or_nil entry.previous) ≡ true
  unfolding links check_previous
  checked_links hlog entry idx h s found c = elim (Option-cases (last idx)) [
    | inl e ↦
        let m : equal (or_nil entry.previous) (zero_bytes conf.hasher.size) ≡ true =
          matches_last none (no_last hlog entry.key idx found e) in
        rw (e) (
          ap is_zero_bytes ((equal_iff (or_nil entry.previous) (zero_bytes conf.hasher.size)).0 m)
          ∙ is_zero_bytes-zero_bytes conf.hasher.size)
    | inr (lid, e) ↦
        let (ids, split) = last_snoc idx lid e in
        let (w, stored, hashed) = last_held hlog.store.entries entry.key none ids lid (
          subst (IsLinked conf.entry_store conf.hasher hlog.store.entries entry.key none) split
            (s.at entry.key idx found).chained) in
        let m : equal (or_nil entry.previous) (hash conf.hasher w) ≡ true =
          matches_last (some w) (is_last hlog entry.key idx lid w found e stored) in
        rw (e) (
          ground (
            arith,
            equal_iff (or_nil entry.previous) (hash conf.hasher w),
            equal_iff lid (or_nil entry.previous),
          ))
  ]
    where
      matches_last :
          (o : Option Entry)
          → LogStore.last_entry conf.entry_store conf.hasher hlog.store entry.key ≡ o
          → equal (or_nil entry.previous) (last_of conf o).1 ≡ true
      matches_last o le =
          matched (last_of conf o).0 h (or_nil entry.previous) (last_of conf o).1
            (rw (le, check_previous) at c)

  -- An entry that `verifyEntry` lets through, for a key that has a log, can be appended to it: if all
  -- logs are sound and the store takes every write, `AppendEntry` on the same state succeeds.
  pub verify_entry-appends :
      (hlog : Node conf) (entry : Entry) (idx : UnsafeKeylogIndex) (h : ℕ)
      → IsSound conf.entry_store conf.hasher hlog.store
      → TakesAll conf.entry_store
      → IndexStore.get_key hlog.store.index entry.key ≡ ok idx
      → verify_entry conf hlog entry ≡ (h, none)
      → (LogStore.append_entry conf.entry_store conf.hasher hlog.store entry).1 ≡ none
  unfolding verify_entry
  verify_entry-appends hlog entry idx h s takes found v = elim (Option-cases idx.marker) [
    | inr (m, e) ↦ absurd (ground (arith, found))
    | inl e ↦
        ap (λ (r : LogStore.LogStore conf.entry_store × Option Error). r.1)
          (append_entry_taken conf.entry_store conf.hasher hlog.store entry idx takes found
            (checked_links hlog entry idx h s found (passes e)))
  ]
    where
      passes : idx.marker ≡ none → check_previous conf hlog entry ≡ (h, none)
      passes e = rw e at (rw (found, verify_entry) at v)
