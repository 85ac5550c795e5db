-- ===== src/LogStore/Soundness.antt =====
-- The logs of all keys (logstore.go): each is a chain, and the methods keep them so.
use hexalog.Prelude.{
  ◌≡◌, refl, sym, ap, ◌∙◌, subst, ◌⊎◌, inl, inr, false, none, Bool-cases, Option-cases,
  if◌then◌else◌,
}
use hexalog.Bytes.{Bytes, equal, equal_iff}
use hexalog.Error.{Error, Result, ok, err}
use hexalog.Entry.{Entry, Hasher, hash}
use hexalog.EntryStore.{EntryStore}
use hexalog.Index.{UnsafeKeylogIndex, new_safe_keylog_index}
use hexalog.IndexStore
use hexalog.IndexStore.Lookup.{get_key-write_back, get_key-new_key, new_key_exists, get_key_error}
use hexalog.Keylog.{Keylog}
use hexalog.Keylog
use hexalog.Keylog.Chain.{NoClash, IsLinked-set}
use hexalog.Keylog.Chain.Distinct.{NeverZero, IsChain, append_entry-IsChain}
use hexalog.LogStore.{LogStore, get_key, new_key, append_entry, write_back}

pub Result-cases {ℓ} :
    {A : Type ℓ} (r : Result A) → ((x : Error) × (r ≡ err x)) ⊎ ((a : A) × (r ≡ ok a))
Result-cases (err x) = inl (x, refl)
Result-cases (ok a) = inr (a, refl)

module _ (E : EntryStore) (hasher : Hasher) where
  -- The index of every key is a chain of entries of that key, with no id twice.
  pub record IsSound (hlog : LogStore E) : Type 0 where
    pub at :
        (key : Bytes) (idx : UnsafeKeylogIndex)
        → IndexStore.get_key hlog.index key ≡ ok idx
        → IsChain E hasher (record { entries = hlog.entries; idx = idx }) key

  pub entries-append_entry :
      (keylog : Keylog E) (entry : Entry)
      → (Keylog.append_entry E hasher keylog entry).0.entries
        ≡ (E.set keylog.entries (hash hasher entry) entry).0
  unfolding Keylog.append_entry
  entries-append_entry keylog entry =
      elim (Option-cases (E.set keylog.entries (hash hasher entry) entry).1) [
        | inl e ↦ rw (e, Keylog.append_entry)
        | inr (x, e) ↦ rw (e, Keylog.append_entry)
      ]

  -- Writing a keylog back keeps all logs sound if it is a chain of its key, and if its entry store
  -- still has the chains of the other keys.
  pub write_back-IsSound :
      (hlog : LogStore E) (key : Bytes) (keylog : Keylog E)
      → IsChain E hasher keylog key
      → ((j : Bytes) (idx : UnsafeKeylogIndex)
          → equal key j ≡ false
          → IndexStore.get_key hlog.index j ≡ ok idx
          → IsChain E hasher (record { entries = keylog.entries; idx = idx }) j)
      → IsSound (write_back E hasher hlog key keylog)
  write_back-IsSound hlog key keylog c others = record {
    at = λ j idx h. elim (Bool-cases (equal key j)) [
      | inr other ↦
          others j idx other
            (rw other at (sym (get_key-write_back hlog.index key j keylog.idx) ∙ h))
      | inl same ↦
          let now : ok keylog.idx ≡ ok idx =
            rw same at (sym (get_key-write_back hlog.index key j keylog.idx) ∙ h) in
          let that : keylog.idx ≡ idx = cc in
          subst (λ i. IsChain E hasher (record { entries = keylog.entries; idx = i }) j) that
            (subst (IsChain E hasher keylog) ((equal_iff key j).0 same) c)
    ];
  }

  -- `AppendEntry` keeps all logs sound, whether the key is missing, the store fails, the entry
  -- does not link to the last one, or it is taken. The hash function never returns the zero hash,
  -- and the store has no other entry under the id of this one.
  pub append_entry-IsSound :
      (hlog : LogStore E) (entry : Entry)
      → NeverZero hasher
      → NoClash E hasher hlog.entries entry
      → IsSound hlog
      → IsSound (append_entry E hasher hlog entry).0
  unfolding append_entry get_key
  append_entry-IsSound hlog entry z clear s =
      elim (Result-cases (IndexStore.get_key hlog.index entry.key)) [
        | inl (x, e) ↦ rw (e, append_entry) s
        | inr (idx, e) ↦ rw (e, append_entry) (after idx e)
      ]
    where
      before : UnsafeKeylogIndex → Keylog E
      before idx = record { entries = hlog.entries; idx = idx }

      others :
          (idx : UnsafeKeylogIndex) (j : Bytes) (idx' : UnsafeKeylogIndex)
          → IndexStore.get_key hlog.index j ≡ ok idx'
          → IsChain E hasher
              (record {
                entries = (Keylog.append_entry E hasher (before idx) entry).0.entries;
                idx = idx';
              })
              j
      others idx j idx' h =
          let c = s.at j idx' h in
          rw (entries-append_entry (before idx) entry) (record {
            chained = IsLinked-set E hasher hlog.entries entry j none idx'.entries clear c.chained;
            distinct = c.distinct;
          })

      after :
          (idx : UnsafeKeylogIndex)
          → IndexStore.get_key hlog.index entry.key ≡ ok idx
          → IsSound (
              write_back E hasher hlog entry.key
                (Keylog.append_entry E hasher (before idx) entry).0)
      after idx e =
          write_back-IsSound hlog entry.key (Keylog.append_entry E hasher (before idx) entry).0
            (append_entry-IsChain E hasher (before idx) entry.key entry z clear refl
              (s.at entry.key idx e))
            (λ j idx' _ h. others idx j idx' h)

  pub index-new_key :
      (hlog : LogStore E) (key : Bytes)
      → (new_key E hasher hlog key).0
        ≡ record hlog { index = (IndexStore.new_key hlog.index key).0 }
  unfolding new_key
  index-new_key hlog key = elim (Result-cases (IndexStore.new_key hlog.index key).1) [
    | inl (x, e) ↦ rw (e, new_key)
    | inr (idx, e) ↦ rw (e, new_key)
  ]

  empty-IsChain :
      (entries : E.Store) (key : Bytes)
      → IsChain E hasher (record { entries = entries; idx = new_safe_keylog_index key none }) key
  unfolding new_safe_keylog_index
  empty-IsChain entries key = record { chained = tt; distinct = tt }

  -- `NewKey` keeps all logs sound, whether the key is there already or gets an empty log.
  pub new_key-IsSound :
      (hlog : LogStore E) (key : Bytes) → IsSound hlog → IsSound (new_key E hasher hlog key).0
  new_key-IsSound hlog key s =
      rw (index-new_key hlog key) (elim (Result-cases (IndexStore.get_key hlog.index key)) [
        | inr (idx, e) ↦ record {
          at = λ j idx' h.
              s.at j idx'
                (ap (λ t. IndexStore.get_key t j) (sym (new_key_exists hlog.index key idx e)) ∙ h);
        }
        | inl (x, e) ↦ record {
          at = λ j idx' h. made j idx' (
              sym (
                get_key-new_key hlog.index key j
                  (e ∙ ap (λ (y : Error). err y) (get_key_error hlog.index key x e)))
              ∙ h);
        }
      ])
    where
      made :
          (j : Bytes) (idx : UnsafeKeylogIndex)
          → (if equal key j
              then ok (new_safe_keylog_index key none)
              else IndexStore.get_key hlog.index j)
            ≡ ok idx
          → IsChain E hasher (record { entries = hlog.entries; idx = idx }) j
      made j idx h = elim (Bool-cases (equal key j)) [
        | inr other ↦ s.at j idx (rw other at h)
        | inl same ↦
            let now : ok (new_safe_keylog_index key none) ≡ ok idx = rw same at h in
            let that : new_safe_keylog_index key none ≡ idx = cc in
            subst (λ i. IsChain E hasher (record { entries = hlog.entries; idx = i }) j) that
              (subst
                (λ k.
                  IsChain E hasher
                    (record { entries = hlog.entries; idx = new_safe_keylog_index key none }) k)
                ((equal_iff key j).0 same) (empty-IsChain hlog.entries key))
      ]
