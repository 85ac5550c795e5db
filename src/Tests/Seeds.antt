-- ===== src/Tests/Seeds.antt =====
-- A node without keys that seeds from a node with one key.
use hexalog.Prelude.{
  if◌then◌else◌, ◌≡◌, refl, sym, ◌∙◌, subst, none, some, Bool-cases, inl, inr, [], ◌∷◌,
}
use hexalog.Bytes.{Bytes, equal, equal_iff, equal_refl, is_zero_bytes, big_endian}
use hexalog.Error.{ok, err, key_not_found}
use hexalog.Entry.{encode, hash}
use hexalog.EntryStore.InMem.{in_mem_entry_store}
use hexalog.EntryStore.InMem
use hexalog.Map
use hexalog.Map.{Differ, put-Differ}
use hexalog.Index.{UnsafeKeylogIndex, new_safe_keylog_index}
use hexalog.Index
use hexalog.IndexStore
use hexalog.IndexStore.Lookup.{get_key-write_back}
use hexalog.Keylog.{Keylog}
use hexalog.Keylog
use hexalog.Keylog.Chain.Distinct.{IsChain}
use hexalog.LogStore.Soundness.{IsSound}
use hexalog.Node.{Node}
use hexalog.Transfer.{key_of}
use hexalog.Heal.{blank}
use hexalog.Heal.CatchUp.{served_by}
use hexalog.Heal.Seeding.{seed}
use hexalog.Heal.Seeding.Filling.{Copied}
use hexalog.Heal.Seeding.Fresh.{Complete, seed-copies}
use hexalog.Rpc.{seed_keys_rpc}
use hexalog.Tests.Data.{conf, toy_hasher-NeverZero, key, checksum}
use hexalog.Tests.Logs.{keylog_2, two-IsChain}
use hexalog.Tests.Transfers.{remote, takes_all}

abbrev fresh : Node conf
fresh = record remote { store = record { index = IndexStore.new; entries = InMem.new } }

lacks_all : (j : Bytes) → IndexStore.get_key fresh.store.index j ≡ err key_not_found
unfolding IndexStore.get_key IndexStore.new Map.get Map.empty
lacks_all j = refl

found_at :
    (j : Bytes)
    → IndexStore.get_key remote.store.index j
      ≡ (if equal key j then ok keylog_2.idx else IndexStore.get_key IndexStore.new j)
found_at j = get_key-write_back IndexStore.new key j keylog_2.idx

-- The only key, and its log.
only_key :
    (P : Bytes → UnsafeKeylogIndex → Type 0)
    → P key keylog_2.idx
    → (j : Bytes) (idx : UnsafeKeylogIndex) → IndexStore.get_key remote.store.index j ≡ ok idx
    → P j idx
only_key P h j idx e = elim (Bool-cases (equal key j)) [
  | inl same ↦
      let at : ok keylog_2.idx ≡ ok idx = sym (found_at j ∙ rw same refl) ∙ e in
      let is : keylog_2.idx ≡ idx = cc in
      subst (λ (k : Bytes). P k idx) ((equal_iff key j).0 same) (subst (P key) is h)
  | inr other ↦
      let none_there : IndexStore.get_key remote.store.index j ≡ err key_not_found =
        found_at j ∙ rw other (lacks_all j) in
      absurd cc
]

remote-IsSound : IsSound conf.entry_store conf.hasher remote.store
remote-IsSound = record {
  at =
      only_key
        (λ j i.
          IsChain conf.entry_store conf.hasher (record { entries = remote.store.entries; idx = i })
            j)
        two-IsChain;
}

remote_differs : Differ (Map.keys remote.store.index.m)
unfolding Map.keys Map.put Map.empty IndexStore.write_back IndexStore.new
remote_differs = put-Differ Map.empty key keylog_2.idx tt

remote-Complete : Complete conf remote
unfolding InMem.get InMem.set InMem.new Map.get Map.put Map.empty equal hash encode checksum
    big_endian Keylog.append_entry Index.append Index.last Index.links Index.accept is_zero_bytes
    new_safe_keylog_index
remote-Complete =
    only_key (λ j i. (i.marker ≡ none) × (key_of conf (some (blank j)) ≡ some j)) (refl, refl)

remote_found : IndexStore.get_key remote.store.index key ≡ ok keylog_2.idx
remote_found = found_at key ∙ rw (equal_refl key) refl

seed-copies_example :
    ((seed conf fresh (98 ∷ []) (ok (seed_keys_rpc conf remote)) (served_by conf remote) 8).1
      ≡ none)
    × Copied conf
        (seed conf fresh (98 ∷ []) (ok (seed_keys_rpc conf remote)) (served_by conf remote) 8).0
        remote
        key
seed-copies_example =
    seed-copies conf fresh remote (98 ∷ []) 8 key keylog_2.idx takes_all toy_hasher-NeverZero
      remote-IsSound remote_differs remote-Complete lacks_all remote_found
