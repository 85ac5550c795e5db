-- ===== src/Heal/Seeding/Fresh.antt =====
-- A node without keys that seeds from another (`Seed` of hexalog.go with `SeedKeysRPC` of net.go).
use hexalog.Prelude.{
  ℕ, suc, zero, ◌≡◌, refl, ap, ◌∙◌, false, Option, none, some, List, [], ◌∷◌, map, length,
  get_last?, arith, All, Option-cases, inl, inr,
}
use hexalog.Bytes.{
  Bytes, or_nil, equal, equal_iff, zero_bytes, is_zero_bytes, is_zero_bytes-zero_bytes,
}
use hexalog.Error.{ok, err, key_not_found}
use hexalog.Index.{UnsafeKeylogIndex, last}
use hexalog.IndexStore
use hexalog.IndexStore.{sorted_keys}
use hexalog.IndexStore.Sorting.{sorted_keys-Differ, sorted_keys-All}
use hexalog.Keylog.Chain.Distinct.{IsChain, NeverZero, nonzero_last}
use hexalog.LogStore.{KeySeed}
use hexalog.LogStore.Appending.{TakesAll}
use hexalog.LogStore.Soundness.{IsSound}
use hexalog.Map
use hexalog.Map.{Differ}
use hexalog.Node.{Config, Node}
use hexalog.Transfer.{key_of}
use hexalog.Heal.{blank}
use hexalog.Heal.CatchUp.{served_by}
use hexalog.Heal.Seeding.{seed}
use hexalog.Heal.Seeding.Filling.{Offered, Copied, Missing, Apart}
use hexalog.Heal.Seeding.Whole.{seed-Copied}
use hexalog.Rpc.{seed_keys_rpc}
use hexalog.Rpc.Answers.{IsSeed, target, seed_keys_rpc-sorted_keys}

Apart-map :
    (conf : Config) (seeds : List KeySeed)
    → Differ (map (λ (s : KeySeed). s.key) seeds)
    → Apart conf seeds
Apart-map conf [] d = tt
Apart-map conf (s ∷ seeds) d = (spread seeds d.0, Apart-map conf seeds d.1)
  where
    spread :
        (ts : List KeySeed)
        → All (λ (j : Bytes). equal s.key j ≡ false) (map (λ (t : KeySeed). t.key) ts)
        → All (λ (t : KeySeed). equal s.key t.key ≡ false) ts
    spread [] h = tt
    spread (t ∷ ts) h = (h.0, spread ts h.1)

module _ (conf : Config) where
  -- Nothing is being filled, and the keys are not empty.
  abbrev pub Complete : Node conf → Type 0
  Complete remote =
      (key : Bytes) (idx : UnsafeKeylogIndex)
      → IndexStore.get_key remote.store.index key ≡ ok idx
      → (idx.marker ≡ none) × (key_of conf (some (blank key)) ≡ some key)

  not_empty :
      (n : ℕ) (b : Bytes) → length b ≡ n → is_zero_bytes b ≡ false → equal (zero_bytes n) [] ≡ false
  unfolding is_zero_bytes equal
  not_empty zero [] e h = absurd cc
  not_empty zero (v ∷ b) e h = absurd (omega arith)
  not_empty (suc n) b e h = refl

  not_zero : (n : ℕ) (l : Bytes) → is_zero_bytes l ≡ false → equal (zero_bytes n) l ≡ false
  not_zero n l h = ground (arith, equal_iff (zero_bytes n) l, is_zero_bytes-zero_bytes n)

  ends_otherwise :
      (remote : Node conf) (key : Bytes) (idx : UnsafeKeylogIndex)
      → NeverZero conf.hasher
      → IsChain conf.entry_store conf.hasher
          (record { entries = remote.store.entries; idx = idx })
          key
      → idx.marker ≡ none
      → equal (zero_bytes conf.hasher.size) (or_nil (target idx)) ≡ false
  unfolding last
  ends_otherwise remote key idx z c unmarked =
      rw unmarked (elim (Option-cases (get_last? idx.entries)) [
        | inl e ↦
            rw e
              (not_empty conf.hasher.size (conf.hasher.sum []) (conf.hasher.length-sum []) (z []))
        | inr (l, e) ↦ rw e (
            not_zero conf.hasher.size l (
              nonzero_last conf.entry_store conf.hasher remote.store.entries key none idx.entries l
                z c.chained e))
      ])

  Offered-all :
      (remote : Node conf) (seeds : List KeySeed)
      → NeverZero conf.hasher
      → IsSound conf.entry_store conf.hasher remote.store
      → Complete remote
      → All (IsSeed conf remote) seeds
      → All (Offered conf remote) seeds
  Offered-all remote [] z sound whole hs = tt
  Offered-all remote (s ∷ seeds) z sound whole hs =
      let c = sound.at s.key hs.0.index hs.0.found in
      let ready = whole s.key hs.0.index hs.0.found in
      (
        record {
          idx = hs.0.index;
          found = hs.0.found;
          chain = c;
          named = ready.1;
          ends =
              ap (λ (b : Option Bytes). equal (zero_bytes conf.hasher.size) (or_nil b)) hs.0.marked
              ∙ ends_otherwise remote s.key hs.0.index z c ready.0;
        },
        Offered-all remote seeds z sound whole hs.1,
      )

  Missing-all :
      (local : Node conf) (seeds : List KeySeed)
      → ((key : Bytes) → IndexStore.get_key local.store.index key ≡ err key_not_found)
      → All (Missing conf local) seeds
  Missing-all local [] h = tt
  Missing-all local (s ∷ seeds) h = (h s.key, Missing-all local seeds h)

  -- A node without keys that seeds from a sound node ends without an error, and then has any key of that
  -- node with the same ids in the same order. The store of the new node takes every write, the hash function
  -- never returns the zero hash, and on the other node no log is being filled, no key is empty, and no key
  -- stands twice in the index.
  pub seed-copies :
      (local remote : Node conf) (host : Bytes) (now : ℕ) (key : Bytes) (idx : UnsafeKeylogIndex)
      → TakesAll conf.entry_store
      → NeverZero conf.hasher
      → IsSound conf.entry_store conf.hasher remote.store
      → Differ (Map.keys remote.store.index.m)
      → Complete remote
      → ((j : Bytes) → IndexStore.get_key local.store.index j ≡ err key_not_found)
      → IndexStore.get_key remote.store.index key ≡ ok idx
      → ((seed conf local host (ok (seed_keys_rpc conf remote)) (served_by conf remote) now).1
          ≡ none)
        × Copied conf
            (seed conf local host (ok (seed_keys_rpc conf remote)) (served_by conf remote) now).0
            remote
            key
  unfolding IndexStore.get_key
  seed-copies local remote host now key idx takes z sound differ whole fresh found =
      let (seeds, sent, keys, good) = seed_keys_rpc-sorted_keys conf remote in
      let (fine, all) =
        seed-Copied conf local remote host seeds now takes (Missing-all local seeds fresh)
          (Offered-all remote seeds z sound whole good)
          (Apart-map conf seeds (rw keys (sorted_keys-Differ remote.store.index differ))) in
      let held : Map.get remote.store.index.m key ≡ some idx = ground arith in
      rw sent (
        fine,
        Map.All-keys (Copied conf _ remote) remote.store.index.m key idx
            (sorted_keys-All (Copied conf _ remote) remote.store.index (rw keys at all)) held,
      )
