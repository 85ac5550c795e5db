-- ===== src/Heal/Seeding/Whole.antt =====
-- What a node has once it has seeded from another (`Seed` of hexalog.go).
use hexalog.Prelude.{
  ℕ, ◌+◌, ◌≡◌, refl, sym, ap, ◌∙◌, false, Option, none, some, List, [], ◌∷◌, map, subst, arith,
  length, All,
}
use hexalog.Bytes.{Bytes, or_nil, equal, equal_iff}
use hexalog.Error.{Error, ok}
use hexalog.IndexStore
use hexalog.LogStore.{KeySeed}
use hexalog.LogStore.Appending.{TakesAll}
use hexalog.Node.{Config, Node}
use hexalog.Heal.CatchUp.{served_by}
use hexalog.Heal.Seeding.{seed_all, seed}
use hexalog.Heal.Seeding.Filling.{
  filled, asks_for_all, no_error, Offered, Copied, Missing, Apart, filled-Copied, filled_other,
}

module _ (conf : Config) where
  still-Missing :
      (local remote : Node conf) (s : KeySeed) (seeds : List KeySeed) (now : ℕ)
      → Missing conf local s
      → Offered conf remote s
      → All (λ (t : KeySeed). equal s.key t.key ≡ false) seeds
      → All (Missing conf local) seeds
      → All (Missing conf (filled conf local remote s.key now)) seeds
  still-Missing local remote s [] now m o n ms = tt
  still-Missing local remote s (t ∷ seeds) now m o n ms = (
    filled_other conf local remote s now t.key m o n.0 ∙ ms.0,
    still-Missing local remote s seeds now m o n.1 ms.1,
  )

  seed_all-step :
      (local remote : Node conf) (host : Bytes) (s : KeySeed) (seeds : List KeySeed) (now c : ℕ)
      → Missing conf local s
      → Offered conf remote s
      → seed_all conf local host (s ∷ seeds) (served_by conf remote) now c
        ≡ seed_all conf
            (filled conf local remote s.key now)
            host
            seeds
            (served_by conf remote)
            now
            (c + 1)
  unfolding seed_all
  seed_all-step local remote host s seeds now c m o =
      ap (goes_on _) (no_error conf local remote host s.key (or_nil s.marker) now m o.ends)
      ∙ ap (λ (h : Node conf). seed_all conf h host seeds (served_by conf remote) now (c + 1))
          (asks_for_all conf local remote host s.key (or_nil s.marker) now m o.ends)
    where
      goes_on : Node conf → Option Error → Node conf × ℕ
      goes_on h e = elim e [
        | some x ↦ seed_all conf h host seeds (served_by conf remote) now c
        | none ↦ seed_all conf h host seeds (served_by conf remote) now (c + 1)
      ]

  -- What the rest of the seeds leaves alone.
  seed_all-other :
      (local remote : Node conf) (host : Bytes) (seeds : List KeySeed) (now c : ℕ) (j : Bytes)
      → All (Missing conf local) seeds
      → All (Offered conf remote) seeds
      → Apart conf seeds
      → All (λ (t : KeySeed). equal j t.key ≡ false) seeds
      → IndexStore.get_key
          (seed_all conf local host seeds (served_by conf remote) now c).0.store.index
          j
        ≡ IndexStore.get_key local.store.index j
  unfolding seed_all
  seed_all-other local remote host [] now c j ms os apart n = refl
  seed_all-other local remote host (s ∷ seeds) now c j ms os apart n =
      ap (λ (t : Node conf × ℕ). IndexStore.get_key t.0.store.index j)
        (seed_all-step local remote host s seeds now c ms.0 os.0)
      ∙ seed_all-other (filled conf local remote s.key now) remote host seeds now (c + 1) j
          (still-Missing local remote s seeds now ms.0 os.0 apart.0 ms.1) os.1 apart.1 n.1
      ∙ filled_other conf local remote s now j ms.0 os.0
          (ground (arith, n.0, equal_iff j s.key, equal_iff s.key j))

  copies :
      (local remote : Node conf) (host : Bytes) (seeds : List KeySeed) (now c : ℕ)
      → TakesAll conf.entry_store
      → All (Missing conf local) seeds
      → All (Offered conf remote) seeds
      → Apart conf seeds
      → All
          (Copied conf (seed_all conf local host seeds (served_by conf remote) now c).0 remote)
          (map (λ (t : KeySeed). t.key) seeds)
        × ((seed_all conf local host seeds (served_by conf remote) now c).1 ≡ c + length seeds)
  unfolding seed_all
  copies local remote host [] now c takes ms os apart = (tt, omega arith)
  copies local remote host (s ∷ seeds) now c takes ms os apart =
      let after = filled conf local remote s.key now in
      let rest = still-Missing local remote s seeds now ms.0 os.0 apart.0 ms.1 in
      let (all, many) = copies after remote host seeds now (c + 1) takes rest os.1 apart.1 in
      let one = filled-Copied conf local remote s now takes ms.0 os.0 in
      let step = seed_all-step local remote host s seeds now c ms.0 os.0 in
      subst
        (λ (t : Node conf × ℕ).
          All (Copied conf t.0 remote) (map (λ (u : KeySeed). u.key) (s ∷ seeds))
          × (t.1 ≡ c + length (s ∷ seeds)))
        (sym step)
        (
          (
            record {
              mine = one.mine;
              theirs = one.theirs;
              found =
                  seed_all-other after remote host seeds now (c + 1) s.key rest os.1 apart.1 apart.0
                  ∙ one.found;
              offered = one.offered;
              same = one.same;
            },
            all,
          ),
          (many ∙ omega arith),
        )

  -- Seeding from a stream whose keys are all missing on the node, differ from one another, and have on the other
  -- node a log that can be sent as a whole: no error, and both nodes have the same log of each key.
  pub seed-Copied :
      (local remote : Node conf) (host : Bytes) (seeds : List KeySeed) (now : ℕ)
      → TakesAll conf.entry_store
      → All (Missing conf local) seeds
      → All (Offered conf remote) seeds
      → Apart conf seeds
      → ((seed conf local host (ok (seeds, none)) (served_by conf remote) now).1 ≡ none)
        × All
            (Copied conf
              (seed conf local host (ok (seeds, none)) (served_by conf remote) now).0
              remote)
            (map (λ (t : KeySeed). t.key) seeds)
  unfolding seed
  seed-Copied local remote host seeds now takes ms os apart =
      (refl, (copies local remote host seeds now 0 takes ms os apart).0)
