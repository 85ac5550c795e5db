-- ===== src/Heal/Seeding.antt =====
-- `Seed` of hexalog.go: a node fetches the keys of another. The seeds are taken in the order in which
-- the workers take them from the channel, and a worker's call runs from its start to its end.
pub mod Filling
pub mod Fresh
pub mod Whole
use hexalog.Prelude.{ℕ, ◌+◌, Option, none, some, List, [], ◌∷◌}
use hexalog.Bytes.{Bytes, or_nil}
use hexalog.Error.{Error, Result, ok, err}
use hexalog.LogStore.{KeySeed}
use hexalog.Node.{Config, Node}
use hexalog.Heal.{Pull, check_last_entry_or_pull}

module _ (conf : Config) where
  -- The loop of the workers, and how many keys went well.
  unfoldable pub seed_all : Node conf → Bytes → List KeySeed → Pull conf → ℕ → ℕ → Node conf × ℕ
  seed_all hlog host [] pull now c = (hlog, c)
  seed_all hlog host (s ∷ seeds) pull now c =
      let (hlog', e) = check_last_entry_or_pull conf hlog host s.key (or_nil s.marker) pull now in
      elim e [
        | some x ↦ seed_all hlog' host seeds pull now c
        | none ↦ seed_all hlog' host seeds pull now (c + 1)
      ]

  -- `stream` is what `GetSeedKeys` gives: the seeds, and the error that ends them.
  unfoldable pub seed :
      Node conf
      → Bytes
      → Result (List KeySeed × Option Error)
      → Pull conf
      → ℕ
      → Node conf × Option Error
  unfolding seed_all
  seed hlog existing stream pull now = elim stream [
    | err x ↦ (hlog, some x)
    | ok t ↦ ((seed_all hlog existing t.0 pull now 0).0, t.1)
  ]
