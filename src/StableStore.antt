-- ===== src/StableStore.antt =====
-- store_stable.go: the in-memory store of the id that each key applied last.
pub mod Laws
use hexalog.Prelude.{ℕ, Option, none, some, List, [], ◌∷◌}
use hexalog.Bytes.{Bytes}
use hexalog.Error.{Error, Result, ok, err, key_not_found}
use hexalog.Map
use hexalog.Map.{Map}

pub record InMemStableStore : Type 0 where
  pub m : Map Bytes

-- `Open`, which empties the store.
unfoldable pub opened : InMemStableStore → InMemStableStore × Option Error
opened store = (record { m = Map.empty }, none)

unfoldable pub get : InMemStableStore → Bytes → Result Bytes
get store key = elim (Map.get store.m key) [ some val ↦ ok val | none ↦ err key_not_found ]

unfoldable pub set : InMemStableStore → Bytes → Bytes → InMemStableStore × Option Error
set store key value = (record { m = Map.put store.m key value }, none)

-- The loop of `Iter`, over the keys in an order of the map's own.
each_pair {ℓ} :
    {S : Type ℓ}
    → InMemStableStore
    → (Bytes → Bytes → S → S × Option Error)
    → List Bytes
    → S
    → S × Option Error
each_pair store cb [] s = (s, none)
each_pair store cb (k ∷ ks) s = elim (Map.get store.m k) [
  | none ↦ each_pair store cb ks s
  | some v ↦
      let (s', e) = cb k v s in elim e [ some x ↦ (s', some x) | none ↦ each_pair store cb ks s' ]
]

unfoldable pub iter {ℓ} :
    {S : Type ℓ} → InMemStableStore → (Bytes → Bytes → S → S × Option Error) → S → S × Option Error
unfolding each_pair
iter store cb s = each_pair store cb (Map.keys store.m) s
