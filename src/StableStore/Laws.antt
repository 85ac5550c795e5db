-- ===== src/StableStore/Laws.antt =====
-- The in-memory store (store_stable.go) as the stable store that fsm.go calls.
use hexalog.Prelude.{◌≡◌, if◌then◌else◌, arith}
use hexalog.Bytes.{Bytes, equal}
use hexalog.Error.{ok}
use hexalog.Map.{get-put}
use hexalog.StableStore.{InMemStableStore, get, set}
use hexalog.Machine.{StableStore}

pub get-set :
    (s : InMemStableStore) (key j val : Bytes)
    → get (set s key val).0 j ≡ (if equal key j then ok val else get s j)
unfolding get set
get-set s key j val = ground (arith, get-put s.m key j val)

abbrev pub in_mem_stable_store : StableStore
in_mem_stable_store = record {
  Store = InMemStableStore;
  get = get;
  set = set;
  get-set = λ s key j val h. get-set s key j val;
}
