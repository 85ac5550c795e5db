-- ===== src/IndexStore.antt =====
-- store_index.go: the in-memory store of the indexes, one for each key. A method under the mutex is
-- one function; where the source hands out a pointer to an index, the model hands out its value, and
-- whoever changes it writes it back under its key (`write_back`).
pub mod Sorting
pub mod Lookup
use hexalog.Prelude.{
  ℕ, Bool, true, false, Option, none, some, List, [], ◌∷◌, ltb, ◌==◌, if◌then◌else◌,
}
use hexalog.Bytes.{Bytes}
use hexalog.Error.{Error, Result, ok, err, key_exists, key_not_found}
use hexalog.Map
use hexalog.Map.{Map}
use hexalog.Index.{UnsafeKeylogIndex, new_safe_keylog_index, set_marker}

pub record InMemIndexStore : Type 0 where
  pub m : Map UnsafeKeylogIndex

unfoldable pub new : InMemIndexStore
new = record { m = Map.empty }

unfoldable pub new_key : InMemIndexStore → Bytes → InMemIndexStore × Result UnsafeKeylogIndex
new_key store key = elim (Map.get store.m key) [
  | some kli ↦ (store, err key_exists)
  | none ↦ (
    record { m = Map.put store.m key (new_safe_keylog_index key none) },
    ok (new_safe_keylog_index key none),
  )
]

unfoldable pub write_back : InMemIndexStore → Bytes → UnsafeKeylogIndex → InMemIndexStore
write_back store key idx = record { m = Map.put store.m key idx }

unfoldable pub mark_key :
    InMemIndexStore → Bytes → Option Bytes → InMemIndexStore × UnsafeKeylogIndex
unfolding write_back
mark_key store key marker = elim (Map.get store.m key) [
  | some v ↦ (write_back store key (set_marker v marker).0, (set_marker v marker).0)
  | none ↦
      (write_back store key (new_safe_keylog_index key marker), new_safe_keylog_index key marker)
]

unfoldable pub get_key : InMemIndexStore → Bytes → Result UnsafeKeylogIndex
get_key store key = elim (Map.get store.m key) [ some v ↦ ok v | none ↦ err key_not_found ]

unfoldable pub remove_key : InMemIndexStore → Bytes → InMemIndexStore × Option Error
remove_key store key = elim (Map.get store.m key) [
  | some v ↦ (record { m = Map.remove store.m key }, none)
  | none ↦ (store, some key_not_found)
]

unfoldable pub count : InMemIndexStore → ℕ
count store = Map.size store.m

-- The order of Go's strings.
unfoldable pub less_eq : Bytes → Bytes → Bool
less_eq [] b = true
less_eq (x ∷ a) [] = false
less_eq (x ∷ a) (y ∷ b) =
    let rest = less_eq a b in if ltb x y then true else if x == y then rest else false

-- `sort.Strings`
insert_sorted : Bytes → List Bytes → List Bytes
insert_sorted k [] = k ∷ []
insert_sorted k (j ∷ ks) =
    let rest = insert_sorted k ks in if less_eq k j then k ∷ j ∷ ks else j ∷ rest

sort_strings : List Bytes → List Bytes
unfolding insert_sorted
sort_strings [] = []
sort_strings (k ∷ ks) = insert_sorted k (sort_strings ks)

unfoldable pub sorted_keys : InMemIndexStore → List Bytes
unfolding sort_strings
sorted_keys store = sort_strings (Map.keys store.m)

-- The loop of `Iter`, over a store that the callback does not change.
unfoldable pub each_key {ℓ} :
    {S : Type ℓ}
    → InMemIndexStore
    → (Bytes → UnsafeKeylogIndex → S → S × Option Error)
    → List Bytes
    → S
    → S × Option Error
each_key store cb [] s = (s, none)
each_key store cb (k ∷ ks) s = elim (Map.get store.m k) [
  | none ↦ each_key store cb ks s
  | some kli ↦
      let (s', e) = cb k kli s in elim e [ some x ↦ (s', some x) | none ↦ each_key store cb ks s' ]
]

unfoldable pub iter {ℓ} :
    {S : Type ℓ}
    → InMemIndexStore
    → (Bytes → UnsafeKeylogIndex → S → S × Option Error)
    → S
    → S × Option Error
unfolding each_key
iter store cb s = each_key store cb (sorted_keys store) s
