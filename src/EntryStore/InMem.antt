-- ===== src/EntryStore/InMem.antt =====
-- store_entry.go: the in-memory implementation of the interface. Each method stands under a mutex, so
-- its calls are these functions in turn.
use hexalog.Prelude.{ℕ, ◌≡◌, ap, Option, none, some, arith, if◌then◌else◌}
use hexalog.Bytes.{Bytes, equal, equal_iff}
use hexalog.Error.{Error, Result, ok, err, entry_not_found}
use hexalog.Entry.{Entry}
use hexalog.Map
use hexalog.Map.{Map}
use hexalog.EntryStore.{EntryStore}

pub record InMemEntryStore : Type 0 where
  pub m : Map Entry

unfoldable pub new : InMemEntryStore
new = record { m = Map.empty }

found : Option Entry → Result Entry
found none = err entry_not_found
found (some v) = ok v

unfoldable pub get : InMemEntryStore → Bytes → Result Entry
unfolding found
get store id = found (Map.get store.m id)

unfoldable pub set : InMemEntryStore → Bytes → Entry → InMemEntryStore × Option Error
set store id entry = (record { m = Map.put store.m id entry }, none)

unfoldable pub delete : InMemEntryStore → Bytes → InMemEntryStore × Option Error
delete store id = elim (Map.get store.m id) [
  | some v ↦ (record { m = Map.remove store.m id }, none)
  | none ↦ (store, some entry_not_found)
]

unfoldable pub count : InMemEntryStore → ℕ
count store = Map.size store.m

pub get-set :
    (s : InMemEntryStore) (id j : Bytes) (e : Entry)
    → get (set s id e).0 j ≡ (if equal id j then ok e else get s j)
unfolding get set
get-set s id j e = rw (Map.get-put s.m id j e) (ground arith)

pub get-delete :
    (s : InMemEntryStore) (id j : Bytes)
    → get (delete s id).0 j ≡ (if equal id j then err entry_not_found else get s j)
unfolding get delete
get-delete s id j = ground (arith, Map.get-remove s.m id j, equal_iff id j)

pub never_failed :
    (s : InMemEntryStore) (id : Bytes) (e : Entry) (x : Error) → (set s id e).1 ≡ some x → ⊥
unfolding set
never_failed s id e x h = cc

pub delete_failed :
    (s : InMemEntryStore) (id : Bytes) (x : Error) → (delete s id).1 ≡ some x → (delete s id).0 ≡ s
unfolding delete
delete_failed s id x h = ground arith

abbrev pub in_mem_entry_store : EntryStore
in_mem_entry_store = record {
  Store = InMemEntryStore;
  get = get;
  set = set;
  delete = delete;
  count = count;
  get-set = λ s id j e h. get-set s id j e;
  get-set_failed = λ s id j e x h. absurd (never_failed s id e x h);
  get-delete = λ s id j h. get-delete s id j;
  get-delete_failed = λ s id j x h. ap (λ (t : InMemEntryStore). get t j) (delete_failed s id x h);
}
