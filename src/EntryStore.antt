-- ===== src/EntryStore.antt =====
-- The interface `EntryStore` of store.go, with what the log relies on.
pub mod InMem
use hexalog.Prelude.{ℕ, ◌≡◌, Option, none, some, if◌then◌else◌}
use hexalog.Bytes.{Bytes, equal}
use hexalog.Error.{Error, Result, ok, err, entry_not_found}
use hexalog.Entry.{Entry}

-- What the log asks of a store: a write or a delete that succeeds has its effect and no other, and
-- one that fails has none.
pub record EntryStore : Type 1 where
  pub Store : Type 0
  pub get : Store → Bytes → Result Entry
  pub set : Store → Bytes → Entry → Store × Option Error
  pub delete : Store → Bytes → Store × Option Error
  pub count : Store → ℕ
  pub get-set :
      (s : Store) (id j : Bytes) (e : Entry)
      → (set s id e).1 ≡ none
      → get (set s id e).0 j ≡ (if equal id j then ok e else get s j)
  pub get-set_failed :
      (s : Store) (id j : Bytes) (e : Entry) (x : Error)
      → (set s id e).1 ≡ some x
      → get (set s id e).0 j ≡ get s j
  pub get-delete :
      (s : Store) (id j : Bytes)
      → (delete s id).1 ≡ none
      → get (delete s id).0 j ≡ (if equal id j then err entry_not_found else get s j)
  pub get-delete_failed :
      (s : Store) (id j : Bytes) (x : Error)
      → (delete s id).1 ≡ some x
      → get (delete s id).0 j ≡ get s j
