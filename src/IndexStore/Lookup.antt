-- ===== src/IndexStore/Lookup.antt =====
-- What `GetKey` finds after the calls that change the store (store_index.go).
use hexalog.Prelude.{◌≡◌, none, arith, if◌then◌else◌}
use hexalog.Bytes.{Bytes, equal, equal_iff}
use hexalog.Error.{Error, ok, err, key_not_found}
use hexalog.Map.{get-put, get-remove}
use hexalog.Index.{UnsafeKeylogIndex, new_safe_keylog_index}
use hexalog.IndexStore.{InMemIndexStore, new_key, write_back, get_key, remove_key}

pub get_key-write_back :
    (s : InMemIndexStore) (k j : Bytes) (idx : UnsafeKeylogIndex)
    → get_key (write_back s k idx) j ≡ (if equal k j then ok idx else get_key s j)
unfolding get_key write_back
get_key-write_back s k j idx = ground (arith, get-put s.m k j idx)

-- `NewKey` makes an empty index where there is none, and nothing else.
pub get_key-new_key :
    (s : InMemIndexStore) (k j : Bytes)
    → get_key s k ≡ err key_not_found
    → get_key (new_key s k).0 j
      ≡ (if equal k j then ok (new_safe_keylog_index k none) else get_key s j)
unfolding get_key new_key
get_key-new_key s k j h = ground (arith, get-put s.m k j (new_safe_keylog_index k none))

pub new_key_exists :
    (s : InMemIndexStore) (k : Bytes) (idx : UnsafeKeylogIndex)
    → get_key s k ≡ ok idx
    → (new_key s k).0 ≡ s
unfolding get_key new_key
new_key_exists s k idx h = ground arith

pub get_key-remove_key :
    (s : InMemIndexStore) (k j : Bytes)
    → get_key (remove_key s k).0 j ≡ (if equal k j then err key_not_found else get_key s j)
unfolding get_key remove_key
get_key-remove_key s k j = ground (arith, get-remove s.m k j, equal_iff k j)

pub get_key_error :
    (s : InMemIndexStore) (k : Bytes) (x : Error) → get_key s k ≡ err x → x ≡ key_not_found
unfolding get_key
get_key_error s k x h = ground arith

pub remove_key_found :
    (s : InMemIndexStore) (k : Bytes) (idx : UnsafeKeylogIndex)
    → get_key s k ≡ ok idx
    → (remove_key s k).1 ≡ none
unfolding get_key remove_key
remove_key_found s k idx h = ground arith
