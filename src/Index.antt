-- ===== src/Index.antt =====
-- ukeylogindex.go and keylogindex.go: the index of one key, the ids of its entries in order. A
-- method returns the new index beside its results; `SafeKeylogIndex` puts each method under a
-- mutex, so its calls are these functions, one after the other.
pub mod Calls
pub mod Invariant
pub mod Rollback
pub mod Iteration
pub mod Sequence
pub mod Safe
use hexalog.Prelude.{
  ℕ, ◌+◌, ◌-◌, ◌%◌, ◌^◌, Bool, true, false, ◌&&◌, Option, none, some, List, [], ◌∷◌, ◌++◌, ltb,
  if◌then◌else◌, length, take, get_last?,
}
use hexalog.Bytes.{Bytes, or_nil, equal, is_zero_bytes}
use hexalog.Error.{Error, previous_hash, entry_not_found}

-- `Height` is a uint32 and wraps, `LTime` is a uint64; `Marker` may be nil.
pub record UnsafeKeylogIndex : Type 0 where
  pub key : Bytes
  pub height : ℕ
  pub marker : Option Bytes
  pub ltime : ℕ
  pub entries : List Bytes

unfoldable pub new_unsafe_keylog_index : Bytes → UnsafeKeylogIndex
new_unsafe_keylog_index key = record {
  key = key;
  height = 0;
  marker = none;
  ltime = 0;
  entries = [];
}

-- `NewSafeKeylogIndex`
unfoldable pub new_safe_keylog_index : Bytes → Option Bytes → UnsafeKeylogIndex
unfolding new_unsafe_keylog_index
new_safe_keylog_index key marker = record (new_unsafe_keylog_index key) { marker = marker }

unfoldable pub last : UnsafeKeylogIndex → Option Bytes
last idx = get_last? idx.entries

unfoldable pub contains_id : List Bytes → Bytes → Bool
contains_id [] id = false
contains_id (ent ∷ ents) id = let rest = contains_id ents id in if equal ent id then true else rest

unfoldable pub contains : UnsafeKeylogIndex → Bytes → Bool
unfolding contains_id
contains idx id = contains_id idx.entries id

abbrev pub u32 : ℕ → ℕ
u32 n = n % 2 ^ 32

-- The marker goes once the entry that it names has come.
clear_marker : Option Bytes → Bytes → Option Bytes
clear_marker none id = none
clear_marker (some m) id = if equal m id then none else some m

unfoldable pub accept : UnsafeKeylogIndex → Bytes → ℕ → UnsafeKeylogIndex
unfolding clear_marker
accept idx id ltime = record idx {
  entries = idx.entries ++ id ∷ [];
  height = u32 (idx.height + 1);
  ltime = ltime;
  marker = clear_marker idx.marker id;
}

-- Whether `prev` is what the entry after `last` must name as its previous id.
unfoldable pub links : Option Bytes → Bytes → Bool
links none prev = is_zero_bytes prev
links (some l) prev = equal l prev

unfoldable pub append : UnsafeKeylogIndex → Bytes → Bytes → ℕ → UnsafeKeylogIndex × Option Error
unfolding last links accept
append idx id prev ltime =
    if links (last idx) prev then (accept idx id ltime, none) else (idx, some previous_hash)

unfoldable pub set_marker : UnsafeKeylogIndex → Option Bytes → UnsafeKeylogIndex × Bool
unfolding contains
set_marker idx marker =
    if contains idx (or_nil marker) then (idx, false) else (record idx { marker = marker }, true)

-- The ltime falls to that of the entry before, if there is one and it is lower.
unfoldable pub lower : ℕ → ℕ → ℕ
lower ltime current = if ltb 0 ltime && ltb ltime current then ltime else current

-- `Height--` of a uint32.
unfoldable pub rollback : UnsafeKeylogIndex → ℕ → UnsafeKeylogIndex × ℕ × Bool
unfolding lower
rollback idx ltime =
    let l = length idx.entries in
    if ltb 0 l
    then (
      record idx {
        entries = take (l - 1) idx.entries;
        height = u32 (idx.height + 2 ^ 32 - 1);
        ltime = lower ltime idx.ltime;
      },
      l - 1,
      true,
    )
    else (idx, l, false)

unfoldable pub count : UnsafeKeylogIndex → ℕ
count idx = length idx.entries

-- The entries from the first that equals the seek position on; none if there is none.
unfoldable pub seek_from : Bytes → List Bytes → Option (List Bytes)
seek_from seek [] = none
seek_from seek (e ∷ es) =
    let rest = seek_from seek es in if equal seek e then some (e ∷ es) else rest

-- The loop of `Iter`: the callback changes a state of its own and may end the loop by an error.
unfoldable pub each {ℓ} :
    {S : Type ℓ} → (Bytes → S → S × Option Error) → List Bytes → S → S × Option Error
each cb [] s = (s, none)
each cb (e ∷ es) s =
    let (s', err) = cb e s in elim err [ some x ↦ (s', some x) | none ↦ each cb es s' ]

unfoldable pub iter {ℓ} :
    {S : Type ℓ}
    → UnsafeKeylogIndex
    → Option Bytes
    → (Bytes → S → S × Option Error)
    → S
    → S × Option Error
unfolding each
iter idx none cb s = each cb idx.entries s
iter idx (some seek) cb s = elim (seek_from seek idx.entries) [
  | none ↦ (s, some entry_not_found)
  | some from ↦ each cb from s
]
