-- ===== src/LogStore.antt =====
-- logstore.go: the log of all keys, an index store and an entry store. `Keylog` values that the
-- source reaches by pointers into the index store are written back after they change.
pub mod Soundness
pub mod Removal
pub mod Rollback
pub mod Appending
pub mod Spec
use hexalog.Prelude.{
  ℤ, pos, negsuc, ℕ, ◌+◌, ◌%◌, ◌^◌, Bool, true, false, Option, none, some, if◌then◌else◌, ◌==◌, [],
}
use hexalog.Bytes.{Bytes, zero_bytes}
use hexalog.Error.{Error, Result, ok, err}
use hexalog.Entry.{Entry, Hasher}
use hexalog.EntryStore.{EntryStore}
use hexalog.Index.{UnsafeKeylogIndex}
use hexalog.Index
use hexalog.IndexStore.{InMemIndexStore}
use hexalog.IndexStore
use hexalog.Keylog.{Keylog, ignore_error}
use hexalog.Keylog

pub record LogStore (E : EntryStore) : Type 0 where
  pub index : InMemIndexStore
  pub entries : E.Store

-- The `KeySeed` message of rpc.proto.
pub record KeySeed : Type 0 where
  pub key : Bytes
  pub marker : Option Bytes
  pub height : ℕ
  pub ltime : ℕ

abbrev is_zero : ℤ → Bool
is_zero (pos n) = n == 0
is_zero (negsuc n) = false

module _ (E : EntryStore) (hasher : Hasher) where
  abbrev pub keylog_of : LogStore E → UnsafeKeylogIndex → Keylog E
  keylog_of hlog idx = record { entries = hlog.entries; idx = idx }

  -- The store once the keylog of the key has changed in place.
  abbrev pub write_back : LogStore E → Bytes → Keylog E → LogStore E
  write_back hlog key keylog = record {
    index = IndexStore.write_back hlog.index key keylog.idx;
    entries = keylog.entries;
  }

  unfoldable pub new_key : LogStore E → Bytes → LogStore E × Result (Keylog E)
  new_key hlog key =
      let (index, r) = IndexStore.new_key hlog.index key in
      elim r [
        | ok idx ↦ (record hlog { index = index }, ok (keylog_of hlog idx))
        | err x ↦ (record hlog { index = index }, err x)
      ]

  unfoldable pub get_key : LogStore E → Bytes → Result (Keylog E)
  get_key hlog key = elim (IndexStore.get_key hlog.index key) [
    | ok idx ↦ ok (keylog_of hlog idx)
    | err x ↦ err x
  ]

  -- The callback of `RemoveKey`: an entry that cannot be deleted is logged and passed over.
  pub drop_entry : Bytes → Entry → E.Store → E.Store × Option Error
  drop_entry id entry entries = ((E.delete entries id).0, none)

  unfoldable pub remove_key : LogStore E → Bytes → LogStore E × Option Error
  unfolding drop_entry
  remove_key hlog key = elim (get_key hlog key) [
    | err x ↦ (hlog, some x)
    | ok keylog ↦
        let (index, failed) = IndexStore.remove_key hlog.index key in
        elim failed [
          | some x ↦ (record hlog { index = index }, some x)
          | none ↦
              let (entries, e) =
                Keylog.iter E hasher keylog.idx (λ s. s) none drop_entry hlog.entries in
              (record { index = index; entries = entries }, e)
        ]
  ]

  unfoldable pub get_entry : LogStore E → Bytes → Bytes → Result Entry
  get_entry hlog key id = E.get hlog.entries id

  unfoldable pub last_entry : LogStore E → Bytes → Option Entry
  last_entry hlog key = elim (IndexStore.get_key hlog.index key) [
    | err x ↦ none
    | ok idx ↦ elim (Index.last idx) [
      | none ↦ none
      | some lh ↦ ignore_error (E.get hlog.entries lh)
    ]
  ]

  unfoldable pub first_entry : Bytes → ℕ → Entry
  first_entry key now = record {
    key = key;
    previous = some (zero_bytes hasher.size);
    height = 1;
    timestamp = now;
    ltime = 0;
    payload = [];
  }

  -- `now` is the time that the clock shows, in nanoseconds.
  unfoldable pub new_entry : LogStore E → Bytes → ℕ → Entry
  unfolding first_entry
  new_entry hlog key now = elim (IndexStore.get_key hlog.index key) [
    | err x ↦ first_entry key now
    | ok idx ↦ elim (Index.last idx) [
      | none ↦ first_entry key now
      | some prev ↦ record (first_entry key now) {
        previous = some prev;
        height = (Index.count idx + 1) % 2 ^ 32;
      }
    ]
  ]

  unfoldable pub rollback_entry : LogStore E → Entry → LogStore E × Option Error
  rollback_entry hlog entry = elim (get_key hlog entry.key) [
    | err x ↦ (hlog, some x)
    | ok keylog ↦
        let (keylog', c, e) = Keylog.rollback_entry E hasher keylog entry in
        let after = write_back hlog entry.key keylog' in
        (if is_zero c then (remove_key after entry.key).0 else after, e)
  ]

  unfoldable pub seed_of : Bytes → UnsafeKeylogIndex → KeySeed
  seed_of key idx = record {
    key = key;
    marker = elim idx.marker [ some m ↦ some m | none ↦ Index.last idx ];
    height = idx.height;
    ltime = idx.ltime;
  }

  unfoldable pub iter_key_seed {ℓ} :
      {S : Type ℓ} → LogStore E → (KeySeed → S → S × Option Error) → S → S × Option Error
  unfolding seed_of
  iter_key_seed hlog f s = IndexStore.iter hlog.index (λ key kli t. f (seed_of key kli) t) s

  unfoldable pub append_entry : LogStore E → Entry → LogStore E × Option Error
  append_entry hlog entry = elim (get_key hlog entry.key) [
    | err x ↦ (hlog, some x)
    | ok keylog ↦
        let (keylog', e) = Keylog.append_entry E hasher keylog entry in
        (write_back hlog entry.key keylog', e)
  ]

  -- `Stats`: how many keys and how many entries.
  unfoldable pub stats : LogStore E → ℕ × ℕ
  stats hlog = (IndexStore.count hlog.index, E.count hlog.entries)
