-- ===== src/Heal/Seeding/Filling.antt =====
-- What asking another node for one missing key does (`checkLastEntryOrPull` of heal.go).
use hexalog.Prelude.{
  ℕ, ◌≡◌, refl, sym, ap, ◌∙◌, inl, inr, false, Option, none, some, List, [], ◌∷◌, subst, arith, All,
  if◌then◌else◌,
}
use hexalog.Bytes.{Bytes, or_nil, equal, equal_refl, zero_bytes}
use hexalog.Error.{merge_errors, Error, ok, err, key_not_found}
use hexalog.Entry.{Entry}
use hexalog.Future.{FutureEntry}
use hexalog.Index.{UnsafeKeylogIndex, new_safe_keylog_index, contains_id}
use hexalog.Index
use hexalog.IndexStore
use hexalog.IndexStore.Lookup.{get_key-write_back, get_key-new_key}
use hexalog.Keylog
use hexalog.Keylog.Chain.Distinct.{IsChain}
use hexalog.LogStore
use hexalog.LogStore.{KeySeed, LogStore}
use hexalog.LogStore.Appending.{TakesAll}
use hexalog.LogStore.Soundness.{Result-cases, index-new_key}
use hexalog.Node.{Config, Node}
use hexalog.Transfer.{
  Message, append, appended, apply, receive, pull_request, pull_keylog, pull_keylog_rpc, key_of,
  stream,
}
use hexalog.Transfer.Pull.{Holding, IsFeed, ids_of, receive-feed}
use hexalog.Transfer.Feed.{each-send}
use hexalog.Heal.{blank, fetch, create_and_fetch, check_last_entry_or_pull}
use hexalog.Heal.CatchUp.{served_by}
use hexalog.Heal.Seeding.{seed}

module _ (conf : Config) where
  -- The node once the key is created.
  abbrev created : Node conf → Bytes → Node conf
  created local key = record local {
    store = (LogStore.new_key conf.entry_store conf.hasher local.store key).0;
  }

  created_found :
      (local : Node conf) (key j : Bytes)
      → IndexStore.get_key local.store.index key ≡ err key_not_found
      → IndexStore.get_key (created local key).store.index j ≡ (
          if equal key j
          then ok (new_safe_keylog_index key none)
          else IndexStore.get_key local.store.index j)
  created_found local key j missing =
      ap (λ (s : LogStore conf.entry_store). IndexStore.get_key s.index j)
        (index-new_key conf.entry_store conf.hasher local.store key)
      ∙ get_key-new_key local.store.index key j missing

  -- What the other node sends for the whole log of a key.
  sends_all :
      (remote : Node conf) (key : Bytes) (ridx : UnsafeKeylogIndex)
      → key_of conf (some (blank key)) ≡ some key
      → IndexStore.get_key remote.store.index key ≡ ok ridx
      → IsChain conf.entry_store conf.hasher
          (record { entries = remote.store.entries; idx = ridx })
          key
      → (feed : List Message) × (pull_keylog_rpc conf remote none (some (blank key)) ≡ (feed, none))
        × IsFeed conf key none feed
        × (ids_of conf feed ≡ ridx.entries)
  unfolding pull_keylog_rpc stream LogStore.get_key Keylog.iter Index.iter
  sends_all remote key ridx named found c =
      let fed = each-send conf remote.store.entries key none ridx.entries [] c.chained in
      (fed.feed, rw (named, pull_keylog_rpc) (rw found fed.streamed), fed.is_feed, fed.ids_are)

  -- The node that has asked for a key which it did not have.
  abbrev pub filled : Node conf → Node conf → Bytes → ℕ → Node conf
  filled local remote key now =
      (receive conf (created local key) none (pull_keylog_rpc conf remote none (some (blank key))).0
        now).0

  pub asks_for_all :
      (local remote : Node conf) (host key other : Bytes) (now : ℕ)
      → IndexStore.get_key local.store.index key ≡ err key_not_found
      → equal (zero_bytes conf.hasher.size) other ≡ false
      → (check_last_entry_or_pull conf local host key other (served_by conf remote) now).0
        ≡ filled local remote key now
  unfolding check_last_entry_or_pull create_and_fetch fetch LogStore.get_key LogStore.new_key
      IndexStore.new_key IndexStore.get_key pull_request pull_keylog merge_errors
  asks_for_all local remote host key other now missing n = ground arith

  pub no_error :
      (local remote : Node conf) (host key other : Bytes) (now : ℕ)
      → IndexStore.get_key local.store.index key ≡ err key_not_found
      → equal (zero_bytes conf.hasher.size) other ≡ false
      → (check_last_entry_or_pull conf local host key other (served_by conf remote) now).1 ≡ none
  unfolding check_last_entry_or_pull create_and_fetch fetch LogStore.get_key LogStore.new_key
      IndexStore.new_key IndexStore.get_key pull_request pull_keylog merge_errors
  no_error local remote host key other now missing n = ground arith

  -- A log that the other node can send as a whole, and for which the seed makes the node ask.
  pub record Offered (remote : Node conf) (seed : KeySeed) : Type 0 where
    pub idx : UnsafeKeylogIndex
    pub found : IndexStore.get_key remote.store.index seed.key ≡ ok idx
    pub chain :
        IsChain conf.entry_store conf.hasher
          (record { entries = remote.store.entries; idx = idx })
          seed.key
    pub named : key_of conf (some (blank seed.key)) ≡ some seed.key
    pub ends : equal (zero_bytes conf.hasher.size) (or_nil seed.marker) ≡ false

  -- Both nodes have the key, with the same ids in the same order.
  pub record Copied (local remote : Node conf) (key : Bytes) : Type 0 where
    pub mine : UnsafeKeylogIndex
    pub theirs : UnsafeKeylogIndex
    pub found : IndexStore.get_key local.store.index key ≡ ok mine
    pub offered : IndexStore.get_key remote.store.index key ≡ ok theirs
    pub same : mine.entries ≡ theirs.entries

  abbrev pub Missing : Node conf → KeySeed → Type 0
  Missing local seed = IndexStore.get_key local.store.index seed.key ≡ err key_not_found

  abbrev pub Apart : List KeySeed → Type 0
  Apart [] = Unit {0}
  Apart (s ∷ seeds) = All (λ (t : KeySeed). equal s.key t.key ≡ false) seeds × Apart seeds

  pub filled-Copied :
      (local remote : Node conf) (s : KeySeed) (now : ℕ)
      → TakesAll conf.entry_store
      → Missing local s
      → Offered remote s
      → Copied (filled local remote s.key now) remote s.key
  unfolding new_safe_keylog_index
  filled-Copied local remote s now takes missing o =
      let (feed, sent, fits, ids) = sends_all remote s.key o.idx o.named o.found o.chain in
      let start : Holding conf (created local s.key) s.key [] local.apply_ch = record {
        idx = new_safe_keylog_index s.key none;
        found = created_found local s.key s.key missing ∙ rw (equal_refl s.key) refl;
        entries = refl;
        queue_is = refl;
      } in
      let whole =
        receive-feed conf takes (created local s.key) none feed now s.key [] local.apply_ch start
          fits in
      let to : filled local remote s.key now
          ≡ (receive conf (created local s.key) none feed now).0 =
        ap
          (λ (t : List Message × Option Error). (receive conf (created local s.key) none t.0 now).0)
          sent in
      subst (λ (h : Node conf). Copied h remote s.key) (sym to)
        (record {
          mine = whole.idx;
          theirs = o.idx;
          found = whole.found;
          offered = o.found;
          same = whole.entries ∙ ids;
        })

  store-append :
      (hlog : Node conf) (id : Bytes) (entry : Entry) (now : ℕ)
      → (append conf hlog id entry now).0.store
        ≡ (LogStore.append_entry conf.entry_store conf.hasher hlog.store entry).0
  unfolding append appended apply
  store-append hlog id entry now =
      stored (LogStore.append_entry conf.entry_store conf.hasher hlog.store entry)
    where
      stored :
          (t : LogStore conf.entry_store × Option Error)
          → (appended conf hlog id entry now t).0.store ≡ t.0
      stored (store, none) = refl
      stored (store, some x) = refl

  -- The other keys keep their logs.
  append_other :
      (hlog : Node conf) (id : Bytes) (entry : Entry) (now : ℕ) (j : Bytes)
      → equal entry.key j ≡ false
      → IndexStore.get_key (append conf hlog id entry now).0.store.index j
        ≡ IndexStore.get_key hlog.store.index j
  unfolding LogStore.append_entry LogStore.get_key
  append_other hlog id entry now j n =
      ap (λ (s : LogStore conf.entry_store). IndexStore.get_key s.index j)
        (store-append hlog id entry now)
      ∙ elim (Result-cases (IndexStore.get_key hlog.store.index entry.key)) [
        | inl (x, e) ↦ rw (e, LogStore.append_entry) refl
        | inr (idx, e) ↦
            rw (e, LogStore.append_entry)
              (get_key-write_back hlog.store.index entry.key j _ ∙ rw n refl)
      ]

  receive_other :
      (hlog : Node conf) (f : Option (FutureEntry conf.Data)) (msgs : List Message) (now : ℕ)
      (key j : Bytes) (p : Option Bytes)
      → IsFeed conf key p msgs
      → equal key j ≡ false
      → IndexStore.get_key (receive conf hlog f msgs now).0.store.index j
        ≡ IndexStore.get_key hlog.store.index j
  unfolding receive
  receive_other hlog f [] now key j p fits n = refl
  receive_other hlog f (m ∷ msgs) now key j p fits n =
      let one = append conf hlog m.id m.entry now in
      receive_other one.0 one.1 msgs now key j (some m.id) fits.3 n
      ∙ append_other hlog m.id m.entry now j (ap (λ (k : Bytes). equal k j) fits.0 ∙ n)

  -- Filling a key leaves the others alone.
  pub filled_other :
      (local remote : Node conf) (s : KeySeed) (now : ℕ) (j : Bytes)
      → Missing local s
      → Offered remote s
      → equal s.key j ≡ false
      → IndexStore.get_key (filled local remote s.key now).store.index j
        ≡ IndexStore.get_key local.store.index j
  filled_other local remote s now j missing o n =
      let (feed, sent, fits, ids) = sends_all remote s.key o.idx o.named o.found o.chain in
      ap
        (λ (t : List Message × Option Error).
          IndexStore.get_key (receive conf (created local s.key) none t.0 now).0.store.index j)
        sent
      ∙ receive_other (created local s.key) none feed now s.key j none fits n
      ∙ created_found local s.key j missing
      ∙ rw n refl
