-- ===== src/Node/Entries.antt =====
-- `New`, `Get` and `Stats` of hexalog.go, and that a new entry can be appended.
use hexalog.Prelude.{
  ℕ, ◌≡◌, refl, sym, ap, ◌∙◌, subst, inl, inr, true, Option, none, some, arith, length,
  Option-cases, get_last?-snoc,
}
use hexalog.Bytes.{
  Bytes, or_nil, equal, equal_iff, equal_refl, zero_bytes, is_zero_bytes-zero_bytes,
}
use hexalog.Error.{Result, ok}
use hexalog.Entry.{Entry, hash}
use hexalog.Index.{UnsafeKeylogIndex, last, links, accept}
use hexalog.IndexStore
use hexalog.IndexStore.Lookup.{get_key-write_back}
use hexalog.Keylog.Chain.{IsLinked}
use hexalog.Keylog.Chain.Distinct.{last_snoc}
use hexalog.LogStore
use hexalog.LogStore.{LogStore, first_entry}
use hexalog.LogStore.Soundness.{IsSound}
use hexalog.LogStore.Appending.{TakesAll, append_entry_taken}
use hexalog.Map
use hexalog.Node.{Config, Node, verify_entry, check_previous, last_of}
use hexalog.Node.Checks.{last_held, is_last, no_last}

pub record Stats : Type 0 where
  pub keys : ℕ
  pub entries : ℕ
  pub ballots : ℕ
  pub proposals : ℕ
  pub commits : ℕ
  pub heals : ℕ

module _ (conf : Config) where
  unfoldable pub stats : Node conf → Stats
  stats hlog =
      let (keys, entries) = LogStore.stats conf.entry_store conf.hasher hlog.store in
      record {
        keys = keys;
        entries = entries;
        ballots = Map.size hlog.ballots;
        proposals = length hlog.pch;
        commits = length hlog.cch;
        heals = length hlog.hch;
      }

  -- `New`
  unfoldable pub new_entry : Node conf → Bytes → ℕ → Entry
  new_entry hlog key now =
      record (LogStore.new_entry conf.entry_store conf.hasher hlog.store key now) {
        ltime = conf.lamport_clock.time hlog.clock;
      }

  -- `Get`
  unfoldable pub get_entry : Node conf → Bytes → Bytes → Result Entry
  get_entry hlog key id = LogStore.get_entry conf.entry_store conf.hasher hlog.store key id

  new_entry_key : (hlog : Node conf) (key : Bytes) (now : ℕ) → (new_entry hlog key now).key ≡ key
  unfolding new_entry LogStore.new_entry first_entry
  new_entry_key hlog key now = ground arith

  first_previous :
      (hlog : Node conf) (key : Bytes) (idx : UnsafeKeylogIndex) (now : ℕ)
      → IndexStore.get_key hlog.store.index key ≡ ok idx
      → last idx ≡ none
      → (new_entry hlog key now).previous ≡ some (zero_bytes conf.hasher.size)
  unfolding new_entry LogStore.new_entry first_entry
  first_previous hlog key idx now found e = rw (found, LogStore.new_entry) (rw e refl)

  next_previous :
      (hlog : Node conf) (key : Bytes) (idx : UnsafeKeylogIndex) (now : ℕ) (lid : Bytes)
      → IndexStore.get_key hlog.store.index key ≡ ok idx
      → last idx ≡ some lid
      → (new_entry hlog key now).previous ≡ some lid
  unfolding new_entry LogStore.new_entry
  next_previous hlog key idx now lid found e = rw (found, LogStore.new_entry) (rw e refl)

  -- The id that a new entry names as its previous one is that of the last entry.
  new_entry-links :
      (hlog : Node conf) (key : Bytes) (idx : UnsafeKeylogIndex) (now : ℕ)
      → IndexStore.get_key hlog.store.index key ≡ ok idx
      → links (last idx) (or_nil (new_entry hlog key now).previous) ≡ true
  unfolding links
  new_entry-links hlog key idx now found = elim (Option-cases (last idx)) [
    | inl e ↦
        rw e
          (rw (first_previous hlog key idx now found e) (is_zero_bytes-zero_bytes conf.hasher.size))
    | inr (lid, e) ↦ rw e (rw (next_previous hlog key idx now lid found e) (equal_refl lid))
  ]

  checked_as :
      (hlog : Node conf) (entry : Entry) (o : Option Entry)
      → LogStore.last_entry conf.entry_store conf.hasher hlog.store entry.key ≡ o
      → or_nil entry.previous ≡ (last_of conf o).1
      → (check_previous conf hlog entry).1 ≡ none
  unfolding check_previous
  checked_as hlog entry o le same =
      let e : equal (or_nil entry.previous) (last_of conf o).1 ≡ true = (equal_iff _ _).1 same in
      rw (le, check_previous) (rw e refl)

  new_entry_checked :
      (hlog : Node conf) (key : Bytes) (idx : UnsafeKeylogIndex) (now : ℕ)
      → IsSound conf.entry_store conf.hasher hlog.store
      → IndexStore.get_key hlog.store.index key ≡ ok idx
      → (check_previous conf hlog (new_entry hlog key now)).1 ≡ none
  unfolding last_of
  new_entry_checked hlog key idx now s found = elim (Option-cases (last idx)) [
    | inl e ↦
        checked_as hlog (new_entry hlog key now) none
          (ap (LogStore.last_entry conf.entry_store conf.hasher hlog.store)
              (new_entry_key hlog key now)
            ∙ no_last conf hlog key idx found e)
          (ap or_nil (first_previous hlog key idx now found e))
    | inr (lid, e) ↦
        let (ids, split) = last_snoc idx lid e in
        let (w, stored, hashed) = last_held conf hlog.store.entries key none ids lid (
          subst (IsLinked conf.entry_store conf.hasher hlog.store.entries key none) split
            (s.at key idx found).chained) in
        checked_as hlog (new_entry hlog key now) (some w)
          (ap (LogStore.last_entry conf.entry_store conf.hasher hlog.store)
              (new_entry_key hlog key now)
            ∙ is_last conf hlog key idx lid w found e stored)
          (ap or_nil (next_previous hlog key idx now lid found e) ∙ sym hashed)
  ]

  -- `verifyEntry` compares with the last entry.
  new_entry_verified :
      (hlog : Node conf) (key : Bytes) (idx : UnsafeKeylogIndex) (now : ℕ)
      → IsSound conf.entry_store conf.hasher hlog.store
      → IndexStore.get_key hlog.store.index key ≡ ok idx
      → idx.marker ≡ none
      → (verify_entry conf hlog (new_entry hlog key now)).1 ≡ none
  unfolding verify_entry
  new_entry_verified hlog key idx now s found unmarked =
      let at : IndexStore.get_key hlog.store.index (new_entry hlog key now).key ≡ ok idx =
        ap (IndexStore.get_key hlog.store.index) (new_entry_key hlog key now) ∙ found in
      rw (at, verify_entry) (rw unmarked (new_entry_checked hlog key idx now s found))

  -- An entry that was appended is the last of its key, and in the store.
  appended_last :
      (hlog : Node conf) (entry : Entry) (idx : UnsafeKeylogIndex)
      → TakesAll conf.entry_store
      → IndexStore.get_key hlog.store.index entry.key ≡ ok idx
      → links (last idx) (or_nil entry.previous) ≡ true
      → let after = LogStore.append_entry conf.entry_store conf.hasher hlog.store entry in
        (after.1 ≡ none)
        × (LogStore.last_entry conf.entry_store conf.hasher after.0 entry.key ≡ some entry)
        × (get_entry (record hlog { store = after.0 }) entry.key (hash conf.hasher entry)
            ≡ ok entry)
  unfolding get_entry LogStore.get_entry accept last
  appended_last hlog entry idx takes found h =
      let id = hash conf.hasher entry in
      let stored : conf.entry_store.get (conf.entry_store.set hlog.store.entries id entry).0 id
          ≡ ok entry =
        conf.entry_store.get-set hlog.store.entries id id entry (takes hlog.store.entries id entry)
        ∙ rw (equal_refl id) refl in
      let taken : LogStore conf.entry_store = record {
        index = IndexStore.write_back hlog.store.index entry.key (accept idx id entry.ltime);
        entries = (conf.entry_store.set hlog.store.entries id entry).0;
      } in
      let at : IndexStore.get_key taken.index entry.key ≡ ok (accept idx id entry.ltime) =
        get_key-write_back hlog.store.index entry.key entry.key (accept idx id entry.ltime)
        ∙ rw (equal_refl entry.key) refl in
      rw (append_entry_taken conf.entry_store conf.hasher hlog.store entry idx takes found h) (
        refl,
        is_last conf (record hlog { store = taken }) entry.key (accept idx id entry.ltime) id entry
            at (get_last?-snoc idx.entries id) stored,
        stored,
      )

  -- An entry that `New` returns for a key that has a log, and is not marked as incomplete, passes
  -- `verifyEntry`; appended on the same state it is taken, and is then the last entry of the key and
  -- what `Get` returns for its id. All logs are sound, and the entry store takes every write.
  pub new_entry-append_entry :
      (hlog : Node conf) (key : Bytes) (idx : UnsafeKeylogIndex) (now : ℕ)
      → IsSound conf.entry_store conf.hasher hlog.store
      → TakesAll conf.entry_store
      → IndexStore.get_key hlog.store.index key ≡ ok idx
      → idx.marker ≡ none
      → let entry = new_entry hlog key now in
        let after = LogStore.append_entry conf.entry_store conf.hasher hlog.store entry in
        ((verify_entry conf hlog entry).1 ≡ none)
        × (after.1 ≡ none)
        × (LogStore.last_entry conf.entry_store conf.hasher after.0 key ≡ some entry)
        × (get_entry (record hlog { store = after.0 }) key (hash conf.hasher entry) ≡ ok entry)
  unfolding get_entry LogStore.get_entry
  new_entry-append_entry hlog key idx now s takes found unmarked =
      let entry = new_entry hlog key now in
      let same = new_entry_key hlog key now in
      let at : IndexStore.get_key hlog.store.index entry.key ≡ ok idx =
        ap (IndexStore.get_key hlog.store.index) same ∙ found in
      let (done, le, got) =
        appended_last hlog entry idx takes at (new_entry-links hlog key idx now found) in
      let after = LogStore.append_entry conf.entry_store conf.hasher hlog.store entry in
      (
        new_entry_verified hlog key idx now s found unmarked,
        done,
        ap (LogStore.last_entry conf.entry_store conf.hasher after.0) (sym same) ∙ le,
        got,
      )
