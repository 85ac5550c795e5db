-- ===== src/Transfer/Pull.antt =====
-- What a pull brings (`PullKeylog` and `PullKeylogRPC` of net.go).
use mathlib.Core.List.{append_assoc, append-nil}
use hexalog.Prelude.{
  ℕ, ◌≡◌, refl, sym, ap, ◌∙◌, subst, true, false, Option, some, List, [], ◌∷◌, ◌++◌, map, get_last?,
  get_last?-snoc,
}
use hexalog.Bytes.{Bytes, or_nil, equal_refl}
use hexalog.Error.{ok}
use hexalog.Entry.{hash}
use hexalog.Future.{FutureEntry, new_future_entry, dispatch}
use hexalog.Index.{UnsafeKeylogIndex, last, links, accept}
use hexalog.IndexStore
use hexalog.IndexStore.Lookup.{get_key-write_back}
use hexalog.LogStore.Appending.{TakesAll, append_entry_taken, append_entry_left}
use hexalog.Node.{Config, Node}
use hexalog.Transfer.{Message, receive, append, appended}

module _ (conf : Config) where
  -- Messages whose entries belong to the key, name their ids, and link one to the next from `p` on.
  abbrev pub IsFeed : Bytes → Option Bytes → List Message → Type 0
  IsFeed key p [] = Unit {0}
  IsFeed key p (m ∷ ms) =
      (m.entry.key ≡ key)
      × (hash conf.hasher m.entry ≡ m.id)
      × (links p (or_nil m.entry.previous) ≡ true)
      × IsFeed key (some m.id) ms

  abbrev pub ids_of : List Message → List Bytes
  ids_of = map (λ (m : Message). m.id)

  abbrev pub queued : ℕ → List Message → List (FutureEntry conf.Data)
  queued now = map (λ (m : Message). dispatch (new_future_entry m.id m.entry) now)

  -- The log of the key, and the queue of the machine.
  pub record Holding (hlog : Node conf) (key : Bytes) (ids : List Bytes)
      (queue : List (FutureEntry conf.Data)) : Type 0 where
    pub idx : UnsafeKeylogIndex
    pub found : IndexStore.get_key hlog.store.index key ≡ ok idx
    pub entries : idx.entries ≡ ids
    pub queue_is : hlog.apply_ch ≡ queue

  module _ (takes : TakesAll conf.entry_store) where
    -- One message that links is appended and queued.
    append-links :
        (hlog : Node conf) (m : Message) (now : ℕ) (idx : UnsafeKeylogIndex)
        → IndexStore.get_key hlog.store.index m.entry.key ≡ ok idx
        → hash conf.hasher m.entry ≡ m.id
        → links (last idx) (or_nil m.entry.previous) ≡ true
        → Holding
            (append conf hlog m.id m.entry now).0
            m.entry.key
            (idx.entries ++ m.id ∷ [])
            (hlog.apply_ch ++ queued now (m ∷ []))
    unfolding append accept appended
    append-links hlog m now idx found same h =
        let e =
          append_entry_taken conf.entry_store conf.hasher hlog.store m.entry idx takes found h in
        rw (ap (appended conf hlog m.id m.entry now) e) (record {
          idx = accept idx (hash conf.hasher m.entry) m.entry.ltime;
          found =
              get_key-write_back hlog.store.index m.entry.key m.entry.key _
              ∙ rw (equal_refl m.entry.key);
          entries = ap (λ (b : Bytes). idx.entries ++ b ∷ []) same;
          queue_is = refl;
        })

    -- One that does not link changes neither the log nor the queue.
    pub append_refused :
        (hlog : Node conf) (m : Message) (now : ℕ) (idx : UnsafeKeylogIndex)
        → IndexStore.get_key hlog.store.index m.entry.key ≡ ok idx
        → links (last idx) (or_nil m.entry.previous) ≡ false
        → Holding (append conf hlog m.id m.entry now).0 m.entry.key idx.entries hlog.apply_ch
    unfolding append appended
    append_refused hlog m now idx found h =
        let e =
          append_entry_left conf.entry_store conf.hasher hlog.store m.entry idx takes found h in
        rw (ap (appended conf hlog m.id m.entry now) e) (record {
          idx = idx;
          found =
              get_key-write_back hlog.store.index m.entry.key m.entry.key idx
              ∙ rw (equal_refl m.entry.key);
          entries = refl;
          queue_is = refl;
        })

    -- A feed that goes on from the last entry of the log is appended and queued, in order.
    pub receive-feed :
        (hlog : Node conf) (f : Option (FutureEntry conf.Data)) (msgs : List Message) (now : ℕ)
        (key : Bytes) (ids : List Bytes) (queue : List (FutureEntry conf.Data))
        → Holding hlog key ids queue
        → IsFeed key (get_last? ids) msgs
        → Holding
            (receive conf hlog f msgs now).0
            key
            (ids ++ ids_of msgs)
            (queue ++ queued now msgs)
    unfolding receive last
    receive-feed hlog f [] now key ids queue h feed = rw (append-nil ids, append-nil queue) h
    receive-feed hlog f (m ∷ msgs) now key ids queue h feed =
        let found : IndexStore.get_key hlog.store.index m.entry.key ≡ ok h.idx =
          ap (IndexStore.get_key hlog.store.index) feed.0 ∙ h.found in
        let linked : links (last h.idx) (or_nil m.entry.previous) ≡ true =
          ap (λ (l : List Bytes). links (get_last? l) (or_nil m.entry.previous)) h.entries
          ∙ feed.2 in
        let one = append-links hlog m now h.idx found feed.1 linked in
        let next =
          receive-feed (append conf hlog m.id m.entry now).0 (append conf hlog m.id m.entry now).1
            msgs now key (ids ++ m.id ∷ []) (queue ++ queued now (m ∷ []))
            (moved h.entries h.queue_is feed.0 one)
            (subst (λ p. IsFeed key p msgs) (sym (get_last?-snoc ids m.id)) feed.3) in
        rw
          (
            append_assoc ids (m.id ∷ []) (ids_of msgs),
            append_assoc queue (queued now (m ∷ [])) (queued now msgs),
          )
          at next
      where
        moved :
            {a : List Bytes} {q : List (FutureEntry conf.Data)} {k : Bytes}
            → a ≡ ids
            → q ≡ queue
            → k ≡ key
            → Holding
                (append conf hlog m.id m.entry now).0
                k
                (a ++ m.id ∷ [])
                (q ++ queued now (m ∷ []))
            → Holding
                (append conf hlog m.id m.entry now).0
                key
                (ids ++ m.id ∷ [])
                (queue ++ queued now (m ∷ []))
        moved e f g one = record {
          idx = one.idx;
          found =
              ap (IndexStore.get_key (append conf hlog m.id m.entry now).0.store.index) (sym g)
              ∙ one.found;
          entries = one.entries ∙ ap (λ (l : List Bytes). l ++ m.id ∷ []) e;
          queue_is =
              one.queue_is ∙ ap (λ (l : List (FutureEntry conf.Data)). l ++ queued now (m ∷ [])) f;
        }
