-- ===== src/Leader/Consistency.antt =====
-- What `IsConsistent` (leader.go) tells of the logs behind the last entries.
use hexalog.Prelude.{
  ℕ, suc, zero, ◌≡◌, sym, ap, ◌∙◌, subst, inl, inr, true, Option, none, some, List, [], ◌∷◌, map,
  get_elem?, get_last?, All, Option-cases,
}
use mathlib.Core.Option.{some-injective}
use hexalog.Bytes.{Bytes}
use hexalog.Error.{ok}
use hexalog.Entry.{Entry, Hasher, hash}
use hexalog.EntryStore.{EntryStore}
use hexalog.Index.{UnsafeKeylogIndex, last}
use hexalog.IndexStore
use hexalog.Keylog.{ignore_error}
use hexalog.Keylog.Chain.{IsLinked}
use hexalog.Keylog.Chain.Distinct.{NeverZero, last_snoc}
use hexalog.Keylog.Chain.Agreement.{AgreesWith, IsLinked-last, chains_agree}
use hexalog.LogStore.{LogStore, last_entry}
use hexalog.LogStore.Soundness.{IsSound, Result-cases}
use hexalog.Leader.{KeyLeader, is_consistent}
use hexalog.Leader.Agreement.{Agrees, is_consistent-Agrees}
use hexalog.Options.{Participant}

module _ (E : EntryStore) (hasher : Hasher) where
  -- The log of the key is there, and these are its ids.
  pub record HasLog (key : Bytes) (ids : List Bytes) (hlog : LogStore E) : Type 0 where
    pub index : UnsafeKeylogIndex
    pub found : IndexStore.get_key hlog.index key ≡ ok index
    pub entries : index.entries ≡ ids

  -- A sound log store that agrees with the others on what each id names.
  abbrev pub IsReplica : (Bytes → Entry) → LogStore E → Type 0
  IsReplica named hlog = IsSound E hasher hlog × AgreesWith E hasher named hlog.entries

  -- A last entry is the last of a log that ends in its id.
  last_entry_of :
      (hlog : LogStore E) (key : Bytes) (e : Entry)
      → IsSound E hasher hlog
      → last_entry E hasher hlog key ≡ some e
      → (idx : UnsafeKeylogIndex) × (IndexStore.get_key hlog.index key ≡ ok idx)
        × (get_last? idx.entries ≡ some (hash hasher e))
  unfolding last_entry last
  last_entry_of hlog key e s h = elim (Result-cases (IndexStore.get_key hlog.index key)) [
    | inl (x, f) ↦ let no : none ≡ some e = rw (f, last_entry) at h in cc
    | inr (idx, f) ↦ elim (Option-cases (last idx)) [
      | inl l ↦ let no : none ≡ some e = rw l at (rw (f, last_entry) at h) in cc
      | inr (lid, l) ↦
          let read : ignore_error (E.get hlog.entries lid) ≡ some e =
            rw l at (rw (f, last_entry) at h) in
          let (ids, split) = last_snoc idx lid l in
          let held = IsLinked-last E hasher hlog.entries key none ids lid (
            subst (λ l. IsLinked E hasher hlog.entries key none l) split
              (s.at key idx f).chained) in
          let same : held.entry ≡ e =
            some-injective _ _ (sym (ap (λ r. ignore_error r) held.stored) ∙ read) in
          (idx, f, l ∙ ap (λ (b : Bytes). some b) (sym held.hashed ∙ ap (hash hasher) same))
    ]
  ]

  replica_log :
      (named : Bytes → Entry) (key : Bytes) (a b : LogStore E) (e f : Entry)
      (idx : UnsafeKeylogIndex)
      → NeverZero hasher
      → IsReplica named a
      → IsReplica named b
      → IndexStore.get_key a.index key ≡ ok idx
      → get_last? idx.entries ≡ some (hash hasher e)
      → last_entry E hasher b key ≡ some f
      → hash hasher f ≡ hash hasher e
      → HasLog key idx.entries b
  replica_log named key a b e f idx z ra rb found m eb h =
      let (j, q, n) = last_entry_of b key f rb.0 eb in
      record {
        index = j;
        found = q;
        entries =
            chains_agree E hasher z named key b.entries a.entries rb.1 ra.1 j.entries idx.entries
              (rb.0.at key j q).chained (ra.0.at key idx found).chained
              (n ∙ (ap (λ (x : Bytes). some x) h ∙ sym m));
      }

  all_logs :
      (named : Bytes → Entry) (key : Bytes) (a : LogStore E) (e : Entry) (idx : UnsafeKeylogIndex)
      (stores : List (LogStore E))
      → NeverZero hasher
      → IsReplica named a
      → IndexStore.get_key a.index key ≡ ok idx
      → get_last? idx.entries ≡ some (hash hasher e)
      → All (IsReplica named) stores
      → All
          (Agrees hasher (hash hasher e))
          (map (λ (s : LogStore E). last_entry E hasher s key) stores)
      → All (HasLog key idx.entries) stores
  all_logs named key a e idx [] z ra found m rs h = tt
  all_logs named key a e idx (b ∷ stores) z ra found m rs h =
      elim (Option-cases (last_entry E hasher b key)) [
        | inl n ↦ absurd (rw n at (h.0))
        | inr (f, n) ↦ (
          replica_log named key a b e f idx z ra rs.0 found m n (rw n at (h.0)),
          all_logs named key a e idx stores z ra found m rs.1 h.1,
        )
      ]

  leader_store :
      (key : Bytes) (e : Entry) (stores : List (LogStore E)) (i : ℕ) (named : Bytes → Entry)
      → get_elem? (map (λ (s : LogStore E). last_entry E hasher s key) stores) i ≡ some (some e)
      → All (IsReplica named) stores
      → (a : LogStore E) × (last_entry E hasher a key ≡ some e) × IsReplica named a
  leader_store key e [] i named h rs = cc
  leader_store key e (a ∷ stores) zero named h rs = (a, some-injective _ _ h, rs.0)
  leader_store key e (a ∷ stores) (suc i) named h rs = leader_store key e stores i named h rs.1

  -- If `IsConsistent` answers true for the last entries that some nodes have for a key, all of them
  -- have the same log of the key, from its first entry to its last. The log stores are sound and agree
  -- on the entry that each id names, and the hash function never returns the zero hash.
  pub is_consistent-same_log :
      (named : Bytes → Entry) (key : Bytes) (stores : List (LogStore E)) (l : KeyLeader)
      (loc : Participant)
      → NeverZero hasher
      → All (IsReplica named) stores
      → l.lasts ≡ map (λ (s : LogStore E). last_entry E hasher s key) stores
      → is_consistent hasher l ≡ some (true, loc)
      → (ids : List Bytes) × All (HasLog key ids) stores
  is_consistent-same_log named key stores l loc z rs seen h =
      let (e, at, agreed, _) = is_consistent-Agrees hasher l loc h in
      let (a, ea, ra) =
        leader_store key e stores l.idx named
          (ap (λ (x : List (Option Entry)). get_elem? x l.idx) (sym seen) ∙ at) rs in
      let (idx, found, m) = last_entry_of a key e ra.0 ea in
      (
        idx.entries,
        all_logs named key a e idx stores z ra found m rs
            (subst (All (Agrees hasher (hash hasher e))) seen agreed),
      )
