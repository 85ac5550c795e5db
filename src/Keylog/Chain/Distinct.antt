-- ===== src/Keylog/Chain/Distinct.antt =====
-- No id stands twice in a keylog (keylog.go), and what `AppendEntry` does to its chain.
use hexalog.Prelude.{
  ◌≡◌, refl, sym, ap, ◌∙◌, subst, true, false, Option, none, some, List, [], ◌∷◌, ◌++◌, arith,
  Bool-cases, inl, inr, get_last?, get_last?-cons, snoc-view, get_last?-none, Option-cases,
}
use hexalog.Bytes.{Bytes, or_nil, equal, equal_iff, equal_refl, is_zero_bytes}
use hexalog.Error.{ok}
use hexalog.Entry.{Entry, Hasher, encode, hash}
use hexalog.EntryStore.{EntryStore}
use hexalog.Index.{UnsafeKeylogIndex, links, contains_id, last, accept}
use hexalog.Index.Invariant.{contains_id-append}
use hexalog.Keylog.Calls.{append_entry_failed, append_entry_refused, append_entry_accepted}
use hexalog.Keylog.{Keylog, append_entry}
use hexalog.Keylog.Chain.{last_or-get_last?, Holds, IsLinked, NoClash, IsLinked-snoc, IsLinked-set}

abbrev pub Distinct : List Bytes → Type 0
Distinct [] = Unit {0}
Distinct (id ∷ ids) = (contains_id ids id ≡ false) × Distinct ids

-- The hash function never returns the zero hash, which stands for "no previous entry".
abbrev pub NeverZero : Hasher → Type 0
NeverZero hasher = (b : Bytes) → is_zero_bytes (hasher.sum b) ≡ false

Distinct-snoc :
    (ids : List Bytes) (id : Bytes)
    → contains_id ids id ≡ false
    → Distinct ids
    → Distinct (ids ++ id ∷ [])
unfolding contains_id
Distinct-snoc [] id h d = (refl, tt)
Distinct-snoc (x ∷ ids) id h d = (
  ground (arith, contains_id-append ids id x, equal_iff id x, equal_iff x id, d.0),
  Distinct-snoc ids id (ground arith) d.1,
)

pub Distinct-drop :
    (ids : List Bytes) (id : Bytes)
    → Distinct (ids ++ id ∷ [])
    → Distinct ids × (contains_id ids id ≡ false)
unfolding contains_id
Distinct-drop [] id d = (tt, refl)
Distinct-drop (x ∷ ids) id d =
    let (rest, out) = Distinct-drop ids id d.1 in
    (
      (ground (arith, contains_id-append ids id x, d.0), rest),
      ground (arith, contains_id-append ids id x, equal_iff id x, equal_iff x id, d.0),
    )

-- The last id of a list is another than one that the list does not contain.
pub last-ne :
    (ids : List Bytes) (x l : Bytes)
    → get_last? ids ≡ some l
    → contains_id ids x ≡ false
    → equal x l ≡ false
unfolding contains_id
last-ne [] x l e h = cc
last-ne (y ∷ []) x l e h = ground (arith, equal_iff x l, equal_iff y x)
last-ne (y ∷ z ∷ ids) x l e h =
    last-ne (z ∷ ids) x l (sym (get_last?-cons y z ids) ∙ e) (ground arith)

last_ne_links :
    (ids : List Bytes) (x l : Bytes)
    → get_last? ids ≡ some l
    → contains_id ids x ≡ false
    → links (some x) l ≡ false
unfolding links
last_ne_links ids x l e h = last-ne ids x l e h

pub last_snoc :
    (idx : UnsafeKeylogIndex) (lid : Bytes)
    → last idx ≡ some lid
    → (ids : List Bytes) × (idx.entries ≡ ids ++ lid ∷ [])
unfolding last
last_snoc idx lid e = snoc-view idx.entries lid e

module _ (E : EntryStore) (hasher : Hasher) where
  -- An entry of a chain is another than one whose previous id does not fit there.
  misfit :
      (s : E.Store) (key : Bytes) (p : Option Bytes) (x : Bytes) (entry : Entry)
      → Holds E hasher s key p x
      → NoClash E hasher s entry
      → links p (or_nil entry.previous) ≡ false
      → equal x (hash hasher entry) ≡ false
  misfit s key p x entry c clear h = elim (Bool-cases (equal x (hash hasher entry))) [
    | inl hit ↦
        let at : E.get s (hash hasher entry) ≡ ok c.entry =
          ap (E.get s) (sym ((equal_iff x (hash hasher entry)).0 hit)) ∙ c.stored in
        let same : c.entry ≡ entry = clear c.entry at in
        let fits : links p (or_nil entry.previous) ≡ true =
          ap (λ (e : Entry). links p (or_nil e.previous)) (sym same) ∙ c.linked in
        cc
    | inr miss ↦ miss
  ]

  -- An entry that links to the last id of a chain is not in the chain.
  fresh :
      (s : E.Store) (key : Bytes) (p : Option Bytes) (ids : List Bytes) (entry : Entry)
      → IsLinked E hasher s key p ids
      → Distinct ids
      → NoClash E hasher s entry
      → get_last? ids ≡ some (or_nil entry.previous)
      → links p (or_nil entry.previous) ≡ false
      → contains_id ids (hash hasher entry) ≡ false
  unfolding contains_id
  fresh s key p [] entry c d clear e h = refl
  fresh s key p (x ∷ []) entry c d clear e h = rw (misfit s key p x entry c.0 clear h)
  fresh s key p (x ∷ y ∷ ids) entry c d clear e h =
      let e' = sym (get_last?-cons x y ids) ∙ e in
      rw (misfit s key p x entry c.0 clear h) (
        fresh s key (some x) (y ∷ ids) entry c.1 d.1 clear e'
          (last_ne_links (y ∷ ids) x (or_nil entry.previous) e' d.0))

  -- The entries of a keylog form a chain from its first to its last, and no id stands twice.
  pub record IsChain (keylog : Keylog E) (key : Bytes) : Type 0 where
    pub chained : IsLinked E hasher keylog.entries key none keylog.idx.entries
    pub distinct : Distinct keylog.idx.entries

  pub hash_nonzero : NeverZero hasher → (e : Entry) → is_zero_bytes (hash hasher e) ≡ false
  unfolding hash
  hash_nonzero z e = z (encode e)

  pub nonzero_last :
      (s : E.Store) (key : Bytes) (p : Option Bytes) (ids : List Bytes) (l : Bytes)
      → NeverZero hasher
      → IsLinked E hasher s key p ids
      → get_last? ids ≡ some l
      → is_zero_bytes l ≡ false
  nonzero_last s key p [] l z c e = cc
  nonzero_last s key p (x ∷ []) l z c e =
      let xl : x ≡ l = cc in
      let same : hash hasher c.0.entry ≡ l = c.0.hashed ∙ xl in
      subst (λ b. is_zero_bytes b ≡ false) same (hash_nonzero z c.0.entry)
  nonzero_last s key p (x ∷ y ∷ ids) l z c e =
      nonzero_last s key (some x) (y ∷ ids) l z c.1 (sym (get_last?-cons x y ids) ∙ e)

  fresh_in_chain :
      (s : E.Store) (key : Bytes) (ids : List Bytes) (entry : Entry)
      → NeverZero hasher
      → IsLinked E hasher s key none ids
      → Distinct ids
      → NoClash E hasher s entry
      → links (get_last? ids) (or_nil entry.previous) ≡ true
      → contains_id ids (hash hasher entry) ≡ false
  unfolding links contains_id
  fresh_in_chain s key ids entry z c d clear h = elim (Option-cases (get_last? ids)) [
    | inl e ↦ rw (get_last?-none ids e)
    | inr (l, e) ↦
        let same : l ≡ or_nil entry.previous =
          (equal_iff l (or_nil entry.previous)).0 (rw e at h) in
        let e' : get_last? ids ≡ some (or_nil entry.previous) =
          e ∙ ap (λ (b : Bytes). some b) same in
        fresh s key none ids entry c d clear e'
          (nonzero_last s key none ids (or_nil entry.previous) z c e')
  ]

  -- The keylog after `AppendEntry` has taken an entry.
  taken-IsChain :
      (keylog : Keylog E) (key : Bytes) (entry : Entry)
      → NeverZero hasher
      → NoClash E hasher keylog.entries entry
      → entry.key ≡ key
      → (E.set keylog.entries (hash hasher entry) entry).1 ≡ none
      → links (last keylog.idx) (or_nil entry.previous) ≡ true
      → IsChain keylog key
      → IsChain
          (record {
            entries = (E.set keylog.entries (hash hasher entry) entry).0;
            idx = accept keylog.idx (hash hasher entry) entry.ltime;
          })
          key
  unfolding accept last
  taken-IsChain keylog key entry z clear own q h c =
      let ids = keylog.idx.entries in
      let id = hash hasher entry in
      let s = (E.set keylog.entries id entry).0 in
      let here : E.get s id ≡ ok entry =
        E.get-set keylog.entries id id entry q ∙ rw (equal_refl id) in
      record {
        chained =
            IsLinked-snoc E hasher s key none ids id
              (IsLinked-set E hasher keylog.entries entry key none ids clear c.chained)
              (record {
                entry = entry;
                stored = here;
                hashed = refl;
                owned = own;
                linked = rw (last_or-get_last? ids) h;
              });
        distinct =
            Distinct-snoc ids id
              (fresh_in_chain keylog.entries key ids entry z c.chained c.distinct clear h)
              c.distinct;
      }

  -- `AppendEntry` of an entry of the key keeps the chain of the key, on every branch: whether the
  -- store fails, the entry does not link to the last one, or it is taken. The hash function never
  -- returns the zero hash, and the store has no other entry under the id of this one.
  pub append_entry-IsChain :
      (keylog : Keylog E) (key : Bytes) (entry : Entry)
      → NeverZero hasher
      → NoClash E hasher keylog.entries entry
      → entry.key ≡ key
      → IsChain keylog key
      → IsChain (append_entry E hasher keylog entry).0 key
  append_entry-IsChain keylog key entry z clear own c =
      elim (Option-cases (E.set keylog.entries (hash hasher entry) entry).1) [
        | inr (x, q) ↦ rw (append_entry_failed E hasher keylog entry x q) kept
        | inl q ↦ elim (Bool-cases (links (last keylog.idx) (or_nil entry.previous))) [
          | inl h ↦
              rw (append_entry_accepted E hasher keylog entry q h)
                (taken-IsChain keylog key entry z clear own q h c)
          | inr h ↦ rw (append_entry_refused E hasher keylog entry q h) kept
        ]
      ]
    where
      kept :
          IsChain
            (record keylog { entries = (E.set keylog.entries (hash hasher entry) entry).0 })
            key
      kept = record {
        chained =
            IsLinked-set E hasher keylog.entries entry key none keylog.idx.entries clear c.chained;
        distinct = c.distinct;
      }
