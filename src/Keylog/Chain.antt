-- ===== src/Keylog/Chain.antt =====
-- The entries of a keylog as a chain (keylog.go): each id of the index names an entry in the store
-- that hashes to it, belongs to the key, and names the id before it as its previous one.
pub mod Distinct
pub mod Rollback
pub mod Agreement
use hexalog.Prelude.{
  ℕ, ◌≡◌, refl, sym, ap, ◌∙◌, subst, Bool, true, false, Option, none, some, List, [], ◌∷◌, ◌++◌,
  arith, Bool-cases, inl, inr, get_last?, get_last?-cons, Option-cases, if◌then◌else◌,
}
use hexalog.Bytes.{Bytes, or_nil, equal, equal_iff, equal_refl}
use hexalog.Error.{Result, ok, err}
use hexalog.Entry.{Entry, Hasher, hash}
use hexalog.EntryStore.{EntryStore}
use hexalog.Index.{links, contains_id}

-- The id that an entry after these ids has to name, where `p` stands before them.
abbrev pub last_or : Option Bytes → List Bytes → Option Bytes
last_or p [] = p
last_or p (id ∷ ids) = last_or (some id) ids

last_or-cons : (x : Bytes) (ids : List Bytes) → last_or (some x) ids ≡ get_last? (x ∷ ids)
last_or-cons x [] = refl
last_or-cons x (y ∷ ids) = last_or-cons y ids ∙ sym (get_last?-cons x y ids)

pub last_or-get_last? : (ids : List Bytes) → last_or none ids ≡ get_last? ids
last_or-get_last? [] = refl
last_or-get_last? (x ∷ ids) = last_or-cons x ids

module _ (E : EntryStore) (hasher : Hasher) where
  pub record Holds (entries : E.Store) (key : Bytes) (p : Option Bytes) (id : Bytes) : Type 0 where
    pub entry : Entry
    pub stored : E.get entries id ≡ ok entry
    pub hashed : hash hasher entry ≡ id
    pub owned : entry.key ≡ key
    pub linked : links p (or_nil entry.previous) ≡ true

  abbrev pub IsLinked : E.Store → Bytes → Option Bytes → List Bytes → Type 0
  IsLinked entries key p [] = Unit {0}
  IsLinked entries key p (id ∷ ids) = Holds entries key p id × IsLinked entries key (some id) ids

  -- No other entry stands in the store under the id of this one.
  abbrev pub NoClash : E.Store → Entry → Type 0
  NoClash entries entry = (e : Entry) → E.get entries (hash hasher entry) ≡ ok e → e ≡ entry

  pub IsLinked-snoc :
      (entries : E.Store) (key : Bytes) (p : Option Bytes) (ids : List Bytes) (id : Bytes)
      → IsLinked entries key p ids
      → Holds entries key (last_or p ids) id
      → IsLinked entries key p (ids ++ id ∷ [])
  IsLinked-snoc entries key p [] id c h = (h, tt)
  IsLinked-snoc entries key p (x ∷ ids) id c h =
      (c.0, IsLinked-snoc entries key (some x) ids id c.1 h)

  pub IsLinked-drop :
      (entries : E.Store) (key : Bytes) (p : Option Bytes) (ids : List Bytes) (id : Bytes)
      → IsLinked entries key p (ids ++ id ∷ [])
      → IsLinked entries key p ids
  IsLinked-drop entries key p [] id c = tt
  IsLinked-drop entries key p (x ∷ ids) id c = (c.0, IsLinked-drop entries key (some x) ids id c.1)

  -- A chain stays one in a store that still has the entries of the key under the ids of the chain.
  pub IsLinked-stable :
      (s t : E.Store) (key : Bytes) (p : Option Bytes) (ids : List Bytes)
      → ((j : Bytes) (e : Entry)
          → contains_id ids j ≡ true
          → e.key ≡ key
          → E.get s j ≡ ok e
          → E.get t j ≡ ok e)
      → IsLinked s key p ids
      → IsLinked t key p ids
  unfolding contains_id
  IsLinked-stable s t key p [] keep c = tt
  IsLinked-stable s t key p (id ∷ ids) keep (h, c) = (
    record {
      entry = h.entry;
      stored = keep id h.entry (rw (equal_refl id)) h.owned h.stored;
      hashed = h.hashed;
      owned = h.owned;
      linked = h.linked;
    },
    IsLinked-stable s t key (some id) ids (λ j e m. keep j e (ground arith)) c,
  )

  -- Storing an entry under its id keeps every chain, if the id names no other entry.
  pub IsLinked-set :
      (s : E.Store) (entry : Entry) (key : Bytes) (p : Option Bytes) (ids : List Bytes)
      → NoClash s entry
      → IsLinked s key p ids
      → IsLinked (E.set s (hash hasher entry) entry).0 key p ids
  IsLinked-set s entry key p ids clear =
      IsLinked-stable s (E.set s (hash hasher entry) entry).0 key p ids λ j e m o g. kept j e g
    where
      kept :
          (j : Bytes) (e : Entry)
          → E.get s j ≡ ok e
          → E.get (E.set s (hash hasher entry) entry).0 j ≡ ok e
      kept j e g = elim (Option-cases (E.set s (hash hasher entry) entry).1) [
        | inl q ↦ ground (
          arith,
          E.get-set s (hash hasher entry) j entry q,
          equal_iff (hash hasher entry) j,
          clear e,
        )
        | inr (x, q) ↦ E.get-set_failed s (hash hasher entry) j entry x q ∙ g
      ]

  -- Deleting an id that is not in a chain keeps the chain.
  pub IsLinked-delete :
      (s : E.Store) (id key : Bytes) (p : Option Bytes) (ids : List Bytes)
      → contains_id ids id ≡ false
      → IsLinked s key p ids
      → IsLinked (E.delete s id).0 key p ids
  IsLinked-delete s id key p ids out =
      IsLinked-stable s (E.delete s id).0 key p ids λ j e m o g. kept j e m g
    where
      kept :
          (j : Bytes) (e : Entry)
          → contains_id ids j ≡ true
          → E.get s j ≡ ok e
          → E.get (E.delete s id).0 j ≡ ok e
      kept j e m g = elim (Option-cases (E.delete s id).1) [
        | inl q ↦ ground (arith, E.get-delete s id j q, equal_iff id j)
        | inr (x, q) ↦ E.get-delete_failed s id j x q ∙ g
      ]
