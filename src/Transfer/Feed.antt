-- ===== src/Transfer/Feed.antt =====
-- The messages that a keylog is sent as (`PullKeylogRPC` of net.go).
use mathlib.Core.List.{append_assoc, append-nil}
use hexalog.Prelude.{
  ◌≡◌, refl, sym, ap, ◌∙◌, subst, inl, inr, true, false, Option, none, some, List, [], ◌∷◌, ◌++◌,
  arith, Bool-cases, Option-cases, get_last?,
}
use hexalog.Bytes.{Bytes, or_nil, equal, equal_iff, is_zero_bytes}
use hexalog.Error.{ok}
use hexalog.Entry.{Entry}
use hexalog.Index.{UnsafeKeylogIndex, last, links, contains_id}
use hexalog.Index
use hexalog.Index.{seek_from}
use hexalog.Keylog.{Keylog}
use hexalog.Keylog
use hexalog.Keylog.Chain.{Holds, IsLinked, last_or, last_or-get_last?}
use hexalog.Keylog.Chain.Distinct.{Distinct, NeverZero, last-ne, hash_nonzero}
use hexalog.Node.{Config}
use hexalog.Transfer.{Message, send}
use hexalog.Transfer.Pull.{IsFeed, ids_of}

-- What a list of ids has before and from a place of one of them on.
pub Distinct-before :
    (before : List Bytes) (l : Bytes) (after : List Bytes)
    → Distinct (before ++ l ∷ after)
    → contains_id before l ≡ false
unfolding contains_id
Distinct-before [] l after d = refl
Distinct-before (x ∷ before) l after d =
    ground (arith, Distinct-before before l after d.1, apart before x l after d.0)
  where
    apart :
        (before : List Bytes) (x l : Bytes) (after : List Bytes)
        → contains_id (before ++ l ∷ after) x ≡ false
        → equal x l ≡ false
    apart [] x l after h = ground (arith, equal_iff x l, equal_iff l x)
    apart (y ∷ before) x l after h = apart before x l after (ground arith)

module _ (conf : Config) where
  pub IsLinked-split :
      (s : conf.entry_store.Store) (key : Bytes) (p : Option Bytes) (xs ys : List Bytes)
      → IsLinked conf.entry_store conf.hasher s key p (xs ++ ys)
      → IsLinked conf.entry_store conf.hasher s key (last_or p xs) ys
  IsLinked-split s key p [] ys c = c
  IsLinked-split s key p (x ∷ xs) ys c = IsLinked-split s key (some x) xs ys c.1

  -- The messages for a chain of ids.
  pub record Fed (s : conf.entry_store.Store) (key : Bytes) (p : Option Bytes) (ids : List Bytes)
      (sent : List Message) : Type 0 where
    pub feed : List Message
    pub is_feed : IsFeed conf key p feed
    pub ids_are : ids_of conf feed ≡ ids
    pub streamed :
        Index.each
          (Keylog.visit conf.entry_store conf.hasher (λ (t : List Message). s) (send conf))
          ids
          sent
        ≡ (sent ++ feed, none)

  pub stream_next :
      (s : conf.entry_store.Store) (x : Bytes) (ids : List Bytes) (sent : List Message) (e : Entry)
      → conf.entry_store.get s x ≡ ok e
      → Index.each
          (Keylog.visit conf.entry_store conf.hasher (λ (t : List Message). s) (send conf))
          (x ∷ ids)
          sent
        ≡ Index.each
            (Keylog.visit conf.entry_store conf.hasher (λ (t : List Message). s) (send conf))
            ids
            (sent ++ record { id = x; entry = e } ∷ [])
  unfolding Index.each Keylog.visit send
  stream_next s x ids sent e q = ground arith

  pub each-send :
      (s : conf.entry_store.Store) (key : Bytes) (p : Option Bytes) (ids : List Bytes)
      (sent : List Message)
      → IsLinked conf.entry_store conf.hasher s key p ids
      → Fed s key p ids sent
  unfolding Index.each
  each-send s key p [] sent c = record {
    feed = [];
    is_feed = tt;
    ids_are = refl;
    streamed = ap (λ (l : List Message). (l, none)) (sym (append-nil sent));
  }
  each-send s key p (x ∷ ids) sent (h, c) =
      let m : Message = record { id = x; entry = h.entry } in
      let rest = each-send s key (some x) ids (sent ++ m ∷ []) c in
      record {
        feed = m ∷ rest.feed;
        is_feed = (h.owned, h.hashed, h.linked, rest.is_feed);
        ids_are = ap (◌∷◌ x) rest.ids_are;
        streamed =
            stream_next s x ids sent h.entry h.stored
            ∙ (rest.streamed
                ∙ ap (λ (l : List Message). (l, none)) (append_assoc sent (m ∷ []) rest.feed));
      }

  -- The entry of a chain's id does not link to that id: its previous id is another.
  pub not_own_link :
      (s : conf.entry_store.Store) (key : Bytes) (before : List Bytes) (l : Bytes)
      → NeverZero conf.hasher
      → contains_id before l ≡ false
      → (h : Holds conf.entry_store conf.hasher s key (last_or none before) l)
      → links (some l) (or_nil h.entry.previous) ≡ false
  unfolding links
  not_own_link s key before l z out h = elim (Option-cases (get_last? before)) [
    | inl e ↦
        let zero : is_zero_bytes (or_nil h.entry.previous) ≡ true =
          subst (λ p. links p (or_nil h.entry.previous) ≡ true) (last_or-get_last? before ∙ e)
            h.linked in
        let nonzero : is_zero_bytes l ≡ false =
          subst (λ b. is_zero_bytes b ≡ false) h.hashed
            (hash_nonzero conf.entry_store conf.hasher z h.entry) in
        apart_by l (or_nil h.entry.previous) nonzero zero
    | inr (q, e) ↦
        let linked : equal q (or_nil h.entry.previous) ≡ true =
          subst (λ p. links p (or_nil h.entry.previous) ≡ true) (last_or-get_last? before ∙ e)
            h.linked in
        let other : equal l q ≡ false = last-ne before l q e out in
        ground (
          arith,
          equal_iff q (or_nil h.entry.previous),
          equal_iff l (or_nil h.entry.previous),
          equal_iff l q,
        )
  ]
    where
      apart_by :
          (a b : Bytes) → is_zero_bytes a ≡ false → is_zero_bytes b ≡ true → equal a b ≡ false
      apart_by a b n y = elim (Bool-cases (equal a b)) [
        | inr o ↦ o
        | inl same ↦
            let e : is_zero_bytes a ≡ is_zero_bytes b = ap is_zero_bytes ((equal_iff a b).0 same) in
            cc
      ]
