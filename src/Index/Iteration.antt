-- ===== src/Index/Iteration.antt =====
-- What `Iter` visits (ukeylogindex.go).
use hexalog.Prelude.{◌≡◌, refl, ap, ◌∙◌, false, Option, none, some, List, [], ◌∷◌, ◌++◌, arith}
use hexalog.Bytes.{Bytes, equal_refl, equal_iff}
use hexalog.Error.{Error, entry_not_found}
use mathlib.Core.List.{append_assoc, append-nil}
use hexalog.Index.{UnsafeKeylogIndex, contains_id, contains, seek_from, each, iter}

pub seek_from-append :
    (before after : List Bytes) (seek : Bytes)
    → contains_id before seek ≡ false
    → seek_from seek (before ++ seek ∷ after) ≡ some (seek ∷ after)
unfolding contains_id seek_from
seek_from-append [] after seek h = rw (equal_refl seek)
seek_from-append (x ∷ before) after seek h =
    ground (arith, seek_from-append before after seek, equal_iff x seek, equal_iff seek x)

pub seek_from-none :
    (ids : List Bytes) (seek : Bytes) → contains_id ids seek ≡ false → seek_from seek ids ≡ none
unfolding contains_id seek_from
seek_from-none [] seek h = refl
seek_from-none (x ∷ ids) seek h =
    ground (arith, seek_from-none ids seek, equal_iff x seek, equal_iff seek x)

-- The callback that notes the ids that it is given.
abbrev pub note : Bytes → List Bytes → List Bytes × Option Error
note id seen = (seen ++ id ∷ [], none)

each-note : (ids seen : List Bytes) → each note ids seen ≡ (seen ++ ids, none)
unfolding each
each-note [] seen = ground (arith, append-nil seen)
each-note (x ∷ ids) seen =
    each-note ids (seen ++ x ∷ [])
    ∙ ap (λ (l : List Bytes). (l, none)) (append_assoc seen (x ∷ []) ids)

-- Without a seek position `Iter` visits all entries in order.
iter_all : (idx : UnsafeKeylogIndex) → iter idx none note [] ≡ (idx.entries, none)
unfolding iter
iter_all idx = each-note idx.entries []

-- With a seek position that is among the entries, `Iter` visits the entries in order from its
-- first occurrence on, that one included.
iter_from :
    (idx : UnsafeKeylogIndex) (before after : List Bytes) (seek : Bytes)
    → idx.entries ≡ before ++ seek ∷ after
    → contains_id before seek ≡ false
    → iter idx (some seek) note [] ≡ (seek ∷ after, none)
unfolding iter
iter_from idx before after seek e h =
    rw (e, iter) (rw (seek_from-append before after seek h) (each-note (seek ∷ after) []))

-- A seek position that is no entry is an error, and the callback is not called.
pub iter_missing {ℓ} :
    {S : Type ℓ} (idx : UnsafeKeylogIndex) (seek : Bytes) (cb : Bytes → S → S × Option Error)
    (s : S)
    → contains idx seek ≡ false
    → iter idx (some seek) cb s ≡ (s, some entry_not_found)
unfolding contains iter
iter_missing idx seek cb s h = rw (seek_from-none idx.entries seek h, iter)
