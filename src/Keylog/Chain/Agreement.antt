-- ===== src/Keylog/Chain/Agreement.antt =====
-- The chains of one key in two stores (keylog.go): how much their last ids tell.
use hexalog.Prelude.{
  ℕ, zero, suc, ◌≤◌, ◌≡◌, refl, sym, ap, ◌∙◌, subst, true, false, Option, none, some, List, [], ◌∷◌,
  ◌++◌, arith, inl, inr, length, length-append, get_last?, get_last?-snoc, get_last?-none,
  snoc_cases, snoc-view,
}
use hexalog.Bytes.{Bytes, or_nil, equal_iff, is_zero_bytes}
use hexalog.Error.{ok}
use hexalog.Entry.{Entry, Hasher}
use hexalog.EntryStore.{EntryStore}
use hexalog.Index.{links}
use hexalog.Keylog.Chain.{last_or, last_or-get_last?, Holds, IsLinked, IsLinked-drop}
use hexalog.Keylog.Chain.Distinct.{NeverZero, nonzero_last}

-- Both name the same entry before, or both none, if an id is never the zero hash.
links_agree :
    (p q : Option Bytes) (prev : Bytes)
    → ((l : Bytes) → p ≡ some l → is_zero_bytes l ≡ false)
    → ((l : Bytes) → q ≡ some l → is_zero_bytes l ≡ false)
    → links p prev ≡ true
    → links q prev ≡ true
    → p ≡ q
unfolding links
links_agree none none prev z w h k = refl
links_agree none (some m) prev z w h k =
    let same : m ≡ prev = (equal_iff m prev).0 k in
    let clash : is_zero_bytes prev ≡ false = ap is_zero_bytes (sym same) ∙ w m refl in cc
links_agree (some l) none prev z w h k =
    let same : l ≡ prev = (equal_iff l prev).0 h in
    let clash : is_zero_bytes prev ≡ false = ap is_zero_bytes (sym same) ∙ z l refl in cc
links_agree (some l) (some m) prev z w h k =
    ap (λ (b : Bytes). some b) ((equal_iff l prev).0 h ∙ sym ((equal_iff m prev).0 k))

module _ (E : EntryStore) (hasher : Hasher) where
  -- What the store holds under an id is what the id names.
  abbrev pub AgreesWith : (Bytes → Entry) → E.Store → Type 0
  AgreesWith named entries = (id : Bytes) (e : Entry) → E.get entries id ≡ ok e → e ≡ named id

  pub IsLinked-last :
      (s : E.Store) (key : Bytes) (p : Option Bytes) (ids : List Bytes) (id : Bytes)
      → IsLinked E hasher s key p (ids ++ id ∷ [])
      → Holds E hasher s key (last_or p ids) id
  IsLinked-last s key p [] id c = c.0
  IsLinked-last s key p (x ∷ ids) id c = IsLinked-last s key (some x) ids id c.1

  module _ (z : NeverZero hasher) (named : Bytes → Entry) (key : Bytes) (s t : E.Store)
      (in_s : AgreesWith named s) (in_t : AgreesWith named t) where
    fits_named :
        (u : E.Store) (ids : List Bytes) (id : Bytes)
        → AgreesWith named u
        → IsLinked E hasher u key none (ids ++ id ∷ [])
        → links (last_or none ids) (or_nil (named id).previous) ≡ true
    fits_named u ids id a c =
        let h = IsLinked-last u key none ids id c in
        subst (λ e. links (last_or none ids) (or_nil e.previous) ≡ true) (a id h.entry h.stored)
          h.linked

    never_zero :
        (u : E.Store) (ids : List Bytes) (l : Bytes)
        → IsLinked E hasher u key none ids
        → last_or none ids ≡ some l
        → is_zero_bytes l ≡ false
    never_zero u ids l c e =
        nonzero_last E hasher u key none ids l z c (sym (last_or-get_last? ids) ∙ e)

    before_agree :
        (us vs : List Bytes) (a : Bytes)
        → IsLinked E hasher s key none (us ++ a ∷ [])
        → IsLinked E hasher t key none (vs ++ a ∷ [])
        → get_last? us ≡ get_last? vs
    before_agree us vs a c d =
        sym (last_or-get_last? us)
        ∙ (links_agree (last_or none us) (last_or none vs) (or_nil (named a).previous)
              (λ l. never_zero s us l (IsLinked-drop E hasher s key none us a c))
              (λ l. never_zero t vs l (IsLinked-drop E hasher t key none vs a d))
              (fits_named s us a in_s c) (fits_named t vs a in_t d)
            ∙ last_or-get_last? vs)

    agree_to :
        (n : ℕ) (xs ys : List Bytes)
        → length xs ≤ n
        → IsLinked E hasher s key none xs
        → IsLinked E hasher t key none ys
        → get_last? xs ≡ get_last? ys
        → xs ≡ ys
    agree_to zero [] ys m c d e = sym (get_last?-none ys (sym e))
    agree_to zero (x ∷ xs) ys m c d e = absurd (omega arith)
    agree_to (suc n) xs ys m c d e = elim (snoc_cases xs) [
      | inl p ↦ p ∙ sym (get_last?-none ys (sym e ∙ ap get_last? p))
      | inr (us, a, p) ↦
          let at : get_last? ys ≡ some a = sym e ∙ (ap get_last? p ∙ get_last?-snoc us a) in
          let (vs, q) = snoc-view ys a at in
          let c' = subst (IsLinked E hasher s key none) p c in
          let d' = subst (IsLinked E hasher t key none) q d in
          let rest : us ≡ vs =
            agree_to n us vs (omega (arith, ap length p, length-append us (a ∷ [])))
              (IsLinked-drop E hasher s key none us a c')
              (IsLinked-drop E hasher t key none vs a d') (before_agree us vs a c' d') in
          p ∙ (ap (λ (l : List Bytes). l ++ a ∷ []) rest ∙ sym q)
    ]

    -- Two chains of a key, in stores that agree on what each id names, are the same if they end in
    -- the same id.
    pub chains_agree :
        (xs ys : List Bytes)
        → IsLinked E hasher s key none xs
        → IsLinked E hasher t key none ys
        → get_last? xs ≡ get_last? ys
        → xs ≡ ys
    chains_agree xs ys c d e = agree_to (length xs) xs ys (omega arith) c d e
