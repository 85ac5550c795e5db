-- ===== src/Leader/Agreement.antt =====
-- What a consistent key is (`IsConsistent` of leader.go).
use hexalog.Prelude.{
  ℕ, suc, ◌+◌, ◌≡◌, refl, sym, ap, ◌∙◌, inl, inr, Bool, true, false, Option, none, some, List, [],
  ◌∷◌, ◌==◌, length, get_elem?, >>=-eq-some, subst, All, Bool-cases, Option-cases, arith,
}
use hexalog.Bytes.{Bytes, equal_iff}
use hexalog.Error.{ok}
use hexalog.Entry.{Entry, Hasher, hash}
use hexalog.Options.{Participant}
use mathlib.Core.Option.{some-injective}
use hexalog.Leader.Highest.{count_nils, search_max-nils}
use hexalog.Leader.{
  KeyLeader, differs, first_other, is_consistent, leader_of, search_max, no_search,
}

-- The last entry of a location is there and has this id.
abbrev pub Agrees : Hasher → Bytes → Option Entry → Type 0
Agrees hasher id none = ⊥
Agrees hasher id (some e) = hash hasher e ≡ id

differs-Agrees :
    (hasher : Hasher) (id : Bytes) (e : Option Entry)
    → differs hasher id e ≡ false
    → Agrees hasher id e
differs-Agrees hasher id none h = cc
differs-Agrees hasher id (some e) h = ground (arith, equal_iff id (hash hasher e))

-- Without another entry, all agree but the one at the leader's index, which is not looked at.
first_other-Agrees :
    (hasher : Hasher) (id : Bytes) (idx : ℕ) (lasts : List (Option Entry)) (i : ℕ)
    → first_other hasher id idx lasts i ≡ none
    → ((j : ℕ) (e : Option Entry) → get_elem? lasts j ≡ some e → i + j ≡ idx → Agrees hasher id e)
    → All (Agrees hasher id) lasts
unfolding first_other
first_other-Agrees hasher id idx [] i h own = tt
first_other-Agrees hasher id idx (e ∷ lasts) i h own = elim (Bool-cases (i == idx)) [
  | inl here ↦ (
    own 0 e refl (ground arith),
    first_other-Agrees hasher id idx lasts (i + 1) (ground arith)
        (λ j f g k. own (suc j) f g (omega arith)),
  )
  | inr other ↦ elim (Bool-cases (differs hasher id e)) [
    | inl d ↦ absurd (ground arith)
    | inr d ↦ (
      differs-Agrees hasher id e d,
      first_other-Agrees hasher id idx lasts (i + 1) (ground arith)
          (λ j f g k. own (suc j) f g (omega arith)),
    )
  ]
]

-- If `IsConsistent` answers true, it names the leader's location, and the last entries of all
-- locations are there and have the id of the leader's.
pub is_consistent-Agrees :
    (hasher : Hasher) (l : KeyLeader) (loc : Participant)
    → is_consistent hasher l ≡ some (true, loc)
    → (e : Entry) × (get_elem? l.lasts l.idx ≡ some (some e))
      × All (Agrees hasher (hash hasher e)) l.lasts
      × (get_elem? l.locs l.idx ≡ some loc)
unfolding is_consistent
is_consistent-Agrees hasher l loc h = elim (Option-cases (get_elem? l.lasts l.idx)) [
  | inl e ↦ absurd (ground (arith, rw (e, is_consistent) at h))
  | inr (none, e) ↦ absurd (ground (arith, rw (e, is_consistent) at h))
  | inr (some last, e) ↦
      elim (Option-cases (first_other hasher (hash hasher last) l.idx l.lasts 0)) [
        | inr (i, f) ↦
            let (at, _, q) =
              >>=-eq-some (get_elem? l.locs i) _ (rw f at (rw (e, is_consistent) at h)) in
            absurd (ground arith)
        | inl f ↦
            let (at, p, q) =
              >>=-eq-some (get_elem? l.locs l.idx) _ (rw f at (rw (e, is_consistent) at h)) in
            (
              last,
              e,
              first_other-Agrees hasher (hash hasher last) l.idx l.lasts 0 f
                  (λ j g k m. own last e j g k m),
              p
                  ∙ ap (λ (x : Participant). some x)
                      (ap (λ (x : Bool × Participant). x.1) (some-injective _ _ q)),
            )
      ]
]
  where
    own :
        (last : Entry)
        → get_elem? l.lasts l.idx ≡ some (some last)
        → (j : ℕ) (g : Option Entry) → get_elem? l.lasts j ≡ some g
        → 0 + j ≡ l.idx
        → Agrees hasher (hash hasher last) g
    own last e j g k m =
        let same : j ≡ l.idx = omega arith in
        let q : some (some last) ≡ some g = sym e ∙ (sym (ap (get_elem? l.lasts) same) ∙ k) in
        subst (Agrees hasher (hash hasher last)) (some-injective _ _ q) refl

nils_all :
    (lasts : List (Option Entry))
    → All (λ (e : Option Entry). e ≡ none) lasts
    → count_nils lasts ≡ length lasts
unfolding count_nils
nils_all [] h = refl
nils_all (none ∷ lasts) h = omega (arith, nils_all lasts h.1)
nils_all (some e ∷ lasts) h = cc

-- If the last entry of each location is nil, the leader is the first location, and asking whether
-- the key is consistent panics.
pub is_consistent-no_entries :
    (hasher : Hasher) (locs : List Participant) (lasts : List (Option Entry))
    → length lasts ≡ length locs
    → All (λ (e : Option Entry). e ≡ none) lasts
    → (l : KeyLeader) × (leader_of locs lasts ≡ ok l)
      × (l.idx ≡ 0)
      × (is_consistent hasher l ≡ none)
unfolding is_consistent leader_of
is_consistent-no_entries hasher locs lasts n h =
    let nils : (search_max lasts 0 no_search).nils ≡ length locs =
      omega (arith, search_max-nils lasts 0 no_search, nils_all lasts h) in
    (
      record { key = none; idx = 0; locs = locs; lasts = lasts },
      ground arith,
      refl,
      no_first lasts h,
    )
  where
    no_first :
        (lasts : List (Option Entry))
        → All (λ (e : Option Entry). e ≡ none) lasts
        → is_consistent hasher (record { key = none; idx = 0; locs = locs; lasts = lasts }) ≡ none
    no_first [] h = refl
    no_first (none ∷ lasts) h = refl
    no_first (some e ∷ lasts) h = cc
