-- ===== src/Map.antt =====
-- Go's maps with string keys. The association list is private: clients go by `map_laws`.
use hexalog.Prelude.{
  subst, ◌≡◌, refl, Option, none, some, List, [], ◌∷◌, arith, if◌then◌else◌, map, length, ℕ, Bool,
  true, false, All, All-map, Bool-cases, inl, inr,
}
use hexalog.Bytes.{Bytes, equal, equal_iff, equal_refl}

pub record Map {ℓ} (V : Type ℓ) : Type ℓ where
  items : List (Bytes × V)

module _ {ℓ} {V : Type ℓ} where
  find : Bytes → List (Bytes × V) → Option V
  find k [] = none
  find k ((j, v) ∷ l) = if equal j k then some v else find k l

  without : Bytes → List (Bytes × V) → List (Bytes × V)
  without k [] = []
  without k ((j, v) ∷ l) = let rest = without k l in if equal j k then rest else (j, v) ∷ rest

  find-without :
      (k j : Bytes) (l : List (Bytes × V))
      → find j (without k l) ≡ (if equal k j then none else find j l)
  unfolding find without
  find-without k j [] = ground arith
  find-without k j ((i, v) ∷ l) =
      ground (arith, find-without k j l, equal_iff i k, equal_iff i j, equal_iff k j)

  -- make(map[string]V)
  unfoldable pub empty : Map V
  empty = record { items = [] }

  -- v, ok := m[k]
  unfoldable pub get : Map V → Bytes → Option V
  unfolding find
  get m k = find k m.items

  -- m[k] = v
  unfoldable pub put : Map V → Bytes → V → Map V
  unfolding without
  put m k v = record { items = (k, v) ∷ without k m.items }

  -- delete(m, k)
  unfoldable pub remove : Map V → Bytes → Map V
  unfolding without
  remove m k = record { items = without k m.items }

  -- The keys of `range m`, each once; Go leaves their order open.
  unfoldable pub keys : Map V → List Bytes
  keys m = map (λ p. p.0) m.items

  -- len(m)
  unfoldable pub size : Map V → ℕ
  size m = length m.items

  pub get-remove :
      (m : Map V) (k j : Bytes) → get (remove m k) j ≡ (if equal k j then none else get m j)
  unfolding get remove
  get-remove m k j = find-without k j m.items

  pub get-put :
      (m : Map V) (k j : Bytes) (v : V)
      → get (put m k v) j ≡ (if equal k j then some v else get m j)
  unfolding get put find
  get-put m k j v = simp find-without (ground arith)

-- Whether a key is in a list of keys.
unfoldable pub among : Bytes → List Bytes → Bool
among k [] = false
among k (j ∷ ks) = let rest = among k ks in if equal j k then true else rest

find-keys {ℓ} :
    {V : Type ℓ} (l : List (Bytes × V)) (k : Bytes)
    → among k (map (λ p. p.0) l) ≡ false
    → find k l ≡ none
unfolding among find
find-keys [] k h = refl
find-keys ((j, v) ∷ l) k h = ground (arith, find-keys l k)

find-held {ℓ} :
    {V : Type ℓ} (l : List (Bytes × V))
    → All (λ (k : Bytes). (v : V) × (find k l ≡ some v)) (map (λ p. p.0) l)
unfolding find
find-held [] = tt
find-held ((j, v) ∷ l) = (
  (v, rw (equal_refl j)),
  All-map (map (λ p. p.0) l)
      (λ k (w, e). elim (Bool-cases (equal j k)) [
        | inl same ↦ (v, rw same)
        | inr other ↦ (w, rw other e)
      ])
      (find-held l),
)

-- Each of the keys has a value.
pub get-held {ℓ} :
    {V : Type ℓ} (m : Map V) → All (λ (k : Bytes). (v : V) × (get m k ≡ some v)) (keys m)
unfolding get keys
get-held m = find-held m.items

-- A key that is not among the keys has no value.
pub get-keys {ℓ} : {V : Type ℓ} (m : Map V) (k : Bytes) → among k (keys m) ≡ false → get m k ≡ none
unfolding get keys
get-keys m k h = find-keys m.items k h

All-find {ℓ κ} :
    {V : Type ℓ} (P : Bytes → Type κ) (l : List (Bytes × V)) (k : Bytes) (v : V)
    → All P (map (λ p. p.0) l)
    → find k l ≡ some v
    → P k
unfolding find
All-find P [] k v h e = absurd cc
All-find P ((j, w) ∷ l) k v h e = elim (Bool-cases (equal j k)) [
  | inl same ↦ subst P ((equal_iff j k).0 same) h.0
  | inr other ↦ All-find P l k v h.1 (rw other at e)
]

-- What holds of all keys holds of one that has a value.
pub All-keys {ℓ κ} :
    {V : Type ℓ} (P : Bytes → Type κ) (m : Map V) (k : Bytes) (v : V)
    → All P (keys m)
    → get m k ≡ some v
    → P k
unfolding get keys
All-keys P m k v hs e = All-find P m.items k v hs e

-- Keys of which no two are the same.
abbrev pub Differ : List Bytes → Type 0
Differ [] = Unit {0}
Differ (k ∷ ks) = All (λ (j : Bytes). equal k j ≡ false) ks × Differ ks

All-without {ℓ κ} :
    {V : Type ℓ} (P : Bytes → Type κ) (k : Bytes) (l : List (Bytes × V))
    → All P (map (λ p. p.0) l)
    → All P (map (λ p. p.0) (without k l))
unfolding without
All-without P k [] h = tt
All-without P k ((j, v) ∷ l) h = elim (Bool-cases (equal j k)) [
  | inl e ↦ rw e (All-without P k l h.1)
  | inr e ↦ rw e (h.0, All-without P k l h.1)
]

without-gone {ℓ} :
    {V : Type ℓ} (k : Bytes) (l : List (Bytes × V))
    → All (λ (j : Bytes). equal k j ≡ false) (map (λ p. p.0) (without k l))
unfolding without
without-gone k [] = tt
without-gone k ((j, v) ∷ l) = elim (Bool-cases (equal j k)) [
  | inl e ↦ rw e (without-gone k l)
  | inr e ↦ rw e (ground (arith, e, equal_iff j k, equal_iff k j), without-gone k l)
]

without-Differ {ℓ} :
    {V : Type ℓ} (k : Bytes) (l : List (Bytes × V))
    → Differ (map (λ p. p.0) l)
    → Differ (map (λ p. p.0) (without k l))
unfolding without
without-Differ k [] h = tt
without-Differ k ((j, v) ∷ l) h = elim (Bool-cases (equal j k)) [
  | inl e ↦ rw e (without-Differ k l h.1)
  | inr e ↦ rw e (All-without (λ (i : Bytes). equal j i ≡ false) k l h.0, without-Differ k l h.1)
]

-- A map never has a key twice.
pub put-Differ {ℓ} :
    {V : Type ℓ} (m : Map V) (k : Bytes) (v : V) → Differ (keys m) → Differ (keys (put m k v))
unfolding put keys
put-Differ m k v h = (without-gone k m.items, without-Differ k m.items h)

pub get-empty {ℓ} : {V : Type ℓ} (k : Bytes) → get (empty {V = V}) k ≡ none
unfolding get empty find
get-empty k = refl

pub ruleset map_laws = (get-empty, get-remove, get-put)
