-- ===== src/IndexStore/Sorting.antt =====
-- The order in which `Iter` goes through the keys (store_index.go).
use mathlib.Core.List.{Perm}
use mathlib.Core.List.Perm
use hexalog.Prelude.{◌≡◌, refl, true, false, List, [], ◌∷◌, arith, Bool-cases, inl, inr, All}
use hexalog.Bytes.{Bytes, equal, equal_iff}
use hexalog.Map
use hexalog.Map.{Differ}
use hexalog.IndexStore.{InMemIndexStore, less_eq, insert_sorted, sort_strings, sorted_keys}

-- Each string is at most the next.
pub data IsSorted : List Bytes → Type 0 where
  nil : IsSorted []
  one : (k : Bytes) → IsSorted (k ∷ [])
  more :
      {j k : Bytes} {ks : List Bytes}
      → less_eq j k ≡ true
      → IsSorted (k ∷ ks)
      → IsSorted (j ∷ k ∷ ks)

less_eq_total : (a b : Bytes) → less_eq a b ≡ false → less_eq b a ≡ true
unfolding less_eq
less_eq_total [] b h = cc
less_eq_total (x ∷ a) [] h = refl
less_eq_total (x ∷ a) (y ∷ b) h = ground (arith, less_eq_total a b)

insert_sorted-IsSorted : (k : Bytes) (ks : List Bytes) → IsSorted ks → IsSorted (insert_sorted k ks)
unfolding insert_sorted
insert_sorted-IsSorted k [] nil = one k
insert_sorted-IsSorted k (j ∷ []) (one _) = elim (Bool-cases (less_eq k j)) [
  | inl e ↦ rw e (more e (one j))
  | inr e ↦ rw e (more (less_eq_total k j e) (one k))
]
insert_sorted-IsSorted k (j ∷ i ∷ ks) (more h s) = elim (Bool-cases (less_eq k j)) [
  | inl e ↦ rw e (more e (more h s))
  | inr e ↦ rw e (behind e (insert_sorted-IsSorted k (i ∷ ks) s))
]
  where
    behind :
        less_eq k j ≡ false
        → IsSorted (insert_sorted k (i ∷ ks))
        → IsSorted (j ∷ insert_sorted k (i ∷ ks))
    behind e t = elim (Bool-cases (less_eq k i)) [
      | inl f ↦ rw f (more (less_eq_total k j e) (rw f at t))
      | inr f ↦ rw f (more h (rw f at t))
    ]

insert_sorted-perm : (k : Bytes) (ks : List Bytes) → Perm (insert_sorted k ks) (k ∷ ks)
unfolding insert_sorted
insert_sorted-perm k [] = Perm.refl (k ∷ [])
insert_sorted-perm k (j ∷ ks) = elim (Bool-cases (less_eq k j)) [
  | inl e ↦ rw e (Perm.refl (k ∷ j ∷ ks))
  | inr e ↦ rw e (Perm.trans (Perm.cons j (insert_sorted-perm k ks)) (Perm.swap k j ks))
]

sort_strings-IsSorted : (ks : List Bytes) → IsSorted (sort_strings ks)
unfolding sort_strings
sort_strings-IsSorted [] = nil
sort_strings-IsSorted (k ∷ ks) =
    insert_sorted-IsSorted k (sort_strings ks) (sort_strings-IsSorted ks)

sort_strings-perm : (ks : List Bytes) → Perm (sort_strings ks) ks
unfolding sort_strings
sort_strings-perm [] = Perm.refl []
sort_strings-perm (k ∷ ks) =
    Perm.trans (insert_sorted-perm k (sort_strings ks)) (Perm.cons k (sort_strings-perm ks))

-- The keys come in ascending order, each as often as the map has it.
pub sorted_keys-IsSorted :
    (store : InMemIndexStore)
    → IsSorted (sorted_keys store) × Perm (sorted_keys store) (Map.keys store.m)
unfolding sorted_keys
sorted_keys-IsSorted store =
    (sort_strings-IsSorted (Map.keys store.m), sort_strings-perm (Map.keys store.m))

All-insert_sorted {κ} :
    (P : Bytes → Type κ) (k : Bytes) (ks : List Bytes) → P k → All P ks → All P (insert_sorted k ks)
unfolding insert_sorted
All-insert_sorted P k [] h hs = (h, tt)
All-insert_sorted P k (j ∷ ks) h hs = elim (Bool-cases (less_eq k j)) [
  | inl e ↦ rw e (h, hs)
  | inr e ↦ rw e (hs.0, All-insert_sorted P k ks h hs.1)
]

All-sort_strings {κ} : (P : Bytes → Type κ) (ks : List Bytes) → All P ks → All P (sort_strings ks)
unfolding sort_strings
All-sort_strings P [] hs = tt
All-sort_strings P (k ∷ ks) hs =
    All-insert_sorted P k (sort_strings ks) hs.0 (All-sort_strings P ks hs.1)

-- What holds of all keys of the map holds of the sorted keys.
pub All-sorted_keys {κ} :
    (P : Bytes → Type κ) (store : InMemIndexStore)
    → All P (Map.keys store.m)
    → All P (sorted_keys store)
unfolding sorted_keys
All-sorted_keys P store hs = All-sort_strings P (Map.keys store.m) hs

insert_sorted-Differ :
    (k : Bytes) (ks : List Bytes)
    → All (λ (j : Bytes). equal k j ≡ false) ks
    → Differ ks
    → Differ (insert_sorted k ks)
unfolding insert_sorted
insert_sorted-Differ k [] h d = (tt, tt)
insert_sorted-Differ k (j ∷ ks) h d = elim (Bool-cases (less_eq k j)) [
  | inl e ↦ rw e (h, d)
  | inr e ↦ rw e (
    All-insert_sorted (λ (i : Bytes). equal j i ≡ false) k ks
        (ground (arith, h.0, equal_iff j k, equal_iff k j)) d.0,
    insert_sorted-Differ k ks h.1 d.1,
  )
]

sort_strings-Differ : (ks : List Bytes) → Differ ks → Differ (sort_strings ks)
unfolding sort_strings
sort_strings-Differ [] d = tt
sort_strings-Differ (k ∷ ks) d =
    insert_sorted-Differ k (sort_strings ks)
      (All-sort_strings (λ (j : Bytes). equal k j ≡ false) ks d.0) (sort_strings-Differ ks d.1)

pub sorted_keys-Differ :
    (store : InMemIndexStore) → Differ (Map.keys store.m) → Differ (sorted_keys store)
unfolding sorted_keys
sorted_keys-Differ store d = sort_strings-Differ (Map.keys store.m) d

insert_sorted-All {κ} :
    (P : Bytes → Type κ) (k : Bytes) (ks : List Bytes) → All P (insert_sorted k ks) → P k × All P ks
unfolding insert_sorted
insert_sorted-All P k [] h = (h.0, tt)
insert_sorted-All P k (j ∷ ks) h = elim (Bool-cases (less_eq k j)) [
  | inl e ↦ rw e at h
  | inr e ↦
      let h' : P j × All P (insert_sorted k ks) = rw e at h in
      let (head, rest) = insert_sorted-All P k ks h'.1 in (head, (h'.0, rest))
]

sort_strings-All {κ} : (P : Bytes → Type κ) (ks : List Bytes) → All P (sort_strings ks) → All P ks
unfolding sort_strings
sort_strings-All P [] h = tt
sort_strings-All P (k ∷ ks) h =
    let (head, rest) = insert_sorted-All P k (sort_strings ks) h in
    (head, sort_strings-All P ks rest)

-- What holds of the sorted keys holds of all keys of the map.
pub sorted_keys-All {κ} :
    (P : Bytes → Type κ) (store : InMemIndexStore)
    → All P (sorted_keys store)
    → All P (Map.keys store.m)
unfolding sorted_keys
sorted_keys-All P store h = sort_strings-All P (Map.keys store.m) h
