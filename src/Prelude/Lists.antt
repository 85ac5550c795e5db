-- ===== src/Prelude/Lists.antt =====
-- Lists measured and indexed by native numbers, under the library's names, and predicates on them.
use Prim.Native.Nat.{ℕ, zero, suc, ◌+◌, ◌-◌, ◌<◌}
use mathlib.Core.Path.{◌≡◌, refl, ap, sym, ◌∙◌}
use mathlib.Core.Logic.{◌≢◌, ◌⊎◌, inl, inr}
use mathlib.Core.List.{List, [], ◌∷◌, ◌++◌}
use mathlib.Core.Option.{Option, none, some}
use native.Mathlib.Omega.{arith}

module _ {ℓ} {A : Type ℓ} where
  abbrev pub length : List A → ℕ
  length [] = 0
  length (x ∷ xs) = suc (length xs)

  abbrev pub get_elem? : List A → ℕ → Option A
  get_elem? [] i = none
  get_elem? (x ∷ xs) zero = some x
  get_elem? (x ∷ xs) (suc i) = get_elem? xs i

  -- A write out of bounds changes nothing.
  abbrev pub set : List A → ℕ → A → List A
  set [] i v = []
  set (x ∷ xs) zero v = v ∷ xs
  set (x ∷ xs) (suc i) v = x ∷ set xs i v

  abbrev pub take : ℕ → List A → List A
  take zero xs = []
  take (suc n) [] = []
  take (suc n) (x ∷ xs) = x ∷ take n xs

  abbrev pub replicate : ℕ → A → List A
  replicate zero a = []
  replicate (suc n) a = a ∷ replicate n a

  abbrev pub get_last? : List A → Option A
  get_last? [] = none
  get_last? (x ∷ xs) = elim (get_last? xs) [ none ↦ some x | some y ↦ some y ]

  abbrev pub All {κ} : (A → Type κ) → List A → Type κ
  All P [] = Unit
  All P (x ∷ xs) = P x × All P xs

module _ {ℓ} {A : Type ℓ} where
  pub length-append : (xs ys : List A) → length (xs ++ ys) ≡ length xs + length ys
  length-append [] ys = omega arith
  length-append (x ∷ xs) ys = omega (arith, length-append xs ys)

  pub length-set : (xs : List A) (i : ℕ) (v : A) → length (set xs i v) ≡ length xs
  length-set [] i v = refl
  length-set (x ∷ xs) zero v = refl
  length-set (x ∷ xs) (suc i) v = ap suc (length-set xs i v)

  pub length-replicate : (n : ℕ) (a : A) → length (replicate n a) ≡ n
  length-replicate zero a = refl
  length-replicate (suc n) a = ap suc (length-replicate n a)

  pub get_last?-snoc : (xs : List A) (a : A) → get_last? (xs ++ a ∷ []) ≡ some a
  get_last?-snoc [] a = refl
  get_last?-snoc (x ∷ xs) a = rw (get_last?-snoc xs a)

  pub take-snoc : (xs : List A) (a : A) → take (length xs) (xs ++ a ∷ []) ≡ xs
  take-snoc [] a = refl
  take-snoc (x ∷ xs) a = ap (◌∷◌ x) (take-snoc xs a)

  pub take-length-snoc :
      (xs : List A) (a : A) → take (length (xs ++ a ∷ []) - 1) (xs ++ a ∷ []) ≡ xs
  take-length-snoc xs a =
      let e : length (xs ++ a ∷ []) - 1 ≡ length xs = omega (arith, length-append xs (a ∷ [])) in
      rw e (take-snoc xs a)

  pub get_last?-cons : (x y : A) (r : List A) → get_last? (x ∷ y ∷ r) ≡ get_last? (y ∷ r)
  get_last?-cons x y r = ground arith

  -- A list with a last element is what stands before it, and the element.
  pub snoc-view :
      (xs : List A) (a : A) → get_last? xs ≡ some a → (ys : List A) × (xs ≡ ys ++ a ∷ [])
  snoc-view [] a h = cc
  snoc-view (x ∷ []) a h = ([], cc)
  snoc-view (x ∷ y ∷ r) a h =
      let (ys, e) = snoc-view (y ∷ r) a (sym (get_last?-cons x y r) ∙ h) in (x ∷ ys, ap (◌∷◌ x) e)

  pub snoc_cases : (xs : List A) → (xs ≡ []) ⊎ ((ys : List A) × (a : A) × (xs ≡ ys ++ a ∷ []))
  snoc_cases [] = inl refl
  snoc_cases (x ∷ xs) = elim (snoc_cases xs) [
    | inl e ↦ inr ([], x, ap (◌∷◌ x) e)
    | inr (ys, a, e) ↦ inr (x ∷ ys, a, ap (◌∷◌ x) e)
  ]

  pub get_last?-none : (xs : List A) → get_last? xs ≡ none → xs ≡ []
  get_last?-none [] h = refl
  get_last?-none (x ∷ xs) h = absurd (ground arith)

  pub get_elem?-set_self :
      (xs : List A) (i : ℕ) (v : A) → i < length xs → get_elem? (set xs i v) i ≡ some v
  get_elem?-set_self [] i v h = elim h [ ]
  get_elem?-set_self (x ∷ xs) zero v h = refl
  get_elem?-set_self (x ∷ xs) (suc i) v h = get_elem?-set_self xs i v (omega arith)

  pub get_elem?-set_ne :
      (xs : List A) {i j : ℕ} (v : A) → i ≢ j → get_elem? (set xs i v) j ≡ get_elem? xs j
  get_elem?-set_ne [] v h = refl
  get_elem?-set_ne (x ∷ xs) {i = zero} {j = zero} v h = absurd (h refl)
  get_elem?-set_ne (x ∷ xs) {i = zero} {j = suc j} v h = refl
  get_elem?-set_ne (x ∷ xs) {i = suc i} {j = zero} v h = refl
  get_elem?-set_ne (x ∷ xs) {i = suc i} {j = suc j} v h = get_elem?-set_ne xs v (λ e. h (ap suc e))

pub All-map {ℓ κ} :
    {A : Type ℓ} {P Q : A → Type κ} (xs : List A) → ((x : A) → P x → Q x) → All P xs → All Q xs
All-map [] f h = tt
All-map (x ∷ xs) f h = (f x h.0, All-map xs f h.1)

pub in_range {ℓ} :
    {A : Type ℓ} (xs : List A) (i : ℕ) (v : A) → get_elem? xs i ≡ some v → i < length xs
in_range [] i v h = cc
in_range (x ∷ xs) zero v h = omega arith
in_range (x ∷ xs) (suc i) v h = omega (arith, in_range xs i v h)
