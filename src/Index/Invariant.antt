-- ===== src/Index/Invariant.antt =====
-- What holds of an index after any calls of its methods (ukeylogindex.go).
use hexalog.Prelude.{
  ℕ, ◌+◌, ◌-◌, ◌%◌, ◌^◌, ◌≡◌, refl, ap, ◌∙◌, subst, false, true, Option, none, some, List, [], ◌∷◌,
  ◌++◌, arith, length, length-append, Bool-cases, inl, inr, snoc_cases, if◌then◌else◌,
}
use hexalog.Bytes.{Bytes, equal, equal_iff}
use hexalog.Index.Calls.{rollback-snoc, rollback-nil}
use hexalog.Index.{
  UnsafeKeylogIndex, new_safe_keylog_index, contains_id, append, set_marker, rollback, clear_marker,
  u32,
}

-- A marker names an entry that is still missing.
abbrev pub IsMissing : Option Bytes → List Bytes → Type 0
IsMissing none ids = Unit {0}
IsMissing (some m) ids = contains_id ids m ≡ false

-- The height counts the entries, modulo the width of its type.
pub record IsValid (idx : UnsafeKeylogIndex) : Type 0 where
  pub counted : idx.height ≡ length idx.entries % 2 ^ 32
  pub missing : IsMissing idx.marker idx.entries

pub contains_id-append :
    (ids : List Bytes) (id m : Bytes)
    → contains_id (ids ++ id ∷ []) m ≡ (if contains_id ids m then true else equal id m)
unfolding contains_id
contains_id-append [] id m = ground arith
contains_id-append (x ∷ ids) id m = ground (arith, contains_id-append ids id m)

contains_id-drop :
    (ids : List Bytes) (id m : Bytes)
    → contains_id (ids ++ id ∷ []) m ≡ false
    → contains_id ids m ≡ false
contains_id-drop ids id m h = ground (arith, contains_id-append ids id m)

IsMissing-clear :
    (marker : Option Bytes) (ids : List Bytes) (id : Bytes)
    → IsMissing marker ids
    → IsMissing (clear_marker marker id) (ids ++ id ∷ [])
unfolding clear_marker
IsMissing-clear none ids id h = tt
IsMissing-clear (some m) ids id h = elim (Bool-cases (equal m id)) [
  | inl e ↦ rw e tt
  | inr e ↦ rw e (ground (arith, contains_id-append ids id m, equal_iff m id, equal_iff id m))
]

pub new-IsValid : (key : Bytes) (marker : Option Bytes) → IsValid (new_safe_keylog_index key marker)
unfolding new_safe_keylog_index contains_id
new-IsValid key none = record { counted = refl; missing = tt }
new-IsValid key (some m) = record { counted = refl; missing = refl }

pub append-IsValid :
    (idx : UnsafeKeylogIndex) (id prev : Bytes) (ltime : ℕ)
    → IsValid idx
    → IsValid (append idx id prev ltime).0
unfolding append
append-IsValid idx id prev ltime v = ground (
  arith,
  length-append idx.entries (id ∷ []),
  IsMissing-clear idx.marker idx.entries id v.missing,
)

pub set_marker-IsValid :
    (idx : UnsafeKeylogIndex) (marker : Option Bytes)
    → IsValid idx
    → IsValid (set_marker idx marker).0
unfolding set_marker
set_marker-IsValid idx none v = ground arith
set_marker-IsValid idx (some m) v = ground arith

IsMissing-drop :
    (marker : Option Bytes) (ids : List Bytes) (id : Bytes)
    → IsMissing marker (ids ++ id ∷ [])
    → IsMissing marker ids
IsMissing-drop none ids id h = tt
IsMissing-drop (some m) ids id h = contains_id-drop ids id m h

height_back :
    (idx : UnsafeKeylogIndex) (ids : List Bytes) (id : Bytes)
    → idx.entries ≡ ids ++ id ∷ []
    → idx.height ≡ length idx.entries % 2 ^ 32
    → u32 (idx.height + 2 ^ 32 - 1) ≡ length ids % 2 ^ 32
height_back idx ids id e h =
    let n : length idx.entries ≡ length ids + 1 =
      ap length e ∙ omega (arith, length-append ids (id ∷ [])) in
    omega arith

pub rollback-IsValid :
    (idx : UnsafeKeylogIndex) (ltime : ℕ) → IsValid idx → IsValid (rollback idx ltime).0
rollback-IsValid idx ltime v = elim (snoc_cases idx.entries) [
  | inl e ↦ rw (rollback-nil idx ltime e) v
  | inr (ids, id, e) ↦ rw (rollback-snoc idx ids id ltime e) (record {
    counted = height_back idx ids id e v.counted;
    missing = IsMissing-drop idx.marker ids id (subst (IsMissing idx.marker) e v.missing);
  })
]
