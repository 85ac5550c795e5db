-- ===== src/Bytes.antt =====
-- Go's `[]byte` and the operations of package bytes and encoding/binary that the program uses, with
-- `isZeroBytes` of keylogindex.go. A slice that may be nil is an `Option Bytes`.
use hexalog.Prelude.{
  ℕ, zero, suc, ◌/◌, ◌%◌, ◌≡◌, refl, ◌↔◌, Bool, true, false, ◌&&◌, Option, none, some, List, [],
  ◌∷◌, ◌++◌, arith, ◌==◌, if◌then◌else◌, replicate,
}

abbrev pub Bytes : Type 0
Bytes = List ℕ

-- A nil slice has no bytes.
abbrev pub or_nil : Option Bytes → Bytes
or_nil none = []
or_nil (some b) = b

-- `bytes.Compare(a, b) == 0`, and `==` of the strings made from two slices.
unfoldable pub equal : Bytes → Bytes → Bool
equal [] [] = true
equal [] (y ∷ ys) = false
equal (x ∷ xs) [] = false
equal (x ∷ xs) (y ∷ ys) = x == y && equal xs ys

pub equal→eq : (a b : Bytes) → equal a b ≡ true → a ≡ b
unfolding equal
equal→eq [] [] h = refl
equal→eq [] (y ∷ ys) h = cc
equal→eq (x ∷ xs) [] h = cc
equal→eq (x ∷ xs) (y ∷ ys) h = ground (arith, equal→eq xs ys)

pub equal_refl : (a : Bytes) → equal a a ≡ true
unfolding equal
equal_refl [] = refl
equal_refl (x ∷ xs) = ground (arith, equal_refl xs)

pub equal_iff : (a b : Bytes) → (equal a b ≡ true) ↔ (a ≡ b)
equal_iff a b = (equal→eq a b, λ e. rw e (equal_refl b))

-- `make([]byte, n)`.
abbrev pub zero_bytes : ℕ → Bytes
zero_bytes n = replicate n 0

unfoldable pub is_zero_bytes : Bytes → Bool
is_zero_bytes [] = true
is_zero_bytes (v ∷ b) = let rest = is_zero_bytes b in if v == 0 then rest else false

pub is_zero_bytes-zero_bytes : (n : ℕ) → is_zero_bytes (zero_bytes n) ≡ true
unfolding is_zero_bytes
is_zero_bytes-zero_bytes zero = refl
is_zero_bytes-zero_bytes (suc n) = is_zero_bytes-zero_bytes n

-- `binary.Write(w, binary.BigEndian, n)` of an unsigned integer of so many bytes.
unfoldable pub big_endian : ℕ → ℕ → Bytes
big_endian zero n = []
big_endian (suc w) n = big_endian w (n / 256) ++ (n % 256) ∷ []
