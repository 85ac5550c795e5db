-- ===== src/Entry/Encoding.antt =====
-- What the bytes that `Entry.Hash` writes (entry.go) determine of the entry.
use mathlib.Core.List.{append_assoc}
use hexalog.Prelude.{
  ℕ, zero, suc, ◌/◌, ◌%◌, ◌^◌, ◌<◌, ◌≡◌, refl, sym, ap, ◌∙◌, [], ◌∷◌, ◌++◌, arith, length,
  length-append,
}
use native.Mathlib.Nat.{pow-suc}
use hexalog.Bytes.{Bytes, or_nil, big_endian}
use hexalog.Entry.{Entry, Hasher, encode, hash}

append_split : (a b c d : Bytes) → length a ≡ length b → a ++ c ≡ b ++ d → (a ≡ b) × (c ≡ d)
append_split [] [] c d l e = (refl, e)
append_split [] (y ∷ b) c d l e = absurd (omega arith)
append_split (x ∷ a) [] c d l e = absurd (omega arith)
append_split (x ∷ a) (y ∷ b) c d l e = ground (arith, append_split a b c d)

pub length-big_endian : (w n : ℕ) → length (big_endian w n) ≡ w
unfolding big_endian
length-big_endian zero n = refl
length-big_endian (suc w) n =
    omega (
      arith,
      length-append (big_endian w (n / 256)) ((n % 256) ∷ []),
      length-big_endian w (n / 256),
    )

snoc_split :
    (a b : Bytes) (x y : ℕ) → length a ≡ length b → a ++ x ∷ [] ≡ b ++ y ∷ [] → (a ≡ b) × (x ≡ y)
snoc_split a b x y l e = ground (arith, append_split a b (x ∷ []) (y ∷ []) l e)

big_endian_injective :
    (w m n : ℕ) → m < 256 ^ w → n < 256 ^ w → big_endian w m ≡ big_endian w n → m ≡ n
unfolding big_endian
big_endian_injective zero m n p q e = omega arith
big_endian_injective (suc w) m n p q e =
    let (high, low) =
      snoc_split (big_endian w (m / 256)) (big_endian w (n / 256)) (m % 256) (n % 256) same e in
    let rest = big_endian_injective w (m / 256) (n / 256) (shorter m p) (shorter n q) high in
    omega arith
  where
    same : length (big_endian w (m / 256)) ≡ length (big_endian w (n / 256))
    same = omega (arith, length-big_endian w (m / 256), length-big_endian w (n / 256))

    shorter : (k : ℕ) → k < 256 ^ suc w → k / 256 < 256 ^ w
    shorter k h = omega (arith, pow-suc 256 w)

-- The integer fields fit the types that the program gives them.
pub record IsInRange (e : Entry) : Type 0 where
  pub timestamp_fits : e.timestamp < 256 ^ 8
  pub ltime_fits : e.ltime < 256 ^ 8
  pub height_fits : e.height < 256 ^ 4

-- Two entries agree in all that `Hash` reads; a nil and an empty `Previous` count as the same.
pub record SameContent (e f : Entry) : Type 0 where
  pub same_previous : or_nil e.previous ≡ or_nil f.previous
  pub same_timestamp : e.timestamp ≡ f.timestamp
  pub same_ltime : e.ltime ≡ f.ltime
  pub same_height : e.height ≡ f.height
  pub same_key : e.key ≡ f.key
  pub same_payload : e.payload ≡ f.payload

-- Entries in range whose previous ids are equally long and whose keys are equally long, and for
-- which `Hash` writes the same bytes, agree in every field.
pub encode-SameContent :
    (e f : Entry)
    → IsInRange e
    → IsInRange f
    → length (or_nil e.previous) ≡ length (or_nil f.previous)
    → length e.key ≡ length f.key
    → encode e ≡ encode f
    → SameContent e f
unfolding encode
encode-SameContent e f re rf lp lk same =
    let (p, r1) = append_split (or_nil e.previous) (or_nil f.previous) _ _ lp same in
    let (t, r2) =
      append_split (big_endian 8 e.timestamp) (big_endian 8 f.timestamp) _ _
        (width 8 e.timestamp f.timestamp) r1 in
    let (l, r3) =
      append_split (big_endian 8 e.ltime) (big_endian 8 f.ltime) _ _ (width 8 e.ltime f.ltime) r2 in
    let (h, r4) =
      append_split (big_endian 4 e.height) (big_endian 4 f.height) _ _ (width 4 e.height f.height)
        r3 in
    let (k, d) = append_split e.key f.key _ _ lk r4 in
    record {
      same_previous = p;
      same_timestamp =
          big_endian_injective 8 e.timestamp f.timestamp re.timestamp_fits rf.timestamp_fits t;
      same_ltime = big_endian_injective 8 e.ltime f.ltime re.ltime_fits rf.ltime_fits l;
      same_height = big_endian_injective 4 e.height f.height re.height_fits rf.height_fits h;
      same_key = k;
      same_payload = d;
    }
  where
    width : (w m n : ℕ) → length (big_endian w m) ≡ length (big_endian w n)
    width w m n = omega (arith, length-big_endian w m, length-big_endian w n)

-- The key and the data are hashed with nothing between them: whatever the hash function, moving
-- bytes from the front of the data to the end of the key leaves the id of an entry as it was.
pub hash-move_boundary :
    (hasher : Hasher) (e : Entry) (moved rest : Bytes)
    → e.payload ≡ moved ++ rest
    → hash hasher (record e { key = e.key ++ moved; payload = rest }) ≡ hash hasher e
unfolding hash encode
hash-move_boundary hasher e moved rest h = ap hasher.sum (
    ap (◌++◌ (or_nil e.previous)) (
      ap (◌++◌ (big_endian 8 e.timestamp)) (
        ap (◌++◌ (big_endian 8 e.ltime)) (
          ap (◌++◌ (big_endian 4 e.height))
            (append_assoc e.key moved rest ∙ ap (◌++◌ e.key) (sym h))))))
