-- ===== src/Entry.antt =====
-- entry.go and the `Entry` message of rpc.proto: an entry of the log and its hash id. The hash
-- function is a parameter of the configuration (`sha1.New` by default), taken as a `Hasher`.
pub mod Encoding
use hexalog.Prelude.{ℕ, ◌++◌, ◌≡◌, Option, length}
use hexalog.Bytes.{Bytes, or_nil, big_endian}

-- `func() hash.Hash`: what `Sum(nil)` returns for the bytes written, always `Size()` of them.
pub record Hasher : Type 0 where
  pub size : ℕ
  pub sum : Bytes → Bytes
  pub length-sum : (b : Bytes) → length (sum b) ≡ size

-- Height is a uint32, Timestamp and LTime are uint64; `Previous` may be nil.
pub record Entry : Type 0 where
  pub key : Bytes
  pub previous : Option Bytes
  pub height : ℕ
  pub timestamp : ℕ
  pub ltime : ℕ
  pub payload : Bytes

unfoldable pub clone : Entry → Entry
clone entry = record {
  key = entry.key;
  previous = entry.previous;
  timestamp = entry.timestamp;
  ltime = entry.ltime;
  height = entry.height;
  payload = entry.payload;
}

-- What `Hash` writes, in its order.
unfoldable pub encode : Entry → Bytes
encode entry =
    or_nil entry.previous
    ++ (big_endian 8 entry.timestamp
        ++ (big_endian 8 entry.ltime
            ++ (big_endian 4 entry.height ++ (entry.key ++ entry.payload))))

unfoldable pub hash : Hasher → Entry → Bytes
hash hasher entry = hasher.sum (encode entry)
