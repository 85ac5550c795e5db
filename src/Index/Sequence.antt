-- ===== src/Index/Sequence.antt =====
-- What any calls on a new index leave (ukeylogindex.go).
use hexalog.Prelude.{ℕ, Option, List, [], ◌∷◌}
use hexalog.Bytes.{Bytes}
use hexalog.Index.{UnsafeKeylogIndex, new_safe_keylog_index, append, set_marker, rollback}
use hexalog.Index.Invariant.{
  IsValid, new-IsValid, append-IsValid, set_marker-IsValid, rollback-IsValid,
}

-- The calls that change an index.
pub data Call : Type 0 where
  appends : Bytes → Bytes → ℕ → Call
  sets_marker : Option Bytes → Call
  rolls_back : ℕ → Call

abbrev pub call : UnsafeKeylogIndex → Call → UnsafeKeylogIndex
call idx (appends id prev ltime) = (append idx id prev ltime).0
call idx (sets_marker marker) = (set_marker idx marker).0
call idx (rolls_back ltime) = (rollback idx ltime).0

abbrev pub sequence : UnsafeKeylogIndex → List Call → UnsafeKeylogIndex
sequence idx [] = idx
sequence idx (c ∷ cs) = sequence (call idx c) cs

call-IsValid : (idx : UnsafeKeylogIndex) (c : Call) → IsValid idx → IsValid (call idx c)
call-IsValid idx (appends id prev ltime) v = append-IsValid idx id prev ltime v
call-IsValid idx (sets_marker marker) v = set_marker-IsValid idx marker v
call-IsValid idx (rolls_back ltime) v = rollback-IsValid idx ltime v

sequence_keeps :
    (cs : List Call) (idx : UnsafeKeylogIndex) → IsValid idx → IsValid (sequence idx cs)
sequence_keeps [] idx v = v
sequence_keeps (c ∷ cs) idx v = sequence_keeps cs (call idx c) (call-IsValid idx c v)

-- After any calls of `Append`, `SetMarker` and `Rollback` on a new index, its height is the number of
-- its entries modulo 2^32, and its marker is none of its entries.
pub sequence-IsValid :
    (key : Bytes) (marker : Option Bytes) (cs : List Call)
    → IsValid (sequence (new_safe_keylog_index key marker) cs)
sequence-IsValid key marker cs =
    sequence_keeps cs (new_safe_keylog_index key marker) (new-IsValid key marker)
