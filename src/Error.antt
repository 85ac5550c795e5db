-- ===== src/Error.antt =====
-- The errors that the program returns: its own (ballot.go, keylog.go, future.go), those of package
-- hexatype that it returns or tests for, and those that it formats where they arise. Go's results
-- `(T, error)` of which the value counts only without an error are a `Result`.
use hexalog.Prelude.{ℕ, Option, none, some}

pub data Error : Type 0 where
  -- hexatype
  previous_hash key_exists key_not_found entry_not_found key_degraded key_invalid : Error
  insufficient_peers : Error
  -- ballot.go
  ballot_timed_out ballot_closed ballot_not_found invalid_vote_id : Error
  -- keylog.go, future.go
  not_last_entry timed_out : Error
  -- fmt.Errorf in hexalog.go, leader.go and pool.go
  not_in_peer_set no_max_height transport_shutdown : Error
  -- an error of the application, of the network or of a peer, by a code
  foreign : ℕ → Error
  -- mergeErrors of two errors
  merged : Error → Error → Error

pub data Result {ℓ} (A : Type ℓ) : Type ℓ where
  ok : A → Result A
  err : Error → Result A

-- hexalog_utils.go
unfoldable pub merge_errors : Option Error → Option Error → Option Error
merge_errors (some e) (some f) = some (merged e f)
merge_errors (some e) none = some e
merge_errors none f = f
