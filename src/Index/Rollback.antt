-- ===== src/Index/Rollback.antt =====
-- `Append` and `Rollback` (ukeylogindex.go) undo one another, but for the marker.
use hexalog.Prelude.{ℕ, ◌≡◌, refl, true, arith}
use hexalog.Bytes.{Bytes}
use hexalog.Index.{UnsafeKeylogIndex, links, last, append, rollback, accept, lower, count}
use hexalog.Index.Calls.{append_accepted, rollback-snoc}
use hexalog.Index.Invariant.{IsValid}

-- On a valid index, rolling back an id that was just accepted gives the entries, the height and
-- the key from before it, reports as many entries as there were, and sets the ltime to the one
-- given where that is positive and below the ltime of the id that goes.
pub rollback-append :
    (idx : UnsafeKeylogIndex) (id prev : Bytes) (ltime back : ℕ)
    → IsValid idx
    → links (last idx) prev ≡ true
    → let (after, left, done) = rollback (append idx id prev ltime).0 back in
      (after.entries ≡ idx.entries)
      × (after.height ≡ idx.height)
      × (after.key ≡ idx.key)
      × (after.ltime ≡ lower back ltime)
      × (left ≡ count idx)
      × (done ≡ true)
unfolding count accept
rollback-append idx id prev ltime back v h = rw (append_accepted idx id prev ltime h) (
    rw (rollback-snoc (accept idx id ltime) idx.entries id back refl)
      (refl, omega arith, refl, refl, refl, refl))
