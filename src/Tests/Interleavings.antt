-- ===== src/Tests/Interleavings.antt =====
-- Two goroutines whose calls on an index overlap.
use hexalog.Prelude.{ℕ, refl, none, [], ◌∷◌}
use hexalog.Index.{UnsafeKeylogIndex, new_safe_keylog_index}
use hexalog.Index.Safe.{
  Method, asks_key, appends, mode, effect, Shared, enters, loads, finishes, Reach, here, next,
  started, Replays, outside, entered, loaded, moved, stored,
}
use hexalog.Index.Safe.Interleaving.{Reach-Replays}
use hexalog.Tests.Data.{key}

abbrev fresh : UnsafeKeylogIndex
fresh = new_safe_keylog_index key none

abbrev appending : Method ℕ
appending = appends (1 ∷ []) (0 ∷ []) 3

abbrev asking : Method ℕ
asking = asks_key

abbrev entering : Shared ℕ
entering = record (started fresh) { threads = moved (λ i. outside) 0 (entered appending) }

abbrev both_in : Shared ℕ
both_in = record entering { threads = moved entering.threads 1 (entered asking) }

abbrev one_read : Shared ℕ
one_read = record both_in { threads = moved both_in.threads 0 (loaded appending fresh) }

abbrev both_read : Shared ℕ
both_read = record one_read { threads = moved one_read.threads 1 (loaded asking fresh) }

abbrev one_done : Shared ℕ
one_done = record {
  idx = stored (mode appending) (effect appending fresh).0 fresh;
  threads = moved both_read.threads 0 outside;
  log = (appending, (effect appending fresh).1) ∷ [];
}

abbrev both_done : Shared ℕ
both_done = record {
  idx = stored (mode asking) (effect asking fresh).0 one_done.idx;
  threads = moved one_done.threads 1 outside;
  log = (appending, (effect appending fresh).1) ∷ (asking, (effect asking fresh).1) ∷ [];
}

overlapping : Reach (started fresh) both_done
unfolding mode
overlapping =
    next
      (next
        (next
          (next
            (next (next here (enters (started fresh) 0 appending refl (λ j. refl)))
              (enters entering 1 asking refl tt))
            (loads both_in 0 appending refl))
          (loads one_read 1 asking refl))
        (finishes both_read 0 appending fresh refl))
      (finishes one_done 1 asking fresh refl)

Reach-Replays_example : Replays fresh both_done.log both_done.idx
Reach-Replays_example = Reach-Replays fresh both_done overlapping
