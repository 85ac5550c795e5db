-- ===== src/Tests/Votes.antt =====
-- A ballot of two votes.
use hexalog.Prelude.{
  get_elem?, set, ◌==◌, if◌then◌else◌, ℕ, ◌≤◌, arith, length, ◌+◌, ◌≡◌, refl, true, false, Option,
  none, some, List, [], ◌∷◌,
}
use hexalog.Bytes.{Bytes, equal}
use hexalog.Error.{ok, err, ballot_timed_out, ballot_closed, key_exists}
use hexalog.Future.{new_future_entry}
use hexalog.Ballot.{
  Ballot, Timer, unset, running, closed_error, is_blank, proposals, new_ballot, vote_propose,
  vote_commit, expire, close, wait,
}
use hexalog.Ballot
use hexalog.Ballot.Votes.{vote_propose_once, one_if}
use hexalog.Ballot.Validity.{
  IsValid, Call, call, proposes, waits, closes, commits, expires, close-IsValid, run, run-IsValid,
  new_ballot-IsValid, vote_propose-IsValid,
}
use hexalog.Ballot.Bounds.{run-bounds}
use hexalog.Ballot.Closing.{Ended, run-Ended, close-wait, expire_times_out}
use hexalog.Tests.Data.{entry_1, host_a, host_b}

abbrev pub id_1 : Bytes
id_1 = 5 ∷ []

abbrev pub fresh : Ballot ℕ
fresh = new_ballot (new_future_entry id_1 entry_1) 2

abbrev pub after {ℓ} : {A : Type ℓ} → Option (Ballot ℕ × A) → Ballot ℕ
after none = fresh
after (some (b, r)) = b

abbrev pub with_proposal : Ballot ℕ
with_proposal = after (vote_propose fresh id_1 host_a 0 5)

abbrev with_commit : Ballot ℕ
with_commit = after (vote_commit with_proposal id_1 host_b 1)

abbrev pub shut_ballot : Ballot ℕ
shut_ballot = after (close with_proposal (some key_exists) 9)

proposed_once : vote_propose fresh id_1 host_a 0 5 ≡ some (with_proposal, ok (1, true))
unfolding new_ballot new_future_entry vote_propose Ballot.count_votes equal
proposed_once = refl

free_slot : get_elem? fresh.proposed 0 ≡ some []
unfolding new_ballot
free_slot = refl

is_new : fresh.closed ≡ false
unfolding new_ballot
is_new = refl

vote_propose_once_example :
    let n = proposals fresh + one_if true in
    (b : Ballot ℕ) × (vote_propose fresh fresh.fentry.id host_a 0 5 ≡ some (b, ok (n, true)))
    × (b.proposed ≡ set fresh.proposed 0 host_a)
    × (proposals b ≡ n)
    × (b.committed ≡ fresh.committed)
    × (b.timer ≡ (if n == 1 then running else fresh.timer))
    × (vote_propose b fresh.fentry.id host_b 0 6 ≡ some (b, ok (n, false)))
vote_propose_once_example = vote_propose_once fresh host_a host_b [] 0 5 6 is_new refl free_slot

committed_once : vote_commit with_proposal id_1 host_b 1 ≡ some (with_commit, ok (1, true))
unfolding new_ballot new_future_entry vote_propose vote_commit Ballot.count_votes equal
committed_once = refl

abbrev calls : List Call
calls = proposes id_1 host_a 0 5 ∷ commits id_1 host_b 1 ∷ closes none 7 ∷ waits ∷ []

abbrev or_fresh : Option (Ballot ℕ) → Ballot ℕ
or_fresh none = fresh
or_fresh (some b) = b

abbrev told : Ballot ℕ
told = or_fresh (run fresh calls)

ran : run fresh calls ≡ some told
unfolding run call new_ballot new_future_entry vote_propose vote_commit close wait
    Ballot.count_votes equal
ran = refl

run-IsValid_example : IsValid told
run-IsValid_example = run-IsValid (new_future_entry id_1 entry_1) 2 calls told ran

run-bounds_example :
    (proposals told ≤ 2) × (Ballot.commits told ≤ 2) × (told.done + length told.errc ≤ 2)
run-bounds_example = run-bounds (new_future_entry id_1 entry_1) 2 calls told (omega arith) ran

is_shut : shut_ballot.closed ≡ true
unfolding new_ballot new_future_entry vote_propose close Ballot.count_votes equal
is_shut = refl

pub proposal-IsValid : IsValid with_proposal
proposal-IsValid =
    vote_propose-IsValid fresh with_proposal id_1 host_a 0 5 (ok (1, true))
      (new_ballot-IsValid (new_future_entry id_1 entry_1) 2) proposed_once

pub is_open : with_proposal.closed ≡ false
unfolding new_ballot new_future_entry vote_propose Ballot.count_votes equal
is_open = refl

closing : close with_proposal (some key_exists) 9 ≡ some (shut_ballot, none)
unfolding new_ballot new_future_entry vote_propose close Ballot.count_votes equal
closing = refl

close-wait_example :
    (b : Ballot ℕ) × (wait shut_ballot ≡ some (b, some key_exists)) × (wait b ≡ none)
close-wait_example =
    close-wait with_proposal shut_ballot (some key_exists) none 9 proposal-IsValid is_open closing

pub is_running : with_proposal.timer ≡ running
unfolding new_ballot new_future_entry vote_propose Ballot.count_votes equal
is_running = refl

no_error_yet : with_proposal.error ≡ none
unfolding new_ballot new_future_entry vote_propose Ballot.count_votes equal
no_error_yet = refl

expire_times_out_example :
    ((expire with_proposal).closed ≡ true)
    × ((expire with_proposal).error ≡ none)
    × (wait (expire with_proposal)
        ≡ some (record (expire with_proposal) { errc = [] }, some ballot_timed_out))
    × (vote_propose (expire with_proposal) with_proposal.fentry.id host_b 1 11
        ≡ some (expire with_proposal, err ballot_closed))
expire_times_out_example =
    expire_times_out with_proposal host_b 1 11 proposal-IsValid is_running no_error_yet

-- Late calls on the ballot that was closed with an error.
abbrev late_calls : List Call
late_calls =
    proposes (6 ∷ []) host_b 1 10 ∷ commits id_1 host_b 1 ∷ expires ∷ closes none 11 ∷ waits ∷ []

late : Ballot ℕ
late = or_fresh (run shut_ballot late_calls)

ran_late : run shut_ballot late_calls ≡ some late
unfolding late run call new_ballot new_future_entry vote_propose vote_commit close wait expire
    Ballot.count_votes equal
ran_late = refl

shut-IsValid : IsValid shut_ballot
shut-IsValid =
    close-IsValid with_proposal shut_ballot (some key_exists) none 9 proposal-IsValid closing

run-Ended_example : Ended shut_ballot late
run-Ended_example = run-Ended shut_ballot late late_calls shut-IsValid is_shut ran_late
