-- ===== src/Ballot.antt =====
-- ballot.go: one vote on an entry, with its proposals and its commits, a time to live, and the two
-- channels on which its end is told. `none` as the result of a call is a run-time panic.
pub mod Votes
pub mod Validity
pub mod Closing
pub mod Bounds
use hexalog.Prelude.{
  ℕ, zero, suc, ◌+◌, ◌≡◌, refl, Bool, true, false, Option, none, some, List, [], ◌∷◌, ◌++◌, arith,
  ◌==◌, if◌then◌else◌, length, get_elem?, set, replicate,
}
use hexalog.Bytes.{Bytes, equal}
use hexalog.Error.{Error, Result, ok, err, ballot_timed_out, ballot_closed, invalid_vote_id}
use hexalog.Entry.{Entry}
use hexalog.Future.{FutureEntry}

-- The timer is nil until the first proposal.
pub data Timer : Type 0 where
  unset running stopped fired : Timer

-- `done` counts the signals in its channel, and `errc` holds the errors in its own.
pub record Ballot (Data : Type 0) : Type 0 where
  pub fentry : FutureEntry Data
  pub dispatched : Option ℕ
  pub completed : Option ℕ
  pub timer : Timer
  pub proposed : List Bytes
  pub committed : List Bytes
  pub votes : ℕ
  pub errc : List Error
  pub error : Option Error
  pub done : ℕ
  pub closed : Bool

-- A slot without a vote holds the empty string.
abbrev pub is_blank : Bytes → Bool
is_blank [] = true
is_blank (c ∷ s) = false

unfoldable pub count_votes : List Bytes → ℕ
count_votes [] = 0
count_votes (v ∷ arr) = let c = count_votes arr in if is_blank v then c else c + 1

unfoldable pub has_voter : List Bytes → Bytes → Bool
has_voter [] voter = false
has_voter (s ∷ arr) voter = let rest = has_voter arr voter in if equal s voter then true else rest

module _ {Data : Type 0} where
  unfoldable pub new_ballot : FutureEntry Data → ℕ → Ballot Data
  new_ballot fentry required = record {
    fentry = fentry;
    dispatched = none;
    completed = none;
    timer = unset;
    proposed = replicate required [];
    committed = replicate required [];
    votes = required;
    errc = [];
    error = none;
    done = 0;
    closed = false;
  }

  unfoldable pub commits : Ballot Data → ℕ
  commits b = count_votes b.committed

  unfoldable pub proposals : Ballot Data → ℕ
  proposals b = count_votes b.proposed

  unfoldable pub have_proposal : Ballot Data → Bytes → Bool
  have_proposal b voter = has_voter b.proposed voter

  -- The error of a vote on a closed ballot.
  pub closed_error : Ballot Data → Error
  closed_error b = elim b.error [ none ↦ ballot_closed | some e ↦ e ]

  -- `setTTL`, with the time that voting began.
  start_timer : Ballot Data → ℕ → Ballot Data
  start_timer b now = record b { dispatched = some now; timer = running }

  -- The vote goes into its slot; the first one starts the timer.
  cast_proposal : Ballot Data → Bytes → ℕ → ℕ → Ballot Data × Result (ℕ × Bool)
  unfolding start_timer
  cast_proposal b voter i now =
      let b' = record b { proposed = set b.proposed i voter } in
      let proposals = count_votes b'.proposed in
      (if proposals == 1 then start_timer b' now else b', ok (proposals, true))

  unfoldable pub vote_propose :
      Ballot Data → Bytes → Bytes → ℕ → ℕ → Option (Ballot Data × Result (ℕ × Bool))
  unfolding closed_error cast_proposal
  vote_propose b entry_id voter i now =
      if equal b.fentry.id entry_id
      then if b.closed then some (b, err (closed_error b)) else elim (get_elem? b.proposed i) [
        | none ↦ none
        | some v ↦
            if is_blank v
            then some (cast_proposal b voter i now)
            else some (b, ok (count_votes b.proposed, false))
      ]
      else some (b, err invalid_vote_id)

  cast_commit : Ballot Data → Bytes → ℕ → Ballot Data × Result (ℕ × Bool)
  cast_commit b voter i =
      let b' = record b { committed = set b.committed i voter } in
      (b', ok (count_votes b'.committed, true))

  unfoldable pub vote_commit :
      Ballot Data → Bytes → Bytes → ℕ → Option (Ballot Data × Result (ℕ × Bool))
  unfolding closed_error cast_commit
  vote_commit b entry_id voter i =
      if equal b.fentry.id entry_id
      then if b.closed then some (b, err (closed_error b)) else elim (get_elem? b.committed i) [
        | none ↦ none
        | some v ↦
            if is_blank v
            then some (cast_commit b voter i)
            else some (b, ok (count_votes b.committed, false))
      ]
      else some (b, err invalid_vote_id)

  -- The function that `setTTL` hands to the timer, run when the time to live is over. A timer that is
  -- nil, stopped or has fired runs nothing.
  unfoldable pub expire : Ballot Data → Ballot Data
  expire b = elim b.timer [
    | running ↦ record b { timer = fired; closed = true; errc = b.errc ++ ballot_timed_out ∷ [] }
    | _ ↦ b
  ]

  -- The end of the ballot is told on one channel or the other.
  signal : Ballot Data → Option Error → Ballot Data
  signal b none = record b { done = b.done + 1 }
  signal b (some e) = record b { errc = b.errc ++ e ∷ [] }

  abbrev shut : Ballot Data → Option Error → ℕ → Ballot Data
  shut b e now =
      signal (record b { timer = stopped; closed = true; completed = some now; error = e }) e

  -- `Stop` on the nil timer of a ballot without a proposal panics.
  unfoldable pub close : Ballot Data → Option Error → ℕ → Option (Ballot Data × Option Error)
  unfolding signal
  close b e now =
      if b.closed
      then some (b, b.error)
      else elim b.timer [ unset ↦ none | _ ↦ some (shut b e now, none) ]

  -- What `Wait` takes from the channels; `none` while it blocks. Go picks either channel if both
  -- have something.
  unfoldable pub wait : Ballot Data → Option (Ballot Data × Option Error)
  wait b = elim b.done [
    | suc n ↦ some (record b { done = n }, none)
    | zero ↦ elim b.errc [ e ∷ rest ↦ some (record b { errc = rest }, some e) | [] ↦ none ]
  ]
