-- ===== src/Ballot/Closing.antt =====
-- How a ballot ends (ballot.go).
use hexalog.Prelude.{
  ℕ, ◌+◌, ◌≤◌, ◌≡◌, ◌↔◌, refl, true, false, Option, none, some, List, [], ◌∷◌, arith, length, subst,
  ◌∙◌, ◌++◌, inl, inr, Option-cases,
}
use hexalog.Bytes.{Bytes, equal_refl}
use hexalog.Error.{Error, err, ballot_timed_out, ballot_closed}
use hexalog.Ballot.{Ballot, unset, running, stopped, vote_propose, vote_commit, expire, close, wait}
use mathlib.Core.Option.{some-injective}
use hexalog.Ballot.Validity.{
  IsValid, Call, proposes, commits, expires, waits, closes, call, run, call-IsValid,
}

nothing_told : {A : Type 0} (n : ℕ) (l : List A) → n + length l ≤ 0 → (n ≡ 0) × (l ≡ [])
nothing_told n [] h = (omega arith, refl)
nothing_told n (x ∷ l) h = absurd (omega arith)

module _ {Data : Type 0} where
  -- What stays of a ballot that was closed already.
  pub record Ended (b b' : Ballot Data) : Type 0 where
    pub still : b'.closed ≡ true
    pub same_proposed : b'.proposed ≡ b.proposed
    pub same_committed : b'.committed ≡ b.committed
    pub same_error : b'.error ≡ b.error
    pub same_future : b'.fentry ≡ b.fentry
    pub same_end : b'.completed ≡ b.completed
    pub told_less : b'.done + length b'.errc ≤ b.done + length b.errc

  Ended-refl : (b : Ballot Data) → b.closed ≡ true → Ended b b
  Ended-refl b h = record {
    still = h;
    same_proposed = refl;
    same_committed = refl;
    same_error = refl;
    same_future = refl;
    same_end = refl;
    told_less = omega arith;
  }

  call_closed :
      (b b' : Ballot Data) (c : Call)
      → IsValid b
      → b.closed ≡ true
      → call b c ≡ some b'
      → Ended b b'
  unfolding call vote_propose vote_commit expire close wait
  call_closed b b' (proposes id voter i now) v h q = ground arith
  call_closed b b' (commits id voter i) v h q = ground arith
  call_closed b b' expires v h q = ground (arith, v.over)
  call_closed b b' waits v h q = ground arith
  call_closed b b' (closes none now) v h q = ground arith
  call_closed b b' (closes (some e) now) v h q = ground arith

  Ended-trans : (l m n : Ballot Data) → Ended l m → Ended m n → Ended l n
  Ended-trans l m n a b = record {
    still = b.still;
    same_proposed = b.same_proposed ∙ a.same_proposed;
    same_committed = b.same_committed ∙ a.same_committed;
    same_error = b.same_error ∙ a.same_error;
    same_future = b.same_future ∙ a.same_future;
    same_end = b.same_end ∙ a.same_end;
    told_less = omega (arith, a.told_less, b.told_less);
  }

  -- Once a valid ballot is closed, no calls change how it ended: whatever votes come, for its entry or
  -- another, however often it is closed again, waited for, or its timer runs, it stays closed, with
  -- the same proposals, commits, error, future and time of its end, and nothing more is told on its
  -- channels.
  pub run-Ended :
      (b b' : Ballot Data) (cs : List Call)
      → IsValid b
      → b.closed ≡ true
      → run b cs ≡ some b'
      → Ended b b'
  unfolding run
  run-Ended b b' [] v h q = subst (Ended b) (some-injective b b' q) (Ended-refl b h)
  run-Ended b b' (c ∷ cs) v h q = elim (Option-cases (call b c)) [
    | inl e ↦ absurd (ground arith)
    | inr (m, e) ↦
        let first = call_closed b m c v h e in
        Ended-trans b m b' first
          (run-Ended m b' cs (call-IsValid b m c v e) first.still (rw (e, run) at q))
  ]

  -- What the close of an open ballot does to it.
  pub close_open :
      (b b' : Ballot Data) (e x : Option Error) (now : ℕ)
      → b.closed ≡ false
      → close b e now ≡ some (b', x)
      → (b'.closed ≡ true)
        × (b'.error ≡ e)
        × (b'.proposed ≡ b.proposed)
        × (b'.committed ≡ b.committed)
        × (b'.fentry ≡ b.fentry)
  unfolding close
  close_open b b' none x now o h = ground arith
  close_open b b' (some y) x now o h = ground arith

  -- The close of an open ballot with a running timer, with an error.
  pub close-running :
      (b : Ballot Data) (x : Error) (now : ℕ)
      → b.closed ≡ false
      → b.timer ≡ running
      → close b (some x) now
        ≡ some (
          record b {
            timer = stopped;
            closed = true;
            completed = some now;
            error = some x;
            errc = b.errc ++ x ∷ [];
          },
          none,
        )
  unfolding close
  close-running b x now o t = ground arith

  -- A closed one stays as it is.
  pub close_again :
      (b : Ballot Data) (e : Option Error) (now : ℕ)
      → b.closed ≡ true
      → close b e now ≡ some (b, b.error)
  unfolding close
  close_again b e now h = ground arith

  -- Closing an open ballot panics exactly if no proposal has started its timer.
  pub close_panics :
      (b : Ballot Data) (e : Option Error) (now : ℕ)
      → b.closed ≡ false
      → (close b e now ≡ none) ↔ (b.timer ≡ unset)
  unfolding close
  close_panics b e now h = (λ p. ground arith, λ p. ground arith)

  -- After the close of a valid ballot that was open, one call of `Wait` gets what the ballot was
  -- closed with, and a second one blocks, although the vote is complete.
  pub close-wait :
      (b b' : Ballot Data) (e x : Option Error) (now : ℕ)
      → IsValid b
      → b.closed ≡ false
      → close b e now ≡ some (b', x)
      → (b'' : Ballot Data) × (wait b' ≡ some (b'', e)) × (wait b'' ≡ none)
  unfolding close wait
  close-wait b b' none x now v o h =
      let (d, l) = nothing_told b.done b.errc (ground (arith, v.told)) in
      (record b' { done = 0 }, ground arith, ground arith)
  close-wait b b' (some y) x now v o h =
      let (d, l) = nothing_told b.done b.errc (ground (arith, v.told)) in
      (record b' { errc = [] }, ground arith, ground arith)

  -- When the time to live of a valid ballot with a running timer and no error is over, `Wait` gets
  -- "ballot timed out", while the ballot is closed and its error stays nil, and a later vote is
  -- refused with "ballot closed".
  pub expire_times_out :
      (b : Ballot Data) (voter : Bytes) (i now : ℕ)
      → IsValid b
      → b.timer ≡ running
      → b.error ≡ none
      → ((expire b).closed ≡ true)
        × ((expire b).error ≡ none)
        × (wait (expire b) ≡ some (record (expire b) { errc = [] }, some ballot_timed_out))
        × (vote_propose (expire b) b.fentry.id voter i now ≡ some (expire b, err ballot_closed))
  unfolding expire wait vote_propose
  expire_times_out b voter i now v t n =
      let (d, l) = nothing_told b.done b.errc (ground (arith, v.told, v.over)) in
      ground (arith, equal_refl b.fentry.id)
