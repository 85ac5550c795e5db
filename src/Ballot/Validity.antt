-- ===== src/Ballot/Validity.antt =====
-- What holds of a ballot after any calls (ballot.go).
use hexalog.Prelude.{
  ℕ, ◌+◌, ◌≤◌, ◌≡◌, refl, subst, Option-cases, inl, inr, Bool, true, false, Option, none, some,
  List, [], ◌∷◌, arith, length, length-append, length-set, length-replicate,
}
use mathlib.Core.Option.{some-injective}
use hexalog.Bytes.{Bytes}
use hexalog.Error.{Error, Result, ballot_timed_out}
use hexalog.Future.{FutureEntry}
use hexalog.Ballot.{
  Ballot, Timer, unset, running, stopped, fired, new_ballot, vote_propose, vote_commit, expire,
  close, wait,
}

-- The calls that change a ballot; the timer's function is one of them.
pub data Call : Type 0 where
  proposes : Bytes → Bytes → ℕ → ℕ → Call
  commits : Bytes → Bytes → ℕ → Call
  expires waits : Call
  closes : Option Error → ℕ → Call

-- Whether a timer can still fire, or ever could.
abbrev pub is_over : Timer → Bool
is_over stopped = true
is_over fired = true
is_over unset = false
is_over running = false

abbrev one_if : Bool → ℕ
one_if true = 1
one_if false = 0

-- There is a slot for each vote that is required; the timer is over exactly when the ballot is
-- closed; and what stands in the two channels is at most one message, none on an open ballot.
pub record IsValid {Data : Type 0} (b : Ballot Data) : Type 0 where
  pub proposal_slots : length b.proposed ≡ b.votes
  pub commit_slots : length b.committed ≡ b.votes
  pub over : is_over b.timer ≡ b.closed
  pub told : b.done + length b.errc ≤ one_if b.closed

module _ {Data : Type 0} where
  pub new_ballot-IsValid : (f : FutureEntry Data) (n : ℕ) → IsValid (new_ballot f n)
  unfolding new_ballot
  new_ballot-IsValid f n = record {
    proposal_slots = length-replicate n [];
    commit_slots = length-replicate n [];
    over = refl;
    told = omega arith;
  }

  pub vote_propose-IsValid :
      (b b' : Ballot Data) (id voter : Bytes) (i now : ℕ) (r : Result (ℕ × Bool))
      → IsValid b
      → vote_propose b id voter i now ≡ some (b', r)
      → IsValid b'
  unfolding vote_propose
  vote_propose-IsValid b b' id voter i now r v e = ground (arith, length-set b.proposed i voter)

  pub vote_commit-IsValid :
      (b b' : Ballot Data) (id voter : Bytes) (i : ℕ) (r : Result (ℕ × Bool))
      → IsValid b
      → vote_commit b id voter i ≡ some (b', r)
      → IsValid b'
  unfolding vote_commit
  vote_commit-IsValid b b' id voter i r v e = ground (arith, length-set b.committed i voter)

  pub expire-IsValid : (b : Ballot Data) → IsValid b → IsValid (expire b)
  unfolding expire
  expire-IsValid b v = ground (arith, length-append b.errc (ballot_timed_out ∷ []))

  pub close-IsValid :
      (b b' : Ballot Data) (e x : Option Error) (now : ℕ)
      → IsValid b
      → close b e now ≡ some (b', x)
      → IsValid b'
  unfolding close
  close-IsValid b b' none x now v h = ground arith
  close-IsValid b b' (some y) x now v h = ground (arith, length-append b.errc (y ∷ []))

  pub wait-IsValid :
      (b b' : Ballot Data) (x : Option Error) → IsValid b → wait b ≡ some (b', x) → IsValid b'
  unfolding wait
  wait-IsValid b b' x v h = ground arith

  abbrev changed {ℓ} : {A : Type ℓ} → Option (Ballot Data × A) → Option (Ballot Data)
  changed none = none
  changed (some (b, r)) = some b

  -- The ballot after a call; `none` where the call panics or blocks.
  unfoldable pub call : Ballot Data → Call → Option (Ballot Data)
  call b (proposes id voter i now) = changed (vote_propose b id voter i now)
  call b (commits id voter i) = changed (vote_commit b id voter i)
  call b expires = some (expire b)
  call b waits = changed (wait b)
  call b (closes e now) = changed (close b e now)

  unfoldable pub run : Ballot Data → List Call → Option (Ballot Data)
  run b [] = some b
  run b (c ∷ cs) = elim (call b c) [ none ↦ none | some b' ↦ run b' cs ]

  changed-eq-some {ℓ} :
      {A : Type ℓ} (o : Option (Ballot Data × A)) (b : Ballot Data)
      → changed o ≡ some b
      → (r : A) × (o ≡ some (b, r))
  changed-eq-some none b h = cc
  changed-eq-some (some (b', r)) b h = (r, cc)

  pub call-IsValid : (b b' : Ballot Data) (c : Call) → IsValid b → call b c ≡ some b' → IsValid b'
  unfolding call
  call-IsValid b b' (proposes id voter i now) v h =
      let (r, e) = changed-eq-some (vote_propose b id voter i now) b' h in
      vote_propose-IsValid b b' id voter i now r v e
  call-IsValid b b' (commits id voter i) v h =
      let (r, e) = changed-eq-some (vote_commit b id voter i) b' h in
      vote_commit-IsValid b b' id voter i r v e
  call-IsValid b b' expires v h =
      subst IsValid (some-injective (expire b) b' h) (expire-IsValid b v)
  call-IsValid b b' waits v h =
      let (r, e) = changed-eq-some (wait b) b' h in wait-IsValid b b' r v e
  call-IsValid b b' (closes x now) v h =
      let (r, e) = changed-eq-some (close b x now) b' h in close-IsValid b b' x r now v e

  run_keeps : (b b' : Ballot Data) (cs : List Call) → IsValid b → run b cs ≡ some b' → IsValid b'
  unfolding run
  run_keeps b b' [] v h = subst IsValid (some-injective b b' h) v
  run_keeps b b' (c ∷ cs) v h = elim (Option-cases (call b c)) [
    | inl e ↦ absurd (ground arith)
    | inr (m, e) ↦ run_keeps m b' cs (call-IsValid b m c v e) (rw (e, run) at h)
  ]

  -- After any calls on a new ballot that neither panic nor block for ever, there is a slot for each
  -- vote that is required, the timer is over exactly if the ballot is closed, and at most one message
  -- is in the two channels, none while the ballot is open.
  pub run-IsValid :
      (f : FutureEntry Data) (n : ℕ) (cs : List Call) (b : Ballot Data)
      → run (new_ballot f n) cs ≡ some b
      → IsValid b
  run-IsValid f n cs b h = run_keeps (new_ballot f n) b cs (new_ballot-IsValid f n) h
