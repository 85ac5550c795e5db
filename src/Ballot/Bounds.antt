-- ===== src/Ballot/Bounds.antt =====
-- How large the counts and the channels of a ballot grow (ballot.go).
use hexalog.Prelude.{
  ℕ, ◌+◌, ◌≤◌, ◌≡◌, ap, ◌∙◌, sym, none, some, List, [], ◌∷◌, arith, length, inl, inr, Option-cases,
  Bool-cases,
}
use mathlib.Core.Option.{some-injective}
use hexalog.Future.{FutureEntry}
use hexalog.Ballot.{
  Ballot, new_ballot, vote_propose, vote_commit, expire, close, wait, proposals, commits,
}
use hexalog.Ballot.Validity.{
  Call, proposes, commits as casts, expires, waits, closes, call, run, IsValid, run-IsValid,
}
use hexalog.Ballot.Votes.{count_votes-le-length}

module _ {Data : Type 0} where
  -- No call changes how many votes are required.
  call-votes : (b b' : Ballot Data) (c : Call) → call b c ≡ some b' → b'.votes ≡ b.votes
  unfolding call vote_propose vote_commit expire close wait
  call-votes b b' (proposes id voter i now) h = ground arith
  call-votes b b' (casts id voter i) h = ground arith
  call-votes b b' expires h = ground arith
  call-votes b b' waits h = ground arith
  call-votes b b' (closes none now) h = ground arith
  call-votes b b' (closes (some e) now) h = ground arith

  run-votes : (b b' : Ballot Data) (cs : List Call) → run b cs ≡ some b' → b'.votes ≡ b.votes
  unfolding run
  run-votes b b' [] h = ap (λ (x : Ballot Data). x.votes) (sym (some-injective b b' h))
  run-votes b b' (c ∷ cs) h = elim (Option-cases (call b c)) [
    | inl e ↦ absurd (ground arith)
    | inr (m, e) ↦ run-votes m b' cs (rw (e, run) at h) ∙ call-votes b m c e
  ]

  told_once : (b : Ballot Data) → IsValid b → b.done + length b.errc ≤ 1
  told_once b v = elim (Bool-cases b.closed) [
    | inl e ↦ ground (arith, v.told)
    | inr e ↦ ground (arith, v.told)
  ]

  -- After any calls on a new ballot of `n` votes that neither panic nor block for ever, it has at most
  -- `n` proposals and at most `n` commits, and if a vote is required its two channels, which have room
  -- for `n` messages each, hold at most `n` together, so that no signal of its end ever blocks.
  pub run-bounds :
      (f : FutureEntry Data) (n : ℕ) (cs : List Call) (b : Ballot Data)
      → 1 ≤ n
      → run (new_ballot f n) cs ≡ some b
      → (proposals b ≤ n) × (commits b ≤ n) × (b.done + length b.errc ≤ n)
  unfolding proposals commits new_ballot
  run-bounds f n cs b m h =
      let v = run-IsValid f n cs b h in
      let votes : b.votes ≡ n = run-votes (new_ballot f n) b cs h in
      (
        omega (arith, count_votes-le-length b.proposed, v.proposal_slots, votes),
        omega (arith, count_votes-le-length b.committed, v.commit_slots, votes),
        omega (arith, told_once b v),
      )
