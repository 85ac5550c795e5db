-- ===== src/Node/Progress/Finishing.antt =====
-- That `queueBroadcastOrCommit` (hexalog_utils.go) runs to its end: it commits on the last vote, and
-- queues nothing on an earlier one.
use hexalog.Prelude.{
  ℕ, ◌≤◌, ◌<◌, ◌≡◌, refl, ap, ◌∙◌, inl, inr, Bool, true, false, Option, none, some, [], ◌∷◌, ◌++◌,
  arith, Bool-cases, Option-cases, ◌==◌, ◌>>=◌, length,
}
use hexalog.Bytes.{Bytes}
use hexalog.Error.{Error}
use hexalog.Ballot.{Ballot, running, is_blank, proposals, commits}
use hexalog.Ballot
use hexalog.Ballot.Closing.{close_panics}
use hexalog.Future.{dispatch}
use hexalog.LogStore
use hexalog.LogStore.{LogStore}
use hexalog.Options.{RequestOptions}
use hexalog.Node.{
  Config, Node, set_ballot, close_ballot, finish_commit, try_commit, check_votes_and_commit,
  queue_broadcast_or_commit,
}
use hexalog.Node.Quorum.{Committed, Committed-from, finish_commit-Committed}

module _ (conf : Config) where
  close_runs :
      (b : Ballot conf.Data) (e : Option Error) (now : ℕ)
      → b.closed ≡ false
      → b.timer ≡ running
      → (t : Ballot conf.Data × Option Error) × (Ballot.close b e now ≡ some t)
  close_runs b e now o t = elim (Option-cases (Ballot.close b e now)) [
    | inl q ↦ let unstarted = (close_panics b e now o).0 q in cc
    | inr (r, q) ↦ (r, q)
  ]

  finish_commit_runs :
      (hlog : Node conf) (id : Bytes) (b : Ballot conf.Data) (now : ℕ)
      → b.closed ≡ false
      → b.timer ≡ running
      → (after : Node conf) × (finish_commit conf hlog id b now ≡ some (after, true))
  unfolding finish_commit close_ballot
  finish_commit_runs hlog id b now o t =
      let (r, q) = close_runs (record b { fentry = dispatch b.fentry now }) none now o t in
      let queued : Node conf = record hlog {
        clock = conf.lamport_clock.witness hlog.clock b.fentry.entry.ltime;
        apply_ch = hlog.apply_ch ++ dispatch b.fentry now ∷ [];
      } in
      (set_ballot conf queued id r.0, rw q refl)

  -- `try_commit`, given what the log store answers.
  abbrev tried :
      Node conf
      → Bytes
      → Ballot conf.Data
      → ℕ
      → LogStore conf.entry_store × Option Error
      → Option (Node conf × Bool)
  tried hlog id b now t = elim t.1 [
    | none ↦ finish_commit conf (record hlog { store = t.0 }) id b now
    | some x ↦ do
      after ← close_ballot conf (record hlog { store = t.0 }) id b (some x) now
      some (after, false)
  ]

  try_commit_runs :
      (hlog : Node conf) (id : Bytes) (b : Ballot conf.Data) (now n : ℕ)
      (store : LogStore conf.entry_store)
      → proposals b ≡ n
      → commits b ≡ n
      → b.closed ≡ false
      → b.timer ≡ running
      → LogStore.append_entry conf.entry_store conf.hasher hlog.store b.fentry.entry ≡ (store, none)
      → (after : Node conf) × (try_commit conf hlog id b now ≡ some (after, true))
        × Committed conf hlog after id n
  unfolding try_commit
  try_commit_runs hlog id b now n store p c o t a =
      let logged : Node conf = record hlog { store = store } in
      let (after, ran) = finish_commit_runs logged id b now o t in
      (
        after,
        ap (tried hlog id b now) a ∙ ran,
        Committed-from conf hlog logged after id n refl
            (finish_commit-Committed conf logged after id b now n true hlog.store p c o a ran),
      )

  pub queue_runs :
      (hlog : Node conf) (id : Bytes) (b : Ballot conf.Data) (opts : RequestOptions) (now n : ℕ)
      (store : LogStore conf.entry_store)
      → 2 ≤ n
      → length opts.peer_set ≡ n
      → proposals b ≡ n
      → commits b ≡ n
      → b.closed ≡ false
      → b.timer ≡ running
      → LogStore.append_entry conf.entry_store conf.hasher hlog.store b.fentry.entry ≡ (store, none)
      → (after : Node conf) × (queue_broadcast_or_commit conf hlog id n b opts now ≡ some after)
        × Committed conf hlog after id n
  unfolding queue_broadcast_or_commit check_votes_and_commit
  queue_runs hlog id b opts now n store m l p c o t a =
      let (after, ran, done) = try_commit_runs hlog id b now n store p c o t a in
      let one : (n == 1) ≡ false = ground arith in
      let all : (n == length opts.peer_set) ≡ true = ground arith in
      let equal_votes : (Ballot.proposals b == Ballot.commits b) ≡ true = ground arith in
      (
        after,
        rw (one, queue_broadcast_or_commit)
            (rw all (rw (equal_votes, check_votes_and_commit) (rw ran refl))),
        done,
      )

  -- With fewer votes, at most the commit is broadcast.
  pub queue_quiet :
      (hlog : Node conf) (id : Bytes) (b : Ballot conf.Data) (opts : RequestOptions) (now k : ℕ)
      → k < length opts.peer_set
      → (after : Node conf) × (queue_broadcast_or_commit conf hlog id k b opts now ≡ some after)
        × (after.apply_ch ≡ hlog.apply_ch)
        × (after.store ≡ hlog.store)
        × (after.ballots ≡ hlog.ballots)
  unfolding queue_broadcast_or_commit
  queue_quiet hlog id b opts now k l = elim (Bool-cases (k == 1)) [
    | inl one ↦ (
      record hlog {
        cch =
            hlog.cch ++ record { id = none; entry = some b.fentry.entry; options = some opts } ∷ [];
      },
      rw (one, queue_broadcast_or_commit) refl,
      refl,
      refl,
      refl,
    )
    | inr more ↦
        let short : (k == length opts.peer_set) ≡ false = ground arith in
        (hlog, rw (more, queue_broadcast_or_commit) (rw short refl), refl, refl, refl)
  ]
