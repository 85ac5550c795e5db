-- ===== src/Node/Quorum/Casting.antt =====
-- What one vote of `Commit` (hexalog.go) leads to.
use mathlib.Core.Option.{some-injective}
use hexalog.Prelude.{
  ℕ, ◌≡◌, refl, sym, ap, ◌∙◌, subst, inl, inr, Bool, true, false, Option, none, some, List, arith,
  Bool-cases, ◌==◌, if◌then◌else◌, ◌>>=◌, >>=-eq-some, length, int32, ℤ,
}
use hexalog.Bytes.{Bytes}
use hexalog.Error.{Error, Result, ok, err}
use hexalog.Future.{FutureEntry}
use hexalog.Ballot.{Ballot, commits}
use hexalog.Ballot
use hexalog.Ballot.Votes.{vote_commit_ok, vote_commit_err, vote_commit_closed}
use hexalog.Options.{RequestOptions, clone_with_source_index}
use hexalog.Node.{
  Config, Node, Reply, set_ballot, check_votes_and_commit, queue_broadcast_or_commit,
}
use hexalog.Node.Commit.{cast}
use hexalog.Node.Quorum.{Settles, Settles-from, check_votes-Settles}

module _ (conf : Config) where
  abbrev pub queue_of : Node conf → List (FutureEntry conf.Data)
  queue_of hlog = hlog.apply_ch

  abbrev pub some_of : Node conf → Reply → Option (Node conf × Reply)
  some_of hlog x = some (hlog, x)

  queue-Settles :
      (hlog after : Node conf) (id : Bytes) (n : ℕ) (b : Ballot conf.Data) (opts : RequestOptions)
      (now : ℕ)
      → n ≡ commits b
      → b.closed ≡ false
      → queue_broadcast_or_commit conf hlog id n b opts now ≡ some after
      → Settles conf hlog after id (length opts.peer_set)
  unfolding queue_broadcast_or_commit
  queue-Settles hlog after id n b opts now c o q = elim (Bool-cases (n == 1)) [
    | inl one ↦ inl (
        ap (λ (t : Node conf). queue_of t)
          (sym (some-injective _ _ (rw (one, queue_broadcast_or_commit) at q))))
    | inr more ↦ elim (Bool-cases (n == length opts.peer_set)) [
      | inr few ↦ inl (
          ap (λ (t : Node conf). queue_of t)
            (sym (some-injective _ _ (rw few at (rw (more, queue_broadcast_or_commit) at q)))))
      | inl all ↦
          let full : n ≡ length opts.peer_set = ground arith in
          let (m, done, last) =
            >>=-eq-some (check_votes_and_commit conf hlog id b now) _
              (rw all at (rw (more, queue_broadcast_or_commit) at q)) in
          subst (λ t. Settles conf hlog t id (length opts.peer_set)) (some-injective _ _ last)
            (check_votes-Settles conf hlog m.0 id b now (length opts.peer_set) m.1
              (inr (sym c ∙ full)) o done)
    ]
  ]

  clone_peers :
      (opts : RequestOptions) (z : ℤ) → (clone_with_source_index opts z).peer_set ≡ opts.peer_set
  unfolding clone_with_source_index
  clone_peers opts z = refl

  unfoldable pub voted_case :
      Node conf
      → Bytes
      → Ballot conf.Data
      → RequestOptions
      → ℕ
      → ℕ
      → Result (ℕ × Bool)
      → Option (Node conf × Option Error)
  voted_case hlog id b' opts self now v = elim v [
    | err x ↦ some (set_ballot conf hlog id b', some x)
    | ok (votes, voted) ↦
        if voted
        then (queue_broadcast_or_commit conf (set_ballot conf hlog id b') id votes b'
              (clone_with_source_index opts (int32 self)) now
            >>= λ after. some (after, none))
        else some (set_ballot conf hlog id b', none)
  ]

  -- One vote queues nothing or commits.
  pub cast-Settles :
      (hlog after : Node conf) (id : Bytes) (b : Ballot conf.Data) (opts : RequestOptions)
      (self : ℕ) (voter : Bytes) (i now : ℕ) (e : Option Error)
      → cast conf hlog id b opts self voter i now ≡ some (after, e)
      → Settles conf hlog after id (length opts.peer_set)
  unfolding cast set_ballot clone_with_source_index voted_case
  cast-Settles hlog after id b opts self voter i now e q =
      let (t, done, q') = >>=-eq-some (Ballot.vote_commit b id voter i) _ q in go t.0 t.1 done q'
    where
      go :
          (b' : Ballot conf.Data) (v : Result (ℕ × Bool))
          → Ballot.vote_commit b id voter i ≡ some (b', v)
          → voted_case hlog id b' opts self now v ≡ some (after, e)
          → Settles conf hlog after id (length opts.peer_set)
      go b' (err x) done q =
          inl (ap (λ (t : Node conf × Option Error). queue_of t.0) (sym (some-injective _ _ q)))
      go b' (ok (n, false)) done q =
          inl (ap (λ (t : Node conf × Option Error). queue_of t.0) (sym (some-injective _ _ q)))
      go b' (ok (n, true)) done q =
          let (c, o) = vote_commit_ok b b' id voter i n true done in
          let (m, ran, last) =
            >>=-eq-some
              (queue_broadcast_or_commit conf (set_ballot conf hlog id b') id n b'
                (clone_with_source_index opts (int32 self)) now)
              _ q in
          subst (λ t. Settles conf hlog t id (length opts.peer_set))
            (ap (λ (t : Node conf × Option Error). t.0) (some-injective _ _ last))
            (Settles-from conf hlog (set_ballot conf hlog id b') m id (length opts.peer_set) refl (
              queue-Settles (set_ballot conf hlog id b') m id n b'
                (clone_with_source_index opts (int32 self)) now c o ran))

  -- A vote on a ballot that is closed changes nothing but the map, which it leaves as it is.
  pub cast_closed :
      (hlog after : Node conf) (id : Bytes) (b : Ballot conf.Data) (opts : RequestOptions)
      (self : ℕ) (voter : Bytes) (i now : ℕ) (e : Option Error)
      → b.closed ≡ true
      → cast conf hlog id b opts self voter i now ≡ some (after, e)
      → set_ballot conf hlog id b ≡ after
  unfolding cast voted_case
  cast_closed hlog after id b opts self voter i now e c q =
      let (t, done, q') = >>=-eq-some (Ballot.vote_commit b id voter i) _ q in go t.0 t.1 done q'
    where
      go :
          (b' : Ballot conf.Data) (v : Result (ℕ × Bool))
          → Ballot.vote_commit b id voter i ≡ some (b', v)
          → voted_case hlog id b' opts self now v ≡ some (after, e)
          → set_ballot conf hlog id b ≡ after
      go b' (err x) done q =
          ap (set_ballot conf hlog id) (sym (vote_commit_err b b' id voter i x done))
          ∙ ap (λ (t : Node conf × Option Error). t.0) (some-injective _ _ q)
      go b' (ok (n, voted)) done q = absurd (vote_commit_closed b b' id voter i n voted c done)
