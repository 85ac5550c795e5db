-- ===== src/Node/Quorum/Alone.antt =====
-- What `Commit` (hexalog.go) does for a peer set of one.
use mathlib.Core.Option.{some-injective}
use hexalog.Prelude.{
  ℕ, ◌≡◌, sym, ap, ◌∙◌, inl, inr, Bool, true, false, Option, none, some, arith, Bool-cases,
  Option-cases, ◌==◌, >>=-eq-some, length, get_elem?, int32, eq_int,
}
use hexalog.Bytes.{Bytes}
use hexalog.Error.{Error, Result, ok, err}
use hexalog.Entry.{Entry, hash}
use hexalog.Ballot.{Ballot}
use hexalog.Ballot
use hexalog.Options.{RequestOptions, Participant, clone_with_source_index}
use hexalog.Node.{
  Config, Node, Reply, check_options, get_self_index, get_ballot, set_ballot,
  queue_broadcast_or_commit,
}
use hexalog.Node.Commit.{cast, cast_source, current, commit_at, commit}
use hexalog.Node.Quorum.Casting.{voted_case, queue_of, some_of}
use hexalog.Node.Quorum.Committing.{cast_source-cast}

module _ (conf : Config) where
  -- The one vote is broadcast, and that it is also the last is not asked.
  queue_alone :
      (hlog after : Node conf) (id : Bytes) (n : ℕ) (b : Ballot conf.Data) (opts : RequestOptions)
      (now : ℕ)
      → length opts.peer_set ≡ 1
      → queue_broadcast_or_commit conf hlog id n b opts now ≡ some after
      → queue_of conf after ≡ queue_of conf hlog
  unfolding queue_broadcast_or_commit
  queue_alone hlog after id n b opts now l q = elim (Bool-cases (n == 1)) [
    | inl one ↦
        ap (λ (t : Node conf). queue_of conf t)
          (sym (some-injective _ _ (rw (one, queue_broadcast_or_commit) at q)))
    | inr more ↦
        let few : (n == length opts.peer_set) ≡ false = ground arith in
        ap (λ (t : Node conf). queue_of conf t)
          (sym (some-injective _ _ (rw few at (rw (more, queue_broadcast_or_commit) at q))))
  ]

  cast_alone :
      (hlog after : Node conf) (id : Bytes) (b : Ballot conf.Data) (opts : RequestOptions)
      (self : ℕ) (voter : Bytes) (i now : ℕ) (e : Option Error)
      → length opts.peer_set ≡ 1
      → cast conf hlog id b opts self voter i now ≡ some (after, e)
      → queue_of conf after ≡ queue_of conf hlog
  unfolding cast set_ballot clone_with_source_index voted_case
  cast_alone hlog after id b opts self voter i now e l q =
      let (t, done, q') = >>=-eq-some (Ballot.vote_commit b id voter i) _ q in go t.0 t.1 q'
    where
      go :
          (b' : Ballot conf.Data) (v : Result (ℕ × Bool))
          → voted_case conf hlog id b' opts self now v ≡ some (after, e)
          → queue_of conf after ≡ queue_of conf hlog
      go b' (err x) q =
          ap (λ (t : Node conf × Option Error). queue_of conf t.0) (sym (some-injective _ _ q))
      go b' (ok (n, false)) q =
          ap (λ (t : Node conf × Option Error). queue_of conf t.0) (sym (some-injective _ _ q))
      go b' (ok (n, true)) q =
          let (m, ran, last) =
            >>=-eq-some
              (queue_broadcast_or_commit conf (set_ballot conf hlog id b') id n b'
                (clone_with_source_index opts (int32 self)) now)
              _ q in
          ap (λ (t : Node conf × Option Error). queue_of conf t.0) (sym (some-injective _ _ last))
          ∙ queue_alone (set_ballot conf hlog id b') m id n b'
              (clone_with_source_index opts (int32 self)) now l ran

  source_alone :
      (hlog after : Node conf) (id : Bytes) (b : Ballot conf.Data) (opts : RequestOptions)
      (self now : ℕ) (r : Reply)
      → length opts.peer_set ≡ 1
      → cast_source conf hlog id b opts self now ≡ some (after, r)
      → queue_of conf after ≡ queue_of conf hlog
  source_alone hlog after id b opts self now r l q =
      let (voter, i, e, done) = cast_source-cast conf hlog after id b opts self now r q in
      cast_alone hlog after id b opts self voter i now e l done

  commit_at_alone :
      (hlog after : Node conf) (id : Bytes) (b : Ballot conf.Data) (opts : RequestOptions)
      (self : ℕ) (peer : Participant) (now : ℕ) (r : Reply)
      → length opts.peer_set ≡ 1
      → commit_at conf hlog id b opts self peer now ≡ some (after, r)
      → queue_of conf after ≡ queue_of conf hlog
  unfolding commit_at
  commit_at_alone hlog after id b opts self peer now r l q =
      elim (Bool-cases (eq_int (int32 self) opts.source_index)) [
        | inl e ↦ source_alone hlog after id b opts self now r l (rw (e, commit_at) at q)
        | inr e ↦
            let (t, done, q') =
              >>=-eq-some (cast conf hlog id b opts self peer.host self now) _
                (rw (e, commit_at) at q) in
            second t.0 t.1 q' ∙ cast_alone hlog t.0 id b opts self peer.host self now t.1 l done
      ]
    where
      rest : Node conf → Option Error → Option (Node conf × Reply)
      rest m e = elim e [
        | some x ↦ some (m, record { ballot = some id; error = some x })
        | none ↦ cast_source conf m id (current conf m id b) opts self now
      ]

      second :
          (m : Node conf) (e : Option Error)
          → rest m e ≡ some (after, r)
          → queue_of conf after ≡ queue_of conf m
      second m (some x) q =
          ap (λ (t : Node conf × Reply). queue_of conf t.0) (sym (some-injective _ _ q))
      second m none q = source_alone m after id (current conf m id b) opts self now r l q

  -- With a peer set of one, a call of `Commit` queues nothing for the application's machine, whatever
  -- the ballot that the node has for the entry.
  pub commit-alone :
      (hlog after : Node conf) (entry : Entry) (opts : RequestOptions) (now : ℕ) (r : Reply)
      → length opts.peer_set ≡ 1
      → commit conf hlog entry opts now ≡ some (after, r)
      → after.apply_ch ≡ hlog.apply_ch
  unfolding commit
  commit-alone hlog after entry opts now r l q = elim (Option-cases (check_options conf opts)) [
    | inr (x, e) ↦ same (rw (e, commit) at q)
    | inl e ↦ elim (Option-cases (get_self_index conf opts.peer_set)) [
      | inl f ↦ same (rw f at (rw (e, commit) at q))
      | inr (self, f) ↦ elim (Option-cases (get_ballot conf hlog (hash conf.hasher entry))) [
        | inl g ↦ same (rw g at (rw f at (rw (e, commit) at q)))
        | inr (b, g) ↦
            let (peer, _, q') =
              >>=-eq-some (get_elem? opts.peer_set self) _
                (rw g at (rw f at (rw (e, commit) at q))) in
            commit_at_alone hlog after (hash conf.hasher entry) b opts self peer now r l q'
      ]
    ]
  ]
    where
      same :
          {x : Reply}
          → (some_of conf hlog x ≡ some (after, r))
          → queue_of conf after ≡ queue_of conf hlog
      same e = ap (λ (t : Node conf × Reply). queue_of conf t.0) (sym (some-injective _ _ e))
