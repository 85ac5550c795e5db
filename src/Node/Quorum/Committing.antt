-- ===== src/Node/Quorum/Committing.antt =====
-- When `Commit` (hexalog.go) commits.
use mathlib.Core.Option.{some-injective}
use hexalog.Prelude.{
  ℕ, ◌≡◌, sym, ap, ◌∙◌, subst, inl, inr, true, Option, none, some, Bool-cases, Option-cases, ◌>>=◌,
  >>=-eq-some, length, get_elem?, int32, eq_int, pos, negsuc, ℤ,
}
use hexalog.Bytes.{Bytes}
use hexalog.Error.{Error}
use hexalog.Entry.{Entry, hash}
use hexalog.Ballot.{Ballot}
use hexalog.Options.{RequestOptions, Participant, source_peer}
use hexalog.Node.{Config, Node, Reply, check_options, get_self_index, get_ballot, set_ballot}
use hexalog.Node.Propose.{source_slot}
use hexalog.Node.Commit.{cast, cast_source, current, commit_at, commit}
use hexalog.Node.Quorum.{Committed, Settles, Settles-from, get_ballot-set_ballot}
use hexalog.Node.Quorum.Casting.{queue_of, some_of, cast-Settles, cast_closed}

module _ (conf : Config) where
  -- The vote of the source, from the ballot `b`.
  pub cast_source-cast :
      (hlog after : Node conf) (id : Bytes) (b : Ballot conf.Data) (opts : RequestOptions)
      (self now : ℕ) (r : Reply)
      → cast_source conf hlog id b opts self now ≡ some (after, r)
      → (voter : Bytes) × (i : ℕ) × (e : Option Error) × (cast conf hlog id b opts self voter i now
          ≡ some (after, e))
  unfolding cast_source
  cast_source-cast hlog after id b opts self now r q =
      let (peer, _, q1) = >>=-eq-some (source_peer opts) _ q in slot opts.source_index peer q1
    where
      replied : Node conf × Option Error → Option (Node conf × Reply)
      replied (m, e) = some (m, record { ballot = some id; error = e })

      slot :
          (z : ℤ) (peer : Participant)
          → (source_slot z (λ i. cast conf hlog id b opts self peer.host i now) >>= replied)
            ≡ some (after, r)
          → (voter : Bytes) × (i : ℕ) × (e : Option Error) × (cast conf hlog id b opts self voter i
                now
              ≡ some (after, e))
      slot (negsuc i) peer q = cc
      slot (pos i) peer q =
          let (t, e, q') = >>=-eq-some (cast conf hlog id b opts self peer.host i now) _ q in
          let reached : t.0 ≡ after = ap (λ (p : Node conf × Reply). p.0) (some-injective _ _ q') in
          (peer.host, i, t.1, e ∙ ap (λ (m : Node conf). some (m, t.1)) reached)

  -- The vote of the source after a commit finds the ballot closed.
  pub after_commit :
      (hlog m after : Node conf) (id : Bytes) (b : Ballot conf.Data) (opts : RequestOptions)
      (self now n : ℕ) (r : Reply)
      → Committed conf hlog m id n
      → cast_source conf m id (current conf m id b) opts self now ≡ some (after, r)
      → Committed conf hlog after id n
  unfolding current set_ballot
  after_commit hlog m after id b opts self now n r c q =
      let held : current conf m id b ≡ c.ballot = rw (c.held, current) in
      let (voter, i, e, done) =
        cast_source-cast m after id (current conf m id b) opts self now r q in
      let closed : (current conf m id b).closed ≡ true =
        ap (λ (x : Ballot conf.Data). x.closed) held ∙ c.closed in
      let same : set_ballot conf m id c.ballot ≡ after =
        ap (set_ballot conf m id) (sym held)
        ∙ cast_closed conf m after id (current conf m id b) opts self voter i now e closed done in
      subst (λ t. Committed conf hlog t id n) same
        (record {
          ballot = c.ballot;
          held = get_ballot-set_ballot conf m id c.ballot;
          all_proposed = c.all_proposed;
          all_committed = c.all_committed;
          closed = c.closed;
          no_error = c.no_error;
          before = c.before;
          appended = c.appended;
          queued = c.queued;
        })

  cast_source-Settles :
      (hlog after : Node conf) (id : Bytes) (b : Ballot conf.Data) (opts : RequestOptions)
      (self now : ℕ) (r : Reply)
      → cast_source conf hlog id b opts self now ≡ some (after, r)
      → Settles conf hlog after id (length opts.peer_set)
  cast_source-Settles hlog after id b opts self now r q =
      let (voter, i, e, done) = cast_source-cast hlog after id b opts self now r q in
      cast-Settles conf hlog after id b opts self voter i now e done

  commit_at-Settles :
      (hlog after : Node conf) (id : Bytes) (b : Ballot conf.Data) (opts : RequestOptions)
      (self : ℕ) (peer : Participant) (now : ℕ) (r : Reply)
      → commit_at conf hlog id b opts self peer now ≡ some (after, r)
      → Settles conf hlog after id (length opts.peer_set)
  unfolding commit_at
  commit_at-Settles hlog after id b opts self peer now r q =
      elim (Bool-cases (eq_int (int32 self) opts.source_index)) [
        | inl e ↦ cast_source-Settles hlog after id b opts self now r (rw (e, commit_at) at q)
        | inr e ↦
            let (t, done, q') =
              >>=-eq-some (cast conf hlog id b opts self peer.host self now) _
                (rw (e, commit_at) at q) in
            second t.0 t.1 (cast-Settles conf hlog t.0 id b opts self peer.host self now t.1 done)
              q'
      ]
    where
      rest : Node conf → Option Error → Option (Node conf × Reply)
      rest m e = elim e [
        | some x ↦ some (m, record { ballot = some id; error = some x })
        | none ↦ cast_source conf m id (current conf m id b) opts self now
      ]

      second :
          (m : Node conf) (e : Option Error)
          → Settles conf hlog m id (length opts.peer_set)
          → rest m e ≡ some (after, r)
          → Settles conf hlog after id (length opts.peer_set)
      second m (some x) s q =
          subst (λ t. Settles conf hlog t id (length opts.peer_set))
            (ap (λ (t : Node conf × Reply). t.0) (some-injective _ _ q)) s
      second m none (inl s) q =
          Settles-from conf hlog m after id (length opts.peer_set) s
            (cast_source-Settles m after id (current conf m id b) opts self now r q)
      second m none (inr c) q =
          inr (after_commit hlog m after id b opts self now (length opts.peer_set) r c q)

  -- A call of `Commit` queues nothing for the application's machine, or it commits: the ballot of
  -- the entry has as many proposals and as many commits as the request has peers, is closed without
  -- an error, and its entry was appended to the log and is what was queued, once, although a call may
  -- cast two votes.
  pub commit-Settles :
      (hlog after : Node conf) (entry : Entry) (opts : RequestOptions) (now : ℕ) (r : Reply)
      → commit conf hlog entry opts now ≡ some (after, r)
      → Settles conf hlog after (hash conf.hasher entry) (length opts.peer_set)
  unfolding commit
  commit-Settles hlog after entry opts now r q = elim (Option-cases (check_options conf opts)) [
    | inr (x, e) ↦ inl (same (rw (e, commit) at q))
    | inl e ↦ elim (Option-cases (get_self_index conf opts.peer_set)) [
      | inl f ↦ inl (same (rw f at (rw (e, commit) at q)))
      | inr (self, f) ↦ elim (Option-cases (get_ballot conf hlog (hash conf.hasher entry))) [
        | inl g ↦ inl (same (rw g at (rw f at (rw (e, commit) at q))))
        | inr (b, g) ↦
            let (peer, _, q') =
              >>=-eq-some (get_elem? opts.peer_set self) _
                (rw g at (rw f at (rw (e, commit) at q))) in
            commit_at-Settles hlog after (hash conf.hasher entry) b opts self peer now r q'
      ]
    ]
  ]
    where
      same :
          {x : Reply}
          → (some_of conf hlog x ≡ some (after, r))
          → queue_of conf after ≡ queue_of conf hlog
      same e = ap (λ (t : Node conf × Reply). queue_of conf t.0) (sym (some-injective _ _ e))
