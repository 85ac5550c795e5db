-- ===== src/Node/Progress/Calls.antt =====
-- One call of `Commit` (hexalog.go), with its one or two votes.

use hexalog.Prelude.{
  ℕ, ◌≤◌, ◌≡◌, refl, ap, ◌∙◌, ◌⊎◌, inl, inr, true, false, Option, none, some, arith, Bool-cases,
  ◌>>=◌, length, get_elem?, int32, eq_int, pos, ℤ,
}
use hexalog.Bytes.{Bytes, equal}
use hexalog.Error.{Error, err, invalid_vote_id}
use hexalog.Entry.{Entry, hash}
use hexalog.Ballot.{Ballot, is_blank}
use hexalog.Ballot
use hexalog.Options.{Participant, RequestOptions, source_peer, at_index}
use hexalog.Node.Propose.{source_slot}
use hexalog.Node.{Config, Node, Reply, check_options, get_self_index, get_ballot, set_ballot}
use hexalog.Node.Commit.{cast, cast_source, current, commit_at, commit}
use hexalog.Node.Quorum.{Committed, Committed-from}
use hexalog.Node.Quorum.Committing.{after_commit}
use hexalog.Node.Progress.{Waiting, Nearer}
use hexalog.Node.Progress.Voting.{cast_progress}
use hexalog.Prelude.{in_range}

source_peer_at :
    (opts : RequestOptions) (i : ℕ) (peer : Participant)
    → opts.source_index ≡ pos i
    → get_elem? opts.peer_set i ≡ some peer
    → source_peer opts ≡ some peer
unfolding source_peer
source_peer_at opts i peer from at = ap (at_index opts.peer_set) from ∙ at

vote_commit_shut :
    {Data : Type 0} (b : Ballot Data) (id voter : Bytes) (i : ℕ)
    → b.closed ≡ true
    → (x : Error) × (Ballot.vote_commit b id voter i ≡ some (b, err x))
unfolding Ballot.vote_commit
vote_commit_shut b id voter i c = elim (Bool-cases (equal b.fentry.id id)) [
  | inl e ↦ (Ballot.closed_error b, ground arith)
  | inr e ↦ (invalid_vote_id, ground arith)
]

module _ (conf : Config) where
  -- A request for `n` peers, the node among them, from one of them; those two have names.
  pub record IsVote (n : ℕ) (opts : RequestOptions) (source : ℕ) : Type 0 where
    pub checked : check_options conf opts ≡ none
    pub self : ℕ
    pub me : Participant
    pub found : get_self_index conf opts.peer_set ≡ some self
    pub at_self : get_elem? opts.peer_set self ≡ some me
    pub me_named : is_blank me.host ≡ false
    pub comes_from : opts.source_index ≡ pos source
    pub peer : Participant
    pub at_source : get_elem? opts.peer_set source ≡ some peer
    pub peer_named : is_blank peer.host ≡ false
    pub sized : length opts.peer_set ≡ n

  Nearer-trans :
      (hlog m after : Node conf) (id : Bytes) (n : ℕ) (b : Ballot conf.Data) (i j : ℕ)
      (x : Nearer conf hlog m id n b i)
      → Nearer conf m after id n x.waiting.ballot j
      → Nearer conf hlog after id n b j
  Nearer-trans hlog m after id n b i j x y = record {
    waiting = y.waiting;
    quiet = y.quiet ∙ x.quiet;
    kept = λ k h. y.kept k (x.kept k h);
    voted = y.voted;
  }

  -- The vote of the source is one cast.
  pub cast_source_runs :
      (hlog after : Node conf) (id : Bytes) (b : Ballot conf.Data) (opts : RequestOptions)
      (self i now : ℕ) (peer : Participant) (e : Option Error)
      → opts.source_index ≡ pos i
      → get_elem? opts.peer_set i ≡ some peer
      → cast conf hlog id b opts self peer.host i now ≡ some (after, e)
      → cast_source conf hlog id b opts self now
        ≡ some (after, record { ballot = some id; error = e })
  unfolding cast_source
  cast_source_runs hlog after id b opts self i now peer e from at ran =
      rw (sent_by, cast_source) (ap sent from ∙ rw ran refl)
    where
      sent_by : source_peer opts ≡ some peer
      sent_by = source_peer_at opts i peer from at

      sent : ℤ → Option (Node conf × Reply)
      sent z = source_slot z (λ j. cast conf hlog id b opts self peer.host j now) >>= λ t.
          some (t.0, record { ballot = some id; error = t.1 })

  source_progress :
      (hlog : Node conf) (id : Bytes) (n : ℕ) (opts : RequestOptions) (self i now : ℕ)
      (w : Waiting conf hlog id n)
      → 2 ≤ n
      → IsVote n opts i
      → (after : Node conf) × (r : Reply) × (cast_source conf hlog id w.ballot opts self now
          ≡ some (after, r))
        × (Nearer conf hlog after id n w.ballot i ⊎ Committed conf hlog after id n)
  source_progress hlog id n opts self i now w m v =
      let (after, ran, done) =
        cast_progress conf hlog id n opts self v.peer.host i now w m v.sized v.peer_named
          (omega (arith, in_range opts.peer_set i v.peer v.at_source, v.sized)) in
      (
        after,
        record { ballot = some id; error = none },
        cast_source_runs hlog after id w.ballot opts self i now v.peer none v.comes_from v.at_source
            ran,
        done,
      )

  -- A vote on a closed ballot fails.
  pub closed_runs :
      (hlog : Node conf) (id : Bytes) (b : Ballot conf.Data) (opts : RequestOptions) (self : ℕ)
      (voter : Bytes) (i now : ℕ)
      → b.closed ≡ true
      → (x : Error) × (cast conf hlog id b opts self voter i now
          ≡ some (set_ballot conf hlog id b, some x))
  unfolding cast
  closed_runs hlog id b opts self voter i now c =
      let (x, q) = vote_commit_shut b id voter i c in (x, rw (q, cast) refl)

  abbrev Reached :
      Node conf → Bytes → ℕ → Ballot conf.Data → ℕ → Option (Node conf × Reply) → Type 0
  Reached hlog id n before i ran =
      (after : Node conf) × (r : Reply) × (ran ≡ some (after, r))
      × (Nearer conf hlog after id n before i ⊎ Committed conf hlog after id n)

  current_held :
      (m : Node conf) (id : Bytes) (b c : Ballot conf.Data)
      → get_ballot conf m id ≡ some c
      → current conf m id b ≡ c
  unfolding current
  current_held m id b c h = rw (h, current) refl

  -- The vote of the source, after the node's own vote left the ballot waiting.
  second_vote :
      (hlog m : Node conf) (id : Bytes) (n : ℕ) (b : Ballot conf.Data) (opts : RequestOptions)
      (self i now : ℕ)
      → 2 ≤ n
      → IsVote n opts i
      → Nearer conf hlog m id n b self
      → Reached hlog id n b i (cast_source conf m id (current conf m id b) opts self now)
  second_vote hlog m id n b opts self i now two v x =
      let (after, r, ran, done) = source_progress m id n opts self i now x.waiting two v in
      (
        after,
        r,
        ap (λ (c : Ballot conf.Data). cast_source conf m id c opts self now)
              (current_held m id b x.waiting.ballot x.waiting.held)
            ∙ ran,
        elim done [
          | inl y ↦ inl (Nearer-trans hlog m after id n b self i x y)
          | inr c ↦ inr (Committed-from conf hlog m after id n x.quiet c)
        ],
      )

  -- The vote of the source, after the node's own vote committed.
  late_vote :
      (hlog m : Node conf) (id : Bytes) (n : ℕ) (b : Ballot conf.Data) (opts : RequestOptions)
      (self i now : ℕ)
      → IsVote n opts i
      → Committed conf hlog m id n
      → Reached hlog id n b i (cast_source conf m id (current conf m id b) opts self now)
  late_vote hlog m id n b opts self i now v c =
      let shut : (current conf m id b).closed ≡ true =
        ap (λ (c : Ballot conf.Data). c.closed) (current_held m id b c.ballot c.held) ∙ c.closed in
      let (x, ran) = closed_runs m id (current conf m id b) opts self v.peer.host i now shut in
      let after : Node conf = set_ballot conf m id (current conf m id b) in
      let sent =
        cast_source_runs m after id (current conf m id b) opts self i now v.peer (some x)
          v.comes_from v.at_source ran in
      (
        after,
        record { ballot = some id; error = some x },
        sent,
        inr (
            after_commit conf hlog m after id b opts self now n
              (record { ballot = some id; error = some x }) c sent),
      )

  commit_at_progress :
      (hlog : Node conf) (id : Bytes) (n : ℕ) (opts : RequestOptions) (i now : ℕ)
      (w : Waiting conf hlog id n) (v : IsVote n opts i)
      → 2 ≤ n
      → Reached hlog id n w.ballot i (commit_at conf hlog id w.ballot opts v.self v.me now)
  unfolding commit_at
  commit_at_progress hlog id n opts i now w v two =
      elim (Bool-cases (eq_int (int32 v.self) opts.source_index)) [
        | inl e ↦
            let (after, r, ran, done) = source_progress hlog id n opts v.self i now w two v in
            (after, r, rw (e, commit_at) ran, done)
        | inr e ↦
            let (m, first, done) =
              cast_progress conf hlog id n opts v.self v.me.host v.self now w two v.sized v.me_named
                (omega (arith, in_range opts.peer_set v.self v.me v.at_self, v.sized)) in
            let (after, r, ran, done') =
              elim done
                as (λ d.
                  Reached hlog id n w.ballot i
                    (cast_source conf m id (current conf m id w.ballot) opts v.self now)) [
                      | inl x ↦ second_vote hlog m id n w.ballot opts v.self i now two v x
                      | inr c ↦ late_vote hlog m id n w.ballot opts v.self i now v c
                    ] in
            (after, r, rw (e, commit_at) (rw first ran), done')
      ]

  -- A call of `Commit` with a vote brings the ballot nearer, or commits.
  pub commit_progress :
      (hlog : Node conf) (entry : Entry) (n : ℕ) (opts : RequestOptions) (i now : ℕ)
      (w : Waiting conf hlog (hash conf.hasher entry) n)
      → 2 ≤ n
      → IsVote n opts i
      → Reached hlog (hash conf.hasher entry) n w.ballot i (commit conf hlog entry opts now)
  unfolding commit
  commit_progress hlog entry n opts i now w two v =
      let (after, r, ran, done) =
        commit_at_progress hlog (hash conf.hasher entry) n opts i now w v two in
      (after, r, rw (v.checked, commit) (rw (v.found) (rw (w.held) (rw (v.at_self) ran))), done)
