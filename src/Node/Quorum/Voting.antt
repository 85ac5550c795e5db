-- ===== src/Node/Quorum/Voting.antt =====
-- What the votes of `Propose` (hexalog.go) lead to.
use mathlib.Core.Option.{some-injective}
use hexalog.Prelude.{
  ℕ, ◌≡◌, refl, sym, ap, ◌∙◌, inl, inr, Bool, true, false, Option, none, some, Bool-cases,
  Option-cases, if◌then◌else◌, ◌>>=◌, >>=-eq-some, length, int32, eq_int, pos, negsuc, ℤ,
}
use hexalog.Bytes.{Bytes}
use hexalog.Error.{Error, Result, ok, err}
use hexalog.Entry.{Entry}
use hexalog.Future.{new_future_entry}
use hexalog.Ballot.{Ballot, new_ballot, proposals}
use hexalog.Ballot
use hexalog.Ballot.Votes.{vote_propose_ok}
use hexalog.Options.{RequestOptions, Participant, clone_with_source_index, source_peer}
use hexalog.Node.{Config, Node, Reply, failed, get_ballot, set_ballot}
use hexalog.Node.Propose.{broadcast_first, after_vote, vote_source, vote_self, vote, source_slot}
use hexalog.Node.Quorum.{Settles, Settles-from}
use hexalog.Node.Quorum.AfterVote.{queue_of, broadcast_first_quiet, after_vote-Settles}

module _ (conf : Config) where
  vote_source-Settles :
      (hlog after : Node conf) (id : Bytes) (b : Ballot conf.Data) (h : ℕ) (entry : Entry)
      (opts : RequestOptions) (idx now : ℕ) (r : Reply)
      → vote_source conf hlog id b h entry opts idx now ≡ some (after, r)
      → Settles conf hlog after id (length opts.peer_set)
  unfolding vote_source set_ballot
  vote_source-Settles hlog after id b h entry opts idx now r q =
      let (peer, _, q1) = >>=-eq-some (source_peer opts) _ q in slot opts.source_index peer q1
    where
      counted_vote : Ballot conf.Data → Result (ℕ × Bool) → Option (Node conf × Reply)
      counted_vote b' v = elim v [
        | err x ↦ some (set_ballot conf hlog id b', record { ballot = some id; error = some x })
        | ok (n, voted) ↦
            after_vote conf (set_ballot conf hlog id b') id b' h entry opts idx n voted now
      ]

      counted_lem :
          (i : ℕ) (host : Bytes) (b' : Ballot conf.Data) (v : Result (ℕ × Bool))
          → Ballot.vote_propose b id host i now ≡ some (b', v)
          → counted_vote b' v ≡ some (after, r)
          → Settles conf hlog after id (length opts.peer_set)
      counted_lem i host b' (err x) e q =
          inl (ap (λ (t : Node conf × Reply). queue_of conf t.0) (sym (some-injective _ _ q)))
      counted_lem i host b' (ok (n, voted)) e q =
          let (p, o) = vote_propose_ok b b' id host i now n voted e in
          Settles-from conf hlog (set_ballot conf hlog id b') after id (length opts.peer_set) refl (
            after_vote-Settles conf (set_ballot conf hlog id b') after id b' h entry opts idx n
              voted now r p o q)

      slot :
          (z : ℤ) (peer : Participant)
          → (source_slot z (λ i. Ballot.vote_propose b id peer.host i now) >>= λ t.
              counted_vote t.0 t.1)
            ≡ some (after, r)
          → Settles conf hlog after id (length opts.peer_set)
      slot (negsuc i) peer q = cc
      slot (pos i) peer q =
          let (t, e, q') = >>=-eq-some (Ballot.vote_propose b id peer.host i now) _ q in
          counted_lem i peer.host t.0 t.1 e q'

  vote_self-Settles :
      (hlog after : Node conf) (id : Bytes) (b : Ballot conf.Data) (h : ℕ) (entry : Entry)
      (opts : RequestOptions) (idx : ℕ) (host : Bytes) (now : ℕ) (r : Reply)
      → vote_self conf hlog id b h entry opts idx host now ≡ some (after, r)
      → Settles conf hlog after id (length opts.peer_set)
  unfolding vote_self set_ballot
  vote_self-Settles hlog after id b h entry opts idx host now r q =
      let (t, e, q') = >>=-eq-some (Ballot.vote_propose b id host idx now) _ q in go t.0 t.1 q'
    where
      copts : RequestOptions
      copts = clone_with_source_index opts (int32 idx)

      onward : Ballot conf.Data → Node conf × Option Error → Option (Node conf × Reply)
      onward b' (m, e) = elim e [
        | some x ↦ some (m, failed x)
        | none ↦ vote_source conf m id b' h entry opts idx now
      ]

      sent :
          (b' : Ballot conf.Data) (m : Node conf) (e : Option Error)
          → queue_of conf m ≡ queue_of conf hlog
          → onward b' (m, e) ≡ some (after, r)
          → Settles conf hlog after id (length opts.peer_set)
      sent b' m none same q =
          Settles-from conf hlog m after id (length opts.peer_set) same
            (vote_source-Settles m after id b' h entry opts idx now r q)
      sent b' m (some x) same q =
          inl
            (ap (λ (t : Node conf × Reply). queue_of conf t.0) (sym (some-injective _ _ q)) ∙ same)

      self_voted : Ballot conf.Data → Result (ℕ × Bool) → Option (Node conf × Reply)
      self_voted b' v = elim v [
        | err x ↦ vote_source conf (set_ballot conf hlog id b') id b' h entry opts idx now
        | ok (n, voted) ↦
            if voted
            then (broadcast_first conf (set_ballot conf hlog id b') id b' h entry copts now
                >>= onward b')
            else vote_source conf (set_ballot conf hlog id b') id b' h entry opts idx now
      ]

      straight :
          (b' : Ballot conf.Data)
          → vote_source conf (set_ballot conf hlog id b') id b' h entry opts idx now
            ≡ some (after, r)
          → Settles conf hlog after id (length opts.peer_set)
      straight b' q =
          Settles-from conf hlog (set_ballot conf hlog id b') after id (length opts.peer_set) refl
            (vote_source-Settles (set_ballot conf hlog id b') after id b' h entry opts idx now r q)

      go :
          (b' : Ballot conf.Data) (v : Result (ℕ × Bool))
          → self_voted b' v ≡ some (after, r)
          → Settles conf hlog after id (length opts.peer_set)
      go b' (err x) q = straight b' q
      go b' (ok (n, false)) q = straight b' q
      go b' (ok (n, true)) q =
          let (t, done, q') =
            >>=-eq-some (broadcast_first conf (set_ballot conf hlog id b') id b' h entry copts now)
              _ q in
          sent b' t.0 t.1
            (broadcast_first_quiet conf (set_ballot conf hlog id b') t.0 id b' h entry copts now t.1
              done)
            q'

  pub vote-Settles :
      (hlog after : Node conf) (id : Bytes) (h : ℕ) (entry : Entry) (opts : RequestOptions)
      (idx : ℕ) (host : Bytes) (now : ℕ) (r : Reply)
      → vote conf hlog id h entry opts idx host now ≡ some (after, r)
      → Settles conf hlog after id (length opts.peer_set)
  unfolding vote set_ballot
  vote-Settles hlog after id h entry opts idx host now r q =
      elim (Option-cases (get_ballot conf hlog id)) [
        | inr (b, e) ↦
            vote_source-Settles hlog after id b h entry opts idx now r (rw (e, vote) at q)
        | inl e ↦ fresh (rw (e, vote) at q)
      ]
    where
      opened : Ballot conf.Data
      opened = new_ballot (new_future_entry id entry) (length opts.peer_set)

      with_ballot : Node conf
      with_ballot = set_ballot conf hlog id opened

      fresh :
          (if eq_int (pos idx) opts.source_index
              then vote_source conf with_ballot id opened h entry opts idx now
              else vote_self conf with_ballot id opened h entry opts idx host now)
            ≡ some (after, r)
          → Settles conf hlog after id (length opts.peer_set)
      fresh q =
          Settles-from conf hlog with_ballot after id (length opts.peer_set) refl
            (elim (Bool-cases (eq_int (pos idx) opts.source_index)) [
              | inl e ↦
                  vote_source-Settles with_ballot after id opened h entry opts idx now r (rw e at q)
              | inr e ↦
                  vote_self-Settles with_ballot after id opened h entry opts idx host now r
                    (rw e at q)
            ])
