-- ===== src/Node/Quorum/AfterVote.antt =====
-- What follows the proposals of `Propose` (hexalog.go) once they are counted.
use mathlib.Core.Option.{some-injective}
use hexalog.Prelude.{
  ℕ, zero, suc, ◌≡◌, sym, ap, ◌∙◌, subst, inl, inr, Bool, false, Option, none, some, List, arith,
  Bool-cases, ◌==◌, ◌>>=◌, >>=-eq-some, length, int32,
}
use hexalog.Bytes.{Bytes}
use hexalog.Error.{Error}
use hexalog.Entry.{Entry}
use hexalog.Future.{FutureEntry}
use hexalog.Ballot.{Ballot, proposals}
use hexalog.Options.{RequestOptions, clone_with_source_index}
use hexalog.Node.{
  Config, Node, Reply, failed, accepted, close_ballot, upsert_key_and_broadcast,
  check_votes_and_commit,
}
use hexalog.Node.Propose.{broadcast_first, after_vote}
use hexalog.Node.Quorum.{Settles, close_ballot_quiet, check_votes-Settles}

module _ (conf : Config) where
  -- The queue of a node, so that facts about it can be carried along equations.
  abbrev pub queue_of : Node conf → List (FutureEntry conf.Data)
  queue_of hlog = hlog.apply_ch

  abbrev outcome : Node conf → Bytes → Option Error → Option (Node conf × Reply)
  outcome m id e = elim e [ some x ↦ some (m, failed x) | none ↦ some (m, accepted id) ]

  abbrev counted : Bytes → Node conf × Bool → Option (Node conf × Reply)
  counted id t = some (t.0, accepted id)

  upsert_quiet :
      (hlog : Node conf) (h : ℕ) (entry : Entry) (opts : RequestOptions)
      → queue_of (upsert_key_and_broadcast conf hlog h entry opts).0 ≡ queue_of hlog
  unfolding upsert_key_and_broadcast
  upsert_quiet hlog zero entry opts = ground arith
  upsert_quiet hlog (suc h) entry opts = ground arith

  pub broadcast_first_quiet :
      (hlog after : Node conf) (id : Bytes) (b : Ballot conf.Data) (h : ℕ) (entry : Entry)
      (opts : RequestOptions) (now : ℕ) (e : Option Error)
      → broadcast_first conf hlog id b h entry opts now ≡ some (after, e)
      → queue_of after ≡ queue_of hlog
  unfolding broadcast_first
  broadcast_first_quiet hlog after id b h entry opts now e q =
      go (upsert_key_and_broadcast conf hlog h entry opts) (upsert_quiet hlog h entry opts) q
    where
      ended : Node conf × Option Error → Option (Node conf × Option Error)
      ended (m, e) = elim e [
        | none ↦ some (m, none)
        | some x ↦ do m' ← close_ballot conf m id b (some x) now; some (m', some x)
      ]

      go :
          (u : Node conf × Option Error)
          → queue_of u.0 ≡ queue_of hlog
          → ended u ≡ some (after, e)
          → queue_of after ≡ queue_of hlog
      go (m, none) same q =
          ap (λ (t : Node conf × Option Error). queue_of t.0) (sym (some-injective _ _ q)) ∙ same
      go (m, some x) same q =
          let (m', done, last) = >>=-eq-some (close_ballot conf m id b (some x) now) _ q in
          ap (λ (t : Node conf × Option Error). queue_of t.0) (sym (some-injective _ _ last))
          ∙ (close_ballot_quiet conf m m' id b (some x) now done ∙ same)

  reported :
      (m after : Node conf) (id : Bytes) (e : Option Error) (r : Reply)
      → outcome m id e ≡ some (after, r)
      → queue_of after ≡ queue_of m
  reported m after id none r q =
      ap (λ (t : Node conf × Reply). queue_of t.0) (sym (some-injective _ _ q))
  reported m after id (some x) r q =
      ap (λ (t : Node conf × Reply). queue_of t.0) (sym (some-injective _ _ q))

  pub after_vote-Settles :
      (hlog after : Node conf) (id : Bytes) (b : Ballot conf.Data) (h : ℕ) (entry : Entry)
      (opts : RequestOptions) (idx n : ℕ) (voted : Bool) (now : ℕ) (r : Reply)
      → n ≡ proposals b
      → b.closed ≡ false
      → after_vote conf hlog id b h entry opts idx n voted now ≡ some (after, r)
      → Settles conf hlog after id (length opts.peer_set)
  unfolding after_vote
  after_vote-Settles hlog after id b h entry opts idx n voted now r p o q =
      elim (Bool-cases (n == 1)) [
        | inl one ↦ elim (Bool-cases voted) [
          | inl v ↦ inl (first (rw (v) at (rw (one, after_vote) at q)))
          | inr v ↦ inl (still (rw (v) at (rw (one, after_vote) at q)))
        ]
        | inr more ↦ elim (Bool-cases (n == length opts.peer_set)) [
          | inr few ↦ inl (still (rw few at (rw (more, after_vote) at q)))
          | inl all ↦ full (ground arith) (rw all at (rw (more, after_vote) at q))
        ]
      ]
    where
      first :
          (do
            (m, e) ←
                broadcast_first conf hlog id b h entry
                  (clone_with_source_index opts (int32 idx))
                  now
            outcome m id e)
            ≡ some (after, r)
          → queue_of after ≡ queue_of hlog
      first e =
          let (m, done, last) =
            >>=-eq-some
              (broadcast_first conf hlog id b h entry (clone_with_source_index opts (int32 idx))
                now)
              _ e in
          reported m.0 after id m.1 r last
          ∙ broadcast_first_quiet hlog m.0 id b h entry (clone_with_source_index opts (int32 idx))
              now m.1 done

      full :
          n ≡ length opts.peer_set
          → (check_votes_and_commit conf hlog id b now >>= counted id) ≡ some (after, r)
          → Settles conf hlog after id (length opts.peer_set)
      full all e =
          let (m, done, last) = >>=-eq-some (check_votes_and_commit conf hlog id b now) _ e in
          let reached : m.0 ≡ after =
            ap (λ (t : Node conf × Reply). t.0) (some-injective _ _ last) in
          subst (λ t. Settles conf hlog t id (length opts.peer_set)) reached
            (check_votes-Settles conf hlog m.0 id b now (length opts.peer_set) m.1
              (inl (sym p ∙ all)) o done)

      still : outcome hlog id none ≡ some (after, r) → queue_of after ≡ queue_of hlog
      still e = reported hlog after id none r e
