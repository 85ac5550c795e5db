-- ===== src/Broadcast/Quorum.antt =====
-- When a round of the proposal broadcaster commits an entry (`broadcastProposals` of broadcast.go).
use hexalog.Prelude.{
  ℕ, ◌-◌, ◌≡◌, refl, sym, ap, subst, ◌∙◌, ◌⊎◌, inl, inr, Option, none, some, List, [], arith, ◌++◌,
  length, Option-cases, ◌>>=◌, >>=-eq-some,
}
use mathlib.Core.Option.{some-injective}
use hexalog.Bytes.{Bytes}
use hexalog.Error.{Error, Result}
use hexalog.Entry.{Entry, hash}
use hexalog.Options.{RequestOptions, ReqResp}
use hexalog.Ballot.Closing.{close_again}
use hexalog.Node.{
  Config, Node, Reply, get_self_index, get_ballot, set_ballot, close_ballot, ballot_get_close,
}
use hexalog.LogStore.{LogStore}
use hexalog.Node.Commit.{commit}
use hexalog.Node.Quorum.{Committed, Settles, close_ballot_quiet, get_ballot-set_ballot}
use hexalog.Node.Quorum.Committing.{commit-Settles}
use hexalog.Broadcast.{broadcast_propose, proposal_round, close_on}
use hexalog.Broadcast.Answers.{all_ok, collect-all_ok}

module _ (conf : Config) where
  -- So many answers are responses, one from each other peer, and none before them is an error.
  pub record IsAccepted (opts : RequestOptions) (answers : List (Result ReqResp)) : Type 0 where
    pub responses : List ReqResp
    pub later : List (Result ReqResp)
    pub taken : answers ≡ all_ok responses ++ later
    pub one_each : length responses ≡ length opts.peer_set - 1

  -- To close a ballot, if it is there, queues nothing.
  ballot_get_close_quiet :
      (hlog after : Node conf) (id : Bytes) (e : Option Error) (now : ℕ)
      → ballot_get_close conf hlog id e now ≡ some after
      → after.apply_ch ≡ hlog.apply_ch
  unfolding ballot_get_close
  ballot_get_close_quiet hlog after id e now h = elim (Option-cases (get_ballot conf hlog id)) [
    | inl q ↦
        ap (λ (m : Node conf). m.apply_ch)
          (sym (some-injective _ _ (rw (q, ballot_get_close) at h)))
    | inr (b, q) ↦ close_ballot_quiet conf hlog after id b e now (rw (q, ballot_get_close) at h)
  ]

  -- To close the ballot of a committed entry again changes nothing of what was committed.
  ballot_get_close-Committed :
      (hlog m after : Node conf) (id : Bytes) (n : ℕ) (e : Option Error) (now : ℕ)
      → Committed conf hlog m id n
      → ballot_get_close conf m id e now ≡ some after
      → Committed conf hlog after id n
  unfolding ballot_get_close set_ballot
  ballot_get_close-Committed hlog m after id n e now c h =
      let again = close_again c.ballot e now c.closed in
      let reached : set_ballot conf m id c.ballot ≡ after =
        some-injective _ _ (rw (again, close_ballot) at (rw (c.held, ballot_get_close) at h)) in
      subst (λ t. Committed conf hlog t id n) reached
        (kept (set_ballot conf m id c.ballot) refl refl (get_ballot-set_ballot conf m id c.ballot))
    where
      logged : LogStore conf.entry_store → LogStore conf.entry_store × Option Error
      logged l = (l, none)

      kept :
          (t : Node conf)
          → t.apply_ch ≡ m.apply_ch
          → t.store ≡ m.store
          → get_ballot conf t id ≡ some c.ballot
          → Committed conf hlog t id n
      kept t q s held = record {
        ballot = c.ballot;
        held = held;
        all_proposed = c.all_proposed;
        all_committed = c.all_committed;
        closed = c.closed;
        no_error = c.no_error;
        before = c.before;
        appended = c.appended ∙ ap (λ (l : LogStore conf.entry_store). logged l) (sym s);
        queued = q ∙ c.queued;
      }

  close_on-Settles :
      (hlog m after : Node conf) (entry : Entry) (n now : ℕ) (r : Reply)
      → Settles conf hlog m (hash conf.hasher entry) n
      → close_on conf entry now (m, r) ≡ some after
      → Settles conf hlog after (hash conf.hasher entry) n
  unfolding close_on
  close_on-Settles hlog m after entry n now r s h = elim (Option-cases r.error) [
    | inl e ↦
        subst (λ t. Settles conf hlog t (hash conf.hasher entry) n)
          (some-injective _ _ (rw (e, close_on) at h)) s
    | inr (x, e) ↦ elim s [
      | inl q ↦ inl (
          ballot_get_close_quiet m after (hash conf.hasher entry) (some x) now
            (rw (e, close_on) at h)
          ∙ q)
      | inr c ↦ inr (
          ballot_get_close-Committed hlog m after (hash conf.hasher entry) n (some x) now c
            (rw (e, close_on) at h))
    ]
  ]

  accepted :
      (opts : RequestOptions) (answers : List (Result ReqResp)) (out : List ReqResp)
      → broadcast_propose conf opts answers ≡ some (out, none)
      → IsAccepted opts answers
  unfolding broadcast_propose
  accepted opts answers out h = elim (Option-cases (get_self_index conf opts.peer_set)) [
    | inl e ↦ absurd (ground arith)
    | inr (idx, e) ↦
        let (rs, rest, taken, n) =
          collect-all_ok (length opts.peer_set - 1) answers [] out
            (rw (e, broadcast_propose) at h) in
        record { responses = rs; later = rest; taken = taken; one_each = n }
  ]

  -- Whatever the other peers answer, a round that broadcasts a proposal queues nothing for the
  -- application's machine, or it commits after each other peer has accepted: the answers up to then
  -- are responses, as many as there are other peers; the ballot of the entry has as many proposals and
  -- as many commits as the request has peers, and is closed without an error, even if the round closes
  -- it once more; and its entry was appended to the log and is what was queued, once.
  pub proposal_round-Settles :
      (hlog after : Node conf) (entry : Entry) (opts : RequestOptions)
      (answers : List (Result ReqResp)) (now : ℕ)
      → proposal_round conf hlog entry opts answers now ≡ some after
      → (after.apply_ch ≡ hlog.apply_ch)
        ⊎ (IsAccepted opts answers
            × Committed conf hlog after (hash conf.hasher entry) (length opts.peer_set))
  unfolding proposal_round
  proposal_round-Settles hlog after entry opts answers now h =
      let (got, asked, rest) = >>=-eq-some (broadcast_propose conf opts answers) _ h in
      told got.0 got.1 asked rest
    where
      goes_on : List ReqResp × Option Error → Option (Node conf)
      goes_on got = elim got.1 [
        | some x ↦ ballot_get_close conf hlog (hash conf.hasher entry) (some x) now
        | none ↦ do committed ← commit conf hlog entry opts now; close_on conf entry now committed
      ]

      told :
          (out : List ReqResp) (e : Option Error)
          → broadcast_propose conf opts answers ≡ some (out, e)
          → goes_on (out, e) ≡ some after
          → (after.apply_ch ≡ hlog.apply_ch)
            ⊎ (IsAccepted opts answers
                × Committed conf hlog after (hash conf.hasher entry) (length opts.peer_set))
      told out (some x) asked q =
          inl (ballot_get_close_quiet hlog after (hash conf.hasher entry) (some x) now q)
      told out none asked q =
          let (m, ran, closes) = >>=-eq-some (commit conf hlog entry opts now) _ q in
          elim (close_on-Settles hlog m.0 after entry (length opts.peer_set) now m.1
            (commit-Settles conf hlog m.0 entry opts now m.1 ran) closes) [
              | inl s ↦ inl s
              | inr c ↦ inr (accepted opts answers out asked, c)
            ]
