-- ===== src/Node/Quorum/Proposing.antt =====
-- When `Propose` (hexalog.go) commits.
use mathlib.Core.Option.{some-injective}
use hexalog.Prelude.{
  ℕ, ◌≡◌, sym, ap, ◌∙◌, subst, inl, inr, Option, none, some, List, arith, Bool-cases, Option-cases,
  >>=-eq-some, length, get_elem?, ltb, ◌&&◌,
}
use hexalog.Bytes.{Bytes}
use hexalog.Error.{Error}
use hexalog.Entry.{Entry, hash}
use hexalog.Options.{RequestOptions, Participant}
use hexalog.Node.{
  Config, Node, Reply, is_healable, check_options, get_self_index, verify_entry, get_ballot,
  ballot_get_close,
}
use hexalog.Node.Propose.{default_source, reject, vote, propose_at, propose}
use hexalog.Node.Quorum.{Settles, close_ballot_quiet}
use hexalog.Node.Quorum.AfterVote.{queue_of}
use hexalog.Node.Quorum.Voting.{vote-Settles}

module _ (conf : Config) where
  ballot_get_close_quiet :
      (hlog after : Node conf) (id : Bytes) (e : Option Error) (now : ℕ)
      → ballot_get_close conf hlog id e now ≡ some after
      → queue_of conf after ≡ queue_of conf hlog
  unfolding ballot_get_close
  ballot_get_close_quiet hlog after id e now q = elim (Option-cases (get_ballot conf hlog id)) [
    | inl n ↦
        ap (λ (t : Node conf). queue_of conf t)
          (sym (some-injective _ _ (rw (n, ballot_get_close) at q)))
    | inr (b, h) ↦ close_ballot_quiet conf hlog after id b e now (rw (h, ballot_get_close) at q)
  ]

  reject_quiet :
      (hlog after : Node conf) (id : Bytes) (entry : Entry) (opts : RequestOptions) (h : ℕ)
      (x : Error) (now : ℕ) (r : Reply)
      → reject conf hlog id entry opts h x now ≡ some (after, r)
      → queue_of conf after ≡ queue_of conf hlog
  unfolding reject
  reject_quiet hlog after id entry opts h x now r q =
      elim (Bool-cases (is_healable x && ltb h entry.height)) [
        | inl e ↦
            ap (λ (t : Node conf × Reply). queue_of conf t.0)
              (sym (some-injective _ _ (rw (e, reject) at q)))
        | inr e ↦
            let (m, done, last) =
              >>=-eq-some (ballot_get_close conf hlog id (some x) now) _ (rw (e, reject) at q) in
            ap (λ (t : Node conf × Reply). queue_of conf t.0) (sym (some-injective _ _ last))
            ∙ ballot_get_close_quiet hlog m id (some x) now done
      ]

  propose_at-Settles :
      (hlog after : Node conf) (entry : Entry) (opts : RequestOptions) (idx : ℕ) (loc : Participant)
      (now : ℕ) (r : Reply)
      → propose_at conf hlog entry opts idx loc now ≡ some (after, r)
      → Settles conf hlog after (hash conf.hasher entry) (length opts.peer_set)
  unfolding propose_at
  propose_at-Settles hlog after entry opts idx loc now r q = go (verify_entry conf hlog entry) q
    where
      verified : ℕ × Option Error → Option (Node conf × Reply)
      verified (h, e) = elim e [
        | some x ↦ reject conf hlog (hash conf.hasher entry) entry opts h x now
        | none ↦ vote conf hlog (hash conf.hasher entry) h entry opts idx loc.host now
      ]

      go :
          (v : ℕ × Option Error)
          → verified v ≡ some (after, r)
          → Settles conf hlog after (hash conf.hasher entry) (length opts.peer_set)
      go (h, some x) q =
          inl (reject_quiet hlog after (hash conf.hasher entry) entry opts h x now r q)
      go (h, none) q =
          vote-Settles conf hlog after (hash conf.hasher entry) h entry opts idx loc.host now r q

  same_peers :
      (opts : RequestOptions) (idx : ℕ) → (default_source opts idx).peer_set ≡ opts.peer_set
  unfolding default_source
  same_peers opts idx = ground arith

  -- A call of `Propose` queues nothing for the application's machine, or it commits: the ballot of
  -- the entry has as many proposals and as many commits as the request has peers, is closed without
  -- an error, and its entry was appended to the log and is what was queued, once.
  pub propose-Settles :
      (hlog after : Node conf) (entry : Entry) (opts : RequestOptions) (now : ℕ) (r : Reply)
      → propose conf hlog entry opts now ≡ some (after, r)
      → Settles conf hlog after (hash conf.hasher entry) (length opts.peer_set)
  unfolding propose
  propose-Settles hlog after entry opts now r q = elim (Option-cases (check_options conf opts)) [
    | inr (x, e) ↦ inl (
        ap (λ (t : Node conf × Reply). queue_of conf t.0)
          (sym (some-injective _ _ (rw (e, propose) at q))))
    | inl e ↦ elim (Option-cases (get_self_index conf opts.peer_set)) [
      | inl f ↦ inl (
          ap (λ (t : Node conf × Reply). queue_of conf t.0)
            (sym (some-injective _ _ (rw (f) at (rw (e, propose) at q)))))
      | inr (idx, f) ↦
          let (loc, _, q') =
            >>=-eq-some (get_elem? opts.peer_set idx) _ (rw (f) at (rw (e, propose) at q)) in
          subst
            (λ (ps : List Participant).
              Settles conf hlog after (hash conf.hasher entry) (length ps))
            (same_peers opts idx)
            (propose_at-Settles hlog after entry (default_source opts idx) idx loc now r q')
    ]
  ]
