-- ===== src/Node/Progress/Delivery.antt =====
-- That `Commit` (hexalog.go) commits once the commits of all peers have come.
use mathlib.Core.Option.{some-injective}
use hexalog.Prelude.{
  ℕ, suc, ◌≤◌, ◌<◌, ◌≡◌, refl, sym, ap, ◌∙◌, subst, ◌⊎◌, inl, inr, false, Option, some, List, [],
  ◌∷◌, arith, Bool-cases, ◌>>=◌, length, int32, eq_int,
}
use hexalog.Bytes.{Bytes}
use hexalog.Entry.{Entry, hash}
use hexalog.Ballot.{Ballot, is_blank}
use hexalog.Ballot
use hexalog.Options.{RequestOptions}
use hexalog.Node.{Config, Node, Reply, set_ballot}
use hexalog.Node.Commit.{commit_at, commit}
use hexalog.Node.Quorum.{Committed, Committed-from, get_ballot-set_ballot}
use hexalog.Node.Progress.{HasVote, Waiting, Nearer}
use hexalog.Node.Progress.Calls.{IsVote, cast_source_runs, closed_runs, commit_progress}

all_votes :
    (arr : List Bytes)
    → ((j : ℕ) → j < length arr → HasVote arr j)
    → Ballot.count_votes arr ≡ length arr
unfolding Ballot.count_votes
all_votes [] h = refl
all_votes (v ∷ arr) h =
    let rest = all_votes arr (λ j l.
      let x = h (suc j) (omega arith) in
      record { vote = x.vote; there = x.there; named = x.named }) in
    let first = h 0 (omega arith) in
    let same : v ≡ first.vote = some-injective _ _ first.there in
    let named : is_blank v ≡ false = ap is_blank same ∙ first.named in ground (arith, rest, named)

abbrev pub Among : ℕ → List ℕ → Type 0
Among j [] = ⊥
Among j (i ∷ sources) = (j ≡ i) ⊎ Among j sources

module _ (conf : Config) where
  -- The calls of `Commit` for an entry, one after the other.
  unfoldable pub deliver : Node conf → Entry → List (RequestOptions × ℕ) → Option (Node conf)
  deliver hlog entry [] = some hlog
  deliver hlog entry ((opts, now) ∷ calls) = do
    one ← commit conf hlog entry opts now
    deliver one.0 entry calls

  -- The calls are votes, each of the source that the list names.
  abbrev pub AreVotes : ℕ → List (RequestOptions × ℕ) → List ℕ → Type 0
  AreVotes n [] [] = Unit {0}
  AreVotes n [] (i ∷ sources) = ⊥
  AreVotes n (c ∷ calls) [] = ⊥
  AreVotes n (c ∷ calls) (i ∷ sources) = IsVote conf n c.0 i × AreVotes n calls sources

  recommitted :
      (hlog m : Node conf) (id : Bytes) (n : ℕ) (c : Committed conf hlog m id n)
      → Committed conf hlog (set_ballot conf m id c.ballot) id n
  unfolding set_ballot
  recommitted hlog m id n c = record {
    ballot = c.ballot;
    held = get_ballot-set_ballot conf m id c.ballot;
    all_proposed = c.all_proposed;
    all_committed = c.all_committed;
    closed = c.closed;
    no_error = c.no_error;
    before = c.before;
    appended = c.appended;
    queued = c.queued;
  }

  -- A call after the commit fails.
  commit_closed :
      (hlog m : Node conf) (entry : Entry) (n : ℕ) (opts : RequestOptions) (i now : ℕ)
      (c : Committed conf hlog m (hash conf.hasher entry) n)
      → IsVote conf n opts i
      → (r : Reply) × (commit conf m entry opts now
          ≡ some (set_ballot conf m (hash conf.hasher entry) c.ballot, r))
  unfolding commit commit_at
  commit_closed hlog m entry n opts i now c v =
      let id = hash conf.hasher entry in
      let (x, first) = closed_runs conf m id c.ballot opts v.self v.me.host v.self now c.closed in
      let (y, second) = closed_runs conf m id c.ballot opts v.self v.peer.host i now c.closed in
      let sent =
        cast_source_runs conf m (set_ballot conf m id c.ballot) id c.ballot opts v.self i now v.peer
          (some y) v.comes_from v.at_source second in
      elim (Bool-cases (eq_int (int32 v.self) opts.source_index)) [
        | inl e ↦ (
          record { ballot = some id; error = some y },
          rw (v.checked, commit)
              (rw (v.found) (rw (c.held) (rw (v.at_self) (rw (e, commit_at) sent)))),
        )
        | inr e ↦ (
          record { ballot = some id; error = some x },
          rw (v.checked, commit)
              (rw (v.found) (rw (c.held) (rw (v.at_self) (rw (e, commit_at) (rw first refl))))),
        )
      ]

  -- Calls after the commit leave it so.
  deliver_done :
      (hlog m : Node conf) (entry : Entry) (n : ℕ) (calls : List (RequestOptions × ℕ))
      (sources : List ℕ)
      → AreVotes n calls sources
      → Committed conf hlog m (hash conf.hasher entry) n
      → (after : Node conf) × (deliver m entry calls ≡ some after)
        × Committed conf hlog after (hash conf.hasher entry) n
  unfolding deliver
  deliver_done hlog m entry n [] [] vs c = (m, refl, c)
  deliver_done hlog m entry n [] (i ∷ sources) vs c = absurd vs
  deliver_done hlog m entry n (k ∷ calls) [] vs c = absurd vs
  deliver_done hlog m entry n ((opts, now) ∷ calls) (i ∷ sources) (v, vs) c =
      let (r, ran) = commit_closed hlog m entry n opts i now c v in
      let (after, runs, done) =
        deliver_done hlog (set_ballot conf m (hash conf.hasher entry) c.ballot) entry n calls
          sources vs (recommitted hlog m (hash conf.hasher entry) n c) in
      (after, rw ran runs, done)

  few_of :
      (m : Node conf) (id : Bytes) (n : ℕ) (w : Waiting conf m id n)
      → Ballot.count_votes w.ballot.committed < n
  unfolding Ballot.commits
  few_of m id n w = w.few

  still :
      (m t : Node conf) (entry : Entry) (n i j : ℕ) (sources : List ℕ)
      (w : Waiting conf m (hash conf.hasher entry) n)
      (x : Nearer conf m t (hash conf.hasher entry) n w.ballot i)
      → HasVote w.ballot.committed j ⊎ Among j (i ∷ sources)
      → HasVote x.waiting.ballot.committed j ⊎ Among j sources
  still m t entry n i j sources w x (inl h) = inl (x.kept j h)
  still m t entry n i j sources w x (inr (inl e)) =
      inl (subst (λ k. HasVote x.waiting.ballot.committed k) (sym e) x.voted)
  still m t entry n i j sources w x (inr (inr a)) = inr a

  deliver_all :
      (hlog m : Node conf) (entry : Entry) (n : ℕ) (calls : List (RequestOptions × ℕ))
      (sources : List ℕ) (w : Waiting conf m (hash conf.hasher entry) n)
      → 2 ≤ n
      → m.apply_ch ≡ hlog.apply_ch
      → AreVotes n calls sources
      → ((j : ℕ) → j < n → HasVote w.ballot.committed j ⊎ Among j sources)
      → (after : Node conf) × (deliver m entry calls ≡ some after)
        × Committed conf hlog after (hash conf.hasher entry) n
  unfolding deliver
  deliver_all hlog m entry n [] [] w two q vs cover =
      let full =
        all_votes w.ballot.committed
          (λ j l. elim (cover j (omega (arith, w.slots))) [ inl h ↦ h | inr x ↦ absurd x ]) in
      absurd (omega (arith, full, w.slots, few_of m (hash conf.hasher entry) n w))
  deliver_all hlog m entry n [] (i ∷ sources) w two q vs cover = absurd vs
  deliver_all hlog m entry n (k ∷ calls) [] w two q vs cover = absurd vs
  deliver_all hlog m entry n ((opts, now) ∷ calls) (i ∷ sources) w two q (v, vs) cover =
      let (t, r, ran, done) = commit_progress conf m entry n opts i now w two v in
      let (after, runs, c) =
        elim done
          as (λ d.
            (after : Node conf) × (deliver t entry calls ≡ some after)
            × Committed conf hlog after (hash conf.hasher entry) n) [
              | inl x ↦
                  deliver_all hlog t entry n calls sources x.waiting two (x.quiet ∙ q) vs
                    (λ j l. still m t entry n i j sources w x (cover j l))
              | inr c ↦
                  deliver_done hlog t entry n calls sources vs
                    (Committed-from conf hlog m t (hash conf.hasher entry) n q c)
            ] in
      (after, rw ran runs, c)

  -- Once every peer has proposed an entry that can be appended, and calls of `Commit` bring the vote
  -- of every peer, in any order and as often as they like, the entry is committed: none of the calls
  -- panics, and after them the ballot is closed with as many commits as peers, and the entry is in the
  -- log and queued for the application's machine, once. There are two peers or more, with names.
  pub deliver-Committed :
      (hlog : Node conf) (entry : Entry) (n : ℕ) (calls : List (RequestOptions × ℕ))
      (sources : List ℕ)
      → Waiting conf hlog (hash conf.hasher entry) n
      → 2 ≤ n
      → AreVotes n calls sources
      → ((j : ℕ) → j < n → Among j sources)
      → (after : Node conf) × (deliver hlog entry calls ≡ some after)
        × Committed conf hlog after (hash conf.hasher entry) n
  deliver-Committed hlog entry n calls sources w two vs cover =
      deliver_all hlog hlog entry n calls sources w two refl vs (λ j h. inr (cover j h))
