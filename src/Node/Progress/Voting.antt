-- ===== src/Node/Progress/Voting.antt =====
-- One vote of `Commit` (hexalog.go) on a ballot that waits for commits.
use hexalog.Prelude.{
  ℕ, ◌+◌, ◌≤◌, ◌<◌, zero, suc, ◌≡◌, ◌≢◌, refl, sym, ap, ◌∙◌, ◌⊎◌, inl, inr, true, false, Option,
  none, some, List, [], ◌∷◌, arith, Bool-cases, ◌==◌, length, length-set, get_elem?, set,
  get_elem?-set_self, get_elem?-set_ne, int32,
}
use mathlib.Core.Option.{some-injective}
use hexalog.Bytes.{Bytes, equal_refl, equal_iff}
use hexalog.Error.{Error, ok}
use hexalog.Ballot.{Ballot, running, is_blank, proposals, commits}
use hexalog.Ballot
use hexalog.Ballot.Votes.{count_votes-set}
use hexalog.Map
use hexalog.Map.{Map}
use hexalog.LogStore
use hexalog.LogStore.{LogStore}
use hexalog.Options.{RequestOptions, clone_with_source_index}
use hexalog.Node.{Config, Node, get_ballot, set_ballot}
use hexalog.Node.Commit.{cast}
use hexalog.Node.Quorum.{Committed, Committed-from, get_ballot-set_ballot}
use hexalog.Prelude.{in_range}
use hexalog.Node.Progress.{HasVote, Waiting, Nearer}
use hexalog.Node.Progress.Finishing.{queue_runs, queue_quiet}

module _ (conf : Config) where
  vote_free :
      (b : Ballot conf.Data) (id voter v : Bytes) (i : ℕ)
      → b.fentry.id ≡ id
      → b.closed ≡ false
      → get_elem? b.committed i ≡ some v
      → is_blank v ≡ true
      → Ballot.vote_commit b id voter i
        ≡ some (
          record b { committed = set b.committed i voter },
          ok (Ballot.count_votes (set b.committed i voter), true),
        )
  unfolding Ballot.vote_commit
  vote_free b id voter v i own o at blank = ground (arith, equal_refl id, equal_iff b.fentry.id id)

  vote_again :
      (b : Ballot conf.Data) (id voter v : Bytes) (i : ℕ)
      → b.fentry.id ≡ id
      → b.closed ≡ false
      → get_elem? b.committed i ≡ some v
      → is_blank v ≡ false
      → Ballot.vote_commit b id voter i ≡ some (b, ok (commits b, false))
  unfolding Ballot.vote_commit commits
  vote_again b id voter v i own o at named = ground (arith, equal_refl id, equal_iff b.fentry.id id)

  kept_by_set :
      (arr : List Bytes) (i j : ℕ) (voter v : Bytes)
      → get_elem? arr i ≡ some v
      → is_blank v ≡ true
      → HasVote arr j
      → HasVote (set arr i voter) j
  kept_by_set arr i j voter v at blank h = record {
    vote = h.vote;
    there = get_elem?-set_ne arr voter apart ∙ h.there;
    named = h.named;
  }
    where
      apart : i ≢ j
      apart e =
          let same : v ≡ h.vote = some-injective _ _ (sym at ∙ (ap (get_elem? arr) e ∙ h.there)) in
          let clash : is_blank h.vote ≡ true = ap is_blank (sym same) ∙ blank in cc

  slot_of : (arr : List Bytes) (i : ℕ) → i < length arr → (v : Bytes) × (get_elem? arr i ≡ some v)
  slot_of [] i h = absurd (omega arith)
  slot_of (x ∷ arr) zero h = (x, refl)
  slot_of (x ∷ arr) (suc i) h = slot_of arr i (omega arith)

  abbrev Progressed :
      Node conf → Bytes → ℕ → Ballot conf.Data → ℕ → Option (Node conf × Option Error) → Type 0
  Progressed hlog id n before i ran =
      (after : Node conf) × (ran ≡ some (after, none))
      × (Nearer conf hlog after id n before i ⊎ Committed conf hlog after id n)

  module _ (hlog : Node conf) (id : Bytes) (n : ℕ) (opts : RequestOptions) (self : ℕ)
      (voter v : Bytes) (i now : ℕ) (w : Waiting conf hlog id n) (l : length opts.peer_set ≡ n)
      (named : is_blank voter ≡ false) (at : get_elem? w.ballot.committed i ≡ some v) where
    next : Ballot conf.Data
    next = record w.ballot { committed = set w.ballot.committed i voter }

    there : Node conf
    unfolding next
    there = set_ballot conf hlog id next

    -- The slot has a vote.
    cast_again :
        is_blank v ≡ false
        → Progressed hlog id n w.ballot i (cast conf hlog id w.ballot opts self voter i now)
    unfolding cast set_ballot
    cast_again taken = (
      set_ballot conf hlog id w.ballot,
      rw (vote_again w.ballot id voter v i w.own w.is_open at taken, cast) refl,
      inl (record {
        waiting = record {
          ballot = w.ballot;
          held = get_ballot-set_ballot conf hlog id w.ballot;
          own = w.own;
          is_open = w.is_open;
          timed = w.timed;
          all_proposed = w.all_proposed;
          slots = w.slots;
          few = w.few;
          log_after = w.log_after;
          loggable = w.loggable;
        };
        quiet = refl;
        kept = λ j h. h;
        voted = record { vote = v; there = at; named = taken };
      }),
    )

    one_more : is_blank v ≡ true → Ballot.count_votes next.committed ≡ commits w.ballot + 1
    unfolding next commits
    one_more free = count_votes-set w.ballot.committed i v voter at free named

    -- The slot is free, and another slot stays so.
    cast_more :
        is_blank v ≡ true
        → Ballot.count_votes next.committed < n
        → Progressed hlog id n w.ballot i (cast conf hlog id w.ballot opts self voter i now)
    unfolding cast set_ballot clone_with_source_index commits get_ballot proposals next there
    cast_more free fewer =
        let (after, ran, quiet, stored, balloted) =
          queue_quiet conf there id next (clone_with_source_index opts (int32 self)) now
            (Ballot.count_votes next.committed) (omega arith) in
        (
          after,
          rw (vote_free w.ballot id voter v i w.own w.is_open at free, cast) (rw ran refl),
          inl (record {
            waiting = record {
              ballot = next;
              held =
                  ap (λ (m : Map (Ballot conf.Data)). Map.get m id) balloted
                  ∙ get_ballot-set_ballot conf hlog id next;
              own = w.own;
              is_open = w.is_open;
              timed = w.timed;
              all_proposed = w.all_proposed;
              slots = length-set w.ballot.committed i voter ∙ w.slots;
              few = fewer;
              log_after = w.log_after;
              loggable =
                  ap
                    (λ (s : LogStore conf.entry_store).
                      LogStore.append_entry conf.entry_store conf.hasher s w.ballot.fentry.entry)
                    stored
                  ∙ w.loggable;
            };
            quiet = quiet;
            kept = λ j h. kept_by_set w.ballot.committed i j voter v at free h;
            voted = record {
              vote = voter;
              there =
                  get_elem?-set_self w.ballot.committed i voter
                    (in_range w.ballot.committed i v at);
              named = named;
            };
          }),
        )

    -- The slot is the last free one.
    cast_last :
        2 ≤ n
        → is_blank v ≡ true
        → Ballot.count_votes next.committed ≡ n
        → Progressed hlog id n w.ballot i (cast conf hlog id w.ballot opts self voter i now)
    unfolding cast set_ballot clone_with_source_index commits proposals next there
    cast_last m free full =
        let (after, ran, done) =
          queue_runs conf there id next (clone_with_source_index opts (int32 self)) now n
            w.log_after m l w.all_proposed full w.is_open w.timed w.loggable in
        (
          after,
          rw (vote_free w.ballot id voter v i w.own w.is_open at free, cast)
              (rw full (rw ran refl)),
          inr (Committed-from conf hlog there after id n refl done),
        )

  -- A vote of a peer with a name, in a slot of the ballot: the ballot waits on with the vote, or the
  -- entry is committed.
  pub cast_progress :
      (hlog : Node conf) (id : Bytes) (n : ℕ) (opts : RequestOptions) (self : ℕ) (voter : Bytes)
      (i now : ℕ) (w : Waiting conf hlog id n)
      → 2 ≤ n
      → length opts.peer_set ≡ n
      → is_blank voter ≡ false
      → i < n
      → (after : Node conf) × (cast conf hlog id w.ballot opts self voter i now
          ≡ some (after, none))
        × (Nearer conf hlog after id n w.ballot i ⊎ Committed conf hlog after id n)
  cast_progress hlog id n opts self voter i now w m l named lt =
      let (v, at) = slot_of w.ballot.committed i (omega (arith, w.slots)) in
      elim (Bool-cases (is_blank v)) [
        | inr taken ↦ cast_again hlog id n opts self voter v i now w l named at taken
        | inl free ↦
            let count = one_more hlog id n opts self voter v i now w l named at free in
            elim (Bool-cases (commits w.ballot + 1 == n)) [
              | inr short ↦
                  cast_more hlog id n opts self voter v i now w l named at free
                    (ground (arith, count, w.few))
              | inl full ↦
                  cast_last hlog id n opts self voter v i now w l named at m free
                    (ground (arith, count))
            ]
      ]
