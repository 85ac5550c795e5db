-- ===== src/Node/Progress.antt =====
-- That a vote of `Commit` (hexalog.go) brings an entry nearer to the log: what "nearer" is.
pub mod Finishing
pub mod Voting
pub mod Calls
pub mod Delivery
use hexalog.Prelude.{
  ℕ, ◌+◌, ◌≤◌, ◌<◌, zero, suc, ◌≡◌, ◌≢◌, refl, sym, ap, ◌∙◌, ◌⊎◌, inl, inr, Bool, true, false,
  Option, none, some, List, [], ◌∷◌, ◌++◌, arith, Bool-cases, Option-cases, ◌==◌, if◌then◌else◌,
  ◌>>=◌, length, length-set, get_elem?, set, get_elem?-set_self, get_elem?-set_ne, int32,
}
use mathlib.Core.Option.{some-injective}
use hexalog.Bytes.{Bytes, equal_refl, equal_iff}
use hexalog.Error.{Error, Result, ok, err}
use hexalog.Entry.{Entry}
use hexalog.Ballot.{Ballot, running, is_blank, proposals, commits}
use hexalog.Ballot.Votes.{count_votes-set}
use hexalog.Ballot.Closing.{close_panics}
use hexalog.Future.{dispatch}
use hexalog.Map.{Map}
use hexalog.LogStore
use hexalog.LogStore.{LogStore}
use hexalog.Options.{RequestOptions, clone_with_source_index}
use hexalog.Node.{
  Config, Node, get_ballot, set_ballot, close_ballot, finish_commit, try_commit,
  check_votes_and_commit, queue_broadcast_or_commit,
}
use hexalog.Node.Commit.{cast}
use hexalog.Node.Quorum.{Committed, Committed-from, get_ballot-set_ballot, finish_commit-Committed}

-- Slot `i` has a vote.
pub record HasVote (arr : List Bytes) (i : ℕ) : Type 0 where
  pub vote : Bytes
  pub there : get_elem? arr i ≡ some vote
  pub named : is_blank vote ≡ false

module _ (conf : Config) where
  -- The ballot of `id` is open, with a proposal of each of its `n` voters and fewer commits; and its
  -- entry can be appended to the log.
  pub record Waiting (hlog : Node conf) (id : Bytes) (n : ℕ) : Type 0 where
    pub ballot : Ballot conf.Data
    pub held : get_ballot conf hlog id ≡ some ballot
    pub own : ballot.fentry.id ≡ id
    pub is_open : ballot.closed ≡ false
    pub timed : ballot.timer ≡ running
    pub all_proposed : proposals ballot ≡ n
    pub slots : length ballot.committed ≡ n
    pub few : commits ballot < n
    pub log_after : LogStore conf.entry_store
    pub loggable :
        LogStore.append_entry conf.entry_store conf.hasher hlog.store ballot.fentry.entry
        ≡ (log_after, none)

  -- A call that queued nothing left the ballot waiting, with all the votes that it had and that of
  -- slot `i`.
  pub record Nearer (hlog after : Node conf) (id : Bytes) (n : ℕ) (before : Ballot conf.Data)
      (i : ℕ) : Type 0 where
    pub waiting : Waiting after id n
    pub quiet : after.apply_ch ≡ hlog.apply_ch
    pub kept : (j : ℕ) → HasVote before.committed j → HasVote waiting.ballot.committed j
    pub voted : HasVote waiting.ballot.committed i
