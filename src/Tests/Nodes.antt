-- ===== src/Tests/Nodes.antt =====
-- A node that votes with one other.
use hexalog.Prelude.{
  ◌⊎◌, ℕ, zero, suc, ◌<◌, ◌≡◌, refl, Option, none, some, [], ◌∷◌, arith, length, int32, eq_int, pos,
  inl, inr,
}
use hexalog.Bytes.{equal, is_zero_bytes, big_endian}
use hexalog.Entry.{encode, hash}
use hexalog.Error.{key_invalid, ok}
use hexalog.Index
use hexalog.IndexStore
use hexalog.Keylog
use hexalog.LogStore
use hexalog.Map
use hexalog.EntryStore.InMem
use hexalog.Future
use hexalog.Ballot
use hexalog.Options.{clone_with_source_index, source_peer}
use hexalog.Node.{
  Node, Reply, failed, check_options, get_self_index, verify_entry, get_ballot, set_ballot,
  close_ballot, ballot_get_close, upsert_key_and_broadcast, check_votes_and_commit,
  queue_broadcast_or_commit,
}
use hexalog.Node.Propose
use hexalog.Node.Commit
use hexalog.Node.Progress.{Waiting}
use hexalog.Node.Progress.Delivery.{deliver, Among, deliver-Committed}
use hexalog.Node.Progress.Calls.{IsVote}
use hexalog.Node.Quorum.{Settles, Committed}
use hexalog.Node.Quorum.Proposing.{propose-Settles}
use hexalog.Node.Quorum.Committing.{commit-Settles}
use hexalog.Tests.Data.{conf, entry_1, from_b, host_a, host_b, checksum}
use hexalog.Options.{RequestOptions, ReqResp}
use hexalog.Broadcast.{proposal_round, broadcast_propose, collect, close_on}
use hexalog.Broadcast.Quorum.{IsAccepted, proposal_round-Settles}
use hexalog.Ballot.{Ballot, new_ballot, running}
use hexalog.Future.{new_future_entry}

abbrev taken : Node conf → Option (Node conf × Reply) → Node conf × Reply
taken n none = (n, failed key_invalid)
taken n (some r) = r

-- To run the handlers is to open all that they call.
idle : Node conf
unfolding Map.empty Map.get Map.put equal is_zero_bytes big_endian encode hash checksum int32 eq_int
    IndexStore.new IndexStore.new_key IndexStore.get_key IndexStore.write_back Index.append
    Index.new_safe_keylog_index Index.last Index.links Index.accept InMem.new InMem.get InMem.set
    Keylog.append_entry LogStore.new_key LogStore.get_key LogStore.append_entry LogStore.last_entry
    Future.new_future_entry Future.dispatch Ballot.new_ballot Ballot.count_votes Ballot.commits
    Ballot.proposals Ballot.vote_propose Ballot.vote_commit Ballot.close clone_with_source_index
    source_peer check_options get_self_index verify_entry get_ballot set_ballot close_ballot
    upsert_key_and_broadcast check_votes_and_commit queue_broadcast_or_commit Propose.default_source
    Propose.reject Propose.broadcast_first Propose.after_vote Propose.vote_source Propose.vote_self
    Propose.vote Propose.propose_at Propose.propose Commit.cast Commit.cast_source Commit.current
    Commit.commit_at Commit.commit
idle = record {
  store = record { index = IndexStore.new; entries = InMem.new };
  ballots = Map.empty;
  pch = [];
  cch = [];
  hch = [];
  apply_ch = [];
  clock = 0;
}

proposed : Node conf × Reply
proposed = taken idle (Propose.propose conf idle entry_1 from_b 5)

committed : Node conf × Reply
committed = taken proposed.0 (Commit.commit conf proposed.0 entry_1 from_b 6)

proposes : Propose.propose conf idle entry_1 from_b 5 ≡ some proposed
unfolding idle proposed
proposes = refl

commits : Commit.commit conf proposed.0 entry_1 from_b 6 ≡ some committed
unfolding idle proposed committed
commits = refl

-- The second commit vote completes the ballot, and the entry is queued.
queued_once : length committed.0.apply_ch ≡ 1
unfolding idle proposed committed
queued_once = refl

propose-Settles_example : Settles conf idle proposed.0 (hash conf.hasher entry_1) 2
propose-Settles_example = propose-Settles conf idle proposed.0 entry_1 from_b 5 proposed.1 proposes

commit-Settles_example : Settles conf proposed.0 committed.0 (hash conf.hasher entry_1) 2
commit-Settles_example =
    commit-Settles conf proposed.0 committed.0 entry_1 from_b 6 committed.1 commits

-- The calls of `Commit` that the two nodes' broadcasts bring.
abbrev from_a : RequestOptions
from_a = record from_b { source_index = pos 0 }

from_b-IsVote : IsVote conf 2 from_b 1
unfolding idle
from_b-IsVote = record {
  checked = refl;
  self = 0;
  me = record { id = 1 ∷ []; host = host_a; priority = pos 0; index = pos 0 };
  found = refl;
  at_self = refl;
  me_named = refl;
  comes_from = refl;
  peer = record { id = 2 ∷ []; host = host_b; priority = pos 1; index = pos 1 };
  at_source = refl;
  peer_named = refl;
  sized = refl;
}

from_a-IsVote : IsVote conf 2 from_a 0
unfolding idle
from_a-IsVote = record {
  checked = refl;
  self = 0;
  me = record { id = 1 ∷ []; host = host_a; priority = pos 0; index = pos 0 };
  found = refl;
  at_self = refl;
  me_named = refl;
  comes_from = refl;
  peer = record { id = 1 ∷ []; host = host_a; priority = pos 0; index = pos 0 };
  at_source = refl;
  peer_named = refl;
  sized = refl;
}

abbrev or_new : Option (Ballot ℕ) → Ballot ℕ
or_new none = new_ballot (new_future_entry [] entry_1) 2
or_new (some b) = b

voting : Ballot ℕ
voting = or_new (get_ballot conf proposed.0 (hash conf.hasher entry_1))

waiting : Waiting conf proposed.0 (hash conf.hasher entry_1) 2
unfolding idle proposed voting
waiting = record {
  ballot = voting;
  held = refl;
  own = refl;
  is_open = refl;
  timed = refl;
  all_proposed = refl;
  slots = refl;
  few = omega arith;
  log_after =
      (LogStore.append_entry conf.entry_store conf.hasher proposed.0.store voting.fentry.entry).0;
  loggable = refl;
}

both : (j : ℕ) → j < 2 → Among j (1 ∷ 0 ∷ [])
both zero h = inr (inl refl)
both (suc zero) h = inl refl
both (suc (suc j)) h = absurd (omega arith)

deliver-Committed_example :
    (after : Node conf) × (deliver conf proposed.0 entry_1 ((from_b, 6) ∷ (from_a, 7) ∷ [])
      ≡ some after)
    × Committed conf proposed.0 after (hash conf.hasher entry_1) 2
deliver-Committed_example =
    deliver-Committed conf proposed.0 entry_1 2 ((from_b, 6) ∷ (from_a, 7) ∷ []) (1 ∷ 0 ∷ [])
      waiting (omega arith) (from_b-IsVote, (from_a-IsVote, tt)) both

-- The round in which the other peer accepts the proposal, and the node that it leaves. The other
-- peer's commit is there before.
abbrev fine : ReqResp
fine = record { id = none; entry = none; options = none }

or_proposed : Option (Node conf) → Node conf
or_proposed none = proposed.0
or_proposed (some n) = n

rounded : Node conf
rounded = or_proposed (proposal_round conf proposed.0 entry_1 from_b (ok fine ∷ []) 6)

runs : proposal_round conf proposed.0 entry_1 from_b (ok fine ∷ []) 6 ≡ some rounded
unfolding idle proposed rounded or_proposed proposal_round broadcast_propose collect close_on
    ballot_get_close
runs = refl

-- The round commits.
round_queues : length rounded.apply_ch ≡ 1
unfolding idle proposed rounded or_proposed proposal_round broadcast_propose collect close_on
    ballot_get_close
round_queues = refl

proposal_round-Settles_example :
    (rounded.apply_ch ≡ proposed.0.apply_ch)
    ⊎ (IsAccepted conf from_b (ok fine ∷ [])
        × Committed conf proposed.0 rounded (hash conf.hasher entry_1) 2)
proposal_round-Settles_example =
    proposal_round-Settles conf proposed.0 rounded entry_1 from_b (ok fine ∷ []) 6 runs
