-- ===== src/Tests/Solo.antt =====
-- A node that is the only peer.
use hexalog.Prelude.{◌≡◌, refl, Option, none, some, [], ◌∷◌, length, int32, eq_int, pos, false}
use hexalog.Bytes.{equal, is_zero_bytes, big_endian}
use hexalog.Entry.{encode, hash}
use hexalog.Error.{key_invalid}
use hexalog.Index
use hexalog.IndexStore
use hexalog.Keylog
use hexalog.LogStore
use hexalog.Map
use hexalog.EntryStore.InMem
use hexalog.Future
use hexalog.Ballot
use hexalog.Options.{RequestOptions, clone_with_source_index, source_peer}
use hexalog.Node.{
  Config, Node, Reply, failed, check_options, get_self_index, verify_entry, get_ballot, set_ballot,
  close_ballot, upsert_key_and_broadcast, check_votes_and_commit, queue_broadcast_or_commit,
}
use hexalog.Node.Propose
use hexalog.Node.Commit
use hexalog.Node.Quorum.Alone.{commit-alone}
use hexalog.Tests.Data.{conf, entry_1, host_a, checksum}

abbrev solo : Config
solo = record conf { votes = 1 }

abbrev to_itself : RequestOptions
to_itself = record {
  source_index = pos 0;
  peer_set = record { id = 1 ∷ []; host = host_a; priority = pos 0; index = pos 0 } ∷ [];
  wait_ballot = false;
  wait_apply = false;
  wait_apply_timeout = pos 0;
}

abbrev taken : Node solo → Option (Node solo × Reply) → Node solo × Reply
taken n none = (n, failed key_invalid)
taken n (some r) = r

-- To run the handlers is to open all that they call.
idle : Node solo
unfolding Map.empty Map.get Map.put equal is_zero_bytes big_endian encode hash checksum int32 eq_int
    IndexStore.new IndexStore.new_key IndexStore.get_key IndexStore.write_back Index.append
    Index.new_safe_keylog_index Index.last Index.links Index.accept InMem.new InMem.get InMem.set
    Keylog.append_entry LogStore.new_key LogStore.get_key LogStore.append_entry LogStore.last_entry
    Future.new_future_entry Future.dispatch Ballot.new_ballot Ballot.count_votes Ballot.commits
    Ballot.proposals Ballot.vote_propose Ballot.vote_commit Ballot.close clone_with_source_index
    source_peer check_options get_self_index verify_entry get_ballot set_ballot close_ballot
    upsert_key_and_broadcast check_votes_and_commit queue_broadcast_or_commit Propose.default_source
    Propose.reject Propose.broadcast_first Propose.after_vote Propose.vote_source Propose.vote_self
    Propose.vote Propose.propose_at Propose.propose Commit.cast Commit.cast_source Commit.current
    Commit.commit_at Commit.commit
idle = record {
  store = record { index = IndexStore.new; entries = InMem.new };
  ballots = Map.empty;
  pch = [];
  cch = [];
  hch = [];
  apply_ch = [];
  clock = 0;
}

proposed : Node solo × Reply
proposed = taken idle (Propose.propose solo idle entry_1 to_itself 5)

committed : Node solo × Reply
committed = taken proposed.0 (Commit.commit solo proposed.0 entry_1 to_itself 6)

commits : Commit.commit solo proposed.0 entry_1 to_itself 6 ≡ some committed
unfolding idle proposed committed
commits = refl

-- All commits are there, and the ballot is open.
voted : length committed.0.cch ≡ 1
unfolding idle proposed committed
voted = refl

commit-alone_example : committed.0.apply_ch ≡ proposed.0.apply_ch
commit-alone_example =
    commit-alone solo proposed.0 committed.0 entry_1 to_itself 6 committed.1 refl commits
