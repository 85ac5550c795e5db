-- ===== src/Tests/Broadcasts.antt =====
-- A round in which the other peer refuses the proposal.
use hexalog.Prelude.{ℕ, ◌≡◌, refl, true, some, [], ◌∷◌, arith, if◌then◌else◌}
use hexalog.Bytes.{Bytes, equal, equal_refl}
use hexalog.Error.{err, key_degraded}
use hexalog.Entry.{hash}
use hexalog.Map
use hexalog.Map.{get-put}
use hexalog.Ballot.{Ballot, wait}
use hexalog.Node.{Node, get_self_index, get_ballot}
use hexalog.Broadcast.{proposal_round}
use hexalog.Broadcast.Answers.{proposal_round-refused}
use hexalog.Tests.Data.{conf, toy_hasher, entry_1, from_b, peers}
use hexalog.Tests.Logs.{no_logs}
use hexalog.Tests.Votes.{with_proposal, proposal-IsValid, is_open, is_running}

abbrev id : Bytes
id = hash toy_hasher entry_1

-- The ballot of the entry is open, with the node's own proposal.
abbrev waiting : Node conf
waiting = record {
  store = no_logs;
  ballots = Map.put Map.empty id with_proposal;
  pch = [];
  cch = [];
  hch = [];
  apply_ch = [];
  clock = 0;
}

is_first : get_self_index conf peers ≡ some 0
unfolding get_self_index equal
is_first = refl

found : get_ballot conf waiting id ≡ some with_proposal
unfolding get_ballot
found = simp (get-put, equal_refl)

proposal_round-refused_example :
    (after : Node conf) × (ended : Ballot ℕ) × (told : Ballot ℕ) × (proposal_round conf waiting
        entry_1 from_b
        (err key_degraded ∷ [])
        7
      ≡ some after)
    × (get_ballot conf after id ≡ (if equal id id then some ended else get_ballot conf waiting id))
    × (ended.closed ≡ true)
    × (ended.error ≡ some key_degraded)
    × (wait ended ≡ some (told, some key_degraded))
    × (after.apply_ch ≡ waiting.apply_ch)
    × (after.store ≡ waiting.store)
proposal_round-refused_example =
    proposal_round-refused conf waiting entry_1 from_b 0 [] key_degraded [] 7 with_proposal id
      is_first (omega arith) found proposal-IsValid is_open is_running
