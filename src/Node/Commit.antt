-- ===== src/Node/Commit.antt =====
-- `Commit` and `Heal` of hexalog.go.
use hexalog.Prelude.{
  ℕ, Option, none, some, [], ◌∷◌, ◌++◌, if◌then◌else◌, get_elem?, ◌>>=◌, eq_int, int32,
}
use hexalog.Bytes.{Bytes}
use hexalog.Error.{Error, ok, err, not_in_peer_set, ballot_not_found}
use hexalog.Entry.{Entry, hash}
use hexalog.Ballot.{Ballot}
use hexalog.Ballot
use hexalog.Options.{Participant, RequestOptions, clone_with_source_index, source_peer}
use hexalog.Node.{
  Config, Node, Reply, failed, check_options, get_self_index, get_ballot, set_ballot,
  queue_broadcast_or_commit,
}
use hexalog.Node.Propose.{source_slot}

module _ (conf : Config) where
  -- A commit vote of the peer in slot `i`, and what follows it. The ballot's state after it is read
  -- back from the map, since committing closes it.
  unfoldable pub cast :
      Node conf
      → Bytes
      → Ballot conf.Data
      → RequestOptions
      → ℕ
      → Bytes
      → ℕ
      → ℕ
      → Option (Node conf × Option Error)
  cast hlog id ballot opts self_index voter i now = do
    (ballot', r) ← Ballot.vote_commit ballot id voter i
    let hlog' = set_ballot conf hlog id ballot'
    elim r [
      | err x ↦ some (hlog', some x)
      | ok (votes, voted) ↦
          if voted
          then (do
            after ←
                queue_broadcast_or_commit conf hlog' id votes ballot'
                  (clone_with_source_index opts (int32 self_index)) now
            some (after, none))
          else some (hlog', none)
    ]

  -- The vote of the source.
  unfoldable pub cast_source :
      Node conf → Bytes → Ballot conf.Data → RequestOptions → ℕ → ℕ → Option (Node conf × Reply)
  unfolding cast
  cast_source hlog id ballot opts self_index now = do
    sloc ← source_peer opts
    (after, e) ←
        source_slot opts.source_index λ i. cast hlog id ballot opts self_index sloc.host i now
    some (after, record { ballot = some id; error = e })

  -- The ballot as it stands now: the pointer that `Commit` holds sees what was done to it.
  unfoldable pub current : Node conf → Bytes → Ballot conf.Data → Ballot conf.Data
  current hlog id ballot = elim (get_ballot conf hlog id) [ some b ↦ b | none ↦ ballot ]

  unfoldable pub commit_at :
      Node conf
      → Bytes
      → Ballot conf.Data
      → RequestOptions
      → ℕ
      → Participant
      → ℕ
      → Option (Node conf × Reply)
  unfolding cast cast_source current
  commit_at hlog id ballot opts self_index self now =
      if eq_int (int32 self_index) opts.source_index
      then cast_source hlog id ballot opts self_index now
      else (do
        (after, e) ← cast hlog id ballot opts self_index self.host self_index now
        elim e [
          | some x ↦ some (after, record { ballot = some id; error = some x })
          | none ↦ cast_source after id (current after id ballot) opts self_index now
        ])

  unfoldable pub commit : Node conf → Entry → RequestOptions → ℕ → Option (Node conf × Reply)
  unfolding commit_at
  commit hlog entry opts now = elim (check_options conf opts) [
    | some x ↦ some (hlog, failed x)
    | none ↦ elim (get_self_index conf opts.peer_set) [
      | none ↦ some (hlog, failed not_in_peer_set)
      | some self_index ↦
          let id = hash conf.hasher entry in
          elim (get_ballot conf hlog id) [
            | none ↦ some (hlog, failed ballot_not_found)
            | some ballot ↦ do
              self ← get_elem? opts.peer_set self_index
              commit_at hlog id ballot opts self_index self now
          ]
    ]
  ]

  -- `Heal` queues a request for the key.
  unfoldable pub heal : Node conf → Bytes → RequestOptions → Node conf × Option Error
  heal hlog key opts = elim (check_options conf opts) [
    | some x ↦ (hlog, some x)
    | none ↦
        let ent : Entry = record {
          key = key;
          previous = none;
          height = 0;
          timestamp = 0;
          ltime = 0;
          payload = [];
        } in
        (
          record hlog {
            hch = hlog.hch ++ record { id = none; entry = some ent; options = some opts } ∷ [];
          },
          none,
        )
  ]
