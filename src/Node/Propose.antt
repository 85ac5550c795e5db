-- ===== src/Node/Propose.antt =====
-- `Propose` of hexalog.go, in its steps.
use hexalog.Prelude.{
  ℕ, ℤ, pos, negsuc, Bool, Option, none, some, [], ◌∷◌, ◌++◌, ltb, ◌==◌, ◌&&◌, if◌then◌else◌,
  length, get_elem?, ◌>>=◌, eq_int, int32,
}
use hexalog.Bytes.{Bytes}
use hexalog.Error.{Error, ok, err, not_in_peer_set}
use hexalog.Entry.{Entry, hash}
use hexalog.Future.{new_future_entry}
use hexalog.Ballot.{Ballot, new_ballot}
use hexalog.Ballot
use hexalog.Options.{Participant, RequestOptions, clone_with_source_index, source_peer}
use hexalog.Node.{
  Config, Node, Reply, failed, accepted, is_healable, check_options, get_self_index, verify_entry,
  get_ballot, set_ballot, close_ballot, ballot_get_close, upsert_key_and_broadcast,
  check_votes_and_commit,
}

-- A source index that is not set is that of the node itself.
unfoldable pub default_source : RequestOptions → ℕ → RequestOptions
default_source opts idx = elim opts.source_index [
  | pos i ↦ opts
  | negsuc i ↦ record opts { source_index = int32 idx }
]

-- `int(opts.SourceIndex)` as an index; one that is negative is out of every range.
abbrev pub source_slot {ℓ} : {A : Type ℓ} → ℤ → (ℕ → Option A) → Option A
source_slot (pos i) f = f i
source_slot (negsuc i) f = none

module _ (conf : Config) where
  -- An entry that does not verify: a heal request if the node may be behind, else the ballot ends.
  unfoldable pub reject :
      Node conf → Bytes → Entry → RequestOptions → ℕ → Error → ℕ → Option (Node conf × Reply)
  reject hlog id entry opts prev_height x now =
      if is_healable x && ltb prev_height entry.height
      then some (
        record hlog {
          hch = hlog.hch ++ record { id = some id; entry = some entry; options = some opts } ∷ [];
        },
        failed x,
      )
      else (do after ← ballot_get_close conf hlog id (some x) now; some (after, failed x))

  -- A vote that is the first: the key is made and the proposal sent on. `none` as the error means
  -- that `Propose` goes on; an error ends the ballot.
  unfoldable pub broadcast_first :
      Node conf
      → Bytes
      → Ballot conf.Data
      → ℕ
      → Entry
      → RequestOptions
      → ℕ
      → Option (Node conf × Option Error)
  broadcast_first hlog id ballot prev_height entry copts now =
      let (hlog', e) = upsert_key_and_broadcast conf hlog prev_height entry copts in
      elim e [
        | none ↦ some (hlog', none)
        | some x ↦ do after ← close_ballot conf hlog' id ballot (some x) now; some (after, some x)
      ]

  -- What follows the vote of the source.
  unfoldable pub after_vote :
      Node conf
      → Bytes
      → Ballot conf.Data
      → ℕ
      → Entry
      → RequestOptions
      → ℕ
      → ℕ
      → Bool
      → ℕ
      → Option (Node conf × Reply)
  after_vote hlog id ballot prev_height entry opts idx pvotes voted now =
      if pvotes == 1
      then if voted
        then (do
          (after, e) ←
              broadcast_first hlog id ballot prev_height entry
                (clone_with_source_index opts (int32 idx)) now
          elim e [ some x ↦ some (after, failed x) | none ↦ some (after, accepted id) ])
        else some (hlog, accepted id)
      else if pvotes == length opts.peer_set
      then (do
        (after, _) ← check_votes_and_commit conf hlog id ballot now
        some (after, accepted id))
      else some (hlog, accepted id)

  -- The vote of the source, whose host names it.
  unfoldable pub vote_source :
      Node conf
      → Bytes
      → Ballot conf.Data
      → ℕ
      → Entry
      → RequestOptions
      → ℕ
      → ℕ
      → Option (Node conf × Reply)
  unfolding after_vote
  vote_source hlog id ballot prev_height entry opts idx now = do
    peer ← source_peer opts
    (ballot', r) ← source_slot opts.source_index λ i. Ballot.vote_propose ballot id peer.host i now
    let hlog' = set_ballot conf hlog id ballot'
    elim r [
      | err x ↦ some (hlog', record { ballot = some id; error = some x })
      | ok (pvotes, voted) ↦ after_vote hlog' id ballot' prev_height entry opts idx pvotes voted now
    ]

  -- The node's own vote on a ballot that it has just opened for another source. Its error is not
  -- looked at: the source tests the `err` of before, which is nil there.
  unfoldable pub vote_self :
      Node conf
      → Bytes
      → Ballot conf.Data
      → ℕ
      → Entry
      → RequestOptions
      → ℕ
      → Bytes
      → ℕ
      → Option (Node conf × Reply)
  unfolding vote_source
  vote_self hlog id ballot prev_height entry opts idx host now = do
    (ballot', r) ← Ballot.vote_propose ballot id host idx now
    let hlog' = set_ballot conf hlog id ballot'
    elim r [
      | err x ↦ vote_source hlog' id ballot' prev_height entry opts idx now
      | ok (n, voted) ↦
          if voted
          then (do
            (after, e) ←
                broadcast_first hlog' id ballot' prev_height entry
                  (clone_with_source_index opts (int32 idx)) now
            elim e [
              | some x ↦ some (after, failed x)
              | none ↦ vote_source after id ballot' prev_height entry opts idx now
            ])
          else vote_source hlog' id ballot' prev_height entry opts idx now
    ]

  -- The ballot of the entry, made if there is none.
  unfoldable pub vote :
      Node conf → Bytes → ℕ → Entry → RequestOptions → ℕ → Bytes → ℕ → Option (Node conf × Reply)
  unfolding vote_self vote_source
  vote hlog id prev_height entry opts idx host now = elim (get_ballot conf hlog id) [
    | some ballot ↦ vote_source hlog id ballot prev_height entry opts idx now
    | none ↦
        let ballot = new_ballot (new_future_entry id entry) (length opts.peer_set) in
        let hlog' = set_ballot conf hlog id ballot in
        if eq_int (pos idx) opts.source_index
        then vote_source hlog' id ballot prev_height entry opts idx now
        else vote_self hlog' id ballot prev_height entry opts idx host now
  ]

  -- `Propose` once the node knows its place `idx` among the peers.
  unfoldable pub propose_at :
      Node conf → Entry → RequestOptions → ℕ → Participant → ℕ → Option (Node conf × Reply)
  unfolding vote reject
  propose_at hlog entry opts idx loc now =
      let id = hash conf.hasher entry in
      let (prev_height, e) = verify_entry conf hlog entry in
      elim e [
        | some x ↦ reject hlog id entry opts prev_height x now
        | none ↦ vote hlog id prev_height entry opts idx loc.host now
      ]

  unfoldable pub propose : Node conf → Entry → RequestOptions → ℕ → Option (Node conf × Reply)
  unfolding propose_at
  propose hlog entry opts now = elim (check_options conf opts) [
    | some x ↦ some (hlog, failed x)
    | none ↦ elim (get_self_index conf opts.peer_set) [
      | none ↦ some (hlog, failed not_in_peer_set)
      | some idx ↦ do
        loc ← get_elem? opts.peer_set idx
        propose_at hlog entry (default_source opts idx) idx loc now
    ]
  ]
