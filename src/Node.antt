-- ===== src/Node.antt =====
-- hexalog.go and hexalog_utils.go: the state of a node, and the functions that its handlers share.
-- A channel is the list of what was sent on it; a pointer to a ballot is the ballot's key in the map,
-- and a ballot that changes is written back under it. A call of a handler runs from its start to its
-- end; `none` is a run-time panic in it. What the source takes from its configuration or from other
-- packages stands in `Config`. `now` is what `time.Now()` returns.
pub mod Propose
pub mod Commit
pub mod Checks
pub mod Reaping
pub mod Quorum
pub mod Progress
pub mod Entries
use hexalog.Prelude.{
  ℕ, zero, suc, ◌+◌, ℤ, pos, Bool, true, false, Option, none, some, List, [], ◌∷◌, ◌++◌, ◌&&◌,
  arith, ltb, ◌==◌, if◌then◌else◌, length, ◌>>=◌, not,
}
use hexalog.Bytes.{Bytes, or_nil, equal, zero_bytes}
use hexalog.Error.{
  Error, Result, ok, err, previous_hash, key_not_found, key_degraded, key_exists,
  insufficient_peers,
}
use hexalog.Entry.{Entry, Hasher, hash}
use hexalog.EntryStore.{EntryStore}
use hexalog.Map
use hexalog.Map.{Map}
use hexalog.IndexStore
use hexalog.LogStore
use hexalog.LogStore.{LogStore}
use hexalog.Future.{FutureEntry, new_future_entry, dispatch}
use hexalog.Ballot.{Ballot}
use hexalog.Ballot
use hexalog.Clock.{LamportClock}
use hexalog.Options.{Participant, RequestOptions, ReqResp}

-- config.go, and what the node is built from. `Data` is what the application's machine returns.
pub record Config : Type 1 where
  pub advertise_host : Bytes
  pub votes : ℕ
  pub hasher : Hasher
  pub entry_store : EntryStore
  pub lamport_clock : LamportClock
  pub Data : Type 0

pub record Node (conf : Config) : Type 0 where
  pub store : LogStore conf.entry_store
  pub ballots : Map (Ballot conf.Data)
  pub pch : List ReqResp
  pub cch : List ReqResp
  pub hch : List ReqResp
  pub apply_ch : List (FutureEntry conf.Data)
  pub clock : conf.lamport_clock.Clock

-- What `Propose` and `Commit` return: the ballot, by its key, and the error.
pub record Reply : Type 0 where
  pub ballot : Option Bytes
  pub error : Option Error

abbrev pub failed : Error → Reply
failed x = record { ballot = none; error = some x }

abbrev pub accepted : Bytes → Reply
accepted id = record { ballot = some id; error = none }

-- `err == e` for an error value of package hexatype.
abbrev pub is_key_not_found : Error → Bool
is_key_not_found key_not_found = true
is_key_not_found _ = false

abbrev pub is_key_exists : Error → Bool
is_key_exists key_exists = true
is_key_exists _ = false

-- The errors on which `Propose` asks for healing.
abbrev pub is_healable : Error → Bool
is_healable previous_hash = true
is_healable key_degraded = true
is_healable _ = false

module _ (conf : Config) where
  -- `opts.PeerSet == nil`, or too few peers.
  unfoldable pub check_options : RequestOptions → Option Error
  check_options opts = elim opts.peer_set [
    | [] ↦ some insufficient_peers
    | _ ↦ if ltb (length opts.peer_set) conf.votes then some insufficient_peers else none
  ]

  find_host : List Participant → ℕ → Option ℕ
  find_host [] i = none
  find_host (p ∷ ps) i =
      let rest = find_host ps (i + 1) in if equal p.host conf.advertise_host then some i else rest

  unfoldable pub get_self_index : List Participant → Option ℕ
  unfolding find_host
  get_self_index peerset = find_host peerset 0

  -- The height and the id of the last entry, 0 and the zero hash if there is none.
  last_of : Option Entry → ℕ × Bytes
  last_of none = (0, zero_bytes conf.hasher.size)
  last_of (some last) = (last.height, hash conf.hasher last)

  check_previous : Node conf → Entry → ℕ × Option Error
  unfolding last_of
  check_previous hlog entry =
      let (prev_height, last_id) =
        last_of (LogStore.last_entry conf.entry_store conf.hasher hlog.store entry.key) in
      (prev_height, if equal (or_nil entry.previous) last_id then none else some previous_hash)

  unfoldable pub verify_entry : Node conf → Entry → ℕ × Option Error
  unfolding check_previous
  verify_entry hlog entry = elim (IndexStore.get_key hlog.store.index entry.key) [
    | err x ↦ if is_key_not_found x then check_previous hlog entry else (0, some x)
    | ok kl ↦ elim kl.marker [ some m ↦ (0, some key_degraded) | none ↦ check_previous hlog entry ]
  ]

  unfoldable pub get_ballot : Node conf → Bytes → Option (Ballot conf.Data)
  get_ballot hlog key = Map.get hlog.ballots key

  unfoldable pub set_ballot : Node conf → Bytes → Ballot conf.Data → Node conf
  set_ballot hlog key b = record hlog { ballots = Map.put hlog.ballots key b }

  unfoldable pub remove_ballot : Node conf → Bytes → Node conf
  remove_ballot hlog key = record hlog { ballots = Map.remove hlog.ballots key }

  -- `ballot.close(err)`, its result dropped.
  unfoldable pub close_ballot :
      Node conf → Bytes → Ballot conf.Data → Option Error → ℕ → Option (Node conf)
  close_ballot hlog key ballot e now = do
    closing ← Ballot.close ballot e now
    some (set_ballot hlog key closing.0)

  unfoldable pub ballot_get_close : Node conf → Bytes → Option Error → ℕ → Option (Node conf)
  unfolding get_ballot close_ballot
  ballot_get_close hlog key e now = elim (get_ballot hlog key) [
    | none ↦ some hlog
    | some ballot ↦ close_ballot hlog key ballot e now
  ]

  send_proposal : Node conf → Entry → RequestOptions → Node conf
  send_proposal hlog entry opts = record hlog {
    pch = hlog.pch ++ record { id = none; entry = some entry; options = some opts } ∷ [];
  }

  -- The key is created if the log has no entry for it; that it exists already is no error.
  upsert_key : Node conf → ℕ → Entry → Node conf × Option Error
  upsert_key hlog zero entry =
      let (store, r) = LogStore.new_key conf.entry_store conf.hasher hlog.store entry.key in
      (
        record hlog { store = store },
        elim r [ ok kli ↦ none | err x ↦ if is_key_exists x then none else some x ],
      )
  upsert_key hlog (suc h) entry = (hlog, none)

  unfoldable pub upsert_key_and_broadcast :
      Node conf → ℕ → Entry → RequestOptions → Node conf × Option Error
  unfolding send_proposal upsert_key
  upsert_key_and_broadcast hlog prev_height entry opts =
      let (hlog', e) = upsert_key hlog prev_height entry in
      elim e [ some x ↦ (hlog', some x) | none ↦ (send_proposal hlog' entry opts, none) ]

  -- `checkVotesAndCommit` once the entry is in the log.
  pub finish_commit : Node conf → Bytes → Ballot conf.Data → ℕ → Option (Node conf × Bool)
  unfolding close_ballot
  finish_commit hlog key ballot now = do
    let fentry = dispatch ballot.fentry now
    let queued = record hlog {
      clock = conf.lamport_clock.witness hlog.clock ballot.fentry.entry.ltime;
      apply_ch = hlog.apply_ch ++ fentry ∷ [];
    }
    after ← close_ballot queued key (record ballot { fentry = fentry }) none now
    some (after, true)

  pub try_commit : Node conf → Bytes → Ballot conf.Data → ℕ → Option (Node conf × Bool)
  unfolding finish_commit
  try_commit hlog key ballot now =
      let (store, e) =
        LogStore.append_entry conf.entry_store conf.hasher hlog.store ballot.fentry.entry in
      let hlog' = record hlog { store = store } in
      elim e [
        | none ↦ finish_commit hlog' key ballot now
        | some x ↦ do after ← close_ballot hlog' key ballot (some x) now; some (after, false)
      ]

  unfoldable pub check_votes_and_commit :
      Node conf → Bytes → Ballot conf.Data → ℕ → Option (Node conf × Bool)
  unfolding try_commit
  check_votes_and_commit hlog key ballot now =
      if Ballot.proposals ballot == Ballot.commits ballot
      then try_commit hlog key ballot now
      else some (hlog, false)

  unfoldable pub queue_broadcast_or_commit :
      Node conf → Bytes → ℕ → Ballot conf.Data → RequestOptions → ℕ → Option (Node conf)
  unfolding check_votes_and_commit
  queue_broadcast_or_commit hlog key curr_votes ballot opts now =
      if curr_votes == 1
      then some (record hlog {
        cch =
            hlog.cch
            ++ record { id = none; entry = some ballot.fentry.entry; options = some opts } ∷ [];
      })
      else if curr_votes == length opts.peer_set
      then (do (after, _) ← check_votes_and_commit hlog key ballot now; some after)
      else some hlog

  -- The loop of `reapBallotsOnce`, over the keys of the map.
  reap_keys : Map (Ballot conf.Data) → List Bytes → Map (Ballot conf.Data) × ℕ
  reap_keys ballots [] = (ballots, 0)
  reap_keys ballots (k ∷ ks) =
      let (rest, c) = reap_keys ballots ks in
      elim (Map.get rest k) [
        | none ↦ (rest, c)
        | some b ↦ if b.closed then (Map.remove rest k, c + 1) else (rest, c)
      ]

  unfoldable pub reap_ballots_once : Node conf → Node conf × ℕ
  unfolding reap_keys
  reap_ballots_once hlog =
      let (ballots, c) = reap_keys hlog.ballots (Map.keys hlog.ballots) in
      (record hlog { ballots = ballots }, c)
