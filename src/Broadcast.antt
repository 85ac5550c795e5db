-- ===== src/Broadcast.antt =====
-- broadcast.go: what a node sends to its peers for an entry, and what it does with their answers. The
-- answers are an argument, in the order in which the loop takes them from its channels; `none` is a
-- run-time panic, or a loop that waits for an answer that does not come.
pub mod Answers
pub mod Quorum
use hexalog.Prelude.{
  ℕ, zero, suc, ◌-◌, ℤ, pos, int32, Bool, true, false, Option, none, some, List, [], ◌∷◌, ◌++◌,
  length, if◌then◌else◌, ◌>>=◌,
}
use hexalog.Bytes.{Bytes, equal}
use hexalog.Error.{Error, Result, ok, err, not_in_peer_set}
use hexalog.Entry.{Entry, hash}
use hexalog.Options.{Participant, RequestOptions, ReqResp, clone_with_source_index}
use hexalog.Node.{Config, Node, Reply, get_self_index, ballot_get_close}
use hexalog.Node.Commit.{commit}

-- The loop over `resp` and `errCh` of `broadcastPropose`: so many answers, up to the first error.
unfoldable pub collect {ℓ} :
    {A : Type ℓ} → ℕ → List (Result A) → List A → Option (List A × Option Error)
collect zero answers out = some (out, none)
collect (suc l) [] out = none
collect (suc l) (err x ∷ answers) out = some (out, some x)
collect (suc l) (ok r ∷ answers) out = collect l answers (out ++ r ∷ [])

-- That of `broadcastCommit`, where an answer is an error or nil.
unfoldable pub await : ℕ → List (Option Error) → Option (Option Error)
await zero answers = some none
await (suc l) [] = none
await (suc l) (some x ∷ answers) = some (some x)
await (suc l) (none ∷ answers) = await l answers

module _ (conf : Config) where
  -- The hosts that the loop over the peers calls, each with the options of the call.
  unfoldable pub requests : List Participant → RequestOptions → List (Bytes × RequestOptions)
  requests [] o = []
  requests (p ∷ ps) o =
      let rest = requests ps o in
      if equal conf.advertise_host p.host then rest else (p.host, o) ∷ rest

  unfoldable pub broadcast_requests : RequestOptions → List (Bytes × RequestOptions)
  unfolding requests
  broadcast_requests opts = elim (get_self_index conf opts.peer_set) [
    | none ↦ []
    | some idx ↦ requests opts.peer_set (clone_with_source_index opts (int32 idx))
  ]

  unfoldable pub broadcast_propose :
      RequestOptions → List (Result ReqResp) → Option (List ReqResp × Option Error)
  broadcast_propose opts answers = elim (get_self_index conf opts.peer_set) [
    | none ↦ some ([], some not_in_peer_set)
    | some idx ↦ collect (length opts.peer_set - 1) answers []
  ]

  unfoldable pub broadcast_commit : RequestOptions → List (Option Error) → Option (Option Error)
  broadcast_commit opts answers = elim (get_self_index conf opts.peer_set) [
    | none ↦ some (some not_in_peer_set)
    | some idx ↦ await (length opts.peer_set - 1) answers
  ]

  unfoldable pub close_on : Entry → ℕ → Node conf × Reply → Option (Node conf)
  close_on entry now (hlog, reply) = elim reply.error [
    | none ↦ some hlog
    | some x ↦ ballot_get_close conf hlog (hash conf.hasher entry) (some x) now
  ]

  -- One round of the loop of `broadcastProposals`.
  unfoldable pub proposal_round :
      Node conf → Entry → RequestOptions → List (Result ReqResp) → ℕ → Option (Node conf)
  unfolding close_on
  proposal_round hlog entry opts answers now = do
    got ← broadcast_propose opts answers
    elim got.1 [
      | some x ↦ ballot_get_close conf hlog (hash conf.hasher entry) (some x) now
      | none ↦ do committed ← commit conf hlog entry opts now; close_on entry now committed
    ]

  -- One round of the loop of `broadcastCommits`.
  unfoldable pub commit_round :
      Node conf → Entry → RequestOptions → List (Option Error) → ℕ → Option (Node conf)
  commit_round hlog entry opts answers now = do
    failed ← broadcast_commit opts answers
    elim failed [
      | none ↦ some hlog
      | some x ↦ ballot_get_close conf hlog (hash conf.hasher entry) (some x) now
    ]
