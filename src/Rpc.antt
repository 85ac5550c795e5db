-- ===== src/Rpc.antt =====
-- net.go: what a node serves to others, and the calls on others, each over a connection of the pool.
-- What gRPC's client returns is an argument, as is `ParseGRPCError` of package hexatype. A nil entry
-- or nil options of a request are `none`; that a handler reaches into them is a run-time panic, `none`
-- as its result.
pub mod Answers
pub mod Streams
use hexalog.Prelude.{
  ℕ, ◌-◌, ℤ, pos, negsuc, Bool, true, false, Option, none, some, List, [], ◌∷◌, ◌++◌, ltb,
  if◌then◌else◌, ◌>>=◌,
}
use hexalog.Bytes.{Bytes, or_nil}
use hexalog.Error.{Error, Result, ok, err, not_in_peer_set}
use hexalog.Entry.{Entry}
use hexalog.Ballot
use hexalog.Ballot.{Ballot}
use hexalog.Future
use hexalog.Future.{FutureEntry, Waited, data_of, failed}
use hexalog.Heal.{blank}
use hexalog.LogStore
use hexalog.LogStore.{KeySeed}
use hexalog.Node.{Config, Node, Reply, check_options, get_self_index}
use hexalog.Node.Commit.{commit}
use hexalog.Node.Entries.{new_entry, get_entry}
use hexalog.Node.Propose.{propose}
use hexalog.Options.{ReqResp, RequestOptions}
use hexalog.Pool.{OutPool, RpcOutConn, get_conn, return_conn}

-- The fields of `ReqResp` that a handler sets in its answer. Times are nanoseconds.
pub record Response : Type 0 where
  pub entry : Option Entry
  pub ballot_time : Option ℤ
  pub apply_time : Option ℤ

abbrev pub blank_response : Response
blank_response = record { entry = none; ballot_time = some (pos 0); apply_time = some (pos 0) }

-- `completed.Sub(dispatched)`; `none` where one of the times was never set, and what comes out says
-- nothing.
unfoldable pub runtime : Option ℕ → Option ℕ → Option ℤ
runtime (some dispatched) (some completed) =
    if ltb completed dispatched
    then some (negsuc (dispatched - completed - 1))
    else some (pos (completed - dispatched))
runtime _ _ = none

-- A handler that waits goes on once the ballot of this key has ended.
pub data Served : Type 0 where
  replied : Response → Option Error → Served
  awaits : Bytes → Served

module _ (conf : Config) where
  -- `ProposeRPC` once `Propose` has returned.
  after_propose : RequestOptions → Reply → Served
  after_propose opts reply = elim reply.error [
    | some x ↦ replied blank_response (some x)
    | none ↦ if opts.wait_ballot then awaits (or_nil reply.ballot) else replied blank_response none
  ]

  -- The checks of `Propose` and `Commit` that come before the nil entry is hashed.
  without_entry : Node conf → RequestOptions → Option (Node conf × Served)
  without_entry hlog opts = elim (check_options conf opts) [
    | some x ↦ some (hlog, replied blank_response (some x))
    | none ↦ elim (get_self_index conf opts.peer_set) [
      | none ↦ some (hlog, replied blank_response (some not_in_peer_set))
      | some idx ↦ none
    ]
  ]

  unfoldable pub propose_rpc : Node conf → ReqResp → ℕ → Option (Node conf × Served)
  unfolding after_propose without_entry
  propose_rpc hlog req now = do
    opts ← req.options
    elim req.entry [
      | none ↦ without_entry hlog opts
      | some entry ↦ do
        (after, reply) ← propose conf hlog entry opts now
        some (after, after_propose opts reply)
    ]

  -- The wait of `ProposeRPC` for the entry to be applied; `none` while it blocks. `late` says that
  -- the timeout of the request is over.
  await_apply :
      FutureEntry conf.Data
      → Response
      → Bool
      → Option (FutureEntry conf.Data × Response × Option Error)
  await_apply fut resp late = do
    (fut', got) ← Future.wait fut late
    let timed : Response = record resp { apply_time = runtime fut'.dispatched fut'.completed }
    elim got [ data_of value ↦ some (fut', timed, none) | failed x ↦ some (fut', timed, some x) ]

  -- `ProposeRPC` from its wait for the ballot on, with the ballot and its future as they then stand;
  -- `none` while it blocks.
  unfoldable pub await_ballot :
      Ballot conf.Data
      → FutureEntry conf.Data
      → RequestOptions
      → Bool
      → Option (Ballot conf.Data × FutureEntry conf.Data × Response × Option Error)
  unfolding await_apply
  await_ballot ballot fut opts late = do
    (ballot', e) ← Ballot.wait ballot
    let timed : Response = record blank_response {
      ballot_time = runtime ballot'.dispatched ballot'.completed;
    }
    elim e [
      | some x ↦ some (ballot', fut, blank_response, some x)
      | none ↦
          if opts.wait_apply
          then (do (fut', resp, x) ← await_apply fut timed late; some (ballot', fut', resp, x))
          else some (ballot', fut, timed, none)
    ]

  unfoldable pub commit_rpc : Node conf → ReqResp → ℕ → Option (Node conf × Served)
  unfolding without_entry
  commit_rpc hlog req now = do
    opts ← req.options
    elim req.entry [
      | none ↦ without_entry hlog opts
      | some entry ↦ do
        (after, reply) ← commit conf hlog entry opts now
        some (after, replied blank_response reply.error)
    ]

  unfoldable pub get_rpc : Node conf → ReqResp → Option (Response × Option Error)
  get_rpc hlog req = do
    asked ← req.entry
    elim (get_entry conf hlog asked.key (or_nil req.id)) [
      | ok entry ↦ some (record blank_response { entry = some entry }, none)
      | err x ↦ some (blank_response, some x)
    ]

  unfoldable pub last_rpc : Node conf → ReqResp → Option Response
  last_rpc hlog req = do
    asked ← req.entry
    some (record blank_response {
      entry = LogStore.last_entry conf.entry_store conf.hasher hlog.store asked.key;
    })

  unfoldable pub new_rpc : Node conf → ReqResp → ℕ → Option Response
  new_rpc hlog req now = do
    asked ← req.entry
    some (record blank_response { entry = some (new_entry conf hlog asked.key now) })

  send_seed : KeySeed → List KeySeed → List KeySeed × Option Error
  send_seed seed sent = (sent ++ seed ∷ [], none)

  -- The seeds that go out on the stream.
  unfoldable pub seed_keys_rpc : Node conf → List KeySeed × Option Error
  unfolding send_seed
  seed_keys_rpc hlog = LogStore.iter_key_seed conf.entry_store conf.hasher hlog.store send_seed []

-- A call on another node: what the pool is after it, and what came back. `dial` is what dialling the
-- host gives if the pool has no connection to it, and `later` the time when the call returns.
unfoldable pub call_host {ℓ} :
    {A : Type ℓ}
    → OutPool
    → Bytes
    → Result ℕ
    → ℕ
    → ℕ
    → (RpcOutConn → Result A)
    → (Error → Error)
    → OutPool × Result A
call_host pool host dial now later client parse =
    let (pool', r) = get_conn pool host dial now in
    elim r [
      | err x ↦ (pool', err x)
      | ok conn ↦
          (return_conn pool' conn later, elim (client conn) [ ok a ↦ ok a | err x ↦ err (parse x) ])
    ]

-- A call that returns an error alone.
sent : Option Error → Result Bool
sent none = ok true
sent (some x) = err x

abbrev pub request : Option Bytes → Entry → RequestOptions → ReqResp
request id entry opts = record { id = id; entry = some entry; options = some opts }

-- The methods of the transport; `rpc` is the client's call on the connection.
module _ (dial : Result ℕ) (now later : ℕ) (parse : Error → Error) (pool : OutPool)
    (host : Bytes) where
  unfoldable pub remote_new_entry :
      Bytes
      → RequestOptions
      → (RpcOutConn → ReqResp → Result (Option Entry))
      → OutPool × Result (Option Entry)
  remote_new_entry key opts rpc =
      call_host pool host dial now later (λ conn. rpc conn (request none (blank key) opts)) parse

  unfoldable pub remote_propose_entry :
      Entry → RequestOptions → (RpcOutConn → ReqResp → Result Response) → OutPool × Result Response
  remote_propose_entry entry opts rpc =
      call_host pool host dial now later (λ conn. rpc conn (request none entry opts)) parse

  unfoldable pub remote_commit_entry :
      Entry → RequestOptions → (RpcOutConn → ReqResp → Option Error) → OutPool × Option Error
  unfolding sent
  remote_commit_entry entry opts rpc =
      let (pool', r) =
        call_host pool host dial now later (λ conn. sent (rpc conn (request none entry opts)))
          parse in
      (pool', elim r [ ok done ↦ none | err x ↦ some x ])

  unfoldable pub remote_last_entry :
      Bytes
      → RequestOptions
      → (RpcOutConn → ReqResp → Result (Option Entry))
      → OutPool × Result (Option Entry)
  remote_last_entry key opts rpc =
      call_host pool host dial now later (λ conn. rpc conn (request none (blank key) opts)) parse

  unfoldable pub remote_get_entry :
      Bytes
      → Bytes
      → RequestOptions
      → (RpcOutConn → ReqResp → Result (Option Entry))
      → OutPool × Result (Option Entry)
  remote_get_entry key id opts rpc =
      call_host pool host dial now later (λ conn. rpc conn (request (some id) (blank key) opts))
        parse

  -- `GetSeedKeys`: the connection stays with the stream until `Recycle` returns it.
  unfoldable pub remote_seed_keys {ℓ} :
      {A : Type ℓ} → (RpcOutConn → Result A) → OutPool × Result (RpcOutConn × A)
  remote_seed_keys rpc =
      let (pool', r) = get_conn pool host dial now in
      elim r [
        | err x ↦ (pool', err x)
        | ok conn ↦ elim (rpc conn) [
          | ok stream ↦ (pool', ok (conn, stream))
          | err x ↦ (return_conn pool' conn later, err (parse x))
        ]
      ]
