-- ===== src/Rpc/Streams.antt =====
-- `PullKeylog` and `PushKeylog` of net.go as whole calls: the connection, the stream, and every point
-- at which they fail. What gRPC returns at each point is an argument.
use hexalog.Prelude.{ℕ, ◌≡◌, refl, ap, ◌∙◌, Option, none, some, List, [], ◌∷◌, ◌++◌}
use hexalog.Bytes.{Bytes}
use hexalog.Error.{Error, Result, ok, err}
use hexalog.Entry.{Entry, hash}
use hexalog.Future.{FutureEntry}
use hexalog.Keylog.{Keylog}
use hexalog.Keylog
use hexalog.LogStore
use hexalog.Node.{Config, Node}
use hexalog.Pool.{OutPool, RpcOutConn, get_conn}
use hexalog.Transfer.{Message, pull_request, pull_keylog}

-- `stream.Send` of a message; `wire` is what it returns, given what was sent before and the message.
unfoldable pub send_on :
    (List Message → Message → Option Error)
    → Bytes
    → Entry
    → List Message
    → List Message × Option Error
send_on wire id entry sent =
    let msg : Message = record { id = id; entry = entry } in
    elim (wire sent msg) [ some x ↦ (sent, some x) | none ↦ (sent ++ msg ∷ [], none) ]

module _ (conf : Config) (pool : OutPool) (host : Bytes) (dial : Result ℕ) (now : ℕ)
    (opened : RpcOutConn → Option Error) where
  -- `asked` is what sending the request returns, `remote` what comes back on it, and `parse` is
  -- `ParseGRPCError`, which takes nil as well. The connection is not returned to the pool.
  unfoldable pub remote_pull_keylog :
      Node conf
      → Entry
      → Option Error
      → (Option Bytes → Entry → List Message × Option Error)
      → (Option Error → Option Error)
      → OutPool × Node conf × Option (FutureEntry conf.Data) × Option Error
  remote_pull_keylog hlog entry asked remote parse =
      let (pool', r) = get_conn pool host dial now in
      elim r [
        | err x ↦ (pool', hlog, none, some x)
        | ok conn ↦ elim (opened conn) [
          | some x ↦ (pool', hlog, none, some x)
          | none ↦ elim asked [
            | some x ↦ (pool', hlog, none, parse (some x))
            | none ↦
                let (msgs, ending) = remote (pull_request conf entry) entry in
                let (hlog', fentry, e) = pull_keylog conf hlog msgs ending now in
                (pool', hlog', fentry, parse e)
          ]
        ]
      ]

  -- What `PushKeylog` sends once the other side has answered with its last entry.
  send_from :
      Node conf
      → Keylog conf.entry_store
      → Option Entry
      → (List Message → Message → Option Error)
      → Option Error
      → List Message × Option Error
  unfolding send_on
  send_from hlog keylog theirs wire closing =
      let seek : Option Bytes = elim theirs [ none ↦ none | some e ↦ some (hash conf.hasher e) ] in
      let (sent, e) =
        Keylog.iter conf.entry_store conf.hasher keylog.idx (λ s. hlog.store.entries) seek
          (send_on wire) [] in
      (sent, elim e [ some x ↦ some x | none ↦ closing ])

  -- `greeted` is what sending the local last entry returns, `answer` what comes back on it, `wire`
  -- what each later send returns, and `closing` what `CloseSend` returns.
  unfoldable pub remote_push_keylog :
      Node conf
      → Bytes
      → Option Error
      → Result (Option Entry)
      → (List Message → Message → Option Error)
      → Option Error
      → (Option Error → Option Error)
      → OutPool × List Message × Option Error
  unfolding send_from
  remote_push_keylog hlog key greeted answer wire closing parse =
      elim (LogStore.get_key conf.entry_store conf.hasher hlog.store key) [
        | err x ↦ (pool, [], some x)
        | ok keylog ↦ elim (Keylog.last_entry conf.entry_store conf.hasher keylog) [
          | none ↦ (pool, [], none)
          | some last ↦
              let (pool', r) = get_conn pool host dial now in
              elim r [
                | err x ↦ (pool', [], some x)
                | ok conn ↦ elim (opened conn) [
                  | some x ↦ (pool', [], some x)
                  | none ↦ elim greeted [
                    | some x ↦ (pool', [], some x)
                    | none ↦ elim answer [
                      | err x ↦ (pool', [], parse (some x))
                      | ok theirs ↦
                          let (sent, e) = send_from hlog keylog theirs wire closing in
                          (pool', sent, e)
                    ]
                  ]
                ]
              ]
        ]
      ]

  -- Where gRPC does not fail, a pull leaves the node that the messages of the stream make.
  remote_pull_keylog-pull_keylog :
      (hlog : Node conf) (entry : Entry)
      (remote : Option Bytes → Entry → List Message × Option Error)
      (parse : Option Error → Option Error) (pool' : OutPool) (conn : RpcOutConn)
      → get_conn pool host dial now ≡ (pool', ok conn)
      → opened conn ≡ none
      → let (msgs, ending) = remote (pull_request conf entry) entry in
        (remote_pull_keylog hlog entry none remote parse).1
        ≡ (pull_keylog conf hlog msgs ending now).0
  unfolding remote_pull_keylog
  remote_pull_keylog-pull_keylog hlog entry remote parse pool' conn e o =
      ap (λ (t : OutPool × Result RpcOutConn). (pulled t).1) e ∙ rw o refl
    where
      pulled :
          OutPool × Result RpcOutConn
          → OutPool × Node conf × Option (FutureEntry conf.Data) × Option Error
      pulled t = elim t.1 [
        | err x ↦ (t.0, hlog, none, some x)
        | ok conn ↦ elim (opened conn) [
          | some x ↦ (t.0, hlog, none, some x)
          | none ↦
              let (msgs, ending) = remote (pull_request conf entry) entry in
              let (hlog', fentry, e) = pull_keylog conf hlog msgs ending now in
              (t.0, hlog', fentry, parse e)
        ]
      ]
