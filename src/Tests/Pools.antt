-- ===== src/Tests/Pools.antt =====
-- A pool with one connection, and a node with an open and a closed ballot.
use hexalog.Prelude.{ℕ, ◌≡◌, refl, false, [], ◌∷◌}
use hexalog.Error.{ok, err, transport_shutdown}
use hexalog.Map
use hexalog.Map.{Map}
use hexalog.Ballot.{Ballot}
use hexalog.Node.{Node, get_ballot, reap_ballots_once}
use hexalog.Node.Reaping.{open_only, get_ballot-reap_ballots_once}
use hexalog.Pool.{OutPool, RpcOutConn, get_conn, return_conn, reap_once, shutdown}
use hexalog.Pool.Reuse.{kept, get-reap_once, get_conn-return_conn}
use hexalog.Tests.Data.{conf, host_a, host_b}
use hexalog.Tests.Logs.{no_logs}
use hexalog.Tests.Votes.{fresh, shut_ballot}

abbrev conn_b : RpcOutConn
conn_b = record { host = host_b; conn = 3; used = 100 }

abbrev pool_b : OutPool
pool_b = record {
  pool = Map.put Map.empty host_b conn_b;
  max_conn_idle = 50;
  stopped = false;
  closed = [];
}

get-reap_once_example :
    Map.get (reap_once pool_b 200).pool host_b ≡ kept pool_b 200 (Map.get pool_b.pool host_b)
get-reap_once_example = get-reap_once pool_b 200 host_b

get_conn-return_conn_example :
    ((get_conn (return_conn pool_b conn_b 120) host_b (ok 9) 130).1
      ≡ ok (record conn_b { used = 120 }))
    × ((return_conn pool_b conn_b 120).closed ≡ [])
    × ((return_conn (shutdown pool_b) conn_b 120).closed ≡ 3 ∷ [])
    × ((get_conn (return_conn (shutdown pool_b) conn_b 120) host_a (ok 9) 130).1
        ≡ err transport_shutdown)
get_conn-return_conn_example = get_conn-return_conn pool_b conn_b (ok 9) 120 130 host_a refl

abbrev two_ballots : Map (Ballot ℕ)
two_ballots = Map.put (Map.put Map.empty (1 ∷ []) fresh) (2 ∷ []) shut_ballot

abbrev with_ballots : Node conf
with_ballots = record {
  store = no_logs;
  ballots = two_ballots;
  pch = [];
  cch = [];
  hch = [];
  apply_ch = [];
  clock = 0;
}

get_ballot-reap_ballots_once_example :
    get_ballot conf (reap_ballots_once conf with_ballots).0 (2 ∷ [])
    ≡ open_only conf (get_ballot conf with_ballots (2 ∷ []))
get_ballot-reap_ballots_once_example = get_ballot-reap_ballots_once conf with_ballots (2 ∷ [])
