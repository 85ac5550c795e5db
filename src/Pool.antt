-- ===== src/Pool.antt =====
-- pool.go: the pool of outgoing connections, one for each host. A connection is known by a handle,
-- and `closed` lists the handles on which `Close` was called. What `grpc.Dial` returns is an argument.
pub mod Reuse
use hexalog.Prelude.{
  ℕ, ◌-◌, Bool, true, false, Option, none, some, List, [], ◌∷◌, ltb, if◌then◌else◌,
}
use hexalog.Bytes.{Bytes}
use hexalog.Error.{Error, Result, ok, err, transport_shutdown}
use hexalog.Map
use hexalog.Map.{Map}

pub record RpcOutConn : Type 0 where
  pub host : Bytes
  pub conn : ℕ
  pub used : ℕ

pub record OutPool : Type 0 where
  pub pool : Map RpcOutConn
  pub max_conn_idle : ℕ
  pub stopped : Bool
  pub closed : List ℕ

unfoldable pub new_out_pool : ℕ → OutPool
new_out_pool max_idle = record {
  pool = Map.empty;
  max_conn_idle = max_idle;
  stopped = false;
  closed = [];
}

unfoldable pub close_conn : OutPool → ℕ → OutPool
close_conn p conn = record p { closed = conn ∷ p.closed }

unfoldable pub return_conn : OutPool → RpcOutConn → ℕ → OutPool
unfolding close_conn
return_conn p o now =
    if p.stopped
    then close_conn p o.conn
    else record p { pool = Map.put p.pool o.host (record o { used = now }) }

-- The connection that a dial gives is put into the pool.
unfoldable pub dialled : OutPool → Bytes → Result ℕ → ℕ → OutPool × Result RpcOutConn
dialled p host (err x) now = (p, err x)
dialled p host (ok conn) now =
    let out : RpcOutConn = record { host = host; conn = conn; used = now } in
    (record p { pool = Map.put p.pool host out }, ok out)

unfoldable pub get_conn : OutPool → Bytes → Result ℕ → ℕ → OutPool × Result RpcOutConn
unfolding dialled
get_conn p host dial now =
    if p.stopped
    then (p, err transport_shutdown)
    else elim (Map.get p.pool host) [ some out ↦ (p, ok out) | none ↦ dialled p host dial now ]

-- The time since a connection was used last is more than the limit.
abbrev pub is_idle : OutPool → RpcOutConn → ℕ → Bool
is_idle p o now = ltb p.max_conn_idle (now - o.used)

-- The loop of `reapOnce`, over the hosts of the map.
reap_hosts : OutPool → ℕ → List Bytes → OutPool
unfolding close_conn
reap_hosts p now [] = p
reap_hosts p now (host ∷ hosts) =
    let rest = reap_hosts p now hosts in
    elim (Map.get rest.pool host) [
      | none ↦ rest
      | some o ↦
          if is_idle p o now
          then record (close_conn rest o.conn) { pool = Map.remove rest.pool host }
          else rest
    ]

unfoldable pub reap_once : OutPool → ℕ → OutPool
unfolding reap_hosts
reap_once p now = reap_hosts p now (Map.keys p.pool)

unfoldable pub shutdown : OutPool → OutPool
shutdown p = record p { stopped = true }
