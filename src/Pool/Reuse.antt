-- ===== src/Pool/Reuse.antt =====
-- Which connections the pool hands out (pool.go).
use hexalog.Prelude.{
  ℕ, ◌≡◌, refl, ◌∙◌, false, Option, none, some, List, [], ◌∷◌, if◌then◌else◌, Option-cases,
  Bool-cases, inl, inr, arith,
}
use hexalog.Bytes.{Bytes, equal_iff, equal_refl}
use hexalog.Error.{Result, ok, err, transport_shutdown}
use hexalog.Map
use hexalog.Map.{Map, among, get-keys, get-remove, get-put}
use hexalog.Pool.{
  OutPool, RpcOutConn, get_conn, return_conn, close_conn, is_idle, reap_hosts, reap_once, shutdown,
}

-- The connection of a host if it is not idle.
abbrev pub kept : OutPool → ℕ → Option RpcOutConn → Option RpcOutConn
kept p now none = none
kept p now (some o) = if is_idle p o now then none else some o

get-reap_hosts :
    (p : OutPool) (now : ℕ) (hosts : List Bytes) (j : Bytes)
    → Map.get (reap_hosts p now hosts).pool j
      ≡ (if among j hosts then kept p now (Map.get p.pool j) else Map.get p.pool j)
unfolding reap_hosts among
get-reap_hosts p now [] j = refl
get-reap_hosts p now (k ∷ hosts) j = elim (Option-cases (Map.get (reap_hosts p now hosts).pool k)) [
  | inl e ↦ ground (arith, get-reap_hosts p now hosts j, equal_iff k j)
  | inr (o, e) ↦ ground (
    arith,
    get-reap_hosts p now hosts j,
    get-remove (reap_hosts p now hosts).pool k j,
    equal_iff k j,
  )
]

-- The reaper takes the idle connections out of the pool and leaves the others as they are.
pub get-reap_once :
    (p : OutPool) (now : ℕ) (host : Bytes)
    → Map.get (reap_once p now).pool host ≡ kept p now (Map.get p.pool host)
unfolding reap_once
get-reap_once p now host = elim (Bool-cases (among host (Map.keys p.pool))) [
  | inl h ↦ get-reap_hosts p now (Map.keys p.pool) host ∙ rw h refl
  | inr h ↦ get-reap_hosts p now (Map.keys p.pool) host ∙ ground (arith, get-keys p.pool host h)
]

-- A connection that is returned to a pool that has not been shut down is the one that the next call
-- for its host gets, whether or not it was closed meanwhile; after a shutdown it is closed, and every
-- call for a connection fails.
pub get_conn-return_conn :
    (p : OutPool) (o : RpcOutConn) (dial : Result ℕ) (now later : ℕ) (host : Bytes)
    → p.stopped ≡ false
    → ((get_conn (return_conn p o now) o.host dial later).1 ≡ ok (record o { used = now }))
      × ((return_conn p o now).closed ≡ p.closed)
      × ((return_conn (shutdown p) o now).closed ≡ o.conn ∷ p.closed)
      × ((get_conn (return_conn (shutdown p) o now) host dial later).1 ≡ err transport_shutdown)
unfolding get_conn return_conn close_conn shutdown
get_conn-return_conn p o dial now later host h = (
  ground (arith, get-put p.pool o.host o.host (record o { used = now }), equal_refl o.host),
  ground arith,
  refl,
  refl,
)
