-- ===== src/Rpc/Answers.antt =====
-- What the handlers of net.go answer.
use hexalog.Prelude.{ℕ, ◌≡◌, refl, sym, ap, ◌∙◌, Option, none, some, List, [], ◌∷◌, ◌++◌, map, All}
use mathlib.Core.List.{Perm, append_assoc, append-nil}
use hexalog.Bytes.{Bytes}
use hexalog.Error.{Error, Result, ok, err, foreign}
use hexalog.Index.{UnsafeKeylogIndex, last}
use hexalog.IndexStore
use hexalog.IndexStore.{InMemIndexStore, sorted_keys}
use hexalog.IndexStore.Sorting.{IsSorted, sorted_keys-IsSorted, All-sorted_keys}
use hexalog.LogStore
use hexalog.LogStore.{KeySeed, seed_of}
use hexalog.Map
use hexalog.Node.{Config, Node}
use hexalog.Heal.{blank}
use hexalog.Entry.{Entry}
use hexalog.Options.{ReqResp, RequestOptions}
use hexalog.Pool.{OutPool, RpcOutConn, return_conn}
use hexalog.Rpc.{seed_keys_rpc, send_seed, last_rpc, request}

-- The last id of a key that is being filled is its marker.
abbrev pub target : UnsafeKeylogIndex → Option Bytes
target idx = elim idx.marker [ some m ↦ some m | none ↦ last idx ]

module _ (conf : Config) where
  -- A seed tells where the log of its key ends.
  pub record IsSeed (hlog : Node conf) (seed : KeySeed) : Type 0 where
    pub index : UnsafeKeylogIndex
    pub found : IndexStore.get_key hlog.store.index seed.key ≡ ok index
    pub marked : seed.marker ≡ target index
    pub high : seed.height ≡ index.height
    pub timed : seed.ltime ≡ index.ltime

  abbrev sending :
      Node conf → Bytes → UnsafeKeylogIndex → List KeySeed → List KeySeed × Option Error
  sending hlog key kli t = send_seed conf (seed_of conf.entry_store conf.hasher key kli) t

  seeds_sent :
      (hlog : Node conf) (ks : List Bytes) (sent : List KeySeed)
      → All (λ (k : Bytes). (v : UnsafeKeylogIndex) × (Map.get hlog.store.index.m k ≡ some v)) ks
      → (seeds : List KeySeed) × (IndexStore.each_key hlog.store.index (sending hlog) ks sent
          ≡ (sent ++ seeds, none))
        × (map (λ (s : KeySeed). s.key) seeds ≡ ks)
        × All (IsSeed hlog) seeds
  unfolding IndexStore.each_key IndexStore.get_key send_seed seed_of
  seeds_sent hlog [] sent hs =
      ([], ap (λ (l : List KeySeed). (l, none)) (sym (append-nil sent)), refl, tt)
  seeds_sent hlog (k ∷ ks) sent ((idx, held), hs) =
      let seed = seed_of conf.entry_store conf.hasher k idx in
      let (seeds, ran, keys, good) = seeds_sent hlog ks (sent ++ seed ∷ []) hs in
      (
        seed ∷ seeds,
        rw (held, IndexStore.each_key)
            (ran ∙ ap (λ (l : List KeySeed). (l, none)) (append_assoc sent (seed ∷ []) seeds)),
        ap (◌∷◌ k) keys,
        (
          record {
            index = idx;
            found = rw (held, IndexStore.get_key) refl;
            marked = refl;
            high = refl;
            timed = refl;
          },
          good,
        ),
      )

  -- The seeds that are sent, key by key.
  pub seed_keys_rpc-sorted_keys :
      (hlog : Node conf)
      → (seeds : List KeySeed) × (seed_keys_rpc conf hlog ≡ (seeds, none))
        × (map (λ (s : KeySeed). s.key) seeds ≡ sorted_keys hlog.store.index)
        × All (IsSeed hlog) seeds
  unfolding seed_keys_rpc LogStore.iter_key_seed IndexStore.iter
  seed_keys_rpc-sorted_keys hlog =
      let store = hlog.store.index in
      seeds_sent hlog (sorted_keys store) [] (
        All-sorted_keys (λ k. (v : UnsafeKeylogIndex) × (Map.get store.m k ≡ some v)) store
          (Map.get-held store.m))

  -- `SeedKeysRPC` streams one seed for each key, in the order of the keys, and ends without an error:
  -- a seed names the height of the key's log, and its last id, or, while entries are missing, the id
  -- that the log has to reach.
  pub seed_keys_rpc-IsSeed :
      (hlog : Node conf)
      → (seeds : List KeySeed) × (seed_keys_rpc conf hlog ≡ (seeds, none))
        × All (IsSeed hlog) seeds
        × IsSorted (map (λ (s : KeySeed). s.key) seeds)
        × Perm (map (λ (s : KeySeed). s.key) seeds) (Map.keys hlog.store.index.m)
  seed_keys_rpc-IsSeed hlog =
      let (seeds, ran, keys, good) = seed_keys_rpc-sorted_keys hlog in
      let (ordered, same) = sorted_keys-IsSorted hlog.store.index in
      (seeds, ran, good, rw keys ordered, rw keys same)

-- A connection stands in the pool under its host.
abbrev pub IsKeyed : OutPool → Type 0
IsKeyed pool = (host : Bytes) (o : RpcOutConn) → Map.get pool.pool host ≡ some o → o.host ≡ host

module _ (conf : Config) where
  -- The other end of a call of `LastRPC`.
  abbrev pub served_last : Node conf → RpcOutConn → ReqResp → Result (Option Entry)
  served_last remote conn req = elim (last_rpc conf remote req) [
    | none ↦ err (foreign 0)
    | some resp ↦ ok resp.entry
  ]

  -- A call of `LastRPC`, given what the pool answers.
  abbrev finished :
      Node conf
      → Bytes
      → RequestOptions
      → ℕ
      → (Error → Error)
      → OutPool × Result RpcOutConn
      → OutPool × Result (Option Entry)
  finished remote key opts later parse t = elim t.1 [
    | err x ↦ (t.0, err x)
    | ok conn ↦ (
      return_conn t.0 conn later,
      elim (served_last remote conn (request none (blank key) opts)) [
        | ok a ↦ ok a
        | err x ↦ err (parse x)
      ],
    )
  ]

  -- The connection that a call to the host uses: the one in the pool, or the one that dialling gives.
  abbrev pub conn_to : OutPool → Bytes → ℕ → ℕ
  conn_to pool host conn = elim (Map.get pool.pool host) [ none ↦ conn | some o ↦ o.conn ]
