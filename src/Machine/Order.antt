-- ===== src/Machine/Order.antt =====
-- The order in which entries are applied (`start` of fsm.go).
use hexalog.Prelude.{
  ℕ, ◌≤◌, ◌<◌, ◌≡◌, refl, ap, ◌∙◌, Option, none, some, List, [], ◌∷◌, map, All, if◌then◌else◌,
  arith,
}
use hexalog.Bytes.{Bytes, equal}
use hexalog.Error.{Error, Result, ok, merge_errors}
use hexalog.Future.{FutureEntry, applied}
use hexalog.Node.{Config}
use hexalog.Machine.{StableStore, App, Machine, data_of, error_of, start}

module _ {Data : Type 0} where
  -- Nobody has been told the end of the future.
  pub record IsFresh (f : FutureEntry Data) : Type 0 where
    pub no_error : f.err ≡ none
    pub not_done : f.done ≡ none

  applied_fresh :
      (f : FutureEntry Data) (d : Data) (e : Option Error) (now : ℕ)
      → IsFresh f
      → (g : FutureEntry Data) × (applied f d e now ≡ some g) × (g.id ≡ f.id)
  unfolding applied
  applied_fresh f d none now h =
      (record f { completed = some now; done = some d }, rw (h.not_done) refl, refl)
  applied_fresh f d (some e) now h =
      (record f { completed = some now; err = some e }, rw (h.no_error) refl, refl)

  -- The id that a key has applied last, after the entries of a queue.
  abbrev pub latest : Bytes → Result Bytes → List (FutureEntry Data) → Result Bytes
  latest key old [] = old
  latest key old (f ∷ queue) = latest key (if equal f.entry.key key then ok f.id else old) queue

  abbrev pub ids_of : List (FutureEntry Data) → List Bytes
  ids_of = map (λ (f : FutureEntry Data). f.id)

module _ (conf : Config) (app : App conf) (S : StableStore) where
  -- The application has applied the queue in order, each entry once.
  abbrev pub through : app.State → List (FutureEntry conf.Data) → app.State
  through state [] = state
  through state (f ∷ queue) = through (app.apply state f.id f.entry).0 queue

  -- What the loop makes of a queue.
  pub record Applied (m : Machine conf app S) (queue : List (FutureEntry conf.Data)) (now : ℕ)
      : Type 0 where
    pub after : Machine conf app S
    pub told : List (FutureEntry conf.Data)
    pub ends : start conf app S m queue now ≡ some (after, told)
    pub applied_all : after.state ≡ through m.state queue
    pub recorded : (key : Bytes) → S.get after.ss key ≡ latest key (S.get m.ss key) queue
    pub grows : conf.lamport_clock.time m.clock ≤ conf.lamport_clock.time after.clock
    pub passed :
        All
          (λ (f : FutureEntry conf.Data). f.entry.ltime < conf.lamport_clock.time after.clock)
          queue
    pub same_ids : ids_of told ≡ ids_of queue

  -- The loop takes any queue of futures of which nobody was told the end, if the stable store takes
  -- every write: it does not block, applies the entries in order and each once, leaves in the stable
  -- store for every key the id of the last entry of the key, and the clock past every entry's ltime.
  pub start-Applied :
      (queue : List (FutureEntry conf.Data)) (m : Machine conf app S) (now : ℕ)
      → ((s : S.Store) (key val : Bytes) → (S.set s key val).1 ≡ none)
      → All (λ (f : FutureEntry conf.Data). IsFresh f) queue
      → Applied m queue now
  unfolding start
  start-Applied [] m now takes fresh = record {
    after = m;
    told = [];
    ends = refl;
    applied_all = refl;
    recorded = λ key. refl;
    grows = omega arith;
    passed = tt;
    same_ids = refl;
  }
  start-Applied (f ∷ queue) m now takes fresh =
      let resp = (app.apply m.state f.id f.entry).1 in
      let one =
        applied_fresh f (data_of conf app S resp)
          (merge_errors (error_of conf app S resp) (S.set m.ss f.entry.key f.id).1) now fresh.0 in
      let next : Machine conf app S = record {
        state = (app.apply m.state f.id f.entry).0;
        ss = (S.set m.ss f.entry.key f.id).0;
        clock = conf.lamport_clock.witness m.clock f.entry.ltime;
      } in
      let rest = start-Applied queue next now takes fresh.1 in
      record {
        after = rest.after;
        told = one.0 ∷ rest.told;
        ends = rw (one.1) (rw (rest.ends) refl);
        applied_all = rest.applied_all;
        recorded = λ key.
            rest.recorded key
            ∙ ap (λ (r : Result Bytes). latest key r queue)
                (S.get-set m.ss f.entry.key key f.id (takes m.ss f.entry.key f.id));
        grows = omega (arith, rest.grows, conf.lamport_clock.witness_grows m.clock f.entry.ltime);
        passed = (
          omega (arith, rest.grows, conf.lamport_clock.witness_passes m.clock f.entry.ltime),
          rest.passed,
        );
        same_ids = cong2 one.2 rest.same_ids;
      }
    where
      cong2 : {x y : Bytes} {xs ys : List Bytes} → x ≡ y → xs ≡ ys → x ∷ xs ≡ y ∷ ys
      cong2 p q = cc
