-- ===== src/Machine/Owing.antt =====
-- What the machine has not applied of the logs, and that the check queues it (`check` of fsm.go).
use hexalog.Prelude.{
  ℕ, ◌+◌, ◌≡◌, refl, sym, ap, ◌∙◌, ◌⊎◌, inl, inr, true, false, none, some, List, [], ◌∷◌, ◌++◌,
  Bool-cases, arith, All,
}
use mathlib.Core.List.{append_assoc, append-nil}
use hexalog.Bytes.{Bytes, or_nil, equal, equal_iff}
use hexalog.Error.{Result, ok, err}
use hexalog.Future.{FutureEntry, new_future_entry, dispatch}
use hexalog.Index.{UnsafeKeylogIndex, last, contains_id, seek_from, each}
use hexalog.Index
use hexalog.Index.Iteration.{seek_from-append, seek_from-none}
use hexalog.IndexStore
use hexalog.IndexStore.{InMemIndexStore, sorted_keys}
use hexalog.IndexStore.Sorting.{All-sorted_keys}
use hexalog.LogStore.Soundness.{Result-cases}
use hexalog.Map
use hexalog.Node.{Config, Node}
use hexalog.Transfer.{apply}
use hexalog.Machine.{StableStore, App, Checked, replay, check_key, check, seek_of, is_caught_up}

-- Where an id stands first in a list, or that it does not.
first_place :
    (ids : List Bytes) (seek : Bytes)
    → ((before : List Bytes) × (after : List Bytes) × (ids ≡ before ++ seek ∷ after)
        × (contains_id before seek ≡ false))
      ⊎ (contains_id ids seek ≡ false)
unfolding contains_id
first_place [] seek = inr refl
first_place (x ∷ ids) seek = elim (Bool-cases (equal x seek)) [
  | inl e ↦ inl ([], ids, ap (λ (y : Bytes). y ∷ ids) ((equal_iff x seek).0 e), refl)
  | inr n ↦ elim (first_place ids seek) [
    | inl (before, after, e, h) ↦
        inl (
          x ∷ before,
          after,
          ap (◌∷◌ x) e,
          ground (arith, h, n, equal_iff x seek, equal_iff seek x),
        )
    | inr h ↦ inr (ground (arith, h, n, equal_iff x seek, equal_iff seek x))
  ]
]

-- The ids of a log that the machine still has to be given, by the id that it applied last: none if
-- that is the last of the log; from its first place on if it is in the log; none if it is not; and
-- all if nothing was applied.
abbrev pub Owes : Result Bytes → UnsafeKeylogIndex → List Bytes → Type 0
Owes (err x) ki ids = ids ≡ ki.entries
Owes (ok seek) ki ids =
    ((equal seek (or_nil (last ki)) ≡ true) × (ids ≡ []))
    ⊎ ((equal seek (or_nil (last ki)) ≡ false)
        × (((before : List Bytes) × (after : List Bytes) × (ki.entries ≡ before ++ seek ∷ after)
              × (contains_id before seek ≡ false)
              × (ids ≡ seek ∷ after))
            ⊎ ((contains_id ki.entries seek ≡ false) × (ids ≡ []))))

module _ (conf : Config) (app : App conf) (S : StableStore) where
  -- The ids of several logs, key by key.
  abbrev pub OwesAll : InMemIndexStore → S.Store → List Bytes → List Bytes → Type 0
  OwesAll index ss [] ids = ids ≡ []
  OwesAll index ss (k ∷ ks) ids =
      (ki : UnsafeKeylogIndex) × (first : List Bytes) × (rest : List Bytes) × (Map.get index.m k
        ≡ some ki)
      × Owes (S.get ss k) ki first
      × OwesAll index ss ks rest
      × (ids ≡ first ++ rest)

  -- The future of an entry that the store has.
  abbrev pub future_of : conf.entry_store.Store → ℕ → Bytes → List (FutureEntry conf.Data)
  future_of s now id = elim (conf.entry_store.get s id) [
    | err x ↦ []
    | ok e ↦ dispatch (new_future_entry id e) now ∷ []
  ]

  abbrev pub futures_of : conf.entry_store.Store → ℕ → List Bytes → List (FutureEntry conf.Data)
  futures_of s now [] = []
  futures_of s now (id ∷ ids) = future_of s now id ++ futures_of s now ids

  abbrev pub with_queued : Node conf → List (FutureEntry conf.Data) → Node conf
  with_queued n fs = record n { apply_ch = n.apply_ch ++ fs }

  with_queued-nil : (n : Node conf) → n ≡ with_queued n []
  with_queued-nil n =
      ap (λ (q : List (FutureEntry conf.Data)). record n { apply_ch = q })
        (sym (append-nil n.apply_ch))

  with_queued-append :
      (n : Node conf) (fs gs : List (FutureEntry conf.Data))
      → with_queued (with_queued n fs) gs ≡ with_queued n (fs ++ gs)
  with_queued-append n fs gs =
      ap (λ (q : List (FutureEntry conf.Data)). record n { apply_ch = q })
        (append_assoc n.apply_ch fs gs)

  futures_of-append :
      (s : conf.entry_store.Store) (now : ℕ) (a b : List Bytes)
      → futures_of s now (a ++ b) ≡ futures_of s now a ++ futures_of s now b
  futures_of-append s now [] b = refl
  futures_of-append s now (id ∷ a) b =
      ap (λ (t : List (FutureEntry conf.Data)). future_of s now id ++ t)
        (futures_of-append s now a b)
      ∙ sym (append_assoc (future_of s now id) (futures_of s now a) (futures_of s now b))

  -- The check's callback on an id.
  replay_queues :
      (now : ℕ) (id : Bytes) (s : Checked conf app S)
      → ((replay conf app S now id s).0.node
          ≡ with_queued s.node (future_of s.node.store.entries now id))
        × ((replay conf app S now id s).1 ≡ none)
  unfolding replay apply
  replay_queues now id s = elim (Result-cases (conf.entry_store.get s.node.store.entries id)) [
    | inl (x, e) ↦ (rw (e, replay, future_of) (with_queued-nil s.node), rw (e, replay) refl)
    | inr (f, e) ↦ (rw (e, replay, future_of) refl, rw (e, replay) refl)
  ]

  each_queues :
      (now : ℕ) (ids : List Bytes) (s : Checked conf app S)
      → (each (replay conf app S now) ids s).0.node
        ≡ with_queued s.node (futures_of s.node.store.entries now ids)
  unfolding each
  each_queues now [] s = with_queued-nil s.node
  each_queues now (id ∷ ids) s =
      let (one, fine) = replay_queues now id s in
      let fs = future_of s.node.store.entries now id in
      rw (fine, each)
        (each_queues now ids (replay conf app S now id s).0
          ∙ ap (λ (n : Node conf). with_queued n (futures_of n.store.entries now ids)) one
          ∙ with_queued-append s.node fs (futures_of s.node.store.entries now ids))

  -- What the walk over a log queues, by the id that was applied last.
  walk_queues :
      (now : ℕ) (ki : UnsafeKeylogIndex) (r : Result Bytes) (s : Checked conf app S)
      → is_caught_up conf app S r (last ki) ≡ false
      → (ids : List Bytes) × Owes r ki ids
        × ((Index.iter ki (seek_of conf app S r) (replay conf app S now) s).0.node
            ≡ with_queued s.node (futures_of s.node.store.entries now ids))
  unfolding Index.iter seek_of is_caught_up
  walk_queues now ki (err x) s n = (ki.entries, refl, each_queues now ki.entries s)
  walk_queues now ki (ok seek) s n = elim (first_place ki.entries seek) [
    | inl (before, after, e, out) ↦ (
      seek ∷ after,
      inr (n, inl (before, after, e, out, refl)),
      rw (ap (seek_from seek) e ∙ seek_from-append before after seek out, Index.iter)
          (each_queues now (seek ∷ after) s),
    )
    | inr out ↦ (
      [],
      inr (n, inr (out, refl)),
      rw (seek_from-none ki.entries seek out, Index.iter) (with_queued-nil s.node),
    )
  ]

  caught_up-Owes :
      (r : Result Bytes) (ki : UnsafeKeylogIndex)
      → is_caught_up conf app S r (last ki) ≡ true
      → Owes r ki []
  unfolding is_caught_up
  caught_up-Owes (ok seek) ki h = inl (h, refl)
  caught_up-Owes (err x) ki h = absurd cc

  check_key_queues :
      (ss : S.Store) (now : ℕ) (key : Bytes) (ki : UnsafeKeylogIndex) (s : Checked conf app S)
      → (ids : List Bytes) × Owes (S.get ss key) ki ids
        × ((check_key conf app S ss now key ki s).0.node
            ≡ with_queued s.node (futures_of s.node.store.entries now ids))
        × ((check_key conf app S ss now key ki s).1 ≡ none)
  unfolding check_key
  check_key_queues ss now key ki s =
      elim (Bool-cases (is_caught_up conf app S (S.get ss key) (last ki))) [
        | inl e ↦ (
          [],
          caught_up-Owes (S.get ss key) ki e,
          rw (e, check_key) (with_queued-nil s.node),
          rw (e, check_key) refl,
        )
        | inr e ↦
            let (ids, owed, walked) =
              walk_queues now ki (S.get ss key) (record s { total = s.total + 1 }) e in
            (ids, owed, rw (e, check_key) walked, rw (e, check_key) refl)
      ]

  keys_queue :
      (index : InMemIndexStore) (ss : S.Store) (now : ℕ) (ks : List Bytes) (s : Checked conf app S)
      → All (λ (k : Bytes). (v : UnsafeKeylogIndex) × (Map.get index.m k ≡ some v)) ks
      → (ids : List Bytes) × OwesAll index ss ks ids
        × ((IndexStore.each_key index (check_key conf app S ss now) ks s).0.node
            ≡ with_queued s.node (futures_of s.node.store.entries now ids))
        × ((IndexStore.each_key index (check_key conf app S ss now) ks s).1 ≡ none)
  unfolding IndexStore.each_key
  keys_queue index ss now [] s hs = ([], refl, with_queued-nil s.node, refl)
  keys_queue index ss now (k ∷ ks) s ((ki, held), hs) =
      let (first, owed, queued, fine) = check_key_queues ss now k ki s in
      let mid = (check_key conf app S ss now k ki s).0 in
      let (rest, owed', queued', fine') = keys_queue index ss now ks mid hs in
      let entries = s.node.store.entries in
      (
        first ++ rest,
        (ki, first, rest, held, owed, owed', refl),
        rw (held, IndexStore.each_key)
            (rw fine (
              queued'
              ∙ ap (λ (n : Node conf). with_queued n (futures_of n.store.entries now rest)) queued
              ∙ with_queued-append s.node (futures_of entries now first)
                  (futures_of entries now rest)
              ∙ ap (with_queued s.node) (sym (futures_of-append entries now first rest)))),
        rw (held, IndexStore.each_key) (rw fine fine'),
      )

  -- The check queues what the machine has not applied, and leaves the rest of the node.
  pub check_queues :
      (ss : S.Store) (hlog : Node conf) (now : ℕ)
      → (ids : List Bytes) × OwesAll hlog.store.index ss (sorted_keys hlog.store.index) ids
        × ((check conf app S ss hlog now).0.node
            ≡ with_queued hlog (futures_of hlog.store.entries now ids))
        × ((check conf app S ss hlog now).1 ≡ none)
  unfolding check IndexStore.iter
  check_queues ss hlog now =
      keys_queue hlog.store.index ss now (sorted_keys hlog.store.index)
        (record { node = hlog; total = 0; updated = 0 })
        (All-sorted_keys (λ k. (v : UnsafeKeylogIndex) × (Map.get hlog.store.index.m k ≡ some v))
          hlog.store.index (Map.get-held hlog.store.index.m))
