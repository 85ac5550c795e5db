-- ===== src/Machine/Replay.antt =====
-- What the check queues again (`check` of fsm.go).
use hexalog.Prelude.{ℕ, ◌+◌, ◌≡◌, refl, sym, ap, ◌∙◌, false, none, some, List, [], ◌∷◌, ◌++◌, arith}
use mathlib.Core.List.{append_assoc, append-nil}
use hexalog.Bytes.{Bytes, or_nil, equal}
use hexalog.Error.{ok, entry_not_found}
use hexalog.Entry.{Entry}
use hexalog.Future.{FutureEntry, new_future_entry, dispatch}
use hexalog.Index.{UnsafeKeylogIndex, last, contains_id, seek_from, each}
use hexalog.Index
use hexalog.Index.Iteration.{seek_from-append, seek_from-none}
use hexalog.Node.{Config}
use hexalog.Machine.{StableStore, App, Checked, replay, check_key}

module _ (conf : Config) (app : App conf) (S : StableStore) where
  -- The store has these entries under these ids.
  abbrev pub AreStored : conf.entry_store.Store → List Bytes → List Entry → Type 0
  AreStored s [] [] = Unit {0}
  AreStored s [] (e ∷ es) = ⊥
  AreStored s (id ∷ ids) [] = ⊥
  AreStored s (id ∷ ids) (e ∷ es) = (conf.entry_store.get s id ≡ ok e) × AreStored s ids es

  abbrev pub futures : ℕ → List Bytes → List Entry → List (FutureEntry conf.Data)
  futures now [] es = []
  futures now (id ∷ ids) [] = []
  futures now (id ∷ ids) (e ∷ es) = dispatch (new_future_entry id e) now ∷ futures now ids es

  -- The check after some entries have been queued.
  abbrev pub queueing : Checked conf app S → List (FutureEntry conf.Data) → Checked conf app S
  queueing s fs = record s { node = record s.node { apply_ch = s.node.apply_ch ++ fs } }

  replay_next :
      (now : ℕ) (id : Bytes) (ids : List Bytes) (e : Entry) (s : Checked conf app S)
      → conf.entry_store.get s.node.store.entries id ≡ ok e
      → each (replay conf app S now) (id ∷ ids) s
        ≡ each (replay conf app S now) ids (queueing s (dispatch (new_future_entry id e) now ∷ []))
  unfolding each replay dispatch new_future_entry
  replay_next now id ids e s h = ground arith

  each-replay :
      (now : ℕ) (ids : List Bytes) (es : List Entry) (s : Checked conf app S)
      → AreStored s.node.store.entries ids es
      → each (replay conf app S now) ids s ≡ (queueing s (futures now ids es), none)
  unfolding each
  each-replay now [] [] s h =
      ap
        (λ (q : List (FutureEntry conf.Data)).
          (record s { node = record s.node { apply_ch = q } }, none))
        (sym (append-nil s.node.apply_ch))
  each-replay now [] (e ∷ es) s h = absurd h
  each-replay now (id ∷ ids) [] s h = absurd h
  each-replay now (id ∷ ids) (e ∷ es) s h =
      replay_next now id ids e s h.0
      ∙ (each-replay now ids es (queueing s (dispatch (new_future_entry id e) now ∷ [])) h.1
          ∙ ap
              (λ (q : List (FutureEntry conf.Data)).
                (record s { node = record s.node { apply_ch = q } }, none))
              (append_assoc s.node.apply_ch (dispatch (new_future_entry id e) now ∷ [])
                (futures now ids es)))

  -- The check of a key whose last applied id is in its log, but not the last of it, queues the
  -- entries from that id on in order, the one that has been applied already among them, and counts
  -- the key. The entries are all in the store.
  pub check_key-replays :
      (ss : S.Store) (now : ℕ) (key : Bytes) (ki : UnsafeKeylogIndex) (s : Checked conf app S)
      (before after : List Bytes) (seek : Bytes) (es : List Entry)
      → S.get ss key ≡ ok seek
      → equal seek (or_nil (last ki)) ≡ false
      → ki.entries ≡ before ++ seek ∷ after
      → contains_id before seek ≡ false
      → AreStored s.node.store.entries (seek ∷ after) es
      → check_key conf app S ss now key ki s ≡ (
        record (queueing s (futures now (seek ∷ after) es)) {
          total = s.total + 1;
          updated = s.updated + 1;
        },
        none,
      )
  unfolding check_key Index.iter
  check_key-replays ss now key ki s before after seek es g n e out stored =
      rw (g, check_key) (rw n (rw (from_seek (record s { total = s.total + 1 }) stored) refl))
    where
      from_seek :
          (c : Checked conf app S)
          → AreStored c.node.store.entries (seek ∷ after) es
          → Index.iter ki (some seek) (replay conf app S now) c
            ≡ (queueing c (futures now (seek ∷ after) es), none)
      from_seek c h =
          rw (e, Index.iter)
            (rw (seek_from-append before after seek out) (each-replay now (seek ∷ after) es c h))

  -- A key whose last applied id is not in its log is counted as updated, and nothing is queued.
  check_key-lost :
      (ss : S.Store) (now : ℕ) (key : Bytes) (ki : UnsafeKeylogIndex) (s : Checked conf app S)
      (seek : Bytes)
      → S.get ss key ≡ ok seek
      → equal seek (or_nil (last ki)) ≡ false
      → contains_id ki.entries seek ≡ false
      → check_key conf app S ss now key ki s
        ≡ (record s { total = s.total + 1; updated = s.updated + 1 }, none)
  unfolding check_key Index.iter
  check_key-lost ss now key ki s seek g n out =
      rw (g, check_key) (rw n (rw (no_seek (record s { total = s.total + 1 })) refl))
    where
      no_seek :
          (c : Checked conf app S)
          → Index.iter ki (some seek) (replay conf app S now) c ≡ (c, some entry_not_found)
      no_seek c = rw (seek_from-none ki.entries seek out, Index.iter) refl
