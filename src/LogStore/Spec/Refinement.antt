-- ===== src/LogStore/Spec/Refinement.antt =====
-- That a log store implements its specification (logstore.go).
use hexalog.Prelude.{
  ◌≡◌, refl, sym, ap, ◌∙◌, Option, List, [], ◌∷◌, inl, inr, arith, if◌then◌else◌, Bool-cases,
  Option-cases, ℤ,
}
use hexalog.Bytes.{Bytes, equal, equal_iff}
use hexalog.Error.{Error, ok}
use hexalog.Entry.{Entry, Hasher, hash}
use hexalog.EntryStore.{EntryStore}
use hexalog.Index
use hexalog.Index.{UnsafeKeylogIndex}
use hexalog.IndexStore
use hexalog.Keylog
use hexalog.Keylog.{Keylog}
use hexalog.Keylog.Chain.Agreement.{AgreesWith}
use hexalog.Keylog.Chain.Distinct.{NeverZero}
use hexalog.LogStore.{
  LogStore, get_key, append_entry, rollback_entry, remove_key, is_zero, write_back,
}
use hexalog.LogStore.Soundness.{
  IsSound, Result-cases, append_entry-IsSound, new_key-IsSound, entries-append_entry, index-new_key,
}
use hexalog.LogStore.Appending.{TakesAll}
use hexalog.LogStore.Removal.{
  dropping, dropping_goes_on, dropping_stops, remove_key_found, remove_key_missing,
  remove_key-IsSound,
}
use hexalog.LogStore.Rollback.{
  Rolled, untouched, deleted, entries-rollback_entry, rollback_entry-IsSound,
}
use hexalog.LogStore.Spec.{
  Logs, Command, creates, appends, rolls_back, removes, spec, spec_all, obey, obey_all, view,
}
use hexalog.LogStore.Spec.Growing.{seen, create_refines, append_refines}
use hexalog.LogStore.Spec.Shrinking.{DropsHeld, roll_back_refines, remove_refines}

module _ (E : EntryStore) (hasher : Hasher) (named : Bytes → Entry) where
  -- An appended entry is the one that its id names.
  abbrev pub IsNamed : Command → Type 0
  IsNamed (creates key) = Unit {0}
  IsNamed (appends entry) = named (hash hasher entry) ≡ entry
  IsNamed (rolls_back entry) = Unit {0}
  IsNamed (removes key) = Unit {0}

  abbrev pub AreNamed : List Command → Type 0
  AreNamed [] = Unit {0}
  AreNamed (c ∷ cs) = IsNamed c × AreNamed cs

  -- All logs are sound, and every entry is the one that its id names.
  pub record IsGood (hlog : LogStore E) : Type 0 where
    pub sound : IsSound E hasher hlog
    pub agrees : AgreesWith E hasher named hlog.entries

  AgreesWith-set :
      (s : E.Store) (entry : Entry)
      → TakesAll E
      → named (hash hasher entry) ≡ entry
      → AgreesWith E hasher named s
      → AgreesWith E hasher named (E.set s (hash hasher entry) entry).0
  AgreesWith-set s entry takes n a id e h =
      let found =
        sym (E.get-set s (hash hasher entry) id entry (takes s (hash hasher entry) entry)) ∙ h in
      elim (Bool-cases (equal (hash hasher entry) id)) [
        | inr other ↦ a id e (rw other at found)
        | inl same ↦
            let this : ok entry ≡ ok e = rw same at found in
            let that : entry ≡ e = cc in
            sym that ∙ (sym n ∙ ap named ((equal_iff (hash hasher entry) id).0 same))
      ]

  AgreesWith-delete :
      (s : E.Store) (x : Bytes)
      → AgreesWith E hasher named s
      → AgreesWith E hasher named (E.delete s x).0
  AgreesWith-delete s x a id e h = elim (Option-cases (E.delete s x).1) [
    | inl q ↦ a id e (ground (arith, E.get-delete s x id q))
    | inr (y, q) ↦ a id e (sym (E.get-delete_failed s x id y q) ∙ h)
  ]

  AgreesWith-dropping :
      (ids : List Bytes) (s : E.Store)
      → AgreesWith E hasher named s
      → AgreesWith E hasher named (dropping E hasher ids s).0
  unfolding Index.each
  AgreesWith-dropping [] s a = a
  AgreesWith-dropping (x ∷ ids) s a = elim (Result-cases (E.get s x)) [
    | inl (y, q) ↦ rw (dropping_stops E hasher x ids s y q) a
    | inr (f, q) ↦
        rw (dropping_goes_on E hasher x ids s f q)
          (AgreesWith-dropping ids (E.delete s x).0 (AgreesWith-delete s x a))
  ]

  AgreesWith-remove_key :
      (hlog : LogStore E) (key : Bytes)
      → AgreesWith E hasher named hlog.entries
      → AgreesWith E hasher named (remove_key E hasher hlog key).0.entries
  AgreesWith-remove_key hlog key a = elim (Result-cases (IndexStore.get_key hlog.index key)) [
    | inl (x, e) ↦ rw (remove_key_missing E hasher hlog key x e) a
    | inr (idx, e) ↦
        rw (remove_key_found E hasher hlog key idx e)
          (AgreesWith-dropping idx.entries hlog.entries a)
  ]

  AgreesWith-Rolled :
      (keylog : Keylog E) (entry : Entry) (t : E.Store)
      → AgreesWith E hasher named keylog.entries
      → Rolled E hasher keylog entry t
      → AgreesWith E hasher named t
  AgreesWith-Rolled keylog entry t a (untouched same) = rw same a
  AgreesWith-Rolled keylog entry t a (deleted at same) =
      rw same (AgreesWith-delete keylog.entries (hash hasher entry) a)

  AgreesWith-append_entry :
      (hlog : LogStore E) (entry : Entry)
      → TakesAll E
      → named (hash hasher entry) ≡ entry
      → AgreesWith E hasher named hlog.entries
      → AgreesWith E hasher named (append_entry E hasher hlog entry).0.entries
  unfolding append_entry get_key
  AgreesWith-append_entry hlog entry takes n a =
      elim (Result-cases (IndexStore.get_key hlog.index entry.key)) [
        | inl (x, e) ↦ rw (e, append_entry) a
        | inr (idx, e) ↦
            rw (e, append_entry)
              (rw
                (entries-append_entry E hasher (record { entries = hlog.entries; idx = idx }) entry)
                (AgreesWith-set hlog.entries entry takes n a))
      ]

  AgreesWith-rollback_entry :
      (hlog : LogStore E) (entry : Entry)
      → AgreesWith E hasher named hlog.entries
      → AgreesWith E hasher named (rollback_entry E hasher hlog entry).0.entries
  unfolding rollback_entry get_key
  AgreesWith-rollback_entry hlog entry a =
      elim (Result-cases (IndexStore.get_key hlog.index entry.key)) [
        | inl (x, e) ↦ rw (e, rollback_entry) a
        | inr (idx, e) ↦ rw (e, rollback_entry) (ended idx)
      ]
    where
      rolled : UnsafeKeylogIndex → Keylog E × ℤ × Option Error
      rolled idx =
          Keylog.rollback_entry E hasher (record { entries = hlog.entries; idx = idx }) entry

      kept : (idx : UnsafeKeylogIndex) → AgreesWith E hasher named (rolled idx).0.entries
      kept idx =
          let before : Keylog E = record { entries = hlog.entries; idx = idx } in
          AgreesWith-Rolled before entry (rolled idx).0.entries a
            (entries-rollback_entry E hasher before entry)

      ended :
          (idx : UnsafeKeylogIndex)
          → AgreesWith E hasher named
              (if is_zero (rolled idx).1
                then (remove_key E hasher
                    (write_back E hasher hlog entry.key (rolled idx).0)
                    entry.key).0
                else write_back E hasher hlog entry.key (rolled idx).0).entries
      ended idx = elim (Bool-cases (is_zero (rolled idx).1)) [
        | inl z ↦ rw z (
            AgreesWith-remove_key (write_back E hasher hlog entry.key (rolled idx).0) entry.key
              (kept idx))
        | inr z ↦ rw z (kept idx)
      ]

  obey-IsGood :
      (hlog : LogStore E) (c : Command)
      → NeverZero hasher
      → TakesAll E
      → IsNamed c
      → IsGood hlog
      → IsGood (obey E hasher hlog c).0
  unfolding obey
  obey-IsGood hlog (creates key) z takes n g = record {
    sound = new_key-IsSound E hasher hlog key g.sound;
    agrees = rw (index-new_key E hasher hlog key) g.agrees;
  }
  obey-IsGood hlog (appends entry) z takes n g = record {
    sound =
        append_entry-IsSound E hasher hlog entry z (λ e h. g.agrees (hash hasher entry) e h ∙ n)
          g.sound;
    agrees = AgreesWith-append_entry hlog entry takes n g.agrees;
  }
  obey-IsGood hlog (rolls_back entry) z takes n g = record {
    sound = rollback_entry-IsSound E hasher hlog entry g.sound;
    agrees = AgreesWith-rollback_entry hlog entry g.agrees;
  }
  obey-IsGood hlog (removes key) z takes n g = record {
    sound = remove_key-IsSound E hasher hlog key g.sound;
    agrees = AgreesWith-remove_key hlog key g.agrees;
  }

  obey-spec :
      (hlog : LogStore E) (c : Command)
      → TakesAll E
      → DropsHeld E
      → IsGood hlog
      → seen E hasher (obey E hasher hlog c) ≡ spec hasher (view E hasher hlog) c
  obey-spec hlog (creates key) takes drops g = create_refines E hasher hlog key
  obey-spec hlog (appends entry) takes drops g = append_refines E hasher hlog entry takes
  obey-spec hlog (rolls_back entry) takes drops g =
      roll_back_refines E hasher hlog entry drops g.sound
  obey-spec hlog (removes key) takes drops g = remove_refines E hasher hlog key drops g.sound

  -- A log store does what is specified of it: after any sequence of `NewKey`, `AppendEntry`,
  -- `RollbackEntry` and `RemoveKey`, the ids of every key are those that the specification computes
  -- from the ids at the start, every call returned the specified error or none, and all logs are still
  -- sound. The entry store takes every write and can delete what it has, the appended entries and
  -- those in the store are the ones that their ids name, and the hash function never returns the zero
  -- hash.
  pub obey_all-spec :
      (hlog : LogStore E) (cs : List Command)
      → NeverZero hasher
      → TakesAll E
      → DropsHeld E
      → AreNamed cs
      → IsGood hlog
      → (view E hasher (obey_all E hasher hlog cs).0 ≡ (spec_all hasher (view E hasher hlog) cs).0)
        × ((obey_all E hasher hlog cs).1 ≡ (spec_all hasher (view E hasher hlog) cs).1)
        × IsGood (obey_all E hasher hlog cs).0
  unfolding obey_all spec_all
  obey_all-spec hlog [] z takes drops ns g = (refl, refl, g)
  obey_all-spec hlog (c ∷ cs) z takes drops (n, ns) g =
      let one = obey-spec hlog c takes drops g in
      let logs : view E hasher (obey E hasher hlog c).0 ≡ (spec hasher (view E hasher hlog) c).0 =
        ap (λ (t : Logs × Option Error). t.0) one in
      let (vs, es, good) =
        obey_all-spec (obey E hasher hlog c).0 cs z takes drops ns
          (obey-IsGood hlog c z takes n g) in
      (
        vs ∙ ap (λ (l : Logs). (spec_all hasher l cs).0) logs,
        ap (λ (x : List (Option Error)). (obey E hasher hlog c).1 ∷ x)
              (es ∙ ap (λ (l : Logs). (spec_all hasher l cs).1) logs)
            ∙ ap
                (λ (x : Option Error).
                  x ∷ (spec_all hasher (spec hasher (view E hasher hlog) c).0 cs).1)
                (ap (λ (t : Logs × Option Error). t.1) one),
        good,
      )
