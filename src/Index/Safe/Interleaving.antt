-- ===== src/Index/Safe/Interleaving.antt =====
-- That the lock of `SafeKeylogIndex` (keylogindex.go) makes its calls atomic.
use hexalog.Prelude.{
  ℕ, ◌≡◌, ◌≢◌, refl, sym, ap, ◌∙◌, subst, [], ◌∷◌, ◌++◌, ◌==◌, inl, inr, Bool-cases, arith,
}
use hexalog.Index.{UnsafeKeylogIndex}
use hexalog.Index.Safe.{
  Method, Mode, free, reads, writes, mode, effect, Phase, outside, entered, loaded, Shared, holds,
  moved, MayEnter, stored, Step, enters, loads, finishes, Reach, here, next, started, Replays,
}
use hexalog.Index.Safe.Effects.{
  Mode-cases, stored_kept, Replays-snoc, effect_reads, effect_key, effect_free,
}

module _ {S : Type 0} where
  -- What a goroutine has read is what is there, but for one without the lock.
  abbrev IsFresh : UnsafeKeylogIndex → Phase S → Type 0
  IsFresh idx outside = Unit {0}
  IsFresh idx (entered m) = Unit {0}
  IsFresh idx (loaded m x) = (x.key ≡ idx.key) × ((mode m ≢ free) → x ≡ idx)

  record IsAtomic (from : UnsafeKeylogIndex) (s : Shared S) : Type 0 where
    exclusive : (i j : ℕ) → i ≢ j → holds (s.threads i) ≡ writes → holds (s.threads j) ≡ free
    fresh : (i : ℕ) → IsFresh s.idx (s.threads i)
    replayed : Replays from s.log s.idx

  -- What holds of a phase and of the phases of the others holds once a goroutine has moved to it.
  moved_all :
      (P : ℕ → Phase S → Type 0) (threads : ℕ → Phase S) (i : ℕ) (p : Phase S)
      → P i p
      → ((j : ℕ) → j ≢ i → P j (threads j))
      → (j : ℕ) → P j (moved threads i p j)
  moved_all P threads i p own others j = elim (Bool-cases (j == i)) [
    | inl e ↦ let same : i ≡ j = ground arith in rw e (subst (λ k. P k p) same own)
    | inr e ↦ rw e (others j (λ same. ground arith))
  ]

  exclusive_moved :
      (threads : ℕ → Phase S) (i : ℕ) (p : Phase S)
      → ((j k : ℕ) → j ≢ k → holds (threads j) ≡ writes → holds (threads k) ≡ free)
      → (holds p ≡ writes → (j : ℕ) → j ≢ i → holds (threads j) ≡ free)
      → ((j : ℕ) → j ≢ i → holds (threads j) ≡ writes → holds p ≡ free)
      → (j k : ℕ) → j ≢ k
      → holds (moved threads i p j) ≡ writes
      → holds (moved threads i p k) ≡ free
  exclusive_moved threads i p ex own others =
      moved_all (λ j q. (k : ℕ) → j ≢ k → holds q ≡ writes → holds (moved threads i p k) ≡ free)
        threads i p
        (λ k n h.
          moved_all (λ l q. i ≢ l → holds q ≡ free) threads i p (λ m. absurd (m refl))
            (λ l m _. own h l m) k n)
        (λ j n k m h.
          moved_all (λ l q. j ≢ l → holds q ≡ free) threads i p (λ _. others j n h)
            (λ l _ o. ex j l o h) k m)

  enters-exclusive :
      (threads : ℕ → Phase S) (i : ℕ) (m : Method S)
      → MayEnter threads (mode m)
      → (mode m ≡ writes → (j : ℕ) → j ≢ i → holds (threads j) ≡ free)
        × ((j : ℕ) → j ≢ i → holds (threads j) ≡ writes → mode m ≡ free)
  enters-exclusive threads i m may = (
    λ w j n. (subst (MayEnter threads) w may) j,
    λ j n h. elim (Mode-cases (mode m)) [
      | inl f ↦ f
      | inr (inl r) ↦ absurd (subst (MayEnter threads) r may j h)
      | inr (inr w) ↦ let clash : writes ≡ free = sym h ∙ subst (MayEnter threads) w may j in cc
    ],
  )

  read_is_there :
      (idx : UnsafeKeylogIndex) (p : Phase S) (m : Method S) (x : UnsafeKeylogIndex)
      → IsFresh idx p
      → p ≡ loaded m x
      → (x.key ≡ idx.key) × ((mode m ≢ free) → x ≡ idx)
  read_is_there idx p m x f e = subst (IsFresh idx) e f

  -- The call that returns is one on the index that is there.
  returns :
      (idx x : UnsafeKeylogIndex) (m : Method S)
      → x.key ≡ idx.key
      → (mode m ≢ free → x ≡ idx)
      → ((effect m x).1 ≡ (effect m idx).1)
        × (stored (mode m) (effect m x).0 idx ≡ (effect m idx).0)
  returns idx x m k same = elim (Mode-cases (mode m)) [
    | inl f ↦ (
      effect_free m x idx f k,
      stored_kept (mode m) _ idx (λ w. apart f w) ∙ sym (effect_reads m idx (λ w. apart f w)),
    )
    | inr (inl r) ↦
        let e = same (λ f. unread r f) in
        (
          ap (λ i. (effect m i).1) e,
          stored_kept (mode m) _ idx (λ w. unwritten r w)
              ∙ sym (effect_reads m idx (λ w. unwritten r w)),
        )
    | inr (inr w) ↦
        let e = same (λ f. apart f w) in
        (
          ap (λ i. (effect m i).1) e,
          ap (λ o. stored o (effect m x).0 idx) w ∙ ap (λ i. (effect m i).0) e,
        )
  ]
    where
      apart : mode m ≡ free → mode m ≡ writes → ⊥
      apart f w = let clash : free ≡ writes = sym f ∙ w in cc

      unread : mode m ≡ reads → mode m ≡ free → ⊥
      unread r f = let clash : reads ≡ free = sym r ∙ f in cc

      unwritten : mode m ≡ reads → mode m ≡ writes → ⊥
      unwritten r w = let clash : reads ≡ writes = sym r ∙ w in cc

  -- What another goroutine has read stays what is there: only a call with the lock changes the index.
  still_fresh :
      (idx after : UnsafeKeylogIndex) (p : Phase S) (writing : Mode)
      → IsFresh idx p
      → after.key ≡ idx.key
      → (writing ≢ writes → after ≡ idx)
      → (writing ≡ writes → holds p ≡ free)
      → IsFresh after p
  still_fresh idx after outside writing f k kept alone = tt
  still_fresh idx after (entered m) writing f k kept alone = tt
  still_fresh idx after (loaded m x) writing (fk, fs) k kept alone =
      (fk ∙ sym k, λ h. fs h ∙ sym (kept (λ w. h (alone w))))

  Step-IsAtomic :
      (from : UnsafeKeylogIndex) {s t : Shared S} → Step s t → IsAtomic from s → IsAtomic from t
  Step-IsAtomic from (enters s i m at may) a =
      let (own, others) = enters-exclusive s.threads i m may in
      record {
        exclusive = exclusive_moved s.threads i (entered m) a.exclusive own others;
        fresh = moved_all (λ j p. IsFresh s.idx p) s.threads i (entered m) tt (λ j n. a.fresh j);
        replayed = a.replayed;
      }
  Step-IsAtomic from (loads s i m at) a =
      let same : mode m ≡ holds (s.threads i) = ap holds (sym at) in
      record {
        exclusive =
            exclusive_moved s.threads i (loaded m s.idx) a.exclusive
              (λ w j n. a.exclusive i j (λ e. n (sym e)) (sym same ∙ w))
              (λ j n h. same ∙ a.exclusive j i n h);
        fresh =
            moved_all (λ j p. IsFresh s.idx p) s.threads i (loaded m s.idx) (refl, λ h. refl)
              (λ j n. a.fresh j);
        replayed = a.replayed;
      }
  Step-IsAtomic from (finishes s i m x at) a =
      let (k, same) = read_is_there s.idx (s.threads i) m x (a.fresh i) at in
      let (answered, left) = returns s.idx x m k same in
      let after = stored (mode m) (effect m x).0 s.idx in
      let key_kept : after.key ≡ s.idx.key =
        ap (λ (y : UnsafeKeylogIndex). y.key) left ∙ effect_key m s.idx in
      let held : holds (s.threads i) ≡ mode m = ap holds at in
      record {
        exclusive =
            exclusive_moved s.threads i outside a.exclusive (λ w j n. absurd (free_only w))
              (λ j n h. refl);
        fresh =
            moved_all (λ j p. IsFresh after p) s.threads i outside tt
              (λ j n.
                still_fresh s.idx after (s.threads j) (mode m) (a.fresh j) key_kept
                  (λ h. stored_kept (mode m) _ s.idx h)
                  (λ w. a.exclusive i j (λ e. n (sym e)) (held ∙ w)));
        replayed =
            subst (Replays from (s.log ++ (m, (effect m x).1) ∷ [])) (sym left)
              (Replays-snoc from s.idx s.log m (effect m x).1 a.replayed answered);
      }
    where
      free_only : free ≡ writes → ⊥
      free_only w = cc

  Reach-IsAtomic :
      (from : UnsafeKeylogIndex) {s t : Shared S} → IsAtomic from s → Reach s t → IsAtomic from t
  Reach-IsAtomic from a here = a
  Reach-IsAtomic from a (next r step) = Step-IsAtomic from step (Reach-IsAtomic from a r)

  -- However the calls of goroutines on a `SafeKeylogIndex` overlap, they are as good as calls on an
  -- `UnsafeKeylogIndex` one after the other: in the order in which they return, each gave the answer
  -- that it gives there, and the index is the one that they leave there.
  pub Reach-Replays :
      (from : UnsafeKeylogIndex) (t : Shared S) → Reach (started from) t → Replays from t.log t.idx
  Reach-Replays from t r =
      (Reach-IsAtomic from
        (record { exclusive = λ i j n h. refl; fresh = λ i. tt; replayed = refl }) r).replayed
