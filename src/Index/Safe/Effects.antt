-- ===== src/Index/Safe/Effects.antt =====
-- What the methods of `KeylogIndex` may read and change (keylogindex.go).
use hexalog.Prelude.{◌≡◌, ◌≢◌, ◌⊎◌, refl, sym, ap, ◌∙◌, List, [], ◌∷◌, ◌++◌, inl, inr, arith}
use hexalog.Index.{UnsafeKeylogIndex, append, set_marker, rollback, accept}
use hexalog.Index.Safe.{
  Method, asks_key, asks_marker, asks_last, asks_count, asks_height, copies, closes, asks_contains,
  iterates, sets_marker, appends, rolls_back, Answer, Mode, free, reads, writes, mode, effect,
  stored, Replays,
}

pub Mode-cases : (o : Mode) → (o ≡ free) ⊎ ((o ≡ reads) ⊎ (o ≡ writes))
Mode-cases free = inl refl
Mode-cases reads = inr (inl refl)
Mode-cases writes = inr (inr refl)

pub stored_kept : (o : Mode) (new old : UnsafeKeylogIndex) → o ≢ writes → stored o new old ≡ old
stored_kept free new old h = refl
stored_kept reads new old h = refl
stored_kept writes new old h = absurd (h refl)

module _ {S : Type 0} where
  pub Replays-snoc :
      (from idx : UnsafeKeylogIndex) (log : List (Method S × Answer S)) (m : Method S)
      (a : Answer S)
      → Replays from log idx
      → a ≡ (effect m idx).1
      → Replays from (log ++ (m, a) ∷ []) (effect m idx).0
  Replays-snoc from idx [] m a r e =
      (e ∙ ap (λ i. (effect m i).1) (sym r), ap (λ i. (effect m i).0) r)
  Replays-snoc from idx (c ∷ log) m a r e =
      (r.0, Replays-snoc (effect c.0 from).0 idx log m a r.1 e)

  pub effect_reads : (m : Method S) (x : UnsafeKeylogIndex) → mode m ≢ writes → (effect m x).0 ≡ x
  unfolding mode effect
  effect_reads asks_key x h = refl
  effect_reads asks_marker x h = refl
  effect_reads asks_last x h = refl
  effect_reads asks_count x h = refl
  effect_reads asks_height x h = refl
  effect_reads copies x h = refl
  effect_reads closes x h = refl
  effect_reads (asks_contains id) x h = refl
  effect_reads (iterates seek cb s) x h = refl
  effect_reads (sets_marker marker) x h = absurd (h refl)
  effect_reads (appends id prev ltime) x h = absurd (h refl)
  effect_reads (rolls_back ltime) x h = absurd (h refl)

  -- No method changes the key.
  pub effect_key : (m : Method S) (x : UnsafeKeylogIndex) → (effect m x).0.key ≡ x.key
  unfolding effect append set_marker rollback accept
  effect_key asks_key x = refl
  effect_key asks_marker x = refl
  effect_key asks_last x = refl
  effect_key asks_count x = refl
  effect_key asks_height x = refl
  effect_key copies x = refl
  effect_key closes x = refl
  effect_key (asks_contains id) x = refl
  effect_key (iterates seek cb s) x = refl
  effect_key (sets_marker marker) x = ground arith
  effect_key (appends id prev ltime) x = ground arith
  effect_key (rolls_back ltime) x = ground arith

  -- What a call without the lock answers depends on the key alone.
  pub effect_free :
      (m : Method S) (x y : UnsafeKeylogIndex)
      → mode m ≡ free
      → x.key ≡ y.key
      → (effect m x).1 ≡ (effect m y).1
  unfolding mode effect
  effect_free asks_key x y h k = cc
  effect_free closes x y h k = refl
  effect_free asks_marker x y h k = cc
  effect_free asks_last x y h k = cc
  effect_free asks_count x y h k = cc
  effect_free asks_height x y h k = cc
  effect_free copies x y h k = cc
  effect_free (asks_contains id) x y h k = cc
  effect_free (iterates seek cb s) x y h k = cc
  effect_free (sets_marker marker) x y h k = cc
  effect_free (appends id prev ltime) x y h k = cc
  effect_free (rolls_back ltime) x y h k = cc
