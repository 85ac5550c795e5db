-- ===== src/Index/Calls.antt =====
-- The branches of `Append` and `Rollback` (ukeylogindex.go), as equations for the other proofs.
use hexalog.Prelude.{
  ℕ, ◌+◌, ◌-◌, ◌^◌, ◌≡◌, false, true, none, some, List, [], ◌∷◌, ◌++◌, arith, length, take,
  length-append, take-length-snoc, ap, ◌∙◌,
}
use hexalog.Bytes.{Bytes}
use hexalog.Error.{previous_hash}
use hexalog.Index.{UnsafeKeylogIndex, links, last, append, rollback, accept, lower, u32}

module _ (idx : UnsafeKeylogIndex) (id prev : Bytes) (ltime : ℕ) where
  pub append_accepted :
      links (last idx) prev ≡ true → append idx id prev ltime ≡ (accept idx id ltime, none)
  unfolding append
  append_accepted h = ground arith

  pub append_refused :
      links (last idx) prev ≡ false → append idx id prev ltime ≡ (idx, some previous_hash)
  unfolding append
  append_refused h = ground arith

-- The index after its last entry is gone.
abbrev pub shortened : UnsafeKeylogIndex → List Bytes → ℕ → UnsafeKeylogIndex
shortened idx ids ltime = record idx {
  entries = ids;
  height = u32 (idx.height + 2 ^ 32 - 1);
  ltime = lower ltime idx.ltime;
}

pub rollback-snoc :
    (idx : UnsafeKeylogIndex) (ids : List Bytes) (id : Bytes) (ltime : ℕ)
    → idx.entries ≡ ids ++ id ∷ []
    → rollback idx ltime ≡ (shortened idx ids ltime, length ids, true)
unfolding rollback
rollback-snoc idx ids id ltime e =
    let n : length idx.entries ≡ length ids + 1 =
      ap length e ∙ (omega (arith, length-append ids (id ∷ []))) in
    let t : take (length idx.entries - 1) idx.entries ≡ ids =
      ap (λ (xs : List Bytes). take (length xs - 1) xs) e ∙ take-length-snoc ids id in
    ground arith

pub rollback-nil :
    (idx : UnsafeKeylogIndex) (ltime : ℕ) → idx.entries ≡ [] → rollback idx ltime ≡ (idx, 0, false)
unfolding rollback
rollback-nil idx ltime e = let n : length idx.entries ≡ 0 = ap length e in ground arith
