-- ===== src/Broadcast/Answers.antt =====
-- What a broadcast makes of the answers (broadcast.go).
use hexalog.Prelude.{
  true, false, if◌then◌else◌, ℕ, zero, suc, ◌-◌, ◌<◌, ◌≡◌, refl, sym, ap, ◌∙◌, none, some, List, [],
  ◌∷◌, ◌++◌, length, arith,
}
use mathlib.Core.List.{append_assoc, append-nil}
use hexalog.Error.{Error, Result, ok, err}
use hexalog.Entry.{Entry, hash}
use hexalog.Options.{RequestOptions, ReqResp}
use hexalog.Node.{
  get_ballot, set_ballot, close_ballot, Config, Node, get_self_index, ballot_get_close,
}
use hexalog.Broadcast.{collect, broadcast_propose, proposal_round}
use hexalog.Bytes.{Bytes, equal}
use hexalog.Ballot.{Ballot, running, stopped, wait}
use hexalog.Ballot.Validity.{IsValid}
use hexalog.Ballot.Closing.{close-wait, close-running}
use hexalog.Map

abbrev pub all_ok {ℓ} : {A : Type ℓ} → List A → List (Result A)
all_ok [] = []
all_ok (r ∷ rs) = ok r ∷ all_ok rs

collect-failed {ℓ} :
    {A : Type ℓ} (l : ℕ) (rs : List A) (x : Error) (rest : List (Result A)) (out : List A)
    → length rs < l
    → collect l (all_ok rs ++ err x ∷ rest) out ≡ some (out ++ rs, some x)
unfolding collect
collect-failed zero rs x rest out h = absurd (omega arith)
collect-failed {A = A} (suc l) [] x rest out h =
    ap (λ (k : List A). some (k, some x)) (sym (append-nil out))
collect-failed {A = A} (suc l) (r ∷ rs) x rest out h =
    collect-failed l rs x rest (out ++ r ∷ []) (omega arith)
    ∙ ap (λ (k : List A). some (k, some x)) (append_assoc out (r ∷ []) rs)

-- All answers that are taken without an error are responses.
pub collect-all_ok {ℓ} :
    {A : Type ℓ} (l : ℕ) (answers : List (Result A)) (out got : List A)
    → collect l answers out ≡ some (got, none)
    → (rs : List A) × (rest : List (Result A)) × (answers ≡ all_ok rs ++ rest) × (length rs ≡ l)
unfolding collect
collect-all_ok zero answers out got h = ([], answers, refl, refl)
collect-all_ok (suc l) [] out got h = absurd cc
collect-all_ok (suc l) (err x ∷ answers) out got h = absurd cc
collect-all_ok {A = A} (suc l) (ok r ∷ answers) out got h =
    let (rs, rest, e, n) = collect-all_ok l answers (out ++ r ∷ []) got h in
    (r ∷ rs, rest, ap (λ (t : List (Result A)). ok r ∷ t) e, omega (arith, n))

module _ (conf : Config) where
  -- The ballot that the round closes.
  abbrev ended_by : Ballot conf.Data → Error → ℕ → Ballot conf.Data
  ended_by b x now = record b {
    timer = stopped;
    closed = true;
    completed = some now;
    error = some x;
    errc = b.errc ++ x ∷ [];
  }

  closes_with :
      (hlog : Node conf) (id : Bytes) (b : Ballot conf.Data) (x : Error) (now : ℕ)
      → get_ballot conf hlog id ≡ some b
      → b.closed ≡ false
      → b.timer ≡ running
      → ballot_get_close conf hlog id (some x) now
        ≡ some (set_ballot conf hlog id (ended_by b x now))
  unfolding ballot_get_close
  closes_with hlog id b x now held o t =
      let shut = close-running b x now o t in
      rw (held, ballot_get_close) (rw (shut, close_ballot) refl)

  round_refused :
      (hlog : Node conf) (entry : Entry) (opts : RequestOptions) (idx : ℕ) (rs : List ReqResp)
      (x : Error) (rest : List (Result ReqResp)) (now : ℕ)
      → get_self_index conf opts.peer_set ≡ some idx
      → length rs < length opts.peer_set - 1
      → proposal_round conf hlog entry opts (all_ok rs ++ err x ∷ rest) now
        ≡ ballot_get_close conf hlog (hash conf.hasher entry) (some x) now
  unfolding proposal_round broadcast_propose
  round_refused hlog entry opts idx rs x rest now self h =
      rw (self, broadcast_propose)
        (rw (collect-failed (length opts.peer_set - 1) rs x rest [] h) refl)

  -- On a node that is among the peers, a round that broadcasts the proposal of an open ballot with a
  -- running time to live ends at the first error among the answers of the other peers: the ballot is
  -- closed with that error, a call of `Wait` on it returns the error, no other ballot changes, nothing
  -- is queued for the application's machine, and the logs stay as they were.
  pub proposal_round-refused :
      (hlog : Node conf) (entry : Entry) (opts : RequestOptions) (idx : ℕ) (rs : List ReqResp)
      (x : Error) (rest : List (Result ReqResp)) (now : ℕ) (b : Ballot conf.Data) (j : Bytes)
      → get_self_index conf opts.peer_set ≡ some idx
      → length rs < length opts.peer_set - 1
      → get_ballot conf hlog (hash conf.hasher entry) ≡ some b
      → IsValid b
      → b.closed ≡ false
      → b.timer ≡ running
      → (after : Node conf) × (ended : Ballot conf.Data) × (told : Ballot conf.Data)
        × (proposal_round conf hlog entry opts (all_ok rs ++ err x ∷ rest) now ≡ some after)
        × (get_ballot conf after j
            ≡ (if equal (hash conf.hasher entry) j then some ended else get_ballot conf hlog j))
        × (ended.closed ≡ true)
        × (ended.error ≡ some x)
        × (wait ended ≡ some (told, some x))
        × (after.apply_ch ≡ hlog.apply_ch)
        × (after.store ≡ hlog.store)
  unfolding get_ballot set_ballot
  proposal_round-refused hlog entry opts idx rs x rest now b j self h held v o t =
      let id = hash conf.hasher entry in
      let (told, heard, quiet) =
        close-wait b (ended_by b x now) (some x) none now v o (close-running b x now o t) in
      (
        set_ballot conf hlog id (ended_by b x now),
        ended_by b x now,
        told,
        round_refused hlog entry opts idx rs x rest now self h
            ∙ closes_with hlog id b x now held o t,
        Map.get-put hlog.ballots id j (ended_by b x now),
        refl,
        refl,
        heard,
        refl,
        refl,
      )
