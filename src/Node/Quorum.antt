-- ===== src/Node/Quorum.antt =====
-- When an entry goes to the application's state machine (`Propose` and `Commit` of hexalog.go).
pub mod AfterVote
pub mod Voting
pub mod Proposing
pub mod Casting
pub mod Committing
pub mod Alone
use hexalog.Prelude.{
  ℕ, ◌≡◌, refl, sym, ap, subst, ◌∙◌, ◌⊎◌, inl, inr, Bool, true, false, Option, none, some, List, [],
  ◌∷◌, ◌++◌, arith, Bool-cases, Option-cases, ◌==◌, if◌then◌else◌, ◌>>=◌, >>=-eq-some,
}
use hexalog.Bytes.{Bytes, equal_refl}
use hexalog.Error.{Error}
use hexalog.Entry.{Entry}
use mathlib.Core.Option.{some-injective}
use hexalog.Map.{get-put}
use hexalog.Ballot.Closing.{close_open}
use hexalog.LogStore
use hexalog.LogStore.{LogStore}
use hexalog.Future.{FutureEntry, dispatch}
use hexalog.Ballot.{Ballot, Timer, unset, running, stopped, fired, proposals, commits}
use hexalog.Ballot
use hexalog.Node.{
  Config, Node, get_ballot, set_ballot, close_ballot, finish_commit, try_commit,
  check_votes_and_commit,
}

module _ (conf : Config) where
  -- A call took `hlog` to `hlog'` and committed the ballot of `id`: the ballot has `n` proposals and
  -- `n` commits, is closed without an error, and its entry was appended to the log and then queued
  -- for the machine, as the only one.
  pub record Committed (hlog hlog' : Node conf) (id : Bytes) (n : ℕ) : Type 0 where
    pub ballot : Ballot conf.Data
    pub held : get_ballot conf hlog' id ≡ some ballot
    pub all_proposed : proposals ballot ≡ n
    pub all_committed : commits ballot ≡ n
    pub closed : ballot.closed ≡ true
    pub no_error : ballot.error ≡ none
    pub before : LogStore conf.entry_store
    pub appended :
        LogStore.append_entry conf.entry_store conf.hasher before ballot.fentry.entry
        ≡ (hlog'.store, none)
    pub queued : hlog'.apply_ch ≡ hlog.apply_ch ++ ballot.fentry ∷ []

  -- A call queued nothing, or committed.
  abbrev pub Settles : Node conf → Node conf → Bytes → ℕ → Type 0
  Settles hlog hlog' id n = (hlog'.apply_ch ≡ hlog.apply_ch) ⊎ Committed hlog hlog' id n

  pub Committed-from :
      (h0 hlog hlog' : Node conf) (id : Bytes) (n : ℕ)
      → hlog.apply_ch ≡ h0.apply_ch
      → Committed hlog hlog' id n
      → Committed h0 hlog' id n
  Committed-from h0 hlog hlog' id n e c = record {
    ballot = c.ballot;
    held = c.held;
    all_proposed = c.all_proposed;
    all_committed = c.all_committed;
    closed = c.closed;
    no_error = c.no_error;
    before = c.before;
    appended = c.appended;
    queued = c.queued ∙ ap (λ (l : List (FutureEntry conf.Data)). l ++ c.ballot.fentry ∷ []) e;
  }

  pub Settles-from :
      (h0 hlog hlog' : Node conf) (id : Bytes) (n : ℕ)
      → hlog.apply_ch ≡ h0.apply_ch
      → Settles hlog hlog' id n
      → Settles h0 hlog' id n
  Settles-from h0 hlog hlog' id n e (inl q) = inl (q ∙ e)
  Settles-from h0 hlog hlog' id n e (inr c) = inr (Committed-from h0 hlog hlog' id n e c)

  pub close_ballot_done :
      (hlog after : Node conf) (id : Bytes) (b : Ballot conf.Data) (e : Option Error) (now : ℕ)
      → close_ballot conf hlog id b e now ≡ some after
      → (b' : Ballot conf.Data) × (x : Option Error) × (Ballot.close b e now ≡ some (b', x))
        × (set_ballot conf hlog id b' ≡ after)
  unfolding close_ballot
  close_ballot_done hlog after id b e now h =
      let (c, p, q) = >>=-eq-some (Ballot.close b e now) _ h in (c.0, c.1, p, some-injective _ _ q)

  pub get_ballot-set_ballot :
      (hlog : Node conf) (id : Bytes) (b : Ballot conf.Data)
      → get_ballot conf (set_ballot conf hlog id b) id ≡ some b
  unfolding get_ballot set_ballot
  get_ballot-set_ballot hlog id b = simp (get-put, equal_refl)

  pub close_ballot_quiet :
      (hlog after : Node conf) (id : Bytes) (b : Ballot conf.Data) (e : Option Error) (now : ℕ)
      → close_ballot conf hlog id b e now ≡ some after
      → after.apply_ch ≡ hlog.apply_ch
  unfolding set_ballot
  close_ballot_quiet hlog after id b e now h =
      let (b', x, p, q) = close_ballot_done hlog after id b e now h in
      ap (λ (m : Node conf). m.apply_ch) (sym q)

  pub finish_commit-Committed :
      (hlog after : Node conf) (id : Bytes) (b : Ballot conf.Data) (now n : ℕ) (r : Bool)
      (s : LogStore conf.entry_store)
      → proposals b ≡ n
      → commits b ≡ n
      → b.closed ≡ false
      → LogStore.append_entry conf.entry_store conf.hasher s b.fentry.entry ≡ (hlog.store, none)
      → finish_commit conf hlog id b now ≡ some (after, r)
      → Committed hlog after id n
  unfolding finish_commit set_ballot dispatch proposals commits
  finish_commit-Committed hlog after id b now n r s p c o a h =
      let sent = dispatch b.fentry now in
      let queued : Node conf = record hlog {
        clock = conf.lamport_clock.witness hlog.clock b.fentry.entry.ltime;
        apply_ch = hlog.apply_ch ++ sent ∷ [];
      } in
      let (m, done, same) =
        >>=-eq-some (close_ballot conf queued id (record b { fentry = sent }) none now) _ h in
      let (b', x, shut, set) =
        close_ballot_done queued m id (record b { fentry = sent }) none now done in
      let (closed, error, proposed, committed, fentry) =
        close_open (record b { fentry = sent }) b' none x now o shut in
      let reached : set_ballot conf queued id b' ≡ after =
        set ∙ ap (λ (t : Node conf × Bool). t.0) (some-injective _ _ same) in
      subst (λ t. Committed hlog t id n) reached
        (record {
          ballot = b';
          held = get_ballot-set_ballot queued id b';
          all_proposed = ap Ballot.count_votes proposed ∙ p;
          all_committed = ap Ballot.count_votes committed ∙ c;
          closed = closed;
          no_error = error;
          before = s;
          appended =
              ap
                (λ (f : FutureEntry conf.Data).
                  LogStore.append_entry conf.entry_store conf.hasher s f.entry)
                fentry
              ∙ a;
          queued = ap (λ (f : FutureEntry conf.Data). hlog.apply_ch ++ f ∷ []) (sym fentry);
        })

  try_commit-Settles :
      (hlog after : Node conf) (id : Bytes) (b : Ballot conf.Data) (now n : ℕ) (r : Bool)
      → proposals b ≡ n
      → commits b ≡ n
      → b.closed ≡ false
      → try_commit conf hlog id b now ≡ some (after, r)
      → Settles hlog after id n
  unfolding try_commit
  try_commit-Settles hlog after id b now n r p c o h =
      go (LogStore.append_entry conf.entry_store conf.hasher hlog.store b.fentry.entry) refl h
    where
      tried : LogStore conf.entry_store × Option Error → Option (Node conf × Bool)
      tried (store, e) = elim e [
        | none ↦ finish_commit conf (record hlog { store = store }) id b now
        | some x ↦ do
          m ← close_ballot conf (record hlog { store = store }) id b (some x) now
          some (m, false)
      ]

      go :
          (a : LogStore conf.entry_store × Option Error)
          → LogStore.append_entry conf.entry_store conf.hasher hlog.store b.fentry.entry ≡ a
          → tried a ≡ some (after, r)
          → Settles hlog after id n
      go (store, none) e h = inr (
          Committed-from hlog (record hlog { store = store }) after id n refl
            (finish_commit-Committed (record hlog { store = store }) after id b now n r hlog.store p
              c o e h))
      go (store, some x) e h =
          let (m, done, same) =
            >>=-eq-some (close_ballot conf (record hlog { store = store }) id b (some x) now) _ h in
          let reached : m ≡ after = ap (λ (t : Node conf × Bool). t.0) (some-injective _ _ same) in
          inl (
            ap (λ (t : Node conf). t.apply_ch) (sym reached)
            ∙ close_ballot_quiet (record hlog { store = store }) m id b (some x) now done)

  pub check_votes-Settles :
      (hlog after : Node conf) (id : Bytes) (b : Ballot conf.Data) (now n : ℕ) (r : Bool)
      → (proposals b ≡ n) ⊎ (commits b ≡ n)
      → b.closed ≡ false
      → check_votes_and_commit conf hlog id b now ≡ some (after, r)
      → Settles hlog after id n
  unfolding check_votes_and_commit
  check_votes-Settles hlog after id b now n r full o h =
      elim (Bool-cases (Ballot.proposals b == Ballot.commits b)) [
        | inr e ↦ inl (
            ap (λ (t : Node conf × Bool). t.0.apply_ch)
              (sym (some-injective _ _ (rw (e, check_votes_and_commit) at h))))
        | inl e ↦
            let same : proposals b ≡ commits b = ground arith in
            let p : proposals b ≡ n = ground arith in
            try_commit-Settles hlog after id b now n r p (sym same ∙ p) o
              (rw (e, check_votes_and_commit) at h)
      ]
