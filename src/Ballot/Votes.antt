-- ===== src/Ballot/Votes.antt =====
-- How votes are counted (ballot.go).
use hexalog.Prelude.{
  ◌&&◌, ◌==◌, Bool-cases, inl, inr, get_elem?-set_self, in_range, ℕ, zero, suc, ◌+◌, ◌≤◌, ◌≡◌, ◌↔◌,
  refl, Bool, true, false, some, List, [], ◌∷◌, arith, if◌then◌else◌, length, get_elem?, set,
  replicate, All,
}
use hexalog.Bytes.{Bytes, equal_refl}
use hexalog.Error.{Error, ok, err}
use hexalog.Ballot.{
  running, Ballot, is_blank, count_votes, vote_propose, vote_commit, proposals, commits,
}

-- Every slot has a vote.
abbrev IsFull : List Bytes → Type 0
IsFull = All (λ v. is_blank v ≡ false)

pub count_votes-le-length : (arr : List Bytes) → count_votes arr ≤ length arr
unfolding count_votes
count_votes-le-length [] = omega arith
count_votes-le-length (v ∷ arr) = ground (arith, count_votes-le-length arr)

IsFull-of_count : (arr : List Bytes) → count_votes arr ≡ length arr → IsFull arr
unfolding count_votes
IsFull-of_count [] e = tt
IsFull-of_count (v ∷ arr) e = (
  ground (arith, count_votes-le-length arr),
  IsFull-of_count arr (ground (arith, count_votes-le-length arr)),
)

count_of_full : (arr : List Bytes) → IsFull arr → count_votes arr ≡ length arr
unfolding count_votes
count_of_full [] h = refl
count_of_full (v ∷ arr) h = ground (arith, count_of_full arr h.1, h.0)

-- There are as many votes as slots exactly when every slot has a vote.
count_votes-IsFull : (arr : List Bytes) → (count_votes arr ≡ length arr) ↔ IsFull arr
count_votes-IsFull arr = (IsFull-of_count arr, count_of_full arr)

pub count_votes-set :
    (arr : List Bytes) (i : ℕ) (v voter : Bytes)
    → get_elem? arr i ≡ some v
    → is_blank v ≡ true
    → is_blank voter ≡ false
    → count_votes (set arr i voter) ≡ count_votes arr + 1
unfolding count_votes
count_votes-set [] i v voter g b n = cc
count_votes-set (x ∷ arr) zero v voter g b n = ground arith
count_votes-set (x ∷ arr) (suc i) v voter g b n =
    ground (arith, count_votes-set arr i v voter g b n)

pub count_votes-replicate : (n : ℕ) → count_votes (replicate n []) ≡ 0
unfolding count_votes
count_votes-replicate zero = refl
count_votes-replicate (suc n) = count_votes-replicate n

abbrev pub one_if : Bool → ℕ
one_if b = if b then 1 else 0

module _ {Data : Type 0} where
  -- A proposal by a voter with a name, for the entry of an open ballot and for one of its slots, takes
  -- the slot if it is free, and otherwise changes no slot. It reports how many slots then have a vote,
  -- one more if it was free, and whether it was; the commits stay as they were; and the time to live
  -- starts if the vote is the first. Another proposal for that slot, whoever it comes from, changes
  -- nothing and reports the same number.
  pub vote_propose_once :
      (b : Ballot Data) (voter other v : Bytes) (i now later : ℕ)
      → b.closed ≡ false
      → is_blank voter ≡ false
      → get_elem? b.proposed i ≡ some v
      → let n = proposals b + one_if (is_blank v) in
        (b' : Ballot Data) × (vote_propose b b.fentry.id voter i now
          ≡ some (b', ok (n, is_blank v)))
        × (b'.proposed ≡ (if is_blank v then set b.proposed i voter else b.proposed))
        × (proposals b' ≡ n)
        × (b'.committed ≡ b.committed)
        × (b'.timer ≡ (if is_blank v && (n == 1) then running else b.timer))
        × (vote_propose b' b.fentry.id other i later ≡ some (b', ok (n, false)))
  unfolding vote_propose proposals
  vote_propose_once b voter other v i now later o named at = elim (Bool-cases (is_blank v)) [
    | inr taken ↦ (
      b,
      ground (arith, equal_refl b.fentry.id),
      ground arith,
      ground arith,
      refl,
      ground arith,
      ground (arith, equal_refl b.fentry.id),
    )
    | inl free ↦
        let more = count_votes-set b.proposed i v voter at free named in
        let there = get_elem?-set_self b.proposed i voter (in_range b.proposed i v at) in
        let cast = record b { proposed = set b.proposed i voter } in
        let b' : Ballot Data =
          if count_votes b.proposed + 1 == 1
          then record cast { dispatched = some now; timer = running }
          else cast in
        (
          b',
          ground (arith, equal_refl b.fentry.id, more),
          ground arith,
          ground (arith, more),
          ground arith,
          ground arith,
          ground (arith, equal_refl b.fentry.id, more, there),
        )
  ]

  -- A commit of a voter with a name that goes through reports the commits that the ballot then
  -- has: one more if the slot of the vote was free, and as many as before if it was not. The
  -- proposals stay as they were.
  vote_commit_count :
      (b b' : Ballot Data) (id voter : Bytes) (i n : ℕ) (voted : Bool)
      → is_blank voter ≡ false
      → vote_commit b id voter i ≡ some (b', ok (n, voted))
      → (n ≡ commits b') × (commits b' ≡ commits b + one_if voted) × (b'.proposed ≡ b.proposed)
  unfolding vote_commit commits
  vote_commit_count b b' id voter i n voted h e =
      ground (arith, count_votes-set b.committed i [] voter)

  -- A vote that goes through was cast on an open ballot, and reports its count.
  pub vote_propose_ok :
      (b b' : Ballot Data) (id voter : Bytes) (i now n : ℕ) (voted : Bool)
      → vote_propose b id voter i now ≡ some (b', ok (n, voted))
      → (n ≡ proposals b') × (b'.closed ≡ false)
  unfolding vote_propose proposals
  vote_propose_ok b b' id voter i now n voted e = ground arith

  pub vote_commit_ok :
      (b b' : Ballot Data) (id voter : Bytes) (i n : ℕ) (voted : Bool)
      → vote_commit b id voter i ≡ some (b', ok (n, voted))
      → (n ≡ commits b') × (b'.closed ≡ false)
  unfolding vote_commit commits
  vote_commit_ok b b' id voter i n voted e = ground arith

  -- A commit that is refused leaves the ballot as it is.
  pub vote_commit_err :
      (b b' : Ballot Data) (id voter : Bytes) (i : ℕ) (x : Error)
      → vote_commit b id voter i ≡ some (b', err x)
      → b' ≡ b
  unfolding vote_commit
  vote_commit_err b b' id voter i x e = ground arith

  pub vote_commit_closed :
      (b b' : Ballot Data) (id voter : Bytes) (i n : ℕ) (voted : Bool)
      → b.closed ≡ true
      → vote_commit b id voter i ≡ some (b', ok (n, voted))
      → ⊥
  unfolding vote_commit
  vote_commit_closed b b' id voter i n voted c e = ground arith
