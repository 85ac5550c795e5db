-- ===== src/Leader/Highest.antt =====
-- The leader has the highest entry (`Leader` of leader.go).
use hexalog.Prelude.{
  ℕ, ◌+◌, ◌<◌, ◌≤◌, ◌≡◌, refl, ap, ◌∙◌, ◌⊎◌, inl, inr, Option, none, some, List, [], ◌∷◌, ◌++◌, ltb,
  ◌==◌, length, All, Bool-cases, arith,
}
use hexalog.Error.{ok}
use hexalog.Entry.{Entry}
use hexalog.Options.{Participant}
use hexalog.Leader.{KeyLeader, Search, look, search_max, no_search, leader_of}

abbrev pub Below : ℕ → Option Entry → Type 0
Below h none = Unit {0}
Below h (some e) = e.height < h

abbrev pub AtMost : ℕ → Option Entry → Type 0
AtMost h none = Unit {0}
AtMost h (some e) = e.height ≤ h

-- The last entries have one at this index that is higher than all before it, and as high as any
-- after it.
pub record IsFirstHighest (lasts : List (Option Entry)) (i : ℕ) : Type 0 where
  pub before : List (Option Entry)
  pub entry : Entry
  pub after : List (Option Entry)
  pub split : lasts ≡ before ++ some entry ∷ after
  pub place : i ≡ length before
  pub some_height : 0 < entry.height
  pub higher : All (Below entry.height) before
  pub highest : All (AtMost entry.height) after

unfoldable pub count_nils : List (Option Entry) → ℕ
count_nils [] = 0
count_nils (none ∷ lasts) = count_nils lasts + 1
count_nils (some e ∷ lasts) = count_nils lasts

pub search_max-nils :
    (lasts : List (Option Entry)) (i : ℕ) (s : Search)
    → (search_max lasts i s).nils ≡ s.nils + count_nils lasts
unfolding search_max look count_nils
search_max-nils [] i s = omega arith
search_max-nils (none ∷ lasts) i s = omega (arith, search_max-nils lasts (i + 1) (look none i s))
search_max-nils (some e ∷ lasts) i s =
    ground (arith, search_max-nils lasts (i + 1) (look (some e) i s))

-- What a search finds: a higher entry, or none.
record Found (lasts : List (Option Entry)) (i : ℕ) (s t : Search) : Type 0 where
  before : List (Option Entry)
  entry : Entry
  after : List (Option Entry)
  split : lasts ≡ before ++ some entry ∷ after
  max_idx : t.max_idx ≡ some (i + length before)
  more : s.max < entry.height
  higher : All (Below entry.height) before
  highest : All (AtMost entry.height) after

record Unchanged (lasts : List (Option Entry)) (s t : Search) : Type 0 where
  max_idx : t.max_idx ≡ s.max_idx
  none_higher : All (AtMost s.max) lasts

search_max-cases :
    (lasts : List (Option Entry)) (i : ℕ) (s : Search)
    → Unchanged lasts s (search_max lasts i s) ⊎ Found lasts i s (search_max lasts i s)
unfolding search_max look
search_max-cases [] i s = inl (record { max_idx = refl; none_higher = tt })
search_max-cases (none ∷ lasts) i s = elim (search_max-cases lasts (i + 1) (look none i s)) [
  | inl u ↦ inl (record { max_idx = u.max_idx; none_higher = (tt, u.none_higher) })
  | inr f ↦ inr (record {
    before = none ∷ f.before;
    entry = f.entry;
    after = f.after;
    split = ap (◌∷◌ none) f.split;
    max_idx = f.max_idx ∙ ap (λ (n : ℕ). some n) (omega arith);
    more = f.more;
    higher = (tt, f.higher);
    highest = f.highest;
  })
]
search_max-cases (some e ∷ lasts) i s = elim (Bool-cases (ltb s.max e.height)) [
  | inr h ↦ rw h (elim (search_max-cases lasts (i + 1) s) [
    | inl u ↦ inl (record { max_idx = u.max_idx; none_higher = (ground arith, u.none_higher) })
    | inr f ↦ inr (record {
      before = some e ∷ f.before;
      entry = f.entry;
      after = f.after;
      split = ap (◌∷◌ (some e)) f.split;
      max_idx = f.max_idx ∙ ap (λ (n : ℕ). some n) (omega arith);
      more = f.more;
      higher = (ground (arith, f.more), f.higher);
      highest = f.highest;
    })
  ])
  | inl h ↦
      rw h (elim (search_max-cases lasts (i + 1) (record s { max_idx = some i; max = e.height })) [
        | inl u ↦ inr (record {
          before = [];
          entry = e;
          after = lasts;
          split = refl;
          max_idx = u.max_idx ∙ ap (λ (n : ℕ). some n) (omega arith);
          more = ground arith;
          higher = tt;
          highest = u.none_higher;
        })
        | inr f ↦ inr (record {
          before = some e ∷ f.before;
          entry = f.entry;
          after = f.after;
          split = ap (◌∷◌ (some e)) f.split;
          max_idx = f.max_idx ∙ ap (λ (n : ℕ). some n) (omega arith);
          more = ground (arith, f.more);
          higher = (f.more, f.higher);
          highest = f.highest;
        })
      ])
]

count_nils-le : (lasts : List (Option Entry)) → count_nils lasts ≤ length lasts
unfolding count_nils
count_nils-le [] = omega arith
count_nils-le (none ∷ lasts) = omega (arith, count_nils-le lasts)
count_nils-le (some e ∷ lasts) = omega (arith, count_nils-le lasts)

all_nils :
    (lasts : List (Option Entry))
    → count_nils lasts ≡ length lasts
    → All (λ (e : Option Entry). e ≡ none) lasts
unfolding count_nils
all_nils [] h = tt
all_nils (none ∷ lasts) h = (refl, all_nils lasts (omega arith))
all_nils (some e ∷ lasts) h = absurd (omega (arith, count_nils-le lasts))

-- What `Leader` returns: the index of the first of the highest last entries, or index 0 if there is
-- no entry.
abbrev pub IsChosen : List (Option Entry) → ℕ → Type 0
IsChosen lasts i = ((i ≡ 0) × All (λ (e : Option Entry). e ≡ none) lasts) ⊎ IsFirstHighest lasts i

-- Where there is a last entry, or nil, for each location, a leader that is found is at the first
-- of the highest last entries, or at the first location if no location has an entry; it keeps the
-- locations and their last entries, and no key.
pub leader_of-IsChosen :
    (locs : List Participant) (lasts : List (Option Entry)) (l : KeyLeader)
    → length lasts ≡ length locs
    → leader_of locs lasts ≡ ok l
    → IsChosen lasts l.idx × (l.locs ≡ locs) × (l.lasts ≡ lasts) × (l.key ≡ none)
unfolding leader_of
leader_of-IsChosen locs lasts l n h =
    elim (Bool-cases ((search_max lasts 0 no_search).nils == length locs)) [
      | inl e ↦
          let nils : count_nils lasts ≡ length lasts =
            ground (arith, search_max-nils lasts 0 no_search) in
          (inl (ground arith, all_nils lasts nils), ground arith, ground arith, ground arith)
      | inr e ↦ elim (search_max-cases lasts 0 no_search) [
        | inl u ↦ absurd (ground (arith, u.max_idx))
        | inr f ↦ (
          inr (record {
            before = f.before;
            entry = f.entry;
            after = f.after;
            split = f.split;
            place = ground (arith, f.max_idx);
            some_height = f.more;
            higher = f.higher;
            highest = f.highest;
          }),
          ground (arith, f.max_idx),
          ground (arith, f.max_idx),
          ground (arith, f.max_idx),
        )
      ]
    ]
