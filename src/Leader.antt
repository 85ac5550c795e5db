-- ===== src/Leader.antt =====
-- leader.go: which of the nodes that hold a key has its highest entry, and whether they agree.
-- `none` as the result of a method is a run-time panic.
pub mod Highest
pub mod Agreement
pub mod Consistency
use hexalog.Prelude.{
  ℕ, ◌+◌, ◌≡◌, refl, Bool, true, false, Option, none, some, List, [], ◌∷◌, map, ltb, ◌==◌,
  if◌then◌else◌, length, get_elem?, ◌>>=◌, arith,
}
use hexalog.Bytes.{Bytes, equal}
use hexalog.Error.{Error, Result, ok, err, no_max_height}
use hexalog.Entry.{Entry, Hasher, hash}
use hexalog.LogStore
use hexalog.Options.{Participant}
use hexalog.Node.{Config, Node}

-- `key` is never set, and stays nil.
pub record KeyLeader : Type 0 where
  pub key : Option Bytes
  pub idx : ℕ
  pub locs : List Participant
  pub lasts : List (Option Entry)

-- The variables `maxIdx`, which is -1 at first, `max` and `nils`.
pub record Search : Type 0 where
  pub max_idx : Option ℕ
  pub max : ℕ
  pub nils : ℕ

unfoldable pub look : Option Entry → ℕ → Search → Search
look none i s = record s { nils = s.nils + 1 }
look (some last) i s =
    if ltb s.max last.height then record s { max_idx = some i; max = last.height } else s

unfoldable pub search_max : List (Option Entry) → ℕ → Search → Search
search_max [] i s = s
search_max (last ∷ lasts) i s = search_max lasts (i + 1) (look last i s)

abbrev pub no_search : Search
no_search = record { max_idx = none; max = 0; nils = 0 }

-- The second half of `Leader`, given the last entries.
unfoldable pub leader_of : List Participant → List (Option Entry) → Result KeyLeader
leader_of locs lasts =
    let found = search_max lasts 0 no_search in
    if found.nils == length locs
    then ok (record { key = none; idx = 0; locs = locs; lasts = lasts })
    else elim found.max_idx [
      | none ↦ err no_max_height
      | some i ↦ ok (record { key = none; idx = i; locs = locs; lasts = lasts })
    ]

-- What a peer answers, nil if the call fails.
abbrev answer : Result (Option Entry) → Option Entry
answer (ok entry) = entry
answer (err x) = none

module _ (conf : Config) where
  -- `ask` is the transport's `LastEntry` for the key, by host.
  last_at : Node conf → Bytes → (Bytes → Result (Option Entry)) → Participant → Option Entry
  last_at hlog key ask loc =
      if equal loc.host conf.advertise_host
      then LogStore.last_entry conf.entry_store conf.hasher hlog.store key
      else answer (ask loc.host)

  unfoldable pub leader :
      Node conf → Bytes → List Participant → (Bytes → Result (Option Entry)) → Result KeyLeader
  unfolding last_at
  leader hlog key locs ask = leader_of locs (map (last_at hlog key ask) locs)

-- Whether the last entry of a location is another than the one with this id.
abbrev pub differs : Hasher → Bytes → Option Entry → Bool
differs hasher id none = true
differs hasher id (some ent) = if equal id (hash hasher ent) then false else true

-- The loop of `IsConsistent`: the first index, but that of the leader, with another entry.
unfoldable pub first_other : Hasher → Bytes → ℕ → List (Option Entry) → ℕ → Option ℕ
first_other hasher id idx [] i = none
first_other hasher id idx (ent ∷ lasts) i =
    let rest = first_other hasher id idx lasts (i + 1) in
    if i == idx then rest else if differs hasher id ent then some i else rest

-- `Hash` on a nil entry panics.
unfoldable pub is_consistent : Hasher → KeyLeader → Option (Bool × Participant)
is_consistent hasher l = elim (get_elem? l.lasts l.idx) [
  | none ↦ none
  | some none ↦ none
  | some (some last) ↦ elim (first_other hasher (hash hasher last) l.idx l.lasts 0) [
    | some i ↦ do loc ← get_elem? l.locs i; some (false, loc)
    | none ↦ do loc ← get_elem? l.locs l.idx; some (true, loc)
  ]
]

unfoldable pub location : KeyLeader → Option Participant
location l = get_elem? l.locs l.idx

unfoldable pub last_entry : KeyLeader → Option (Option Entry)
last_entry l = get_elem? l.lasts l.idx
