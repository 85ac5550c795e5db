-- ===== src/Tests/Leaders.antt =====
-- Two nodes that hold a key, one of them an entry ahead.
use hexalog.Prelude.{◌≡◌, refl, true, Option, none, some, List, [], ◌∷◌, All, get_elem?, pos}
use hexalog.Bytes.{equal, big_endian}
use hexalog.Error.{ok}
use hexalog.Entry.{Entry, encode, hash}
use hexalog.Options.{Participant}
use hexalog.Leader.{KeyLeader, look, search_max, leader_of, first_other, is_consistent}
use hexalog.Leader.Highest.{IsChosen, leader_of-IsChosen}
use hexalog.Leader.Agreement.{Agrees, is_consistent-Agrees, is_consistent-no_entries}
use hexalog.Tests.Data.{toy_hasher, entry_1, peers, checksum}
use hexalog.Tests.Logs.{entry_2}

abbrev ahead : List (Option Entry)
ahead = some entry_1 ∷ some entry_2 ∷ []

abbrev second : KeyLeader
second = record { key = none; idx = 1; locs = peers; lasts = ahead }

finds : leader_of peers ahead ≡ ok second
unfolding leader_of search_max look
finds = refl

leader_of-IsChosen_example :
    IsChosen ahead 1 × (peers ≡ peers) × (ahead ≡ ahead) × (second.key ≡ none)
leader_of-IsChosen_example = leader_of-IsChosen peers ahead second refl finds

abbrev level : KeyLeader
level = record { key = none; idx = 0; locs = peers; lasts = some entry_1 ∷ some entry_1 ∷ [] }

abbrev pub host_at : Option Participant → Participant
host_at none = record { id = []; host = []; priority = pos 0; index = pos 0 }
host_at (some p) = p

agrees : is_consistent toy_hasher level ≡ some (true, host_at (get_elem? peers 0))
unfolding is_consistent first_other hash encode big_endian checksum equal
agrees = refl

is_consistent-Agrees_example :
    (e : Entry) × (get_elem? level.lasts 0 ≡ some (some e))
    × All (Agrees toy_hasher (hash toy_hasher e)) level.lasts
    × (get_elem? peers 0 ≡ some (host_at (get_elem? peers 0)))
is_consistent-Agrees_example =
    is_consistent-Agrees toy_hasher level (host_at (get_elem? peers 0)) agrees

is_consistent-no_entries_example :
    (l : KeyLeader) × (leader_of peers (none ∷ none ∷ []) ≡ ok l)
    × (l.idx ≡ 0)
    × (is_consistent toy_hasher l ≡ none)
is_consistent-no_entries_example =
    is_consistent-no_entries toy_hasher peers (none ∷ none ∷ []) refl (refl, (refl, tt))
