-- ===== src/Heal.antt =====
-- heal.go, and `checkLastEntryOrPull` of hexalog_utils.go: how a node fetches what it lacks of a key.
-- `ask` is the transport's `LastEntry` for the key, by host; `pull` is what a host sends on the stream
-- of a pull, by the id to start at and the entry of the request, with the error that ends it. `none`
-- is a run-time panic.
pub mod CatchUp
pub mod Seeding
use hexalog.Prelude.{ℕ, Option, none, some, List, [], ◌>>=◌, if◌then◌else◌}
use hexalog.Bytes.{Bytes, equal, zero_bytes}
use hexalog.Error.{Error, Result, ok, err, merge_errors}
use hexalog.Entry.{Entry, hash}
use hexalog.Keylog
use hexalog.LogStore
use hexalog.Options.{Participant}
use hexalog.Node.{Config, Node, is_key_not_found}
use hexalog.Leader.{leader, is_consistent, location, last_entry}
use hexalog.Transfer.{Message, pull_request, pull_keylog}

-- `&Entry{Key: key}`
abbrev pub blank : Bytes → Entry
blank key = record {
  key = key;
  previous = none;
  height = 0;
  timestamp = 0;
  ltime = 0;
  payload = [];
}

module _ (conf : Config) where
  abbrev pub Pull : Type 0
  Pull = Bytes → Option Bytes → Entry → List Message × Option Error

  -- The end of `checkLastEntryOrPull`, given the local last entry and its id.
  fetch : Node conf → Bytes → Entry → Bytes → Bytes → Pull → ℕ → Node conf × Option Error
  fetch hlog host last lid other_last pull now =
      if equal lid other_last
      then (hlog, none)
      else (let (msgs, ending) = pull host (pull_request conf last) last in
          let (hlog', _, er) = pull_keylog conf hlog msgs ending now in
          (hlog', merge_errors none er))

  -- A key that the node does not have is created first.
  create_and_fetch : Node conf → Bytes → Bytes → Bytes → Pull → ℕ → Node conf × Option Error
  unfolding fetch
  create_and_fetch hlog host key other_last pull now =
      let (store, r) = LogStore.new_key conf.entry_store conf.hasher hlog.store key in
      let hlog' = record hlog { store = store } in
      elim r [
        | err x ↦ (hlog', some x)
        | ok keylog ↦ fetch hlog' host (blank key) (zero_bytes conf.hasher.size) other_last pull now
      ]

  unfoldable pub check_last_entry_or_pull :
      Node conf → Bytes → Bytes → Bytes → Pull → ℕ → Node conf × Option Error
  unfolding fetch create_and_fetch
  check_last_entry_or_pull hlog host key other_last pull now =
      elim (LogStore.get_key conf.entry_store conf.hasher hlog.store key) [
        | err x ↦
            if is_key_not_found x
            then create_and_fetch hlog host key other_last pull now
            else (hlog, some x)
        | ok keylog ↦ elim (Keylog.last_entry conf.entry_store conf.hasher keylog) [
          | none ↦ fetch hlog host (blank key) (zero_bytes conf.hasher.size) other_last pull now
          | some last ↦ fetch hlog host last (hash conf.hasher last) other_last pull now
        ]
      ]

  -- The end of `heal`: the second search only says in the log whether the key is consistent.
  report :
      Node conf
      → Bytes
      → List Participant
      → (Bytes → Result (Option Entry))
      → Option (Node conf × Option Error)
  report hlog key locs ask = elim (leader conf hlog key locs ask) [
    | err x ↦ some (hlog, none)
    | ok l ↦ do answer ← is_consistent conf.hasher l; some (hlog, none)
  ]

  -- `heal` once the leader's location and its last entry are known.
  heal_from :
      Node conf
      → Bytes
      → List Participant
      → Participant
      → Entry
      → (Bytes → Result (Option Entry))
      → Pull
      → ℕ
      → Option (Node conf × Option Error)
  unfolding report
  heal_from hlog key locs lloc lle ask_again pull now =
      if equal lloc.host conf.advertise_host
      then some (hlog, none)
      else (let (hlog', e) =
            check_last_entry_or_pull hlog lloc.host key (hash conf.hasher lle) pull now in
          elim e [ some x ↦ some (hlog', some x) | none ↦ report hlog' key locs ask_again ])

  -- `ask` is what the peers answer at first, and `ask_again` what they answer after the pull.
  unfoldable pub heal_key :
      Node conf
      → Bytes
      → List Participant
      → (Bytes → Result (Option Entry))
      → (Bytes → Result (Option Entry))
      → Pull
      → ℕ
      → Option (Node conf × Option Error)
  unfolding heal_from
  heal_key hlog key locs ask ask_again pull now = elim (leader conf hlog key locs ask) [
    | err x ↦ some (hlog, some x)
    | ok l ↦ do
      last ← last_entry l
      elim last [
        | none ↦ some (hlog, none)
        | some lle ↦ do lloc ← location l; heal_from hlog key locs lloc lle ask_again pull now
      ]
  ]
