-- ===== src/Tests/Refinements.antt =====
-- A log store that starts empty, and commands to it.
use hexalog.Prelude.{◌≡◌, refl, List, [], ◌∷◌, arith}
use hexalog.Bytes.{Bytes}
use hexalog.Entry.{Entry}
use hexalog.EntryStore.InMem.{in_mem_entry_store}
use hexalog.EntryStore.InMem
use hexalog.LogStore.Appending.{TakesAll}
use hexalog.LogStore.Spec.{Command, creates, appends, rolls_back, removes, spec_all, obey_all, view}
use hexalog.LogStore.Spec.Shrinking.{DropsHeld}
use hexalog.LogStore.Spec.Refinement.{IsGood, obey_all-spec}
use hexalog.Map
use hexalog.Tests.Data.{toy_hasher, toy_hasher-NeverZero, key, entry_1}
use hexalog.Tests.Logs.{no_logs, no_logs-IsSound}

abbrev commands : List Command
commands =
    creates key
    ∷ creates key
    ∷ appends entry_1
    ∷ rolls_back entry_1
    ∷ removes key
    ∷ creates key
    ∷ appends entry_1
    ∷ appends entry_1
    ∷ removes key
    ∷ []

abbrev named : Bytes → Entry
named id = entry_1

in_mem-TakesAll : TakesAll in_mem_entry_store
unfolding InMem.set
in_mem-TakesAll s id e = refl

in_mem-DropsHeld : DropsHeld in_mem_entry_store
unfolding InMem.get InMem.delete
in_mem-DropsHeld s id e h = ground arith

no_logs-IsGood : IsGood in_mem_entry_store toy_hasher named no_logs
unfolding InMem.get InMem.new Map.get Map.empty
no_logs-IsGood = record { sound = no_logs-IsSound; agrees = λ id e h. cc }

obey_all-spec_example :
    (view in_mem_entry_store toy_hasher (obey_all in_mem_entry_store toy_hasher no_logs commands).0
      ≡ (spec_all toy_hasher (view in_mem_entry_store toy_hasher no_logs) commands).0)
    × ((obey_all in_mem_entry_store toy_hasher no_logs commands).1
        ≡ (spec_all toy_hasher (view in_mem_entry_store toy_hasher no_logs) commands).1)
    × IsGood in_mem_entry_store toy_hasher named
        (obey_all in_mem_entry_store toy_hasher no_logs commands).0
obey_all-spec_example =
    obey_all-spec in_mem_entry_store toy_hasher named no_logs commands toy_hasher-NeverZero
      in_mem-TakesAll in_mem-DropsHeld
      (tt, (tt, (refl, (tt, (tt, (tt, (refl, (refl, (tt, tt))))))))) no_logs-IsGood
