-- ===== src/Tests/Data.antt =====
-- A small hash function, and entries and peers of a cluster of two nodes.
use hexalog.Prelude.{ℕ, ◌+◌, ◌*◌, ◌%◌, refl, false, some, List, [], ◌∷◌, arith, pos}
use hexalog.Bytes.{Bytes, is_zero_bytes}
use hexalog.Entry.{Entry, Hasher}
use hexalog.EntryStore.InMem.{in_mem_entry_store}
use hexalog.Clock.{LamportClock}
use hexalog.Options.{Participant, RequestOptions}
use hexalog.Node.{Config}
use hexalog.Keylog.Chain.Distinct.{NeverZero}

unfoldable pub checksum : ℕ → Bytes → ℕ
checksum acc [] = acc
checksum acc (x ∷ b) = checksum ((acc * 31 + x) % 251) b

abbrev pub toy_sum : Bytes → Bytes
toy_sum b = (checksum 7 b + 1) ∷ []

-- Ids of one byte, never zero.
abbrev pub toy_hasher : Hasher
toy_hasher = record { size = 1; sum = toy_sum; length-sum = λ b. refl }

pub toy_hasher-NeverZero : NeverZero toy_hasher
unfolding is_zero_bytes
toy_hasher-NeverZero b = ground arith

abbrev pub counter : LamportClock
counter = record {
  Clock = ℕ;
  time = λ c. c;
  increment = λ c. c + 1;
  witness = λ c t. c + t + 1;
  increment_grows = λ c. omega arith;
  witness_grows = λ c t. omega arith;
  witness_passes = λ c t. omega arith;
}

abbrev pub host_a : Bytes
host_a = 97 ∷ []

abbrev pub host_b : Bytes
host_b = 98 ∷ []

abbrev pub conf : Config
conf = record {
  advertise_host = host_a;
  votes = 2;
  hasher = toy_hasher;
  entry_store = in_mem_entry_store;
  lamport_clock = counter;
  Data = ℕ;
}

abbrev pub key : Bytes
key = 107 ∷ []

abbrev pub entry_1 : Entry
entry_1 = record {
  key = key;
  previous = some (0 ∷ []);
  height = 1;
  timestamp = 1000;
  ltime = 3;
  payload = 1 ∷ 2 ∷ [];
}

abbrev pub peers : List Participant
peers =
    record { id = 1 ∷ []; host = host_a; priority = pos 0; index = pos 0 }
    ∷ record { id = 2 ∷ []; host = host_b; priority = pos 1; index = pos 1 }
    ∷ []

-- A request that comes from the second peer.
abbrev pub from_b : RequestOptions
from_b = record {
  source_index = pos 1;
  peer_set = peers;
  wait_ballot = false;
  wait_apply = false;
  wait_apply_timeout = pos 0;
}
