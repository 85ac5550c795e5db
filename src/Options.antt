-- ===== src/Options.antt =====
-- request_options.go, and the messages `Participant`, `RequestOptions` and `ReqResp` of rpc.proto. A
-- nil and an empty list of peers are the same here; the one place that tells them apart, in
-- `checkOptions`, refuses both unless the configuration asks for no votes at all.
use hexalog.Prelude.{ℤ, pos, negsuc, Bool, false, Option, none, List, [], get_elem?}
use hexalog.Bytes.{Bytes}
use hexalog.Entry.{Entry}

pub record Participant : Type 0 where
  pub id : Bytes
  pub host : Bytes
  pub priority : ℤ
  pub index : ℤ

pub record RequestOptions : Type 0 where
  pub source_index : ℤ
  pub peer_set : List Participant
  pub wait_ballot : Bool
  pub wait_apply : Bool
  pub wait_apply_timeout : ℤ

pub record ReqResp : Type 0 where
  pub id : Option Bytes
  pub entry : Option Entry
  pub options : Option RequestOptions

unfoldable pub default_request_options : RequestOptions
default_request_options = record {
  source_index = pos 0;
  peer_set = [];
  wait_ballot = false;
  wait_apply = false;
  wait_apply_timeout = pos 2000;
}

-- Only the source index and the peers are carried over.
unfoldable pub clone_with_source_index : RequestOptions → ℤ → RequestOptions
clone_with_source_index o idx = record {
  source_index = idx;
  peer_set = o.peer_set;
  wait_ballot = false;
  wait_apply = false;
  wait_apply_timeout = pos 0;
}

-- Where an index points into a slice; `none` is out of range.
abbrev pub at_index {ℓ} : {A : Type ℓ} → List A → ℤ → Option A
at_index xs (pos i) = get_elem? xs i
at_index xs (negsuc i) = none

-- A source index out of range panics.
unfoldable pub source_peer : RequestOptions → Option Participant
source_peer o = at_index o.peer_set o.source_index
