-- ===== src/Heal/CatchUp.antt =====
-- What a node has after the pull of `checkLastEntryOrPull` (hexalog_utils.go).
use hexalog.Prelude.{none, some}
use hexalog.Bytes.{Bytes}
use hexalog.Entry.{Entry}
use hexalog.IndexStore
use hexalog.Keylog
use hexalog.LogStore
use hexalog.Node.{Config, Node}
use hexalog.Transfer.{pull_keylog_rpc}
use hexalog.Heal.{Pull}

module _ (conf : Config) where
  -- What another node sends, if the stream ends regularly.
  abbrev pub served_by : Node conf → Pull conf
  served_by remote host id ent = ((pull_keylog_rpc conf remote id (some ent)).0, none)
