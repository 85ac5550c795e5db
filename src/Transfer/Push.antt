-- ===== src/Transfer/Push.antt =====
-- What a push brings (`PushKeylogRPC` of net.go).
use hexalog.Prelude.{ℕ, ◌≡◌, refl, List, [], ◌∷◌, All}
use hexalog.Error.{err, entry_not_found}
use hexalog.Future.{FutureEntry}
use hexalog.Keylog.{Keylog, get_entry}
use hexalog.Node.{Config}
use hexalog.Transfer.{Message, accept_all, accept_message}

module _ (conf : Config) where
  -- The receiver of a push takes none of the entries that it does not have: if no id of the messages
  -- is in its store, the keylog and the queue of the application's machine stay as they were.
  pub accept_all-missing :
      (keylog : Keylog conf.entry_store) (queue : List (FutureEntry conf.Data))
      (msgs : List Message) (now : ℕ)
      → All (λ (m : Message). conf.entry_store.get keylog.entries m.id ≡ err entry_not_found) msgs
      → accept_all conf keylog queue msgs now ≡ (keylog, queue)
  unfolding accept_all get_entry
  accept_all-missing keylog queue [] now h = refl
  accept_all-missing keylog queue (m ∷ msgs) now h =
      rw (h.0, accept_message) (accept_all-missing keylog queue msgs now h.1)
