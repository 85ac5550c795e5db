-- ===== src/Node/Reaping.antt =====
-- What `reapBallotsOnce` of hexalog_utils.go leaves of the ballots.
use hexalog.Prelude.{
  Bool, true, false, ltb, ◌≡◌, refl, ◌∙◌, Option, none, some, List, [], ◌∷◌, if◌then◌else◌,
  Option-cases, Bool-cases, inl, inr, arith,
}
use hexalog.Bytes.{Bytes, equal_iff}
use hexalog.Map
use hexalog.Map.{Map, among, get-keys, get-remove}
use hexalog.Ballot.{Ballot}
use hexalog.Node.{Config, Node, get_ballot, reap_keys, reap_ballots_once}

module _ (conf : Config) where
  -- One round of the loop of `reapBallots`, after its sleep; `none` where a shutdown ends it.
  unfoldable pub reap_round : Bool → Node conf → Option (Node conf)
  reap_round true hlog = none
  reap_round false hlog =
      some (if ltb 0 (Map.size hlog.ballots) then (reap_ballots_once conf hlog).0 else hlog)

  -- The ballot of a key if it is open.
  abbrev pub open_only : Option (Ballot conf.Data) → Option (Ballot conf.Data)
  open_only none = none
  open_only (some b) = if b.closed then none else some b

  get-reap_keys :
      (ballots : Map (Ballot conf.Data)) (ks : List Bytes) (j : Bytes)
      → Map.get (reap_keys conf ballots ks).0 j
        ≡ (if among j ks then open_only (Map.get ballots j) else Map.get ballots j)
  unfolding reap_keys among
  get-reap_keys ballots [] j = refl
  get-reap_keys ballots (k ∷ ks) j = elim (Option-cases (Map.get (reap_keys conf ballots ks).0 k)) [
    | inl e ↦ ground (arith, get-reap_keys ballots ks j, equal_iff k j)
    | inr (b, e) ↦ ground (
      arith,
      get-reap_keys ballots ks j,
      get-remove (reap_keys conf ballots ks).0 k j,
      equal_iff k j,
    )
  ]

  -- The reaper takes the closed ballots and leaves the open ones as they are.
  pub get_ballot-reap_ballots_once :
      (hlog : Node conf) (id : Bytes)
      → get_ballot conf (reap_ballots_once conf hlog).0 id ≡ open_only (get_ballot conf hlog id)
  unfolding get_ballot reap_ballots_once
  get_ballot-reap_ballots_once hlog id = elim (Bool-cases (among id (Map.keys hlog.ballots))) [
    | inl h ↦ get-reap_keys hlog.ballots (Map.keys hlog.ballots) id ∙ rw h refl
    | inr h ↦
        get-reap_keys hlog.ballots (Map.keys hlog.ballots) id
        ∙ ground (arith, get-keys hlog.ballots id h)
  ]
