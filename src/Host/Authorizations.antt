-- ===== src/Host/Authorizations.antt =====
-- The authorization tracker of extractions/python/contract/HostContract.py: a record for each
-- authority, and none for one that was not committed.
use evm_sail.Base.{ℕ, Bool, true, false, ◌||◌, Option, none, some}
use evm_sail.Host.Dict.{update, number_key}
use evm_sail.Host.Rows.{AuthorizationRecord}

abbrev pub Tracker : Type 0
Tracker = ℕ → Option AuthorizationRecord

unfoldable pub authorization_tracker_reset : Tracker → Tracker
authorization_tracker_reset tracker = λ address. none

unfoldable pub authorization_tracker_seen : ℕ → Tracker → Bool
authorization_tracker_seen address tracker = elim (tracker address) [
  | none ↦ false
  | some found ↦ found.seen
]

unfoldable pub authorization_tracker_originally_delegated : ℕ → Tracker → Bool
authorization_tracker_originally_delegated address tracker = elim (tracker address) [
  | none ↦ false
  | some found ↦ found.originally_delegated
]

unfoldable pub authorization_tracker_delegation_set : ℕ → Tracker → Bool
authorization_tracker_delegation_set address tracker = elim (tracker address) [
  | none ↦ false
  | some found ↦ found.delegation_set
]

-- The record that a commit leaves.
abbrev pub committed : Bool → Bool → Option AuthorizationRecord → AuthorizationRecord
committed originally_delegated delegation_set none = record {
  seen = true;
  originally_delegated = originally_delegated;
  delegation_set = delegation_set;
}
committed originally_delegated delegation_set (some found) = record found {
  seen = true;
  delegation_set = found.delegation_set || delegation_set;
}

unfoldable pub authorization_tracker_commit : ℕ → Bool → Bool → Tracker → Tracker
authorization_tracker_commit address originally_delegated delegation_set tracker =
    update tracker address (some (committed originally_delegated delegation_set (tracker address)))
