-- ===== src/Blocklist.antt =====
-- contracts/subscription_vault/src/blocklist.rs: subscribers that may not subscribe or deposit.
pub mod Calls
pub mod Refusals
pub mod Rights
use stellabill_contracts.Prelude.{Bool, nat_eq, get, is_some}
use stellabill_contracts.Types.Errors.{Error}
use stellabill_contracts.Types.Records.{Address}
use stellabill_contracts.Host.State.{State}
use stellabill_contracts.Host.Calls.{Call, fail_if}

module _ {L : Type 0} where
  unfoldable pub is_blocklisted : State L → Address → Bool
  is_blocklisted s subscriber = is_some (get s.admin_store.blocked subscriber)

  unfoldable pub require_not_blocklisted : Address → Call L (Unit {0})
  unfolding is_blocklisted
  require_not_blocklisted subscriber s =
      fail_if (is_blocklisted s subscriber) Error.subscriber_blocklisted s
