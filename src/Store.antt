-- ===== src/Store.antt =====
-- Reading and writing a subscription: `queries::get_subscription`, and the writes of
-- `DataKey::Sub(id)` in charge_core.rs and subscription.rs.
use stellabill_contracts.Prelude.{ℕ, nat_eq, get, set}
use stellabill_contracts.Types.Errors.{Error}
use stellabill_contracts.Types.Records.{Subscription}
use stellabill_contracts.Host.State.{State}
use stellabill_contracts.Host.Calls.{Call, or_fail}

module _ {L : Type 0} where
  unfoldable pub get_subscription : ℕ → Call L Subscription
  get_subscription id s = or_fail (get s.subscriptions.subs id) Error.not_found s

  unfoldable pub put_subscription : ℕ → Subscription → State L → State L
  put_subscription id sub s = record s {
    subscriptions = record subscriptions { subs = set subs id sub };
  }
    where
      open s use {subscriptions}
      open subscriptions use {subs}
