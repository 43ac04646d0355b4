-- ===== src/Subscription/OneOff.antt =====
-- `do_charge_one_off` of subscription.rs: a charge that the merchant starts outside the schedule.
use stellabill_contracts.Prelude.{
  ℕ, ℤ, pos, Option, none, some, not, ◌==◌, ◌&&◌, nat_eq, leb_ℤ, ltb_ℤ, if◌then◌else◌,
}
use stellabill_contracts.Types.Errors.{Error}
use stellabill_contracts.Types.Records.{
  Address, Subscription, SubscriptionStatus, BillingChargeKind, status_eq,
}
use stellabill_contracts.Types.Events.{lifetime_cap_reached, one_off_charged}
use stellabill_contracts.Host.State.{Env}
use stellabill_contracts.Host.Calls.{
  Call, ◌>>=◌, ◌>>◌, pure, fail, modify, fail_if, lift, publish, require_auth,
}
use stellabill_contracts.SafeMath.{safe_add, safe_sub}
use stellabill_contracts.StateMachine.{validate_status_transition}
use stellabill_contracts.Store.{get_subscription, put_subscription}
use stellabill_contracts.Merchant.{credit_merchant_balance_for_token}
use stellabill_contracts.Statements.{append_statement}
use stellabill_contracts.ChargeCore.Guards.{
  exhausted_cap, expiration_guard, cancel_exhausted, cancel_at_cap,
}

-- The cap, where the new total of charges exceeds it.
unfoldable pub surpassed_cap : Subscription → ℤ → Option ℤ
surpassed_cap sub new_charged = elim sub.lifetime_cap [
  | none ↦ none
  | some cap ↦ if ltb_ℤ cap new_charged then some cap else none
]

module _ {L : Type 0} (env : Env L) where
  -- A cap that is used up stops the charge.
  unfoldable pub stop_at_exhausted : ℕ → Subscription → Option ℤ → Call L (Unit {0})
  unfolding cancel_exhausted
  stop_at_exhausted id sub none = pure tt
  stop_at_exhausted id sub (some cap) = do
    cancel_exhausted id env.timestamp sub cap
    fail Error.lifetime_cap_reached

  unfoldable pub stop_at_surpassed : ℕ → Subscription → Option ℤ → Call L (Unit {0})
  unfolding cancel_at_cap
  stop_at_surpassed id sub none = pure tt
  stop_at_surpassed id sub (some cap) = do
    cancel_at_cap id env.timestamp sub cap
    fail Error.lifetime_cap_reached

  -- A charge that uses up the cap cancels the subscription.
  unfoldable pub close_at_cap : ℕ → Subscription → Option ℤ → Call L Subscription
  unfolding validate_status_transition publish
  close_at_cap id sub none = pure sub
  close_at_cap id sub (some cap) = do
    lift (validate_status_transition sub.status SubscriptionStatus.cancelled)
    publish (lifetime_cap_reached id cap sub.lifetime_charged env.timestamp)
    pure (record sub { status = SubscriptionStatus.cancelled })

  unfoldable pub take_one_off : ℕ → ℤ → ℤ → Subscription → Call L (Unit {0})
  unfolding safe_sub exhausted_cap close_at_cap put_subscription append_statement publish
  take_one_off id amount new_charged sub = do
    balance ← lift (safe_sub sub.prepaid_balance amount)
    credit_merchant_balance_for_token sub.merchant sub.token amount BillingChargeKind.one_off
    let charged : Subscription = record sub {
      lifetime_charged = new_charged;
      prepaid_balance = balance;
    }
    closed ← close_at_cap id charged (exhausted_cap charged)
    modify (put_subscription id closed)
    append_statement env id amount sub.merchant BillingChargeKind.one_off env.timestamp
        env.timestamp
    publish (one_off_charged id sub.subscriber sub.merchant sub.token amount balance env.timestamp)

  unfoldable pub do_charge_one_off : ℕ → Address → ℤ → Call L (Unit {0})
  unfolding require_auth get_subscription expiration_guard exhausted_cap stop_at_exhausted safe_add
      surpassed_cap stop_at_surpassed take_one_off
  do_charge_one_off id merchant amount = do
    require_auth env merchant
    sub ← get_subscription id
    expiration_guard id env.timestamp sub
    fail_if (not (sub.merchant == merchant)) Error.unauthorized
    stop_at_exhausted id sub (exhausted_cap sub)
    fail_if
        (not (sub.status == SubscriptionStatus.active)
          && not (sub.status == SubscriptionStatus.paused))
        Error.not_active
    fail_if (leb_ℤ amount (pos 0)) Error.invalid_amount
    fail_if (ltb_ℤ sub.prepaid_balance amount) Error.insufficient_prepaid_balance
    new_charged ← lift (safe_add sub.lifetime_charged amount)
    stop_at_surpassed id sub (surpassed_cap sub new_charged)
    take_one_off id amount new_charged sub
