-- ===== src/ChargeCore/Interval.antt =====
-- `charge_one` of charge_core.rs, in the order of its steps.
pub mod Steps
pub mod Conserved
pub mod Conservation
pub mod Once
use stellabill_contracts.Prelude.{
  ℕ, ◌+◌, ◌-◌, ℤ, pos, Bool, true, false, Option, none, some, not, ◌==◌, ◌||◌, ◌&&◌, nat_eq, ltb,
  leb, leb_ℤ, ltb_ℤ, if◌then◌else◌, checked_add_u64, get, set, saturating_sub,
}
use Prim.Native.Nat.{bit_or}
use stellabill_contracts.Types.Errors.{Error}
use stellabill_contracts.Types.Records.{
  Address, Subscription, SubscriptionStatus, ChargeExecutionResult, BillingChargeKind,
  snapshot_flag_closed, snapshot_flag_interval_charged, status_eq,
}
use stellabill_contracts.Types.Events.{
  subscription_charged, charge_failed, protocol_fee_charged, lifetime_cap_reached,
}
use stellabill_contracts.Host.State.{State, Env}
use stellabill_contracts.Host.Calls.{
  Call, Result, ok, err, trap, ◌>>=◌, ◌>>◌, pure, fail, abort, gets, modify, fail_if, when, or_fail,
  lift, publish,
}
use stellabill_contracts.SafeMath.{safe_sub_balance, or_else}
use stellabill_contracts.StateMachine.{validate_status_transition}
use stellabill_contracts.Store.{get_subscription, put_subscription}
use stellabill_contracts.Admin.{get_protocol_fee_bps, get_treasury, get_grace_period}
use stellabill_contracts.Merchant.{get_merchant_paused, credit_merchant_balance_for_token}
use stellabill_contracts.Oracle.{resolve_charge_amount}
use stellabill_contracts.Statements.{append_statement}
use stellabill_contracts.PeriodSnapshots.{write_period_snapshot}
use stellabill_contracts.ChargeCore.Guards.{
  exhausted_cap, exceeded_cap, expiration_guard, cancel_at_cap, cancel_exhausted,
}
use stellabill_contracts.ChargeCore.Period.{
  Period, next_charge_time, period_at, split_fee, paid_subscription,
}

unfoldable pub same_key : Option ℕ → Option ℕ → Bool
same_key (some k) (some stored) = stored == k
same_key none _ = false
same_key (some k) none = false

unfoldable pub already_charged : Option ℕ → ℕ → Bool
already_charged none index = false
already_charged (some stored) index = leb index stored

module _ {L : Type 0} where
  unfoldable pub set_charged_period : ℕ → ℕ → State L → State L
  set_charged_period id index s = record s {
    billing = record billing { charged_period = set charged_period id index };
  }
    where
      open s use {billing}
      open billing use {charged_period}

  unfoldable pub set_idem_key : ℕ → Option ℕ → State L → State L
  set_idem_key id none s = s
  set_idem_key id (some k) s = record s {
    billing = record billing { idem_key = set idem_key id k };
  }
    where
      open s use {billing}
      open billing use {idem_key}

  unfoldable pub publish_cap : ℕ → ℕ → Option ℤ → ℤ → Call L (Unit {0})
  unfolding publish
  publish_cap id now none charged = pure tt
  publish_cap id now (some cap) charged = publish (lifetime_cap_reached id cap charged now)

module _ {L : Type 0} (env : Env L) where
  unfoldable pub credit_treasury : ℕ → ℕ → Address → Option Address → ℤ × ℤ → Call L (Unit {0})
  unfolding publish
  credit_treasury id now token none (net, fee) = pure tt
  credit_treasury id now token (some treasury) (net, fee) = when (ltb_ℤ (pos 0) fee) (do
    credit_merchant_balance_for_token treasury token fee BillingChargeKind.interval
    publish (protocol_fee_charged id treasury fee net now))

  unfoldable pub pay_shares : ℕ → ℕ → Subscription → ℤ → Call L (Unit {0})
  unfolding get_protocol_fee_bps get_treasury split_fee credit_treasury
  pay_shares id now sub amount = do
    fee_bps ← gets get_protocol_fee_bps
    treasury ← gets get_treasury
    let shares = split_fee amount fee_bps treasury
    credit_merchant_balance_for_token sub.merchant sub.token shares.0 BillingChargeKind.interval
    credit_treasury id now sub.token treasury shares

  -- Everything that a charge writes after the subscription itself.
  unfoldable pub record_charge :
      ℕ → ℕ → Option ℕ → Subscription → ℤ → Period → ℕ → Call L (Unit {0})
  unfolding set_charged_period set_idem_key publish
  record_charge id now key sub amount period next_allowed = do
    append_statement env id amount sub.merchant BillingChargeKind.interval
        (next_allowed - sub.interval_seconds) now
    write_period_snapshot (record {
      subscription_id = id;
      period_index = period.index;
      period_start = next_allowed - sub.interval_seconds;
      period_end = now;
      total_charged = amount;
      total_usage_units = pos 0;
      status_flags = bit_or snapshot_flag_closed snapshot_flag_interval_charged;
      finalized_at = now;
    })
    modify (set_charged_period id period.index)
    modify (set_idem_key id key)
    publish (
        subscription_charged id sub.subscriber sub.merchant sub.token amount sub.lifetime_charged
          now period.start period.finish)

  unfoldable pub charge_paid :
      ℕ → ℕ → Option ℕ → Subscription → ℤ → Period → ℕ → ℤ → Call L ChargeExecutionResult
  unfolding pay_shares paid_subscription put_subscription record_charge publish_cap exhausted_cap
  charge_paid id now key sub amount period next_allowed new_balance = do
    pay_shares id now sub amount
    paid ← lift (paid_subscription sub new_balance amount period.start)
    modify (put_subscription id paid)
    record_charge id now key paid amount period next_allowed
    publish_cap id now (exhausted_cap paid) paid.lifetime_charged
    pure ChargeExecutionResult.charged

  unfoldable pub underfunded_status : ℕ → ℕ → ℕ → SubscriptionStatus
  underfunded_status grace_duration grace_expires now =
      if ltb 0 grace_duration && ltb now grace_expires
      then SubscriptionStatus.grace_period
      else SubscriptionStatus.insufficient_balance

  unfoldable pub charge_unpaid : ℕ → ℕ → Subscription → ℤ → Call L ChargeExecutionResult
  unfolding get_grace_period checked_add_u64 underfunded_status validate_status_transition
      put_subscription saturating_sub publish
  charge_unpaid id now sub amount = do
    grace_duration ← gets get_grace_period
    due ← or_fail (checked_add_u64 sub.last_payment_timestamp sub.interval_seconds) Error.overflow
    grace_expires ← or_fail (checked_add_u64 due grace_duration) Error.overflow
    let target = underfunded_status grace_duration grace_expires now
    when (not (sub.status == target)) (lift (validate_status_transition sub.status target))
    modify (put_subscription id (record sub { status = target }))
    let missing = saturating_sub amount sub.prepaid_balance
    publish (
        charge_failed id sub.merchant amount sub.prepaid_balance
          (if ltb_ℤ missing (pos 0) then pos 0 else missing) target now)
    pure ChargeExecutionResult.insufficient_balance

  -- The match on `safe_sub_balance`.
  unfoldable pub settle :
      ℕ → ℕ → Option ℕ → Subscription → ℤ → Period → ℕ → Result ℤ → Call L ChargeExecutionResult
  unfolding charge_paid charge_unpaid
  settle id now key sub amount period next_allowed (ok new_balance) =
      charge_paid id now key sub amount period next_allowed new_balance
  settle id now key sub amount period next_allowed (err e) = charge_unpaid id now sub amount
  settle id now key sub amount period next_allowed trap = abort

  unfoldable pub charge_within_cap :
      ℕ → ℕ → Option ℕ → Subscription → ℤ → Period → ℕ → Option ℤ → Call L ChargeExecutionResult
  unfolding cancel_at_cap settle safe_sub_balance
  charge_within_cap id now key sub amount period next_allowed (some cap) = do
    cancel_at_cap id now sub cap
    pure ChargeExecutionResult.lifetime_cap_reached
  charge_within_cap id now key sub amount period next_allowed none =
      settle id now key sub amount period next_allowed (safe_sub_balance sub.prepaid_balance amount)

  -- From the replay check to the cap check.
  unfoldable pub charge_due :
      ℕ → ℕ → Option ℕ → Subscription → ℤ → Period → Call L ChargeExecutionResult
  unfolding already_charged next_charge_time exceeded_cap charge_within_cap
  charge_due id now key sub amount period = do
    stored ← gets (λ s. get s.billing.charged_period id)
    fail_if (already_charged stored period.index) Error.replay
    next_allowed ← lift (next_charge_time sub.last_payment_timestamp sub.interval_seconds)
    fail_if (ltb now next_allowed) Error.interval_not_elapsed
    over ← lift (exceeded_cap sub amount)
    charge_within_cap id now key sub amount period next_allowed over

  -- From the status check to the idempotent return.
  unfoldable pub charge_open : ℕ → ℕ → Option ℕ → Subscription → ℤ → Call L ChargeExecutionResult
  unfolding period_at same_key charge_due
  charge_open id now key sub amount = do
    fail_if
        (not (sub.status == SubscriptionStatus.active)
          && not (sub.status == SubscriptionStatus.grace_period))
        Error.not_active
    period ← lift (period_at sub now)
    stored ← gets (λ s. get s.billing.idem_key id)
    if same_key key stored
        then pure ChargeExecutionResult.charged
        else charge_due id now key sub amount period

  unfoldable pub charge_unless_exhausted :
      ℕ → ℕ → Option ℕ → Subscription → ℤ → Option ℤ → Call L ChargeExecutionResult
  unfolding cancel_exhausted charge_open
  charge_unless_exhausted id now key sub amount (some cap) = do
    cancel_exhausted id now sub cap
    pure ChargeExecutionResult.lifetime_cap_reached
  charge_unless_exhausted id now key sub amount none = charge_open id now key sub amount

  unfoldable pub charge_one : ℕ → ℕ → Option ℕ → Call L ChargeExecutionResult
  unfolding get_subscription get_merchant_paused expiration_guard resolve_charge_amount
      exhausted_cap charge_unless_exhausted
  charge_one id now key = do
    sub ← get_subscription id
    paused ← gets (λ s. get_merchant_paused s sub.merchant)
    fail_if paused Error.merchant_paused
    expiration_guard id now sub
    amount ← resolve_charge_amount env id sub
    charge_unless_exhausted id now key sub amount (exhausted_cap sub)
