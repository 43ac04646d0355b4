-- ===== src/ChargeCore/Usage.antt =====
-- `charge_usage_one` of charge_core.rs: a charge for metered use, under the limits that the
-- merchant set for the subscription.
pub mod Limits
pub mod Guarded
pub mod Taken
pub mod Refused
pub mod Metered
pub mod References
use stellabill_contracts.Prelude.{
  ℕ, ◌-◌, ◌/◌, ℤ, pos, Bool, true, false, Option, none, some, String, not, ◌==◌, ◌&&◌, nat_eq,
  string_eq, pair_eq, ltb, leb, leb_ℤ, ltb_ℤ, beq_ℤ, if◌then◌else◌, is_some, unwrap_or, get, set,
  saturating_add, saturating_sub, saturating_add_u32, saturating_add_u64, saturating_sub_u64,
}
use stellabill_contracts.Types.Errors.{Error}
use stellabill_contracts.Types.Records.{
  Subscription, SubscriptionStatus, UsageLimits, UsageState, UsageChargeResult, BillingChargeKind,
  status_eq,
}
use stellabill_contracts.Types.Events.{usage_charged, usage_charge_rejected, charge_failed}
use stellabill_contracts.Host.State.{State, Env}
use stellabill_contracts.Host.Calls.{
  Call, Result, ok, err, trap, ◌>>=◌, ◌>>◌, pure, abort, gets, modify, fail_if, or_abort, lift,
  publish,
}
use stellabill_contracts.SafeMath.{safe_add, safe_sub_balance}
use stellabill_contracts.StateMachine.{validate_status_transition}
use stellabill_contracts.Store.{get_subscription, put_subscription}
use stellabill_contracts.Merchant.{get_merchant_paused, credit_merchant_balance_for_token}
use stellabill_contracts.Statements.{append_statement}
use stellabill_contracts.ChargeCore.Guards.{
  exhausted_cap, expiration_guard, cancel_at_cap, move_status,
}
use stellabill_contracts.ChargeCore.Interval.{publish_cap}
use stellabill_contracts.Subscription.OneOff.{surpassed_cap, stop_at_exhausted}

-- The period that `now` falls in; `none` where the division by the interval traps.
unfoldable pub current_period : Subscription → ℕ → Option ℕ
current_period sub now =
    if sub.interval_seconds == 0
    then none
    else some (saturating_sub_u64 now sub.start_time / sub.interval_seconds)

-- The state of a subscription with no charge for use so far.
unfoldable pub first_usage : ℕ → ℕ → UsageState
first_usage now period = record {
  last_usage_timestamp = 0;
  window_start_timestamp = now;
  window_call_count = 0;
  current_period_usage_units = pos 0;
  period_index = period;
}

unfoldable pub is_burst : UsageLimits → UsageState → ℕ → Bool
is_burst limits state now =
    ltb 0 limits.burst_min_interval_secs
    && ltb (saturating_sub_u64 now state.last_usage_timestamp) limits.burst_min_interval_secs

-- A window that has run out starts again, where there is a limit on the calls.
unfoldable pub renew_window : Option ℕ → ℕ → ℕ → UsageState → UsageState
renew_window none window now state = state
renew_window (some max_calls) window now state =
    if leb (saturating_add_u64 state.window_start_timestamp window) now
    then record state { window_start_timestamp = now; window_call_count = 0 }
    else state

unfoldable pub is_window_full : Option ℕ → UsageState → Bool
is_window_full none state = false
is_window_full (some max_calls) state = leb max_calls state.window_call_count

-- A new period starts at no units, where there is a cap on the units.
unfoldable pub renew_period : Option ℤ → ℕ → UsageState → UsageState
renew_period none period state = state
renew_period (some cap) period state =
    if ltb state.period_index period
    then record state { period_index = period; current_period_usage_units = pos 0 }
    else state

unfoldable pub is_over_units : Option ℤ → UsageState → ℤ → Bool
is_over_units none state amount = false
is_over_units (some cap) state amount =
    ltb_ℤ cap (saturating_add state.current_period_usage_units amount)

unfoldable pub count_usage : ℕ → ℤ → UsageState → UsageState
count_usage now amount state = record state {
  last_usage_timestamp = now;
  window_call_count = saturating_add_u32 state.window_call_count 1;
  current_period_usage_units = saturating_add state.current_period_usage_units amount;
}

-- What the limits say of a charge: the result that refuses it, or the state to store.
pub data Admission : Type 0 where
  refused : UsageChargeResult → Admission
  admitted : UsageState → Admission

unfoldable pub admit_usage : UsageLimits → ℕ → ℕ → ℤ → UsageState → Admission
unfolding is_burst renew_window is_window_full renew_period is_over_units count_usage
admit_usage limits now period amount state =
    let window = renew_window limits.rate_limit_max_calls limits.rate_window_secs now state in
    let metered = renew_period limits.usage_cap_units period window in
    if is_burst limits state now
    then refused UsageChargeResult.burst_limit_exceeded
    else if is_window_full limits.rate_limit_max_calls window
    then refused UsageChargeResult.rate_limit_exceeded
    else if is_over_units limits.usage_cap_units metered amount
    then refused UsageChargeResult.usage_cap_exceeded
    else admitted (count_usage now amount metered)

module _ {L : Type 0} where
  unfoldable pub set_usage_state : ℕ → UsageState → State L → State L
  set_usage_state id state s = record s {
    billing = record billing { usage_states = set usage_states id state };
  }
    where
      open s use {billing}
      open billing use {usage_states}

  unfoldable pub mark_reference : ℕ → String → State L → State L
  mark_reference id reference s = record s {
    billing = record billing { usage_refs = set usage_refs (id, reference) true };
  }
    where
      open s use {billing}
      open billing use {usage_refs}

  -- `validate_status_transition(…)?` of a charged subscription, where its status changes.
  unfoldable pub close_used : Option ℤ → ℤ → Subscription → Call L Subscription
  unfolding validate_status_transition
  close_used (some cap) balance sub = do
    lift (validate_status_transition sub.status SubscriptionStatus.cancelled)
    pure (record sub { status = SubscriptionStatus.cancelled })
  close_used none balance sub =
      if beq_ℤ balance (pos 0)
      then (do
        lift (validate_status_transition sub.status SubscriptionStatus.insufficient_balance)
        pure (record sub { status = SubscriptionStatus.insufficient_balance }))
      else pure sub

module _ {L : Type 0} (env : Env L) where
  unfoldable pub reject_usage :
      ℕ → Subscription → ℤ → String → UsageChargeResult → Call L UsageChargeResult
  unfolding publish
  reject_usage id sub amount reference result = do
    publish (usage_charge_rejected id sub.merchant sub.token amount env.timestamp reference result)
    pure result

  unfoldable pub usage_paid : ℕ → Subscription → ℤ → String → ℤ → ℤ → Call L UsageChargeResult
  unfolding exhausted_cap close_used put_subscription mark_reference append_statement publish
      publish_cap
  usage_paid id sub amount reference lifetime balance = do
    credit_merchant_balance_for_token sub.merchant sub.token amount BillingChargeKind.usage
    let debited : Subscription = record sub {
      prepaid_balance = balance;
      lifetime_charged = lifetime;
    }
    closed ← close_used (exhausted_cap debited) balance debited
    modify (put_subscription id closed)
    modify (mark_reference id reference)
    append_statement env id amount sub.merchant BillingChargeKind.usage env.timestamp env.timestamp
    publish (usage_charged id sub.merchant amount sub.token env.timestamp reference)
    publish_cap id env.timestamp (exhausted_cap debited) lifetime
    pure UsageChargeResult.charged

  unfoldable pub usage_unpaid : ℕ → Subscription → ℤ → Call L UsageChargeResult
  unfolding move_status saturating_sub publish
  usage_unpaid id sub amount = do
    move_status id sub SubscriptionStatus.insufficient_balance
    publish (
        charge_failed id sub.merchant amount sub.prepaid_balance
          (saturating_sub amount sub.prepaid_balance) SubscriptionStatus.insufficient_balance
          env.timestamp)
    pure UsageChargeResult.charged

  -- The match on `safe_sub_balance`.
  unfoldable pub settle_usage :
      ℕ → Subscription → ℤ → String → ℤ → Result ℤ → Call L UsageChargeResult
  unfolding usage_paid usage_unpaid
  settle_usage id sub amount reference lifetime (ok balance) =
      usage_paid id sub amount reference lifetime balance
  settle_usage id sub amount reference lifetime (err e) = usage_unpaid id sub amount
  settle_usage id sub amount reference lifetime trap = abort

  unfoldable pub usage_within_cap :
      ℕ → Subscription → ℤ → String → ℤ → Option ℤ → Call L UsageChargeResult
  unfolding cancel_at_cap settle_usage safe_sub_balance
  usage_within_cap id sub amount reference lifetime (some cap) = do
    cancel_at_cap id env.timestamp sub cap
    pure UsageChargeResult.charged
  usage_within_cap id sub amount reference lifetime none =
      settle_usage id sub amount reference lifetime (safe_sub_balance sub.prepaid_balance amount)

  -- From the pre-check of the lifetime cap on.
  unfoldable pub take_usage : ℕ → Subscription → ℤ → String → Call L UsageChargeResult
  unfolding safe_add surpassed_cap usage_within_cap
  take_usage id sub amount reference = do
    pending_lifetime ← lift (safe_add sub.lifetime_charged amount)
    usage_within_cap id sub amount reference pending_lifetime (surpassed_cap sub pending_lifetime)

  unfoldable pub take_admitted :
      ℕ → Subscription → ℤ → String → Admission → Call L UsageChargeResult
  unfolding reject_usage set_usage_state take_usage
  take_admitted id sub amount reference (refused result) =
      reject_usage id sub amount reference result
  take_admitted id sub amount reference (admitted state) = do
    modify (set_usage_state id state)
    take_usage id sub amount reference

  -- `if let Some(limits) = maybe_limits`, and what follows it.
  unfoldable pub meter_usage :
      ℕ → Subscription → ℤ → String → Option UsageLimits → Call L UsageChargeResult
  unfolding current_period first_usage admit_usage take_admitted take_usage
  meter_usage id sub amount reference none = take_usage id sub amount reference
  meter_usage id sub amount reference (some limits) = do
    period ← or_abort (current_period sub env.timestamp)
    stored ← gets (λ s. get s.billing.usage_states id)
    take_admitted id sub amount reference (
        admit_usage limits env.timestamp period amount
          (unwrap_or stored (first_usage env.timestamp period)))

  -- From the replay check on.
  unfoldable pub use_reference : ℕ → Subscription → ℤ → String → Bool → Call L UsageChargeResult
  unfolding reject_usage meter_usage
  use_reference id sub amount reference true =
      reject_usage id sub amount reference UsageChargeResult.replay
  use_reference id sub amount reference false = do
    limits ← gets (λ s. get s.billing.usage_limits id)
    meter_usage id sub amount reference limits

  unfoldable pub charge_usage_one : ℕ → ℤ → String → Call L UsageChargeResult
  unfolding get_subscription get_merchant_paused expiration_guard exhausted_cap stop_at_exhausted
      use_reference
  charge_usage_one id amount reference = do
    sub ← get_subscription id
    paused ← gets (λ s. get_merchant_paused s sub.merchant)
    fail_if paused Error.merchant_paused
    expiration_guard id env.timestamp sub
    stop_at_exhausted env id sub (exhausted_cap sub)
    fail_if (not (sub.status == SubscriptionStatus.active)) Error.not_active
    fail_if (not sub.usage_enabled) Error.usage_not_enabled
    fail_if (leb_ℤ amount (pos 0)) Error.invalid_amount
    fail_if (ltb_ℤ sub.prepaid_balance amount) Error.insufficient_prepaid_balance
    seen ← gets (λ s. is_some (get s.billing.usage_refs (id, reference)))
    use_reference id sub amount reference seen
