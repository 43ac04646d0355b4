-- ===== src/ChargeCore/Period.antt =====
-- The billing period of a charge, its fee, and the subscription after it.
use stellabill_contracts.Prelude.{
  ℕ, ◌-◌, ◌/◌, ℤ, pos, Option, ◌==◌, ◌||◌, nat_eq, ltb, if◌then◌else◌, checked_add_u64,
  checked_mul_u64, ◌*ℤ◌, ◌-ℤ◌, quot, wrap_i128, is_some,
}
use stellabill_contracts.Types.Errors.{Error}
use stellabill_contracts.Types.Records.{Address, Subscription, SubscriptionStatus, status_eq}
use stellabill_contracts.Host.Calls.{Result, ok, trap}
use stellabill_contracts.SafeMath.{safe_add, on_ok, or_else}
use stellabill_contracts.StateMachine.{validate_status_transition}
use stellabill_contracts.ChargeCore.Guards.{exhausted_cap}

-- `subscription::next_charge_time`
unfoldable pub next_charge_time : ℕ → ℕ → Result ℕ
unfolding checked_add_u64
next_charge_time last_payment interval =
    or_else (checked_add_u64 last_payment interval) Error.overflow

-- A division by zero traps.
unfoldable pub period_index_at : Subscription → ℕ → Result ℕ
period_index_at sub now =
    if sub.interval_seconds == 0 then trap else ok ((now - sub.start_time) / sub.interval_seconds)

pub record Period : Type 0 where
  pub index : ℕ
  pub start : ℕ
  pub finish : ℕ

unfoldable pub period_at : Subscription → ℕ → Result Period
unfolding period_index_at checked_add_u64 checked_mul_u64
period_at sub now = on_ok (period_index_at sub now) λ index.
    on_ok (or_else (checked_mul_u64 index sub.interval_seconds) Error.overflow) λ offset.
      on_ok (or_else (checked_add_u64 sub.start_time offset) Error.overflow) λ start.
        on_ok (or_else (checked_add_u64 start sub.interval_seconds) Error.overflow)
          λ finish. ok (record { index = index; start = start; finish = finish })

-- The merchant's part of a charge, and the protocol's.
unfoldable pub split_fee : ℤ → ℕ → Option Address → ℤ × ℤ
split_fee amount fee_bps treasury =
    let fee = quot (wrap_i128 (amount *ℤ pos fee_bps)) (pos 10_000) in
    if ltb 0 fee_bps
    then if is_some treasury then (wrap_i128 (amount -ℤ fee), fee) else (amount, pos 0)
    else (amount, pos 0)

-- A successful charge recovers a subscription from its grace period.
recover_status : Subscription → Result Subscription
unfolding validate_status_transition
recover_status sub =
    if sub.status == SubscriptionStatus.grace_period
      || sub.status == SubscriptionStatus.insufficient_balance
    then on_ok (validate_status_transition sub.status SubscriptionStatus.active)
        (λ _. ok (record sub { status = SubscriptionStatus.active }))
    else ok sub

cancel_if_exhausted : Subscription → Result Subscription
unfolding validate_status_transition exhausted_cap
cancel_if_exhausted sub =
    if is_some (exhausted_cap sub)
    then on_ok (validate_status_transition sub.status SubscriptionStatus.cancelled)
        (λ _. ok (record sub { status = SubscriptionStatus.cancelled }))
    else ok sub

-- The subscription after a paid charge: balance, payment time, lifetime charges and status.
unfoldable pub paid_subscription : Subscription → ℤ → ℤ → ℕ → Result Subscription
unfolding safe_add recover_status cancel_if_exhausted
paid_subscription sub new_balance amount period_start =
    on_ok (safe_add sub.lifetime_charged amount) λ lifetime_charged.
      on_ok
        (recover_status (record sub {
          prepaid_balance = new_balance;
          last_payment_timestamp = period_start;
          lifetime_charged = lifetime_charged;
        }))
        cancel_if_exhausted
