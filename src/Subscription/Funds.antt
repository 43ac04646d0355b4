-- ===== src/Subscription/Funds.antt =====
-- Money into and out of a subscription's prepaid balance (subscription.rs).
use stellabill_contracts.Prelude.{
  ℕ, ℤ, pos, Bool, none, not, ◌==◌, ◌||◌, ◌&&◌, nat_eq, leb_ℤ, ltb_ℤ,
}
use stellabill_contracts.Types.Errors.{Error}
use stellabill_contracts.Types.Records.{
  Address, Subscription, SubscriptionStatus, is_expired, status_eq,
}
use stellabill_contracts.Types.Events.{
  deposited, recovery_ready, subscription_resumed, subscriber_withdrawn, partial_refund,
}
use stellabill_contracts.Host.State.{Env}
use stellabill_contracts.Host.Calls.{
  Call, ◌>>=◌, ◌>>◌, gets, modify, fail_if, when, lift, publish, require_auth, transfer,
}
use stellabill_contracts.SafeMath.{validate_non_negative, safe_add_balance, safe_sub}
use stellabill_contracts.Store.{get_subscription, put_subscription}
use stellabill_contracts.Accounting.{add_total_accounted, sub_total_accounted}
use stellabill_contracts.Admin.{get_min_topup, require_admin_auth}
use stellabill_contracts.Blocklist.{require_not_blocklisted}
use stellabill_contracts.Merchant.{get_merchant_paused}
use stellabill_contracts.ChargeCore.Guards.{expiration_guard}
use stellabill_contracts.Subscription.Limits.{enforce_credit_limit_for_delta, enforce_deposit_cap}
use stellabill_contracts.Subscription.Lifecycle.{awaits_funds}

abbrev pub has_ended : Subscription → ℕ → Bool
has_ended sub now =
    sub.status == SubscriptionStatus.cancelled
    || (sub.status == SubscriptionStatus.expired
        || (sub.status == SubscriptionStatus.archived || is_expired sub now))

module _ {L : Type 0} (env : Env L) where
  -- A deposit that covers the next charge reactivates an underfunded subscription.
  unfoldable pub recover_funded : ℕ → Subscription → Call L (Unit {0})
  unfolding put_subscription publish
  recover_funded id sub = when (awaits_funds sub && leb_ℤ sub.amount sub.prepaid_balance) (do
    modify (put_subscription id (record sub { status = SubscriptionStatus.active }))
    publish (recovery_ready id sub.subscriber sub.prepaid_balance sub.amount env.timestamp)
    publish (subscription_resumed id sub.subscriber sub.merchant sub.subscriber none env.timestamp))

  -- The checks of a deposit that read the subscription.
  unfoldable pub deposit_allowed : ℕ → Address → ℤ → Subscription → Call L (Unit {0})
  unfolding get_merchant_paused expiration_guard enforce_credit_limit_for_delta enforce_deposit_cap
  deposit_allowed id subscriber amount sub = do
    fail_if (not (subscriber == sub.subscriber)) Error.unauthorized
    paused ← gets (λ s. get_merchant_paused s sub.merchant)
    fail_if paused Error.merchant_paused
    expiration_guard id env.timestamp sub
    within ← gets (λ s. enforce_credit_limit_for_delta s subscriber sub.token amount)
    lift within
    lift (enforce_deposit_cap sub amount)

  -- The effects and interactions of a deposit.
  unfoldable pub take_deposit : ℕ → Address → ℤ → Subscription → Call L (Unit {0})
  unfolding safe_add_balance put_subscription transfer add_total_accounted publish recover_funded
  take_deposit id subscriber amount sub = do
    balance ← lift (safe_add_balance sub.prepaid_balance amount)
    modify (put_subscription id (record sub { prepaid_balance = balance }))
    transfer env sub.token subscriber env.current_contract_address amount
    add_total_accounted sub.token amount
    publish (deposited id subscriber sub.token amount balance env.timestamp)
    recover_funded id (record sub { prepaid_balance = balance })

  unfoldable pub do_deposit_funds : ℕ → Address → ℤ → Call L (Unit {0})
  unfolding require_auth require_not_blocklisted get_min_topup validate_non_negative
      get_subscription deposit_allowed take_deposit
  do_deposit_funds id subscriber amount = do
    require_auth env subscriber
    require_not_blocklisted subscriber
    min_topup ← get_min_topup
    fail_if (ltb_ℤ amount min_topup) Error.below_minimum_topup
    lift (validate_non_negative amount)
    sub ← get_subscription id
    deposit_allowed id subscriber amount sub
    take_deposit id subscriber amount sub

  -- The second test of the amount in the source repeats the first.
  unfoldable pub do_withdraw_subscriber_funds : ℕ → Address → Call L (Unit {0})
  unfolding require_auth get_subscription put_subscription transfer sub_total_accounted publish
  do_withdraw_subscriber_funds id subscriber = do
    require_auth env subscriber
    sub ← get_subscription id
    fail_if (not (subscriber == sub.subscriber)) Error.forbidden
    fail_if (leb_ℤ sub.prepaid_balance (pos 0)) Error.invalid_amount
    fail_if (not (has_ended sub env.timestamp)) Error.invalid_status_transition
    fail_if (leb_ℤ sub.prepaid_balance (pos 0)) Error.insufficient_balance
    modify (put_subscription id (record sub { prepaid_balance = pos 0 }))
    transfer env sub.token env.current_contract_address subscriber sub.prepaid_balance
    sub_total_accounted sub.token sub.prepaid_balance
    publish (subscriber_withdrawn id subscriber sub.token sub.prepaid_balance env.timestamp)

  unfoldable pub do_partial_refund : Address → ℕ → Address → ℤ → Call L (Unit {0})
  unfolding require_admin_auth get_subscription safe_sub put_subscription transfer
      sub_total_accounted publish
  do_partial_refund admin id subscriber amount = do
    require_admin_auth env admin
    fail_if (leb_ℤ amount (pos 0)) Error.invalid_amount
    sub ← get_subscription id
    fail_if (not (subscriber == sub.subscriber)) Error.unauthorized
    fail_if (ltb_ℤ sub.prepaid_balance amount) Error.insufficient_balance
    balance ← lift (safe_sub sub.prepaid_balance amount)
    modify (put_subscription id (record sub { prepaid_balance = balance }))
    transfer env sub.token env.current_contract_address subscriber amount
    sub_total_accounted sub.token amount
    publish (partial_refund id subscriber sub.token amount env.timestamp)
