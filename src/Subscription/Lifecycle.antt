-- ===== src/Subscription/Lifecycle.antt =====
-- Cancelling, pausing, resuming and archiving a subscription (subscription.rs).
use stellabill_contracts.Prelude.{
  ℕ, Bool, some, not, ◌==◌, ◌||◌, ◌&&◌, nat_eq, ltb_ℤ, if◌then◌else◌,
}
use stellabill_contracts.Types.Errors.{Error}
use stellabill_contracts.Types.Records.{
  Address, Subscription, SubscriptionStatus, is_expired, status_eq,
}
use stellabill_contracts.Types.Events.{
  subscription_cancelled, subscription_paused, subscription_resumed, subscription_archived,
}
use stellabill_contracts.Host.State.{Env}
use stellabill_contracts.Host.Calls.{
  Call, Result, ok, ◌>>=◌, ◌>>◌, modify, fail_if, when, lift, publish, require_auth,
}
use stellabill_contracts.SafeMath.{on_ok}
use stellabill_contracts.StateMachine.{validate_status_transition}
use stellabill_contracts.Store.{get_subscription, put_subscription}
use stellabill_contracts.Blocklist.{require_not_blocklisted}

abbrev pub is_party : Subscription → Address → Bool
is_party sub authorizer = authorizer == sub.subscriber || authorizer == sub.merchant

abbrev pub awaits_funds : Subscription → Bool
awaits_funds sub =
    sub.status == SubscriptionStatus.insufficient_balance
    || sub.status == SubscriptionStatus.grace_period

-- A subscription past its end that is not marked so becomes `Expired` before it is archived.
unfoldable pub mark_expired : Subscription → ℕ → Result Subscription
unfolding validate_status_transition
mark_expired sub now =
    if not (sub.status == SubscriptionStatus.cancelled)
      && (not (sub.status == SubscriptionStatus.expired) && is_expired sub now)
    then on_ok (validate_status_transition sub.status SubscriptionStatus.expired)
        (λ _. ok (record sub { status = SubscriptionStatus.expired }))
    else ok sub

module _ {L : Type 0} (env : Env L) where
  unfoldable pub do_cancel_subscription : ℕ → Address → Call L (Unit {0})
  unfolding require_auth get_subscription validate_status_transition put_subscription publish
  do_cancel_subscription id authorizer = do
    require_auth env authorizer
    sub ← get_subscription id
    fail_if (is_expired sub env.timestamp) Error.subscription_expired
    fail_if (not (is_party sub authorizer)) Error.forbidden
    lift (validate_status_transition sub.status SubscriptionStatus.cancelled)
    modify (put_subscription id (record sub { status = SubscriptionStatus.cancelled }))
    publish (
        subscription_cancelled id sub.subscriber sub.merchant sub.token authorizer
          sub.prepaid_balance env.timestamp)

  unfoldable pub enter_paused : ℕ → Address → Subscription → Call L (Unit {0})
  unfolding put_subscription publish
  enter_paused id authorizer sub = do
    modify (put_subscription id (record sub { status = SubscriptionStatus.paused }))
    publish (subscription_paused id sub.subscriber sub.merchant authorizer env.timestamp)

  unfoldable pub do_pause_subscription : ℕ → Address → Call L (Unit {0})
  unfolding require_auth get_subscription validate_status_transition enter_paused
  do_pause_subscription id authorizer = do
    require_auth env authorizer
    sub ← get_subscription id
    fail_if (is_expired sub env.timestamp) Error.subscription_expired
    fail_if (not (is_party sub authorizer)) Error.forbidden
    lift (validate_status_transition sub.status SubscriptionStatus.paused)
    when (not (sub.status == SubscriptionStatus.paused)) (enter_paused id authorizer sub)

  unfoldable pub enter_active : ℕ → Address → Subscription → Call L (Unit {0})
  unfolding put_subscription publish
  enter_active id authorizer sub = do
    fail_if (awaits_funds sub && ltb_ℤ sub.prepaid_balance sub.amount) Error.insufficient_balance
    modify (put_subscription id (record sub { status = SubscriptionStatus.active }))
    publish (
        subscription_resumed id sub.subscriber sub.merchant authorizer (some sub.status)
          env.timestamp)

  unfoldable pub do_resume_subscription : ℕ → Address → Call L (Unit {0})
  unfolding require_auth get_subscription require_not_blocklisted validate_status_transition
      enter_active
  do_resume_subscription id authorizer = do
    require_auth env authorizer
    sub ← get_subscription id
    fail_if (is_expired sub env.timestamp) Error.subscription_expired
    fail_if (not (is_party sub authorizer)) Error.forbidden
    when (authorizer == sub.subscriber) (require_not_blocklisted sub.subscriber)
    lift (validate_status_transition sub.status SubscriptionStatus.active)
    when (not (sub.status == SubscriptionStatus.active)) (enter_active id authorizer sub)

  unfoldable pub archive : ℕ → Subscription → Call L (Unit {0})
  unfolding mark_expired validate_status_transition put_subscription publish
  archive id sub = do
    marked ← lift (mark_expired sub env.timestamp)
    lift (validate_status_transition marked.status SubscriptionStatus.archived)
    modify (put_subscription id (record marked { status = SubscriptionStatus.archived }))
    publish (subscription_archived id env.timestamp)

  unfoldable pub do_cleanup_subscription : ℕ → Address → Call L (Unit {0})
  unfolding require_auth get_subscription archive
  do_cleanup_subscription id authorizer = do
    require_auth env authorizer
    sub ← get_subscription id
    fail_if (not (sub.status == SubscriptionStatus.cancelled || is_expired sub env.timestamp))
        Error.invalid_status_transition
    when (not (sub.status == SubscriptionStatus.archived)) (archive id sub)
