-- ===== src/Subscription/Plans/Calls.antt =====
-- The calls of subscription.rs on plan templates, and `do_configure_usage_limits`.
use stellabill_contracts.Prelude.{
  ℕ, ℤ, pos, Bool, true, false, Option, none, some, not, ◌==◌, nat_eq, leb, ltb_ℤ, get, set,
  unwrap_or, checked_add_u32, if◌then◌else◌,
}
use stellabill_contracts.Types.Errors.{Error}
use stellabill_contracts.Types.Records.{
  Address, Subscription, SubscriptionStatus, PlanTemplate, UsageLimits,
}
use stellabill_contracts.Types.Events.{
  subscription_created, plan_created, plan_template_updated, plan_disabled, subscription_migrated,
  plan_max_active_set, usage_limits_configured,
}
use stellabill_contracts.Host.State.{State, Env}
use stellabill_contracts.Host.Calls.{
  Call, ◌>>=◌, ◌>>◌, pure, gets, modify, fail_if, or_fail, lift, publish, require_auth, when,
}
use stellabill_contracts.Store.{get_subscription, put_subscription}
use stellabill_contracts.Admin.{get_token, is_token_accepted}
use stellabill_contracts.Blocklist.{require_not_blocklisted}
use stellabill_contracts.Subscription.Limits.{
  validate_interval, resolve_cap, enforce_credit_limit_for_delta, cap_is_positive,
}
use stellabill_contracts.Subscription.Create.{set_next_id, index_subscription}
use stellabill_contracts.Subscription.Plans.{
  PlanTerms, plan_of, put_plan, link_plan, set_plan_max_active, put_at_symbol_key, next_plan_id,
  get_plan_template, enforce_plan_concurrency_limit,
}

unfoldable pub bool_beq : Bool → Bool → Bool
bool_beq a b = if a then b else not b

-- The terms of a subscription from a plan.
abbrev pub plan_subscription : Address → PlanTemplate → Option ℤ → ℕ → Subscription
plan_subscription subscriber plan resolved_cap now = record {
  subscriber = subscriber;
  merchant = plan.merchant;
  token = plan.token;
  amount = plan.amount;
  interval_seconds = plan.interval_seconds;
  last_payment_timestamp = now;
  status = SubscriptionStatus.active;
  prepaid_balance = pos 0;
  usage_enabled = plan.usage_enabled;
  lifetime_cap = resolved_cap;
  lifetime_charged = pos 0;
  start_time = now;
  expires_at = none;
  grace_start_timestamp = none;
}

-- The terms of the new plan, in a subscription that migrates to it.
abbrev pub migrated : Subscription → PlanTemplate → Subscription
migrated sub plan = record sub {
  lifetime_cap = plan.lifetime_cap;
  amount = plan.amount;
  interval_seconds = plan.interval_seconds;
  usage_enabled = plan.usage_enabled;
}

-- A cap of the new plan that the charges so far have passed.
unfoldable pub passed_cap : Option ℤ → ℤ → Bool
passed_cap none charged = false
passed_cap (some cap) charged = ltb_ℤ cap charged

module _ {L : Type 0} where
  -- The id of the new subscription, linked to its plan and in the indices.
  unfoldable pub allocate_from_plan : ℕ → Subscription → Call L ℕ
  unfolding checked_add_u32 set_next_id put_subscription link_plan index_subscription
  allocate_from_plan plan_id sub = do
    id ← gets (λ s. unwrap_or s.subscriptions.next_id 0)
    next ← or_fail (checked_add_u32 id 1) Error.overflow
    modify (set_next_id next)
    modify (put_subscription id sub)
    modify (link_plan id plan_id)
    modify (index_subscription id sub.merchant sub.token)
    pure id

  unfoldable pub set_usage_limits : ℕ → UsageLimits → State L → State L
  set_usage_limits id limits s = record s {
    billing = record billing { usage_limits = set usage_limits id limits };
  }
    where
      open s use {billing}
      open billing use {usage_limits}

module _ {L : Type 0} (env : Env L) where
  unfoldable pub add_plan : Address → Address → PlanTerms → Call L ℕ
  unfolding next_plan_id plan_of put_plan publish
  add_plan merchant token terms = do
    plan_id ← next_plan_id
    modify (put_plan plan_id (plan_of merchant token terms plan_id 1))
    publish (
        plan_created plan_id merchant token terms.amount terms.interval_seconds terms.usage_enabled
          terms.lifetime_cap env.timestamp)
    pure plan_id

  unfoldable pub do_create_plan_template : Address → PlanTerms → Call L ℕ
  unfolding require_auth validate_interval cap_is_positive get_token add_plan
  do_create_plan_template merchant terms = do
    require_auth env merchant
    lift (validate_interval terms.interval_seconds)
    lift (cap_is_positive terms.lifetime_cap)
    token ← get_token
    add_plan merchant token terms

  unfoldable pub do_create_plan_template_with_token : Address → Address → PlanTerms → Call L ℕ
  unfolding require_auth validate_interval is_token_accepted cap_is_positive add_plan
  do_create_plan_template_with_token merchant token terms = do
    require_auth env merchant
    lift (validate_interval terms.interval_seconds)
    accepted ← gets (λ s. is_token_accepted s token)
    fail_if (not accepted) Error.invalid_input
    lift (cap_is_positive terms.lifetime_cap)
    add_plan merchant token terms

  unfoldable pub do_create_subscription_from_plan : Address → ℕ → Call L ℕ
  unfolding require_auth require_not_blocklisted get_plan_template enforce_credit_limit_for_delta
      enforce_plan_concurrency_limit resolve_cap allocate_from_plan publish
  do_create_subscription_from_plan subscriber plan_id = do
    require_auth env subscriber
    require_not_blocklisted subscriber
    plan ← get_plan_template plan_id
    fail_if plan.is_disabled Error.invalid_input
    within ← gets (λ s. enforce_credit_limit_for_delta s subscriber plan.token plan.amount)
    lift within
    enforce_plan_concurrency_limit subscriber plan_id
    resolved_cap ← gets (λ s. resolve_cap s plan.merchant plan.lifetime_cap)
    id ← allocate_from_plan plan_id (plan_subscription subscriber plan resolved_cap env.timestamp)
    publish (
        subscription_created id subscriber plan.merchant plan.token plan.amount
          plan.interval_seconds plan.lifetime_cap none env.timestamp)
    pure id

  unfoldable pub do_update_plan_template : Address → ℕ → PlanTerms → Call L ℕ
  unfolding require_auth validate_interval cap_is_positive get_plan_template bool_beq next_plan_id
      checked_add_u32 plan_of put_plan publish
  do_update_plan_template merchant plan_id terms = do
    require_auth env merchant
    lift (validate_interval terms.interval_seconds)
    lift (cap_is_positive terms.lifetime_cap)
    existing ← get_plan_template plan_id
    fail_if (not (existing.merchant == merchant)) Error.forbidden
    fail_if (not (bool_beq terms.usage_enabled existing.usage_enabled))
        Error.cannot_change_usage_mode
    new_plan_id ← next_plan_id
    new_version ← or_fail (checked_add_u32 existing.version 1) Error.overflow
    modify (
        put_plan new_plan_id
          (plan_of merchant existing.token terms existing.template_key new_version))
    publish (
        plan_template_updated existing.template_key plan_id new_plan_id new_version merchant
          env.timestamp)
    pure new_plan_id

  unfoldable pub do_disable_plan_template : Address → ℕ → Call L (Unit {0})
  unfolding require_auth get_plan_template put_at_symbol_key publish
  do_disable_plan_template merchant plan_id = do
    require_auth env merchant
    plan ← get_plan_template plan_id
    fail_if (not (plan.merchant == merchant)) Error.forbidden
    when (not plan.is_disabled) (do
      modify (put_at_symbol_key plan_id (record plan { is_disabled = true }))
      publish (plan_disabled plan_id merchant env.timestamp))

  unfoldable pub do_migrate_subscription_to_plan : Address → ℕ → ℕ → Call L (Unit {0})
  unfolding require_auth require_not_blocklisted get_subscription get_plan_template bool_beq
      passed_cap put_subscription link_plan publish
  do_migrate_subscription_to_plan subscriber id new_plan_id = do
    require_auth env subscriber
    require_not_blocklisted subscriber
    sub ← get_subscription id
    fail_if (not (sub.subscriber == subscriber)) Error.forbidden
    linked ← gets (λ s. get s.subscriptions.sub_plans id)
    current_plan_id ← or_fail linked Error.invalid_input
    current_plan ← get_plan_template current_plan_id
    new_plan ← get_plan_template new_plan_id
    fail_if (not (current_plan.template_key == new_plan.template_key)) Error.invalid_input
    fail_if (leb new_plan.version current_plan.version) Error.invalid_input
    fail_if (not (new_plan.token == sub.token)) Error.invalid_input
    fail_if (not (bool_beq new_plan.usage_enabled sub.usage_enabled)) Error.cannot_change_usage_mode
    fail_if (passed_cap new_plan.lifetime_cap sub.lifetime_charged) Error.lifetime_cap_reached
    modify (put_subscription id (migrated sub new_plan))
    modify (link_plan id new_plan_id)
    publish (
        subscription_migrated id new_plan.template_key current_plan_id new_plan_id new_plan.merchant
          subscriber env.timestamp)

  unfoldable pub do_set_plan_max_active_subs : Address → ℕ → ℕ → Call L (Unit {0})
  unfolding require_auth get_plan_template set_plan_max_active publish
  do_set_plan_max_active_subs merchant plan_id max_active = do
    require_auth env merchant
    plan ← get_plan_template plan_id
    fail_if (not (plan.merchant == merchant)) Error.forbidden
    modify (set_plan_max_active plan_id max_active)
    publish (plan_max_active_set plan_id merchant max_active env.timestamp)

  unfoldable pub do_configure_usage_limits : Address → ℕ → UsageLimits → Call L (Unit {0})
  unfolding require_auth get_subscription cap_is_positive set_usage_limits publish
  do_configure_usage_limits merchant id limits = do
    require_auth env merchant
    sub ← get_subscription id
    fail_if (not (sub.merchant == merchant)) Error.forbidden
    fail_if (not sub.usage_enabled) Error.usage_not_enabled
    lift (cap_is_positive limits.usage_cap_units)
    modify (set_usage_limits id limits)
    publish (usage_limits_configured id merchant limits env.timestamp)
