-- ===== src/Subscription/Plans.antt =====
-- The templates of subscription.rs that subscriptions are made from: how they are stored, and the
-- limit on a subscriber's active subscriptions of one of them.
pub mod Calls
pub mod Migration
pub mod Active
use stellabill_contracts.Prelude.{
  ℕ, zero, suc, ◌+◌, ℤ, pos, Bool, true, false, Option, none, some, not, ◌==◌, ◌&&◌, nat_eq, leb,
  ltb, leb_ℤ, ltb_ℤ, get, set, unwrap_or, if◌then◌else◌, checked_add_u32, saturating_add_u32, Map,
}
use stellabill_contracts.Types.Errors.{Error}
use stellabill_contracts.Types.Records.{
  Address, Subscription, SubscriptionStatus, PlanTemplate, status_eq,
}
use stellabill_contracts.Types.Events.{
  subscription_created, plan_created, plan_template_updated, plan_disabled, subscription_migrated,
  plan_max_active_set,
}
use stellabill_contracts.Host.State.{State, Env}
use stellabill_contracts.Host.Calls.{
  Call, Result, ok, err, ◌>>=◌, ◌>>◌, pure, gets, modify, fail_if, or_fail, lift, publish,
  require_auth, when,
}
use stellabill_contracts.Store.{get_subscription, put_subscription}
use stellabill_contracts.Admin.{get_token, is_token_accepted}
use stellabill_contracts.Blocklist.{require_not_blocklisted}
use stellabill_contracts.Subscription.Limits.{
  validate_interval, resolve_cap, enforce_credit_limit_for_delta, max_write_path_scan_depth,
  cap_is_positive,
}
use stellabill_contracts.Subscription.Create.{set_next_id, index_subscription}

-- The terms of a plan that the merchant gives.
pub record PlanTerms : Type 0 where
  pub amount : ℤ
  pub interval_seconds : ℕ
  pub usage_enabled : Bool
  pub lifetime_cap : Option ℤ

unfoldable pub plan_of : Address → Address → PlanTerms → ℕ → ℕ → PlanTemplate
plan_of merchant token terms template_key version = record {
  merchant = merchant;
  token = token;
  amount = terms.amount;
  interval_seconds = terms.interval_seconds;
  usage_enabled = terms.usage_enabled;
  lifetime_cap = terms.lifetime_cap;
  template_key = template_key;
  version = version;
  is_disabled = false;
}

-- Whether an entry is an active subscription of the subscriber.
unfoldable pub is_active_of : Address → Option Subscription → Bool
is_active_of subscriber none = false
is_active_of subscriber (some sub) =
    (sub.subscriber == subscriber) && (sub.status == SubscriptionStatus.active)

unfoldable pub is_on_plan : ℕ → Option ℕ → Bool
is_on_plan plan_id none = false
is_on_plan plan_id (some stored) = stored == plan_id

-- The loop over `n` ids from `id` on.
unfoldable pub count_active : Map ℕ Subscription → Map ℕ ℕ → Address → ℕ → (n id count : ℕ) → ℕ
unfolding is_active_of is_on_plan
count_active subs plans subscriber plan_id zero id count = count
count_active subs plans subscriber plan_id (suc n) id count =
    count_active subs plans subscriber plan_id n (suc id) (
      if is_on_plan plan_id (get plans id) && is_active_of subscriber (get subs id)
      then saturating_add_u32 count 1
      else count)

module _ {L : Type 0} where
  unfoldable pub set_next_plan_id : ℕ → State L → State L
  set_next_plan_id next s = record s {
    subscriptions = record subscriptions { next_plan_id = some next };
  }
    where
      open s use {subscriptions}

  unfoldable pub put_plan : ℕ → PlanTemplate → State L → State L
  put_plan plan_id plan s = record s {
    subscriptions = record subscriptions { plans = set plans plan_id plan };
  }
    where
      open s use {subscriptions}
      open subscriptions use {plans}

  unfoldable pub link_plan : ℕ → ℕ → State L → State L
  link_plan id plan_id s = record s {
    subscriptions = record subscriptions { sub_plans = set sub_plans id plan_id };
  }
    where
      open s use {subscriptions}
      open subscriptions use {sub_plans}

  unfoldable pub set_plan_max_active : ℕ → ℕ → State L → State L
  set_plan_max_active plan_id max_active s = record s {
    subscriptions = record subscriptions {
      plan_max_active = set plan_max_active plan_id max_active;
    };
  }
    where
      open s use {subscriptions}
      open subscriptions use {plan_max_active}

  -- The source writes the key of a symbol and the id, which no other function reads.
  unfoldable pub put_at_symbol_key : ℕ → PlanTemplate → State L → State L
  put_at_symbol_key plan_id plan s = record s {
    subscriptions = record subscriptions { symbol_plans = set symbol_plans plan_id plan };
  }
    where
      open s use {subscriptions}
      open subscriptions use {symbol_plans}

  -- At the largest id the counter stays.
  unfoldable pub next_plan_id : Call L ℕ
  unfolding checked_add_u32 set_next_plan_id
  next_plan_id = do
    id ← gets (λ s. unwrap_or s.subscriptions.next_plan_id 0)
    modify (set_next_plan_id (unwrap_or (checked_add_u32 id 1) id))
    pure id

  unfoldable pub get_plan_template : ℕ → Call L PlanTemplate
  get_plan_template plan_id s = or_fail (get s.subscriptions.plans plan_id) Error.not_found s

  unfoldable pub get_plan_max_active : State L → ℕ → ℕ
  get_plan_max_active s plan_id = unwrap_or (get s.subscriptions.plan_max_active plan_id) 0

  unfoldable pub count_active_subscriptions_for_plan : State L → Address → ℕ → Result ℕ
  unfolding count_active
  count_active_subscriptions_for_plan s subscriber plan_id =
      let next_id = unwrap_or s.subscriptions.next_id 0 in
      if ltb max_write_path_scan_depth next_id
      then err Error.invalid_input
      else ok (
          count_active s.subscriptions.subs s.subscriptions.sub_plans subscriber plan_id next_id 0
            0)

  unfoldable pub enforce_plan_concurrency_limit : Address → ℕ → Call L (Unit {0})
  unfolding get_plan_max_active count_active_subscriptions_for_plan
  enforce_plan_concurrency_limit subscriber plan_id = do
    max_active ← gets (λ s. get_plan_max_active s plan_id)
    when (not (max_active == 0)) (do
      counted ← gets (λ s. count_active_subscriptions_for_plan s subscriber plan_id)
      current ← lift counted
      fail_if (leb max_active current) Error.max_concurrent_subscriptions_reached)
