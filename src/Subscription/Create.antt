-- ===== src/Subscription/Create.antt =====
-- `do_create_subscription` and `do_create_subscription_with_token` of subscription.rs.
use stellabill_contracts.Prelude.{
  ℕ, ℤ, pos, Bool, Option, none, some, [], ◌∷◌, ◌++◌, not, ◌==◌, nat_eq, leb_ℤ, ltb_ℤ, beq_ℤ, get,
  set, unwrap_or, if◌then◌else◌, max_u32, checked_add_u32,
}
use stellabill_contracts.Types.Errors.{Error}
use stellabill_contracts.Types.Records.{Address, Subscription, SubscriptionStatus}
use stellabill_contracts.Types.Events.{subscription_created}
use stellabill_contracts.Host.State.{State, Env}
use stellabill_contracts.Host.Calls.{
  Call, Result, ok, err, ◌>>=◌, ◌>>◌, pure, gets, modify, fail_if, or_fail, lift, publish,
  require_auth,
}
use stellabill_contracts.SafeMath.{validate_non_negative}
use stellabill_contracts.Store.{put_subscription}
use stellabill_contracts.Admin.{get_token, is_token_accepted}
use stellabill_contracts.Blocklist.{is_blocklisted}
use stellabill_contracts.Subscription.Limits.{
  validate_interval, resolve_cap, enforce_credit_limit_for_delta,
}

abbrev pub max_subscription_id : ℕ
max_subscription_id = max_u32

-- The terms that the caller of `create_subscription` gives.
pub record Terms : Type 0 where
  pub subscriber : Address
  pub merchant : Address
  pub amount : ℤ
  pub interval_seconds : ℕ
  pub usage_enabled : Bool
  pub lifetime_cap : Option ℤ
  pub expires_at : Option ℕ

-- A cap is positive and covers one charge.
unfoldable pub admissible_cap : Option ℤ → ℤ → Result (Unit {0})
admissible_cap none amount = ok tt
admissible_cap (some cap) amount =
    if leb_ℤ cap (pos 0)
    then err Error.invalid_amount
    else if ltb_ℤ cap amount
    then err Error.invalid_input
    else ok tt

unfoldable pub new_subscription : Terms → Address → Option ℤ → ℕ → Subscription
new_subscription terms token resolved_cap now = record {
  subscriber = terms.subscriber;
  merchant = terms.merchant;
  token = token;
  amount = terms.amount;
  interval_seconds = terms.interval_seconds;
  last_payment_timestamp = now;
  status = SubscriptionStatus.active;
  prepaid_balance = pos 0;
  usage_enabled = terms.usage_enabled;
  lifetime_cap = resolved_cap;
  lifetime_charged = pos 0;
  start_time = now;
  expires_at = terms.expires_at;
  grace_start_timestamp = none;
}

module _ {L : Type 0} where
  unfoldable pub set_next_id : ℕ → State L → State L
  set_next_id next s = record s { subscriptions = record subscriptions { next_id = some next } }
    where
      open s use {subscriptions}

  -- The indices from merchants and from tokens to subscription ids.
  unfoldable pub index_subscription : ℕ → Address → Address → State L → State L
  index_subscription id merchant token s = record s {
    subscriptions = record subscriptions {
      merchant_subs =
          set merchant_subs merchant (unwrap_or (get merchant_subs merchant) [] ++ id ∷ []);
      token_subs = set token_subs token (unwrap_or (get token_subs token) [] ++ id ∷ []);
    };
  }
    where
      open s use {subscriptions}
      open subscriptions use {merchant_subs, token_subs}

  -- The id of the new subscription, and the subscription under it.
  unfoldable pub allocate : Subscription → Call L ℕ
  unfolding checked_add_u32 set_next_id put_subscription index_subscription
  allocate sub = do
    id ← gets (λ s. unwrap_or s.subscriptions.next_id 0)
    fail_if (id == max_subscription_id) Error.subscription_limit_reached
    next ← or_fail (checked_add_u32 id 1) Error.subscription_limit_reached
    modify (set_next_id next)
    modify (put_subscription id sub)
    modify (index_subscription id sub.merchant sub.token)
    pure id

module _ {L : Type 0} (env : Env L) where
  unfoldable pub do_create_subscription_with_token : Address → Terms → Call L ℕ
  unfolding require_auth is_blocklisted validate_non_negative validate_interval is_token_accepted
      resolve_cap admissible_cap enforce_credit_limit_for_delta new_subscription allocate publish
  do_create_subscription_with_token token terms = do
    require_auth env terms.subscriber
    blocked ← gets (λ s. is_blocklisted s terms.subscriber)
    fail_if blocked Error.subscriber_blocklisted
    lift (validate_non_negative terms.amount)
    fail_if (beq_ℤ terms.amount (pos 0)) Error.invalid_amount
    lift (validate_interval terms.interval_seconds)
    accepted ← gets (λ s. is_token_accepted s token)
    fail_if (not accepted) Error.invalid_input
    resolved_cap ← gets (λ s. resolve_cap s terms.merchant terms.lifetime_cap)
    lift (admissible_cap resolved_cap terms.amount)
    within ← gets (λ s. enforce_credit_limit_for_delta s terms.subscriber token terms.amount)
    lift within
    id ← allocate (new_subscription terms token resolved_cap env.timestamp)
    publish (
        subscription_created id terms.subscriber terms.merchant token terms.amount
          terms.interval_seconds terms.lifetime_cap terms.expires_at env.timestamp)
    pure id

  unfoldable pub do_create_subscription : Terms → Call L ℕ
  unfolding get_token enforce_credit_limit_for_delta do_create_subscription_with_token
  do_create_subscription terms = do
    token ← get_token
    within ← gets (λ s. enforce_credit_limit_for_delta s terms.subscriber token terms.amount)
    lift within
    do_create_subscription_with_token token terms
