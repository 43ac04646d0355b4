-- ===== src/Subscription/Limits.antt =====
-- The limits of subscription.rs: interval, lifetime cap, and the subscriber's credit limit.
use stellabill_contracts.Prelude.{
  ℕ, ◌+◌, ℤ, pos, Option, none, some, not, ◌==◌, ◌||◌, nat_eq, pair_eq, ltb, leb_ℤ, ltb_ℤ, beq_ℤ,
  Map, get, set, remove, unwrap_or, if◌then◌else◌, saturating_sub,
}
use stellabill_contracts.Types.Errors.{Error}
use stellabill_contracts.Types.Records.{Address, Subscription, SubscriptionStatus, status_eq}
use stellabill_contracts.Types.Events.{global_cap_set, merchant_cap_set, cap_updated}
use stellabill_contracts.Host.State.{State, Env}
use stellabill_contracts.Host.Calls.{
  Call, Result, ok, err, ◌>>=◌, ◌>>◌, gets, modify, fail_if, lift, publish, require_auth,
}
use stellabill_contracts.SafeMath.{safe_add, on_ok}
use stellabill_contracts.Store.{get_subscription}
use stellabill_contracts.Admin.{require_admin_auth}

abbrev pub min_subscription_interval_seconds : ℕ
min_subscription_interval_seconds = 60

abbrev pub max_subscription_interval_seconds : ℕ
max_subscription_interval_seconds = 31_536_000

abbrev pub max_write_path_scan_depth : ℕ
max_write_path_scan_depth = 5_000

unfoldable pub validate_interval : ℕ → Result (Unit {0})
validate_interval interval_seconds =
    if ltb interval_seconds min_subscription_interval_seconds
      || ltb max_subscription_interval_seconds interval_seconds
    then err Error.invalid_input
    else ok tt

-- What one subscription adds to the exposure of a subscriber in a token.
add_exposure : Address → Address → Option Subscription → ℤ → Result ℤ
unfolding safe_add
add_exposure subscriber token none exposure = ok exposure
add_exposure subscriber token (some sub) exposure =
    if not (sub.subscriber == subscriber) || not (sub.token == token)
    then ok exposure
    else on_ok (safe_add exposure sub.prepaid_balance) λ raised.
      if sub.status == SubscriptionStatus.active then safe_add raised sub.amount else ok raised

-- The loop over the ids `id`, `id + 1`, …, as many as the first argument says.
exposure_from : Map ℕ Subscription → Address → Address → ℕ → ℕ → ℤ → Result ℤ
unfolding add_exposure
exposure_from subs subscriber token ℕ.zero id exposure = ok exposure
exposure_from subs subscriber token (ℕ.suc n) id exposure =
    on_ok (add_exposure subscriber token (get subs id) exposure)
      λ raised. exposure_from subs subscriber token n (id + 1) raised

abbrev capped : Option ℤ → Option ℤ → Option ℤ
capped none default = default
capped (some cap) default = some cap

-- Reject a deposit that would lock funds beyond the remaining chargeable cap.
unfoldable pub enforce_deposit_cap : Subscription → ℤ → Result (Unit {0})
unfolding saturating_sub
enforce_deposit_cap sub deposit = elim sub.lifetime_cap [
  | none ↦ ok tt
  | some cap ↦
      if ltb_ℤ (saturating_sub (saturating_sub cap sub.lifetime_charged) sub.prepaid_balance)
        deposit
      then err Error.lifetime_cap_reached
      else ok tt
]

-- A cap that is given is positive.
unfoldable pub cap_is_positive : Option ℤ → Result (Unit {0})
cap_is_positive none = ok tt
cap_is_positive (some cap) = if leb_ℤ cap (pos 0) then err Error.invalid_amount else ok tt

-- A new cap lies no lower than what has been charged.
cap_covers : Option ℤ → ℤ → Result (Unit {0})
cap_covers none charged = ok tt
cap_covers (some cap) charged = if ltb_ℤ cap charged then err Error.lifetime_cap_reached else ok tt

abbrev put_cap :
    {K : Type 0}
    → (Map K ℤ → K → ℤ → Map K ℤ)
    → (Map K ℤ → K → Map K ℤ)
    → Map K ℤ
    → K
    → Option ℤ
    → Map K ℤ
put_cap write erase m k none = erase m k
put_cap write erase m k (some cap) = write m k cap

module _ {L : Type 0} where
  unfoldable pub get_subscriber_credit_limit : State L → Address → Address → ℤ
  get_subscriber_credit_limit s subscriber token =
      unwrap_or (get s.subscriptions.credit_limits (subscriber, token)) (pos 0)

  unfoldable pub compute_subscriber_exposure : State L → Address → Address → Result ℤ
  unfolding exposure_from
  compute_subscriber_exposure s subscriber token =
      let next_id = unwrap_or s.subscriptions.next_id 0 in
      if ltb max_write_path_scan_depth next_id
      then err Error.invalid_input
      else exposure_from s.subscriptions.subs subscriber token next_id 0 (pos 0)

  -- The exposure with the new liability, against the limit.
  within_limit : State L → Address → Address → ℤ → ℤ → Result (Unit {0})
  unfolding compute_subscriber_exposure safe_add
  within_limit s subscriber token additional_liability limit =
      on_ok (compute_subscriber_exposure s subscriber token) λ current.
        on_ok (safe_add current additional_liability) λ new_exposure.
          if ltb_ℤ limit new_exposure then err Error.credit_limit_exceeded else ok tt

  unfoldable pub enforce_credit_limit_for_delta :
      State L → Address → Address → ℤ → Result (Unit {0})
  unfolding get_subscriber_credit_limit within_limit
  enforce_credit_limit_for_delta s subscriber token additional_liability =
      let limit = get_subscriber_credit_limit s subscriber token in
      if leb_ℤ additional_liability (pos 0)
      then ok tt
      else if beq_ℤ limit (pos 0)
      then ok tt
      else within_limit s subscriber token additional_liability limit

  -- The effective cap: explicit, else the merchant's default, else the global one.
  unfoldable pub resolve_cap : State L → Address → Option ℤ → Option ℤ
  resolve_cap s merchant explicit_cap =
      capped explicit_cap
        (capped (get s.subscriptions.merchant_caps merchant) s.subscriptions.cap_default)

  set_credit_limit : Address → Address → ℤ → State L → State L
  set_credit_limit subscriber token limit s = record s {
    subscriptions = record subscriptions {
      credit_limits = set credit_limits (subscriber, token) limit;
    };
  }
    where
      open s use {subscriptions}
      open subscriptions use {credit_limits}

  set_cap_default : Option ℤ → State L → State L
  set_cap_default cap s = record s { subscriptions = record subscriptions { cap_default = cap } }
    where
      open s use {subscriptions}

  set_merchant_cap : Address → Option ℤ → State L → State L
  set_merchant_cap merchant cap s = record s {
    subscriptions = record subscriptions {
      merchant_caps = put_cap set remove merchant_caps merchant cap;
    };
  }
    where
      open s use {subscriptions}
      open subscriptions use {merchant_caps}

  -- The source writes the bare id, a key that no other function reads.
  put_at_bare_id : ℕ → Subscription → State L → State L
  put_at_bare_id id sub s = record s {
    subscriptions = record subscriptions { bare_id_subs = set bare_id_subs id sub };
  }
    where
      open s use {subscriptions}
      open subscriptions use {bare_id_subs}

module _ {L : Type 0} (env : Env L) where
  unfoldable pub do_set_global_cap_default : Address → Option ℤ → Call L (Unit {0})
  unfolding require_admin_auth cap_is_positive set_cap_default publish
  do_set_global_cap_default admin cap = do
    require_admin_auth env admin
    lift (cap_is_positive cap)
    old_default ← gets (λ s. s.subscriptions.cap_default)
    modify (set_cap_default cap)
    publish (global_cap_set admin old_default cap env.timestamp)

  unfoldable pub do_set_merchant_cap_default : Address → Option ℤ → Call L (Unit {0})
  unfolding require_auth cap_is_positive set_merchant_cap publish
  do_set_merchant_cap_default merchant cap = do
    require_auth env merchant
    lift (cap_is_positive cap)
    old_default ← gets (λ s. get s.subscriptions.merchant_caps merchant)
    modify (set_merchant_cap merchant cap)
    publish (merchant_cap_set merchant old_default cap env.timestamp)

  unfoldable pub do_update_subscription_cap : Address → ℕ → Option ℤ → Call L (Unit {0})
  unfolding require_admin_auth cap_is_positive get_subscription cap_covers put_at_bare_id publish
  do_update_subscription_cap admin id new_cap = do
    require_admin_auth env admin
    lift (cap_is_positive new_cap)
    sub ← get_subscription id
    lift (cap_covers new_cap sub.lifetime_charged)
    modify (put_at_bare_id id (record sub { lifetime_cap = new_cap }))
    publish (cap_updated id sub.lifetime_cap new_cap env.timestamp)

  unfoldable pub do_set_subscriber_credit_limit :
      Address → Address → Address → ℤ → Call L (Unit {0})
  unfolding require_admin_auth set_credit_limit
  do_set_subscriber_credit_limit admin subscriber token limit = do
    require_admin_auth env admin
    fail_if (ltb_ℤ limit (pos 0)) Error.invalid_amount
    modify (set_credit_limit subscriber token limit)
