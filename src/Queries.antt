-- ===== src/Queries.antt =====
-- contracts/subscription_vault/src/queries.rs: what a caller can ask of the stored subscriptions.
-- `get_subscription` itself stands in Store.antt.
pub mod Pages
use stellabill_contracts.Prelude.{
  ℕ, zero, suc, ◌+◌, ◌-◌, ℤ, pos, Bool, true, false, Option, none, some, String, List, [], ◌∷◌,
  ◌++◌, ◌==◌, ◌||◌, nat_eq, get, ltb, leb, leb_ℤ, ltb_ℤ, unwrap_or, if◌then◌else◌, length, take,
  drop, saturating_add_u32, saturating_add_u64, saturating_sub, Map, ◌%◌, ◌^◌,
}
use stellabill_contracts.Types.Errors.{Error}
use stellabill_contracts.Types.Records.{
  Address, Subscription, SubscriptionStatus, NextChargeInfo, CapInfo, SubscriptionsPage,
}
use stellabill_contracts.Host.State.{State}
use stellabill_contracts.Host.Calls.{Call, Result, ok, ◌>>=◌, ◌>>◌, pure, gets, fail_if, lift}
use stellabill_contracts.SafeMath.{safe_mul, safe_sub}
use stellabill_contracts.Store.{get_subscription}

abbrev pub max_subscription_list_page : ℕ
max_subscription_list_page = 100

abbrev pub max_scan_depth : ℕ
max_scan_depth = 1_000

abbrev pub is_bad_limit : ℕ → Bool
is_bad_limit limit = limit == 0 || ltb max_subscription_list_page limit

unfoldable pub missing_topup : ℤ → ℤ → Result ℤ
unfolding safe_sub
missing_topup required prepaid =
    if leb_ℤ required prepaid then ok (pos 0) else safe_sub required prepaid

-- The stored subscriptions of a list of ids; an id without one is left out.
unfoldable pub stored_subs : Map ℕ Subscription → List ℕ → List Subscription
stored_subs subs [] = []
stored_subs subs (id ∷ ids) = elim (get subs id) [
  | none ↦ stored_subs subs ids
  | some sub ↦ sub ∷ stored_subs subs ids
]

-- The end of a page in an index of `len` ids. `start + limit` wraps at 2^32.
unfoldable pub page_end : (start limit len : ℕ) → ℕ
page_end start limit len = let last = (start + limit) % 2 ^ 32 in if ltb len last then len else last

unfoldable pub index_page : Map ℕ Subscription → List ℕ → (start limit : ℕ) → List Subscription
unfolding page_end stored_subs
index_page subs ids start limit =
    if leb (length ids) start
    then []
    else stored_subs subs (take (page_end start limit (length ids) - start) (drop start ids))

unfoldable pub is_charge_expected : SubscriptionStatus → Bool
is_charge_expected SubscriptionStatus.active = true
is_charge_expected SubscriptionStatus.grace_period = true
is_charge_expected SubscriptionStatus.insufficient_balance = false
is_charge_expected SubscriptionStatus.paused = false
is_charge_expected SubscriptionStatus.cancelled = false
is_charge_expected SubscriptionStatus.expired = false
is_charge_expected SubscriptionStatus.archived = false

unfoldable pub status_reason : SubscriptionStatus → String
status_reason SubscriptionStatus.active = "active"
status_reason SubscriptionStatus.grace_period = "grace"
status_reason SubscriptionStatus.insufficient_balance = "insuf_bal"
status_reason SubscriptionStatus.paused = "paused"
status_reason SubscriptionStatus.cancelled = "cancelled"
status_reason SubscriptionStatus.expired = "expired"
status_reason SubscriptionStatus.archived = "archived"

unfoldable pub compute_next_charge_info : Subscription → NextChargeInfo
unfolding is_charge_expected status_reason
compute_next_charge_info sub = record {
  next_charge_timestamp = saturating_add_u64 sub.last_payment_timestamp sub.interval_seconds;
  is_charge_expected = is_charge_expected sub.status;
  status = sub.status;
  reason = status_reason sub.status;
  amount = sub.amount;
  token = sub.token;
}

abbrev not_negative : ℤ → ℤ
not_negative a = if ltb_ℤ a (pos 0) then pos 0 else a

abbrev remaining : Option ℤ → ℤ → Option ℤ
remaining none charged = none
remaining (some cap) charged = some (not_negative (saturating_sub cap charged))

abbrev is_cap_reached : Option ℤ → ℤ → Bool
is_cap_reached none charged = false
is_cap_reached (some cap) charged = leb_ℤ cap charged

unfoldable pub cap_info : Subscription → CapInfo
unfolding saturating_sub
cap_info sub = record {
  lifetime_cap = sub.lifetime_cap;
  lifetime_charged = sub.lifetime_charged;
  remaining_cap = remaining sub.lifetime_cap sub.lifetime_charged;
  cap_reached = is_cap_reached sub.lifetime_cap sub.lifetime_charged;
}

unfoldable pub is_of : Address → Option Subscription → Bool
is_of subscriber none = false
is_of subscriber (some sub) = sub.subscriber == subscriber

-- The scan of `n` ids from `id` on, with the ids found so far; `after` is the cursor of a scan that
-- comes to its end.
unfoldable pub scan_subscriptions :
    Map ℕ Subscription → Address → (limit : ℕ) → Option ℕ → (n id : ℕ) → List ℕ → SubscriptionsPage
unfolding is_of
scan_subscriptions subs subscriber limit after zero id found = record {
  subscription_ids = found;
  next_start_id = after;
}
scan_subscriptions subs subscriber limit after (suc n) id found =
    elim (is_of subscriber (get subs id)) [
      | false ↦ scan_subscriptions subs subscriber limit after n (suc id) found
      | true ↦ elim (ltb (length found) limit) [
        | true ↦ scan_subscriptions subs subscriber limit after n (suc id) (found ++ id ∷ [])
        | false ↦ record { subscription_ids = found; next_start_id = some id }
      ]
    ]

abbrev pub earlier_id : ℕ → ℕ → ℕ
earlier_id a b = if leb a b then a else b

module _ {L : Type 0} where
  unfoldable pub estimate_topup_for_intervals : ℕ → ℕ → Call L ℤ
  unfolding get_subscription safe_mul missing_topup
  estimate_topup_for_intervals id num_intervals = do
    sub ← get_subscription id
    if num_intervals == 0 then pure (pos 0) else (do
      required ← lift (safe_mul sub.amount (pos num_intervals))
      lift (missing_topup required sub.prepaid_balance))

  abbrev pub merchant_index : State L → Address → List ℕ
  merchant_index s merchant = unwrap_or (get s.subscriptions.merchant_subs merchant) []

  abbrev pub token_index : State L → Address → List ℕ
  token_index s token = unwrap_or (get s.subscriptions.token_subs token) []

  unfoldable pub get_subscriptions_by_merchant :
      Address → (start limit : ℕ) → Call L (List Subscription)
  unfolding index_page
  get_subscriptions_by_merchant merchant start limit = do
    fail_if (is_bad_limit limit) Error.invalid_input
    gets (λ s. index_page s.subscriptions.subs (merchant_index s merchant) start limit)

  unfoldable pub get_merchant_subscription_count : State L → Address → ℕ
  get_merchant_subscription_count s merchant = length (merchant_index s merchant)

  unfoldable pub get_token_subscription_count : State L → Address → ℕ
  get_token_subscription_count s token = length (token_index s token)

  unfoldable pub get_subscriptions_by_token :
      Address → (start limit : ℕ) → Call L (List Subscription)
  unfolding index_page
  get_subscriptions_by_token token start limit = do
    fail_if (is_bad_limit limit) Error.invalid_input
    gets (λ s. index_page s.subscriptions.subs (token_index s token) start limit)

  unfoldable pub get_next_charge_info : ℕ → Call L NextChargeInfo
  unfolding get_subscription compute_next_charge_info
  get_next_charge_info id = do sub ← get_subscription id; pure (compute_next_charge_info sub)

  unfoldable pub get_cap_info : ℕ → Call L CapInfo
  unfolding get_subscription cap_info
  get_cap_info id = do sub ← get_subscription id; pure (cap_info sub)

  unfoldable pub page_by_subscriber : State L → Address → (start limit : ℕ) → SubscriptionsPage
  unfolding scan_subscriptions
  page_by_subscriber s subscriber start limit =
      let next_id = unwrap_or s.subscriptions.next_id 0 in
      let scan_end = earlier_id (saturating_add_u32 start max_scan_depth) next_id in
      scan_subscriptions s.subscriptions.subs subscriber limit
        (if ltb scan_end next_id then some scan_end else none) (scan_end - start) start []

  unfoldable pub list_subscriptions_by_subscriber :
      Address → (start limit : ℕ) → Call L SubscriptionsPage
  unfolding page_by_subscriber
  list_subscriptions_by_subscriber subscriber start limit = do
    fail_if (is_bad_limit limit) Error.invalid_input
    gets (λ s. page_by_subscriber s subscriber start limit)
