-- ===== src/Vault/Entries.antt =====
-- The entry points of lib.rs for plans, charges for use, statements and the blocklist, and the
-- exports for a migration.
use stellabill_contracts.Prelude.{
  ℕ, zero, suc, ◌-◌, ℤ, Bool, Option, none, some, String, List, [], ◌∷◌, ◌==◌, ◌||◌, nat_eq, ltb,
  leb, get, unwrap_or, if◌then◌else◌, saturating_add_u32, length, Map,
}
use stellabill_contracts.Types.Errors.{Error}
use stellabill_contracts.Types.Records.{
  Address, Subscription, UsageChargeResult, BillingCompactionSummary, ContractSnapshot,
  SubscriptionSummary,
}
use stellabill_contracts.Types.Events.{
  billing_compacted, migration_contract_snapshot, migration_export,
}
use stellabill_contracts.Host.State.{Env}
use stellabill_contracts.Host.Calls.{
  Call, ◌>>=◌, ◌>>◌, pure, gets, modify, fail_if, or_fail, publish, guarded,
}
use stellabill_contracts.Store.{get_subscription}
use stellabill_contracts.Admin.{require_admin_auth, get_min_topup}
use stellabill_contracts.Oracle.{set_oracle_config as store_oracle_config}
use stellabill_contracts.Merchant.{withdraw_merchant_funds_for_token}
use stellabill_contracts.Statements.Compaction.{
  set_retention_config, get_compacted_aggregate, compact_subscription_statements,
}
use stellabill_contracts.ChargeCore.Usage.{charge_usage_one}
use stellabill_contracts.Subscription.Create.{
  Terms, do_create_subscription, do_create_subscription_with_token,
}
use stellabill_contracts.Subscription.Plans.Calls.{do_create_subscription_from_plan}
use stellabill_contracts.Subscription.Funds.{do_withdraw_subscriber_funds}
use stellabill_contracts.Queries.{earlier_id}
use stellabill_contracts.Vault.{require_not_emergency_stop}

abbrev pub storage_version : ℕ
storage_version = 2

abbrev pub max_export_limit : ℕ
max_export_limit = 100

unfoldable pub summary_of : ℕ → Subscription → SubscriptionSummary
summary_of id sub = record {
  subscription_id = id;
  subscriber = sub.subscriber;
  merchant = sub.merchant;
  token = sub.token;
  amount = sub.amount;
  interval_seconds = sub.interval_seconds;
  last_payment_timestamp = sub.last_payment_timestamp;
  status = sub.status;
  prepaid_balance = sub.prepaid_balance;
  usage_enabled = sub.usage_enabled;
  lifetime_cap = sub.lifetime_cap;
  lifetime_charged = sub.lifetime_charged;
  start_time = sub.start_time;
  expires_at = sub.expires_at;
}

-- The loop over `n` ids from `id` on.
unfoldable pub summaries : Map ℕ Subscription → (n id : ℕ) → List SubscriptionSummary
unfolding summary_of
summaries subs zero id = []
summaries subs (suc n) id = elim (get subs id) [
  | none ↦ summaries subs n (suc id)
  | some sub ↦ summary_of id sub ∷ summaries subs n (suc id)
]

module _ {L : Type 0} (env : Env L) where
  unfoldable pub create_subscription : Terms → Call L ℕ
  unfolding require_not_emergency_stop do_create_subscription
  create_subscription terms = do require_not_emergency_stop; do_create_subscription env terms

  unfoldable pub create_subscription_with_token : Address → Terms → Call L ℕ
  unfolding require_not_emergency_stop do_create_subscription_with_token
  create_subscription_with_token token terms = do
    require_not_emergency_stop
    do_create_subscription_with_token env token terms

  unfoldable pub create_subscription_from_plan : Address → ℕ → Call L ℕ
  unfolding require_not_emergency_stop do_create_subscription_from_plan
  create_subscription_from_plan subscriber plan_template_id = do
    require_not_emergency_stop
    do_create_subscription_from_plan env subscriber plan_template_id

  -- Without a reference of its own, every such charge has the reference "usage".
  unfoldable pub charge_usage : ℕ → ℤ → Call L UsageChargeResult
  unfolding require_not_emergency_stop guarded charge_usage_one
  charge_usage subscription_id usage_amount = do
    require_not_emergency_stop
    guarded "charge_usage" (charge_usage_one env subscription_id usage_amount "usage")

  unfoldable pub charge_usage_with_reference : ℕ → ℤ → String → Call L UsageChargeResult
  unfolding require_not_emergency_stop guarded charge_usage_one
  charge_usage_with_reference subscription_id usage_amount reference = do
    require_not_emergency_stop
    guarded "charge_usage_with_reference"
        (charge_usage_one env subscription_id usage_amount reference)

  unfoldable pub withdraw_subscriber_funds : ℕ → Address → Call L (Unit {0})
  unfolding guarded do_withdraw_subscriber_funds
  withdraw_subscriber_funds subscription_id subscriber =
      guarded "withdraw_subscriber_funds"
        (do_withdraw_subscriber_funds env subscription_id subscriber)

  unfoldable pub withdraw_merchant_token_funds : Address → Address → ℤ → Call L (Unit {0})
  unfolding guarded withdraw_merchant_funds_for_token
  withdraw_merchant_token_funds merchant token amount =
      guarded "withdraw_merchant_token_funds"
        (withdraw_merchant_funds_for_token env merchant token amount)

  unfoldable pub set_oracle_config : Address → Bool → Option Address → ℕ → Call L (Unit {0})
  unfolding require_admin_auth store_oracle_config
  set_oracle_config admin enabled oracle max_age_seconds = do
    require_admin_auth env admin
    store_oracle_config enabled oracle max_age_seconds

  unfoldable pub set_billing_retention : Address → ℕ → Call L (Unit {0})
  unfolding require_admin_auth set_retention_config
  set_billing_retention admin keep_recent = do
    require_admin_auth env admin
    modify (set_retention_config keep_recent)

  unfoldable pub compact_billing_statements :
      Address → ℕ → Option ℕ → Call L BillingCompactionSummary
  unfolding require_admin_auth compact_subscription_statements get_compacted_aggregate publish
  compact_billing_statements admin subscription_id keep_recent_override = do
    require_admin_auth env admin
    summary ← compact_subscription_statements subscription_id keep_recent_override
    aggregate ← gets (λ s. get_compacted_aggregate s subscription_id)
    publish (billing_compacted admin summary env.timestamp aggregate)
    pure summary

  unfoldable pub export_contract_snapshot : Address → Call L ContractSnapshot
  unfolding require_admin_auth get_min_topup publish
  export_contract_snapshot admin = do
    require_admin_auth env admin
    stored ← gets (λ s. s.admin_store.default_token)
    token ← or_fail stored Error.not_found
    min_topup ← get_min_topup
    next_id ← gets (λ s. unwrap_or s.subscriptions.next_id 0)
    publish (migration_contract_snapshot admin env.timestamp)
    pure (record {
      admin = admin;
      token = token;
      min_topup = min_topup;
      next_id = next_id;
      storage_version = storage_version;
      timestamp = env.timestamp;
    })

  unfoldable pub export_subscription_summary : Address → ℕ → Call L SubscriptionSummary
  unfolding require_admin_auth get_subscription summary_of publish
  export_subscription_summary admin subscription_id = do
    require_admin_auth env admin
    sub ← get_subscription subscription_id
    publish (migration_export admin subscription_id 1 1 env.timestamp)
    pure (summary_of subscription_id sub)

  -- A page that is asked for past the last id is empty, with no event.
  unfoldable pub export_from :
      Address → (start_id limit next_id : ℕ) → Call L (List SubscriptionSummary)
  unfolding summaries publish
  export_from admin start_id limit next_id = do
    let end_id = earlier_id (saturating_add_u32 start_id limit) next_id
    out ← gets (λ s. summaries s.subscriptions.subs (end_id - start_id) start_id)
    publish (migration_export admin start_id limit (length out) env.timestamp)
    pure out

  unfoldable pub export_subscription_summaries :
      Address → (start_id limit : ℕ) → Call L (List SubscriptionSummary)
  unfolding require_admin_auth export_from
  export_subscription_summaries admin start_id limit = do
    require_admin_auth env admin
    fail_if (ltb max_export_limit limit) Error.invalid_export_limit
    next_id ← gets (λ s. unwrap_or s.subscriptions.next_id 0)
    if limit == 0 || leb next_id start_id then pure [] else export_from admin start_id limit next_id
