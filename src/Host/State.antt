-- ===== src/Host/State.antt =====
-- The contract's storage, one field for each key of `enum DataKey` (types.rs) and for each key
-- that another file writes, beside the token balances and the events.
use stellabill_contracts.Prelude.{ℕ, ℤ, Bool, Option, String, List, Map}
use stellabill_contracts.Types.Records.{
  Address, Subscription, PlanTemplate, TokenEarnings, MerchantConfig, BillingStatement,
  BillingStatementAggregate, BillingPeriodSnapshot, UsageLimits, UsageState, OracleConfig,
  OraclePrice, BlocklistEntry,
}
use stellabill_contracts.Types.Events.{Event}

-- Keys of admin.rs, nonce.rs, oracle.rs, blocklist.rs and the emergency stop of lib.rs.
pub record AdminStore : Type 0 where
  pub default_token : Option Address
  pub admin : Option Address
  pub min_topup : Option ℤ
  pub schema_version : Option ℕ
  pub emergency_stop : Option Bool
  pub grace_duration : Option ℕ
  pub fee_bps : Option ℕ
  pub treasury : Option Address
  pub accepted_tokens : Option (List Address)
  pub token_decimals : Map Address ℕ
  pub oracle_config : Option OracleConfig
  pub admin_nonces : Map (Address × ℕ) ℕ
  pub recoveries : Map String Bool
  pub blocked : Map Address BlocklistEntry

-- Keys of subscription.rs. The last two are the keys that `do_update_subscription_cap` and
-- `do_disable_plan_template` write, which no other function reads.
pub record SubscriptionStore : Type 0 where
  pub next_id : Option ℕ
  pub subs : Map ℕ Subscription
  pub merchant_subs : Map Address (List ℕ)
  pub token_subs : Map Address (List ℕ)
  pub credit_limits : Map (Address × Address) ℤ
  pub cap_default : Option ℤ
  pub merchant_caps : Map Address ℤ
  pub next_plan_id : Option ℕ
  pub plans : Map ℕ PlanTemplate
  pub sub_plans : Map ℕ ℕ
  pub plan_max_active : Map ℕ ℕ
  pub bare_id_subs : Map ℕ Subscription
  pub symbol_plans : Map ℕ PlanTemplate

-- Keys of charge_core.rs, statements.rs and period_snapshots.rs.
pub record BillingStore : Type 0 where
  pub charged_period : Map ℕ ℕ
  pub idem_key : Map ℕ ℕ
  pub statement_next : Map ℕ ℕ
  pub statement_live : Map ℕ ℕ
  pub statement_rows : Map (ℕ × ℕ) BillingStatement
  pub retention : Option ℕ
  pub aggregates : Map ℕ BillingStatementAggregate
  pub period_snapshots : Map (ℕ × ℕ) BillingPeriodSnapshot
  pub snapshot_index : Map ℕ (List ℕ)
  pub usage_limits : Map ℕ UsageLimits
  pub usage_states : Map ℕ UsageState
  pub usage_refs : Map (ℕ × String) Bool

-- Keys of merchant.rs.
pub record MerchantStore : Type 0 where
  pub paused_merchants : Map Address Bool
  pub merchant_configs : Map Address MerchantConfig
  pub merchant_balances : Map (Address × Address) ℤ
  pub merchant_earnings : Map (Address × Address) TokenEarnings
  pub merchant_tokens : Map Address (List Address)

-- Keys of metadata.rs.
pub record MetadataStore : Type 0 where
  pub metadata_keys : Map ℕ (List String)
  pub metadata_values : Map (ℕ × String) String

-- `L` is the state of the token contracts.
pub record State (L : Type 0) : Type 0 where
  pub admin_store : AdminStore
  pub subscriptions : SubscriptionStore
  pub billing : BillingStore
  pub merchants : MerchantStore
  pub metadata : MetadataStore
  pub total_accounted : Map Address ℤ
  pub locks : Map String Bool
  pub ledger : L
  pub events : List Event

-- The token contracts, which the vault only calls. `none` is a call that traps.
pub record TokenContract (L : Type 0) : Type 0 where
  pub balance : L → Address → Address → ℤ
  pub transfer : L → Address → Address → Address → ℤ → Option L

-- What a call can read of its environment: `authorized a` says that the transaction carries the
-- authorization of `a`, and `latest_price` is the oracle's answer.
pub record Env (L : Type 0) : Type 0 where
  pub current_contract_address : Address
  pub timestamp : ℕ
  pub authorized : Address → Bool
  pub token_contract : TokenContract L
  pub latest_price : Address → Option OraclePrice
