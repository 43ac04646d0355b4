-- ===== src/Types/Records.antt =====
-- The stored structs and enums of contracts/subscription_vault/src/types.rs and blocklist.rs.
-- Addresses are only compared, so they are numbers.
use stellabill_contracts.Prelude.{
  ℕ, ℤ, Bool, true, false, Option, none, some, String, List, ◌≡◌, ◌↔◌, ◌==◌, Eq, arith, leb, nat_eq,
}

abbrev pub Address : Type 0
Address = ℕ

pub data SubscriptionStatus : Type 0 where
  active paused cancelled insufficient_balance grace_period expired archived : SubscriptionStatus

-- The discriminants of the source.
abbrev pub status_code : SubscriptionStatus → ℕ
status_code SubscriptionStatus.active = 0
status_code SubscriptionStatus.paused = 1
status_code SubscriptionStatus.cancelled = 2
status_code SubscriptionStatus.insufficient_balance = 3
status_code SubscriptionStatus.grace_period = 4
status_code SubscriptionStatus.expired = 5
status_code SubscriptionStatus.archived = 6

abbrev pub status_beq : SubscriptionStatus → SubscriptionStatus → Bool
status_beq a b = status_code a == status_code b

pub status_beq_iff : (a b : SubscriptionStatus) → (status_beq a b ≡ true) ↔ (a ≡ b)
status_beq_iff a b = ground arith

instance abbrev pub status_eq : Eq SubscriptionStatus
status_eq = record { same = status_beq; same_iff = status_beq_iff }

pub record Subscription : Type 0 where
  pub subscriber : Address
  pub merchant : Address
  pub token : Address
  pub amount : ℤ
  pub interval_seconds : ℕ
  pub last_payment_timestamp : ℕ
  pub status : SubscriptionStatus
  pub prepaid_balance : ℤ
  pub usage_enabled : Bool
  pub lifetime_cap : Option ℤ
  pub lifetime_charged : ℤ
  pub start_time : ℕ
  pub expires_at : Option ℕ
  pub grace_start_timestamp : Option ℕ

abbrev reached : Option ℕ → ℕ → Bool
reached none now = false
reached (some exp) now = leb exp now

-- `Subscription::is_expired`
abbrev pub is_expired : Subscription → ℕ → Bool
is_expired sub now = reached sub.expires_at now

pub record PlanTemplate : Type 0 where
  pub merchant : Address
  pub token : Address
  pub amount : ℤ
  pub interval_seconds : ℕ
  pub usage_enabled : Bool
  pub lifetime_cap : Option ℤ
  pub template_key : ℕ
  pub version : ℕ
  pub is_disabled : Bool

pub data ChargeExecutionResult : Type 0 where
  charged insufficient_balance lifetime_cap_reached : ChargeExecutionResult

pub data UsageChargeResult : Type 0 where
  charged replay burst_limit_exceeded rate_limit_exceeded usage_cap_exceeded : UsageChargeResult

pub data BillingChargeKind : Type 0 where
  interval usage one_off : BillingChargeKind

pub record AccruedTotals : Type 0 where
  pub interval : ℤ
  pub usage : ℤ
  pub one_off : ℤ

pub record TokenEarnings : Type 0 where
  pub accruals : AccruedTotals
  pub withdrawals : ℤ
  pub refunds : ℤ

pub record TokenReconciliationSnapshot : Type 0 where
  pub token : Address
  pub total_accruals : ℤ
  pub total_withdrawals : ℤ
  pub total_refunds : ℤ
  pub computed_balance : ℤ

pub record MerchantConfig : Type 0 where
  pub version : ℕ
  pub payout_address : Address
  pub fee_bips : ℤ
  pub allowed_operations : ℤ
  pub is_active : Bool
  pub fee_address : Option Address
  pub redirect_url : String
  pub is_paused : Bool
  pub last_updated : ℕ

pub record BillingStatement : Type 0 where
  pub subscription_id : ℕ
  pub sequence : ℕ
  pub charged_at : ℕ
  pub period_start : ℕ
  pub period_end : ℕ
  pub amount : ℤ
  pub merchant : Address
  pub kind : BillingChargeKind

pub record BillingStatementAggregate : Type 0 where
  pub pruned_count : ℕ
  pub total_amount : ℤ
  pub totals : AccruedTotals
  pub oldest_period_start : Option ℕ
  pub newest_period_end : Option ℕ

pub record BillingStatementsPage : Type 0 where
  pub statements : List BillingStatement
  pub next_cursor : Option ℕ
  pub total : ℕ

pub record BillingCompactionSummary : Type 0 where
  pub subscription_id : ℕ
  pub pruned_count : ℕ
  pub kept_count : ℕ
  pub total_pruned_amount : ℤ

pub record BillingPeriodSnapshot : Type 0 where
  pub subscription_id : ℕ
  pub period_index : ℕ
  pub period_start : ℕ
  pub period_end : ℕ
  pub total_charged : ℤ
  pub total_usage_units : ℤ
  pub status_flags : ℕ
  pub finalized_at : ℕ

abbrev pub snapshot_flag_closed : ℕ
snapshot_flag_closed = 1

abbrev pub snapshot_flag_interval_charged : ℕ
snapshot_flag_interval_charged = 2

pub record UsageLimits : Type 0 where
  pub rate_limit_max_calls : Option ℕ
  pub rate_window_secs : ℕ
  pub burst_min_interval_secs : ℕ
  pub usage_cap_units : Option ℤ

pub record UsageState : Type 0 where
  pub last_usage_timestamp : ℕ
  pub window_start_timestamp : ℕ
  pub window_call_count : ℕ
  pub current_period_usage_units : ℤ
  pub period_index : ℕ

pub record OracleConfig : Type 0 where
  pub enabled : Bool
  pub oracle : Option Address
  pub max_age_seconds : ℕ

pub record OraclePrice : Type 0 where
  pub price : ℤ
  pub timestamp : ℕ

pub record BatchChargeResult : Type 0 where
  pub success : Bool
  pub error_code : ℕ

pub record BlocklistEntry : Type 0 where
  pub subscriber : Address
  pub added_by : Address
  pub added_at : ℕ
  pub reason : Option String

pub data RecoveryReason : Type 0 where
  user_overpayment failed_transfer expired_escrow system_correction : RecoveryReason
  accidental_transfer : RecoveryReason

pub record NextChargeInfo : Type 0 where
  pub next_charge_timestamp : ℕ
  pub is_charge_expected : Bool
  pub status : SubscriptionStatus
  pub reason : String
  pub amount : ℤ
  pub token : Address

pub record CapInfo : Type 0 where
  pub lifetime_cap : Option ℤ
  pub lifetime_charged : ℤ
  pub remaining_cap : Option ℤ
  pub cap_reached : Bool

-- `SubscriptionsPage` of queries.rs.
pub record SubscriptionsPage : Type 0 where
  pub subscription_ids : List ℕ
  pub next_start_id : Option ℕ

pub record AcceptedToken : Type 0 where
  pub token : Address
  pub decimals : ℕ

pub record ContractSnapshot : Type 0 where
  pub admin : Address
  pub token : Address
  pub min_topup : ℤ
  pub next_id : ℕ
  pub storage_version : ℕ
  pub timestamp : ℕ

pub record SubscriptionSummary : Type 0 where
  pub subscription_id : ℕ
  pub subscriber : Address
  pub merchant : Address
  pub token : Address
  pub amount : ℤ
  pub interval_seconds : ℕ
  pub last_payment_timestamp : ℕ
  pub status : SubscriptionStatus
  pub prepaid_balance : ℤ
  pub usage_enabled : Bool
  pub lifetime_cap : Option ℤ
  pub lifetime_charged : ℤ
  pub start_time : ℕ
  pub expires_at : Option ℕ
