-- ===== src/Types/Events.antt =====
-- The events that the contract publishes: one constructor for each topic, whose arguments are the
-- fields of the event struct in the order of the source. `usage_limits_configured` and
-- `billing_compacted` carry the records whose fields the struct repeats.
use stellabill_contracts.Prelude.{ℕ, ℤ, Bool, Option, String}
use stellabill_contracts.Types.Records.{
  Address, SubscriptionStatus, UsageChargeResult, RecoveryReason, UsageLimits,
  BillingCompactionSummary, BillingStatementAggregate,
}

pub data Event : Type 0 where
  nonce_consumed : (signer domain nonce timestamp : ℕ) → Event
  initialized : (token admin : Address) (min_topup : ℤ) (grace_period : ℕ) → Event
  min_topup_updated : ℤ → Event
  admin_rotated : (old_admin new_admin : Address) (timestamp : ℕ) → Event
  emergency_stop_enabled : (admin : Address) (timestamp : ℕ) → Event
  emergency_stop_disabled : (admin : Address) (timestamp : ℕ) → Event
  recovery :
      (admin recipient token : Address) (amount : ℤ) (reason : RecoveryReason) (timestamp : ℕ)
      → Event
  protocol_fee_configured : (admin treasury : Address) (fee_bps timestamp : ℕ) → Event
  subscription_created :
      (subscription_id : ℕ) (subscriber merchant token : Address) (amount : ℤ)
      (interval_seconds : ℕ) (lifetime_cap : Option ℤ) (expires_at : Option ℕ) (timestamp : ℕ)
      → Event
  deposited :
      (subscription_id : ℕ) (subscriber token : Address) (amount new_balance : ℤ) (timestamp : ℕ)
      → Event
  subscription_charged :
      (subscription_id : ℕ) (subscriber merchant token : Address) (amount lifetime_charged : ℤ)
      (timestamp period_start period_end : ℕ)
      → Event
  charge_failed :
      (subscription_id : ℕ) (merchant : Address) (required_amount available_balance shortfall : ℤ)
      (resulting_status : SubscriptionStatus) (timestamp : ℕ)
      → Event
  recovery_ready :
      (subscription_id : ℕ) (subscriber : Address) (prepaid_balance required_amount : ℤ)
      (timestamp : ℕ)
      → Event
  subscription_cancelled :
      (subscription_id : ℕ) (subscriber merchant token authorizer : Address) (refund_amount : ℤ)
      (timestamp : ℕ)
      → Event
  subscription_paused :
      (subscription_id : ℕ) (subscriber merchant authorizer : Address) (timestamp : ℕ) → Event
  -- `do_deposit_funds` leaves out `previous_status`, which the struct declares.
  subscription_resumed :
      (subscription_id : ℕ) (subscriber merchant authorizer : Address)
      (previous_status : Option SubscriptionStatus) (timestamp : ℕ)
      → Event
  subscription_expired : (subscription_id timestamp : ℕ) → Event
  subscription_archived : (subscription_id timestamp : ℕ) → Event
  withdrawn : (merchant token : Address) (amount remaining_balance : ℤ) (timestamp : ℕ) → Event
  subscriber_withdrawn :
      (subscription_id : ℕ) (subscriber token : Address) (amount : ℤ) (timestamp : ℕ) → Event
  partial_refund :
      (subscription_id : ℕ) (subscriber token : Address) (amount : ℤ) (timestamp : ℕ) → Event
  one_off_charged :
      (subscription_id : ℕ) (subscriber merchant token : Address) (amount remaining_balance : ℤ)
      (timestamp : ℕ)
      → Event
  lifetime_cap_reached :
      (subscription_id : ℕ) (lifetime_cap lifetime_charged : ℤ) (timestamp : ℕ) → Event
  usage_charged :
      (subscription_id : ℕ) (merchant : Address) (usage_amount : ℤ) (token : Address)
      (timestamp : ℕ) (reference : String)
      → Event
  usage_charge_rejected :
      (subscription_id : ℕ) (merchant token : Address) (usage_amount : ℤ) (timestamp : ℕ)
      (reference : String) (result : UsageChargeResult)
      → Event
  merchant_paused : (merchant : Address) (timestamp : ℕ) → Event
  merchant_unpaused : (merchant : Address) (timestamp : ℕ) → Event
  merchant_refund : (merchant subscriber token : Address) (amount : ℤ) (timestamp : ℕ) → Event
  protocol_fee_charged :
      (subscription_id : ℕ) (treasury : Address) (fee_amount merchant_amount : ℤ) (timestamp : ℕ)
      → Event
  oracle_charge_resolved :
      (subscription_id : ℕ) (quote_amount token_amount price : ℤ) (price_timestamp timestamp : ℕ)
      → Event
  global_cap_set : (admin : Address) (old_default new_default : Option ℤ) (timestamp : ℕ) → Event
  merchant_cap_set :
      (merchant : Address) (old_default new_default : Option ℤ) (timestamp : ℕ) → Event
  cap_updated : (subscription_id : ℕ) (old_cap new_cap : Option ℤ) (timestamp : ℕ) → Event
  plan_created :
      (plan_template_id : ℕ) (merchant token : Address) (amount : ℤ) (interval_seconds : ℕ)
      (usage_enabled : Bool) (lifetime_cap : Option ℤ) (timestamp : ℕ)
      → Event
  plan_template_updated :
      (template_key old_plan_id new_plan_id version : ℕ) (merchant : Address) (timestamp : ℕ)
      → Event
  plan_disabled : (plan_template_id : ℕ) (merchant : Address) (timestamp : ℕ) → Event
  subscription_migrated :
      (subscription_id template_key from_plan_id to_plan_id : ℕ) (merchant subscriber : Address)
      (timestamp : ℕ)
      → Event
  plan_max_active_set :
      (plan_template_id : ℕ) (merchant : Address) (max_active timestamp : ℕ) → Event
  usage_limits_configured :
      (subscription_id : ℕ) (merchant : Address) (limits : UsageLimits) (timestamp : ℕ) → Event
  blocklist_added : (subscriber added_by : Address) (timestamp : ℕ) (reason : Option String) → Event
  blocklist_removed : (subscriber removed_by : Address) (timestamp : ℕ) → Event
  merchant_config_initialized :
      (merchant payout_address : Address) (fee_bips allowed_operations : ℤ) (timestamp : ℕ) → Event
  -- The topics are `merchant_config_set` and `merchant_config_updated`, of one struct.
  merchant_config_set merchant_config_updated :
      (merchant payout_address : Address) (fee_bips allowed_operations : ℤ) (is_active : Bool)
      (timestamp : ℕ)
      → Event
  billing_compacted :
      (admin : Address) (summary : BillingCompactionSummary) (timestamp : ℕ)
      (aggregate : BillingStatementAggregate)
      → Event
  migration_contract_snapshot : (admin : Address) (timestamp : ℕ) → Event
  migration_export : (admin : Address) (start_id limit exported timestamp : ℕ) → Event
  metadata_set : (subscription_id : ℕ) (key : String) (authorizer : Address) → Event
  metadata_deleted : (subscription_id : ℕ) (key : String) (authorizer : Address) → Event
