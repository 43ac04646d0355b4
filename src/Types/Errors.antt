-- ===== src/Types/Errors.antt =====
-- `enum Error` of contracts/subscription_vault/src/types.rs, with its numeric codes.
use stellabill_contracts.Prelude.{ℕ}

pub data Error : Type 0 where
  unauthorized forbidden subscriber_blocklisted self_rotation : Error
  not_found not_initialized : Error
  invalid_amount invalid_input invalid_recovery_amount invalid_new_admin : Error
  metadata_key_too_long metadata_value_too_long oracle_price_invalid : Error
  invalid_status_transition not_active subscription_expired interval_not_elapsed replay : Error
  recovery_not_allowed emergency_stop_active already_initialized merchant_paused reentrancy : Error
  insufficient_balance insufficient_prepaid_balance below_minimum_topup underflow overflow : Error
  oracle_not_configured oracle_price_unavailable oracle_price_stale : Error
  subscription_limit_reached lifetime_cap_reached usage_not_enabled invalid_export_limit : Error
  metadata_key_limit_reached max_concurrent_subscriptions_reached credit_limit_exceeded : Error
  rate_limit_exceeded usage_cap_exceeded burst_limit_exceeded : Error
  invalid_fee_bips invalid_operations must_allow_charge_operation : Error
  invalid_token_decimals invalid_token : Error
  cannot_change_usage_mode : Error
  -- Named by nonce.rs, and not declared in types.rs: it has no code there, written 0 below.
  nonce_already_used : Error

pub to_code : Error → ℕ
to_code Error.unauthorized = 1001
to_code Error.forbidden = 1002
to_code Error.subscriber_blocklisted = 1003
to_code Error.self_rotation = 1004
to_code Error.not_found = 2001
to_code Error.not_initialized = 2002
to_code Error.invalid_amount = 3001
to_code Error.invalid_input = 3002
to_code Error.invalid_recovery_amount = 3003
to_code Error.invalid_new_admin = 3004
to_code Error.metadata_key_too_long = 3005
to_code Error.metadata_value_too_long = 3006
to_code Error.oracle_price_invalid = 3007
to_code Error.invalid_status_transition = 4001
to_code Error.not_active = 4002
to_code Error.subscription_expired = 4003
to_code Error.interval_not_elapsed = 4004
to_code Error.replay = 4005
to_code Error.recovery_not_allowed = 4006
to_code Error.emergency_stop_active = 4007
to_code Error.already_initialized = 4008
to_code Error.merchant_paused = 4009
to_code Error.reentrancy = 4010
to_code Error.insufficient_balance = 5001
to_code Error.insufficient_prepaid_balance = 5002
to_code Error.below_minimum_topup = 5003
to_code Error.underflow = 5004
to_code Error.overflow = 5005
to_code Error.oracle_not_configured = 5006
to_code Error.oracle_price_unavailable = 5007
to_code Error.oracle_price_stale = 5008
to_code Error.subscription_limit_reached = 6001
to_code Error.lifetime_cap_reached = 6002
to_code Error.usage_not_enabled = 6003
to_code Error.invalid_export_limit = 6004
to_code Error.metadata_key_limit_reached = 6005
to_code Error.max_concurrent_subscriptions_reached = 6006
to_code Error.credit_limit_exceeded = 6007
to_code Error.rate_limit_exceeded = 6008
to_code Error.usage_cap_exceeded = 6009
to_code Error.burst_limit_exceeded = 6010
to_code Error.invalid_fee_bips = 7001
to_code Error.invalid_operations = 7002
to_code Error.must_allow_charge_operation = 7003
to_code Error.invalid_token_decimals = 8001
to_code Error.invalid_token = 8002
to_code Error.cannot_change_usage_mode = 9001
to_code Error.nonce_already_used = 0
