-- ===== src/Merchant/Config.antt =====
-- The merchants' configurations of merchant.rs.
use Prim.Native.Nat.{bit_and}
use stellabill_contracts.Prelude.{
  ℕ, ◌-◌, ◌^◌, ◌%◌, ℤ, pos, negsuc, Bool, true, false, Option, none, some, String, not, ◌==◌,
  nat_eq, ltb_ℤ, get, set, unwrap_or,
}
use stellabill_contracts.Types.Errors.{Error}
use stellabill_contracts.Types.Records.{Address, MerchantConfig}
use stellabill_contracts.Types.Events.{
  merchant_config_initialized, merchant_config_set, merchant_config_updated,
}
use stellabill_contracts.Host.State.{State, Env}
use stellabill_contracts.Host.Calls.{
  Call, ◌>>=◌, ◌>>◌, pure, gets, modify, fail_if, or_fail, publish, require_auth,
}

abbrev pub max_fee_bips : ℤ
max_fee_bips = pos 10_000

abbrev pub op_charge : ℕ
op_charge = 1

-- The five operations, bits 0 to 4.
abbrev pub valid_mask : ℕ
valid_mask = 31

-- The 32 bits of an `i32`.
abbrev pub bits : ℤ → ℕ
bits (pos n) = n % 2 ^ 32
bits (negsuc n) = 2 ^ 32 - 1 - n % 2 ^ 32

unfoldable pub is_valid_allowed_operations : ℤ → Bool
is_valid_allowed_operations ops = bit_and (bits ops) (2 ^ 32 - 1 - valid_mask) == 0

unfoldable pub allows_charge : ℤ → Bool
allows_charge ops = not (bit_and (bits ops) op_charge == 0)

-- What an update gives for each field.
pub record ConfigUpdate : Type 0 where
  pub payout_address : Option Address
  pub fee_bips : Option ℤ
  pub allowed_operations : Option ℤ
  pub is_active : Option Bool
  pub fee_address : Option (Option Address)
  pub redirect_url : Option String
  pub is_paused : Option Bool

-- The configuration with the fields that are given, at the time of the update.
unfoldable pub updated_config : ConfigUpdate → MerchantConfig → ℕ → MerchantConfig
updated_config update config now = record {
  version = config.version;
  payout_address = unwrap_or update.payout_address config.payout_address;
  fee_bips = unwrap_or update.fee_bips config.fee_bips;
  allowed_operations = unwrap_or update.allowed_operations config.allowed_operations;
  is_active = unwrap_or update.is_active config.is_active;
  fee_address = unwrap_or update.fee_address config.fee_address;
  redirect_url = unwrap_or update.redirect_url config.redirect_url;
  is_paused = unwrap_or update.is_paused config.is_paused;
  last_updated = now;
}

module _ {L : Type 0} where
  unfoldable pub get_merchant_config : State L → Address → Option MerchantConfig
  get_merchant_config s merchant = get s.merchants.merchant_configs merchant

  unfoldable pub put_config : Address → MerchantConfig → State L → State L
  put_config merchant config s = record s {
    merchants = record merchants { merchant_configs = set merchant_configs merchant config };
  }
    where
      open s use {merchants}
      open merchants use {merchant_configs}

  unfoldable pub validate_operations : ℤ → Call L (Unit {0})
  unfolding is_valid_allowed_operations allows_charge
  validate_operations ops = do
    fail_if (not (is_valid_allowed_operations ops)) Error.invalid_operations
    fail_if (not (allows_charge ops)) Error.must_allow_charge_operation

  unfoldable pub validate_merchant_config_input : ℤ → ℤ → Call L (Unit {0})
  unfolding validate_operations
  validate_merchant_config_input fee_bips allowed_operations = do
    fail_if (ltb_ℤ max_fee_bips fee_bips) Error.invalid_fee_bips
    validate_operations allowed_operations

  -- The checks of an update, on the fields that it gives.
  unfoldable pub validate_update : Option ℤ → Option ℤ → Call L (Unit {0})
  unfolding validate_operations
  validate_update none none = pure tt
  validate_update none (some ops) = validate_operations ops
  validate_update (some bips) none = fail_if (ltb_ℤ max_fee_bips bips) Error.invalid_fee_bips
  validate_update (some bips) (some ops) = do
    fail_if (ltb_ℤ max_fee_bips bips) Error.invalid_fee_bips
    validate_operations ops

module _ {L : Type 0} (env : Env L) where
  unfoldable pub initialize_merchant_config :
      (merchant payout_address : Address)
      → (fee_bips allowed_operations : ℤ) → Option Address
      → String
      → Call L MerchantConfig
  unfolding require_auth validate_merchant_config_input put_config publish
  initialize_merchant_config merchant payout_address fee_bips allowed_operations fee_address
        redirect_url =
      do
        require_auth env merchant
        validate_merchant_config_input fee_bips allowed_operations
        let config : MerchantConfig = record {
          version = 1;
          payout_address = payout_address;
          fee_bips = fee_bips;
          allowed_operations = allowed_operations;
          is_active = true;
          fee_address = fee_address;
          redirect_url = redirect_url;
          is_paused = false;
          last_updated = env.timestamp;
        }
        modify (put_config merchant config)
        publish (
            merchant_config_initialized merchant payout_address fee_bips allowed_operations
              env.timestamp)
        pure config

  unfoldable pub set_merchant_config : Address → MerchantConfig → Call L (Unit {0})
  unfolding require_auth validate_merchant_config_input put_config publish
  set_merchant_config merchant config = do
    require_auth env merchant
    validate_merchant_config_input config.fee_bips config.allowed_operations
    modify (put_config merchant (record config { last_updated = env.timestamp }))
    publish (
        merchant_config_set merchant config.payout_address config.fee_bips config.allowed_operations
          config.is_active env.timestamp)

  unfoldable pub update_merchant_config : Address → ConfigUpdate → Call L MerchantConfig
  unfolding require_auth get_merchant_config validate_update updated_config put_config publish
  update_merchant_config merchant update = do
    require_auth env merchant
    stored ← gets (λ s. get_merchant_config s merchant)
    config ← or_fail stored Error.not_found
    validate_update update.fee_bips update.allowed_operations
    let updated = updated_config update config env.timestamp
    modify (put_config merchant updated)
    publish (
        merchant_config_updated merchant updated.payout_address updated.fee_bips
          updated.allowed_operations updated.is_active env.timestamp)
    pure updated
