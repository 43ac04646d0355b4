-- ===== src/Oracle.antt =====
-- contracts/subscription_vault/src/oracle.rs, under its default feature `oracle-pricing`: the
-- amount of a charge in the subscription's token.
use stellabill_contracts.Prelude.{
  ℕ, ◌-◌, ℤ, pos, Bool, Option, some, not, is_some, false, none, unwrap_or, leb_ℤ, ltb, ◌==◌, ◌&&◌,
  nat_eq, if◌then◌else◌,
}
use stellabill_contracts.Types.Errors.{Error}
use stellabill_contracts.Types.Records.{Address, OracleConfig, OraclePrice, Subscription}
use stellabill_contracts.Types.Events.{oracle_charge_resolved}
use stellabill_contracts.Host.State.{State, Env}
use stellabill_contracts.Host.Calls.{
  Call, Result, ◌>>=◌, ◌>>◌, pure, gets, modify, fail_if, or_fail, or_abort, lift, publish,
}
use stellabill_contracts.SafeMath.{safe_add, safe_sub, safe_mul, safe_div, safe_pow, on_ok}
use stellabill_contracts.Admin.{get_token_decimals}

abbrev no_oracle : OracleConfig
no_oracle = record { enabled = false; oracle = none; max_age_seconds = 0 }

-- The quoted amount in the token's smallest unit, rounded up.
token_units : ℤ → ℕ → ℤ → Result ℤ
unfolding safe_pow safe_mul safe_sub safe_add safe_div
token_units amount decimals price = on_ok (safe_pow (pos 10) decimals) λ scale.
    on_ok (safe_mul amount scale) λ numerator.
      on_ok (safe_sub price (pos 1))
        λ ceil_adjust. on_ok (safe_add numerator ceil_adjust) λ raised. safe_div raised price

module _ {L : Type 0} where
  unfoldable pub get_oracle_config : State L → OracleConfig
  get_oracle_config s = unwrap_or s.admin_store.oracle_config no_oracle

  unfoldable pub set_oracle_config : Bool → Option Address → ℕ → Call L (Unit {0})
  set_oracle_config enabled oracle max_age_seconds = do
    fail_if (enabled && not (is_some oracle)) Error.oracle_not_configured
    fail_if (enabled && max_age_seconds == 0) Error.invalid_input
    modify (λ s. record s {
      admin_store = record s.admin_store {
        oracle_config =
            some (record { enabled = enabled; oracle = oracle; max_age_seconds = max_age_seconds });
      };
    })

module _ {L : Type 0} (env : Env L) where
  -- The checks on the oracle's answer.
  usable_price : OracleConfig → OraclePrice → Call L (Unit {0})
  usable_price cfg price = do
    fail_if (leb_ℤ price.price (pos 0)) Error.oracle_price_invalid
    fail_if (price.timestamp == 0) Error.oracle_price_unavailable
    fail_if (ltb 0 cfg.max_age_seconds && ltb cfg.max_age_seconds (env.timestamp - price.timestamp))
        Error.oracle_price_stale

  priced_amount : ℕ → Subscription → OracleConfig → Call L ℤ
  unfolding usable_price get_token_decimals token_units publish
  priced_amount id sub cfg = do
    oracle ← or_fail cfg.oracle Error.oracle_not_configured
    price ← or_abort (env.latest_price oracle)
    usable_price cfg price
    decimals ← gets (λ s. unwrap_or (get_token_decimals s sub.token) 6)
    token_amount ← lift (token_units sub.amount decimals price.price)
    fail_if (leb_ℤ token_amount (pos 0)) Error.oracle_price_invalid
    publish (
        oracle_charge_resolved id sub.amount token_amount price.price price.timestamp env.timestamp)
    pure token_amount

  unfoldable pub resolve_charge_amount : ℕ → Subscription → Call L ℤ
  unfolding get_oracle_config priced_amount
  resolve_charge_amount id sub = do
    cfg ← gets get_oracle_config
    if cfg.enabled then priced_amount id sub cfg else pure sub.amount
