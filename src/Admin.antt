-- ===== src/Admin.antt =====
-- contracts/subscription_vault/src/admin.rs, the part that other modules read: who the admin is,
-- the accepted tokens, and the fee settings.
pub mod Operations
pub mod Bounds
use stellabill_contracts.Prelude.{ℕ, ℤ, Bool, Option, not, ◌==◌, nat_eq, get, is_some, unwrap_or}
use stellabill_contracts.Types.Errors.{Error}
use stellabill_contracts.Types.Records.{Address}
use stellabill_contracts.Host.State.{State, Env}
use stellabill_contracts.Host.Calls.{Call, ◌>>=◌, ◌>>◌, pure, fail_if, or_fail, require_auth}

module _ {L : Type 0} where
  unfoldable pub require_admin : Call L Address
  require_admin s = or_fail s.admin_store.admin Error.not_initialized s

  unfoldable pub get_min_topup : Call L ℤ
  get_min_topup s = or_fail s.admin_store.min_topup Error.not_initialized s

  unfoldable pub get_grace_period : State L → ℕ
  get_grace_period s = unwrap_or s.admin_store.grace_duration 0

  unfoldable pub get_token : Call L Address
  get_token s = or_fail s.admin_store.default_token Error.not_found s

  unfoldable pub get_token_decimals : State L → Address → Option ℕ
  get_token_decimals s token = get s.admin_store.token_decimals token

  unfoldable pub is_token_accepted : State L → Address → Bool
  is_token_accepted s token = is_some (get s.admin_store.token_decimals token)

  unfoldable pub get_protocol_fee_bps : State L → ℕ
  get_protocol_fee_bps s = unwrap_or s.admin_store.fee_bps 0

  unfoldable pub get_treasury : State L → Option Address
  get_treasury s = s.admin_store.treasury

module _ {L : Type 0} (env : Env L) where
  unfoldable pub require_admin_auth : Address → Call L (Unit {0})
  unfolding require_admin require_auth
  require_admin_auth admin = do
    require_auth env admin
    stored_admin ← require_admin
    fail_if (not (admin == stored_admin)) Error.unauthorized

  unfoldable pub require_stored_admin_auth : Call L Address
  unfolding require_admin require_auth
  require_stored_admin_auth = do
    stored_admin ← require_admin
    require_auth env stored_admin
    pure stored_admin
