-- ===== src/Admin/Operations.antt =====
-- contracts/subscription_vault/src/admin.rs, the calls of the admin: set-up, accepted tokens, the
-- fee, the change of admin, and the recovery of stranded tokens.
use stellabill_contracts.Prelude.{
  ℕ, ℤ, pos, true, none, some, Map, List, [], ◌∷◌, ◌++◌, not, ◌==◌, ◌||◌, nat_eq, string_eq, String,
  ltb, leb_ℤ, ltb_ℤ, get, set, remove, is_some, unwrap_or, if◌then◌else◌, checked_sub,
}
use stellabill_contracts.Types.Errors.{Error}
use stellabill_contracts.Types.Records.{Address, AcceptedToken, RecoveryReason}
use stellabill_contracts.Types.Events.{
  initialized, min_topup_updated, admin_rotated, protocol_fee_configured, recovery,
}
use stellabill_contracts.Host.State.{State, Env, AdminStore}
use stellabill_contracts.Host.Calls.{
  Call, ◌>>=◌, ◌>>◌, gets, modify, fail_if, or_fail, publish, require_auth, token_balance, transfer,
}
use stellabill_contracts.Accounting.{get_total_accounted}
use stellabill_contracts.Nonce.{check_and_advance, domain_admin_rotation}
use stellabill_contracts.Admin.{require_admin, require_admin_auth, get_token}

abbrev pub max_fee_bps : ℕ
max_fee_bps = 10_000

abbrev pub without : List Address → Address → List Address
without [] a = []
without (x ∷ xs) a = let rest = without xs a in if x == a then rest else x ∷ rest

set_up : Address → ℕ → Address → ℤ → ℕ → AdminStore → AdminStore
set_up token decimals admin min_topup grace_period a = record a {
  default_token = some token;
  token_decimals = set token_decimals token decimals;
  accepted_tokens = some (token ∷ []);
  admin = some admin;
  min_topup = some min_topup;
  grace_duration = some grace_period;
  schema_version = some 2;
}
  where
    open a use {token_decimals}

-- A token that is new to the list joins it; the decimals are written in any case.
accept_token : Address → ℕ → AdminStore → AdminStore
accept_token token decimals a = record a {
  accepted_tokens =
      if is_some (get token_decimals token)
      then accepted_tokens
      else some (unwrap_or accepted_tokens [] ++ token ∷ []);
  token_decimals = set token_decimals token decimals;
}
  where
    open a use {token_decimals, accepted_tokens}

drop_token : Address → AdminStore → AdminStore
drop_token token a = record a {
  token_decimals = remove token_decimals token;
  accepted_tokens = some (without (unwrap_or accepted_tokens []) token);
}
  where
    open a use {token_decimals, accepted_tokens}

mark_recovery : String → AdminStore → AdminStore
mark_recovery recovery_id a = record a { recoveries = set recoveries recovery_id true }
  where
    open a use {recoveries}

module _ {L : Type 0} where
  with_admin_store : (AdminStore → AdminStore) → State L → State L
  with_admin_store f s = record s { admin_store = f s.admin_store }

module _ {L : Type 0} (env : Env L) where
  unfoldable pub do_init : Address → ℕ → Address → ℤ → ℕ → Call L (Unit {0})
  unfolding with_admin_store set_up publish
  do_init token token_decimals admin min_topup grace_period = do
    initialised ← gets (λ s. is_some s.admin_store.default_token || is_some s.admin_store.admin)
    fail_if initialised Error.already_initialized
    fail_if (ltb_ℤ min_topup (pos 0)) Error.invalid_amount
    fail_if (ltb 19 token_decimals) Error.invalid_token_decimals
    fail_if (token == env.current_contract_address) Error.invalid_token
    modify (with_admin_store (set_up token token_decimals admin min_topup grace_period))
    publish (initialized token admin min_topup grace_period)

  unfoldable pub do_set_min_topup : Address → ℤ → Call L (Unit {0})
  unfolding require_admin_auth with_admin_store publish
  do_set_min_topup admin min_topup = do
    require_admin_auth env admin
    modify (with_admin_store (λ a. record a { min_topup = some min_topup }))
    publish (min_topup_updated min_topup)

  unfoldable pub do_set_grace_period : Address → ℕ → Call L (Unit {0})
  unfolding require_admin_auth with_admin_store
  do_set_grace_period admin grace_period = do
    require_admin_auth env admin
    modify (with_admin_store (λ a. record a { grace_duration = some grace_period }))

  unfoldable pub add_accepted_token : Address → Address → ℕ → Call L (Unit {0})
  unfolding require_admin_auth with_admin_store accept_token
  add_accepted_token admin token decimals = do
    require_admin_auth env admin
    modify (with_admin_store (accept_token token decimals))

  unfoldable pub remove_accepted_token : Address → Address → Call L (Unit {0})
  unfolding require_admin_auth get_token with_admin_store drop_token
  remove_accepted_token admin token = do
    require_admin_auth env admin
    default_token ← get_token
    fail_if (token == default_token) Error.invalid_input
    modify (with_admin_store (drop_token token))

  unfoldable pub do_rotate_admin : Address → Address → ℕ → Call L (Unit {0})
  unfolding require_admin_auth check_and_advance with_admin_store publish
  do_rotate_admin current_admin new_admin nonce = do
    require_admin_auth env current_admin
    check_and_advance env current_admin domain_admin_rotation nonce
    fail_if (new_admin == current_admin) Error.self_rotation
    fail_if (new_admin == env.current_contract_address) Error.invalid_new_admin
    modify (with_admin_store (λ a. record a { admin = some new_admin }))
    publish (admin_rotated current_admin new_admin env.timestamp)

  unfoldable pub set_protocol_fee : Address → Address → ℕ → Call L (Unit {0})
  unfolding require_auth require_admin with_admin_store publish
  set_protocol_fee admin treasury fee_bps = do
    require_auth env admin
    stored ← require_admin
    fail_if (not (admin == stored)) Error.unauthorized
    fail_if (ltb max_fee_bps fee_bps) Error.invalid_input
    modify (with_admin_store (λ a. record a { fee_bps = some fee_bps; treasury = some treasury }))
    publish (protocol_fee_configured admin treasury fee_bps env.timestamp)

  unfoldable pub do_recover_stranded_funds :
      Address → Address → Address → ℤ → String → RecoveryReason → Call L (Unit {0})
  unfolding require_admin_auth token_balance get_total_accounted checked_sub with_admin_store
      mark_recovery publish transfer
  do_recover_stranded_funds admin token recipient amount recovery_id reason = do
    require_admin_auth env admin
    fail_if (leb_ℤ amount (pos 0)) Error.invalid_recovery_amount
    replayed ← gets (λ s. is_some (get s.admin_store.recoveries recovery_id))
    fail_if replayed Error.replay
    contract_balance ← token_balance env token env.current_contract_address
    accounted_balance ← gets (λ s. get_total_accounted s token)
    recoverable ← or_fail (checked_sub contract_balance accounted_balance) Error.underflow
    fail_if (ltb_ℤ recoverable amount) Error.insufficient_balance
    modify (with_admin_store (mark_recovery recovery_id))
    publish (recovery admin recipient token amount reason env.timestamp)
    transfer env token env.current_contract_address recipient amount

-- The accepted tokens with their decimals; a token without decimals is left out.
unfoldable pub accepted_among : Map Address ℕ → List Address → List AcceptedToken
accepted_among decimals [] = []
accepted_among decimals (token ∷ tokens) = elim (get decimals token) [
  | none ↦ accepted_among decimals tokens
  | some d ↦ record { token = token; decimals = d } ∷ accepted_among decimals tokens
]

module _ {L : Type 0} where
  unfoldable pub list_accepted_tokens : State L → List AcceptedToken
  unfolding accepted_among
  list_accepted_tokens s =
      accepted_among s.admin_store.token_decimals (unwrap_or s.admin_store.accepted_tokens [])
