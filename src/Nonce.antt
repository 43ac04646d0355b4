-- ===== src/Nonce.antt =====
-- contracts/subscription_vault/src/nonce.rs: a counter for each signer and domain, which a
-- privileged call must name and which then moves on.
pub mod Replay
use stellabill_contracts.Prelude.{
  ℕ, Bool, Option, not, ◌==◌, nat_eq, pair_eq, get, set, unwrap_or, checked_add_u64,
}
use stellabill_contracts.Types.Errors.{Error}
use stellabill_contracts.Types.Records.{Address}
use stellabill_contracts.Types.Events.{nonce_consumed}
use stellabill_contracts.Host.State.{State, Env, AdminStore}
use stellabill_contracts.Host.Calls.{
  Call, ◌>>=◌, ◌>>◌, pure, gets, modify, fail_if, or_abort, publish,
}

abbrev pub domain_batch_charge : ℕ
domain_batch_charge = 0

abbrev pub domain_admin_rotation : ℕ
domain_admin_rotation = 1

module _ {L : Type 0} where
  unfoldable pub get_nonce : State L → Address → ℕ → ℕ
  get_nonce s signer domain = unwrap_or (get s.admin_store.admin_nonces (signer, domain)) 0

  set_nonce : Address → ℕ → ℕ → State L → State L
  set_nonce signer domain next s = record s {
    admin_store = record admin_store { admin_nonces = set admin_nonces (signer, domain) next };
  }
    where
      open s use {admin_store}
      open admin_store use {admin_nonces}

module _ {L : Type 0} (env : Env L) where
  unfoldable pub check_and_advance : Address → ℕ → ℕ → Call L (Unit {0})
  unfolding get_nonce set_nonce publish
  check_and_advance signer domain provided_nonce = do
    stored ← gets (λ s. get_nonce s signer domain)
    fail_if (not (provided_nonce == stored)) Error.nonce_already_used
    next ← or_abort (checked_add_u64 stored 1)
    modify (set_nonce signer domain next)
    publish (nonce_consumed signer domain provided_nonce env.timestamp)
