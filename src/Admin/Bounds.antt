-- ===== src/Admin/Bounds.antt =====
-- Fee setting and recovery of admin.rs.
use stellabill_contracts.Prelude.{
  ℕ, ℤ, pos, ◌≡◌, ◌≤◌, ◌≤ℤ◌, ◌+ℤ◌, ◌-ℤ◌, arith, int_laws, some, nat_eq, leb_ℤ, ltb_ℤ, String, get,
  is_some, string_eq, checked_sub, false,
}
use stellabill_contracts.Types.Errors.{Error}
use stellabill_contracts.Types.Records.{Address, RecoveryReason}
use stellabill_contracts.Host.State.{State, Env}
use stellabill_contracts.Host.Calls.{ok, transfer, publish, token_balance}
use stellabill_contracts.Host.Outcomes.{
  Yields, Yields-ok, check-Yields, delivered-Yields, fail_if-Yields, or_fail-Yields,
}
use stellabill_contracts.Accounting.{get_total_accounted}
use stellabill_contracts.Admin.{get_protocol_fee_bps, require_admin_auth}
use stellabill_contracts.Admin.Operations.{set_protocol_fee, do_recover_stranded_funds}
use stellabill_contracts.Solvency.Steps.{checked_sub-some}
use stellabill_contracts.Solvency.Payouts.{require_admin_auth-same}

lowered :
    (total amount held after : ℤ)
    → total +ℤ amount ≤ℤ held
    → after ≡ held -ℤ amount
    → total ≤ℤ after
lowered total amount held after h e = grind int_laws

room :
    (held total recoverable amount : ℤ)
    → recoverable ≡ held +ℤ (pos 0 -ℤ total)
    → ltb_ℤ recoverable amount ≡ false
    → total +ℤ amount ≤ℤ held
room held total recoverable amount e f = grind int_laws

module _ {L : Type 0} (env : Env L) where
  -- The fee that the admin sets is at most 10,000 basis points.
  pub set_protocol_fee-bounded :
      (admin treasury : Address) (fee_bps : ℕ) (s u : State L)
      → set_protocol_fee env admin treasury fee_bps s ≡ (ok tt, u)
      → (get_protocol_fee_bps u ≡ fee_bps) × (get_protocol_fee_bps u ≤ 10_000)
  unfolding set_protocol_fee get_protocol_fee_bps
  set_protocol_fee-bounded admin treasury fee_bps s u h = ground arith

  -- The vault holds at least the accounted total of the token.
  abbrev pub IsCovered : Address → State L → Type 0
  IsCovered token s =
      get_total_accounted s token
      ≤ℤ env.token_contract.balance s.ledger token env.current_contract_address

  transfer-IsCovered :
      (token recipient : Address) (amount : ℤ) (s : State L)
      → ((before after : L)
          → env.token_contract.transfer before token env.current_contract_address recipient amount
            ≡ some after
          → env.token_contract.balance after token env.current_contract_address
            ≡ env.token_contract.balance before token env.current_contract_address -ℤ amount)
      → get_total_accounted s token +ℤ amount
        ≤ℤ env.token_contract.balance s.ledger token env.current_contract_address
      → Yields
          (transfer env token env.current_contract_address recipient amount s)
          (λ _ u. IsCovered token u)
  unfolding transfer get_total_accounted
  transfer-IsCovered token recipient amount s law h =
      delivered-Yields
        (env.token_contract.transfer s.ledger token env.current_contract_address recipient amount)
        (λ _ u. IsCovered token u) s
        λ after e. lowered (get_total_accounted s token) amount _ _ h (law s.ledger after e)

  do_recover-Yields :
      (admin token recipient : Address) (amount : ℤ) (recovery_id : String)
      (reason : RecoveryReason) (s : State L)
      → ((before after : L)
          → env.token_contract.transfer before token env.current_contract_address recipient amount
            ≡ some after
          → env.token_contract.balance after token env.current_contract_address
            ≡ env.token_contract.balance before token env.current_contract_address -ℤ amount)
      → Yields
          (do_recover_stranded_funds env admin token recipient amount recovery_id reason s)
          (λ _ u. IsCovered token u)
  unfolding do_recover_stranded_funds token_balance publish get_total_accounted
  do_recover-Yields admin token recipient amount recovery_id reason s law =
      let Q : Unit {0} → State L → Type 0 = λ _ u. IsCovered token u in
      let held = env.token_contract.balance s.ledger token env.current_contract_address in
      check-Yields (require_admin_auth env admin) _ Q s (require_admin_auth-same env admin s) λ _.
        fail_if-Yields (leb_ℤ amount (pos 0)) Error.invalid_recovery_amount _ Q s λ _.
          fail_if-Yields (is_some (get s.admin_store.recoveries recovery_id)) Error.replay _ Q s
            λ _.
              or_fail-Yields (checked_sub held (get_total_accounted s token)) Error.underflow _ Q s
                λ recoverable e.
                  fail_if-Yields (ltb_ℤ recoverable amount) Error.insufficient_balance _ Q s λ f.
                    transfer-IsCovered token recipient amount _ law (
                      room held (get_total_accounted s token) recoverable amount
                        (checked_sub-some held (get_total_accounted s token) e) f)

  -- A recovery of stranded tokens that returns leaves the vault at least the accounted total of the
  -- token, when the token contract's transfer lowers the balance of the sender by the amount.
  pub do_recover_stranded_funds-IsCovered :
      (admin token recipient : Address) (amount : ℤ) (recovery_id : String)
      (reason : RecoveryReason) (s u : State L)
      → ((before after : L)
          → env.token_contract.transfer before token env.current_contract_address recipient amount
            ≡ some after
          → env.token_contract.balance after token env.current_contract_address
            ≡ env.token_contract.balance before token env.current_contract_address -ℤ amount)
      → do_recover_stranded_funds env admin token recipient amount recovery_id reason s ≡ (ok tt, u)
      → IsCovered token u
  do_recover_stranded_funds-IsCovered admin token recipient amount recovery_id reason s u law h =
      Yields-ok (do_recover_stranded_funds env admin token recipient amount recovery_id reason s)
        (λ _ v. IsCovered token v)
        (do_recover-Yields admin token recipient amount recovery_id reason s law) h
