-- ===== src/Merchant/Reconciliation.antt =====
-- The reconciliation of merchant.rs: the balances that the recorded earnings amount to.
use stellabill_contracts.Prelude.{
  ℤ, pos, List, map, nat_eq, pair_eq, unwrap_or, checked_add, checked_sub,
}
use stellabill_contracts.Types.Records.{
  Address, AccruedTotals, TokenEarnings, TokenReconciliationSnapshot,
}
use stellabill_contracts.Host.State.{State}
use stellabill_contracts.Host.Calls.{ok, err, trap}
use stellabill_contracts.Admin.{get_token}
use stellabill_contracts.Merchant.{
  get_merchant_tokens, get_merchant_token_earnings, get_merchant_balance_by_token,
}

-- `checked_add(…).unwrap_or(0)`, twice.
unfoldable pub total_accruals : AccruedTotals → ℤ
unfolding checked_add
total_accruals accruals =
    unwrap_or
      (checked_add (unwrap_or (checked_add accruals.interval accruals.usage) (pos 0))
        accruals.one_off)
      (pos 0)

unfoldable pub computed_balance : TokenEarnings → ℤ
unfolding checked_sub total_accruals
computed_balance earnings =
    unwrap_or
      (checked_sub
        (unwrap_or (checked_sub (total_accruals earnings.accruals) earnings.withdrawals) (pos 0))
        earnings.refunds)
      (pos 0)

unfoldable pub token_snapshot : Address → TokenEarnings → TokenReconciliationSnapshot
unfolding total_accruals computed_balance
token_snapshot token earnings = record {
  token = token;
  total_accruals = total_accruals earnings.accruals;
  total_withdrawals = earnings.withdrawals;
  total_refunds = earnings.refunds;
  computed_balance = computed_balance earnings;
}

module _ {L : Type 0} where
  unfoldable pub get_merchant_total_earnings : State L → Address → List (Address × TokenEarnings)
  unfolding get_merchant_tokens get_merchant_token_earnings
  get_merchant_total_earnings s merchant =
      map (λ token. (token, get_merchant_token_earnings s merchant token))
        (get_merchant_tokens s merchant)

  unfoldable pub get_reconciliation_snapshot : State L → Address → List TokenReconciliationSnapshot
  unfolding get_merchant_tokens get_merchant_token_earnings token_snapshot
  get_reconciliation_snapshot s merchant =
      map (λ token. token_snapshot token (get_merchant_token_earnings s merchant token))
        (get_merchant_tokens s merchant)

  -- 0 before there is a token.
  unfoldable pub get_merchant_balance : State L → Address → ℤ
  unfolding get_token get_merchant_balance_by_token
  get_merchant_balance s merchant = elim (get_token s).0 [
    | ok token ↦ get_merchant_balance_by_token s merchant token
    | err e ↦ pos 0
    | trap ↦ pos 0
  ]
