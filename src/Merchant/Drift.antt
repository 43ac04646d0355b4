-- ===== src/Merchant/Drift.antt =====
-- Withdrawals of merchant.rs and the reconciliation, which counts `withdrawals` that nothing records.
use stellabill_contracts.Prelude.{
  ℤ, pos, ◌≡◌, ◌<ℤ◌, ◌+ℤ◌, ◌-ℤ◌, arith, int_laws, false, not, nat_eq, pair_eq, get-set_self, leb_ℤ,
  ltb_ℤ, ◌∙◌, ap,
}
use stellabill_contracts.Types.Errors.{Error}
use stellabill_contracts.Types.Records.{Address}
use stellabill_contracts.Types.Events.{Event, withdrawn}
use stellabill_contracts.Host.State.{State, Env}
use stellabill_contracts.Host.Calls.{
  ok, modify, ◌>>◌, publish, transfer, require_auth, token_balance,
}
use stellabill_contracts.Host.Outcomes.{
  Yields, lift-Yields, fail_if-Yields, check-Yields, step-Yields, weaken, Yields-ok,
}
use stellabill_contracts.SafeMath.{safe_sub}
use stellabill_contracts.SafeMath.Bounds.{safe_sub-ok}
use stellabill_contracts.Accounting.{sub_total_accounted}
use stellabill_contracts.Admin.{is_token_accepted}
use stellabill_contracts.Merchant.{
  get_merchant_balance_by_token, get_merchant_token_earnings, set_merchant_balance,
  withdraw_merchant_funds_for_token, payable,
}
use stellabill_contracts.Merchant.Reconciliation.{computed_balance}
use stellabill_contracts.Solvency.Steps.{require_auth-same}

strictly_positive : (a : ℤ) → leb_ℤ a (pos 0) ≡ false → pos 0 <ℤ a
strictly_positive a h = grind int_laws

added_back :
    (before after computed now amount : ℤ)
    → before ≡ after
    → computed ≡ before
    → now ≡ after -ℤ amount
    → computed ≡ now +ℤ amount
added_back before after computed now amount p q r = grind int_laws

module _ {L : Type 0} where
  -- What a withdrawal leaves of the merchants' books: one balance, lower by the amount.
  record Withdrawn (merchant token : Address) (amount : ℤ) (s u : State L) : Type 0 where
    amount_positive : pos 0 <ℤ amount
    balance : ℤ
    lower : balance ≡ get_merchant_balance_by_token s merchant token -ℤ amount
    books : u.merchants ≡ (set_merchant_balance merchant token balance s).merchants

  payable-same :
      (current amount : ℤ) (s : State L) → Yields (payable current amount s) (λ _ u. u ≡ s)
  unfolding payable
  payable-same current amount s = ground arith

  sub_total-merchants :
      (token : Address) (amount : ℤ) (s : State L)
      → Yields (sub_total_accounted token amount s) (λ _ u. u.merchants ≡ s.merchants)
  unfolding sub_total_accounted
  sub_total-merchants token amount s = ground arith

  balance_after :
      (merchant token : Address) (amount : ℤ) (s u : State L)
      → Withdrawn merchant token amount s u
      → get_merchant_balance_by_token u merchant token
        ≡ get_merchant_balance_by_token s merchant token -ℤ amount
  unfolding get_merchant_balance_by_token set_merchant_balance
  balance_after merchant token amount s u w = grind (
    arith,
    w.books,
    w.lower,
    get-set_self s.merchants.merchant_balances (merchant, token) w.balance,
  )

  earnings_after :
      (merchant token : Address) (amount : ℤ) (s u : State L)
      → Withdrawn merchant token amount s u
      → get_merchant_token_earnings u merchant token ≡ get_merchant_token_earnings s merchant token
  unfolding get_merchant_token_earnings set_merchant_balance
  earnings_after merchant token amount s u w = ground (arith, w.books)

module _ {L : Type 0} (env : Env L) where
  transfer-merchants :
      (token from to : Address) (amount : ℤ) (s : State L)
      → Yields (transfer env token from to amount s) (λ _ u. u.merchants ≡ s.merchants)
  unfolding transfer
  transfer-merchants token from to amount s = ground arith

  paid_out-merchants :
      (merchant token : Address) (amount balance : ℤ) (event : Event) (s : State L)
      → Yields
          ((modify (set_merchant_balance merchant token balance)
              >> (sub_total_accounted token amount
                  >> (publish event
                      >> transfer env token env.current_contract_address merchant amount)))
            s)
          (λ _ u. u.merchants ≡ (set_merchant_balance merchant token balance s).merchants)
  unfolding publish
  paid_out-merchants merchant token amount balance event s =
      let s1 = set_merchant_balance merchant token balance s in
      let Q : Unit {0} → State L → Type 0 = λ _ u. u.merchants ≡ s1.merchants in
      step-Yields (sub_total_accounted token amount) _ Q s1 (λ _ u. u.merchants ≡ s1.merchants)
        (sub_total-merchants token amount s1)
        λ _ s2 f.
          let shown = (publish event s2).1 in
          weaken (transfer env token env.current_contract_address merchant amount shown)
            (λ _ v. v.merchants ≡ s2.merchants) Q
            (transfer-merchants token env.current_contract_address merchant amount shown)
            λ _ v g. g ∙ f

  withdraw-Yields :
      (merchant token : Address) (amount : ℤ) (s : State L)
      → Yields
          (withdraw_merchant_funds_for_token env merchant token amount s)
          (λ _ u. Withdrawn merchant token amount s u)
  unfolding withdraw_merchant_funds_for_token token_balance
  withdraw-Yields merchant token amount s =
      let Q : Unit {0} → State L → Type 0 = λ _ u. Withdrawn merchant token amount s u in
      let current = get_merchant_balance_by_token s merchant token in
      let held = env.token_contract.balance s.ledger token env.current_contract_address in
      check-Yields (require_auth env merchant) _ Q s (require_auth-same env merchant s) λ _.
        fail_if-Yields (leb_ℤ amount (pos 0)) Error.invalid_amount _ Q s λ p.
          fail_if-Yields (not (is_token_accepted s token)) Error.invalid_input _ Q s λ _.
            check-Yields (payable current amount) _ Q s (payable-same current amount s) λ _.
              fail_if-Yields (ltb_ℤ held amount) Error.insufficient_balance _ Q s λ _.
                lift-Yields (safe_sub current amount) _ Q s λ balance e.
                  let event = withdrawn merchant token amount balance env.timestamp in
                  weaken
                    ((modify (set_merchant_balance merchant token balance)
                        >> (sub_total_accounted token amount
                            >> (publish event
                                >> transfer env token env.current_contract_address merchant
                                    amount)))
                      s)
                    (λ _ v. v.merchants ≡ (set_merchant_balance merchant token balance s).merchants)
                    Q (paid_out-merchants merchant token amount balance event s)
                    λ _ v f. record {
                      amount_positive = strictly_positive amount p;
                      balance = balance;
                      lower = (safe_sub-ok current amount e).0;
                      books = f;
                    }

  -- When a merchant's balance agrees with the reconciliation, it no longer does after a withdrawal
  -- that returns: the reconciliation then shows the withdrawn amount as still owed.
  pub withdraw_merchant_funds_for_token-drift :
      (merchant token : Address) (amount : ℤ) (s u : State L)
      → computed_balance (get_merchant_token_earnings s merchant token)
        ≡ get_merchant_balance_by_token s merchant token
      → withdraw_merchant_funds_for_token env merchant token amount s ≡ (ok tt, u)
      → (pos 0 <ℤ amount)
        × (computed_balance (get_merchant_token_earnings u merchant token)
            ≡ get_merchant_balance_by_token u merchant token +ℤ amount)
  withdraw_merchant_funds_for_token-drift merchant token amount s u h e =
      let w =
        Yields-ok (withdraw_merchant_funds_for_token env merchant token amount s)
          (λ _ v. Withdrawn merchant token amount s v) (withdraw-Yields merchant token amount s)
          e in
      (
        w.amount_positive,
        added_back _ _ _ _ _ h (ap computed_balance (earnings_after merchant token amount s u w))
            (balance_after merchant token amount s u w),
      )
