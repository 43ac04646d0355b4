-- ===== src/Merchant/Credit.antt =====
-- `credit_merchant_balance_for_token` of merchant.rs: which balance it changes.
use stellabill_contracts.Prelude.{
  ℤ, pos, ◌≡◌, ◌≤ℤ◌, ◌+ℤ◌, arith, int_laws, nat_eq, pair_eq, set, sum_over-set,
}
use stellabill_contracts.Types.Records.{Address, BillingChargeKind}
use stellabill_contracts.Host.State.{State}
use stellabill_contracts.Host.Outcomes.{Yields}
use stellabill_contracts.Books.{merchants_owed, in_token, balance_weight}
use stellabill_contracts.Merchant.{credit_merchant_balance_for_token, get_merchant_balance_by_token}

module _ {L : Type 0} where
  pub record Credited (merchant token : Address) (amount : ℤ) (s u : State L) : Type 0 where
    pub nonneg : pos 0 ≤ℤ amount
    pub balances :
        u.merchants.merchant_balances
        ≡ set s.merchants.merchant_balances
            (merchant, token)
            (get_merchant_balance_by_token s merchant token +ℤ amount)
    pub subs : u.subscriptions ≡ s.subscriptions
    pub accounted : u.total_accounted ≡ s.total_accounted
    pub ledger : u.ledger ≡ s.ledger
    pub billing : u.billing ≡ s.billing
    pub admin : u.admin_store ≡ s.admin_store

  pub credit-Credited :
      (merchant token : Address) (amount : ℤ) (kind : BillingChargeKind) (s : State L)
      → Yields
          (credit_merchant_balance_for_token merchant token amount kind s)
          (λ _ u. Credited merchant token amount s u)
  unfolding credit_merchant_balance_for_token
  credit-Credited merchant token amount BillingChargeKind.interval s = ground arith
  credit-Credited merchant token amount kind s = ground arith

  pub merchants_owed-Credited :
      (merchant token : Address) (amount : ℤ) (s u : State L) (t : Address)
      → Credited merchant token amount s u
      → merchants_owed u t ≡ merchants_owed s t +ℤ in_token t token amount
  unfolding merchants_owed get_merchant_balance_by_token
  merchants_owed-Credited merchant token amount s u t h = grind (
    int_laws,
    sum_over-set (balance_weight t) s.merchants.merchant_balances (merchant, token)
        (get_merchant_balance_by_token s merchant token +ℤ amount),
    h.balances,
  )
