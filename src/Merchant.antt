-- ===== src/Merchant.antt =====
-- contracts/subscription_vault/src/merchant.rs: what each merchant has earned in each token, and
-- the calls that pay it out.
pub mod Credit
pub mod Config
pub mod Reconciliation
pub mod Drift
use stellabill_contracts.Prelude.{
  ℕ, ℤ, pos, Bool, true, false, Option, none, some, List, [], ◌∷◌, ◌++◌, ◌||◌, not, ◌==◌, nat_eq,
  pair_eq, Map, get, set, unwrap_or, if◌then◌else◌, leb_ℤ, ltb_ℤ, beq_ℤ, checked_add, checked_sub,
}
use stellabill_contracts.Types.Errors.{Error}
use stellabill_contracts.Types.Records.{
  Address, AccruedTotals, TokenEarnings, TokenReconciliationSnapshot, MerchantConfig,
  BillingChargeKind,
}
use stellabill_contracts.Types.Events.{
  merchant_paused, merchant_unpaused, withdrawn, merchant_refund as refund_event,
}
use stellabill_contracts.Host.State.{State, Env}
use stellabill_contracts.Host.Calls.{
  Call, ◌>>=◌, ◌>>◌, pure, gets, modify, fail_if, when, or_fail, lift, publish, require_auth,
  token_balance, transfer,
}
use stellabill_contracts.SafeMath.{safe_add, safe_sub, validate_non_negative}
use stellabill_contracts.Accounting.{sub_total_accounted}
use stellabill_contracts.Admin.{get_token, is_token_accepted}

abbrev config_paused : Option MerchantConfig → Bool
config_paused none = false
config_paused (some config) = config.is_paused

abbrev no_earnings : TokenEarnings
no_earnings = record {
  accruals = record { interval = pos 0; usage = pos 0; one_off = pos 0 };
  withdrawals = pos 0;
  refunds = pos 0;
}

abbrev contains : List Address → Address → Bool
contains [] a = false
contains (x ∷ xs) a = x == a || contains xs a

-- The accrual of the charge's kind, raised by the amount.
accrue : BillingChargeKind → ℤ → AccruedTotals → Option AccruedTotals
unfolding checked_add
accrue BillingChargeKind.interval amount t = elim (checked_add t.interval amount) [
  | none ↦ none
  | some v ↦ some (record t { interval = v })
]
accrue BillingChargeKind.usage amount t = elim (checked_add t.usage amount) [
  | none ↦ none
  | some v ↦ some (record t { usage = v })
]
accrue BillingChargeKind.one_off amount t = elim (checked_add t.one_off amount) [
  | none ↦ none
  | some v ↦ some (record t { one_off = v })
]

module _ {L : Type 0} where
  unfoldable pub get_merchant_paused : State L → Address → Bool
  get_merchant_paused s merchant =
      config_paused (get s.merchants.merchant_configs merchant)
      || unwrap_or (get s.merchants.paused_merchants merchant) false

  set_merchant_paused : Address → Bool → State L → State L
  set_merchant_paused merchant paused s = record s {
    merchants = record merchants { paused_merchants = set paused_merchants merchant paused };
  }
    where
      open s use {merchants}
      open merchants use {paused_merchants}

  unfoldable pub get_merchant_token_earnings : State L → Address → Address → TokenEarnings
  get_merchant_token_earnings s merchant token =
      unwrap_or (get s.merchants.merchant_earnings (merchant, token)) no_earnings

  set_merchant_token_earnings : Address → Address → TokenEarnings → State L → State L
  set_merchant_token_earnings merchant token earnings s = record s {
    merchants = record merchants {
      merchant_earnings = set merchant_earnings (merchant, token) earnings;
    };
  }
    where
      open s use {merchants}
      open merchants use {merchant_earnings}

  unfoldable pub get_merchant_tokens : State L → Address → List Address
  get_merchant_tokens s merchant = unwrap_or (get s.merchants.merchant_tokens merchant) []

  add_merchant_token : Address → Address → State L → State L
  unfolding get_merchant_tokens
  add_merchant_token merchant token s =
      if contains (get_merchant_tokens s merchant) token then s else record s {
        merchants = record merchants {
          merchant_tokens =
              set merchant_tokens merchant (get_merchant_tokens s merchant ++ token ∷ []);
        };
      }
    where
      open s use {merchants}
      open merchants use {merchant_tokens}

  unfoldable pub get_merchant_balance_by_token : State L → Address → Address → ℤ
  get_merchant_balance_by_token s merchant token =
      unwrap_or (get s.merchants.merchant_balances (merchant, token)) (pos 0)

  unfoldable pub set_merchant_balance : Address → Address → ℤ → State L → State L
  set_merchant_balance merchant token balance s = record s {
    merchants = record merchants {
      merchant_balances = set merchant_balances (merchant, token) balance;
    };
  }
    where
      open s use {merchants}
      open merchants use {merchant_balances}

  -- The earnings of the charge's kind, and the list of the merchant's tokens.
  record_earnings : Address → Address → ℤ → BillingChargeKind → Call L (Unit {0})
  unfolding get_merchant_token_earnings set_merchant_token_earnings add_merchant_token accrue
  record_earnings merchant token amount kind = do
    earnings ← gets (λ s. get_merchant_token_earnings s merchant token)
    accruals ← or_fail (accrue kind amount earnings.accruals) Error.overflow
    modify (set_merchant_token_earnings merchant token (record earnings { accruals = accruals }))
    modify (add_merchant_token merchant token)

  unfoldable pub credit_merchant_balance_for_token :
      Address → Address → ℤ → BillingChargeKind → Call L (Unit {0})
  unfolding validate_non_negative get_merchant_balance_by_token safe_add set_merchant_balance
      record_earnings
  credit_merchant_balance_for_token merchant token amount kind = do
    lift (validate_non_negative amount)
    current ← gets (λ s. get_merchant_balance_by_token s merchant token)
    new_balance ← lift (safe_add current amount)
    modify (set_merchant_balance merchant token new_balance)
    record_earnings merchant token amount kind

  -- The same in the default token.
  unfoldable credit_merchant_balance : Address → ℤ → BillingChargeKind → Call L (Unit {0})
  unfolding get_token credit_merchant_balance_for_token
  credit_merchant_balance merchant amount kind = do
    token ← get_token
    credit_merchant_balance_for_token merchant token amount kind

  -- The balance that a payout leaves, or why it is refused.
  unfoldable pub payable : ℤ → ℤ → Call L (Unit {0})
  payable current amount = do
    fail_if (beq_ℤ current (pos 0)) Error.not_found
    fail_if (ltb_ℤ current amount) Error.insufficient_balance

  unfoldable pub record_refund : Address → Address → ℤ → Call L (Unit {0})
  unfolding get_merchant_token_earnings set_merchant_token_earnings checked_add
  record_refund merchant token amount = do
    earnings ← gets (λ s. get_merchant_token_earnings s merchant token)
    refunds ← or_fail (checked_add earnings.refunds amount) Error.overflow
    modify (set_merchant_token_earnings merchant token (record earnings { refunds = refunds }))

module _ {L : Type 0} (env : Env L) where
  pub pause_merchant : Address → Call L (Unit {0})
  unfolding require_auth get_merchant_paused set_merchant_paused publish
  pause_merchant merchant = do
    require_auth env merchant
    paused ← gets (λ s. get_merchant_paused s merchant)
    when (not paused) (do
      modify (set_merchant_paused merchant true)
      publish (merchant_paused merchant env.timestamp))

  pub unpause_merchant : Address → Call L (Unit {0})
  unfolding require_auth get_merchant_paused set_merchant_paused publish
  unpause_merchant merchant = do
    require_auth env merchant
    paused ← gets (λ s. get_merchant_paused s merchant)
    when paused (do
      modify (set_merchant_paused merchant false)
      publish (merchant_unpaused merchant env.timestamp))

  unfoldable pub withdraw_merchant_funds_for_token : Address → Address → ℤ → Call L (Unit {0})
  unfolding require_auth is_token_accepted get_merchant_balance_by_token payable token_balance
      safe_sub set_merchant_balance sub_total_accounted publish transfer
  withdraw_merchant_funds_for_token merchant token amount = do
    require_auth env merchant
    fail_if (leb_ℤ amount (pos 0)) Error.invalid_amount
    accepted ← gets (λ s. is_token_accepted s token)
    fail_if (not accepted) Error.invalid_input
    current ← gets (λ s. get_merchant_balance_by_token s merchant token)
    payable current amount
    held ← token_balance env token env.current_contract_address
    fail_if (ltb_ℤ held amount) Error.insufficient_balance
    new_balance ← lift (safe_sub current amount)
    modify (set_merchant_balance merchant token new_balance)
    sub_total_accounted token amount
    publish (withdrawn merchant token amount new_balance env.timestamp)
    transfer env token env.current_contract_address merchant amount

  unfoldable pub withdraw_merchant_funds : Address → ℤ → Call L (Unit {0})
  unfolding get_token withdraw_merchant_funds_for_token
  withdraw_merchant_funds merchant amount = do
    token ← get_token
    withdraw_merchant_funds_for_token merchant token amount

  unfoldable pub merchant_refund : Address → Address → Address → ℤ → Call L (Unit {0})
  unfolding require_auth get_merchant_balance_by_token payable checked_sub set_merchant_balance
      record_refund publish transfer
  merchant_refund merchant subscriber token amount = do
    require_auth env merchant
    fail_if (leb_ℤ amount (pos 0)) Error.invalid_amount
    current ← gets (λ s. get_merchant_balance_by_token s merchant token)
    payable current amount
    new_balance ← or_fail (checked_sub current amount) Error.overflow
    modify (set_merchant_balance merchant token new_balance)
    record_refund merchant token amount
    publish (refund_event merchant subscriber token amount env.timestamp)
    transfer env token env.current_contract_address subscriber amount
