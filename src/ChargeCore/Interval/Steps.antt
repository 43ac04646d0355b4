-- ===== src/ChargeCore/Interval/Steps.antt =====
-- The money that each step of `charge_one` of charge_core.rs moves.
use stellabill_contracts.Prelude.{
  ℕ, ◌≤◌, ℤ, pos, ◌≡◌, refl, ◌≤ℤ◌, ◌+ℤ◌, arith, int_laws, Option, none, some, nat_eq, Bool-cases,
  inl, inr, ltb_ℤ, not-ltb→le_ℤ, ◌∙◌,
}
use stellabill_contracts.Types.Records.{
  Address, Subscription, BillingPeriodSnapshot, BillingChargeKind,
}
use stellabill_contracts.Host.State.{State, Env}
use stellabill_contracts.Types.Events.{Event}
use stellabill_contracts.Host.Calls.{publish}
use stellabill_contracts.Host.Outcomes.{Yields, bind-Yields, weaken}
use stellabill_contracts.Books.{SameMoney, in_token, merchants_owed}
use stellabill_contracts.Admin.{get_protocol_fee_bps, get_treasury}
use stellabill_contracts.Merchant.{credit_merchant_balance_for_token}
use stellabill_contracts.Merchant.Credit.{Credited, credit-Credited, merchants_owed-Credited}
use stellabill_contracts.Oracle.{resolve_charge_amount}
use stellabill_contracts.Statements.{append_statement}
use stellabill_contracts.PeriodSnapshots.{write_period_snapshot}
use stellabill_contracts.ChargeCore.Guards.{expiration_guard}
use stellabill_contracts.ChargeCore.Period.{Period, split_fee}
use stellabill_contracts.ChargeCore.Fees.{IsModest, NoFeeWithout, split_fee-IsSplit}
use stellabill_contracts.ChargeCore.Interval.{credit_treasury, pay_shares, record_charge}

module _ {L : Type 0} where
  -- The merchants' balances after the shares of a charge are paid.
  pub record Paid (token : Address) (amount : ℤ) (s u : State L) : Type 0 where
    pub balances :
        (t : Address) → merchants_owed u t ≡ merchants_owed s t +ℤ in_token t token amount
    pub subs : u.subscriptions ≡ s.subscriptions
    pub accounted : u.total_accounted ≡ s.total_accounted
    pub ledger : u.ledger ≡ s.ledger

  pub Credited-Paid :
      (merchant token : Address) (amount : ℤ) (s u : State L)
      → Credited merchant token amount s u
      → Paid token amount s u
  Credited-Paid merchant token amount s u c = record {
    balances = λ t. merchants_owed-Credited merchant token amount s u t c;
    subs = c.subs;
    accounted = c.accounted;
    ledger = c.ledger;
  }

  Paid-none : (token : Address) (fee : ℤ) (s : State L) → fee ≡ pos 0 → Paid token fee s s
  Paid-none token fee s e = record {
    balances = λ t. grind int_laws;
    subs = refl;
    accounted = refl;
    ledger = refl;
  }

  Paid-join :
      (token : Address) (a b c : ℤ) (s u v : State L)
      → a +ℤ b ≡ c
      → Paid token a s u
      → Paid token b u v
      → Paid token c s v
  Paid-join token a b c s u v e p q = record {
    balances = λ t. grind (int_laws, p.balances t, q.balances t);
    subs = q.subs ∙ p.subs;
    accounted = q.accounted ∙ p.accounted;
    ledger = q.ledger ∙ p.ledger;
  }

  Paid-publish :
      (token : Address) (a : ℤ) (s u : State L) (e : Event)
      → Paid token a s u
      → Paid token a s (publish e u).1
  unfolding merchants_owed publish
  Paid-publish token a s u e p = record {
    balances = p.balances;
    subs = p.subs;
    accounted = p.accounted;
    ledger = p.ledger;
  }

module _ {L : Type 0} (env : Env L) where
  pub append_statement-SameMoney :
      (id : ℕ) (amount : ℤ) (merchant : Address) (kind : BillingChargeKind) (from to : ℕ)
      (s : State L)
      → SameMoney s (append_statement env id amount merchant kind from to s).1
  unfolding append_statement
  append_statement-SameMoney id amount merchant kind from to s = ground arith

  pub write_period_snapshot-SameMoney :
      (snap : BillingPeriodSnapshot) (s : State L) → SameMoney s (write_period_snapshot snap s).1
  unfolding write_period_snapshot
  write_period_snapshot-SameMoney snap s = ground arith

  pub resolve_charge_amount-same :
      (id : ℕ) (sub : Subscription) (s : State L)
      → Yields
          (resolve_charge_amount env id sub s)
          (λ _ u. SameMoney s u × (u.admin_store ≡ s.admin_store) × (u.billing ≡ s.billing))
  unfolding resolve_charge_amount
  resolve_charge_amount-same id sub s = ground arith

  pub expiration_guard-same :
      (id now : ℕ) (sub : Subscription) (s : State L)
      → Yields (expiration_guard id now sub s) (λ _ u. u ≡ s)
  unfolding expiration_guard
  expiration_guard-same id now sub s = ground arith

  pub record_charge-SameMoney :
      (id now : ℕ) (key : Option ℕ) (sub : Subscription) (amount : ℤ) (period : Period)
      (next_allowed : ℕ) (s : State L)
      → Yields
          (record_charge env id now key sub amount period next_allowed s)
          (λ _ u. SameMoney s u)
  unfolding record_charge
  record_charge-SameMoney id now key sub amount period next_allowed s =
      grind (arith, append_statement-SameMoney, write_period_snapshot-SameMoney)

  pub credit_treasury-Paid :
      (id now : ℕ) (token : Address) (treasury : Option Address) (net fee : ℤ) (s : State L)
      → pos 0 ≤ℤ fee
      → NoFeeWithout treasury fee
      → Yields (credit_treasury env id now token treasury (net, fee) s) (λ _ u. Paid token fee s u)
  unfolding credit_treasury
  credit_treasury-Paid id now token none net fee s h n = Paid-none token fee s n
  credit_treasury-Paid id now token (some treasury) net fee s h n =
      elim (Bool-cases (ltb_ℤ (pos 0) fee)) [
        | inl e ↦ rw e (
            bind-Yields
              (credit_merchant_balance_for_token treasury token fee BillingChargeKind.interval) _
              (λ _ u. Paid token fee s u) s
              (weaken _ _ _ (credit-Credited treasury token fee BillingChargeKind.interval s)
                λ _ u c. Paid-publish token fee s u _ (Credited-Paid treasury token fee s u c)))
        | inr e ↦ rw e (Paid-none token fee s (omega (int_laws, not-ltb→le_ℤ (pos 0) fee e)))
      ]

  pub pay_shares-Paid :
      (id now : ℕ) (sub : Subscription) (amount : ℤ) (s : State L)
      → pos 0 ≤ℤ amount
      → IsModest amount
      → get_protocol_fee_bps s ≤ 10_000
      → Yields (pay_shares env id now sub amount s) (λ _ u. Paid sub.token amount s u)
  unfolding pay_shares
  pay_shares-Paid id now sub amount s h m b =
      let shares = split_fee amount (get_protocol_fee_bps s) (get_treasury s) in
      let split = split_fee-IsSplit amount (get_protocol_fee_bps s) (get_treasury s) h m b in
      bind-Yields
        (credit_merchant_balance_for_token sub.merchant sub.token shares.0
          BillingChargeKind.interval)
        _ (λ _ u. Paid sub.token amount s u) s
        (weaken _ _ _ (credit-Credited sub.merchant sub.token shares.0 BillingChargeKind.interval s)
          λ _ u c.
            weaken _ _ _
              (credit_treasury-Paid id now sub.token (get_treasury s) shares.0 shares.1 u
                split.fee_nonneg split.no_treasury)
              λ _ v q.
                Paid-join sub.token shares.0 shares.1 amount s u v split.total
                  (Credited-Paid sub.merchant sub.token shares.0 s u c) q)
