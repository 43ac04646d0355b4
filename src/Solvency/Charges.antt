-- ===== src/Solvency/Charges.antt =====
-- Charges, scheduled (charge_core.rs) and one-off (subscription.rs), and the accounted total.
use stellabill_contracts.Prelude.{
  ℕ, ◌≤◌, ℤ, pos, ◌≡◌, ◌+ℤ◌, ◌-ℤ◌, ◌∙◌, arith, int_laws, Option, some, nat_eq, get, ltb_ℤ, leb_ℤ,
  ◌==◌, ◌&&◌, not,
}
use stellabill_contracts.Types.Errors.{Error}
use stellabill_contracts.Types.Records.{
  Address, Subscription, SubscriptionStatus, ChargeExecutionResult, BillingChargeKind, status_eq,
}
use stellabill_contracts.Types.Events.{one_off_charged}
use stellabill_contracts.Host.State.{State, Env}
use stellabill_contracts.Host.Calls.{ok, publish, require_auth}
use stellabill_contracts.Host.Outcomes.{
  Yields, bind-Yields, lift-Yields, fail_if-Yields, or_fail-Yields, check-Yields, weaken, Yields-ok,
  Yields-always,
}
use stellabill_contracts.SafeMath.{safe_add, safe_sub}
use stellabill_contracts.SafeMath.Bounds.{safe_sub-ok}
use stellabill_contracts.Store.{get_subscription, put_subscription}
use stellabill_contracts.Admin.{get_protocol_fee_bps}
use stellabill_contracts.Books.{SameMoney, merchants_owed}
use stellabill_contracts.Merchant.{credit_merchant_balance_for_token}
use stellabill_contracts.Merchant.Credit.{credit-Credited}
use stellabill_contracts.Statements.{append_statement}
use stellabill_contracts.ChargeCore.Guards.{exhausted_cap, expiration_guard}
use stellabill_contracts.ChargeCore.Fees.{IsModest}
use stellabill_contracts.ChargeCore.Interval.{charge_one}
use stellabill_contracts.ChargeCore.Interval.Steps.{
  Paid, Credited-Paid, append_statement-SameMoney, expiration_guard-same,
}
use stellabill_contracts.ChargeCore.Interval.Conserved.{
  Conserved, settled-Conserved, Conserved-SameMoney, Conserved-publish,
}
use stellabill_contracts.ChargeCore.Interval.Conservation.{charge_one-Conserved}
use stellabill_contracts.Subscription.OneOff.{
  surpassed_cap, stop_at_exhausted, stop_at_surpassed, close_at_cap, take_one_off,
  do_charge_one_off,
}
use stellabill_contracts.Solvency.Steps.{IsBalanced, IsBalanced-Conserved, require_auth-same}

minus_back : (a b c : ℤ) → c ≡ a -ℤ b → c +ℤ b ≡ a
minus_back a b c h = grind int_laws

module _ {L : Type 0} where
  Paid-SameMoney :
      (token : Address) (amount : ℤ) (s u v : State L)
      → Paid token amount s u
      → SameMoney u v
      → Paid token amount s v
  unfolding merchants_owed
  Paid-SameMoney token amount s u v p m = record {
    balances = λ t. grind (int_laws, p.balances t, m.balances);
    subs = m.subs ∙ p.subs;
    accounted = m.accounted ∙ p.accounted;
    ledger = m.ledger ∙ p.ledger;
  }

module _ {L : Type 0} (env : Env L) where
  close_at_cap-same :
      (id : ℕ) (sub : Subscription) (cap : Option ℤ) (s : State L)
      → Yields (close_at_cap env id sub cap s) (λ closed u.
        (closed.token ≡ sub.token) × (closed.prepaid_balance ≡ sub.prepaid_balance) × SameMoney s u)
  unfolding close_at_cap
  close_at_cap-same id sub cap s = ground arith

  pub stop_at_exhausted-same :
      (id : ℕ) (sub : Subscription) (cap : Option ℤ) (s : State L)
      → Yields (stop_at_exhausted env id sub cap s) (λ _ u. u ≡ s)
  unfolding stop_at_exhausted
  stop_at_exhausted-same id sub cap s = ground arith

  stop_at_surpassed-same :
      (id : ℕ) (sub : Subscription) (cap : Option ℤ) (s : State L)
      → Yields (stop_at_surpassed env id sub cap s) (λ _ u. u ≡ s)
  unfolding stop_at_surpassed
  stop_at_surpassed-same id sub cap s = ground arith

  take_one_off-Conserved :
      (id : ℕ) (amount new_charged : ℤ) (sub : Subscription) (s : State L)
      → get s.subscriptions.subs id ≡ some sub
      → Yields (take_one_off env id amount new_charged sub s) (λ _ u. Conserved s u)
  unfolding take_one_off publish
  take_one_off-Conserved id amount new_charged sub s h =
      let Q : Unit {0} → State L → Type 0 = λ _ u. Conserved s u in
      lift-Yields (safe_sub sub.prepaid_balance amount) _ Q s λ balance e.
        let charged : Subscription = record sub {
          lifetime_charged = new_charged;
          prepaid_balance = balance;
        } in
        bind-Yields
          (credit_merchant_balance_for_token sub.merchant sub.token amount
            BillingChargeKind.one_off)
          _ Q s
          (weaken _ _ _ (credit-Credited sub.merchant sub.token amount BillingChargeKind.one_off s)
            λ _ u c. bind-Yields (close_at_cap env id charged (exhausted_cap charged)) _ Q u (
              weaken _
                (λ closed v.
                  (closed.token ≡ charged.token)
                  × (closed.prepaid_balance ≡ charged.prepaid_balance)
                  × SameMoney u v)
                _ (close_at_cap-same id charged (exhausted_cap charged) u)
                λ closed v k.
                  let d =
                    settled-Conserved s v id sub closed amount h k.0
                      (rw k.1 (
                        minus_back sub.prepaid_balance amount balance
                          (safe_sub-ok sub.prepaid_balance amount e).0))
                      (Paid-SameMoney sub.token amount s u v
                        (Credited-Paid sub.merchant sub.token amount s u c) k.2) in
                  bind-Yields
                    (append_statement env id amount sub.merchant BillingChargeKind.one_off
                      env.timestamp env.timestamp)
                    _ Q (put_subscription id closed v)
                    (Yields-always _
                      (λ w.
                        Conserved s
                          (publish
                            (one_off_charged id sub.subscriber sub.merchant sub.token amount balance
                              env.timestamp)
                            w).1)
                      (Conserved-publish s _ _ (
                        Conserved-SameMoney s (put_subscription id closed v) _ d (
                          append_statement-SameMoney env id amount sub.merchant
                            BillingChargeKind.one_off env.timestamp env.timestamp
                            (put_subscription id closed v)))))))

  do_charge_one_off-Yields :
      (id : ℕ) (merchant : Address) (amount : ℤ) (s : State L)
      → Yields (do_charge_one_off env id merchant amount s) (λ _ u. Conserved s u)
  unfolding do_charge_one_off get_subscription
  do_charge_one_off-Yields id merchant amount s =
      let Q : Unit {0} → State L → Type 0 = λ _ u. Conserved s u in
      check-Yields (require_auth env merchant) _ Q s (require_auth-same env merchant s) λ _.
        or_fail-Yields (get s.subscriptions.subs id) Error.not_found _ Q s λ sub h.
          check-Yields (expiration_guard id env.timestamp sub) _ Q s
            (expiration_guard-same env id env.timestamp sub s)
            λ _. fail_if-Yields (not (sub.merchant == merchant)) Error.unauthorized _ Q s λ _.
              check-Yields (stop_at_exhausted env id sub (exhausted_cap sub)) _ Q s
                (stop_at_exhausted-same id sub (exhausted_cap sub) s)
                λ _.
                  fail_if-Yields
                    (not (sub.status == SubscriptionStatus.active)
                      && not (sub.status == SubscriptionStatus.paused))
                    Error.not_active _ Q s
                    λ _. fail_if-Yields (leb_ℤ amount (pos 0)) Error.invalid_amount _ Q s λ _.
                      fail_if-Yields (ltb_ℤ sub.prepaid_balance amount)
                        Error.insufficient_prepaid_balance _ Q s
                        λ _.
                          lift-Yields (safe_add sub.lifetime_charged amount) _ Q s λ new_charged _.
                            check-Yields
                              (stop_at_surpassed env id sub (surpassed_cap sub new_charged)) _ Q s
                              (stop_at_surpassed-same id sub (surpassed_cap sub new_charged) s)
                              λ _. take_one_off-Conserved id amount new_charged sub s h

  -- A one-off charge that returns leaves what the vault owes in every token as it was, and touches
  -- neither the accounted totals nor the token contracts.
  pub do_charge_one_off-Conserved :
      (id : ℕ) (merchant : Address) (amount : ℤ) (s u : State L)
      → do_charge_one_off env id merchant amount s ≡ (ok tt, u)
      → Conserved s u
  do_charge_one_off-Conserved id merchant amount s u e =
      Yields-ok (do_charge_one_off env id merchant amount s) (λ _ v. Conserved s v)
        (do_charge_one_off-Yields id merchant amount s) e

  -- A charge that returns keeps the books balanced, in every token, when the subscription's balance
  -- times 10,000 fits in an `i128` and the fee is at most 10,000 basis points.
  pub charge_one-IsBalanced :
      (id now : ℕ) (key : Option ℕ) (s u : State L) (sub : Subscription) {r : ChargeExecutionResult}
      → get s.subscriptions.subs id ≡ some sub
      → IsModest sub.prepaid_balance
      → get_protocol_fee_bps s ≤ 10_000
      → IsBalanced s
      → charge_one env id now key s ≡ (ok r, u)
      → IsBalanced u
  charge_one-IsBalanced id now key s u sub h m f b e =
      IsBalanced-Conserved s u b (charge_one-Conserved env id now key s u sub h m f e)
