-- ===== src/WellFormed/OneOff.antt =====
-- `do_charge_one_off` of subscription.rs and the invariant of the stored subscriptions.
use stellabill_contracts.Prelude.{
  ℕ, ℤ, pos, ◌≡◌, refl, ◌≤ℤ◌, ◌+ℤ◌, arith, int_laws, Option, none, some, nat_eq, get, not, ◌==◌,
  ◌&&◌, leb_ℤ, ltb_ℤ, false, ◌∙◌,
}
use stellabill_contracts.Types.Errors.{Error}
use stellabill_contracts.Types.Records.{
  Address, Subscription, SubscriptionStatus, BillingChargeKind, status_eq,
}
use stellabill_contracts.Host.State.{State, Env}
use stellabill_contracts.Host.Calls.{ok, publish, require_auth}
use stellabill_contracts.Host.Outcomes.{
  Yields, lift-Yields, fail_if-Yields, or_fail-Yields, check-Yields, step-Yields, keep-Yields,
  Yields-ok,
}
use stellabill_contracts.SafeMath.{safe_add, safe_sub}
use stellabill_contracts.SafeMath.Bounds.{safe_add-ok, safe_sub-ok}
use stellabill_contracts.Store.{get_subscription, put_subscription}
use stellabill_contracts.Merchant.{credit_merchant_balance_for_token}
use stellabill_contracts.Merchant.Credit.{Credited, credit-Credited}
use stellabill_contracts.Statements.{append_statement}
use stellabill_contracts.ChargeCore.Guards.{exhausted_cap, expiration_guard}
use stellabill_contracts.ChargeCore.Interval.Steps.{
  append_statement-SameMoney, expiration_guard-same,
}
use stellabill_contracts.Subscription.OneOff.{
  surpassed_cap, stop_at_exhausted, stop_at_surpassed, close_at_cap, take_one_off,
  do_charge_one_off,
}
use stellabill_contracts.Solvency.Steps.{require_auth-same}
use stellabill_contracts.Solvency.Charges.{stop_at_exhausted-same}
use stellabill_contracts.Solvency.Payouts.{positive}
use stellabill_contracts.WellFormed.{
  IsSound, IsWellFormed, IsWellFormed-put, IsWellFormed-same, IsWellFormed-get, IsWithinCap,
}
use stellabill_contracts.WellFormed.Funds.{rest_nonneg, sum_nonneg}

-- The total of the charges, where it does not surpass the cap.
pub within_cap :
    (cap : Option ℤ) (sub : Subscription) (total : ℤ)
    → sub.lifetime_cap ≡ cap
    → surpassed_cap sub total ≡ none
    → IsWithinCap cap total
unfolding surpassed_cap
within_cap none sub total e h = tt
within_cap (some cap) sub total e h = grind int_laws

module _ {L : Type 0} (env : Env L) where
  close_at_cap-IsSound :
      (id : ℕ) (sub : Subscription) (cap : Option ℤ) (s : State L)
      → IsSound sub
      → Yields
          (close_at_cap env id sub cap s)
          (λ closed u. IsSound closed × (u.subscriptions ≡ s.subscriptions))
  unfolding close_at_cap
  close_at_cap-IsSound id sub cap s h = ground arith

  stop_at_surpassed-none :
      (id : ℕ) (sub : Subscription) (cap : Option ℤ) (s : State L)
      → Yields (stop_at_surpassed env id sub cap s) (λ _ u. (u ≡ s) × (cap ≡ none))
  unfolding stop_at_surpassed
  stop_at_surpassed-none id sub cap s = ground arith

  take_one_off-IsWellFormed :
      (id : ℕ) (amount new_charged : ℤ) (sub : Subscription) (s : State L)
      → IsSound sub
      → pos 0 ≤ℤ amount
      → ltb_ℤ sub.prepaid_balance amount ≡ false
      → new_charged ≡ sub.lifetime_charged +ℤ amount
      → IsWithinCap sub.lifetime_cap new_charged
      → IsWellFormed s
      → Yields (take_one_off env id amount new_charged sub s) (λ _ u. IsWellFormed u)
  unfolding take_one_off publish
  take_one_off-IsWellFormed id amount new_charged sub s h a enough total cap w =
      let Q : Unit {0} → State L → Type 0 = λ _ u. IsWellFormed u in
      lift-Yields (safe_sub sub.prepaid_balance amount) _ Q s λ balance e.
        let charged : Subscription = record sub {
          lifetime_charged = new_charged;
          prepaid_balance = balance;
        } in
        let sound : IsSound charged = record {
          prepaid_nonneg =
              rest_nonneg sub.prepaid_balance amount balance enough
                (safe_sub-ok sub.prepaid_balance amount e).0;
          charged_nonneg =
              sum_nonneg sub.lifetime_charged amount new_charged h.charged_nonneg a total;
          within_cap = cap;
        } in
        step-Yields
          (credit_merchant_balance_for_token sub.merchant sub.token amount
            BillingChargeKind.one_off)
          _ Q s (λ _ u. Credited sub.merchant sub.token amount s u)
          (credit-Credited sub.merchant sub.token amount BillingChargeKind.one_off s)
          λ _ u c.
            step-Yields (close_at_cap env id charged (exhausted_cap charged)) _ Q u
              (λ closed v. IsSound closed × (v.subscriptions ≡ u.subscriptions))
              (close_at_cap-IsSound id charged (exhausted_cap charged) u sound)
              λ closed v k.
                let stored = put_subscription id closed v in
                keep-Yields
                  (append_statement env id amount sub.merchant BillingChargeKind.one_off
                    env.timestamp env.timestamp)
                  _ Q stored (λ x. x.subscriptions ≡ stored.subscriptions)
                  (append_statement-SameMoney env id amount sub.merchant BillingChargeKind.one_off
                    env.timestamp env.timestamp stored).subs
                  λ _ x g.
                    IsWellFormed-same stored x g
                      (IsWellFormed-put v id closed (IsWellFormed-same s v (k.1 ∙ c.subs) w) k.0)

  do_charge_one_off-Yields :
      (id : ℕ) (merchant : Address) (amount : ℤ) (s : State L)
      → IsWellFormed s
      → Yields (do_charge_one_off env id merchant amount s) (λ _ u. IsWellFormed u)
  unfolding do_charge_one_off get_subscription
  do_charge_one_off-Yields id merchant amount s w =
      let Q : Unit {0} → State L → Type 0 = λ _ u. IsWellFormed u in
      check-Yields (require_auth env merchant) _ Q s (require_auth-same env merchant s) λ _.
        or_fail-Yields (get s.subscriptions.subs id) Error.not_found _ Q s λ sub g.
          check-Yields (expiration_guard id env.timestamp sub) _ Q s
            (expiration_guard-same env id env.timestamp sub s)
            λ _. fail_if-Yields (not (sub.merchant == merchant)) Error.unauthorized _ Q s λ _.
              check-Yields (stop_at_exhausted env id sub (exhausted_cap sub)) _ Q s
                (stop_at_exhausted-same env id sub (exhausted_cap sub) s)
                λ _.
                  fail_if-Yields
                    (not (sub.status == SubscriptionStatus.active)
                      && not (sub.status == SubscriptionStatus.paused))
                    Error.not_active _ Q s
                    λ _. fail_if-Yields (leb_ℤ amount (pos 0)) Error.invalid_amount _ Q s λ p.
                      fail_if-Yields (ltb_ℤ sub.prepaid_balance amount)
                        Error.insufficient_prepaid_balance _ Q s
                        λ enough.
                          lift-Yields (safe_add sub.lifetime_charged amount) _ Q s λ new_charged e.
                            step-Yields
                              (stop_at_surpassed env id sub (surpassed_cap sub new_charged)) _ Q s
                              (λ _ u. (u ≡ s) × (surpassed_cap sub new_charged ≡ none))
                              (stop_at_surpassed-none id sub (surpassed_cap sub new_charged) s)
                              λ _ u k. rw k.0 (
                                take_one_off-IsWellFormed id amount new_charged sub s
                                  (IsWellFormed-get s id sub g w) (positive amount p) enough
                                  (safe_add-ok sub.lifetime_charged amount e).0
                                  (within_cap sub.lifetime_cap sub new_charged refl k.1) w)

  -- A one-off charge that returns keeps the invariant of the stored subscriptions: it leaves no
  -- negative balance and does not pass the lifetime cap.
  pub do_charge_one_off-IsWellFormed :
      (id : ℕ) (merchant : Address) (amount : ℤ) (s u : State L)
      → IsWellFormed s
      → do_charge_one_off env id merchant amount s ≡ (ok tt, u)
      → IsWellFormed u
  do_charge_one_off-IsWellFormed id merchant amount s u w e =
      Yields-ok (do_charge_one_off env id merchant amount s) (λ _ v. IsWellFormed v)
        (do_charge_one_off-Yields id merchant amount s w) e
