-- ===== src/ChargeCore/Usage/Guarded.antt =====
-- The guards of `charge_usage_one` of charge_core.rs: a run that returns has passed them all, and
-- none of them changes the state.
use stellabill_contracts.Prelude.{
  ℕ, ℤ, pos, ◌≡◌, true, false, some, not, ◌==◌, nat_eq, string_eq, pair_eq, get, leb_ℤ, ltb_ℤ,
  is_some, String, arith,
}
use stellabill_contracts.Types.Errors.{Error}
use stellabill_contracts.Types.Records.{
  Subscription, SubscriptionStatus, UsageChargeResult, status_eq,
}
use stellabill_contracts.Host.State.{State, Env}
use stellabill_contracts.Host.Outcomes.{Yields, fail_if-Yields, or_fail-Yields, check-Yields}
use stellabill_contracts.Store.{get_subscription}
use stellabill_contracts.Merchant.{get_merchant_paused}
use stellabill_contracts.ChargeCore.Guards.{exhausted_cap, expiration_guard}
use stellabill_contracts.ChargeCore.Interval.Steps.{expiration_guard-same}
use stellabill_contracts.ChargeCore.Usage.{use_reference, charge_usage_one}
use stellabill_contracts.Subscription.OneOff.{stop_at_exhausted}
use stellabill_contracts.Solvency.Charges.{stop_at_exhausted-same}

-- What the guards leave of a charge.
pub record IsChargeable (sub : Subscription) (amount : ℤ) : Type 0 where
  pub active : (sub.status == SubscriptionStatus.active) ≡ true
  pub positive : leb_ℤ amount (pos 0) ≡ false
  pub funded : ltb_ℤ sub.prepaid_balance amount ≡ false

module _ {L : Type 0} (env : Env L) where
  -- The rule for a charge for use: its guards only stop it.
  pub charge_usage_one-Yields :
      (id : ℕ) (amount : ℤ) (reference : String) (s : State L)
      (Q : UsageChargeResult → State L → Type 0)
      → ((sub : Subscription)
          → get s.subscriptions.subs id ≡ some sub
          → IsChargeable sub amount
          → Yields
              (use_reference env id sub amount reference
                (is_some (get s.billing.usage_refs (id, reference)))
                s)
              Q)
      → Yields (charge_usage_one env id amount reference s) Q
  unfolding charge_usage_one get_subscription
  charge_usage_one-Yields id amount reference s Q k =
      or_fail-Yields (get s.subscriptions.subs id) Error.not_found _ Q s λ sub g.
        fail_if-Yields (get_merchant_paused s sub.merchant) Error.merchant_paused _ Q s λ _.
          check-Yields (expiration_guard id env.timestamp sub) _ Q s
            (expiration_guard-same env id env.timestamp sub s)
            λ _.
              check-Yields (stop_at_exhausted env id sub (exhausted_cap sub)) _ Q s
                (stop_at_exhausted-same env id sub (exhausted_cap sub) s)
                λ _.
                  fail_if-Yields (not (sub.status == SubscriptionStatus.active)) Error.not_active _
                    Q s
                    λ a. fail_if-Yields (not sub.usage_enabled) Error.usage_not_enabled _ Q s λ _.
                      fail_if-Yields (leb_ℤ amount (pos 0)) Error.invalid_amount _ Q s λ p.
                        fail_if-Yields (ltb_ℤ sub.prepaid_balance amount)
                          Error.insufficient_prepaid_balance _ Q s
                          λ f. k sub g (record { active = ground arith; positive = p; funded = f })
