-- ===== src/Solvency/Inflows.antt =====
-- Deposits (subscription.rs) and the accounted total.
use stellabill_contracts.Prelude.{
  ℕ, ℤ, ◌≡◌, refl, ◌∙◌, some, nat_eq, get, Bool-cases, inl, inr, ltb_ℤ, leb_ℤ, ◌==◌, ◌&&◌, not,
}
use stellabill_contracts.Types.Errors.{Error}
use stellabill_contracts.Types.Records.{Address, Subscription, SubscriptionStatus, status_eq}
use stellabill_contracts.Types.Events.{deposited}
use stellabill_contracts.Host.State.{State, Env}
use stellabill_contracts.Host.Calls.{ok, publish, transfer, require_auth}
use stellabill_contracts.Host.Outcomes.{
  Yields, bind-Yields, lift-Yields, fail_if-Yields, weaken, Yields-ok, or_fail-Yields, check-Yields,
}
use stellabill_contracts.Admin.{get_min_topup}
use stellabill_contracts.Blocklist.{require_not_blocklisted}
use stellabill_contracts.Merchant.{get_merchant_paused}
use stellabill_contracts.Store.{get_subscription}
use stellabill_contracts.ChargeCore.Guards.{expiration_guard}
use stellabill_contracts.Subscription.Limits.{enforce_credit_limit_for_delta, enforce_deposit_cap}
use stellabill_contracts.SafeMath.{safe_add_balance, validate_non_negative}
use stellabill_contracts.SafeMath.Bounds.{safe_add_balance-ok}
use stellabill_contracts.Store.{put_subscription}
use stellabill_contracts.Accounting.{add_total_accounted}
use stellabill_contracts.ChargeCore.Interval.Conserved.{put-Conserved}
use stellabill_contracts.ChargeCore.Interval.Steps.{expiration_guard-same}
use stellabill_contracts.Subscription.Lifecycle.{awaits_funds}
use stellabill_contracts.Subscription.Funds.{
  recover_funded, deposit_allowed, take_deposit, do_deposit_funds,
}
use stellabill_contracts.Solvency.Steps.{
  IsBalanced, put-Owing, Owing-SameBooks, balance_step, IsBalanced-SameBooks, transfer-SameBooks,
  add_total-Counted, require_auth-same, require_not_blocklisted-same, lift_same, put_then,
  publish-SameBooks, IsBalanced-Conserved,
}

module _ {L : Type 0} (env : Env L) where
  recover_funded-IsBalanced :
      (id : ℕ) (sub : Subscription) (s : State L)
      → get s.subscriptions.subs id ≡ some sub
      → IsBalanced s
      → Yields (recover_funded env id sub s) (λ _ u. IsBalanced u)
  unfolding recover_funded
  recover_funded-IsBalanced id sub s h b =
      elim (Bool-cases (awaits_funds sub && leb_ℤ sub.amount sub.prepaid_balance)) [
        | inl e ↦ rw e (
            let c =
              put-Conserved s id sub (record sub { status = SubscriptionStatus.active }) h refl
                refl in
            IsBalanced-SameBooks _ _ (publish-SameBooks _ _)
              (IsBalanced-SameBooks _ _ (publish-SameBooks _ _) (IsBalanced-Conserved s _ b c)))
        | inr e ↦ rw e b
      ]

  take_deposit-IsBalanced :
      (id : ℕ) (subscriber : Address) (amount : ℤ) (sub : Subscription) (s : State L)
      → get s.subscriptions.subs id ≡ some sub
      → IsBalanced s
      → Yields (take_deposit env id subscriber amount sub s) (λ _ u. IsBalanced u)
  unfolding take_deposit
  take_deposit-IsBalanced id subscriber amount sub s h b =
      lift-Yields (safe_add_balance sub.prepaid_balance amount) _ (λ _ u. IsBalanced u) s
        λ balance e.
          let f = safe_add_balance-ok sub.prepaid_balance amount e in
          let new : Subscription = record sub { prepaid_balance = balance } in
          let s1 = put_subscription id new s in
          let o = put-Owing s id sub new amount h refl f.1 in
          bind-Yields (transfer env sub.token subscriber env.current_contract_address amount) _
            (λ _ u. IsBalanced u) s1
            (weaken _ _ _
              (transfer-SameBooks env sub.token subscriber env.current_contract_address amount s1)
              λ _ s2 m.
                bind-Yields (add_total_accounted sub.token amount) _ (λ _ u. IsBalanced u) s2
                  (weaken _ _ _ (add_total-Counted sub.token amount s2 f.0) λ _ s3 c.
                    let s4 =
                      (publish (deposited id subscriber sub.token amount balance env.timestamp)
                        s3).1 in
                    recover_funded-IsBalanced id new s4 (put_then s s4 id new (c.subs ∙ m.subs)) (
                      IsBalanced-SameBooks s3 s4 (publish-SameBooks s3 _) (
                        balance_step sub.token amount s s2 s3 b
                          (Owing-SameBooks sub.token amount s s1 s2 o m) c))))

  pub deposit_allowed-same :
      (id : ℕ) (subscriber : Address) (amount : ℤ) (sub : Subscription) (s : State L)
      → Yields (deposit_allowed env id subscriber amount sub s) (λ _ u. u ≡ s)
  unfolding deposit_allowed
  deposit_allowed-same id subscriber amount sub s =
      fail_if-Yields (not (subscriber == sub.subscriber)) Error.unauthorized _ (λ _ u. u ≡ s) s
        λ _.
          fail_if-Yields (get_merchant_paused s sub.merchant) Error.merchant_paused _ (λ _ u. u ≡ s)
            s
            λ _.
              check-Yields (expiration_guard id env.timestamp sub) _ (λ _ u. u ≡ s) s
                (expiration_guard-same env id env.timestamp sub s)
                λ _.
                  lift-Yields (enforce_credit_limit_for_delta s subscriber sub.token amount) _
                    (λ _ u. u ≡ s) s λ _ _. lift_same (enforce_deposit_cap sub amount) s

  do_deposit_funds-Yields :
      (id : ℕ) (subscriber : Address) (amount : ℤ) (s : State L)
      → IsBalanced s
      → Yields (do_deposit_funds env id subscriber amount s) (λ _ u. IsBalanced u)
  unfolding do_deposit_funds get_min_topup get_subscription
  do_deposit_funds-Yields id subscriber amount s b =
      check-Yields (require_auth env subscriber) _ (λ _ u. IsBalanced u) s
        (require_auth-same env subscriber s)
        λ _.
          check-Yields (require_not_blocklisted subscriber) _ (λ _ u. IsBalanced u) s
            (require_not_blocklisted-same subscriber s)
            λ _.
              or_fail-Yields s.admin_store.min_topup Error.not_initialized _ (λ _ u. IsBalanced u) s
                λ min_topup _.
                  fail_if-Yields (ltb_ℤ amount min_topup) Error.below_minimum_topup _
                    (λ _ u. IsBalanced u) s
                    λ _.
                      lift-Yields (validate_non_negative amount) _ (λ _ u. IsBalanced u) s
                        λ _ _.
                          or_fail-Yields (get s.subscriptions.subs id) Error.not_found _
                            (λ _ u. IsBalanced u) s
                            λ sub h.
                              check-Yields (deposit_allowed env id subscriber amount sub) _
                                (λ _ u. IsBalanced u) s
                                (deposit_allowed-same id subscriber amount sub s)
                                λ _. take_deposit-IsBalanced id subscriber amount sub s h b

-- A deposit that returns keeps the books balanced, in every token.
pub do_deposit_funds-IsBalanced :
    {L : Type 0} (env : Env L) (id : ℕ) (subscriber : Address) (amount : ℤ) (s u : State L)
    → IsBalanced s
    → do_deposit_funds env id subscriber amount s ≡ (ok tt, u)
    → IsBalanced u
do_deposit_funds-IsBalanced env id subscriber amount s u b e =
    Yields-ok (do_deposit_funds env id subscriber amount s) (λ _ v. IsBalanced v)
      (do_deposit_funds-Yields env id subscriber amount s b) e
