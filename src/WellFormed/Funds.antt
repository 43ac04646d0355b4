-- ===== src/WellFormed/Funds.antt =====
-- Deposits and payouts of subscription.rs and the invariant of the stored subscriptions.
use stellabill_contracts.Prelude.{
  ℕ, ℤ, pos, ◌≡◌, ◌≤ℤ◌, ◌+ℤ◌, ◌-ℤ◌, arith, int_laws, nat_eq, get, not, ◌==◌, ◌&&◌, leb_ℤ, ltb_ℤ,
  false, +ℤ_parts, parts_of_eq,
}
use stellabill_contracts.Types.Errors.{Error}
use stellabill_contracts.Types.Records.{Address, Subscription, SubscriptionStatus, status_eq}
use stellabill_contracts.Types.Events.{Event, deposited}
use stellabill_contracts.Host.State.{State, Env}
use stellabill_contracts.Host.Calls.{ok, ◌>>◌, publish, modify, transfer, require_auth}
use stellabill_contracts.Host.Outcomes.{
  Yields, lift-Yields, fail_if-Yields, or_fail-Yields, check-Yields, Yields-ok, step-Yields,
  when-Yields,
}
use stellabill_contracts.SafeMath.{safe_sub, safe_add_balance, validate_non_negative}
use stellabill_contracts.SafeMath.Bounds.{safe_sub-ok, safe_add_balance-ok}
use stellabill_contracts.Store.{get_subscription, put_subscription}
use stellabill_contracts.Accounting.{add_total_accounted, sub_total_accounted}
use stellabill_contracts.Admin.{require_admin_auth, get_min_topup}
use stellabill_contracts.Blocklist.{require_not_blocklisted}
use stellabill_contracts.Subscription.Lifecycle.{awaits_funds}
use stellabill_contracts.Subscription.Funds.{
  has_ended, recover_funded, deposit_allowed, take_deposit, do_deposit_funds,
  do_withdraw_subscriber_funds, do_partial_refund,
}
use stellabill_contracts.Solvency.Steps.{
  SameBooks, Counted, transfer-SameBooks, add_total-Counted, sub_total-Counted, require_auth-same,
  require_not_blocklisted-same,
}
use stellabill_contracts.Solvency.Inflows.{deposit_allowed-same}
use stellabill_contracts.Solvency.Payouts.{require_admin_auth-same, positive}
use stellabill_contracts.WellFormed.{
  IsSound, IsWellFormed, IsSound-status, IsWellFormed-put, IsWellFormed-same, IsWellFormed-get,
}

IsSound-balance :
    (sub : Subscription) (balance : ℤ)
    → IsSound sub
    → pos 0 ≤ℤ balance
    → IsSound (record sub { prepaid_balance = balance })
IsSound-balance sub balance h n = record {
  prepaid_nonneg = n;
  charged_nonneg = h.charged_nonneg;
  within_cap = h.within_cap;
}

pub sum_nonneg : (a b c : ℤ) → pos 0 ≤ℤ a → pos 0 ≤ℤ b → c ≡ a +ℤ b → pos 0 ≤ℤ c
sum_nonneg a b c h k e = omega (int_laws, parts_of_eq e, +ℤ_parts a b)

pub rest_nonneg : (a b c : ℤ) → ltb_ℤ a b ≡ false → c ≡ a -ℤ b → pos 0 ≤ℤ c
rest_nonneg a b c h e = grind int_laws

module _ {L : Type 0} (env : Env L) where
  recover_funded-IsWellFormed :
      (id : ℕ) (sub : Subscription) (s : State L)
      → IsSound sub
      → IsWellFormed s
      → Yields (recover_funded env id sub s) (λ _ u. IsWellFormed u)
  unfolding recover_funded publish
  recover_funded-IsWellFormed id sub s h w =
      when-Yields (awaits_funds sub && leb_ℤ sub.amount sub.prepaid_balance) _ (λ u. IsWellFormed u)
        s w
        (IsWellFormed-put s id (record sub { status = SubscriptionStatus.active }) w
          (IsSound-status sub SubscriptionStatus.active h))

  take_deposit-IsWellFormed :
      (id : ℕ) (subscriber : Address) (amount : ℤ) (sub : Subscription) (s : State L)
      → IsSound sub
      → IsWellFormed s
      → Yields (take_deposit env id subscriber amount sub s) (λ _ u. IsWellFormed u)
  unfolding take_deposit publish
  take_deposit-IsWellFormed id subscriber amount sub s h w =
      let Q : Unit {0} → State L → Type 0 = λ _ u. IsWellFormed u in
      lift-Yields (safe_add_balance sub.prepaid_balance amount) _ Q s λ balance e.
        let f = safe_add_balance-ok sub.prepaid_balance amount e in
        let new : Subscription = record sub { prepaid_balance = balance } in
        let sound =
          IsSound-balance sub balance h
            (sum_nonneg sub.prepaid_balance amount balance h.prepaid_nonneg f.0 f.1) in
        let s1 = put_subscription id new s in
        step-Yields (transfer env sub.token subscriber env.current_contract_address amount) _ Q s1
          (λ _ v. SameBooks s1 v)
          (transfer-SameBooks env sub.token subscriber env.current_contract_address amount s1)
          λ _ s2 m.
            step-Yields (add_total_accounted sub.token amount) _ Q s2
              (λ _ v. Counted sub.token amount s2 v) (add_total-Counted sub.token amount s2 f.0)
              λ _ s3 c.
                recover_funded-IsWellFormed id new
                  (publish (deposited id subscriber sub.token amount balance env.timestamp) s3).1
                  sound
                  (IsWellFormed-same s2 s3 c.subs
                    (IsWellFormed-same s1 s2 m.subs (IsWellFormed-put s id new w sound)))

  do_deposit_funds-Yields :
      (id : ℕ) (subscriber : Address) (amount : ℤ) (s : State L)
      → IsWellFormed s
      → Yields (do_deposit_funds env id subscriber amount s) (λ _ u. IsWellFormed u)
  unfolding do_deposit_funds get_min_topup get_subscription
  do_deposit_funds-Yields id subscriber amount s w =
      let Q : Unit {0} → State L → Type 0 = λ _ u. IsWellFormed u in
      check-Yields (require_auth env subscriber) _ Q s (require_auth-same env subscriber s) λ _.
        check-Yields (require_not_blocklisted subscriber) _ Q s
          (require_not_blocklisted-same subscriber s)
          λ _. or_fail-Yields s.admin_store.min_topup Error.not_initialized _ Q s λ min_topup _.
            fail_if-Yields (ltb_ℤ amount min_topup) Error.below_minimum_topup _ Q s λ _.
              lift-Yields (validate_non_negative amount) _ Q s λ _ _.
                or_fail-Yields (get s.subscriptions.subs id) Error.not_found _ Q s λ sub g.
                  check-Yields (deposit_allowed env id subscriber amount sub) _ Q s
                    (deposit_allowed-same env id subscriber amount sub s)
                    λ _.
                      take_deposit-IsWellFormed id subscriber amount sub s
                        (IsWellFormed-get s id sub g w) w

  -- The tail that the two payouts share.
  pay_back-IsWellFormed :
      (id : ℕ) (token to : Address) (new : Subscription) (amount : ℤ) (event : Event) (s : State L)
      → pos 0 ≤ℤ amount
      → IsSound new
      → IsWellFormed s
      → Yields
          ((modify (put_subscription id new)
              >> (transfer env token env.current_contract_address to amount
                  >> (sub_total_accounted token amount >> publish event)))
            s)
          (λ _ u. IsWellFormed u)
  unfolding publish
  pay_back-IsWellFormed id token to new amount event s n h w =
      let Q : Unit {0} → State L → Type 0 = λ _ u. IsWellFormed u in
      let s1 = put_subscription id new s in
      step-Yields (transfer env token env.current_contract_address to amount) _ Q s1
        (λ _ v. SameBooks s1 v)
        (transfer-SameBooks env token env.current_contract_address to amount s1)
        λ _ s2 m.
          step-Yields (sub_total_accounted token amount) _ Q s2
            (λ _ v. Counted token (pos 0 -ℤ amount) s2 v) (sub_total-Counted token amount s2 n)
            λ _ s3 c.
              IsWellFormed-same s2 s3 c.subs
                (IsWellFormed-same s1 s2 m.subs (IsWellFormed-put s id new w h))

  do_withdraw_subscriber_funds-Yields :
      (id : ℕ) (subscriber : Address) (s : State L)
      → IsWellFormed s
      → Yields (do_withdraw_subscriber_funds env id subscriber s) (λ _ u. IsWellFormed u)
  unfolding do_withdraw_subscriber_funds get_subscription
  do_withdraw_subscriber_funds-Yields id subscriber s w =
      let Q : Unit {0} → State L → Type 0 = λ _ u. IsWellFormed u in
      check-Yields (require_auth env subscriber) _ Q s (require_auth-same env subscriber s) λ _.
        or_fail-Yields (get s.subscriptions.subs id) Error.not_found _ Q s λ sub g.
          fail_if-Yields (not (subscriber == sub.subscriber)) Error.forbidden _ Q s λ _.
            fail_if-Yields (leb_ℤ sub.prepaid_balance (pos 0)) Error.invalid_amount _ Q s λ p.
              fail_if-Yields (not (has_ended sub env.timestamp)) Error.invalid_status_transition _ Q
                s
                λ _.
                  fail_if-Yields (leb_ℤ sub.prepaid_balance (pos 0)) Error.insufficient_balance _ Q
                    s
                    λ _.
                      pay_back-IsWellFormed id sub.token subscriber
                        (record sub { prepaid_balance = pos 0 }) sub.prepaid_balance _ s
                        (positive sub.prepaid_balance p)
                        (IsSound-balance sub (pos 0) (IsWellFormed-get s id sub g w) (omega arith))
                        w

  do_partial_refund-Yields :
      (admin : Address) (id : ℕ) (subscriber : Address) (amount : ℤ) (s : State L)
      → IsWellFormed s
      → Yields (do_partial_refund env admin id subscriber amount s) (λ _ u. IsWellFormed u)
  unfolding do_partial_refund get_subscription
  do_partial_refund-Yields admin id subscriber amount s w =
      let Q : Unit {0} → State L → Type 0 = λ _ u. IsWellFormed u in
      check-Yields (require_admin_auth env admin) _ Q s (require_admin_auth-same env admin s) λ _.
        fail_if-Yields (leb_ℤ amount (pos 0)) Error.invalid_amount _ Q s λ p.
          or_fail-Yields (get s.subscriptions.subs id) Error.not_found _ Q s λ sub g.
            fail_if-Yields (not (subscriber == sub.subscriber)) Error.unauthorized _ Q s λ _.
              fail_if-Yields (ltb_ℤ sub.prepaid_balance amount) Error.insufficient_balance _ Q s
                λ b. lift-Yields (safe_sub sub.prepaid_balance amount) _ Q s λ balance e.
                  pay_back-IsWellFormed id sub.token subscriber
                    (record sub { prepaid_balance = balance }) amount _ s (positive amount p)
                    (IsSound-balance sub balance (IsWellFormed-get s id sub g w) (
                      rest_nonneg sub.prepaid_balance amount balance b
                        (safe_sub-ok sub.prepaid_balance amount e).0))
                    w

  -- A deposit that returns keeps the invariant of the stored subscriptions.
  pub do_deposit_funds-IsWellFormed :
      (id : ℕ) (subscriber : Address) (amount : ℤ) (s u : State L)
      → IsWellFormed s
      → do_deposit_funds env id subscriber amount s ≡ (ok tt, u)
      → IsWellFormed u
  do_deposit_funds-IsWellFormed id subscriber amount s u w e =
      Yields-ok (do_deposit_funds env id subscriber amount s) (λ _ v. IsWellFormed v)
        (do_deposit_funds-Yields id subscriber amount s w) e

  -- A subscriber's withdrawal that returns keeps the invariant of the stored subscriptions.
  pub do_withdraw_subscriber_funds-IsWellFormed :
      (id : ℕ) (subscriber : Address) (s u : State L)
      → IsWellFormed s
      → do_withdraw_subscriber_funds env id subscriber s ≡ (ok tt, u)
      → IsWellFormed u
  do_withdraw_subscriber_funds-IsWellFormed id subscriber s u w e =
      Yields-ok (do_withdraw_subscriber_funds env id subscriber s) (λ _ v. IsWellFormed v)
        (do_withdraw_subscriber_funds-Yields id subscriber s w) e

  -- A partial refund that returns keeps the invariant of the stored subscriptions: it cannot pay out
  -- more than the prepaid balance.
  pub do_partial_refund-IsWellFormed :
      (admin : Address) (id : ℕ) (subscriber : Address) (amount : ℤ) (s u : State L)
      → IsWellFormed s
      → do_partial_refund env admin id subscriber amount s ≡ (ok tt, u)
      → IsWellFormed u
  do_partial_refund-IsWellFormed admin id subscriber amount s u w e =
      Yields-ok (do_partial_refund env admin id subscriber amount s) (λ _ v. IsWellFormed v)
        (do_partial_refund-Yields admin id subscriber amount s w) e
