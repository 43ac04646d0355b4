-- ===== src/WellFormed/Charges.antt =====
-- `charge_one` of charge_core.rs and the invariant of the stored subscriptions.
use stellabill_contracts.Prelude.{
  ℕ, ℤ, pos, ◌≡◌, refl, ◌≤ℤ◌, ◌+ℤ◌, ◌∙◌, +ℤ_parts, arith, int_laws, Option, none, some, nat_eq, get,
  ltb, ltb_ℤ, checked_add_u64, not, ◌==◌, ◌&&◌,
}
use stellabill_contracts.Types.Errors.{Error}
use stellabill_contracts.Types.Records.{
  Address, Subscription, SubscriptionStatus, ChargeExecutionResult, status_eq, BillingChargeKind,
}
use stellabill_contracts.Types.Events.{Event, lifetime_cap_reached}
use stellabill_contracts.Host.State.{State, Env}
use stellabill_contracts.Host.Calls.{Result, ok, err, trap, publish, pure, when, lift}
use stellabill_contracts.Host.Outcomes.{
  Yields, lift-Yields, fail_if-Yields, or_fail-Yields, if-Yields, check-Yields, weaken, Yields-ok,
  step-Yields, when-Yields,
}
use stellabill_contracts.SafeMath.{safe_sub_balance}
use stellabill_contracts.SafeMath.Bounds.{safe_sub_balance-ok}
use stellabill_contracts.Store.{get_subscription, put_subscription}
use stellabill_contracts.Books.{SameMoney}
use stellabill_contracts.Admin.{get_grace_period, get_protocol_fee_bps, get_treasury}
use stellabill_contracts.StateMachine.{validate_status_transition}
use stellabill_contracts.Merchant.{credit_merchant_balance_for_token}
use stellabill_contracts.Merchant.Credit.{Credited, credit-Credited}
use stellabill_contracts.Merchant.{get_merchant_paused}
use stellabill_contracts.Oracle.{resolve_charge_amount}
use stellabill_contracts.ChargeCore.Guards.{
  expiration_guard, cancel_at_cap, cancel_exhausted, exhausted_cap, exceeded_cap, exceeds,
  move_status,
}
use stellabill_contracts.ChargeCore.Period.{
  Period, paid_subscription, next_charge_time, period_at, split_fee,
}
use stellabill_contracts.ChargeCore.Interval.{
  pay_shares, credit_treasury, record_charge, publish_cap, charge_paid, charge_unpaid,
  underfunded_status, settle, charge_within_cap, charge_due, charge_open, charge_unless_exhausted,
  charge_one, already_charged, same_key,
}
use stellabill_contracts.ChargeCore.Interval.Steps.{
  resolve_charge_amount-same, expiration_guard-same, record_charge-SameMoney,
}
use stellabill_contracts.ChargeCore.Interval.Conserved.{when-lift-same}
use stellabill_contracts.WellFormed.{
  IsSound, IsWellFormed, IsSound-status, IsWellFormed-put, IsWellFormed-same, IsWellFormed-get,
  IsWithinCap,
}

record PaidFields (sub : Subscription) (new_balance amount : ℤ) (new : Subscription) : Type 0 where
  balance : new.prepaid_balance ≡ new_balance
  cap : new.lifetime_cap ≡ sub.lifetime_cap
  charged : new.lifetime_charged ≡ sub.lifetime_charged +ℤ amount

paid_subscription-fields :
    (sub : Subscription) (new_balance amount : ℤ) (start : ℕ) {new : Subscription}
    → paid_subscription sub new_balance amount start ≡ ok new
    → PaidFields sub new_balance amount new
unfolding paid_subscription
paid_subscription-fields sub new_balance amount start e = ground arith

cap_left :
    (cap : Option ℤ) (charged amount : ℤ)
    → pos 0 ≤ℤ amount
    → IsWithinCap cap charged
    → exceeds cap charged amount ≡ ok none
    → IsWithinCap cap (charged +ℤ amount)
unfolding exceeds
cap_left none charged amount a w h = tt
cap_left (some cap) charged amount a w h = grind int_laws

-- A charge within the cap leaves the subscription sound.
paid_subscription-IsSound :
    (sub : Subscription) (new_balance amount : ℤ) (start : ℕ) {new : Subscription}
    → IsSound sub
    → pos 0 ≤ℤ new_balance
    → pos 0 ≤ℤ amount
    → exceeded_cap sub amount ≡ ok none
    → paid_subscription sub new_balance amount start ≡ ok new
    → IsSound new
unfolding exceeded_cap
paid_subscription-IsSound sub new_balance amount start {new} h n a c e =
    let f = paid_subscription-fields sub new_balance amount start e in
    record {
      prepaid_nonneg = rw f.balance n;
      charged_nonneg =
          rw f.charged
            (omega (int_laws, h.charged_nonneg, a, +ℤ_parts sub.lifetime_charged amount));
      within_cap =
          rw (f.cap, f.charged)
            (cap_left sub.lifetime_cap sub.lifetime_charged amount a h.within_cap c);
    }

module _ {L : Type 0} where
  published : (s : State L) (e : Event) → IsWellFormed s → IsWellFormed (publish e s).1
  unfolding publish
  published s e w = w

  move_status-IsWellFormed :
      (id : ℕ) (sub : Subscription) (status : SubscriptionStatus) (s : State L)
      → IsSound sub
      → IsWellFormed s
      → Yields (move_status id sub status s) (λ _ u. IsWellFormed u)
  unfolding move_status
  move_status-IsWellFormed id sub status s h w =
      lift-Yields (validate_status_transition sub.status status) _ (λ _ u. IsWellFormed u) s
        λ _ _.
          IsWellFormed-put s id (record sub { status = status }) w (IsSound-status sub status h)

module _ {L : Type 0} (env : Env L) where
  credit_treasury-subs :
      (id now : ℕ) (token : Address) (treasury : Option Address) (shares : ℤ × ℤ) (s : State L)
      → Yields
          (credit_treasury env id now token treasury shares s)
          (λ _ u. u.subscriptions ≡ s.subscriptions)
  unfolding credit_treasury publish
  credit_treasury-subs id now token none (net, fee) s = refl
  credit_treasury-subs id now token (some treasury) (net, fee) s =
      when-Yields (ltb_ℤ (pos 0) fee) _ (λ u. u.subscriptions ≡ s.subscriptions) s refl
        (step-Yields
          (credit_merchant_balance_for_token treasury token fee BillingChargeKind.interval) _
          (λ _ u. u.subscriptions ≡ s.subscriptions) s (λ _ u. Credited treasury token fee s u)
          (credit-Credited treasury token fee BillingChargeKind.interval s) λ _ u c. c.subs)

  pay_shares-subs :
      (id now : ℕ) (sub : Subscription) (amount : ℤ) (s : State L)
      → Yields (pay_shares env id now sub amount s) (λ _ u. u.subscriptions ≡ s.subscriptions)
  unfolding pay_shares
  pay_shares-subs id now sub amount s =
      let shares = split_fee amount (get_protocol_fee_bps s) (get_treasury s) in
      step-Yields
        (credit_merchant_balance_for_token sub.merchant sub.token shares.0
          BillingChargeKind.interval)
        _ (λ _ u. u.subscriptions ≡ s.subscriptions) s
        (λ _ u. Credited sub.merchant sub.token shares.0 s u)
        (credit-Credited sub.merchant sub.token shares.0 BillingChargeKind.interval s)
        λ _ u c.
          weaken (credit_treasury env id now sub.token (get_treasury s) shares u)
            (λ _ v. v.subscriptions ≡ u.subscriptions) (λ _ v. v.subscriptions ≡ s.subscriptions)
            (credit_treasury-subs id now sub.token (get_treasury s) shares u) λ _ v e. e ∙ c.subs

  publish_cap-subs :
      (id now : ℕ) (cap : Option ℤ) (charged : ℤ) (s : State L)
      → Yields (publish_cap id now cap charged s) (λ _ u. u.subscriptions ≡ s.subscriptions)
  unfolding publish_cap
  publish_cap-subs id now cap charged s = ground arith

  charge_paid-IsWellFormed :
      (id now : ℕ) (key : Option ℕ) (sub : Subscription) (amount : ℤ) (period : Period)
      (next_allowed : ℕ) (new_balance : ℤ) (s : State L)
      → IsSound sub
      → pos 0 ≤ℤ new_balance
      → pos 0 ≤ℤ amount
      → exceeded_cap sub amount ≡ ok none
      → IsWellFormed s
      → Yields
          (charge_paid env id now key sub amount period next_allowed new_balance s)
          (λ _ u. IsWellFormed u)
  unfolding charge_paid
  charge_paid-IsWellFormed id now key sub amount period next_allowed new_balance s h n a c w =
      let Q : ChargeExecutionResult → State L → Type 0 = λ _ u. IsWellFormed u in
      step-Yields (pay_shares env id now sub amount) _ Q s
        (λ _ u. u.subscriptions ≡ s.subscriptions) (pay_shares-subs id now sub amount s)
        λ _ u e. lift-Yields (paid_subscription sub new_balance amount period.start) _ Q u λ paid f.
          let s1 = put_subscription id paid u in
          let w1 =
            IsWellFormed-put u id paid (IsWellFormed-same s u e w)
              (paid_subscription-IsSound sub new_balance amount period.start h n a c f) in
          step-Yields (record_charge env id now key paid amount period next_allowed) _ Q s1
            (λ _ v. SameMoney s1 v)
            (record_charge-SameMoney env id now key paid amount period next_allowed s1)
            λ _ v m.
              step-Yields (publish_cap id now (exhausted_cap paid) paid.lifetime_charged) _ Q v
                (λ _ x. x.subscriptions ≡ v.subscriptions)
                (publish_cap-subs id now (exhausted_cap paid) paid.lifetime_charged v)
                λ _ x g. IsWellFormed-same v x g (IsWellFormed-same s1 v m.subs w1)

  charge_unpaid-IsWellFormed :
      (id now : ℕ) (sub : Subscription) (amount : ℤ) (s : State L)
      → IsSound sub
      → IsWellFormed s
      → Yields (charge_unpaid env id now sub amount s) (λ _ u. IsWellFormed u)
  unfolding charge_unpaid publish
  charge_unpaid-IsWellFormed id now sub amount s h w =
      let Q : ChargeExecutionResult → State L → Type 0 = λ _ u. IsWellFormed u in
      or_fail-Yields (checked_add_u64 sub.last_payment_timestamp sub.interval_seconds)
        Error.overflow _ Q s
        λ due _.
          or_fail-Yields (checked_add_u64 due (get_grace_period s)) Error.overflow _ Q s
            λ expires _.
              let target = underfunded_status env (get_grace_period s) expires now in
              check-Yields
                (when (not (sub.status == target))
                  (lift (validate_status_transition sub.status target)))
                _ Q s (when-lift-same (not (sub.status == target)) _ s)
                λ _.
                  IsWellFormed-put s id (record sub { status = target }) w
                    (IsSound-status sub target h)

  settle-IsWellFormed :
      (id now : ℕ) (key : Option ℕ) (sub : Subscription) (amount : ℤ) (period : Period)
      (next_allowed : ℕ) (r : Result ℤ) (s : State L)
      → safe_sub_balance sub.prepaid_balance amount ≡ r
      → IsSound sub
      → exceeded_cap sub amount ≡ ok none
      → IsWellFormed s
      → Yields (settle env id now key sub amount period next_allowed r s) (λ _ u. IsWellFormed u)
  unfolding settle
  settle-IsWellFormed id now key sub amount period next_allowed (ok new_balance) s e h c w =
      let f = safe_sub_balance-ok sub.prepaid_balance amount e in
      charge_paid-IsWellFormed id now key sub amount period next_allowed new_balance s h f.1 f.0 c w
  settle-IsWellFormed id now key sub amount period next_allowed (err x) s e h c w =
      charge_unpaid-IsWellFormed id now sub amount s h w
  settle-IsWellFormed id now key sub amount period next_allowed trap s e h c w = tt

  cancel_at_cap-IsWellFormed :
      (id now : ℕ) (sub : Subscription) (limit : ℤ) (s : State L)
      → IsSound sub
      → IsWellFormed s
      → Yields (cancel_at_cap id now sub limit s) (λ _ u. IsWellFormed u)
  unfolding cancel_at_cap
  cancel_at_cap-IsWellFormed id now sub limit s h w =
      step-Yields (move_status id sub SubscriptionStatus.cancelled) _ (λ _ u. IsWellFormed u) s
        (λ _ u. IsWellFormed u) (move_status-IsWellFormed id sub SubscriptionStatus.cancelled s h w)
        λ _ u v. published u (lifetime_cap_reached id limit sub.lifetime_charged now) v

  within_cap-IsWellFormed :
      (id now : ℕ) (key : Option ℕ) (sub : Subscription) (amount : ℤ) (period : Period)
      (next_allowed : ℕ) (over : Option ℤ) (s : State L)
      → exceeded_cap sub amount ≡ ok over
      → IsSound sub
      → IsWellFormed s
      → Yields
          (charge_within_cap env id now key sub amount period next_allowed over s)
          (λ _ u. IsWellFormed u)
  unfolding charge_within_cap
  within_cap-IsWellFormed id now key sub amount period next_allowed (some limit) s c h w =
      step-Yields (cancel_at_cap id now sub limit) _ (λ _ u. IsWellFormed u) s
        (λ _ u. IsWellFormed u) (cancel_at_cap-IsWellFormed id now sub limit s h w) λ _ u v. v
  within_cap-IsWellFormed id now key sub amount period next_allowed none s c h w =
      settle-IsWellFormed id now key sub amount period next_allowed
        (safe_sub_balance sub.prepaid_balance amount) s refl h c w

  charge_due-IsWellFormed :
      (id now : ℕ) (key : Option ℕ) (sub : Subscription) (amount : ℤ) (period : Period)
      (s : State L)
      → IsSound sub
      → IsWellFormed s
      → Yields (charge_due env id now key sub amount period s) (λ _ u. IsWellFormed u)
  unfolding charge_due
  charge_due-IsWellFormed id now key sub amount period s h w =
      let Q : ChargeExecutionResult → State L → Type 0 = λ _ u. IsWellFormed u in
      fail_if-Yields (already_charged (get s.billing.charged_period id) period.index) Error.replay _
        Q s
        λ _.
          lift-Yields (next_charge_time sub.last_payment_timestamp sub.interval_seconds) _ Q s
            λ next_allowed _.
              fail_if-Yields (ltb now next_allowed) Error.interval_not_elapsed _ Q s λ _.
                lift-Yields (exceeded_cap sub amount) _ Q s λ over c.
                  within_cap-IsWellFormed id now key sub amount period next_allowed over s c h w

  charge_open-IsWellFormed :
      (id now : ℕ) (key : Option ℕ) (sub : Subscription) (amount : ℤ) (s : State L)
      → IsSound sub
      → IsWellFormed s
      → Yields (charge_open env id now key sub amount s) (λ _ u. IsWellFormed u)
  unfolding charge_open
  charge_open-IsWellFormed id now key sub amount s h w =
      let Q : ChargeExecutionResult → State L → Type 0 = λ _ u. IsWellFormed u in
      fail_if-Yields
        (not (sub.status == SubscriptionStatus.active)
          && not (sub.status == SubscriptionStatus.grace_period))
        Error.not_active _ Q s
        λ _. lift-Yields (period_at sub now) _ Q s λ period _.
          if-Yields (same_key key (get s.billing.idem_key id)) (pure ChargeExecutionResult.charged)
            (charge_due env id now key sub amount period) Q s w
            (charge_due-IsWellFormed id now key sub amount period s h w)

  unless_exhausted-IsWellFormed :
      (id now : ℕ) (key : Option ℕ) (sub : Subscription) (amount : ℤ) (limit : Option ℤ)
      (s : State L)
      → IsSound sub
      → IsWellFormed s
      → Yields (charge_unless_exhausted env id now key sub amount limit s) (λ _ u. IsWellFormed u)
  unfolding charge_unless_exhausted cancel_exhausted
  unless_exhausted-IsWellFormed id now key sub amount (some limit) s h w =
      step-Yields (cancel_exhausted id now sub limit) _ (λ _ u. IsWellFormed u) s
        (λ _ u. IsWellFormed u)
        (when-Yields (not (sub.status == SubscriptionStatus.cancelled)) _ (λ u. IsWellFormed u) s w
          (cancel_at_cap-IsWellFormed id now sub limit s h w))
        λ _ u v. v
  unless_exhausted-IsWellFormed id now key sub amount none s h w =
      charge_open-IsWellFormed id now key sub amount s h w

  charge_one-Yields :
      (id now : ℕ) (key : Option ℕ) (s : State L)
      → IsWellFormed s
      → Yields (charge_one env id now key s) (λ _ u. IsWellFormed u)
  unfolding charge_one get_subscription
  charge_one-Yields id now key s w =
      let Q : ChargeExecutionResult → State L → Type 0 = λ _ u. IsWellFormed u in
      or_fail-Yields (get s.subscriptions.subs id) Error.not_found _ Q s λ sub g.
        fail_if-Yields (get_merchant_paused s sub.merchant) Error.merchant_paused _ Q s λ _.
          check-Yields (expiration_guard id now sub) _ Q s (expiration_guard-same env id now sub s)
            λ _.
              step-Yields (resolve_charge_amount env id sub) _ Q s
                (λ _ v. SameMoney s v × (v.admin_store ≡ s.admin_store) × (v.billing ≡ s.billing))
                (resolve_charge_amount-same env id sub s)
                λ amount v same.
                  unless_exhausted-IsWellFormed id now key sub amount (exhausted_cap sub) v
                    (IsWellFormed-get s id sub g w) (IsWellFormed-same s v same.0.subs w)

-- A charge that returns, whatever its outcome, keeps the invariant: no prepaid balance and no
-- lifetime total is negative, and no lifetime total passes its cap.
pub charge_one-IsWellFormed :
    {L : Type 0} (env : Env L) (id now : ℕ) (key : Option ℕ) (s u : State L)
    {r : ChargeExecutionResult}
    → IsWellFormed s
    → charge_one env id now key s ≡ (ok r, u)
    → IsWellFormed u
charge_one-IsWellFormed env id now key s u w e =
    Yields-ok (charge_one env id now key s) (λ _ v. IsWellFormed v)
      (charge_one-Yields env id now key s w) e
