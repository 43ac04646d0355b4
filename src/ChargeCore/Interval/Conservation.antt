-- ===== src/ChargeCore/Interval/Conservation.antt =====
-- The money that `charge_one` of charge_core.rs moves.
use stellabill_contracts.Prelude.{
  ℕ, ◌≤◌, ℤ, pos, negsuc, ◌≡◌, refl, ◌≤ℤ◌, ◌+ℤ◌, ◌∙◌, ap, arith, int_laws, parts_of_eq, +ℤ_parts,
  ◌&&◌, Option, none, some, nat_eq, get, not, ◌==◌, checked_add_u64, ltb,
}
use stellabill_contracts.Types.Records.{
  Subscription, SubscriptionStatus, ChargeExecutionResult, status_eq,
}
use stellabill_contracts.Host.State.{State, Env, SubscriptionStore}
use stellabill_contracts.Host.Calls.{Result, ok, err, trap, when, lift, pure}
use stellabill_contracts.Types.Errors.{Error}
use stellabill_contracts.StateMachine.{validate_status_transition}
use stellabill_contracts.Host.Outcomes.{
  Yields, bind-Yields, lift-Yields, fail_if-Yields, or_fail-Yields, if-Yields, weaken, Yields-ok,
}
use stellabill_contracts.Store.{put_subscription}
use stellabill_contracts.SafeMath.{safe_sub_balance}
use stellabill_contracts.SafeMath.Bounds.{safe_sub_balance-ok}
use stellabill_contracts.Books.{SameMoney, owed-SameMoney, SameMoney-refl}
use stellabill_contracts.Admin.{get_protocol_fee_bps, get_grace_period}
use stellabill_contracts.Merchant.{get_merchant_paused}
use stellabill_contracts.Oracle.{resolve_charge_amount}
use stellabill_contracts.ChargeCore.Guards.{
  expiration_guard, cancel_at_cap, cancel_exhausted, exhausted_cap, exceeded_cap,
}
use stellabill_contracts.ChargeCore.Period.{Period, paid_subscription, next_charge_time, period_at}
use stellabill_contracts.ChargeCore.Fees.{IsModest}
use stellabill_contracts.ChargeCore.Interval.{
  pay_shares, record_charge, publish_cap, charge_paid, charge_unpaid, settle, underfunded_status,
  charge_within_cap, charge_due, charge_open, charge_unless_exhausted, charge_one, already_charged,
  same_key,
}
use stellabill_contracts.ChargeCore.Interval.Steps.{
  pay_shares-Paid, record_charge-SameMoney, resolve_charge_amount-same, expiration_guard-same,
}
use stellabill_contracts.ChargeCore.Interval.Conserved.{
  Conserved, Conserved-refl, when-lift-same, Conserved-SameMoney, put-Conserved, settled-Conserved,
  Conserved-publish, cancel_at_cap-Conserved, cancel_exhausted-Conserved,
}

IsModest-part :
    (rest amount whole : ℤ)
    → pos 0 ≤ℤ rest
    → rest +ℤ amount ≡ whole
    → IsModest whole
    → IsModest amount
IsModest-part rest (pos a) whole h e m = omega (int_laws, parts_of_eq e, +ℤ_parts rest (pos a))
IsModest-part rest (negsuc a) whole h e m = omega arith

module _ {L : Type 0} (env : Env L) where
  paid_subscription-ok :
      (sub : Subscription) (new_balance amount : ℤ) (start : ℕ) {new : Subscription}
      → paid_subscription sub new_balance amount start ≡ ok new
      → (new.token ≡ sub.token) × (new.prepaid_balance ≡ new_balance)
  unfolding paid_subscription
  paid_subscription-ok sub new_balance amount start h = ground arith

  publish_cap-SameMoney :
      (id now : ℕ) (cap : Option ℤ) (charged : ℤ) (s : State L)
      → Yields (publish_cap id now cap charged s) (λ _ u. SameMoney s u)
  unfolding publish_cap
  publish_cap-SameMoney id now none charged s = SameMoney-refl s
  publish_cap-SameMoney id now (some cap) charged s = ground arith

  charge_paid-Conserved :
      (id now : ℕ) (key : Option ℕ) (sub : Subscription) (amount : ℤ) (period : Period)
      (next_allowed : ℕ) (new_balance : ℤ) (s : State L)
      → get s.subscriptions.subs id ≡ some sub
      → pos 0 ≤ℤ amount
      → new_balance +ℤ amount ≡ sub.prepaid_balance
      → IsModest amount
      → get_protocol_fee_bps s ≤ 10_000
      → Yields
          (charge_paid env id now key sub amount period next_allowed new_balance s)
          (λ _ u. Conserved s u)
  unfolding charge_paid
  charge_paid-Conserved id now key sub amount period next_allowed new_balance s h n d m b =
      bind-Yields (pay_shares env id now sub amount) _ (λ _ u. Conserved s u) s
        (weaken _ _ _ (pay_shares-Paid env id now sub amount s n m b) λ _ u p.
          lift-Yields (paid_subscription sub new_balance amount period.start) _
            (λ _ v. Conserved s v) u
            λ paid e.
              let f = paid_subscription-ok sub new_balance amount period.start e in
              let c = settled-Conserved s u id sub paid amount h f.0 (rw f.1 d) p in
              bind-Yields (record_charge env id now key paid amount period next_allowed) _
                (λ _ v. Conserved s v) (put_subscription id paid u)
                (weaken _ _ _
                  (record_charge-SameMoney env id now key paid amount period next_allowed
                    (put_subscription id paid u))
                  λ _ v r.
                    bind-Yields (publish_cap id now (exhausted_cap paid) paid.lifetime_charged) _
                      (λ _ w. Conserved s w) v
                      (weaken _ _ _
                        (publish_cap-SameMoney id now (exhausted_cap paid) paid.lifetime_charged v)
                        λ _ w q. Conserved-SameMoney s v w (Conserved-SameMoney s _ v c r) q)))

  charge_unpaid-Conserved :
      (id now : ℕ) (sub : Subscription) (amount : ℤ) (s : State L)
      → get s.subscriptions.subs id ≡ some sub
      → Yields (charge_unpaid env id now sub amount s) (λ _ u. Conserved s u)
  unfolding charge_unpaid
  charge_unpaid-Conserved id now sub amount s h =
      or_fail-Yields (checked_add_u64 sub.last_payment_timestamp sub.interval_seconds) _ _
        (λ _ u. Conserved s u) s
        λ due _.
          or_fail-Yields (checked_add_u64 due (get_grace_period s)) _ _ (λ _ u. Conserved s u) s
            λ expires _.
              let target = underfunded_status env (get_grace_period s) expires now in
              bind-Yields
                (when (not (sub.status == target))
                  (lift (validate_status_transition sub.status target)))
                _ (λ _ u. Conserved s u) s
                (weaken _ (λ _ u. u ≡ s) _ (when-lift-same (not (sub.status == target)) _ s)
                  λ _ u e. rw e (
                    Conserved-publish s _ _
                      (put-Conserved s id sub (record sub { status = target }) h refl refl)))

  settle-Conserved :
      (id now : ℕ) (key : Option ℕ) (sub : Subscription) (amount : ℤ) (period : Period)
      (next_allowed : ℕ) (r : Result ℤ) (s : State L)
      → safe_sub_balance sub.prepaid_balance amount ≡ r
      → get s.subscriptions.subs id ≡ some sub
      → IsModest sub.prepaid_balance
      → get_protocol_fee_bps s ≤ 10_000
      → Yields (settle env id now key sub amount period next_allowed r s) (λ _ u. Conserved s u)
  unfolding settle
  settle-Conserved id now key sub amount period next_allowed (ok new_balance) s e h m b =
      let f = safe_sub_balance-ok sub.prepaid_balance amount e in
      charge_paid-Conserved id now key sub amount period next_allowed new_balance s h f.0 f.2
        (IsModest-part new_balance amount sub.prepaid_balance f.1 f.2 m) b
  settle-Conserved id now key sub amount period next_allowed (err x) s e h m b =
      charge_unpaid-Conserved id now sub amount s h
  settle-Conserved id now key sub amount period next_allowed trap s e h m b = tt

  charge_within_cap-Conserved :
      (id now : ℕ) (key : Option ℕ) (sub : Subscription) (amount : ℤ) (period : Period)
      (next_allowed : ℕ) (over : Option ℤ) (s : State L)
      → get s.subscriptions.subs id ≡ some sub
      → IsModest sub.prepaid_balance
      → get_protocol_fee_bps s ≤ 10_000
      → Yields
          (charge_within_cap env id now key sub amount period next_allowed over s)
          (λ _ u. Conserved s u)
  unfolding charge_within_cap
  charge_within_cap-Conserved id now key sub amount period next_allowed (some limit) s h m b =
      bind-Yields (cancel_at_cap id now sub limit) _ (λ _ u. Conserved s u) s
        (cancel_at_cap-Conserved id now sub limit s h)
  charge_within_cap-Conserved id now key sub amount period next_allowed none s h m b =
      settle-Conserved id now key sub amount period next_allowed _ s refl h m b

  charge_due-Conserved :
      (id now : ℕ) (key : Option ℕ) (sub : Subscription) (amount : ℤ) (period : Period)
      (s : State L)
      → get s.subscriptions.subs id ≡ some sub
      → IsModest sub.prepaid_balance
      → get_protocol_fee_bps s ≤ 10_000
      → Yields (charge_due env id now key sub amount period s) (λ _ u. Conserved s u)
  unfolding charge_due
  charge_due-Conserved id now key sub amount period s h m b =
      fail_if-Yields (already_charged (get s.billing.charged_period id) period.index) _ _
        (λ _ u. Conserved s u) s
        λ _.
          lift-Yields (next_charge_time sub.last_payment_timestamp sub.interval_seconds) _
            (λ _ u. Conserved s u) s
            λ next_allowed _.
              fail_if-Yields (ltb now next_allowed) _ _ (λ _ u. Conserved s u) s
                λ _.
                  lift-Yields (exceeded_cap sub amount) _ (λ _ u. Conserved s u) s
                    λ over _.
                      charge_within_cap-Conserved id now key sub amount period next_allowed over s h
                        m b

  charge_open-Conserved :
      (id now : ℕ) (key : Option ℕ) (sub : Subscription) (amount : ℤ) (s : State L)
      → get s.subscriptions.subs id ≡ some sub
      → IsModest sub.prepaid_balance
      → get_protocol_fee_bps s ≤ 10_000
      → Yields (charge_open env id now key sub amount s) (λ _ u. Conserved s u)
  unfolding charge_open
  charge_open-Conserved id now key sub amount s h m b =
      fail_if-Yields
        (not (sub.status == SubscriptionStatus.active)
          && not (sub.status == SubscriptionStatus.grace_period))
        Error.not_active _ (λ _ u. Conserved s u) s
        λ _.
          lift-Yields (period_at sub now) _ (λ _ u. Conserved s u) s
            λ period _.
              if-Yields (same_key key (get s.billing.idem_key id))
                (pure ChargeExecutionResult.charged) (charge_due env id now key sub amount period)
                (λ _ u. Conserved s u) s (Conserved-refl s)
                (charge_due-Conserved id now key sub amount period s h m b)

  unless_exhausted-Conserved :
      (id now : ℕ) (key : Option ℕ) (sub : Subscription) (amount : ℤ) (limit : Option ℤ)
      (s : State L)
      → get s.subscriptions.subs id ≡ some sub
      → IsModest sub.prepaid_balance
      → get_protocol_fee_bps s ≤ 10_000
      → Yields (charge_unless_exhausted env id now key sub amount limit s) (λ _ u. Conserved s u)
  unfolding charge_unless_exhausted
  unless_exhausted-Conserved id now key sub amount (some limit) s h m b =
      bind-Yields (cancel_exhausted id now sub limit) _ (λ _ u. Conserved s u) s
        (cancel_exhausted-Conserved id now sub limit s h)
  unless_exhausted-Conserved id now key sub amount none s h m b =
      charge_open-Conserved id now key sub amount s h m b

  Conserved-after : (s u v : State L) → SameMoney s u → Conserved u v → Conserved s v
  Conserved-after s u v m c = record {
    owing = λ t. c.owing t ∙ owed-SameMoney s u t m;
    accounted = c.accounted ∙ m.accounted;
    ledger = c.ledger ∙ m.ledger;
  }

  fee_bps-same :
      (s u : State L)
      → u.admin_store ≡ s.admin_store
      → get_protocol_fee_bps s ≤ 10_000
      → get_protocol_fee_bps u ≤ 10_000
  unfolding get_protocol_fee_bps
  fee_bps-same s u e h = ground arith

  charge_one-Yields :
      (id now : ℕ) (key : Option ℕ) (s : State L) (sub : Subscription)
      → get s.subscriptions.subs id ≡ some sub
      → IsModest sub.prepaid_balance
      → get_protocol_fee_bps s ≤ 10_000
      → Yields (charge_one env id now key s) (λ _ u. Conserved s u)
  unfolding charge_one
  charge_one-Yields id now key s sub h m b = rw h (
      fail_if-Yields (get_merchant_paused s sub.merchant) Error.merchant_paused _
        (λ _ u. Conserved s u) s
        λ _.
          bind-Yields (expiration_guard id now sub) _ (λ _ u. Conserved s u) s
            (weaken _ (λ _ u. u ≡ s) _ (expiration_guard-same env id now sub s)
              λ _ u e. rw e (
                bind-Yields (resolve_charge_amount env id sub) _ (λ _ u. Conserved s u) s
                  (weaken _
                    (λ _ v.
                      SameMoney s v × (v.admin_store ≡ s.admin_store) × (v.billing ≡ s.billing))
                    _ (resolve_charge_amount-same env id sub s)
                    λ amount v same.
                      weaken _ _ _
                        (unless_exhausted-Conserved id now key sub amount (exhausted_cap sub) v
                          (ap (λ (x : SubscriptionStore). get x.subs id) same.0.subs ∙ h) m
                          (fee_bps-same s v same.1 b))
                        λ _ w c. Conserved-after s v w same.0 c))))

-- A charge that returns, whatever its outcome (paid, underfunded or stopped by the lifetime cap),
-- leaves what the vault owes in every token as it was: what the subscription loses, the merchant
-- and the treasury gain. It touches neither the accounted totals nor the token contracts. The
-- subscription's balance times 10,000 must fit in an `i128`, and the fee be at most 10,000 basis
-- points, which `set_protocol_fee` checks.
pub charge_one-Conserved :
    {L : Type 0} (env : Env L) (id now : ℕ) (key : Option ℕ) (s u : State L) (sub : Subscription)
    {r : ChargeExecutionResult}
    → get s.subscriptions.subs id ≡ some sub
    → IsModest sub.prepaid_balance
    → get_protocol_fee_bps s ≤ 10_000
    → charge_one env id now key s ≡ (ok r, u)
    → Conserved s u
charge_one-Conserved env id now key s u sub h m b e =
    Yields-ok (charge_one env id now key s) (λ _ v. Conserved s v)
      (charge_one-Yields env id now key s sub h m b) e
