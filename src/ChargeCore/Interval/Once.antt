-- ===== src/ChargeCore/Interval/Once.antt =====
-- The billing periods that `charge_one` of charge_core.rs records and checks.
use stellabill_contracts.Prelude.{
  ℕ, ◌≤◌, ℤ, pos, ◌≡◌, ◌≢◌, refl, ◌-◌, ◌∙◌, ap, subst, arith, Option, none, some, nat_eq, get,
  get-set_self, false, ltb, not, ◌==◌, ◌&&◌,
}
use stellabill_contracts.Types.Errors.{Error}
use stellabill_contracts.Types.Records.{
  Subscription, SubscriptionStatus, ChargeExecutionResult, status_eq, BillingChargeKind,
  BillingPeriodSnapshot, snapshot_flag_closed, snapshot_flag_interval_charged,
}
use stellabill_contracts.Types.Events.{subscription_charged}
use Prim.Native.Nat.{bit_or}
use stellabill_contracts.Statements.{append_statement}
use stellabill_contracts.PeriodSnapshots.{write_period_snapshot}
use stellabill_contracts.Host.State.{State, Env, SubscriptionStore, BillingStore}
use stellabill_contracts.Host.Calls.{Result, ok, err, trap, ◌>>◌, publish, modify}
use stellabill_contracts.Host.Outcomes.{
  Yields, lift-Yields, fail_if-Yields, check-Yields, weaken, Yields-ok, keep-Yields, step-Yields,
}
use stellabill_contracts.SafeMath.{safe_sub_balance}
use stellabill_contracts.Store.{get_subscription, put_subscription}
use stellabill_contracts.Books.{SameMoney}
use stellabill_contracts.Merchant.{get_merchant_paused}
use stellabill_contracts.Oracle.{resolve_charge_amount}
use stellabill_contracts.ChargeCore.Guards.{
  expiration_guard, cancel_at_cap, cancel_exhausted, exhausted_cap, exceeded_cap,
}
use stellabill_contracts.ChargeCore.Period.{
  Period, paid_subscription, next_charge_time, period_at, period_index_at,
}
use stellabill_contracts.ChargeCore.Interval.{
  pay_shares, record_charge, publish_cap, charge_paid, charge_unpaid, settle, charge_within_cap,
  charge_due, charge_open, charge_unless_exhausted, charge_one, already_charged, same_key,
  set_charged_period, set_idem_key,
}
use stellabill_contracts.ChargeCore.Interval.Steps.{
  append_statement-SameMoney, write_period_snapshot-SameMoney, resolve_charge_amount-same,
  expiration_guard-same,
}

-- The snapshot that a charge writes.
abbrev interval_snapshot : ℕ → ℕ → ℕ → Subscription → ℕ → ℤ → BillingPeriodSnapshot
interval_snapshot id index next_allowed sub now amount = record {
  subscription_id = id;
  period_index = index;
  period_start = next_allowed - sub.interval_seconds;
  period_end = now;
  total_charged = amount;
  total_usage_units = pos 0;
  status_flags = bit_or snapshot_flag_closed snapshot_flag_interval_charged;
  finalized_at = now;
}

module _ {L : Type 0} (env : Env L) where
  -- The period is recorded, and the subscription's schedule is the old one.
  pub record Recorded (id index : ℕ) (sub : Subscription) (u : State L) : Type 0 where
    pub period : get u.billing.charged_period id ≡ some index
    pub paid : Subscription
    pub stored : get u.subscriptions.subs id ≡ some paid
    pub start : paid.start_time ≡ sub.start_time
    pub interval : paid.interval_seconds ≡ sub.interval_seconds

  abbrev Charged : ℕ → ℕ → Subscription → ChargeExecutionResult → State L → Type 0
  Charged id index sub r u = r ≡ ChargeExecutionResult.charged → Recorded id index sub u

  period_at_index :
      (sub : Subscription) (now index : ℕ) (period : Period)
      → period_index_at sub now ≡ ok index
      → period_at sub now ≡ ok period
      → period.index ≡ index
  unfolding period_at
  period_at_index sub now index period p e = ground arith

  recorded :
      (id now : ℕ) (key : Option ℕ) (sub : Subscription) (amount : ℤ) (period : Period)
      (s v : State L)
      → v.subscriptions ≡ s.subscriptions
      → Yields
          ((modify (set_charged_period id period.index)
              >> (modify (set_idem_key id key)
                  >> publish (
                      subscription_charged id sub.subscriber sub.merchant sub.token amount
                        sub.lifetime_charged now period.start period.finish)))
            v)
          (λ _ u.
            (get u.billing.charged_period id ≡ some period.index)
            × (u.subscriptions ≡ s.subscriptions))
  unfolding publish set_charged_period set_idem_key
  recorded id now none sub amount period s v e =
      (get-set_self v.billing.charged_period id period.index, e)
  recorded id now (some k) sub amount period s v e =
      (get-set_self v.billing.charged_period id period.index, e)

  record_charge-period :
      (id now : ℕ) (key : Option ℕ) (sub : Subscription) (amount : ℤ) (period : Period)
      (next_allowed : ℕ) (s : State L)
      → Yields (record_charge env id now key sub amount period next_allowed s) (λ _ u.
        (get u.billing.charged_period id ≡ some period.index) × (u.subscriptions ≡ s.subscriptions))
  unfolding record_charge
  record_charge-period id now key sub amount period next_allowed s =
      let Q : Unit {0} → State L → Type 0 = λ _ u.
        (get u.billing.charged_period id ≡ some period.index)
        × (u.subscriptions ≡ s.subscriptions) in
      let snapshot = interval_snapshot id period.index next_allowed sub now amount in
      keep-Yields
        (append_statement env id amount sub.merchant BillingChargeKind.interval
          (next_allowed - sub.interval_seconds) now)
        _ Q s (λ u. u.subscriptions ≡ s.subscriptions)
        (append_statement-SameMoney env id amount sub.merchant BillingChargeKind.interval
          (next_allowed - sub.interval_seconds) now s).subs
        λ _ u e.
          keep-Yields (write_period_snapshot snapshot) _ Q u
            (λ v. v.subscriptions ≡ u.subscriptions)
            (write_period_snapshot-SameMoney env snapshot u).subs
            λ _ v f. recorded id now key sub amount period s v (f ∙ e)

  paid_subscription-schedule :
      (sub : Subscription) (new_balance amount : ℤ) (start : ℕ) {new : Subscription}
      → paid_subscription sub new_balance amount start ≡ ok new
      → (new.start_time ≡ sub.start_time) × (new.interval_seconds ≡ sub.interval_seconds)
  unfolding paid_subscription
  paid_subscription-schedule sub new_balance amount start h = ground arith

  publish_cap-same :
      (id now : ℕ) (cap : Option ℤ) (charged : ℤ) (s : State L)
      → Yields
          (publish_cap id now cap charged s)
          (λ _ u. (u.subscriptions ≡ s.subscriptions) × (u.billing ≡ s.billing))
  unfolding publish_cap
  publish_cap-same id now cap charged s = ground arith

  stored_after :
      (s u : State L) (id : ℕ) (new : Subscription)
      → u.subscriptions ≡ (put_subscription id new s).subscriptions
      → get u.subscriptions.subs id ≡ some new
  unfolding put_subscription
  stored_after s u id new e =
      ap (λ (x : SubscriptionStore). get x.subs id) e ∙ get-set_self s.subscriptions.subs id new

  charge_unpaid-result :
      (id now : ℕ) (sub : Subscription) (amount : ℤ) (s : State L)
      → Yields (charge_unpaid env id now sub amount s) (λ r _. r ≢ ChargeExecutionResult.charged)
  unfolding charge_unpaid
  charge_unpaid-result id now sub amount s = ground arith

  charge_paid-Charged :
      (id now : ℕ) (key : Option ℕ) (sub : Subscription) (amount : ℤ) (period : Period)
      (next_allowed : ℕ) (new_balance : ℤ) (s : State L)
      → Yields
          (charge_paid env id now key sub amount period next_allowed new_balance s)
          (Charged id period.index sub)
  unfolding charge_paid
  charge_paid-Charged id now key sub amount period next_allowed new_balance s =
      let Q : ChargeExecutionResult → State L → Type 0 = Charged id period.index sub in
      keep-Yields (pay_shares env id now sub amount) _ Q s (λ _. Unit {0}) tt
        (λ _ u _.
          lift-Yields (paid_subscription sub new_balance amount period.start) _ Q u λ paid e.
            let f = paid_subscription-schedule sub new_balance amount period.start e in
            let s1 = put_subscription id paid u in
            step-Yields (record_charge env id now key paid amount period next_allowed) _ Q s1
              (λ _ v.
                (get v.billing.charged_period id ≡ some period.index)
                × (v.subscriptions ≡ s1.subscriptions))
              (record_charge-period id now key paid amount period next_allowed s1)
              λ _ v r.
                step-Yields (publish_cap id now (exhausted_cap paid) paid.lifetime_charged) _ Q v
                  (λ _ w. (w.subscriptions ≡ v.subscriptions) × (w.billing ≡ v.billing))
                  (publish_cap-same id now (exhausted_cap paid) paid.lifetime_charged v)
                  λ _ w q _. record {
                    period = ap (λ (b : BillingStore). get b.charged_period id) q.1 ∙ r.0;
                    paid = paid;
                    stored = stored_after u w id paid (q.0 ∙ r.1);
                    start = f.0;
                    interval = f.1;
                  })

  settle-Charged :
      (id now : ℕ) (key : Option ℕ) (sub : Subscription) (amount : ℤ) (period : Period)
      (next_allowed : ℕ) (r : Result ℤ) (s : State L)
      → Yields
          (settle env id now key sub amount period next_allowed r s)
          (Charged id period.index sub)
  unfolding settle
  settle-Charged id now key sub amount period next_allowed (ok b) s =
      charge_paid-Charged id now key sub amount period next_allowed b s
  settle-Charged id now key sub amount period next_allowed (err e) s =
      weaken (charge_unpaid env id now sub amount s) (λ r _. r ≢ ChargeExecutionResult.charged)
        (Charged id period.index sub) (charge_unpaid-result id now sub amount s)
        λ r u h f. absurd (h f)
  settle-Charged id now key sub amount period next_allowed trap s = tt

  charge_within_cap-Charged :
      (id now : ℕ) (key : Option ℕ) (sub : Subscription) (amount : ℤ) (period : Period)
      (next_allowed : ℕ) (over : Option ℤ) (s : State L)
      → Yields
          (charge_within_cap env id now key sub amount period next_allowed over s)
          (Charged id period.index sub)
  unfolding charge_within_cap
  charge_within_cap-Charged id now key sub amount period next_allowed (some limit) s =
      keep-Yields (cancel_at_cap id now sub limit) _ (Charged id period.index sub) s (λ _. Unit {0})
        tt λ _ u _ e. absurd cc
  charge_within_cap-Charged id now key sub amount period next_allowed none s =
      settle-Charged id now key sub amount period next_allowed
        (safe_sub_balance sub.prepaid_balance amount) s

  charge_open-Charged :
      (id now : ℕ) (sub : Subscription) (amount : ℤ) (index : ℕ) (s : State L)
      → period_index_at sub now ≡ ok index
      → Yields (charge_open env id now none sub amount s) (Charged id index sub)
  unfolding charge_open same_key charge_due
  charge_open-Charged id now sub amount index s p =
      let Q : ChargeExecutionResult → State L → Type 0 = Charged id index sub in
      fail_if-Yields
        (not (sub.status == SubscriptionStatus.active)
          && not (sub.status == SubscriptionStatus.grace_period))
        Error.not_active _ Q s
        λ _. lift-Yields (period_at sub now) _ Q s λ period e.
          fail_if-Yields (already_charged (get s.billing.charged_period id) period.index)
            Error.replay _ Q s
            λ _.
              lift-Yields (next_charge_time sub.last_payment_timestamp sub.interval_seconds) _ Q s
                λ next_allowed _.
                  fail_if-Yields (ltb now next_allowed) Error.interval_not_elapsed _ Q s λ _.
                    lift-Yields (exceeded_cap sub amount) _ Q s λ over _.
                      rw (← period_at_index sub now index period p e) (
                        charge_within_cap-Charged id now none sub amount period next_allowed over s)

  unless_exhausted-Charged :
      (id now : ℕ) (sub : Subscription) (amount : ℤ) (index : ℕ) (limit : Option ℤ) (s : State L)
      → period_index_at sub now ≡ ok index
      → Yields (charge_unless_exhausted env id now none sub amount limit s) (Charged id index sub)
  unfolding charge_unless_exhausted
  unless_exhausted-Charged id now sub amount index (some limit) s p =
      keep-Yields (cancel_exhausted id now sub limit) _ (Charged id index sub) s (λ _. Unit {0}) tt
        λ _ u _ e. absurd cc
  unless_exhausted-Charged id now sub amount index none s p =
      charge_open-Charged id now sub amount index s p

  charge_one-Charged :
      (id now : ℕ) (s : State L) (sub : Subscription) (index : ℕ)
      → get s.subscriptions.subs id ≡ some sub
      → period_index_at sub now ≡ ok index
      → Yields (charge_one env id now none s) (Charged id index sub)
  unfolding charge_one charge_unless_exhausted get_subscription
  charge_one-Charged id now s sub index h p =
      let Q : ChargeExecutionResult → State L → Type 0 = Charged id index sub in
      rw h (
        fail_if-Yields (get_merchant_paused s sub.merchant) Error.merchant_paused _ Q s λ _.
          check-Yields (expiration_guard id now sub) _ Q s (expiration_guard-same env id now sub s)
            λ _.
              keep-Yields (resolve_charge_amount env id sub) _ Q s (λ _. Unit {0}) tt
                λ amount v _.
                  unless_exhausted-Charged id now sub amount index (exhausted_cap sub) v p)

  abbrev Declined : ChargeExecutionResult → State L → Type 0
  Declined r _ = r ≢ ChargeExecutionResult.charged

  already_charged-true :
      (stored index : ℕ) → index ≤ stored → already_charged (some stored) index ≢ false
  unfolding already_charged
  already_charged-true stored index h e = ground arith

  charge_open-Declined :
      (id now : ℕ) (sub : Subscription) (amount : ℤ) (index stored : ℕ) (s : State L)
      → period_index_at sub now ≡ ok index
      → get s.billing.charged_period id ≡ some stored
      → index ≤ stored
      → Yields (charge_open env id now none sub amount s) Declined
  unfolding charge_open same_key charge_due
  charge_open-Declined id now sub amount index stored s p g l =
      fail_if-Yields
        (not (sub.status == SubscriptionStatus.active)
          && not (sub.status == SubscriptionStatus.grace_period))
        Error.not_active _ Declined s
        λ _. lift-Yields (period_at sub now) _ Declined s λ period e.
          fail_if-Yields (already_charged (get s.billing.charged_period id) period.index)
            Error.replay _ Declined s
            λ f. absurd (
              already_charged-true stored period.index
                (rw (period_at_index sub now index period p e) l)
                (subst (λ (o : Option ℕ). already_charged o period.index ≡ false) g f))

  unless_exhausted-Declined :
      (id now : ℕ) (sub : Subscription) (amount : ℤ) (index stored : ℕ) (limit : Option ℤ)
      (s : State L)
      → period_index_at sub now ≡ ok index
      → get s.billing.charged_period id ≡ some stored
      → index ≤ stored
      → Yields (charge_unless_exhausted env id now none sub amount limit s) Declined
  unfolding charge_unless_exhausted
  unless_exhausted-Declined id now sub amount index stored (some limit) s p g l =
      keep-Yields (cancel_exhausted id now sub limit) _ Declined s (λ _. Unit {0}) tt
        λ _ u _ e. absurd cc
  unless_exhausted-Declined id now sub amount index stored none s p g l =
      charge_open-Declined id now sub amount index stored s p g l

  charge_one-Declined :
      (id now : ℕ) (s : State L) (sub : Subscription) (index stored : ℕ)
      → get s.subscriptions.subs id ≡ some sub
      → period_index_at sub now ≡ ok index
      → get s.billing.charged_period id ≡ some stored
      → index ≤ stored
      → Yields (charge_one env id now none s) Declined
  unfolding charge_one get_subscription
  charge_one-Declined id now s sub index stored h p g l = rw h (
      fail_if-Yields (get_merchant_paused s sub.merchant) Error.merchant_paused _ Declined s λ _.
        check-Yields (expiration_guard id now sub) _ Declined s
          (expiration_guard-same env id now sub s)
          λ _.
            step-Yields (resolve_charge_amount env id sub) _ Declined s
              (λ _ v. SameMoney s v × (v.admin_store ≡ s.admin_store) × (v.billing ≡ s.billing))
              (resolve_charge_amount-same env id sub s)
              λ amount v same.
                unless_exhausted-Declined id now sub amount index stored (exhausted_cap sub) v p
                  (ap (λ (b : BillingStore). get b.charged_period id) same.2 ∙ g) l)

  same_index :
      (sub paid : Subscription) (now : ℕ)
      → paid.start_time ≡ sub.start_time
      → paid.interval_seconds ≡ sub.interval_seconds
      → period_index_at paid now ≡ period_index_at sub now
  unfolding period_index_at
  same_index sub paid now e f = ground arith

-- What happened in between left the recorded period of the subscription and its schedule alone.
pub record IsOnSchedule {L : Type 0} (id : ℕ) (u t : State L) : Type 0 where
  pub period : get t.billing.charged_period id ≡ get u.billing.charged_period id
  pub schedule :
      (old : Subscription)
      → get u.subscriptions.subs id ≡ some old
      → (new : Subscription) × (get t.subscriptions.subs id ≡ some new)
        × (new.start_time ≡ old.start_time)
        × (new.interval_seconds ≡ old.interval_seconds)

-- A billing period is charged once without an idempotency key: after a charge without a key that
-- reports `Charged`, a later charge of the same subscription without a key, as `batch_charge` makes
-- them, at any time that falls in the same period or an earlier one, does not report `Charged`
-- again. In between anything may happen that leaves the recorded period, the start and the interval
-- of this subscription alone.
pub charged_once :
    {L : Type 0} (env other : Env L) (id now later index again : ℕ) (s u t v : State L)
    (sub : Subscription)
    → get s.subscriptions.subs id ≡ some sub
    → period_index_at sub now ≡ ok index
    → period_index_at sub later ≡ ok again
    → again ≤ index
    → charge_one env id now none s ≡ (ok ChargeExecutionResult.charged, u)
    → IsOnSchedule id u t
    → charge_one other id later none t ≢ (ok ChargeExecutionResult.charged, v)
charged_once env other id now later index again s u t v sub h p q l e between f =
    let c =
      Yields-ok (charge_one env id now none s) (Charged env id index sub)
        (charge_one-Charged env id now s sub index h p) e refl in
    let k = between.schedule c.paid c.stored in
    Yields-ok (charge_one other id later none t) (Declined other)
      (charge_one-Declined other id later t k.0 again index k.1
        (same_index other sub k.0 later (k.2 ∙ c.start) (k.3 ∙ c.interval) ∙ q)
        (between.period ∙ c.period) l)
      f refl
