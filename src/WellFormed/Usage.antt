-- ===== src/WellFormed/Usage.antt =====
-- Charges for use (charge_core.rs) and the invariant of the stored subscriptions.
use stellabill_contracts.Prelude.{
  ℕ, ℤ, pos, ◌≡◌, refl, ◌+ℤ◌, ◌≤ℤ◌, ◌∙◌, arith, Bool, true, false, Option, none, some, String,
  nat_eq, string_eq, pair_eq, get, ltb_ℤ,
}
use stellabill_contracts.Types.Records.{
  Subscription, SubscriptionStatus, UsageChargeResult, UsageLimits, BillingChargeKind,
}
use stellabill_contracts.Types.Events.{usage_charged}
use stellabill_contracts.Host.State.{State, Env}
use stellabill_contracts.Host.Calls.{Result, ok, err, trap, publish}
use stellabill_contracts.Host.Outcomes.{
  Yields, lift-Yields, or_abort-Yields, step-Yields, keep-Yields, Yields-ok,
}
use stellabill_contracts.SafeMath.{safe_add, safe_sub_balance}
use stellabill_contracts.SafeMath.Bounds.{safe_add-ok, safe_sub_balance-ok}
use stellabill_contracts.StateMachine.{validate_status_transition}
use stellabill_contracts.Store.{put_subscription}
use stellabill_contracts.Statements.{append_statement}
use stellabill_contracts.Merchant.{credit_merchant_balance_for_token}
use stellabill_contracts.Merchant.Credit.{Credited, credit-Credited}
use stellabill_contracts.ChargeCore.Guards.{exhausted_cap, cancel_at_cap, move_status}
use stellabill_contracts.ChargeCore.Interval.{publish_cap}
use stellabill_contracts.ChargeCore.Interval.Steps.{append_statement-SameMoney}
use stellabill_contracts.ChargeCore.Usage.{
  Admission, refused, admitted, reject_usage, usage_paid, usage_unpaid, settle_usage,
  usage_within_cap, take_usage, take_admitted, meter_usage, use_reference, charge_usage_one,
  current_period, close_used, mark_reference, set_usage_state,
}
use stellabill_contracts.ChargeCore.Usage.Guarded.{IsChargeable, charge_usage_one-Yields}
use stellabill_contracts.Subscription.OneOff.{surpassed_cap}
use stellabill_contracts.WellFormed.{
  IsSound, IsWellFormed, IsWellFormed-put, IsWellFormed-same, IsWellFormed-get, IsSound-status,
  IsWithinCap,
}
use stellabill_contracts.WellFormed.Funds.{sum_nonneg}
use stellabill_contracts.WellFormed.OneOff.{within_cap}

module _ {L : Type 0} where
  close_used-IsSound :
      (cap : Option ℤ) (balance : ℤ) (sub : Subscription) (s : State L)
      → IsSound sub
      → Yields (close_used cap balance sub s) (λ closed u. IsSound closed × (u ≡ s))
  unfolding close_used
  close_used-IsSound cap balance sub s h = ground arith

  publish_cap-subs :
      (id now : ℕ) (cap : Option ℤ) (charged : ℤ) (s : State L)
      → Yields (publish_cap id now cap charged s) (λ _ u. u.subscriptions ≡ s.subscriptions)
  unfolding publish_cap publish
  publish_cap-subs id now none charged s = refl
  publish_cap-subs id now (some cap) charged s = refl

  move_status-IsWellFormed :
      (id : ℕ) (sub : Subscription) (status : SubscriptionStatus) (s : State L)
      → IsSound sub
      → IsWellFormed s
      → Yields (move_status id sub status s) (λ _ u. IsWellFormed u)
  unfolding move_status
  move_status-IsWellFormed id sub status s h w =
      lift-Yields (validate_status_transition sub.status status) _ (λ _ u. IsWellFormed u) s
        λ _ _.
          IsWellFormed-put s id (record sub { status = status }) w (IsSound-status sub status h)

-- An amount that a charge for use takes, in a subscription that can pay it.
record IsDebit (sub : Subscription) (amount lifetime balance : ℤ) : Type 0 where
  sound : IsSound sub
  balance_nonneg : pos 0 ≤ℤ balance
  lifetime_nonneg : pos 0 ≤ℤ lifetime
  within : IsWithinCap sub.lifetime_cap lifetime

module _ {L : Type 0} (env : Env L) where
  usage_paid-IsWellFormed :
      (id : ℕ) (sub : Subscription) (amount : ℤ) (reference : String) (lifetime balance : ℤ)
      (s : State L)
      → IsDebit sub amount lifetime balance
      → IsWellFormed s
      → Yields (usage_paid env id sub amount reference lifetime balance s) (λ _ u. IsWellFormed u)
  unfolding usage_paid mark_reference publish
  usage_paid-IsWellFormed id sub amount reference lifetime balance s d w =
      let Q : UsageChargeResult → State L → Type 0 = λ _ u. IsWellFormed u in
      let debited : Subscription = record sub {
        prepaid_balance = balance;
        lifetime_charged = lifetime;
      } in
      let sound : IsSound debited = record {
        prepaid_nonneg = d.balance_nonneg;
        charged_nonneg = d.lifetime_nonneg;
        within_cap = d.within;
      } in
      step-Yields
        (credit_merchant_balance_for_token sub.merchant sub.token amount BillingChargeKind.usage) _
        Q s (λ _ u. Credited sub.merchant sub.token amount s u)
        (credit-Credited sub.merchant sub.token amount BillingChargeKind.usage s)
        λ _ u c.
          step-Yields (close_used (exhausted_cap debited) balance debited) _ Q u
            (λ closed v. IsSound closed × (v ≡ u))
            (close_used-IsSound (exhausted_cap debited) balance debited u sound)
            λ closed v k. rw k.1 (
              let stored = put_subscription id closed u in
              let marked = mark_reference id reference stored in
              keep-Yields
                (append_statement env id amount sub.merchant BillingChargeKind.usage env.timestamp
                  env.timestamp)
                _ Q marked (λ x. x.subscriptions ≡ stored.subscriptions)
                (append_statement-SameMoney env id amount sub.merchant BillingChargeKind.usage
                  env.timestamp env.timestamp marked).subs
                λ _ x g.
                  let shown =
                    (publish
                      (usage_charged id sub.merchant amount sub.token env.timestamp reference)
                      x).1 in
                  step-Yields (publish_cap id env.timestamp (exhausted_cap debited) lifetime) _ Q
                    shown (λ _ y. y.subscriptions ≡ shown.subscriptions)
                    (publish_cap-subs id env.timestamp (exhausted_cap debited) lifetime shown)
                    λ _ y f.
                      IsWellFormed-same stored y (f ∙ g)
                        (IsWellFormed-put u id closed (IsWellFormed-same s u c.subs w) k.0))

  usage_unpaid-IsWellFormed :
      (id : ℕ) (sub : Subscription) (amount : ℤ) (s : State L)
      → IsSound sub
      → IsWellFormed s
      → Yields (usage_unpaid env id sub amount s) (λ _ u. IsWellFormed u)
  unfolding usage_unpaid publish
  usage_unpaid-IsWellFormed id sub amount s h w =
      step-Yields (move_status id sub SubscriptionStatus.insufficient_balance) _
        (λ _ u. IsWellFormed u) s (λ _ u. IsWellFormed u)
        (move_status-IsWellFormed id sub SubscriptionStatus.insufficient_balance s h w) λ _ u c. c

  settle_usage-IsWellFormed :
      (id : ℕ) (sub : Subscription) (amount : ℤ) (reference : String) (lifetime : ℤ) (s : State L)
      (r : Result ℤ)
      → IsSound sub
      → lifetime ≡ sub.lifetime_charged +ℤ amount
      → IsWithinCap sub.lifetime_cap lifetime
      → ltb_ℤ sub.prepaid_balance amount ≡ false
      → safe_sub_balance sub.prepaid_balance amount ≡ r
      → IsWellFormed s
      → Yields (settle_usage env id sub amount reference lifetime r s) (λ _ u. IsWellFormed u)
  unfolding settle_usage
  settle_usage-IsWellFormed id sub amount reference lifetime s (ok balance) h total cap f e w =
      let parts = safe_sub_balance-ok sub.prepaid_balance amount e in
      usage_paid-IsWellFormed id sub amount reference lifetime balance s
        (record {
          sound = h;
          balance_nonneg = parts.1;
          lifetime_nonneg =
              sum_nonneg sub.lifetime_charged amount lifetime h.charged_nonneg parts.0 total;
          within = cap;
        })
        w
  settle_usage-IsWellFormed id sub amount reference lifetime s (err _) h total cap f e w =
      usage_unpaid-IsWellFormed id sub amount s h w
  settle_usage-IsWellFormed id sub amount reference lifetime s trap h total cap f e w = tt

  usage_within_cap-IsWellFormed :
      (id : ℕ) (sub : Subscription) (amount : ℤ) (reference : String) (lifetime : ℤ)
      (cap : Option ℤ) (s : State L)
      → IsSound sub
      → lifetime ≡ sub.lifetime_charged +ℤ amount
      → surpassed_cap sub lifetime ≡ cap
      → ltb_ℤ sub.prepaid_balance amount ≡ false
      → IsWellFormed s
      → Yields (usage_within_cap env id sub amount reference lifetime cap s) (λ _ u. IsWellFormed u)
  unfolding usage_within_cap cancel_at_cap publish
  usage_within_cap-IsWellFormed id sub amount reference lifetime none s h total e f w =
      settle_usage-IsWellFormed id sub amount reference lifetime s _ h total
        (within_cap sub.lifetime_cap sub lifetime refl e) f refl w
  usage_within_cap-IsWellFormed id sub amount reference lifetime (some cap) s h total e f w =
      step-Yields (cancel_at_cap id env.timestamp sub cap) _ (λ _ u. IsWellFormed u) s
        (λ _ u. IsWellFormed u)
        (step-Yields (move_status id sub SubscriptionStatus.cancelled) _ (λ _ u. IsWellFormed u) s
          (λ _ u. IsWellFormed u)
          (move_status-IsWellFormed id sub SubscriptionStatus.cancelled s h w) λ _ u c. c)
        λ _ u c. c

  take_usage-IsWellFormed :
      (id : ℕ) (sub : Subscription) (amount : ℤ) (reference : String) (s : State L)
      → IsSound sub
      → IsChargeable sub amount
      → IsWellFormed s
      → Yields (take_usage env id sub amount reference s) (λ _ u. IsWellFormed u)
  unfolding take_usage
  take_usage-IsWellFormed id sub amount reference s h c w =
      lift-Yields (safe_add sub.lifetime_charged amount) _ (λ _ u. IsWellFormed u) s
        λ lifetime e.
          usage_within_cap-IsWellFormed id sub amount reference lifetime
            (surpassed_cap sub lifetime) s h (safe_add-ok sub.lifetime_charged amount e).0 refl
            c.funded w

  take_admitted-IsWellFormed :
      (id : ℕ) (sub : Subscription) (amount : ℤ) (reference : String) (a : Admission) (s : State L)
      → IsSound sub
      → IsChargeable sub amount
      → IsWellFormed s
      → Yields (take_admitted env id sub amount reference a s) (λ _ u. IsWellFormed u)
  unfolding take_admitted reject_usage set_usage_state publish
  take_admitted-IsWellFormed id sub amount reference (refused r) s h c w = w
  take_admitted-IsWellFormed id sub amount reference (admitted state) s h c w =
      take_usage-IsWellFormed id sub amount reference (set_usage_state id state s) h c w

  meter_usage-IsWellFormed :
      (id : ℕ) (sub : Subscription) (amount : ℤ) (reference : String) (limits : Option UsageLimits)
      (s : State L)
      → IsSound sub
      → IsChargeable sub amount
      → IsWellFormed s
      → Yields (meter_usage env id sub amount reference limits s) (λ _ u. IsWellFormed u)
  unfolding meter_usage
  meter_usage-IsWellFormed id sub amount reference none s h c w =
      take_usage-IsWellFormed id sub amount reference s h c w
  meter_usage-IsWellFormed id sub amount reference (some limits) s h c w =
      or_abort-Yields (current_period sub env.timestamp) _ (λ _ u. IsWellFormed u) s
        λ period _. take_admitted-IsWellFormed id sub amount reference _ s h c w

  use_reference-IsWellFormed :
      (id : ℕ) (sub : Subscription) (amount : ℤ) (reference : String) (seen : Bool) (s : State L)
      → IsSound sub
      → IsChargeable sub amount
      → IsWellFormed s
      → Yields (use_reference env id sub amount reference seen s) (λ _ u. IsWellFormed u)
  unfolding use_reference reject_usage publish
  use_reference-IsWellFormed id sub amount reference true s h c w = w
  use_reference-IsWellFormed id sub amount reference false s h c w =
      meter_usage-IsWellFormed id sub amount reference (get s.billing.usage_limits id) s h c w

  -- A charge for use that returns keeps the invariant of the stored subscriptions: it leaves no
  -- negative balance and does not pass the lifetime cap.
  pub charge_usage_one-IsWellFormed :
      (id : ℕ) (amount : ℤ) (reference : String) (s u : State L) (r : UsageChargeResult)
      → IsWellFormed s
      → charge_usage_one env id amount reference s ≡ (ok r, u)
      → IsWellFormed u
  charge_usage_one-IsWellFormed id amount reference s u r w e =
      Yields-ok (charge_usage_one env id amount reference s) (λ _ v. IsWellFormed v)
        (charge_usage_one-Yields env id amount reference s (λ _ v. IsWellFormed v)
          λ sub g c.
            use_reference-IsWellFormed id sub amount reference _ s (IsWellFormed-get s id sub g w) c
              w)
        e
