-- ===== src/Solvency/Usage.antt =====
-- Charges for use (charge_core.rs) and the accounted total.
use stellabill_contracts.Prelude.{
  ℕ, ℤ, ◌≡◌, refl, ◌+ℤ◌, arith, Bool, true, false, Option, none, some, String, nat_eq, string_eq,
  pair_eq, get,
}
use stellabill_contracts.Types.Records.{
  Subscription, SubscriptionStatus, UsageChargeResult, UsageLimits, UsageState, BillingChargeKind,
}
use stellabill_contracts.Types.Events.{usage_charged}
use stellabill_contracts.Host.State.{State, Env}
use stellabill_contracts.Host.Calls.{Result, ok, err, trap, publish}
use stellabill_contracts.Host.Outcomes.{
  Yields, lift-Yields, or_abort-Yields, step-Yields, keep-Yields, weaken, Yields-ok,
}
use stellabill_contracts.SafeMath.{safe_add, safe_sub_balance}
use stellabill_contracts.SafeMath.Bounds.{safe_sub_balance-ok}
use stellabill_contracts.Store.{put_subscription}
use stellabill_contracts.Books.{SameMoney, owed, prepaid_owed, merchants_owed}
use stellabill_contracts.Statements.{append_statement}
use stellabill_contracts.Merchant.{credit_merchant_balance_for_token}
use stellabill_contracts.Merchant.Credit.{Credited, credit-Credited}
use stellabill_contracts.ChargeCore.Guards.{exhausted_cap, cancel_at_cap, move_status}
use stellabill_contracts.ChargeCore.Interval.{publish_cap}
use stellabill_contracts.ChargeCore.Interval.Steps.{Credited-Paid, append_statement-SameMoney}
use stellabill_contracts.ChargeCore.Usage.{
  Admission, refused, admitted, reject_usage, usage_paid, usage_unpaid, settle_usage,
  usage_within_cap, take_usage, take_admitted, meter_usage, use_reference, charge_usage_one,
  current_period, close_used, mark_reference, set_usage_state,
}
use stellabill_contracts.ChargeCore.Usage.Guarded.{charge_usage_one-Yields}
use stellabill_contracts.Subscription.OneOff.{surpassed_cap}
use stellabill_contracts.ChargeCore.Interval.Conserved.{
  Conserved, settled-Conserved, Conserved-SameMoney, Conserved-publish, Conserved-refl,
  cancel_at_cap-Conserved, move_status-Conserved,
}

module _ {L : Type 0} where
  close_used-same :
      (cap : Option ℤ) (balance : ℤ) (sub : Subscription) (s : State L)
      → Yields (close_used cap balance sub s) (λ closed u.
        (closed.token ≡ sub.token) × (closed.prepaid_balance ≡ sub.prepaid_balance) × (u ≡ s))
  unfolding close_used
  close_used-same cap balance sub s = ground arith

  publish_cap-Conserved :
      (id now : ℕ) (cap : Option ℤ) (charged : ℤ) (s u : State L)
      → Conserved s u
      → Yields (publish_cap id now cap charged u) (λ _ v. Conserved s v)
  unfolding publish_cap
  publish_cap-Conserved id now none charged s u h = h
  publish_cap-Conserved id now (some cap) charged s u h = Conserved-publish s u _ h

  mark_reference-SameMoney :
      (id : ℕ) (reference : String) (s : State L) → SameMoney s (mark_reference id reference s)
  unfolding mark_reference
  mark_reference-SameMoney id reference s = ground arith

  set_usage_state-Conserved :
      (id : ℕ) (state : UsageState) (s u : State L)
      → Conserved (set_usage_state id state s) u
      → Conserved s u
  unfolding set_usage_state owed prepaid_owed merchants_owed
  set_usage_state-Conserved id state s u c = record {
    owing = c.owing;
    accounted = c.accounted;
    ledger = c.ledger;
  }

  set_usage_state-get :
      (id : ℕ) (state : UsageState) (s : State L) {sub : Subscription}
      → get s.subscriptions.subs id ≡ some sub
      → get (set_usage_state id state s).subscriptions.subs id ≡ some sub
  unfolding set_usage_state
  set_usage_state-get id state s h = h

module _ {L : Type 0} (env : Env L) where
  usage_paid-Conserved :
      (id : ℕ) (sub : Subscription) (amount : ℤ) (reference : String) (lifetime balance : ℤ)
      (s : State L)
      → get s.subscriptions.subs id ≡ some sub
      → balance +ℤ amount ≡ sub.prepaid_balance
      → Yields (usage_paid env id sub amount reference lifetime balance s) (λ _ u. Conserved s u)
  unfolding usage_paid
  usage_paid-Conserved id sub amount reference lifetime balance s g split =
      let Q : UsageChargeResult → State L → Type 0 = λ _ u. Conserved s u in
      let debited : Subscription = record sub {
        prepaid_balance = balance;
        lifetime_charged = lifetime;
      } in
      step-Yields
        (credit_merchant_balance_for_token sub.merchant sub.token amount BillingChargeKind.usage) _
        Q s (λ _ u. Credited sub.merchant sub.token amount s u)
        (credit-Credited sub.merchant sub.token amount BillingChargeKind.usage s)
        λ _ u c.
          step-Yields (close_used (exhausted_cap debited) balance debited) _ Q u
            (λ closed v. (closed.token ≡ sub.token) × (closed.prepaid_balance ≡ balance) × (v ≡ u))
            (close_used-same (exhausted_cap debited) balance debited u)
            λ closed v k. rw k.2 (
              let stored = put_subscription id closed u in
              let marked = mark_reference id reference stored in
              let settled : Conserved s stored =
                settled-Conserved s u id sub closed amount g k.0 (rw k.1 split)
                  (Credited-Paid sub.merchant sub.token amount s u c) in
              keep-Yields
                (append_statement env id amount sub.merchant BillingChargeKind.usage env.timestamp
                  env.timestamp)
                _ Q marked (λ w. Conserved s w)
                (Conserved-SameMoney s marked _
                  (Conserved-SameMoney s stored marked settled
                    (mark_reference-SameMoney id reference stored))
                  (append_statement-SameMoney env id amount sub.merchant BillingChargeKind.usage
                    env.timestamp env.timestamp marked))
                λ _ w h.
                  let shown =
                    usage_charged id sub.merchant amount sub.token env.timestamp reference in
                  step-Yields (publish_cap id env.timestamp (exhausted_cap debited) lifetime) _ Q
                    (publish shown w).1 (λ _ x. Conserved s x)
                    (publish_cap-Conserved id env.timestamp (exhausted_cap debited) lifetime s
                      (publish shown w).1 (Conserved-publish s w shown h))
                    λ _ x y. y)

  usage_unpaid-Conserved :
      (id : ℕ) (sub : Subscription) (amount : ℤ) (s : State L)
      → get s.subscriptions.subs id ≡ some sub
      → Yields (usage_unpaid env id sub amount s) (λ _ u. Conserved s u)
  unfolding usage_unpaid
  usage_unpaid-Conserved id sub amount s g =
      step-Yields (move_status id sub SubscriptionStatus.insufficient_balance) _
        (λ _ u. Conserved s u) s (λ _ u. Conserved s u)
        (move_status-Conserved id sub SubscriptionStatus.insufficient_balance s g)
        λ _ u c. Conserved-publish s u _ c

  settle_usage-Conserved :
      (id : ℕ) (sub : Subscription) (amount : ℤ) (reference : String) (lifetime : ℤ) (s : State L)
      (r : Result ℤ)
      → get s.subscriptions.subs id ≡ some sub
      → safe_sub_balance sub.prepaid_balance amount ≡ r
      → Yields (settle_usage env id sub amount reference lifetime r s) (λ _ u. Conserved s u)
  unfolding settle_usage
  settle_usage-Conserved id sub amount reference lifetime s (ok balance) g e =
      usage_paid-Conserved id sub amount reference lifetime balance s g
        (safe_sub_balance-ok sub.prepaid_balance amount e).2
  settle_usage-Conserved id sub amount reference lifetime s (err _) g e =
      usage_unpaid-Conserved id sub amount s g
  settle_usage-Conserved id sub amount reference lifetime s trap g e = tt

  usage_within_cap-Conserved :
      (id : ℕ) (sub : Subscription) (amount : ℤ) (reference : String) (lifetime : ℤ)
      (cap : Option ℤ) (s : State L)
      → get s.subscriptions.subs id ≡ some sub
      → Yields (usage_within_cap env id sub amount reference lifetime cap s) (λ _ u. Conserved s u)
  unfolding usage_within_cap
  usage_within_cap-Conserved id sub amount reference lifetime none s g =
      settle_usage-Conserved id sub amount reference lifetime s _ g refl
  usage_within_cap-Conserved id sub amount reference lifetime (some cap) s g =
      step-Yields (cancel_at_cap id env.timestamp sub cap) _ (λ _ u. Conserved s u) s
        (λ _ u. Conserved s u) (cancel_at_cap-Conserved id env.timestamp sub cap s g) λ _ u c. c

  take_usage-Conserved :
      (id : ℕ) (sub : Subscription) (amount : ℤ) (reference : String) (s : State L)
      → get s.subscriptions.subs id ≡ some sub
      → Yields (take_usage env id sub amount reference s) (λ _ u. Conserved s u)
  unfolding take_usage
  take_usage-Conserved id sub amount reference s g =
      lift-Yields (safe_add sub.lifetime_charged amount) _ (λ _ u. Conserved s u) s
        λ lifetime _.
          usage_within_cap-Conserved id sub amount reference lifetime (surpassed_cap sub lifetime) s
            g

  reject_usage-Conserved :
      (id : ℕ) (sub : Subscription) (amount : ℤ) (reference : String) (r : UsageChargeResult)
      (s : State L)
      → Yields (reject_usage env id sub amount reference r s) (λ _ u. Conserved s u)
  unfolding reject_usage
  reject_usage-Conserved id sub amount reference r s = Conserved-publish s s _ (Conserved-refl s)

  take_admitted-Conserved :
      (id : ℕ) (sub : Subscription) (amount : ℤ) (reference : String) (a : Admission) (s : State L)
      → get s.subscriptions.subs id ≡ some sub
      → Yields (take_admitted env id sub amount reference a s) (λ _ u. Conserved s u)
  unfolding take_admitted
  take_admitted-Conserved id sub amount reference (refused r) s g =
      reject_usage-Conserved id sub amount reference r s
  take_admitted-Conserved id sub amount reference (admitted state) s g =
      let metered = set_usage_state id state s in
      weaken _ (λ _ u. Conserved metered u) (λ _ u. Conserved s u)
        (take_usage-Conserved id sub amount reference metered (set_usage_state-get id state s g))
        λ _ u c. set_usage_state-Conserved id state s u c

  meter_usage-Conserved :
      (id : ℕ) (sub : Subscription) (amount : ℤ) (reference : String) (limits : Option UsageLimits)
      (s : State L)
      → get s.subscriptions.subs id ≡ some sub
      → Yields (meter_usage env id sub amount reference limits s) (λ _ u. Conserved s u)
  unfolding meter_usage
  meter_usage-Conserved id sub amount reference none s g =
      take_usage-Conserved id sub amount reference s g
  meter_usage-Conserved id sub amount reference (some limits) s g =
      or_abort-Yields (current_period sub env.timestamp) _ (λ _ u. Conserved s u) s
        λ period _. take_admitted-Conserved id sub amount reference _ s g

  use_reference-Conserved :
      (id : ℕ) (sub : Subscription) (amount : ℤ) (reference : String) (seen : Bool) (s : State L)
      → get s.subscriptions.subs id ≡ some sub
      → Yields (use_reference env id sub amount reference seen s) (λ _ u. Conserved s u)
  unfolding use_reference
  use_reference-Conserved id sub amount reference true s g =
      reject_usage-Conserved id sub amount reference UsageChargeResult.replay s
  use_reference-Conserved id sub amount reference false s g =
      meter_usage-Conserved id sub amount reference (get s.billing.usage_limits id) s g

  -- A charge for use that returns leaves what the vault owes in every token as it was, and touches
  -- neither the accounted totals nor the token contracts.
  pub charge_usage_one-Conserved :
      (id : ℕ) (amount : ℤ) (reference : String) (s u : State L) (r : UsageChargeResult)
      → charge_usage_one env id amount reference s ≡ (ok r, u)
      → Conserved s u
  charge_usage_one-Conserved id amount reference s u r e =
      Yields-ok (charge_usage_one env id amount reference s) (λ _ v. Conserved s v)
        (charge_usage_one-Yields env id amount reference s (λ _ v. Conserved s v)
          λ sub g c. use_reference-Conserved id sub amount reference _ s g)
        e
