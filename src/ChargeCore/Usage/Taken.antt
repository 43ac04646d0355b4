-- ===== src/ChargeCore/Usage/Taken.antt =====
-- The steps of `charge_usage_one` that follow the limits.
use stellabill_contracts.Prelude.{
  ℕ, ℤ, ◌≡◌, refl, arith, true, Option, none, some, String, nat_eq, string_eq, pair_eq, get,
  get-set_self, ◌⊎◌, inr,
}
use stellabill_contracts.Types.Records.{
  Address, Subscription, UsageChargeResult, BillingChargeKind, status_eq,
}
use stellabill_contracts.Types.Events.{usage_charged}
use stellabill_contracts.Host.State.{State, Env}
use stellabill_contracts.Host.Calls.{Result, ok, err, trap, publish}
use stellabill_contracts.Host.Outcomes.{Yields, lift-Yields, check-Yields, step-Yields}
use stellabill_contracts.SafeMath.{safe_add, safe_sub_balance}
use stellabill_contracts.Store.{put_subscription}
use stellabill_contracts.Statements.{append_statement}
use stellabill_contracts.Merchant.Credit.{Credited, credit-Credited}
use stellabill_contracts.Merchant.{credit_merchant_balance_for_token}
use stellabill_contracts.ChargeCore.Guards.{exhausted_cap, cancel_at_cap, move_status}
use stellabill_contracts.ChargeCore.Interval.{publish_cap}
use stellabill_contracts.ChargeCore.Usage.{
  usage_paid, usage_unpaid, settle_usage, usage_within_cap, take_usage, close_used, mark_reference,
}
use stellabill_contracts.Subscription.OneOff.{surpassed_cap}

module _ {L : Type 0} where
  -- What the run of an admitted charge leaves: the meters as they were, and the reference marked,
  -- unless no merchant was paid.
  pub record Taken (id : ℕ) (reference : String) (s : State L) (r : UsageChargeResult) (u : State L)
      : Type 0 where
    pub charged : r ≡ UsageChargeResult.charged
    pub meters : u.billing.usage_states ≡ s.billing.usage_states
    pub paid : (u.merchants ≡ s.merchants) ⊎ (get u.billing.usage_refs (id, reference) ≡ some true)

module _ {L : Type 0} (env : Env L) where
  append_statement-meters :
      (id : ℕ) (amount : ℤ) (merchant : Address) (kind : BillingChargeKind) (from to : ℕ)
      (s : State L)
      → Yields (append_statement env id amount merchant kind from to s) (λ _ u.
        (u.billing.usage_states ≡ s.billing.usage_states)
        × (u.billing.usage_refs ≡ s.billing.usage_refs))
  unfolding append_statement
  append_statement-meters id amount merchant kind from to s = ground arith

  close_used-same :
      (cap : Option ℤ) (balance : ℤ) (sub : Subscription) (s : State L)
      → Yields (close_used cap balance sub s) (λ _ u. u ≡ s)
  unfolding close_used
  close_used-same cap balance sub s = ground arith

  publish_cap-Taken :
      (id : ℕ) (reference : String) (cap : Option ℤ) (charged : ℤ) (s u : State L)
      → Taken id reference s UsageChargeResult.charged u
      → Yields
          (publish_cap id env.timestamp cap charged u)
          (λ _ v. Taken id reference s UsageChargeResult.charged v)
  unfolding publish_cap publish
  publish_cap-Taken id reference none charged s u h = h
  publish_cap-Taken id reference (some cap) charged s u h = record {
    charged = h.charged;
    meters = h.meters;
    paid = h.paid;
  }

  usage_paid-Taken :
      (id : ℕ) (sub : Subscription) (amount : ℤ) (reference : String) (lifetime balance : ℤ)
      (s : State L)
      → Yields (usage_paid env id sub amount reference lifetime balance s) (Taken id reference s)
  unfolding usage_paid mark_reference put_subscription publish
  usage_paid-Taken id sub amount reference lifetime balance s =
      let debited : Subscription = record sub {
        prepaid_balance = balance;
        lifetime_charged = lifetime;
      } in
      step-Yields
        (credit_merchant_balance_for_token sub.merchant sub.token amount BillingChargeKind.usage) _
        (Taken id reference s) s (λ _ u. Credited sub.merchant sub.token amount s u)
        (credit-Credited sub.merchant sub.token amount BillingChargeKind.usage s)
        λ _ u c.
          check-Yields (close_used (exhausted_cap debited) balance debited) _ (Taken id reference s)
            u (close_used-same (exhausted_cap debited) balance debited u)
            λ closed.
              let marked = mark_reference id reference (put_subscription id closed u) in
              step-Yields
                (append_statement env id amount sub.merchant BillingChargeKind.usage env.timestamp
                  env.timestamp)
                _ (Taken id reference s) marked
                (λ _ v.
                  (v.billing.usage_states ≡ marked.billing.usage_states)
                  × (v.billing.usage_refs ≡ marked.billing.usage_refs))
                (append_statement-meters id amount sub.merchant BillingChargeKind.usage
                  env.timestamp env.timestamp marked)
                λ _ v k.
                  let shown =
                    (publish
                      (usage_charged id sub.merchant amount sub.token env.timestamp reference)
                      v).1 in
                  step-Yields (publish_cap id env.timestamp (exhausted_cap debited) lifetime) _
                    (Taken id reference s) shown
                    (λ _ w. Taken id reference s UsageChargeResult.charged w)
                    (publish_cap-Taken id reference (exhausted_cap debited) lifetime s shown
                      (record {
                        charged = refl;
                        meters = grind (arith, k.0, c.billing);
                        paid =
                            inr (
                              grind
                                (arith, k.1, get-set_self u.billing.usage_refs (id, reference)));
                      }))
                    λ _ w h. h

  settle_usage-Taken :
      (id : ℕ) (sub : Subscription) (amount : ℤ) (reference : String) (lifetime : ℤ) (r : Result ℤ)
      (s : State L)
      → Yields (settle_usage env id sub amount reference lifetime r s) (Taken id reference s)
  unfolding settle_usage usage_unpaid move_status put_subscription publish
  settle_usage-Taken id sub amount reference lifetime (ok balance) s =
      usage_paid-Taken id sub amount reference lifetime balance s
  settle_usage-Taken id sub amount reference lifetime (err e) s = ground arith
  settle_usage-Taken id sub amount reference lifetime trap s = tt

  usage_within_cap-Taken :
      (id : ℕ) (sub : Subscription) (amount : ℤ) (reference : String) (lifetime : ℤ)
      (cap : Option ℤ) (s : State L)
      → Yields (usage_within_cap env id sub amount reference lifetime cap s) (Taken id reference s)
  unfolding usage_within_cap cancel_at_cap move_status put_subscription publish
  usage_within_cap-Taken id sub amount reference lifetime none s =
      settle_usage-Taken id sub amount reference lifetime
        (safe_sub_balance sub.prepaid_balance amount) s
  usage_within_cap-Taken id sub amount reference lifetime (some cap) s = ground arith

  pub take_usage-Taken :
      (id : ℕ) (sub : Subscription) (amount : ℤ) (reference : String) (s : State L)
      → Yields (take_usage env id sub amount reference s) (Taken id reference s)
  unfolding take_usage
  take_usage-Taken id sub amount reference s =
      lift-Yields (safe_add sub.lifetime_charged amount) _ (Taken id reference s) s λ lifetime _.
        usage_within_cap-Taken id sub amount reference lifetime (surpassed_cap sub lifetime) s
