-- ===== src/Solvency/Creations.antt =====
-- The books and the creations of subscription.rs.
use stellabill_contracts.Prelude.{
  ℕ, pos, ◌≡◌, refl, arith, none, not, ◌==◌, nat_eq, beq_ℤ, get, unwrap_or, checked_add_u32,
}
use stellabill_contracts.Types.Errors.{Error}
use stellabill_contracts.Types.Records.{Address, Subscription, status_eq}
use stellabill_contracts.Host.State.{State, Env}
use stellabill_contracts.Host.Calls.{ok, publish, require_auth}
use stellabill_contracts.Host.Outcomes.{
  Yields, Yields-ok, check-Yields, fail_if-Yields, or_fail-Yields, lift-Yields, step-Yields,
}
use stellabill_contracts.SafeMath.{validate_non_negative}
use stellabill_contracts.Admin.{is_token_accepted}
use stellabill_contracts.Blocklist.{is_blocklisted, require_not_blocklisted}
use stellabill_contracts.Subscription.Limits.{
  validate_interval, resolve_cap, enforce_credit_limit_for_delta,
}
use stellabill_contracts.Subscription.Create.{
  Terms, admissible_cap, new_subscription, allocate, max_subscription_id, set_next_id,
  index_subscription, do_create_subscription_with_token,
}
use stellabill_contracts.Subscription.Plans.{
  get_plan_template, link_plan, enforce_plan_concurrency_limit,
}
use stellabill_contracts.Subscription.Plans.Calls.{
  allocate_from_plan, plan_subscription, do_create_subscription_from_plan,
}
use stellabill_contracts.Store.{put_subscription}
use stellabill_contracts.Solvency.Steps.{
  IsBalanced, require_auth-same, require_not_blocklisted-same,
}
use stellabill_contracts.Solvency.Standing.{Rewritten, IsBalanced-Rewritten}

module _ {L : Type 0} where
  -- The new subscription is written under the next id.
  abbrev Added : Subscription → State L → State L → Type 0
  Added sub s u = Rewritten (unwrap_or s.subscriptions.next_id 0) sub s u

  allocate-Added :
      (sub : Subscription) (s : State L) → Yields (allocate sub s) (λ _ u. Added sub s u)
  unfolding allocate index_subscription set_next_id put_subscription
  allocate-Added sub s =
      let id = unwrap_or s.subscriptions.next_id 0 in
      let Q : ℕ → State L → Type 0 = λ _ u. Added sub s u in
      fail_if-Yields (id == max_subscription_id) Error.subscription_limit_reached _ Q s λ _.
        or_fail-Yields (checked_add_u32 id 1) Error.subscription_limit_reached _ Q s
          λ next e. record { accounted = refl; subs = refl; balances = refl }

  allocate_from_plan-Added :
      (plan_id : ℕ) (sub : Subscription) (s : State L)
      → Yields (allocate_from_plan plan_id sub s) (λ _ u. Added sub s u)
  unfolding allocate_from_plan index_subscription set_next_id link_plan put_subscription
  allocate_from_plan-Added plan_id sub s =
      let id = unwrap_or s.subscriptions.next_id 0 in
      or_fail-Yields (checked_add_u32 id 1) Error.overflow _ (λ _ u. Added sub s u) s
        λ next e. record { accounted = refl; subs = refl; balances = refl }

  -- No subscription stands under the next id.
  abbrev pub IsFresh : State L → Type 0
  IsFresh s = get s.subscriptions.subs (unwrap_or s.subscriptions.next_id 0) ≡ none

  IsBalanced-Added :
      (s u : State L) (sub : Subscription)
      → IsFresh s
      → sub.prepaid_balance ≡ pos 0
      → IsBalanced s
      → Added sub s u
      → IsBalanced u
  IsBalanced-Added s u sub f z b w =
      IsBalanced-Rewritten s u (unwrap_or s.subscriptions.next_id 0) sub w (rw f z) b

  enforce_plan_concurrency_limit-same :
      (subscriber : Address) (plan_id : ℕ) (s : State L)
      → Yields (enforce_plan_concurrency_limit subscriber plan_id s) (λ _ u. u ≡ s)
  unfolding enforce_plan_concurrency_limit
  enforce_plan_concurrency_limit-same subscriber plan_id s = ground arith

module _ {L : Type 0} (env : Env L) where
  do_create-IsBalanced :
      (token : Address) (terms : Terms) (s : State L)
      → IsFresh s
      → IsBalanced s
      → Yields (do_create_subscription_with_token env token terms s) (λ _ u. IsBalanced u)
  unfolding do_create_subscription_with_token new_subscription publish
  do_create-IsBalanced token terms s f b =
      let Q : ℕ → State L → Type 0 = λ _ u. IsBalanced u in
      let cap = resolve_cap s terms.merchant terms.lifetime_cap in
      check-Yields (require_auth env terms.subscriber) _ Q s
        (require_auth-same env terms.subscriber s)
        λ _.
          fail_if-Yields (is_blocklisted s terms.subscriber) Error.subscriber_blocklisted _ Q s λ _.
            lift-Yields (validate_non_negative terms.amount) _ Q s λ _ _.
              fail_if-Yields (beq_ℤ terms.amount (pos 0)) Error.invalid_amount _ Q s λ _.
                lift-Yields (validate_interval terms.interval_seconds) _ Q s λ _ _.
                  fail_if-Yields (not (is_token_accepted s token)) Error.invalid_input _ Q s λ _.
                    lift-Yields (admissible_cap cap terms.amount) _ Q s λ _ _.
                      lift-Yields
                        (enforce_credit_limit_for_delta s terms.subscriber token terms.amount) _ Q s
                        λ _ _.
                          let new = new_subscription terms token cap env.timestamp in
                          step-Yields (allocate new) _ Q s (λ _ u. Added new s u)
                            (allocate-Added new s)
                            λ _ u w. IsBalanced-Added s _ new f refl b (record {
                              accounted = w.accounted;
                              subs = w.subs;
                              balances = w.balances;
                            })

  pub do_create_subscription-IsBalanced :
      (token : Address) (terms : Terms) (id : ℕ) (s u : State L)
      → IsFresh s
      → IsBalanced s
      → do_create_subscription_with_token env token terms s ≡ (ok id, u)
      → IsBalanced u
  do_create_subscription-IsBalanced token terms id s u f b e =
      Yields-ok (do_create_subscription_with_token env token terms s) (λ _ v. IsBalanced v)
        (do_create-IsBalanced token terms s f b) e

  do_create_from_plan-IsBalanced :
      (subscriber : Address) (plan_id : ℕ) (s : State L)
      → IsFresh s
      → IsBalanced s
      → Yields (do_create_subscription_from_plan env subscriber plan_id s) (λ _ u. IsBalanced u)
  unfolding do_create_subscription_from_plan get_plan_template publish
  do_create_from_plan-IsBalanced subscriber plan_id s f b =
      let Q : ℕ → State L → Type 0 = λ _ u. IsBalanced u in
      check-Yields (require_auth env subscriber) _ Q s (require_auth-same env subscriber s) λ _.
        check-Yields (require_not_blocklisted subscriber) _ Q s
          (require_not_blocklisted-same subscriber s)
          λ _. or_fail-Yields (get s.subscriptions.plans plan_id) Error.not_found _ Q s λ plan _.
            fail_if-Yields plan.is_disabled Error.invalid_input _ Q s λ _.
              lift-Yields (enforce_credit_limit_for_delta s subscriber plan.token plan.amount) _ Q s
                λ _ _.
                  check-Yields (enforce_plan_concurrency_limit subscriber plan_id) _ Q s
                    (enforce_plan_concurrency_limit-same subscriber plan_id s)
                    λ _.
                      let cap = resolve_cap s plan.merchant plan.lifetime_cap in
                      let new = plan_subscription subscriber plan cap env.timestamp in
                      step-Yields (allocate_from_plan plan_id new) _ Q s (λ _ u. Added new s u)
                        (allocate_from_plan-Added plan_id new s)
                        λ _ u w.
                          IsBalanced-Added s _ new f refl b (record {
                            accounted = w.accounted;
                            subs = w.subs;
                            balances = w.balances;
                          })

  pub do_create_subscription_from_plan-IsBalanced :
      (subscriber : Address) (plan_id id : ℕ) (s u : State L)
      → IsFresh s
      → IsBalanced s
      → do_create_subscription_from_plan env subscriber plan_id s ≡ (ok id, u)
      → IsBalanced u
  do_create_subscription_from_plan-IsBalanced subscriber plan_id id s u f b e =
      Yields-ok (do_create_subscription_from_plan env subscriber plan_id s) (λ _ v. IsBalanced v)
        (do_create_from_plan-IsBalanced subscriber plan_id s f b) e
