-- ===== src/Subscription/Plans/Active.antt =====
-- The limit on the active subscriptions of a subscriber on a plan (subscription.rs).
use stellabill_contracts.Prelude.{
  subst, ℕ, zero, suc, ◌+◌, ◌≤◌, ◌≡◌, refl, arith, false, some, ◌==◌, nat_eq, ◌&&◌, Map,
  if◌then◌else◌, unwrap_or, checked_add_u32, saturating_add_u32, get, set, get-set,
}
use stellabill_contracts.Types.Errors.{Error}
use stellabill_contracts.Types.Records.{Address, Subscription, status_eq}
use stellabill_contracts.Host.State.{State, Env}
use stellabill_contracts.Host.Calls.{ok, require_auth, publish}
use stellabill_contracts.Host.Outcomes.{
  Yields, lift-Yields, fail_if-Yields, or_fail-Yields, check-Yields, step-Yields, Yields-ok,
}
use stellabill_contracts.Blocklist.{require_not_blocklisted}
use stellabill_contracts.Store.{put_subscription}
use stellabill_contracts.Subscription.Limits.{resolve_cap, enforce_credit_limit_for_delta}
use stellabill_contracts.Subscription.Create.{set_next_id, index_subscription}
use stellabill_contracts.Solvency.Steps.{require_auth-same, require_not_blocklisted-same}
use stellabill_contracts.Subscription.Plans.{
  link_plan, is_active_of, is_on_plan, count_active, get_plan_template, get_plan_max_active,
  count_active_subscriptions_for_plan, enforce_plan_concurrency_limit,
}
use stellabill_contracts.Subscription.Plans.Calls.{
  plan_subscription, allocate_from_plan, do_create_subscription_from_plan,
}

-- One more round of the loop, at its end.
abbrev counted : Map ℕ Subscription → Map ℕ ℕ → Address → (plan_id id count : ℕ) → ℕ
counted subs plans subscriber plan_id id count =
    if is_on_plan plan_id (get plans id) && is_active_of subscriber (get subs id)
    then saturating_add_u32 count 1
    else count

count_active-last :
    (subs : Map ℕ Subscription) (plans : Map ℕ ℕ) (subscriber : Address) (plan_id n id count : ℕ)
    → count_active subs plans subscriber plan_id (suc n) id count
      ≡ counted subs plans subscriber plan_id
          (n + id)
          (count_active subs plans subscriber plan_id n id count)
unfolding count_active
count_active-last subs plans subscriber plan_id zero id count =
    let same : 0 + id ≡ id = omega arith in rw same refl
count_active-last subs plans subscriber plan_id (suc n) id count =
    let next = counted subs plans subscriber plan_id id count in
    let same : n + suc id ≡ suc n + id = omega arith in
    subst
      (λ (k : ℕ).
        count_active subs plans subscriber plan_id (suc n) (suc id) next
        ≡ counted subs plans subscriber plan_id k
            (count_active subs plans subscriber plan_id n (suc id) next))
      same (count_active-last subs plans subscriber plan_id n (suc id) next)

-- Entries at and after the end do not count.
count_active-set :
    (subs : Map ℕ Subscription) (plans : Map ℕ ℕ) (subscriber : Address) (plan_id n id count : ℕ)
    (at link : ℕ) (sub : Subscription)
    → n + id ≤ at
    → count_active (set subs at sub) (set plans at link) subscriber plan_id n id count
      ≡ count_active subs plans subscriber plan_id n id count
unfolding count_active
count_active-set subs plans subscriber plan_id zero id count at link sub h = refl
count_active-set subs plans subscriber plan_id (suc n) id count at link sub h =
    let apart : (at == id) ≡ false = ground arith in
    let same_sub : get (set subs at sub) id ≡ get subs id =
      ground (arith, get-set subs at id sub) in
    let same_plan : get (set plans at link) id ≡ get plans id =
      ground (arith, get-set plans at id link) in
    rw (same_sub, same_plan)
      (count_active-set subs plans subscriber plan_id n (suc id)
        (counted subs plans subscriber plan_id id count) at link sub (omega arith))

counted-le :
    (subs : Map ℕ Subscription) (plans : Map ℕ ℕ) (subscriber : Address) (plan_id id count : ℕ)
    → counted subs plans subscriber plan_id id count ≤ count + 1
counted-le subs plans subscriber plan_id id count = ground arith

-- A subscription stored after the last id raises the count by one at most.
count_active-new :
    (subs : Map ℕ Subscription) (plans : Map ℕ ℕ) (subscriber : Address) (plan_id n link : ℕ)
    (sub : Subscription)
    → count_active (set subs n sub) (set plans n link) subscriber plan_id (suc n) 0 0
      ≤ count_active subs plans subscriber plan_id n 0 0 + 1
count_active-new subs plans subscriber plan_id n link sub =
    let subs' = set subs n sub in
    let plans' = set plans n link in
    omega (
      arith,
      count_active-last subs' plans' subscriber plan_id n 0 0,
      count_active-set subs plans subscriber plan_id n 0 0 n link sub (omega arith),
      counted-le subs' plans' subscriber plan_id (n + 0)
          (count_active subs' plans' subscriber plan_id n 0 0),
    )

module _ {L : Type 0} where
  -- The active subscriptions of a subscriber on a plan, over the ids that are in use.
  abbrev pub active_on_plan : State L → Address → ℕ → ℕ
  active_on_plan s subscriber plan_id =
      count_active s.subscriptions.subs s.subscriptions.sub_plans subscriber plan_id
        (unwrap_or s.subscriptions.next_id 0) 0 0

  enforce_plan_concurrency_limit-room :
      (subscriber : Address) (plan_id max_active : ℕ) (s : State L)
      → get s.subscriptions.plan_max_active plan_id ≡ some (suc max_active)
      → Yields
          (enforce_plan_concurrency_limit subscriber plan_id s)
          (λ _ u. (u ≡ s) × (active_on_plan s subscriber plan_id ≤ max_active))
  unfolding enforce_plan_concurrency_limit get_plan_max_active count_active_subscriptions_for_plan
  enforce_plan_concurrency_limit-room subscriber plan_id max_active s h = ground arith

  allocate_from_plan-room :
      (subscriber : Address) (plan_id max_active : ℕ) (sub : Subscription) (s : State L)
      → active_on_plan s subscriber plan_id ≤ max_active
      → Yields
          (allocate_from_plan plan_id sub s)
          (λ _ u. active_on_plan u subscriber plan_id ≤ suc max_active)
  unfolding allocate_from_plan checked_add_u32 set_next_id put_subscription link_plan
      index_subscription
  allocate_from_plan-room subscriber plan_id max_active sub s h =
      let id = unwrap_or s.subscriptions.next_id 0 in
      or_fail-Yields (checked_add_u32 id 1) Error.overflow _
        (λ _ u. active_on_plan u subscriber plan_id ≤ suc max_active) s
        λ next e.
          let follows : next ≡ suc id = ground arith in
          rw follows (
            omega (
              arith,
              h,
              count_active-new s.subscriptions.subs s.subscriptions.sub_plans subscriber plan_id id
                  plan_id sub,
            ))

module _ {L : Type 0} (env : Env L) where
  do_create_subscription_from_plan-Yields :
      (subscriber : Address) (plan_id max_active : ℕ) (s : State L)
      → get s.subscriptions.plan_max_active plan_id ≡ some (suc max_active)
      → Yields
          (do_create_subscription_from_plan env subscriber plan_id s)
          (λ _ u. active_on_plan u subscriber plan_id ≤ suc max_active)
  unfolding do_create_subscription_from_plan get_plan_template publish
  do_create_subscription_from_plan-Yields subscriber plan_id max_active s h =
      let Q : ℕ → State L → Type 0 = λ _ u. active_on_plan u subscriber plan_id ≤ suc max_active in
      check-Yields (require_auth env subscriber) _ Q s (require_auth-same env subscriber s) λ _.
        check-Yields (require_not_blocklisted subscriber) _ Q s
          (require_not_blocklisted-same subscriber s)
          λ _. or_fail-Yields (get s.subscriptions.plans plan_id) Error.not_found _ Q s λ plan g.
            fail_if-Yields plan.is_disabled Error.invalid_input _ Q s λ _.
              lift-Yields (enforce_credit_limit_for_delta s subscriber plan.token plan.amount) _ Q s
                λ _ _.
                  step-Yields (enforce_plan_concurrency_limit subscriber plan_id) _ Q s
                    (λ _ u. (u ≡ s) × (active_on_plan s subscriber plan_id ≤ max_active))
                    (enforce_plan_concurrency_limit-room subscriber plan_id max_active s h)
                    λ _ u k. rw k.0 (
                      let cap = resolve_cap s plan.merchant plan.lifetime_cap in
                      let sub = plan_subscription subscriber plan cap env.timestamp in
                      step-Yields (allocate_from_plan plan_id sub) _ Q s Q
                        (allocate_from_plan-room subscriber plan_id max_active sub s k.1)
                        λ _ v room. room)

  -- With a limit on the active subscriptions of a plan, a subscription made from the plan leaves
  -- its subscriber with no more of them than the limit.
  pub do_create_subscription_from_plan-limited :
      (subscriber : Address) (plan_id max_active id : ℕ) (s u : State L)
      → get s.subscriptions.plan_max_active plan_id ≡ some (suc max_active)
      → do_create_subscription_from_plan env subscriber plan_id s ≡ (ok id, u)
      → active_on_plan u subscriber plan_id ≤ suc max_active
  do_create_subscription_from_plan-limited subscriber plan_id max_active id s u h e =
      Yields-ok (do_create_subscription_from_plan env subscriber plan_id s)
        (λ _ v. active_on_plan v subscriber plan_id ≤ suc max_active)
        (do_create_subscription_from_plan-Yields subscriber plan_id max_active s h) e
