-- ===== src/Blocklist/Refusals.antt =====
-- The calls of subscription.rs that refuse a subscriber on the blocklist of blocklist.rs.
use stellabill_contracts.Prelude.{ℕ, ℤ, ◌≡◌, ◌≢◌, refl, subst, true, some, not, ◌==◌, nat_eq, get}
use stellabill_contracts.Types.Errors.{Error}
use stellabill_contracts.Types.Records.{Address, Subscription, is_expired, status_eq}
use stellabill_contracts.Host.State.{State, Env}
use stellabill_contracts.Host.Calls.{ok, err, require_auth}
use stellabill_contracts.Host.Outcomes.{
  Yields, fail_if-Yields, or_fail-Yields, lift-Yields, check-Yields, Yields-ok,
}
use stellabill_contracts.Admin.{get_token}
use stellabill_contracts.Store.{get_subscription}
use stellabill_contracts.Blocklist.{is_blocklisted, require_not_blocklisted}
use stellabill_contracts.Subscription.Limits.{enforce_credit_limit_for_delta}
use stellabill_contracts.Subscription.Funds.{do_deposit_funds}
use stellabill_contracts.Subscription.Create.{
  Terms, do_create_subscription, do_create_subscription_with_token,
}
use stellabill_contracts.Subscription.Lifecycle.{is_party, do_resume_subscription}
use stellabill_contracts.Subscription.Plans.Calls.{
  do_create_subscription_from_plan, do_migrate_subscription_to_plan,
}
use stellabill_contracts.Solvency.Steps.{require_auth-same}

module _ {L : Type 0} where
  -- The calls by which a subscriber takes on an obligation do not succeed, whenever they come and
  -- however they are authorized.
  pub record Refused (subscriber : Address) (u : State L) : Type 0 where
    pub deposit :
        (env : Env L) (id : ℕ) (amount : ℤ)
        → env.authorized subscriber ≡ true
        → do_deposit_funds env id subscriber amount u ≡ (err Error.subscriber_blocklisted, u)
    pub creation_with_token :
        (env : Env L) (token : Address) (terms : Terms)
        → terms.subscriber ≡ subscriber
        → env.authorized subscriber ≡ true
        → do_create_subscription_with_token env token terms u
          ≡ (err Error.subscriber_blocklisted, u)
    pub creation :
        (env : Env L) (terms : Terms) (id : ℕ) (v : State L)
        → terms.subscriber ≡ subscriber
        → do_create_subscription env terms u ≢ (ok id, v)
    pub creation_from_plan :
        (env : Env L) (plan_id : ℕ)
        → env.authorized subscriber ≡ true
        → do_create_subscription_from_plan env subscriber plan_id u
          ≡ (err Error.subscriber_blocklisted, u)
    pub migration :
        (env : Env L) (id plan_id : ℕ)
        → env.authorized subscriber ≡ true
        → do_migrate_subscription_to_plan env subscriber id plan_id u
          ≡ (err Error.subscriber_blocklisted, u)
    pub resumption :
        (env : Env L) (id : ℕ) (sub : Subscription) (v : State L)
        → get u.subscriptions.subs id ≡ some sub
        → sub.subscriber ≡ subscriber
        → do_resume_subscription env id subscriber u ≢ (ok tt, v)

  refused_deposit :
      (subscriber : Address) (u : State L) (env : Env L) (id : ℕ) (amount : ℤ)
      → is_blocklisted u subscriber ≡ true
      → env.authorized subscriber ≡ true
      → do_deposit_funds env id subscriber amount u ≡ (err Error.subscriber_blocklisted, u)
  unfolding do_deposit_funds require_auth require_not_blocklisted
  refused_deposit subscriber u env id amount b a = rw (a, b) refl

  refused_creation_with_token :
      (u : State L) (env : Env L) (token : Address) (terms : Terms)
      → is_blocklisted u terms.subscriber ≡ true
      → env.authorized terms.subscriber ≡ true
      → do_create_subscription_with_token env token terms u ≡ (err Error.subscriber_blocklisted, u)
  unfolding do_create_subscription_with_token require_auth
  refused_creation_with_token u env token terms b a = rw (a, b) refl

  never_with_token :
      (u : State L) (env : Env L) (token : Address) (terms : Terms)
      → is_blocklisted u terms.subscriber ≡ true
      → Yields (do_create_subscription_with_token env token terms u) (λ _ _. ⊥)
  unfolding do_create_subscription_with_token
  never_with_token u env token terms b =
      let Q : ℕ → State L → Type 0 = λ _ _. ⊥ in
      check-Yields (require_auth env terms.subscriber) _ Q u
        (require_auth-same env terms.subscriber u) λ _. rw b tt

  never_created :
      (u : State L) (env : Env L) (terms : Terms)
      → is_blocklisted u terms.subscriber ≡ true
      → Yields (do_create_subscription env terms u) (λ _ _. ⊥)
  unfolding do_create_subscription get_token
  never_created u env terms b =
      let Q : ℕ → State L → Type 0 = λ _ _. ⊥ in
      or_fail-Yields u.admin_store.default_token Error.not_found _ Q u λ token _.
        lift-Yields (enforce_credit_limit_for_delta u terms.subscriber token terms.amount) _ Q u
          λ _ _. never_with_token u env token terms b

  refused_plan :
      (subscriber : Address) (u : State L) (env : Env L) (plan_id : ℕ)
      → is_blocklisted u subscriber ≡ true
      → env.authorized subscriber ≡ true
      → do_create_subscription_from_plan env subscriber plan_id u
        ≡ (err Error.subscriber_blocklisted, u)
  unfolding do_create_subscription_from_plan require_auth require_not_blocklisted
  refused_plan subscriber u env plan_id b a = rw (a, b) refl

  refused_migration :
      (subscriber : Address) (u : State L) (env : Env L) (id plan_id : ℕ)
      → is_blocklisted u subscriber ≡ true
      → env.authorized subscriber ≡ true
      → do_migrate_subscription_to_plan env subscriber id plan_id u
        ≡ (err Error.subscriber_blocklisted, u)
  unfolding do_migrate_subscription_to_plan require_auth require_not_blocklisted
  refused_migration subscriber u env id plan_id b a = rw (a, b) refl

  never_resumed :
      (u : State L) (env : Env L) (id : ℕ) (sub : Subscription)
      → get u.subscriptions.subs id ≡ some sub
      → is_blocklisted u sub.subscriber ≡ true
      → Yields (do_resume_subscription env id sub.subscriber u) (λ _ _. ⊥)
  unfolding do_resume_subscription get_subscription require_not_blocklisted
  never_resumed u env id sub g b =
      let Q : Unit {0} → State L → Type 0 = λ _ _. ⊥ in
      check-Yields (require_auth env sub.subscriber) _ Q u (require_auth-same env sub.subscriber u)
        λ _. rw g (
          fail_if-Yields (is_expired sub env.timestamp) Error.subscription_expired _ Q u λ _.
            fail_if-Yields (not (is_party sub sub.subscriber)) Error.forbidden _ Q u λ _.
              let self : (sub.subscriber == sub.subscriber) ≡ true =
                (nat_eq.same_iff sub.subscriber sub.subscriber).1 refl in
              rw (self, b) tt)

  pub blocklisted-Refused :
      (subscriber : Address) (u : State L)
      → is_blocklisted u subscriber ≡ true
      → Refused subscriber u
  blocklisted-Refused subscriber u b = record {
    deposit = λ env id amount a. refused_deposit subscriber u env id amount b a;
    creation_with_token =
        λ env token terms e a. refused_creation_with_token u env token terms (rw e b) (rw e a);
    creation = λ env terms id v e c.
        Yields-ok (do_create_subscription env terms u) (λ _ _. ⊥)
          (never_created u env terms (rw e b)) c;
    creation_from_plan = λ env plan_id a. refused_plan subscriber u env plan_id b a;
    migration = λ env id plan_id a. refused_migration subscriber u env id plan_id b a;
    resumption = λ env id sub v g e c.
        Yields-ok (do_resume_subscription env id subscriber u) (λ _ _. ⊥)
          (subst (λ (x : Address). Yields (do_resume_subscription env id x u) (λ _ _. ⊥)) e
            (never_resumed u env id sub g (rw e b)))
          c;
  }
