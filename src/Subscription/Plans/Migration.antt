-- ===== src/Subscription/Plans/Migration.antt =====
-- `do_migrate_subscription_to_plan` and `do_disable_plan_template` of subscription.rs.
use stellabill_contracts.Prelude.{
  ℕ, ◌<◌, ℤ, ◌≡◌, refl, arith, Bool, true, false, Option, none, some, not, ◌==◌, nat_eq, leb, get,
  set, get-set_self,
}
use stellabill_contracts.Types.Errors.{Error}
use stellabill_contracts.Types.Records.{Address, Subscription, PlanTemplate}
use stellabill_contracts.Host.State.{State, Env}
use stellabill_contracts.Host.Calls.{ok, require_auth, publish}
use stellabill_contracts.Host.Outcomes.{
  Yields, fail_if-Yields, or_fail-Yields, check-Yields, Yields-ok,
}
use stellabill_contracts.Store.{get_subscription, put_subscription}
use stellabill_contracts.Blocklist.{require_not_blocklisted}
use stellabill_contracts.Subscription.Plans.{get_plan_template, link_plan, put_at_symbol_key}
use stellabill_contracts.Subscription.Plans.Calls.{
  passed_cap, bool_beq, do_migrate_subscription_to_plan, do_disable_plan_template,
}
use stellabill_contracts.Solvency.Steps.{require_auth-same, require_not_blocklisted-same}
use stellabill_contracts.WellFormed.{IsWithinCap}

-- A move of a subscription from one plan to another of its family.
pub record IsUpgrade (sub : Subscription) (old new : PlanTemplate) : Type 0 where
  pub family : new.template_key ≡ old.template_key
  pub newer : old.version < new.version
  pub token : new.token ≡ sub.token
  pub usage : new.usage_enabled ≡ sub.usage_enabled
  pub cap : IsWithinCap new.lifetime_cap sub.lifetime_charged

not_passed :
    (cap : Option ℤ) (charged : ℤ) → passed_cap cap charged ≡ false → IsWithinCap cap charged
unfolding passed_cap
not_passed none charged h = tt
not_passed (some cap) charged h = ground arith

bool_beq-eq : (a b : Bool) → bool_beq a b ≡ true → a ≡ b
unfolding bool_beq
bool_beq-eq a b h = ground arith

module _ {L : Type 0} where
  -- The state after a migration: the plan that the subscription was on, and the new one.
  pub record Migrated (id new_plan_id : ℕ) (s u : State L) : Type 0 where
    pub sub : Subscription
    pub old : PlanTemplate
    pub new : PlanTemplate
    pub old_id : ℕ
    pub stored : get s.subscriptions.subs id ≡ some sub
    pub linked : get s.subscriptions.sub_plans id ≡ some old_id
    pub old_plan : get s.subscriptions.plans old_id ≡ some old
    pub new_plan : get s.subscriptions.plans new_plan_id ≡ some new
    pub upgrade : IsUpgrade sub old new
    pub subs :
        u.subscriptions.subs
        ≡ set s.subscriptions.subs id (record sub {
          amount = new.amount;
          interval_seconds = new.interval_seconds;
          usage_enabled = new.usage_enabled;
          lifetime_cap = new.lifetime_cap;
        })
    pub totals : u.total_accounted ≡ s.total_accounted
    pub merchants : u.merchants ≡ s.merchants
    pub relinked : get u.subscriptions.sub_plans id ≡ some new_plan_id
    pub plans : u.subscriptions.plans ≡ s.subscriptions.plans

module _ {L : Type 0} (env : Env L) where
  do_migrate-Yields :
      (subscriber : Address) (id new_plan_id : ℕ) (s : State L)
      → Yields
          (do_migrate_subscription_to_plan env subscriber id new_plan_id s)
          (λ _ u. Migrated id new_plan_id s u)
  unfolding do_migrate_subscription_to_plan get_subscription get_plan_template put_subscription
      link_plan publish
  do_migrate-Yields subscriber id new_plan_id s =
      let Q : Unit {0} → State L → Type 0 = λ _ u. Migrated id new_plan_id s u in
      check-Yields (require_auth env subscriber) _ Q s (require_auth-same env subscriber s) λ _.
        check-Yields (require_not_blocklisted subscriber) _ Q s
          (require_not_blocklisted-same subscriber s)
          λ _. or_fail-Yields (get s.subscriptions.subs id) Error.not_found _ Q s λ sub g.
            fail_if-Yields (not (sub.subscriber == subscriber)) Error.forbidden _ Q s λ _.
              or_fail-Yields (get s.subscriptions.sub_plans id) Error.invalid_input _ Q s
                λ old_id l.
                  or_fail-Yields (get s.subscriptions.plans old_id) Error.not_found _ Q s λ old o.
                    or_fail-Yields (get s.subscriptions.plans new_plan_id) Error.not_found _ Q s
                      λ new n.
                        fail_if-Yields (not (old.template_key == new.template_key))
                          Error.invalid_input _ Q s
                          λ k.
                            fail_if-Yields (leb new.version old.version) Error.invalid_input _ Q s
                              λ v.
                                fail_if-Yields (not (new.token == sub.token)) Error.invalid_input _
                                  Q s
                                  λ t.
                                    fail_if-Yields
                                      (not (bool_beq new.usage_enabled sub.usage_enabled))
                                      Error.cannot_change_usage_mode _ Q s
                                      λ m.
                                        fail_if-Yields
                                          (passed_cap new.lifetime_cap sub.lifetime_charged)
                                          Error.lifetime_cap_reached _ Q s
                                          λ c. record {
                                            sub = sub;
                                            old = old;
                                            new = new;
                                            old_id = old_id;
                                            stored = g;
                                            linked = l;
                                            old_plan = o;
                                            new_plan = n;
                                            upgrade = record {
                                              family = ground arith;
                                              newer = ground arith;
                                              token = ground arith;
                                              usage =
                                                  bool_beq-eq new.usage_enabled sub.usage_enabled
                                                    (ground arith);
                                              cap =
                                                  not_passed new.lifetime_cap sub.lifetime_charged
                                                    c;
                                            };
                                            subs = refl;
                                            relinked =
                                                get-set_self s.subscriptions.sub_plans id
                                                  new_plan_id;
                                            plans = refl;
                                            totals = refl;
                                            merchants = refl;
                                          }

  -- A migration that returns moves a subscription that is on a plan to a newer version of the same
  -- plan, in the same token and billing mode and with a cap that covers the charges so far. The
  -- subscription takes the new terms and keeps all else, and no plan changes.
  pub do_migrate_subscription_to_plan-Migrated :
      (subscriber : Address) (id new_plan_id : ℕ) (s u : State L)
      → do_migrate_subscription_to_plan env subscriber id new_plan_id s ≡ (ok tt, u)
      → Migrated id new_plan_id s u
  do_migrate_subscription_to_plan-Migrated subscriber id new_plan_id s u e =
      Yields-ok (do_migrate_subscription_to_plan env subscriber id new_plan_id s)
        (λ _ v. Migrated id new_plan_id s v) (do_migrate-Yields subscriber id new_plan_id s) e

  -- The plan that the source writes under another key is never read: no stored plan changes.
  pub do_disable_plan_template-plans :
      (merchant : Address) (plan_id : ℕ) (s : State L)
      → Yields
          (do_disable_plan_template env merchant plan_id s)
          (λ _ u. u.subscriptions.plans ≡ s.subscriptions.plans)
  unfolding do_disable_plan_template get_plan_template put_at_symbol_key publish
  do_disable_plan_template-plans merchant plan_id s = ground arith
