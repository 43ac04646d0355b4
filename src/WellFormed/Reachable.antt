-- ===== src/WellFormed/Reachable.antt =====
-- The states that the calls on subscriptions (charge_core.rs, subscription.rs) reach, each call at
-- a time and with authorizations of its own.
use stellabill_contracts.Prelude.{
  ℕ, ℤ, ◌≡◌, String, Option, some, sym, subst, nat_eq, get, inl, inr,
}
use stellabill_contracts.Types.Records.{
  Address, Subscription, SubscriptionStatus, ChargeExecutionResult, UsageChargeResult,
}
use stellabill_contracts.Host.State.{State, Env}
use stellabill_contracts.Host.Calls.{ok}
use stellabill_contracts.Store.{put_subscription}
use stellabill_contracts.ChargeCore.Interval.{charge_one}
use stellabill_contracts.ChargeCore.Usage.{charge_usage_one}
use stellabill_contracts.Subscription.Create.{Terms, do_create_subscription_with_token}
use stellabill_contracts.Subscription.Funds.{
  do_deposit_funds, do_withdraw_subscriber_funds, do_partial_refund,
}
use stellabill_contracts.Subscription.Lifecycle.{
  do_cancel_subscription, do_pause_subscription, do_resume_subscription,
}
use stellabill_contracts.Subscription.OneOff.{do_charge_one_off}
use stellabill_contracts.Subscription.Moves.{
  Moved, do_cancel_subscription-Moved, do_pause_subscription-Moved, do_resume_subscription-Moved,
}
use stellabill_contracts.Subscription.Plans.Calls.{migrated, do_migrate_subscription_to_plan}
use stellabill_contracts.Subscription.Plans.Migration.{
  Migrated, do_migrate_subscription_to_plan-Migrated,
}
use stellabill_contracts.WellFormed.{
  IsSound, IsSoundEntry, IsWellFormed, IsSound-status, IsWellFormed-put, IsWellFormed-same,
  IsWellFormed-get,
}
use stellabill_contracts.WellFormed.Charges.{charge_one-IsWellFormed}
use stellabill_contracts.WellFormed.Usage.{charge_usage_one-IsWellFormed}
use stellabill_contracts.WellFormed.OneOff.{do_charge_one_off-IsWellFormed}
use stellabill_contracts.WellFormed.Funds.{
  do_deposit_funds-IsWellFormed, do_withdraw_subscriber_funds-IsWellFormed,
  do_partial_refund-IsWellFormed,
}
use stellabill_contracts.WellFormed.Creation.{do_create_subscription-Created}

-- One call that returns.
pub data Step {L : Type 0} : State L → State L → Type 0 where
  charged :
      (env : Env L) (id now : ℕ) (key : Option ℕ) {r : ChargeExecutionResult} {s u : State L}
      → charge_one env id now key s ≡ (ok r, u)
      → Step s u
  used :
      (env : Env L) (id : ℕ) (amount : ℤ) (reference : String) {r : UsageChargeResult}
      {s u : State L}
      → charge_usage_one env id amount reference s ≡ (ok r, u)
      → Step s u
  charged_once :
      (env : Env L) (id : ℕ) (merchant : Address) (amount : ℤ) {s u : State L}
      → do_charge_one_off env id merchant amount s ≡ (ok tt, u)
      → Step s u
  deposited :
      (env : Env L) (id : ℕ) (subscriber : Address) (amount : ℤ) {s u : State L}
      → do_deposit_funds env id subscriber amount s ≡ (ok tt, u)
      → Step s u
  withdrawn :
      (env : Env L) (id : ℕ) (subscriber : Address) {s u : State L}
      → do_withdraw_subscriber_funds env id subscriber s ≡ (ok tt, u)
      → Step s u
  refunded :
      (env : Env L) (admin : Address) (id : ℕ) (subscriber : Address) (amount : ℤ) {s u : State L}
      → do_partial_refund env admin id subscriber amount s ≡ (ok tt, u)
      → Step s u
  created :
      (env : Env L) (token : Address) (terms : Terms) {id : ℕ} {s u : State L}
      → do_create_subscription_with_token env token terms s ≡ (ok id, u)
      → Step s u
  cancelled :
      (env : Env L) (id : ℕ) (authorizer : Address) {sub : Subscription} {s u : State L}
      → get s.subscriptions.subs id ≡ some sub
      → do_cancel_subscription env id authorizer s ≡ (ok tt, u)
      → Step s u
  paused :
      (env : Env L) (id : ℕ) (authorizer : Address) {sub : Subscription} {s u : State L}
      → get s.subscriptions.subs id ≡ some sub
      → do_pause_subscription env id authorizer s ≡ (ok tt, u)
      → Step s u
  resumed :
      (env : Env L) (id : ℕ) (authorizer : Address) {sub : Subscription} {s u : State L}
      → get s.subscriptions.subs id ≡ some sub
      → do_resume_subscription env id authorizer s ≡ (ok tt, u)
      → Step s u
  migrated_to :
      (env : Env L) (subscriber : Address) (id plan_id : ℕ) {s u : State L}
      → do_migrate_subscription_to_plan env subscriber id plan_id s ≡ (ok tt, u)
      → Step s u
  -- Any call that leaves the stored subscriptions alone.
  elsewhere : {s u : State L} → u.subscriptions ≡ s.subscriptions → Step s u

-- Any number of such calls.
pub data Steps {L : Type 0} : State L → State L → Type 0 where
  done : {s : State L} → Steps s s
  then : {s t u : State L} → Step s t → Steps t u → Steps s u

module _ {L : Type 0} where
  Moved-IsWellFormed :
      (env : Env L) (id : ℕ) (sub : Subscription) (target : SubscriptionStatus) (s u : State L)
      → get s.subscriptions.subs id ≡ some sub
      → IsWellFormed s
      → Moved env id sub target s u
      → IsWellFormed u
  Moved-IsWellFormed env id sub target s u g w m = elim m.only [
    | inl e ↦ IsWellFormed-same s u e w
    | inr e ↦ IsWellFormed-same (put_subscription id (record sub { status = target }) s) u e (
        IsWellFormed-put s id (record sub { status = target }) w
          (IsSound-status sub target (IsWellFormed-get s id sub g w)))
  ]

  Migrated-IsWellFormed :
      (id plan_id : ℕ) (s u : State L) → IsWellFormed s → Migrated id plan_id s u → IsWellFormed u
  unfolding put_subscription
  Migrated-IsWellFormed id plan_id s u w m =
      let sound = IsWellFormed-get s id m.sub m.stored w in
      let kept : IsSound (migrated m.sub m.new) = record {
        prepaid_nonneg = sound.prepaid_nonneg;
        charged_nonneg = sound.charged_nonneg;
        within_cap = m.upgrade.cap;
      } in
      let put = IsWellFormed-put s id (migrated m.sub m.new) w kept in
      λ j. subst (λ x. IsSoundEntry (get x j)) (sym m.subs) (put j)

  step-IsWellFormed : (s u : State L) → Step s u → IsWellFormed s → IsWellFormed u
  step-IsWellFormed s u (charged env id now key {r} e) w =
      charge_one-IsWellFormed env id now key s u w e
  step-IsWellFormed s u (used env id amount reference {r} e) w =
      charge_usage_one-IsWellFormed env id amount reference s u r w e
  step-IsWellFormed s u (charged_once env id merchant amount e) w =
      do_charge_one_off-IsWellFormed env id merchant amount s u w e
  step-IsWellFormed s u (deposited env id subscriber amount e) w =
      do_deposit_funds-IsWellFormed env id subscriber amount s u w e
  step-IsWellFormed s u (withdrawn env id subscriber e) w =
      do_withdraw_subscriber_funds-IsWellFormed env id subscriber s u w e
  step-IsWellFormed s u (refunded env admin id subscriber amount e) w =
      do_partial_refund-IsWellFormed env admin id subscriber amount s u w e
  step-IsWellFormed s u (created env token terms {id} e) w =
      (do_create_subscription-Created env token terms s u id w e).allocated.well_formed
  step-IsWellFormed s u (cancelled env id authorizer {sub} g e) w =
      Moved-IsWellFormed env id sub SubscriptionStatus.cancelled s u g w
        (do_cancel_subscription-Moved env id authorizer s u sub g e)
  step-IsWellFormed s u (paused env id authorizer {sub} g e) w =
      Moved-IsWellFormed env id sub SubscriptionStatus.paused s u g w
        (do_pause_subscription-Moved env id authorizer s u sub g e)
  step-IsWellFormed s u (resumed env id authorizer {sub} g e) w =
      Moved-IsWellFormed env id sub SubscriptionStatus.active s u g w
        (do_resume_subscription-Moved env id authorizer s u sub g e)
  step-IsWellFormed s u (migrated_to env subscriber id plan_id e) w =
      Migrated-IsWellFormed id plan_id s u w
        (do_migrate_subscription_to_plan-Migrated env subscriber id plan_id s u e)
  step-IsWellFormed s u (elsewhere e) w = IsWellFormed-same s u e w

  -- From well-formed subscriptions, any sequence of charges, one-off charges, charges for use,
  -- deposits, withdrawals, refunds, creations on given terms, cancellations, pauses, resumptions,
  -- migrations and calls that leave the subscriptions alone, each of which returns, in any order and
  -- at any times, leads to well-formed subscriptions.
  pub Steps-IsWellFormed : (s u : State L) → Steps s u → IsWellFormed s → IsWellFormed u
  Steps-IsWellFormed s u done w = w
  Steps-IsWellFormed s u (then {t = t} step more) w =
      Steps-IsWellFormed t u more (step-IsWellFormed s t step w)
