-- ===== src/Solvency/Reachable.antt =====
-- The books after any sequence of the calls that move money (charge_core.rs, subscription.rs,
-- merchant.rs), less the refund by a merchant, which unbalances them.
use stellabill_contracts.Prelude.{ℕ, ◌≤◌, ℤ, ◌≡◌, String, Option, some, nat_eq, get}
use stellabill_contracts.Types.Records.{
  Address, Subscription, SubscriptionStatus, ChargeExecutionResult, UsageChargeResult,
}
use stellabill_contracts.Host.State.{State, Env}
use stellabill_contracts.Host.Calls.{ok}
use stellabill_contracts.Admin.{get_protocol_fee_bps}
use stellabill_contracts.Merchant.{withdraw_merchant_funds_for_token}
use stellabill_contracts.ChargeCore.Fees.{IsModest}
use stellabill_contracts.ChargeCore.Interval.{charge_one}
use stellabill_contracts.ChargeCore.Usage.{charge_usage_one}
use stellabill_contracts.Subscription.Funds.{
  do_deposit_funds, do_withdraw_subscriber_funds, do_partial_refund,
}
use stellabill_contracts.Subscription.OneOff.{do_charge_one_off}
use stellabill_contracts.Solvency.Steps.{IsBalanced, IsBalanced-Conserved}
use stellabill_contracts.Solvency.Standing.{
  SameAccounts, IsBalanced-SameAccounts, Moved-IsBalanced, Migrated-IsBalanced,
  do_cleanup_subscription-IsBalanced,
}
use stellabill_contracts.Solvency.Creations.{
  IsFresh, do_create_subscription-IsBalanced, do_create_subscription_from_plan-IsBalanced,
}
use stellabill_contracts.Subscription.Create.{Terms, do_create_subscription_with_token}
use stellabill_contracts.Subscription.Lifecycle.{
  do_cancel_subscription, do_pause_subscription, do_resume_subscription, do_cleanup_subscription,
}
use stellabill_contracts.Subscription.Moves.{
  do_cancel_subscription-Moved, do_pause_subscription-Moved, do_resume_subscription-Moved,
}
use stellabill_contracts.Subscription.Plans.Calls.{
  do_create_subscription_from_plan, do_migrate_subscription_to_plan,
}
use stellabill_contracts.Subscription.Plans.Migration.{do_migrate_subscription_to_plan-Migrated}
use stellabill_contracts.Solvency.Inflows.{do_deposit_funds-IsBalanced}
use stellabill_contracts.Solvency.Payouts.{
  withdraw_merchant_funds-IsBalanced, do_withdraw_subscriber_funds-IsBalanced,
  do_partial_refund-IsBalanced,
}
use stellabill_contracts.Solvency.Charges.{do_charge_one_off-Conserved, charge_one-IsBalanced}
use stellabill_contracts.Solvency.Usage.{charge_usage_one-Conserved}

-- One call that returns. A scheduled charge is of a subscription whose balance times 10,000 fits an
-- `i128`, at a fee of at most 10,000 basis points; a creation finds no subscription under the next
-- id. A refund by a merchant is no such call: it leaves the books unbalanced.
pub data Flow {L : Type 0} : State L → State L → Type 0 where
  charged :
      (env : Env L) (id now : ℕ) (key : Option ℕ) {sub : Subscription} {r : ChargeExecutionResult}
      {s u : State L}
      → get s.subscriptions.subs id ≡ some sub
      → IsModest sub.prepaid_balance
      → get_protocol_fee_bps s ≤ 10_000
      → charge_one env id now key s ≡ (ok r, u)
      → Flow s u
  used :
      (env : Env L) (id : ℕ) (amount : ℤ) (reference : String) {r : UsageChargeResult}
      {s u : State L}
      → charge_usage_one env id amount reference s ≡ (ok r, u)
      → Flow s u
  charged_once :
      (env : Env L) (id : ℕ) (merchant : Address) (amount : ℤ) {s u : State L}
      → do_charge_one_off env id merchant amount s ≡ (ok tt, u)
      → Flow s u
  deposited :
      (env : Env L) (id : ℕ) (subscriber : Address) (amount : ℤ) {s u : State L}
      → do_deposit_funds env id subscriber amount s ≡ (ok tt, u)
      → Flow s u
  withdrawn :
      (env : Env L) (id : ℕ) (subscriber : Address) {s u : State L}
      → do_withdraw_subscriber_funds env id subscriber s ≡ (ok tt, u)
      → Flow s u
  refunded :
      (env : Env L) (admin : Address) (id : ℕ) (subscriber : Address) (amount : ℤ) {s u : State L}
      → do_partial_refund env admin id subscriber amount s ≡ (ok tt, u)
      → Flow s u
  paid_out :
      (env : Env L) (merchant token : Address) (amount : ℤ) {s u : State L}
      → withdraw_merchant_funds_for_token env merchant token amount s ≡ (ok tt, u)
      → Flow s u
  created :
      (env : Env L) (token : Address) (terms : Terms) {id : ℕ} {s u : State L}
      → IsFresh s
      → do_create_subscription_with_token env token terms s ≡ (ok id, u)
      → Flow s u
  created_from_plan :
      (env : Env L) (subscriber : Address) (plan_id : ℕ) {id : ℕ} {s u : State L}
      → IsFresh s
      → do_create_subscription_from_plan env subscriber plan_id s ≡ (ok id, u)
      → Flow s u
  cancelled :
      (env : Env L) (id : ℕ) (authorizer : Address) {sub : Subscription} {s u : State L}
      → get s.subscriptions.subs id ≡ some sub
      → do_cancel_subscription env id authorizer s ≡ (ok tt, u)
      → Flow s u
  paused :
      (env : Env L) (id : ℕ) (authorizer : Address) {sub : Subscription} {s u : State L}
      → get s.subscriptions.subs id ≡ some sub
      → do_pause_subscription env id authorizer s ≡ (ok tt, u)
      → Flow s u
  resumed :
      (env : Env L) (id : ℕ) (authorizer : Address) {sub : Subscription} {s u : State L}
      → get s.subscriptions.subs id ≡ some sub
      → do_resume_subscription env id authorizer s ≡ (ok tt, u)
      → Flow s u
  migrated_to :
      (env : Env L) (subscriber : Address) (id plan_id : ℕ) {s u : State L}
      → do_migrate_subscription_to_plan env subscriber id plan_id s ≡ (ok tt, u)
      → Flow s u
  cleaned_up :
      (env : Env L) (id : ℕ) (authorizer : Address) {s u : State L}
      → do_cleanup_subscription env id authorizer s ≡ (ok tt, u)
      → Flow s u
  -- Any call that leaves the stored subscriptions, the merchants' balances and the totals alone,
  -- whatever else it writes.
  elsewhere : {s u : State L} → SameAccounts s u → Flow s u

pub data Flows {L : Type 0} : State L → State L → Type 0 where
  done : {s : State L} → Flows s s
  then : {s t u : State L} → Flow s t → Flows t u → Flows s u

module _ {L : Type 0} where
  flow-IsBalanced : (s u : State L) → Flow s u → IsBalanced s → IsBalanced u
  flow-IsBalanced s u (charged env id now key {sub} {r} g m f e) b =
      charge_one-IsBalanced env id now key s u sub g m f b e
  flow-IsBalanced s u (used env id amount reference {r} e) b =
      IsBalanced-Conserved s u b (charge_usage_one-Conserved env id amount reference s u r e)
  flow-IsBalanced s u (charged_once env id merchant amount e) b =
      IsBalanced-Conserved s u b (do_charge_one_off-Conserved env id merchant amount s u e)
  flow-IsBalanced s u (deposited env id subscriber amount e) b =
      do_deposit_funds-IsBalanced env id subscriber amount s u b e
  flow-IsBalanced s u (withdrawn env id subscriber e) b =
      do_withdraw_subscriber_funds-IsBalanced env id subscriber s u b e
  flow-IsBalanced s u (refunded env admin id subscriber amount e) b =
      do_partial_refund-IsBalanced env admin id subscriber amount s u b e
  flow-IsBalanced s u (paid_out env merchant token amount e) b =
      withdraw_merchant_funds-IsBalanced env merchant token amount s u b e
  flow-IsBalanced s u (created env token terms {id} f e) b =
      do_create_subscription-IsBalanced env token terms id s u f b e
  flow-IsBalanced s u (created_from_plan env subscriber plan_id {id} f e) b =
      do_create_subscription_from_plan-IsBalanced env subscriber plan_id id s u f b e
  flow-IsBalanced s u (cancelled env id authorizer {sub} g e) b =
      Moved-IsBalanced env id sub SubscriptionStatus.cancelled s u g
        (do_cancel_subscription-Moved env id authorizer s u sub g e) b
  flow-IsBalanced s u (paused env id authorizer {sub} g e) b =
      Moved-IsBalanced env id sub SubscriptionStatus.paused s u g
        (do_pause_subscription-Moved env id authorizer s u sub g e) b
  flow-IsBalanced s u (resumed env id authorizer {sub} g e) b =
      Moved-IsBalanced env id sub SubscriptionStatus.active s u g
        (do_resume_subscription-Moved env id authorizer s u sub g e) b
  flow-IsBalanced s u (migrated_to env subscriber id plan_id e) b =
      Migrated-IsBalanced id plan_id s u
        (do_migrate_subscription_to_plan-Migrated env subscriber id plan_id s u e) b
  flow-IsBalanced s u (cleaned_up env id authorizer e) b =
      do_cleanup_subscription-IsBalanced env id authorizer s u b e
  flow-IsBalanced s u (elsewhere m) b = IsBalanced-SameAccounts s u m b

  -- From balanced books, any sequence of charges, one-off charges, charges for use, deposits,
  -- withdrawals by subscribers and merchants, refunds by the admin, creations with a token and from
  -- a plan, cancellations, pauses, resumptions, migrations, clean-ups, and calls that leave the
  -- stored subscriptions, the merchants' balances and the totals alone, each of which returns, in any
  -- order and at any times, leads to balanced books. A scheduled charge must be of a subscription
  -- whose balance times 10,000 fits an `i128`, at a fee of at most 10,000 basis points, and a
  -- creation must find no subscription under the next id.
  pub Flows-IsBalanced : (s u : State L) → Flows s u → IsBalanced s → IsBalanced u
  Flows-IsBalanced s u done b = b
  Flows-IsBalanced s u (then {t = t} flow more) b =
      Flows-IsBalanced t u more (flow-IsBalanced s t flow b)
