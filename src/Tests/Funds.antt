-- ===== src/Tests/Funds.antt =====
-- Deposits, payouts and refunds of the fixture.
use stellabill_contracts.Prelude.{
  false, none, pos, ◌≡◌, refl, some, int_laws, get, set, ◌-ℤ◌, ◌+ℤ◌, checked_sub, ◌<ℤ◌, ◌≤◌,
  get-set, nat_eq, pair_eq, arith,
}
use stellabill_contracts.Types.Records.{SubscriptionStatus, RecoveryReason}
use stellabill_contracts.Host.State.{State, Env}
use stellabill_contracts.Host.Calls.{ok}
use stellabill_contracts.Books.{owed, in_token}
use stellabill_contracts.Accounting.{get_total_accounted}
use stellabill_contracts.Admin.{get_protocol_fee_bps}
use stellabill_contracts.Admin.Operations.{set_protocol_fee, do_recover_stranded_funds}
use stellabill_contracts.Admin.Bounds.{
  set_protocol_fee-bounded, do_recover_stranded_funds-IsCovered, IsCovered,
}
use stellabill_contracts.Merchant.{withdraw_merchant_funds_for_token, merchant_refund}
use stellabill_contracts.Subscription.Funds.{
  do_deposit_funds, do_withdraw_subscriber_funds, do_partial_refund,
}
use stellabill_contracts.Solvency.Steps.{IsBalanced}
use stellabill_contracts.Solvency.Payouts.{merchant_refund-drift}
use stellabill_contracts.WellFormed.{IsWellFormed}
use stellabill_contracts.Subscription.Create.{Terms, do_create_subscription_with_token}
use stellabill_contracts.WellFormed.Creation.{Created, do_create_subscription-Created}
use stellabill_contracts.Solvency.Creations.{IsFresh}
use stellabill_contracts.Solvency.Reachable.{Flow, Flows, Flows-IsBalanced}
use stellabill_contracts.WellFormed.Reachable.{Step, Steps, Steps-IsWellFormed}
use stellabill_contracts.Subscription.Withdrawable.{do_withdraw_subscriber_funds-pays}
use stellabill_contracts.Merchant.Reconciliation.{computed_balance}
use stellabill_contracts.Merchant.Drift.{withdraw_merchant_funds_for_token-drift}
use stellabill_contracts.Merchant.{get_merchant_token_earnings, get_merchant_balance_by_token}
use stellabill_contracts.Tests.Fixtures.{
  Ledger, env_at, subscription, start, vault_with, subscriber, merchant, treasury, admin, token,
  vault, balance, transfer, start-IsBalanced, start-IsWellFormed,
}

abbrev env : Env Ledger
env = env_at 1_000_100

deposited : State Ledger
unfolding do_deposit_funds
deposited = (do_deposit_funds env 0 subscriber (pos 60) start).1

deposit_runs : do_deposit_funds env 0 subscriber (pos 60) start ≡ (ok tt, deposited)
unfolding do_deposit_funds deposited get set checked_sub ◌-ℤ◌ ◌+ℤ◌
deposit_runs = refl

abbrev ended : State Ledger
ended = vault_with (record subscription { status = SubscriptionStatus.cancelled })

withdrawn : State Ledger
unfolding do_withdraw_subscriber_funds
withdrawn = (do_withdraw_subscriber_funds env 0 subscriber ended).1

withdraw_runs : do_withdraw_subscriber_funds env 0 subscriber ended ≡ (ok tt, withdrawn)
unfolding do_withdraw_subscriber_funds withdrawn get set checked_sub ◌-ℤ◌ ◌+ℤ◌
withdraw_runs = refl

refunded : State Ledger
unfolding do_partial_refund
refunded = (do_partial_refund env admin 0 subscriber (pos 70) start).1

partial_refund_runs : do_partial_refund env admin 0 subscriber (pos 70) start ≡ (ok tt, refunded)
unfolding do_partial_refund refunded get set checked_sub ◌-ℤ◌ ◌+ℤ◌
partial_refund_runs = refl

paid_out : State Ledger
unfolding withdraw_merchant_funds_for_token
paid_out = (withdraw_merchant_funds_for_token env merchant token (pos 15) start).1

merchant_withdraw_runs :
    withdraw_merchant_funds_for_token env merchant token (pos 15) start ≡ (ok tt, paid_out)
unfolding withdraw_merchant_funds_for_token paid_out get set checked_sub ◌-ℤ◌ ◌+ℤ◌
merchant_withdraw_runs = refl

withdraw_merchant_funds_for_token-drift_example :
    (pos 0 <ℤ pos 15)
    × (computed_balance (get_merchant_token_earnings paid_out merchant token)
        ≡ get_merchant_balance_by_token paid_out merchant token +ℤ pos 15)
unfolding computed_balance get_merchant_token_earnings get_merchant_balance_by_token get ◌+ℤ◌ ◌-ℤ◌
withdraw_merchant_funds_for_token-drift_example =
    withdraw_merchant_funds_for_token-drift env merchant token (pos 15) start paid_out refl
      merchant_withdraw_runs

do_withdraw_subscriber_funds-pays_example :
    let run = do_withdraw_subscriber_funds env 0 subscriber ended in
    (run.0 ≡ ok tt)
    × (run.1.ledger ≡ withdrawn.ledger)
    × (get run.1.subscriptions.subs 0
        ≡ some (record subscription {
          status = SubscriptionStatus.cancelled;
          prepaid_balance = pos 0;
        }))
unfolding get_total_accounted get set withdrawn do_withdraw_subscriber_funds checked_sub ◌-ℤ◌
do_withdraw_subscriber_funds-pays_example =
    do_withdraw_subscriber_funds-pays env 0
      (record subscription { status = SubscriptionStatus.cancelled }) ended withdrawn.ledger refl
      refl refl (omega arith) (omega arith) (omega arith, omega arith) refl

-- A deposit, a refund and a withdrawal by the merchant, one after the other.
refunded_later : State Ledger
unfolding do_partial_refund
refunded_later = (do_partial_refund env admin 0 subscriber (pos 70) deposited).1

later_refund_runs :
    do_partial_refund env admin 0 subscriber (pos 70) deposited ≡ (ok tt, refunded_later)
unfolding do_partial_refund refunded_later deposited do_deposit_funds get set checked_sub ◌-ℤ◌ ◌+ℤ◌
later_refund_runs = refl

abbrev terms : Terms
terms = record {
  subscriber = subscriber;
  merchant = merchant;
  amount = pos 20;
  interval_seconds = 86_400;
  usage_enabled = false;
  lifetime_cap = some (pos 200);
  expires_at = none;
}

joined_later : State Ledger
unfolding do_create_subscription_with_token
joined_later = (do_create_subscription_with_token env token terms refunded_later).1

later_create_runs :
    do_create_subscription_with_token env token terms refunded_later ≡ (ok 1, joined_later)
unfolding do_create_subscription_with_token joined_later refunded_later deposited do_partial_refund
    do_deposit_funds get set checked_sub ◌-ℤ◌ ◌+ℤ◌
later_create_runs = refl

refunded_later-IsFresh : IsFresh refunded_later
unfolding refunded_later deposited do_partial_refund do_deposit_funds get set checked_sub ◌-ℤ◌ ◌+ℤ◌
refunded_later-IsFresh = refl

Flows-IsBalanced_example : IsBalanced joined_later
Flows-IsBalanced_example =
    Flows-IsBalanced start joined_later
      (Flows.then (Flow.deposited env 0 subscriber (pos 60) deposit_runs) (
        Flows.then (Flow.refunded env admin 0 subscriber (pos 70) later_refund_runs) (
          Flows.then (Flow.created env token terms refunded_later-IsFresh later_create_runs)
            Flows.done)))
      start-IsBalanced

Steps-IsWellFormed_example : IsWellFormed refunded_later
Steps-IsWellFormed_example =
    Steps-IsWellFormed start refunded_later
      (Steps.then (Step.deposited env 0 subscriber (pos 60) deposit_runs)
        (Steps.then (Step.refunded env admin 0 subscriber (pos 70) later_refund_runs) Steps.done))
      start-IsWellFormed

merchant_refunded : State Ledger
unfolding merchant_refund
merchant_refunded = (merchant_refund env merchant subscriber token (pos 15) start).1

merchant_refund_runs :
    merchant_refund env merchant subscriber token (pos 15) start ≡ (ok tt, merchant_refunded)
unfolding merchant_refund merchant_refunded get set checked_sub ◌-ℤ◌ ◌+ℤ◌
merchant_refund_runs = refl

merchant_refund-drift_example :
    get_total_accounted merchant_refunded token
    ≡ owed merchant_refunded token +ℤ in_token token token (pos 15)
merchant_refund-drift_example =
    merchant_refund-drift env merchant subscriber token (pos 15) start merchant_refunded token
      start-IsBalanced merchant_refund_runs

fee_set : State Ledger
unfolding set_protocol_fee
fee_set = (set_protocol_fee env admin treasury 300 start).1

set_protocol_fee_runs : set_protocol_fee env admin treasury 300 start ≡ (ok tt, fee_set)
unfolding set_protocol_fee fee_set
set_protocol_fee_runs = refl

set_protocol_fee-bounded_example :
    (get_protocol_fee_bps fee_set ≡ 300) × (get_protocol_fee_bps fee_set ≤ 10_000)
set_protocol_fee-bounded_example =
    set_protocol_fee-bounded env admin treasury 300 start fee_set set_protocol_fee_runs

recovered : State Ledger
unfolding do_recover_stranded_funds
recovered =
    (do_recover_stranded_funds env admin token treasury (pos 10) "stray"
      RecoveryReason.accidental_transfer start).1

recover_runs :
    do_recover_stranded_funds env admin token treasury
      (pos 10)
      "stray"
      RecoveryReason.accidental_transfer
      start
    ≡ (ok tt, recovered)
unfolding do_recover_stranded_funds recovered get set checked_sub ◌-ℤ◌ ◌+ℤ◌
recover_runs = refl

lowers :
    (before after : Ledger)
    → transfer before token vault treasury (pos 10) ≡ some after
    → balance after token vault ≡ balance before token vault -ℤ pos 10
lowers before after e = grind (int_laws, get-set)

do_recover_stranded_funds-IsCovered_example : IsCovered env token recovered
do_recover_stranded_funds-IsCovered_example =
    do_recover_stranded_funds-IsCovered env admin token treasury (pos 10) "stray"
      RecoveryReason.accidental_transfer start recovered lowers recover_runs

created : State Ledger
unfolding do_create_subscription_with_token
created = (do_create_subscription_with_token env token terms start).1

create_runs : do_create_subscription_with_token env token terms start ≡ (ok 1, created)
unfolding do_create_subscription_with_token created get set
create_runs = refl

do_create_subscription-Created_example : Created env token terms start 1 created
do_create_subscription-Created_example =
    do_create_subscription-Created env token terms start created 1 start-IsWellFormed create_runs
