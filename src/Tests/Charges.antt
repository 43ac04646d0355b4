-- ===== src/Tests/Charges.antt =====
-- Charges of the fixture's subscription.
use stellabill_contracts.Prelude.{
  ℕ, ◌+◌, pos, Option, unwrap_or, ap, checked_sub, ◌≡◌, ◌≢◌, refl, none, some, arith, nat_eq,
  pair_eq, get, set, ◌-ℤ◌, ◌+ℤ◌, ◌*ℤ◌, wrap_i128, quot,
}
use stellabill_contracts.Types.Records.{Subscription, ChargeExecutionResult}
use stellabill_contracts.Subscription.Funds.{do_deposit_funds}
use stellabill_contracts.Host.State.{State}
use stellabill_contracts.Host.Calls.{ok}
use stellabill_contracts.Merchant.{credit_merchant_balance_for_token}
use stellabill_contracts.Statements.{append_statement}
use stellabill_contracts.PeriodSnapshots.{write_period_snapshot}
use stellabill_contracts.Admin.{get_protocol_fee_bps}
use stellabill_contracts.ChargeCore.Period.{period_index_at, split_fee}
use stellabill_contracts.ChargeCore.Fees.{IsSplit, split_fee-IsSplit}
use stellabill_contracts.ChargeCore.Interval.{charge_one}
use stellabill_contracts.ChargeCore.Interval.Conserved.{Conserved}
use stellabill_contracts.ChargeCore.Interval.Conservation.{charge_one-Conserved}
use stellabill_contracts.ChargeCore.Interval.Once.{IsOnSchedule, charged_once}
use stellabill_contracts.Subscription.OneOff.{do_charge_one_off}
use stellabill_contracts.Solvency.Charges.{do_charge_one_off-Conserved}
use stellabill_contracts.Tests.Fixtures.{
  Ledger, env_at, subscription, start, subscriber, merchant, treasury,
}

abbrev pub due : ℕ
due = 1_003_700

pub charged : State Ledger
unfolding charge_one
charged = (charge_one (env_at due) 0 due none start).1

pub charge_one_runs :
    charge_one (env_at due) 0 due none start ≡ (ok ChargeExecutionResult.charged, charged)
unfolding charge_one charged get ◌-ℤ◌ credit_merchant_balance_for_token wrap_i128 quot ◌*ℤ◌ ◌+ℤ◌ set
    append_statement write_period_snapshot
charge_one_runs = refl

charge_one-Conserved_example : Conserved start charged
unfolding get_protocol_fee_bps get
charge_one-Conserved_example =
    charge_one-Conserved (env_at due) 0 due none start charged subscription refl (omega arith)
      (omega arith) charge_one_runs

-- A deposit between two charges.
topped_up : State Ledger
unfolding do_deposit_funds
topped_up = (do_deposit_funds (env_at due) 0 subscriber (pos 50) charged).1

topped_up-IsOnSchedule : IsOnSchedule 0 charged topped_up
unfolding topped_up charged do_deposit_funds charge_one get ◌-ℤ◌ credit_merchant_balance_for_token
    wrap_i128 quot ◌*ℤ◌ ◌+ℤ◌ set append_statement write_period_snapshot checked_sub
topped_up-IsOnSchedule = record {
  period = refl;
  schedule = λ old e. (
    record old { prepaid_balance = pos 200 },
    ap
        (λ (o : Option Subscription).
          some (record (unwrap_or o subscription) { prepaid_balance = pos 200 }))
        e,
    refl,
    refl,
  );
}

charged_once_example :
    charge_one (env_at (due + 60)) 0 (due + 60) none topped_up
    ≢ (ok ChargeExecutionResult.charged, topped_up)
unfolding period_index_at get
charged_once_example =
    charged_once (env_at due) (env_at (due + 60)) 0 due (due + 60) 1 1 start charged topped_up
      topped_up subscription refl refl refl (omega arith) charge_one_runs topped_up-IsOnSchedule

pub one_off : State Ledger
unfolding do_charge_one_off
one_off = (do_charge_one_off (env_at due) 0 merchant (pos 30) start).1

pub one_off_runs : do_charge_one_off (env_at due) 0 merchant (pos 30) start ≡ (ok tt, one_off)
unfolding do_charge_one_off one_off get ◌-ℤ◌ ◌+ℤ◌ set credit_merchant_balance_for_token
    append_statement
one_off_runs = refl

do_charge_one_off-Conserved_example : Conserved start one_off
do_charge_one_off-Conserved_example =
    do_charge_one_off-Conserved (env_at due) 0 merchant (pos 30) start one_off one_off_runs

split_fee-IsSplit_example :
    IsSplit (pos 10_050) (some treasury) (split_fee (pos 10_050) 250 (some treasury))
split_fee-IsSplit_example =
    split_fee-IsSplit (pos 10_050) 250 (some treasury) (omega arith) (omega arith) (omega arith)
