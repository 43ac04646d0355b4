-- ===== src/Tests/Usage.antt =====
-- Charges for metered use of the fixture's subscription.
use stellabill_contracts.Prelude.{
  pos, ◌≡◌, refl, true, some, ◌⊎◌, ◌∷◌, [], nat_eq, pair_eq, string_eq, get, set, remove, ◌-ℤ◌,
  ◌+ℤ◌, saturating_add,
}
use stellabill_contracts.Types.Records.{Subscription, UsageLimits, UsageChargeResult}
use stellabill_contracts.Types.Events.{usage_charge_rejected}
use stellabill_contracts.Host.State.{State, Env}
use stellabill_contracts.Host.Calls.{ok, lock, unlock}
use stellabill_contracts.Merchant.{credit_merchant_balance_for_token}
use stellabill_contracts.Statements.{append_statement}
use stellabill_contracts.ChargeCore.Usage.{charge_usage_one}
use stellabill_contracts.ChargeCore.Usage.References.{reference_paid_once}
use stellabill_contracts.ChargeCore.Usage.Refused.{charge_usage_one-refused}
use stellabill_contracts.Vault.Entries.{charge_usage}
use stellabill_contracts.Vault.Usage.{charge_usage_paid_once}
use stellabill_contracts.Tests.Fixtures.{Ledger, env_at, subscription, vault_with, merchant, token}

abbrev env : Env Ledger
env = env_at 1_000_100

abbrev later : Env Ledger
later = env_at 1_000_200

abbrev metered : Subscription
metered = record subscription { usage_enabled = true }

abbrev limits : UsageLimits
limits = record {
  rate_limit_max_calls = some 5;
  rate_window_secs = 600;
  burst_min_interval_secs = 10;
  usage_cap_units = some (pos 120);
}

abbrev start : State Ledger
start =
    let s = vault_with metered in
    record s { billing = record s.billing { usage_limits = (0, limits) ∷ [] } }

used : State Ledger
unfolding charge_usage_one
used = (charge_usage_one env 0 (pos 30) "march" start).1

usage_runs : charge_usage_one env 0 (pos 30) "march" start ≡ (ok UsageChargeResult.charged, used)
unfolding charge_usage_one used get set ◌-ℤ◌ ◌+ℤ◌ saturating_add credit_merchant_balance_for_token
    append_statement
usage_runs = refl

replayed : State Ledger
unfolding charge_usage_one
replayed = (charge_usage_one later 0 (pos 20) "march" used).1

replay_runs :
    charge_usage_one later 0 (pos 20) "march" used ≡ (ok UsageChargeResult.replay, replayed)
unfolding charge_usage_one used replayed get set ◌-ℤ◌ ◌+ℤ◌ saturating_add
    credit_merchant_balance_for_token append_statement
replay_runs = refl

stored_runs :
    get used.subscriptions.subs 0
    ≡ some (record metered { prepaid_balance = pos 220; lifetime_charged = pos 30 })
unfolding charge_usage_one used get set ◌-ℤ◌ ◌+ℤ◌ saturating_add credit_merchant_balance_for_token
    append_statement
stored_runs = refl

reference_paid_once_example :
    (used.merchants ≡ start.merchants) ⊎ (replayed.merchants ≡ used.merchants)
reference_paid_once_example =
    reference_paid_once env later 0 (pos 30) (pos 20) "march" start used replayed
      UsageChargeResult.charged UsageChargeResult.replay usage_runs replay_runs

charge_usage_one-refused_example : replayed ≡ record used {
  events =
      usage_charge_rejected 0 merchant token (pos 20) 1_000_200 "march" UsageChargeResult.replay
      ∷ used.events;
}
charge_usage_one-refused_example =
    charge_usage_one-refused later 0 (pos 20) "march" used replayed
      (record metered { prepaid_balance = pos 220; lifetime_charged = pos 30 })
      UsageChargeResult.replay stored_runs (λ e. cc) replay_runs

entered : State Ledger
unfolding charge_usage
entered = (charge_usage env 0 (pos 30) start).1

entry_runs : charge_usage env 0 (pos 30) start ≡ (ok UsageChargeResult.charged, entered)
unfolding charge_usage lock unlock charge_usage_one entered get set ◌-ℤ◌ ◌+ℤ◌ saturating_add
    credit_merchant_balance_for_token append_statement
entry_runs = refl

entered_again : State Ledger
unfolding charge_usage
entered_again = (charge_usage later 0 (pos 45) entered).1

second_entry_runs :
    charge_usage later 0 (pos 45) entered ≡ (ok UsageChargeResult.replay, entered_again)
unfolding charge_usage lock unlock charge_usage_one entered entered_again get set remove ◌-ℤ◌ ◌+ℤ◌
    saturating_add credit_merchant_balance_for_token append_statement
second_entry_runs = refl

charge_usage_paid_once_example :
    (entered.merchants ≡ start.merchants) ⊎ (entered_again.merchants ≡ entered.merchants)
charge_usage_paid_once_example =
    charge_usage_paid_once env later 0 (pos 30) (pos 45) start entered entered_again
      UsageChargeResult.charged UsageChargeResult.replay entry_runs second_entry_runs
