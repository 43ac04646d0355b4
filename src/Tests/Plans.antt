-- ===== src/Tests/Plans.antt =====
-- Subscriptions made from plans and moved between them, and the blocklist.
use stellabill_contracts.Prelude.{◌≤◌, pos, ◌≡◌, refl, none, some, ◌∷◌, [], false, nat_eq, get, set}
use stellabill_contracts.Types.Records.{PlanTemplate}
use stellabill_contracts.Host.State.{State, Env}
use stellabill_contracts.Host.Calls.{ok}
use stellabill_contracts.Subscription.Plans.Calls.{
  do_create_subscription_from_plan, do_migrate_subscription_to_plan,
}
use stellabill_contracts.Subscription.Plans.Active.{
  active_on_plan, do_create_subscription_from_plan-limited,
}
use stellabill_contracts.Subscription.Plans.Migration.{
  Migrated, do_migrate_subscription_to_plan-Migrated,
}
use stellabill_contracts.Blocklist.Calls.{do_add_to_blocklist}
use stellabill_contracts.Blocklist.Rights.{Blocked, do_add_to_blocklist-Blocked}
use stellabill_contracts.Tests.Fixtures.{Ledger, env_at, start, subscriber, merchant, token}

abbrev env : Env Ledger
env = env_at 1_000_100

abbrev basic : PlanTemplate
basic = record {
  merchant = merchant;
  token = token;
  amount = pos 20;
  interval_seconds = 86_400;
  usage_enabled = false;
  lifetime_cap = some (pos 200);
  template_key = 0;
  version = 1;
  is_disabled = false;
}

-- Two versions of a plan, of which a subscriber may hold two.
abbrev planned : State Ledger
planned = record start {
  subscriptions = record start.subscriptions {
    plans =
        (0, basic) ∷ (1, record basic { amount = pos 25; version = 2; lifetime_cap = none }) ∷ [];
    plan_max_active = (0, 2) ∷ [];
    next_plan_id = some 2;
  };
}

joined : State Ledger
unfolding do_create_subscription_from_plan
joined = (do_create_subscription_from_plan env subscriber 0 planned).1

join_runs : do_create_subscription_from_plan env subscriber 0 planned ≡ (ok 1, joined)
unfolding do_create_subscription_from_plan joined get set
join_runs = refl

do_create_subscription_from_plan-limited_example : active_on_plan joined subscriber 0 ≤ 2
unfolding get
do_create_subscription_from_plan-limited_example =
    do_create_subscription_from_plan-limited env subscriber 0 1 1 planned joined refl join_runs

moved : State Ledger
unfolding do_migrate_subscription_to_plan
moved = (do_migrate_subscription_to_plan env subscriber 1 1 joined).1

move_runs : do_migrate_subscription_to_plan env subscriber 1 1 joined ≡ (ok tt, moved)
unfolding do_create_subscription_from_plan do_migrate_subscription_to_plan joined moved get set
move_runs = refl

do_migrate_subscription_to_plan-Migrated_example : Migrated 1 1 joined moved
do_migrate_subscription_to_plan-Migrated_example =
    do_migrate_subscription_to_plan-Migrated env subscriber 1 1 joined moved move_runs

blocked : State Ledger
unfolding do_add_to_blocklist
blocked = (do_add_to_blocklist env merchant subscriber none start).1

block_runs : do_add_to_blocklist env merchant subscriber none start ≡ (ok tt, blocked)
unfolding do_add_to_blocklist blocked get set
block_runs = refl

do_add_to_blocklist-Blocked_example : Blocked merchant subscriber start blocked
do_add_to_blocklist-Blocked_example =
    do_add_to_blocklist-Blocked env merchant subscriber none start blocked block_runs
