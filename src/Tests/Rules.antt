-- ===== src/Tests/Rules.antt =====
-- Uses of the theorems on single components.
use stellabill_contracts.Prelude.{
  ℕ, pos, ◌≡◌, ◌↔◌, ◌⊎◌, inl, refl, ◌≤◌, ◌≤ℤ◌, ◌<ℤ◌, true, false, some, none, [], ◌∷◌, arith, get,
  ◌-ℤ◌, ◌+ℤ◌, max_i128, string_eq, ◌==◌, ◌||◌, set, remove, checked_add_u64, ap,
}
use stellabill_contracts.Types.Errors.{Error}
use stellabill_contracts.Types.Records.{
  SubscriptionStatus, BillingChargeKind, BillingPeriodSnapshot, status_eq,
}
use stellabill_contracts.Host.State.{State, Env}
use stellabill_contracts.Host.Calls.{Call, ok, err, guarded, lock, unlock, pure}
use stellabill_contracts.SafeMath.{safe_add, safe_sub_balance}
use stellabill_contracts.SafeMath.Bounds.{safe_add_exact, safe_sub_balance_exact}
use stellabill_contracts.StateMachine.{
  validate_status_transition, can_transition, get_allowed_transitions, one_of,
}
use stellabill_contracts.StateMachine.Transitions.{
  ◌⟶◌, here, step, validate_iff, can_transition-allowed, ended_stays,
}
use stellabill_contracts.Nonce.{
  get_nonce, check_and_advance, domain_batch_charge, domain_admin_rotation,
}
use stellabill_contracts.Nonce.Replay.{
  Trial, Trials, check_and_advance_iff, nonce_used_once, nonce_domains_apart,
}
use stellabill_contracts.Statements.{append_statement, get_next_sequence}
use stellabill_contracts.Statements.Rows.{Appended, statement_row, append_statement-Appended}
use stellabill_contracts.PeriodSnapshots.{get_period_snapshot, write_period_snapshot}
use stellabill_contracts.PeriodSnapshots.Closed.{closed_stays, write-get_period_snapshot}
use stellabill_contracts.Subscription.Lifecycle.{do_cancel_subscription, do_resume_subscription}
use stellabill_contracts.Subscription.Moves.{
  Moved, do_cancel_subscription-Moved, do_resume_subscription-Moved,
}
use stellabill_contracts.Vault.{
  get_emergency_stop, charge_subscription, deposit_funds, batch_charge, charge_one_off,
}
use stellabill_contracts.Subscription.Create.{Terms}
use stellabill_contracts.Vault.Entries.{
  charge_usage, charge_usage_with_reference, create_subscription, create_subscription_with_token,
  create_subscription_from_plan,
}
use stellabill_contracts.Vault.Guards.{emergency_stop_blocks, guarded-guarded, guarded-released}
use stellabill_contracts.Tests.Fixtures.{
  Ledger, env_at, subscription, start, vault_with, subscriber, merchant, admin,
}

abbrev env : Env Ledger
env = env_at 1_000_100

safe_add_exact_example : safe_add max_i128 (pos 1) ≡ err Error.overflow
unfolding ◌+ℤ◌
safe_add_exact_example =
    safe_add_exact max_i128 (pos 1) (omega arith, omega arith) (omega arith, omega arith)

safe_sub_balance_exact_example :
    (safe_sub_balance (pos 5) (pos 3) ≡ ok (pos 2))
    ↔ ((pos 0 ≤ℤ pos 3) × (pos 3 ≤ℤ pos 5) × (pos 2 ≡ pos 5 -ℤ pos 3))
safe_sub_balance_exact_example =
    safe_sub_balance_exact (pos 5) (pos 3) (pos 2) (omega arith, omega arith)
      (omega arith, omega arith)

validate_iff_example :
    (validate_status_transition SubscriptionStatus.paused SubscriptionStatus.active ≡ ok tt) ↔ (
      (SubscriptionStatus.paused ≡ SubscriptionStatus.active)
      ⊎ (SubscriptionStatus.paused ⟶ SubscriptionStatus.active))
validate_iff_example = validate_iff SubscriptionStatus.paused SubscriptionStatus.active

can_transition-allowed_example :
    can_transition SubscriptionStatus.expired SubscriptionStatus.active ≡ (
      SubscriptionStatus.expired == SubscriptionStatus.active
      || one_of SubscriptionStatus.active (get_allowed_transitions SubscriptionStatus.expired))
can_transition-allowed_example =
    can_transition-allowed SubscriptionStatus.expired SubscriptionStatus.active

ended_stays_example :
    (SubscriptionStatus.archived ≡ SubscriptionStatus.cancelled)
    ⊎ (SubscriptionStatus.archived ≡ SubscriptionStatus.archived)
unfolding validate_status_transition
ended_stays_example = ended_stays (step refl here) (inl refl)

consumed : State Ledger
unfolding check_and_advance
consumed = (check_and_advance env admin domain_batch_charge 0 start).1

consume_runs : check_and_advance env admin domain_batch_charge 0 start ≡ (ok tt, consumed)
unfolding check_and_advance consumed get set checked_add_u64
consume_runs = refl

check_and_advance_iff_example :
    ((check_and_advance env admin domain_batch_charge 7 start).0 ≡ ok tt)
    ↔ (7 ≡ get_nonce start admin domain_batch_charge)
unfolding get_nonce get
check_and_advance_iff_example =
    check_and_advance_iff env admin domain_batch_charge 7 start (omega arith)

consumed_twice : State Ledger
unfolding check_and_advance
consumed_twice = (check_and_advance env admin domain_batch_charge 1 consumed).1

nonce_used_once_example :
    check_and_advance (env_at 1_000_200) admin domain_batch_charge 0 consumed_twice
    ≡ (err Error.nonce_already_used, consumed_twice)
unfolding check_and_advance consumed_twice
nonce_used_once_example =
    nonce_used_once env (env_at 1_000_200) admin domain_batch_charge 0 start consumed consumed_twice
      consume_runs (Trials.then (Trial.attempt env admin domain_batch_charge 1) Trials.done)

nonce_domains_apart_example :
    get_nonce
      (check_and_advance env admin domain_batch_charge 0 start).1
      admin
      domain_admin_rotation
    ≡ get_nonce start admin domain_admin_rotation
nonce_domains_apart_example =
    nonce_domains_apart env admin admin domain_batch_charge domain_admin_rotation 0 start
      (λ e. omega (arith, ap (λ (p : ℕ × ℕ). p.1) e))

appended : State Ledger
unfolding append_statement
appended =
    (append_statement env 0 (pos 100) merchant BillingChargeKind.interval 1_000_000 1_003_600
      start).1

append_runs :
    append_statement env 0 (pos 100) merchant BillingChargeKind.interval 1_000_000 1_003_600 start
    ≡ (ok tt, appended)
unfolding append_statement appended get set
append_runs = refl

append_statement-Appended_example :
    (pos 0 <ℤ pos 100)
    × (1_000_000 ≤ 1_003_600)
    × Appended env 0
        (statement_row 0
          (get_next_sequence start 0)
          1_000_100
          1_000_000
          1_003_600
          (pos 100)
          merchant
          BillingChargeKind.interval)
        start
        appended
append_statement-Appended_example =
    append_statement-Appended env 0 (pos 100) merchant BillingChargeKind.interval 1_000_000
      1_003_600 start appended append_runs

abbrev snapshot : BillingPeriodSnapshot
snapshot = record {
  subscription_id = 0;
  period_index = 1;
  period_start = 1_000_000;
  period_end = 1_003_600;
  total_charged = pos 100;
  total_usage_units = pos 0;
  status_flags = 3;
  finalized_at = 1_003_600;
}

closed_once : State Ledger
unfolding write_period_snapshot
closed_once = (write_period_snapshot snapshot start).1

write_runs : write_period_snapshot snapshot start ≡ (ok tt, closed_once)
unfolding write_period_snapshot closed_once get set
write_runs = refl

write-get_period_snapshot_example : get_period_snapshot closed_once 0 1 ≡ some snapshot
write-get_period_snapshot_example = write-get_period_snapshot snapshot start closed_once write_runs

closed_stays_example :
    get_period_snapshot
      (write_period_snapshot (record snapshot { total_charged = pos 7 }) closed_once).1
      0
      1
    ≡ some snapshot
closed_stays_example =
    closed_stays (record snapshot { total_charged = pos 7 }) snapshot 0 1 closed_once
      (write-get_period_snapshot snapshot start closed_once write_runs) (λ e. omega (arith, e))

after_cancel : State Ledger
unfolding do_cancel_subscription
after_cancel = (do_cancel_subscription env 0 subscriber start).1

cancel_runs : do_cancel_subscription env 0 subscriber start ≡ (ok tt, after_cancel)
unfolding do_cancel_subscription after_cancel get set
cancel_runs = refl

do_cancel_subscription-Moved_example :
    Moved env 0 subscription SubscriptionStatus.cancelled start after_cancel
unfolding get
do_cancel_subscription-Moved_example =
    do_cancel_subscription-Moved env 0 subscriber start after_cancel subscription refl cancel_runs

abbrev on_hold : State Ledger
on_hold = vault_with (record subscription { status = SubscriptionStatus.paused })

resumed : State Ledger
unfolding do_resume_subscription
resumed = (do_resume_subscription env 0 subscriber on_hold).1

resume_runs : do_resume_subscription env 0 subscriber on_hold ≡ (ok tt, resumed)
unfolding do_resume_subscription resumed get set
resume_runs = refl

do_resume_subscription-Moved_example :
    Moved env 0
      (record subscription { status = SubscriptionStatus.paused })
      SubscriptionStatus.active
      on_hold
      resumed
unfolding get
do_resume_subscription-Moved_example =
    do_resume_subscription-Moved env 0 subscriber on_hold resumed
      (record subscription { status = SubscriptionStatus.paused }) refl resume_runs

abbrev stopped : State Ledger
stopped = record start { admin_store = record start.admin_store { emergency_stop = some true } }

abbrev terms : Terms
terms = record {
  subscriber = subscriber;
  merchant = merchant;
  amount = pos 20;
  interval_seconds = 86_400;
  usage_enabled = false;
  lifetime_cap = none;
  expires_at = none;
}

emergency_stop_blocks_example :
    (charge_subscription env 0 stopped ≡ (err Error.emergency_stop_active, stopped))
    × (deposit_funds env 0 subscriber (pos 60) stopped ≡ (err Error.emergency_stop_active, stopped))
    × (charge_one_off env 0 subscriber (pos 60) stopped
        ≡ (err Error.emergency_stop_active, stopped))
    × (batch_charge env (0 ∷ []) 0 stopped ≡ (err Error.emergency_stop_active, stopped))
    × (charge_usage env 0 (pos 60) stopped ≡ (err Error.emergency_stop_active, stopped))
    × (charge_usage_with_reference env 0 (pos 60) "march" stopped
        ≡ (err Error.emergency_stop_active, stopped))
    × (create_subscription env terms stopped ≡ (err Error.emergency_stop_active, stopped))
    × (create_subscription_with_token env subscriber terms stopped
        ≡ (err Error.emergency_stop_active, stopped))
    × (create_subscription_from_plan env subscriber 0 stopped
        ≡ (err Error.emergency_stop_active, stopped))
unfolding get_emergency_stop
emergency_stop_blocks_example =
    emergency_stop_blocks env stopped 0 subscriber (pos 60) (0 ∷ []) 0 "march" terms 0 refl

abbrev answer : Call Ledger ℕ
answer = pure 42

guarded-guarded_example :
    (guarded "deposit_funds" (guarded "deposit_funds" answer) start).0 ≡ err Error.reentrancy
guarded-guarded_example = guarded-guarded "deposit_funds" answer start

released : State Ledger
unfolding guarded
released = (guarded "deposit_funds" answer start).1

guarded_runs : guarded "deposit_funds" answer start ≡ (ok 42, released)
unfolding guarded released lock unlock get set remove
guarded_runs = refl

guarded-released_example : get released.locks "deposit_funds" ≡ none
guarded-released_example = guarded-released "deposit_funds" answer start released guarded_runs
