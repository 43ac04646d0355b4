-- ===== src/Statements/Compaction.antt =====
-- `compact_subscription_statements` of statements.rs: the oldest rows give way to an aggregate.
pub mod Conserved
use stellabill_contracts.Prelude.{
  ℕ, zero, suc, ◌+◌, ◌-◌, ℤ, pos, Bool, true, false, Option, none, some, not, ◌==◌, ◌||◌, nat_eq,
  pair_eq, get, set, remove, ltb, leb, beq_ℤ, unwrap_or, if◌then◌else◌, checked_add_u32, max_u32,
}
use stellabill_contracts.Types.Errors.{Error}
use stellabill_contracts.Types.Records.{
  BillingStatement, BillingStatementAggregate, BillingCompactionSummary, BillingChargeKind,
  AccruedTotals,
}
use stellabill_contracts.Host.State.{State}
use stellabill_contracts.Host.Calls.{
  Call, Result, ok, err, ◌>>=◌, ◌>>◌, pure, gets, modify, fail_if, or_fail, lift,
}
use stellabill_contracts.SafeMath.{safe_add, on_ok}
use stellabill_contracts.Statements.{get_next_sequence, get_total_statements}

-- The running values of the loop.
pub record Pruning : Type 0 where
  pub removed : ℕ
  pub amount : ℤ
  pub totals : AccruedTotals
  pub oldest : Option ℕ
  pub newest : Option ℕ

abbrev pub no_totals : AccruedTotals
no_totals = record { interval = pos 0; usage = pos 0; one_off = pos 0 }

abbrev pub no_pruning : Pruning
no_pruning = record {
  removed = 0;
  amount = pos 0;
  totals = no_totals;
  oldest = none;
  newest = none;
}

abbrev pub earlier : Option ℕ → ℕ → Option ℕ
earlier none b = some b
earlier (some a) b = some (if leb a b then a else b)

abbrev pub later : Option ℕ → ℕ → Option ℕ
later none b = some b
later (some a) b = some (if leb b a then a else b)

-- The two matches on the aggregate's time and the run's.
abbrev pub earlier_of : Option ℕ → Option ℕ → Option ℕ
earlier_of a none = a
earlier_of a (some b) = earlier a b

abbrev pub later_of : Option ℕ → Option ℕ → Option ℕ
later_of a none = a
later_of a (some b) = later a b

unfoldable pub add_to_kind : BillingChargeKind → ℤ → AccruedTotals → Result AccruedTotals
unfolding safe_add
add_to_kind BillingChargeKind.interval amount totals =
    on_ok (safe_add totals.interval amount) λ sum. ok (record totals { interval = sum })
add_to_kind BillingChargeKind.usage amount totals =
    on_ok (safe_add totals.usage amount) λ sum. ok (record totals { usage = sum })
add_to_kind BillingChargeKind.one_off amount totals =
    on_ok (safe_add totals.one_off amount) λ sum. ok (record totals { one_off = sum })

unfoldable pub sum_of_kinds : AccruedTotals → Result ℤ
unfolding safe_add
sum_of_kinds totals =
    on_ok (safe_add totals.interval totals.usage) λ sum. safe_add sum totals.one_off

unfoldable pub add_totals : AccruedTotals → AccruedTotals → Result AccruedTotals
unfolding safe_add
add_totals old new = on_ok (safe_add old.interval new.interval) λ interval.
    on_ok (safe_add old.usage new.usage) λ usage.
      on_ok (safe_add old.one_off new.one_off)
        λ one_off. ok (record { interval = interval; usage = usage; one_off = one_off })

-- The aggregate with the rows of a run.
unfoldable pub extend_aggregate :
    BillingStatementAggregate → Pruning → Result BillingStatementAggregate
unfolding safe_add add_totals checked_add_u32
extend_aggregate aggregate run = elim (checked_add_u32 aggregate.pruned_count run.removed) [
  | none ↦ err Error.overflow
  | some pruned_count ↦ on_ok (safe_add aggregate.total_amount run.amount) λ total_amount.
      on_ok (add_totals aggregate.totals run.totals) λ totals. ok (record {
        pruned_count = pruned_count;
        total_amount = total_amount;
        totals = totals;
        oldest_period_start = earlier_of aggregate.oldest_period_start run.oldest;
        newest_period_end = later_of aggregate.newest_period_end run.newest;
      })
]

module _ {L : Type 0} where
  unfoldable pub set_retention_config : ℕ → State L → State L
  set_retention_config keep_recent s = record s {
    billing = record billing { retention = some keep_recent };
  }
    where
      open s use {billing}

  -- `u32::MAX` stands for no pruning.
  unfoldable pub get_retention_config : State L → ℕ
  get_retention_config s = unwrap_or s.billing.retention max_u32

  unfoldable pub get_compacted_aggregate : State L → ℕ → BillingStatementAggregate
  get_compacted_aggregate s id = unwrap_or (get s.billing.aggregates id) (record {
    pruned_count = 0;
    total_amount = pos 0;
    totals = no_totals;
    oldest_period_start = none;
    newest_period_end = none;
  })

  unfoldable pub remove_row : ℕ → ℕ → State L → State L
  remove_row id seq s = record s {
    billing = record billing { statement_rows = remove statement_rows (id, seq) };
  }
    where
      open s use {billing}
      open billing use {statement_rows}

  unfoldable pub set_aggregate : ℕ → BillingStatementAggregate → State L → State L
  set_aggregate id aggregate s = record s {
    billing = record billing { aggregates = set aggregates id aggregate };
  }
    where
      open s use {billing}
      open billing use {aggregates}

  unfoldable pub set_live_count : ℕ → ℕ → State L → State L
  set_live_count id live s = record s {
    billing = record billing { statement_live = set statement_live id live };
  }
    where
      open s use {billing}
      open billing use {statement_live}

  -- One round of the loop, at the row that stands under the number, if any.
  unfoldable pub prune_row : ℕ → ℕ → Option BillingStatement → Pruning → Call L Pruning
  unfolding safe_add add_to_kind remove_row
  prune_row id seq none run = pure run
  prune_row id seq (some row) run = do
    amount ← lift (safe_add run.amount row.amount)
    totals ← lift (add_to_kind row.kind row.amount run.totals)
    modify (remove_row id seq)
    pure (record {
      removed = suc run.removed;
      amount = amount;
      totals = totals;
      oldest = earlier run.oldest row.period_start;
      newest = later run.newest row.period_end;
    })

  -- The loop: `n` numbers are left, from `seq` on.
  unfoldable pub prune_rows : (n id seq target : ℕ) → Pruning → Call L Pruning
  unfolding prune_row
  prune_rows zero id seq target run = pure run
  prune_rows (suc n) id seq target run = elim (ltb run.removed target) [
    | false ↦ pure run
    | true ↦ do
      row ← gets (λ s. get s.billing.statement_rows (id, seq))
      next_run ← prune_row id seq row run
      prune_rows n id (suc seq) target next_run
  ]

  -- From the loop on.
  unfoldable pub compact_oldest : (id next live target : ℕ) → Call L BillingCompactionSummary
  unfolding prune_rows sum_of_kinds get_compacted_aggregate extend_aggregate set_aggregate
      set_live_count
  compact_oldest id next live target = do
    run ← prune_rows (next - (next - live)) id (next - live) target no_pruning
    sum ← lift (sum_of_kinds run.totals)
    fail_if (not (beq_ℤ run.amount sum)) Error.underflow
    aggregate ← gets (λ s. get_compacted_aggregate s id)
    extended ← lift (extend_aggregate aggregate run)
    modify (set_aggregate id extended)
    modify (set_live_count id (live - run.removed))
    pure (record {
      subscription_id = id;
      pruned_count = run.removed;
      kept_count = live - run.removed;
      total_pruned_amount = run.amount;
    })

  -- `safe_sub(live, keep_recent)` cannot fail below, where the live rows are more.
  unfoldable pub compact_subscription_statements : ℕ → Option ℕ → Call L BillingCompactionSummary
  unfolding get_retention_config get_next_sequence get_total_statements compact_oldest
  compact_subscription_statements id keep_recent_override = do
    retention ← gets get_retention_config
    let keep_recent = unwrap_or keep_recent_override retention
    next ← gets (λ s. get_next_sequence s id)
    live ← gets (λ s. get_total_statements s id)
    if leb live keep_recent || live == 0
        then pure (record {
          subscription_id = id;
          pruned_count = 0;
          kept_count = live;
          total_pruned_amount = pos 0;
        })
        else compact_oldest id next live (live - keep_recent)
