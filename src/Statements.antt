-- ===== src/Statements.antt =====
-- contracts/subscription_vault/src/statements.rs: the rows that a charge appends; the children have
-- their pages and their compaction.
pub mod Rows
pub mod Pages
pub mod Compaction
use stellabill_contracts.Prelude.{
  ℕ, ℤ, pos, Bool, true, false, Option, ltb, leb_ℤ, ◌==◌, ◌&&◌, nat_eq, pair_eq, get, set,
  unwrap_or, checked_add_u32,
}
use stellabill_contracts.Types.Errors.{Error}
use stellabill_contracts.Types.Records.{Address, BillingStatement, BillingChargeKind}
use stellabill_contracts.Host.State.{State, Env}
use stellabill_contracts.Host.Calls.{Call, ◌>>=◌, ◌>>◌, gets, modify, fail_if, or_fail}

abbrev is_interval : BillingChargeKind → Bool
is_interval BillingChargeKind.interval = true
is_interval BillingChargeKind.usage = false
is_interval BillingChargeKind.one_off = false

module _ {L : Type 0} where
  unfoldable pub get_next_sequence : State L → ℕ → ℕ
  get_next_sequence s id = unwrap_or (get s.billing.statement_next id) 0

  unfoldable pub get_total_statements : State L → ℕ → ℕ
  get_total_statements s id = unwrap_or (get s.billing.statement_live id) 0

  put_statement : BillingStatement → State L → State L
  put_statement row s = record s {
    billing = record billing {
      statement_rows = set statement_rows (row.subscription_id, row.sequence) row;
    };
  }
    where
      open s use {billing}
      open billing use {statement_rows}

  set_counters : ℕ → ℕ → ℕ → State L → State L
  set_counters id next live s = record s {
    billing = record billing {
      statement_next = set statement_next id next;
      statement_live = set statement_live id live;
    };
  }
    where
      open s use {billing}
      open billing use {statement_next, statement_live}

module _ {L : Type 0} (env : Env L) where
  unfoldable pub append_statement : ℕ → ℤ → Address → BillingChargeKind → ℕ → ℕ → Call L (Unit {0})
  unfolding get_next_sequence get_total_statements put_statement set_counters checked_add_u32
  append_statement id amount merchant kind period_start period_end = do
    fail_if (ltb period_end period_start) Error.invalid_input
    fail_if (leb_ℤ amount (pos 0)) Error.invalid_amount
    fail_if (is_interval kind && period_start == period_end) Error.invalid_input
    next ← gets (λ s. get_next_sequence s id)
    live ← gets (λ s. get_total_statements s id)
    modify (
        put_statement (record {
          subscription_id = id;
          sequence = next;
          charged_at = env.timestamp;
          period_start = period_start;
          period_end = period_end;
          amount = amount;
          merchant = merchant;
          kind = kind;
        }))
    next_sequence ← or_fail (checked_add_u32 next 1) Error.overflow
    next_live ← or_fail (checked_add_u32 live 1) Error.overflow
    modify (set_counters id next_sequence next_live)
