-- ===== src/Tests/Pages.antt =====
-- Statements read page by page and compacted, and the listing of subscriptions.
use stellabill_contracts.Prelude.{
  ℕ, ◌-◌, pos, ◌≡◌, refl, none, some, ◌∷◌, [], true, arith, nat_eq, pair_eq, get, set, remove, ◌+ℤ◌,
  take, drop, unwrap_or,
}
use stellabill_contracts.Types.Records.{
  BillingStatement, BillingStatementsPage, BillingCompactionSummary, BillingChargeKind,
}
use stellabill_contracts.Host.State.{State}
use stellabill_contracts.Host.Calls.{ok}
use stellabill_contracts.Statements.{get_next_sequence, get_total_statements}
use stellabill_contracts.Statements.Pages.{get_statements_by_subscription_offset}
use stellabill_contracts.Statements.Pages.Offset.{
  listed_rows, get_statements_by_subscription_offset-page,
}
use stellabill_contracts.Statements.Pages.Reference.{live_rows}
use stellabill_contracts.Statements.Pages.Walk.{read_all, read_all_complete}
use stellabill_contracts.Statements.Compaction.{
  get_retention_config, compact_subscription_statements,
}
use stellabill_contracts.Statements.Compaction.Conserved.{
  Compacted, compact_subscription_statements-Compacted,
}
use stellabill_contracts.Queries.Pages.{owned, list_all, list_all_complete}
use stellabill_contracts.Tests.Fixtures.{Ledger, start, subscriber, merchant}

abbrev row : ℕ → BillingStatement
row n = record {
  subscription_id = 0;
  sequence = n;
  charged_at = n;
  period_start = n;
  period_end = n;
  amount = pos 10;
  merchant = merchant;
  kind = BillingChargeKind.interval;
}

-- Three statements of subscription 0.
abbrev billed : State Ledger
billed = record start {
  billing = record start.billing {
    statement_next = (0, 3) ∷ [];
    statement_live = (0, 3) ∷ [];
    statement_rows = ((0, 0), row 0) ∷ ((0, 1), row 1) ∷ ((0, 2), row 2) ∷ [];
  };
}

abbrev second_page : BillingStatementsPage
second_page = record { statements = row 0 ∷ []; next_cursor = none; total = 3 }

page_runs : get_statements_by_subscription_offset 0 2 2 true billed ≡ (ok second_page, billed)
unfolding get_statements_by_subscription_offset get_next_sequence get_total_statements get
page_runs = refl

get_statements_by_subscription_offset-page_example :
    (billed ≡ billed) × (row 0 ∷ [] ≡ take 2 (drop 2 (listed_rows billed 0 true)))
unfolding get_total_statements get
get_statements_by_subscription_offset-page_example =
    get_statements_by_subscription_offset-page billed billed 0 2 2 true second_page (omega arith)
      page_runs

read_all_complete_example : read_all billed 0 2 true 3 ≡ live_rows billed 0 true
unfolding get_total_statements get
read_all_complete_example = read_all_complete billed 0 2 true 3 (omega arith) (omega arith)

abbrev summary : BillingCompactionSummary
summary = record {
  subscription_id = 0;
  pruned_count = 2;
  kept_count = 1;
  total_pruned_amount = pos 20;
}

compacted : State Ledger
unfolding compact_subscription_statements
compacted = (compact_subscription_statements 0 (some 1) billed).1

compact_runs : compact_subscription_statements 0 (some 1) billed ≡ (ok summary, compacted)
unfolding compact_subscription_statements compacted get_next_sequence get_total_statements
    get_retention_config get set remove ◌+ℤ◌
compact_runs = refl

compact_subscription_statements-Compacted_example :
    Compacted 0
      (unwrap_or (some 1) (get_retention_config billed))
      (get_next_sequence billed 0 - (get_next_sequence billed 0 - get_total_statements billed 0))
      (get_next_sequence billed 0 - get_total_statements billed 0)
      billed
      summary
      compacted
compact_subscription_statements-Compacted_example =
    compact_subscription_statements-Compacted 0 (some 1) billed compacted summary compact_runs

list_all_complete_example :
    list_all start subscriber 1 2 0 ≡ owned start.subscriptions.subs subscriber 1 0
list_all_complete_example =
    list_all_complete start subscriber 1 2 0 refl (omega arith) (omega arith) (omega arith)
