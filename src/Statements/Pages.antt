-- ===== src/Statements/Pages.antt =====
-- The pages of statements.rs: by offset and by cursor, newest or oldest row first.
pub mod Reference
pub mod Offset
pub mod Cursor
pub mod Walk
use stellabill_contracts.Prelude.{
  ℕ, zero, suc, ◌+◌, ◌-◌, Bool, true, false, Option, none, some, List, [], ◌∷◌, ◌++◌, ◌==◌, ◌||◌,
  nat_eq, pair_eq, get, ltb, leb, unwrap_or, if◌then◌else◌, saturating_sub_u64,
}
use stellabill_contracts.Types.Errors.{Error}
use stellabill_contracts.Types.Records.{BillingStatement, BillingStatementsPage}
use stellabill_contracts.Host.State.{State}
use stellabill_contracts.Host.Calls.{Call, ◌>>=◌, ◌>>◌, pure, gets, fail_if}
use stellabill_contracts.Statements.{get_next_sequence, get_total_statements}

-- What a loop has found: the rows, and the cursor of the next page.
pub record Found : Type 0 where
  pub statements : List BillingStatement
  pub cursor : Option ℕ

abbrev nothing_more : List BillingStatement → Found
nothing_more out = record { statements = out; cursor = none }

-- The loop that goes down: `n` numbers are left, `floor + n - 1` down to `floor`.
unfoldable pub newest_rows :
    (ℕ → Option BillingStatement)
    → (offset limit floor n skipped taken : ℕ) → List BillingStatement
    → Found
newest_rows row offset limit floor zero skipped taken out = nothing_more out
newest_rows row offset limit floor (suc n) skipped taken out = elim (row (floor + n)) [
  | none ↦ newest_rows row offset limit floor n skipped taken out
  | some r ↦ elim (ltb skipped offset) [
    | true ↦ newest_rows row offset limit floor n (suc skipped) taken out
    | false ↦ elim (leb limit (suc taken)) [
      | true ↦ record {
        statements = out ++ r ∷ [];
        cursor = if ltb 0 n then some (floor + n - 1) else none;
      }
      | false ↦ newest_rows row offset limit floor n skipped (suc taken) (out ++ r ∷ [])
    ]
  ]
]

-- The loop that goes up: `n` numbers are left, from `seq` on.
unfoldable pub oldest_rows :
    (ℕ → Option BillingStatement)
    → (offset limit n seq skipped taken : ℕ) → List BillingStatement
    → Found
oldest_rows row offset limit zero seq skipped taken out = nothing_more out
oldest_rows row offset limit (suc n) seq skipped taken out = elim (row seq) [
  | none ↦ oldest_rows row offset limit n (suc seq) skipped taken out
  | some r ↦ elim (ltb skipped offset) [
    | true ↦ oldest_rows row offset limit n (suc seq) (suc skipped) taken out
    | false ↦ elim (leb limit (suc taken)) [
      | true ↦ record {
        statements = out ++ r ∷ [];
        cursor = if ltb 0 n then some (suc seq) else none;
      }
      | false ↦ oldest_rows row offset limit n (suc seq) skipped (suc taken) (out ++ r ∷ [])
    ]
  ]
]

abbrev page_of : Found → ℕ → BillingStatementsPage
page_of found total = record {
  statements = found.statements;
  next_cursor = found.cursor;
  total = total;
}

abbrev empty_page : ℕ → BillingStatementsPage
empty_page total = record { statements = []; next_cursor = none; total = total }

module _ {L : Type 0} where
  abbrev pub row_at : State L → ℕ → ℕ → Option BillingStatement
  row_at s id seq = get s.billing.statement_rows (id, seq)

  unfoldable pub offset_rows : State L → (id offset limit : ℕ) → Bool → Found
  unfolding get_next_sequence get_total_statements newest_rows oldest_rows
  offset_rows s id offset limit newest_first =
      let next = get_next_sequence s id in
      let start = saturating_sub_u64 next (get_total_statements s id) in
      if newest_first
      then newest_rows (row_at s id) offset limit 0 next 0 0 []
      else oldest_rows (row_at s id) offset limit (next - start) start 0 0 []

  unfoldable pub get_statements_by_subscription_offset :
      (id offset limit : ℕ) → Bool → Call L BillingStatementsPage
  unfolding get_total_statements offset_rows
  get_statements_by_subscription_offset id offset limit newest_first = do
    fail_if (limit == 0) Error.invalid_input
    total ← gets (λ s. get_total_statements s id)
    found ← gets (λ s. offset_rows s id offset limit newest_first)
    pure (if total == 0 || leb total offset then empty_page total else page_of found total)

  -- The loops by cursor skip no row and stop at the first live number.
  unfoldable pub cursor_rows : State L → (id start limit : ℕ) → Bool → Found
  unfolding get_next_sequence get_total_statements newest_rows oldest_rows
  cursor_rows s id start limit newest_first =
      let next = get_next_sequence s id in
      let min_seq = saturating_sub_u64 next (get_total_statements s id) in
      if newest_first
      then newest_rows (row_at s id) 0 limit min_seq (suc (start - min_seq)) 0 0 []
      else oldest_rows (row_at s id) 0 limit (next - start) start 0 0 []

  -- Where the cursor stands, or the end that the direction starts from.
  unfoldable pub page_start : State L → ℕ → Option ℕ → Bool → ℕ
  unfolding get_next_sequence get_total_statements
  page_start s id cursor newest_first =
      let next = get_next_sequence s id in
      unwrap_or cursor
        (if newest_first then next - 1 else saturating_sub_u64 next (get_total_statements s id))

  unfoldable pub is_outside : State L → (id start : ℕ) → Bool
  unfolding get_next_sequence get_total_statements
  is_outside s id start =
      let next = get_next_sequence s id in
      ltb (next - 1) start || ltb start (saturating_sub_u64 next (get_total_statements s id))

  unfoldable pub get_statements_by_subscription_cursor :
      (id : ℕ) → Option ℕ → (limit : ℕ) → Bool → Call L BillingStatementsPage
  unfolding get_total_statements get_next_sequence page_start is_outside cursor_rows
  get_statements_by_subscription_cursor id cursor limit newest_first = do
    fail_if (limit == 0) Error.invalid_input
    total ← gets (λ s. get_total_statements s id)
    next ← gets (λ s. get_next_sequence s id)
    start ← gets (λ s. page_start s id cursor newest_first)
    outside ← gets (λ s. is_outside s id start)
    found ← gets (λ s. cursor_rows s id start limit newest_first)
    pure (if total == 0 || next == 0 || outside then empty_page total else page_of found total)
