-- ===== src/Statements/Pages/Offset.antt =====
-- `get_statements_by_subscription_offset` of statements.rs.
use stellabill_contracts.Prelude.{
  ℕ, ◌-◌, ◌<◌, ◌≡◌, refl, arith, Bool, true, false, List, [], take, drop, if◌then◌else◌, nat_eq,
  ◌∙◌, pair_eq,
}
use stellabill_contracts.Types.Records.{BillingStatement, BillingStatementsPage}
use stellabill_contracts.Host.State.{State}
use stellabill_contracts.Host.Calls.{ok}
use stellabill_contracts.Statements.{get_next_sequence, get_total_statements}
use stellabill_contracts.Statements.Pages.{
  row_at, offset_rows, get_statements_by_subscription_offset,
}
use stellabill_contracts.Statements.Pages.Reference.{
  rows_down, rows_up, page, newest_rows-page, oldest_rows-page,
}

page-start :
    (offset limit : ℕ) (rows : List BillingStatement)
    → page offset limit 0 0 [] rows ≡ take limit (drop offset rows)
page-start offset limit rows =
    let e : offset - 0 ≡ offset = omega arith in
    let f : limit - 0 ≡ limit = omega arith in rw (e, f) refl

-- The rows that an offset page pages through. Downwards the source does not stop at the first live
-- number, so the rows are those of every number below the next one.
module _ {L : Type 0} where
  unfoldable pub listed_rows : State L → ℕ → Bool → List BillingStatement
  unfolding rows_down rows_up
  listed_rows s id newest_first =
      let next = get_next_sequence s id in
      let start = next - get_total_statements s id in
      if newest_first
      then rows_down (row_at s id) 0 next
      else rows_up (row_at s id) (next - start) start

  offset_rows-page :
      (s : State L) (id offset limit : ℕ) (newest_first : Bool)
      → 0 < limit
      → (offset_rows s id offset limit newest_first).statements
        ≡ take limit (drop offset (listed_rows s id newest_first))
  unfolding offset_rows listed_rows
  offset_rows-page s id offset limit true h =
      newest_rows-page (row_at s id) offset limit 0 (get_next_sequence s id) 0 0 [] h
      ∙ page-start offset limit (rows_down (row_at s id) 0 (get_next_sequence s id))
  offset_rows-page s id offset limit false h =
      let next = get_next_sequence s id in
      let start = next - get_total_statements s id in
      oldest_rows-page (row_at s id) offset limit (next - start) start 0 0 [] h
      ∙ page-start offset limit (rows_up (row_at s id) (next - start) start)

  -- A page by offset that returns leaves the state alone and, for an offset below the count of the
  -- statements, holds the listed rows from the offset on, as many as the limit allows.
  pub get_statements_by_subscription_offset-page :
      (s u : State L) (id offset limit : ℕ) (newest_first : Bool) (found : BillingStatementsPage)
      → offset < get_total_statements s id
      → get_statements_by_subscription_offset id offset limit newest_first s ≡ (ok found, u)
      → (u ≡ s) × (found.statements ≡ take limit (drop offset (listed_rows s id newest_first)))
  unfolding get_statements_by_subscription_offset
  get_statements_by_subscription_offset-page s u id offset limit newest_first found h e =
      ground (arith, offset_rows-page s id offset limit newest_first)
