-- ===== src/Statements/Pages/Walk.antt =====
-- A client of `get_statements_by_subscription_cursor` (statements.rs) that reads page after page.
use stellabill_contracts.Prelude.{
  ℕ, zero, suc, ◌-◌, ◌<◌, ◌≤◌, ◌≡◌, refl, arith, Bool, true, false, none, some, List, [], ◌++◌, ltb,
  Option, nat_eq, Bool-cases, inl, inr, ◌∙◌, ap, sym,
}
use stellabill_contracts.Types.Records.{BillingStatement, BillingStatementsPage}
use stellabill_contracts.Host.State.{State}
use stellabill_contracts.Host.Calls.{Result, ok, err, trap}
use stellabill_contracts.Statements.{get_next_sequence, get_total_statements}
use stellabill_contracts.Statements.Pages.{
  Found, row_at, cursor_rows, page_start, is_outside, get_statements_by_subscription_cursor,
}
use stellabill_contracts.Statements.Pages.Reference.{rows_down, rows_up, live_rows}
use stellabill_contracts.Statements.Pages.Cursor.{
  first_live, rest, left, IsPage, cursor_rows-IsPage,
}

module _ {L : Type 0} where
  rest-live :
      (s : State L) (id limit : ℕ) (newest_first : Bool)
      → first_live s id < get_next_sequence s id
      → rest s id limit newest_first (some (page_start s id none newest_first))
        ≡ live_rows s id newest_first
  unfolding page_start live_rows first_live
  rest-live s id limit true h =
      let next = get_next_sequence s id in
      let first = next - get_total_statements s id in
      let e : suc (next - 1 - first) ≡ next - first = omega arith in
      ap (rows_down (row_at s id) first) e
  rest-live s id limit false h = refl

  live_rows-none :
      (s : State L) (id : ℕ) (newest_first : Bool)
      → get_next_sequence s id ≤ first_live s id
      → live_rows s id newest_first ≡ []
  unfolding live_rows first_live rows_down rows_up
  live_rows-none s id newest_first h =
      let next = get_next_sequence s id in
      let e : next - (next - get_total_statements s id) ≡ 0 = omega arith in ground (arith, e)

  page_start-live :
      (s : State L) (id : ℕ) (newest_first : Bool)
      → first_live s id < get_next_sequence s id
      → (first_live s id ≤ page_start s id none newest_first)
        × (page_start s id none newest_first < get_next_sequence s id)
        × (left s id newest_first (page_start s id none newest_first) ≤ get_total_statements s id)
  unfolding page_start first_live
  page_start-live s id newest_first h = ground arith

module _ {L : Type 0} (s : State L) (id limit : ℕ) (newest_first : Bool) where
  abbrev ask : Option ℕ → Result BillingStatementsPage
  ask cursor = (get_statements_by_subscription_cursor id cursor limit newest_first s).0

  -- What follows a page.
  abbrev continued : (ℕ → List BillingStatement) → Option ℕ → List BillingStatement
  continued more none = []
  continued more (some c) = more c

  -- The rows of a page, and of those that follow it.
  abbrev joined : (ℕ → List BillingStatement) → Result BillingStatementsPage → List BillingStatement
  joined more (ok page) = page.statements ++ continued more page.next_cursor
  joined more (err e) = []
  joined more trap = []

  -- At most `fuel` pages from the cursor on.
  read_from : (fuel : ℕ) → ℕ → List BillingStatement
  read_from zero c = []
  read_from (suc fuel) c = joined (read_from fuel) (ask (some c))

  unfoldable pub read_all : (fuel : ℕ) → List BillingStatement
  unfolding read_from
  read_all fuel = joined (read_from fuel) (ask none)

  page_at :
      (c : ℕ)
      → 0 < limit
      → first_live s id ≤ c
      → c < get_next_sequence s id
      → ask (some c)
        ≡ ok (record {
          statements = (cursor_rows s id c limit newest_first).statements;
          next_cursor = (cursor_rows s id c limit newest_first).cursor;
          total = get_total_statements s id;
        })
  unfolding get_statements_by_subscription_cursor page_start is_outside first_live
  page_at c p h k = ground arith

  continued-rest :
      (cursor : Option ℕ) (more : ℕ → List BillingStatement)
      → ((c : ℕ) → cursor ≡ some c → more c ≡ rest s id limit newest_first (some c))
      → continued more cursor ≡ rest s id limit newest_first cursor
  continued-rest none more h = ground arith
  continued-rest (some c) more h = h c refl

  join_rest :
      (found : Found) (start : ℕ) (more : ℕ → List BillingStatement)
      → IsPage s id limit newest_first start found
      → ((c : ℕ) → found.cursor ≡ some c → more c ≡ rest s id limit newest_first (some c))
      → found.statements ++ continued more found.cursor ≡ rest s id limit newest_first (some start)
  join_rest found start more p h = rw (continued-rest found.cursor more h) p.all

  left-pos : (c : ℕ) → c < get_next_sequence s id → ¬ (left s id newest_first c ≡ 0)
  left-pos c k = ground arith

  read_from-rest :
      (fuel c : ℕ)
      → 0 < limit
      → first_live s id ≤ c
      → c < get_next_sequence s id
      → left s id newest_first c ≤ fuel
      → read_from fuel c ≡ rest s id limit newest_first (some c)
  unfolding read_from
  read_from-rest zero c p h k m = absurd (left-pos c k (omega arith))
  read_from-rest (suc fuel) c p h k m =
      let found = cursor_rows s id c limit newest_first in
      let page = cursor_rows-IsPage s id limit c newest_first h k in
      rw (page_at c p h k) (
        join_rest found c (read_from fuel) page λ d e.
          read_from-rest fuel d p (page.inside d e).0 (page.inside d e).1
            (omega (arith, page.fewer d e)))

  page_first :
      0 < limit
      → first_live s id < get_next_sequence s id
      → ask none ≡ ask (some (page_start s id none newest_first))
  unfolding get_statements_by_subscription_cursor page_start is_outside first_live
  page_first p h = ground arith

  page_none :
      0 < limit
      → get_next_sequence s id ≤ first_live s id
      → ask none
        ≡ ok (record { statements = []; next_cursor = none; total = get_total_statements s id })
  unfolding get_statements_by_subscription_cursor page_start is_outside first_live
  page_none p h = ground arith

  -- A client that asks for page after page, each time at the cursor of the last page, with a
  -- positive limit, and that may ask as often as there are live statements, reads the live rows:
  -- each once, in order.
  pub read_all_complete :
      (fuel : ℕ)
      → 0 < limit
      → get_total_statements s id ≤ suc fuel
      → read_all fuel ≡ live_rows s id newest_first
  unfolding read_all
  read_all_complete fuel p m =
      let start = page_start s id none newest_first in
      elim (Bool-cases (ltb (first_live s id) (get_next_sequence s id))) [
        | inl e ↦
            let h : first_live s id < get_next_sequence s id = ground arith in
            let inside = page_start-live s id newest_first h in
            rw (page_first p h) (
              read_from-rest (suc fuel) start p inside.0 inside.1 (omega (arith, inside.2, m))
              ∙ rest-live s id limit newest_first h)
        | inr e ↦
            let h : get_next_sequence s id ≤ first_live s id = ground arith in
            rw (page_none p h) (sym (live_rows-none s id newest_first h))
      ]
