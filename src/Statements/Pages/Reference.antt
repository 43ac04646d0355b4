-- ===== src/Statements/Pages/Reference.antt =====
-- What the loops of statements.rs should find: the rows of a range of sequence numbers in order,
-- less those that are skipped, up to the limit.
use mathlib.Core.List.{append_assoc, append-nil}
use stellabill_contracts.Prelude.{
  nat_eq, pair_eq, ℕ, zero, suc, ◌+◌, ◌-◌, ◌≤◌, ◌<◌, ◌≡◌, refl, arith, Bool, Option, none, some,
  List, [], ◌∷◌, ◌++◌, take, drop, if◌then◌else◌, Option-cases, inl, inr,
}
use stellabill_contracts.Types.Records.{BillingStatement}
use stellabill_contracts.Host.State.{State}
use stellabill_contracts.Statements.{get_next_sequence, get_total_statements}
use stellabill_contracts.Statements.Pages.{row_at, newest_rows, oldest_rows}

abbrev pub Rows : Type 0
Rows = ℕ → Option BillingStatement

abbrev add_row : Option BillingStatement → List BillingStatement → List BillingStatement
add_row none rows = rows
add_row (some r) rows = r ∷ rows

-- The rows at `floor + n - 1` down to `floor`.
unfoldable pub rows_down : Rows → (floor n : ℕ) → List BillingStatement
rows_down row floor zero = []
rows_down row floor (suc n) = add_row (row (floor + n)) (rows_down row floor n)

-- The rows at `n` numbers from `seq` on.
unfoldable pub rows_up : Rows → (n seq : ℕ) → List BillingStatement
rows_up row zero seq = []
rows_up row (suc n) seq = add_row (row seq) (rows_up row n (suc seq))

abbrev pub page :
    (offset limit skipped taken : ℕ) → (out rows : List BillingStatement) → List BillingStatement
page offset limit skipped taken out rows =
    out ++ take (limit - taken) (drop (offset - skipped) rows)

page_skip :
    (offset limit skipped taken : ℕ) (out rows : List BillingStatement) (r : BillingStatement)
    → skipped < offset
    → page offset limit (suc skipped) taken out rows
      ≡ page offset limit skipped taken out (r ∷ rows)
unfolding drop
page_skip offset limit skipped taken out rows r h =
    let e : offset - skipped ≡ suc (offset - suc skipped) = omega arith in rw e refl

page_last :
    (offset limit skipped taken : ℕ) (out rows : List BillingStatement) (r : BillingStatement)
    → offset ≤ skipped
    → limit - taken ≡ 1
    → out ++ r ∷ [] ≡ page offset limit skipped taken out (r ∷ rows)
unfolding drop take
page_last offset limit skipped taken out rows r h k =
    let e : offset - skipped ≡ 0 = omega arith in rw (e, k) refl

page_take :
    (offset limit skipped taken : ℕ) (out rows : List BillingStatement) (r : BillingStatement)
    → offset ≤ skipped
    → suc taken < limit
    → page offset limit skipped (suc taken) (out ++ r ∷ []) rows
      ≡ page offset limit skipped taken out (r ∷ rows)
unfolding drop take
page_take offset limit skipped taken out rows r h k =
    let e : offset - skipped ≡ 0 = omega arith in
    let f : limit - taken ≡ suc (limit - suc taken) = omega arith in
    rw (e, f) (append_assoc out (r ∷ []) (take (limit - suc taken) rows))

take-nil : (n : ℕ) → take {A = BillingStatement} n [] ≡ []
unfolding take
take-nil zero = refl
take-nil (suc n) = refl

drop-nil : (n : ℕ) → drop {A = BillingStatement} n [] ≡ []
unfolding drop
drop-nil zero = refl
drop-nil (suc n) = refl

page-nil :
    (offset limit skipped taken : ℕ) (out : List BillingStatement)
    → out ≡ page offset limit skipped taken out []
page-nil offset limit skipped taken out =
    rw (drop-nil (offset - skipped), take-nil (limit - taken), append-nil out) refl

module _ (row : Rows) (offset limit : ℕ) where
  pub newest_rows-page :
      (floor n skipped taken : ℕ) (out : List BillingStatement)
      → taken < limit
      → (newest_rows row offset limit floor n skipped taken out).statements
        ≡ page offset limit skipped taken out (rows_down row floor n)
  unfolding newest_rows rows_down
  newest_rows-page floor zero skipped taken out h = page-nil offset limit skipped taken out
  newest_rows-page floor (suc n) skipped taken out h = elim (Option-cases (row (floor + n))) [
    | inl e ↦ rw (e, newest_rows) (newest_rows-page floor n skipped taken out h)
    | inr (r, e) ↦ ground (
      arith,
      e,
      newest_rows-page floor n (suc skipped) taken out h,
      page_skip offset limit skipped taken out (rows_down row floor n) r,
      page_last offset limit skipped taken out (rows_down row floor n) r,
      page_take offset limit skipped taken out (rows_down row floor n) r,
      newest_rows-page floor n skipped (suc taken) (out ++ r ∷ []),
    )
  ]

  pub oldest_rows-page :
      (n seq skipped taken : ℕ) (out : List BillingStatement)
      → taken < limit
      → (oldest_rows row offset limit n seq skipped taken out).statements
        ≡ page offset limit skipped taken out (rows_up row n seq)
  unfolding oldest_rows rows_up
  oldest_rows-page zero seq skipped taken out h = page-nil offset limit skipped taken out
  oldest_rows-page (suc n) seq skipped taken out h = elim (Option-cases (row seq)) [
    | inl e ↦ rw (e, oldest_rows) (oldest_rows-page n (suc seq) skipped taken out h)
    | inr (r, e) ↦ ground (
      arith,
      e,
      oldest_rows-page n (suc seq) (suc skipped) taken out h,
      page_skip offset limit skipped taken out (rows_up row n (suc seq)) r,
      page_last offset limit skipped taken out (rows_up row n (suc seq)) r,
      page_take offset limit skipped taken out (rows_up row n (suc seq)) r,
      oldest_rows-page n (suc seq) skipped (suc taken) (out ++ r ∷ []),
    )
  ]

-- The live rows of a subscription, in the order of the listing.
module _ {L : Type 0} where
  unfoldable pub live_rows : State L → ℕ → Bool → List BillingStatement
  unfolding rows_down rows_up
  live_rows s id newest_first =
      let next = get_next_sequence s id in
      let start = next - get_total_statements s id in
      if newest_first
      then rows_down (row_at s id) start (next - start)
      else rows_up (row_at s id) (next - start) start
