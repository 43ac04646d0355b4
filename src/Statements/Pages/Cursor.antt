-- ===== src/Statements/Pages/Cursor.antt =====
-- `get_statements_by_subscription_cursor` of statements.rs, and a client that follows the cursors.
use mathlib.Core.List.{append_assoc}
use stellabill_contracts.Prelude.{
  ℕ, zero, suc, ◌+◌, ◌-◌, ◌<◌, ◌≤◌, ◌≡◌, refl, arith, Bool, true, false, none, some, List, [], ◌∷◌,
  ◌++◌, ltb, if◌then◌else◌, Option, nat_eq, Option-cases, inl, inr,
}
use stellabill_contracts.Types.Records.{BillingStatement}
use stellabill_contracts.Host.State.{State}
use stellabill_contracts.Statements.{get_next_sequence, get_total_statements}
use stellabill_contracts.Statements.Pages.{Found, row_at, newest_rows, oldest_rows, cursor_rows}
use stellabill_contracts.Statements.Pages.Reference.{Rows, rows_down, rows_up}

module _ (row : Rows) (limit : ℕ) where
  -- The rows from a cursor on.
  abbrev pub down_from : ℕ → Option ℕ → List BillingStatement
  down_from floor none = []
  down_from floor (some c) = rows_down row floor (suc (c - floor))

  abbrev pub up_from : ℕ → Option ℕ → List BillingStatement
  up_from last none = []
  up_from last (some c) = rows_up row (last - c) c

  down_from-next :
      (floor n : ℕ)
      → down_from floor (if ltb 0 n then some (floor + n - 1) else none) ≡ rows_down row floor n
  unfolding rows_down
  down_from-next floor zero = refl
  down_from-next floor (suc n) =
      let e : floor + suc n - 1 - floor ≡ n = omega arith in ground (arith, e)

  newest_rows-split :
      (floor n taken : ℕ) (out : List BillingStatement)
      → let found = newest_rows row 0 limit floor n 0 taken out in
        found.statements ++ down_from floor found.cursor ≡ out ++ rows_down row floor n
  unfolding newest_rows rows_down
  newest_rows-split floor zero taken out = refl
  newest_rows-split floor (suc n) taken out = elim (Option-cases (row (floor + n))) [
    | inl e ↦ rw (e, newest_rows) (newest_rows-split floor n taken out)
    | inr (r, e) ↦ ground (
      arith,
      e,
      newest_rows-split floor n (suc taken) (out ++ r ∷ []),
      append_assoc out (r ∷ []) (rows_down row floor n),
      down_from-next floor n,
    )
  ]

  up_from-next :
      (last seq n : ℕ)
      → suc seq + n ≡ last
      → up_from last (if ltb 0 n then some (suc seq) else none) ≡ rows_up row n (suc seq)
  unfolding rows_up
  up_from-next last seq zero h = refl
  up_from-next last seq (suc n) h =
      let e : last - suc seq ≡ suc n = omega arith in ground (arith, e)

  oldest_rows-split :
      (last n seq taken : ℕ) (out : List BillingStatement)
      → seq + n ≡ last
      → let found = oldest_rows row 0 limit n seq 0 taken out in
        found.statements ++ up_from last found.cursor ≡ out ++ rows_up row n seq
  unfolding oldest_rows rows_up
  oldest_rows-split last zero seq taken out h = refl
  oldest_rows-split last (suc n) seq taken out h = elim (Option-cases (row seq)) [
    | inl e ↦ rw (e, oldest_rows) (oldest_rows-split last n (suc seq) taken out (omega arith))
    | inr (r, e) ↦ ground (
      arith,
      e,
      oldest_rows-split last n (suc seq) (suc taken) (out ++ r ∷ []) (omega arith),
      append_assoc out (r ∷ []) (rows_up row n (suc seq)),
      up_from-next last seq n (omega arith),
    )
  ]

  -- A cursor lies beyond the rows that were read.
  newest_rows-cursor :
      (floor n taken c : ℕ) (out : List BillingStatement)
      → (newest_rows row 0 limit floor n 0 taken out).cursor ≡ some c
      → (floor ≤ c) × (suc c < floor + n)
  unfolding newest_rows
  newest_rows-cursor floor zero taken c out e = cc
  newest_rows-cursor floor (suc n) taken c out e = elim (Option-cases (row (floor + n))) [
    | inl f ↦ ground (arith, f, newest_rows-cursor floor n taken c out)
    | inr (r, f) ↦ ground (arith, f, newest_rows-cursor floor n (suc taken) c (out ++ r ∷ []))
  ]

  oldest_rows-cursor :
      (n seq taken c : ℕ) (out : List BillingStatement)
      → (oldest_rows row 0 limit n seq 0 taken out).cursor ≡ some c
      → (seq < c) × (c < seq + n)
  unfolding oldest_rows
  oldest_rows-cursor zero seq taken c out e = cc
  oldest_rows-cursor (suc n) seq taken c out e = elim (Option-cases (row seq)) [
    | inl f ↦ ground (arith, f, oldest_rows-cursor n (suc seq) taken c out)
    | inr (r, f) ↦ ground (arith, f, oldest_rows-cursor n (suc seq) (suc taken) c (out ++ r ∷ []))
  ]

module _ {L : Type 0} where
  unfoldable pub first_live : State L → ℕ → ℕ
  first_live s id = get_next_sequence s id - get_total_statements s id

  -- The live rows from a cursor on, and how many sequence numbers they may have.
  abbrev pub rest : State L → ℕ → ℕ → Bool → Option ℕ → List BillingStatement
  rest s id limit true cursor = down_from (row_at s id) limit (first_live s id) cursor
  rest s id limit false cursor = up_from (row_at s id) limit (get_next_sequence s id) cursor

  abbrev pub left : State L → ℕ → Bool → ℕ → ℕ
  left s id true c = suc (c - first_live s id)
  left s id false c = get_next_sequence s id - c

  -- A page that starts at a live number: its rows, then those from its cursor on, are all the rows
  -- from that number on; and fewer numbers are left at the cursor.
  pub record IsPage (s : State L) (id limit : ℕ) (newest_first : Bool) (start : ℕ) (found : Found)
      : Type 0 where
    pub all :
        found.statements ++ rest s id limit newest_first found.cursor
        ≡ rest s id limit newest_first (some start)
    pub inside :
        (c : ℕ) → found.cursor ≡ some c → (first_live s id ≤ c) × (c < get_next_sequence s id)
    pub fewer :
        (c : ℕ) → found.cursor ≡ some c → left s id newest_first c < left s id newest_first start

  pub cursor_rows-IsPage :
      (s : State L) (id limit start : ℕ) (newest_first : Bool)
      → first_live s id ≤ start
      → start < get_next_sequence s id
      → IsPage s id limit newest_first start (cursor_rows s id start limit newest_first)
  unfolding cursor_rows first_live
  cursor_rows-IsPage s id limit start true h k = record {
    all =
        newest_rows-split (row_at s id) limit (first_live s id) (suc (start - first_live s id)) 0
          [];
    inside = λ c e. omega (
      arith,
      newest_rows-cursor (row_at s id) limit (first_live s id) (suc (start - first_live s id)) 0 c
          [] e,
    );
    fewer = λ c e. omega (
      arith,
      newest_rows-cursor (row_at s id) limit (first_live s id) (suc (start - first_live s id)) 0 c
          [] e,
    );
  }
  cursor_rows-IsPage s id limit start false h k =
      let n = get_next_sequence s id - start in
      record {
        all =
            oldest_rows-split (row_at s id) limit (get_next_sequence s id) n start 0 []
              (omega arith);
        inside = λ c e. omega (arith, oldest_rows-cursor (row_at s id) limit n start 0 c [] e);
        fewer = λ c e. omega (arith, oldest_rows-cursor (row_at s id) limit n start 0 c [] e);
      }
