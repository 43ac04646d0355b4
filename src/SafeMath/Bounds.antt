-- ===== src/SafeMath/Bounds.antt =====
-- What the checked operations of safe_math.rs return, on every branch.
use stellabill_contracts.Prelude.{
  ℤ, pos, ◌≡◌, ◌↔◌, ◌≤ℤ◌, ltb_ℤ, if◌then◌else◌, ◌+ℤ◌, ◌-ℤ◌, arith, int_laws, IsI128, max_i128,
  min_i128,
}
use stellabill_contracts.Types.Errors.{Error}
use stellabill_contracts.Host.Calls.{ok, err}
use stellabill_contracts.SafeMath.{safe_add, safe_sub, safe_add_balance, safe_sub_balance}

-- For two `i128` values: the sum where it fits, `Overflow` where it lies above the range, and
-- `Underflow` where it lies below.
pub safe_add_exact :
    (a b : ℤ)
    → IsI128 a
    → IsI128 b
    → safe_add a b ≡ (
        if ltb_ℤ max_i128 (a +ℤ b)
        then err Error.overflow
        else if ltb_ℤ (a +ℤ b) min_i128
        then err Error.underflow
        else ok (a +ℤ b))
unfolding safe_add
safe_add_exact a b ha hb = grind int_laws

pub safe_add-ok : (a b : ℤ) {c : ℤ} → safe_add a b ≡ ok c → (c ≡ a +ℤ b) × IsI128 c
unfolding safe_add
safe_add-ok a b h = ground arith

pub safe_sub-ok : (a b : ℤ) {c : ℤ} → safe_sub a b ≡ ok c → (c ≡ a -ℤ b) × IsI128 c
unfolding safe_sub
safe_sub-ok a b h = ground arith

-- On a balance and an amount that an `i128` holds, `safe_sub_balance` succeeds exactly when the
-- amount is not negative and at most the balance, and then leaves the difference.
pub safe_sub_balance_exact :
    (balance amount r : ℤ)
    → IsI128 balance
    → IsI128 amount
    → (safe_sub_balance balance amount ≡ ok r)
      ↔ ((pos 0 ≤ℤ amount) × (amount ≤ℤ balance) × (r ≡ balance -ℤ amount))
unfolding safe_sub_balance
safe_sub_balance_exact balance amount r hb ha = ((λ h. grind int_laws), λ h. grind int_laws)

-- A balance that `safe_sub_balance` or `safe_add_balance` returns from a balance of zero or more is
-- zero or more.
pub safe_sub_balance-ok :
    (balance amount : ℤ) {r : ℤ}
    → safe_sub_balance balance amount ≡ ok r
    → (pos 0 ≤ℤ amount) × (pos 0 ≤ℤ r) × (r +ℤ amount ≡ balance)
unfolding safe_sub_balance
safe_sub_balance-ok balance amount h = grind int_laws

pub safe_add_balance-ok :
    (balance amount : ℤ) {r : ℤ}
    → safe_add_balance balance amount ≡ ok r
    → (pos 0 ≤ℤ amount) × (r ≡ balance +ℤ amount)
unfolding safe_add_balance
safe_add_balance-ok balance amount h = grind int_laws
