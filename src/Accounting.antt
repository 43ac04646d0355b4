-- ===== src/Accounting.antt =====
-- contracts/subscription_vault/src/accounting.rs: the total of each token that the vault owes.
use stellabill_contracts.Prelude.{
  ℤ, pos, nat_eq, leb_ℤ, checked_add, checked_sub, get, set, unwrap_or, if◌then◌else◌,
}
use stellabill_contracts.Types.Errors.{Error}
use stellabill_contracts.Types.Records.{Address}
use stellabill_contracts.Host.State.{State}
use stellabill_contracts.Host.Calls.{Call, ◌>>=◌, pure, gets, modify, or_fail}

module _ {L : Type 0} where
  unfoldable pub get_total_accounted : State L → Address → ℤ
  get_total_accounted s token = unwrap_or (get s.total_accounted token) (pos 0)

  unfoldable pub set_total_accounted : Address → ℤ → State L → State L
  set_total_accounted token total s = record s {
    total_accounted = set s.total_accounted token total;
  }

  unfoldable pub add_total_accounted : Address → ℤ → Call L (Unit {0})
  unfolding get_total_accounted set_total_accounted
  add_total_accounted token amount = if leb_ℤ amount (pos 0) then pure tt else do
    current ← gets (λ s. get_total_accounted s token)
    new_total ← or_fail (checked_add current amount) Error.overflow
    modify (set_total_accounted token new_total)

  unfoldable pub sub_total_accounted : Address → ℤ → Call L (Unit {0})
  unfolding get_total_accounted set_total_accounted
  sub_total_accounted token amount = if leb_ℤ amount (pos 0) then pure tt else do
    current ← gets (λ s. get_total_accounted s token)
    new_total ← or_fail (checked_sub current amount) Error.underflow
    modify (set_total_accounted token new_total)
