-- ===== src/Vault.antt =====
-- contracts/subscription_vault/src/lib.rs: the entry points, behind the emergency stop and the
-- reentrancy locks. `invoke` of Host.Calls is the host's call of one of them.
pub mod Guards
pub mod Entries
pub mod Usage
use stellabill_contracts.Prelude.{ℕ, ℤ, Bool, Option, none, some, true, false, List, not, unwrap_or}
use stellabill_contracts.Types.Errors.{Error}
use stellabill_contracts.Types.Records.{Address, ChargeExecutionResult, BatchChargeResult}
use stellabill_contracts.Types.Events.{emergency_stop_enabled, emergency_stop_disabled}
use stellabill_contracts.Host.State.{State, Env}
use stellabill_contracts.Host.Calls.{
  Call, ◌>>=◌, ◌>>◌, pure, gets, modify, fail_if, when, publish, guarded,
}
use stellabill_contracts.ChargeCore.Interval.{charge_one}
use stellabill_contracts.ChargeCore.Batch.{do_batch_charge}
use stellabill_contracts.Admin.{require_admin_auth}
use stellabill_contracts.Merchant.{
  withdraw_merchant_funds as withdraw_funds, merchant_refund as refund,
}
use stellabill_contracts.Subscription.OneOff.{do_charge_one_off}
use stellabill_contracts.Subscription.Funds.{do_deposit_funds, do_partial_refund}

module _ {L : Type 0} where
  unfoldable pub get_emergency_stop : State L → Bool
  get_emergency_stop s = unwrap_or s.admin_store.emergency_stop false

  unfoldable pub require_not_emergency_stop : Call L (Unit {0})
  unfolding get_emergency_stop
  require_not_emergency_stop s = fail_if (get_emergency_stop s) Error.emergency_stop_active s

  set_emergency_stop : Bool → State L → State L
  set_emergency_stop flag s = record s {
    admin_store = record s.admin_store { emergency_stop = some flag };
  }

module _ {L : Type 0} (env : Env L) where
  unfoldable pub charge_subscription : ℕ → Call L ChargeExecutionResult
  unfolding require_not_emergency_stop guarded charge_one
  charge_subscription subscription_id = do
    require_not_emergency_stop
    guarded "charge_subscription" (charge_one env subscription_id env.timestamp none)

  unfoldable pub deposit_funds : ℕ → Address → ℤ → Call L (Unit {0})
  unfolding require_not_emergency_stop guarded do_deposit_funds
  deposit_funds subscription_id subscriber amount = do
    require_not_emergency_stop
    guarded "deposit_funds" (do_deposit_funds env subscription_id subscriber amount)

  unfoldable pub partial_refund : Address → ℕ → Address → ℤ → Call L (Unit {0})
  unfolding guarded do_partial_refund
  partial_refund admin subscription_id subscriber amount =
      guarded "partial_refund" (do_partial_refund env admin subscription_id subscriber amount)

  unfoldable pub batch_charge : List ℕ → ℕ → Call L (List BatchChargeResult)
  unfolding require_not_emergency_stop do_batch_charge
  batch_charge subscription_ids nonce = do
    require_not_emergency_stop
    do_batch_charge env subscription_ids nonce

  unfoldable pub withdraw_merchant_funds : Address → ℤ → Call L (Unit {0})
  unfolding guarded
  withdraw_merchant_funds merchant amount =
      guarded "withdraw_merchant_funds" (withdraw_funds env merchant amount)

  unfoldable pub merchant_refund : Address → Address → Address → ℤ → Call L (Unit {0})
  unfolding guarded
  merchant_refund merchant subscriber token amount =
      guarded "merchant_refund" (refund env merchant subscriber token amount)

  unfoldable pub charge_one_off : ℕ → Address → ℤ → Call L (Unit {0})
  unfolding require_not_emergency_stop guarded do_charge_one_off
  charge_one_off subscription_id merchant amount = do
    require_not_emergency_stop
    guarded "charge_one_off" (do_charge_one_off env subscription_id merchant amount)

  unfoldable pub enable_emergency_stop : Address → Call L (Unit {0})
  unfolding require_admin_auth get_emergency_stop set_emergency_stop publish
  enable_emergency_stop admin = do
    require_admin_auth env admin
    stopped ← gets get_emergency_stop
    when (not stopped)
        (do modify (set_emergency_stop true); publish (emergency_stop_enabled admin env.timestamp))

  unfoldable pub disable_emergency_stop : Address → Call L (Unit {0})
  unfolding require_admin_auth get_emergency_stop set_emergency_stop publish
  disable_emergency_stop admin = do
    require_admin_auth env admin
    stopped ← gets get_emergency_stop
    when stopped (do
      modify (set_emergency_stop false)
      publish (emergency_stop_disabled admin env.timestamp))
