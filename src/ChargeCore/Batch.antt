-- ===== src/ChargeCore/Batch.antt =====
-- `do_batch_charge` of admin.rs: the charges of a list of subscriptions, each with its own result.
use stellabill_contracts.Prelude.{ℕ, true, false, none, List, [], ◌∷◌}
use stellabill_contracts.Types.Errors.{Error, to_code}
use stellabill_contracts.Types.Records.{ChargeExecutionResult, BatchChargeResult}
use stellabill_contracts.Host.State.{State, Env}
use stellabill_contracts.Host.Calls.{Call, Result, ok, err, trap, ◌>>=◌, ◌>>◌, pure}
use stellabill_contracts.Admin.{require_stored_admin_auth}
use stellabill_contracts.Nonce.{check_and_advance, domain_batch_charge}
use stellabill_contracts.ChargeCore.Interval.{charge_one}

-- How the batch reports a charge.
abbrev pub batch_result : ChargeExecutionResult → BatchChargeResult
batch_result ChargeExecutionResult.charged = record { success = true; error_code = 0 }
batch_result ChargeExecutionResult.insufficient_balance = record {
  success = false;
  error_code = to_code Error.insufficient_balance;
}
batch_result ChargeExecutionResult.lifetime_cap_reached = record {
  success = false;
  error_code = to_code Error.lifetime_cap_reached;
}

module _ {L : Type 0} where
  -- A charge that fails is a row of the results, and what it wrote stays; a trap ends the batch.
  abbrev pub reported : Result ChargeExecutionResult × State L → Result BatchChargeResult × State L
  reported (ok r, s) = (ok (batch_result r), s)
  reported (err e, s) = (ok (record { success = false; error_code = to_code e }), s)
  reported (trap, s) = (trap, s)

module _ {L : Type 0} (env : Env L) where
  unfoldable pub charge_row : ℕ → Call L BatchChargeResult
  unfolding charge_one
  charge_row id s = reported (charge_one env id env.timestamp none s)

  -- The loop over the ids, in order.
  unfoldable pub charge_rows : List ℕ → Call L (List BatchChargeResult)
  unfolding charge_row
  charge_rows [] = pure []
  charge_rows (id ∷ ids) = do row ← charge_row id; rows ← charge_rows ids; pure (row ∷ rows)

  unfoldable pub do_batch_charge : List ℕ → ℕ → Call L (List BatchChargeResult)
  unfolding require_stored_admin_auth check_and_advance charge_rows
  do_batch_charge subscription_ids nonce = do
    admin ← require_stored_admin_auth env
    check_and_advance env admin domain_batch_charge nonce
    charge_rows subscription_ids
