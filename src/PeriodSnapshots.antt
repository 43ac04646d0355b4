-- ===== src/PeriodSnapshots.antt =====
-- contracts/subscription_vault/src/period_snapshots.rs: one summary for each billing period.
pub mod Closed
use stellabill_contracts.Prelude.{
  ℕ, List, take, reverse, not, Option, none, some, [], ◌∷◌, ◌++◌, ◌==◌, nat_eq, pair_eq, get, set,
  unwrap_or,
}
use Prim.Native.Nat.{bit_and}
use stellabill_contracts.Types.Errors.{Error}
use stellabill_contracts.Types.Records.{BillingPeriodSnapshot, snapshot_flag_closed}
use stellabill_contracts.Host.State.{State}
use stellabill_contracts.Host.Calls.{Call, ◌>>=◌, ◌>>◌, gets, modify, fail_if}

module _ {L : Type 0} where
  put_snapshot : BillingPeriodSnapshot → State L → State L
  put_snapshot snap s = record s {
    billing = record billing {
      period_snapshots = set period_snapshots (snap.subscription_id, snap.period_index) snap;
    };
  }
    where
      open s use {billing}
      open billing use {period_snapshots}

  push_index : ℕ → ℕ → State L → State L
  push_index id index s = record s {
    billing = record billing {
      snapshot_index = set snapshot_index id (unwrap_or (get snapshot_index id) [] ++ index ∷ []);
    };
  }
    where
      open s use {billing}
      open billing use {snapshot_index}

  -- A closed snapshot stays; the index of a new one is added to the subscription's list.
  admit_snapshot : BillingPeriodSnapshot → Option BillingPeriodSnapshot → Call L (Unit {0})
  unfolding push_index
  admit_snapshot snap (some existing) =
      fail_if (not (bit_and existing.status_flags snapshot_flag_closed == 0)) Error.invalid_input
  admit_snapshot snap none = modify (push_index snap.subscription_id snap.period_index)

  unfoldable pub get_period_snapshot : State L → ℕ → ℕ → Option BillingPeriodSnapshot
  get_period_snapshot s id index = get s.billing.period_snapshots (id, index)

  unfoldable pub write_period_snapshot : BillingPeriodSnapshot → Call L (Unit {0})
  unfolding put_snapshot admit_snapshot get_period_snapshot
  write_period_snapshot snap = do
    existing ← gets (λ s. get_period_snapshot s snap.subscription_id snap.period_index)
    admit_snapshot snap existing
    modify (put_snapshot snap)

  -- The snapshots of a list of period indices; an index without one is left out.
  unfoldable pub snapshots_at : State L → ℕ → List ℕ → List BillingPeriodSnapshot
  unfolding get_period_snapshot
  snapshots_at s id [] = []
  snapshots_at s id (index ∷ indices) = elim (get_period_snapshot s id index) [
    | none ↦ snapshots_at s id indices
    | some snap ↦ snap ∷ snapshots_at s id indices
  ]

  -- The last `limit` indices, newest first.
  unfoldable pub list_period_snapshots : State L → (id limit : ℕ) → List BillingPeriodSnapshot
  unfolding snapshots_at
  list_period_snapshots s id limit =
      snapshots_at s id (take limit (reverse (unwrap_or (get s.billing.snapshot_index id) [])))
