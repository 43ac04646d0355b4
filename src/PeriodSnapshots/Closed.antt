-- ===== src/PeriodSnapshots/Closed.antt =====
-- Writes of period_snapshots.rs and the snapshots that are closed.
use stellabill_contracts.Prelude.{ℕ, ◌≡◌, ◌≢◌, arith, some, nat_eq, pair_eq, get-set, get-set_self}
use Prim.Native.Nat.{bit_and}
use stellabill_contracts.Types.Records.{BillingPeriodSnapshot, snapshot_flag_closed}
use stellabill_contracts.Host.State.{State}
use stellabill_contracts.Host.Calls.{ok}
use stellabill_contracts.PeriodSnapshots.{
  get_period_snapshot, write_period_snapshot, put_snapshot, admit_snapshot, push_index,
}

module _ {L : Type 0} where
  -- A closed snapshot is the same after any attempt to write a snapshot, of its own period or of
  -- another, whether the attempt succeeds or fails.
  pub closed_stays :
      (snap closed : BillingPeriodSnapshot) (id index : ℕ) (s : State L)
      → get_period_snapshot s id index ≡ some closed
      → bit_and closed.status_flags snapshot_flag_closed ≢ 0
      → get_period_snapshot (write_period_snapshot snap s).1 id index ≡ some closed
  unfolding get_period_snapshot write_period_snapshot put_snapshot admit_snapshot push_index
  closed_stays snap closed id index s h c =
      grind (arith, get-set, pair_eq.same_iff (snap.subscription_id, snap.period_index) (id, index))

  -- A snapshot whose write returns is the one that is read back.
  pub write-get_period_snapshot :
      (snap : BillingPeriodSnapshot) (s u : State L)
      → write_period_snapshot snap s ≡ (ok tt, u)
      → get_period_snapshot u snap.subscription_id snap.period_index ≡ some snap
  unfolding get_period_snapshot write_period_snapshot put_snapshot
  write-get_period_snapshot snap s u h = grind (arith, get-set_self)
