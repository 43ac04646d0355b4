-- ===== src/ChargeCore/Usage/Metered.antt =====
-- `charge_usage_one` of charge_core.rs and the limits: the meters after a charge.
use stellabill_contracts.Prelude.{
  ℕ, ℤ, ◌≡◌, Option, none, some, nat_eq, string_eq, pair_eq, get, saturating_sub_u64, ◌/◌,
}
use stellabill_contracts.Types.Records.{
  Subscription, UsageLimits, UsageState, UsageChargeResult, status_eq,
}
use stellabill_contracts.Host.State.{State, Env}
use stellabill_contracts.ChargeCore.Usage.Taken.{Taken}
use stellabill_contracts.ChargeCore.Usage.Limits.{IsMetered}

-- A stored state of the meters after a charge that the limits allow.
abbrev pub HasMeters :
    UsageLimits → (now period : ℕ) → ℤ → Option UsageState → Option UsageState → Type 0
HasMeters limits now period amount before none = ⊥
HasMeters limits now period amount before (some state) =
    IsMetered limits now period amount before state

-- The period of a subscription that a time falls in.
abbrev pub period_at_time : Subscription → ℕ → ℕ
period_at_time sub now = saturating_sub_u64 now sub.start_time / sub.interval_seconds

module _ {L : Type 0} (env : Env L) where
  abbrev IsMeteredRun :
      ℕ → Subscription → ℤ → UsageLimits → State L → UsageChargeResult → State L → Type 0
  IsMeteredRun id sub amount limits s r u =
      r ≡ UsageChargeResult.charged
      → HasMeters limits env.timestamp (period_at_time sub env.timestamp) amount
          (get s.billing.usage_states id) (get u.billing.usage_states id)
