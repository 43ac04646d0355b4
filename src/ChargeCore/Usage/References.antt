-- ===== src/ChargeCore/Usage/References.antt =====
-- The references of metered charges (charge_core.rs), which tell a repeated call from a new one.
use stellabill_contracts.Prelude.{
  ℕ, ℤ, ◌≡◌, refl, Bool, true, false, Option, none, some, String, nat_eq, string_eq, pair_eq, get,
  ◌⊎◌, inl, inr,
}
use stellabill_contracts.Types.Records.{Subscription, UsageLimits, UsageChargeResult, status_eq}
use stellabill_contracts.Host.State.{State, Env}
use stellabill_contracts.Host.Calls.{ok, publish}
use stellabill_contracts.Host.Outcomes.{Yields, or_abort-Yields, weaken, Yields-ok}
use stellabill_contracts.ChargeCore.Usage.Taken.{Taken, take_usage-Taken}
use stellabill_contracts.ChargeCore.Usage.Guarded.{charge_usage_one-Yields}
use stellabill_contracts.ChargeCore.Usage.{
  Admission, refused, admitted, reject_usage, take_usage, take_admitted, meter_usage, use_reference,
  charge_usage_one, current_period, set_usage_state,
}

module _ {L : Type 0} where
  -- A run that paid the merchant has marked the reference.
  abbrev pub IsPaidMarked : ℕ → String → State L → UsageChargeResult → State L → Type 0
  IsPaidMarked id reference s r u =
      (u.merchants ≡ s.merchants) ⊎ (get u.billing.usage_refs (id, reference) ≡ some true)

module _ {L : Type 0} (env : Env L) where
  take_usage-marks :
      (id : ℕ) (sub : Subscription) (amount : ℤ) (reference : String) (s : State L)
      → Yields (take_usage env id sub amount reference s) (IsPaidMarked id reference s)
  take_usage-marks id sub amount reference s =
      weaken (take_usage env id sub amount reference s) (Taken id reference s)
        (IsPaidMarked id reference s) (take_usage-Taken env id sub amount reference s)
        λ r u k. k.paid

  take_admitted-marks :
      (id : ℕ) (sub : Subscription) (amount : ℤ) (reference : String) (a : Admission) (s : State L)
      → Yields (take_admitted env id sub amount reference a s) (IsPaidMarked id reference s)
  unfolding take_admitted reject_usage publish set_usage_state
  take_admitted-marks id sub amount reference (refused r) s = inl refl
  take_admitted-marks id sub amount reference (admitted state) s =
      take_usage-marks id sub amount reference (set_usage_state id state s)

  meter_usage-marks :
      (id : ℕ) (sub : Subscription) (amount : ℤ) (reference : String) (limits : Option UsageLimits)
      (s : State L)
      → Yields (meter_usage env id sub amount reference limits s) (IsPaidMarked id reference s)
  unfolding meter_usage
  meter_usage-marks id sub amount reference none s = take_usage-marks id sub amount reference s
  meter_usage-marks id sub amount reference (some limits) s =
      or_abort-Yields (current_period sub env.timestamp) _ (IsPaidMarked id reference s) s
        λ period _. take_admitted-marks id sub amount reference _ s

  use_reference-marks :
      (id : ℕ) (sub : Subscription) (amount : ℤ) (reference : String) (seen : Bool) (s : State L)
      → Yields (use_reference env id sub amount reference seen s) (IsPaidMarked id reference s)
  unfolding use_reference reject_usage publish
  use_reference-marks id sub amount reference true s = inl refl
  use_reference-marks id sub amount reference false s =
      meter_usage-marks id sub amount reference (get s.billing.usage_limits id) s

  pub charge_usage_one-marks :
      (id : ℕ) (amount : ℤ) (reference : String) (s : State L)
      → Yields (charge_usage_one env id amount reference s) (IsPaidMarked id reference s)
  charge_usage_one-marks id amount reference s =
      charge_usage_one-Yields env id amount reference s (IsPaidMarked id reference s)
        λ sub g c. use_reference-marks id sub amount reference _ s

  pub seen-unpaid :
      (id : ℕ) (amount : ℤ) (reference : String) (s : State L)
      → get s.billing.usage_refs (id, reference) ≡ some true
      → Yields (charge_usage_one env id amount reference s) (λ _ u. u.merchants ≡ s.merchants)
  unfolding use_reference reject_usage publish
  seen-unpaid id amount reference s h =
      charge_usage_one-Yields env id amount reference s (λ _ u. u.merchants ≡ s.merchants)
        λ sub g c. rw h refl

-- Of two charges for use of one subscription with one reference that both return, one after the
-- other and whatever their amounts and times, at most one pays the merchant.
pub reference_paid_once :
    {L : Type 0} (first second : Env L) (id : ℕ) (amount other : ℤ) (reference : String)
    (s u v : State L) (r q : UsageChargeResult)
    → charge_usage_one first id amount reference s ≡ (ok r, u)
    → charge_usage_one second id other reference u ≡ (ok q, v)
    → (u.merchants ≡ s.merchants) ⊎ (v.merchants ≡ u.merchants)
reference_paid_once first second id amount other reference s u v r q e f =
    elim (Yields-ok (charge_usage_one first id amount reference s) (IsPaidMarked id reference s)
      (charge_usage_one-marks first id amount reference s) e) [
        | inl same ↦ inl same
        | inr marked ↦ inr (
            Yields-ok (charge_usage_one second id other reference u)
              (λ _ w. w.merchants ≡ u.merchants) (seen-unpaid second id other reference u marked) f)
      ]
