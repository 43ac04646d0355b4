-- ===== src/Vault/Usage.antt =====
-- `charge_usage` of lib.rs, which gives every charge the same reference.
use stellabill_contracts.Prelude.{
  ℕ, ℤ, ◌≡◌, ◌⊎◌, inl, inr, true, Option-cases, String, some, string_eq, nat_eq, pair_eq, get, set,
}
use stellabill_contracts.Types.Errors.{Error}
use stellabill_contracts.Types.Records.{UsageChargeResult}
use stellabill_contracts.Host.State.{State, Env}
use stellabill_contracts.Host.Calls.{Call, Result, ok, err, trap, guarded, lock, unlock, released}
use stellabill_contracts.Host.Outcomes.{Yields, Yields-ok, fail_if-Yields}
use stellabill_contracts.ChargeCore.Usage.{charge_usage_one}
use stellabill_contracts.ChargeCore.Usage.References.{
  IsPaidMarked, charge_usage_one-marks, seen-unpaid,
}
use stellabill_contracts.Vault.{require_not_emergency_stop, get_emergency_stop}
use stellabill_contracts.Vault.Entries.{charge_usage}

module _ {L : Type 0} where
  -- The state in which a guarded call runs.
  locked : String → State L → State L
  locked name s = record s { locks = set s.locks name true }

  released-Yields :
      {A : Type 0} (name : String) (r : Result A × State L) (Q : A → State L → Type 0)
      → Yields r (λ a u. Q a (unlock name u))
      → Yields (released name r) Q
  released-Yields name (ok a, s) Q h = h
  released-Yields name (err e, s) Q h = tt
  released-Yields name (trap, s) Q h = tt

  guarded-Yields :
      {A : Type 0} (name : String) (m : Call L A) (Q : A → State L → Type 0) (s : State L)
      → Yields (m (locked name s)) (λ a u. Q a (unlock name u))
      → Yields (guarded name m s) Q
  unfolding guarded lock locked
  guarded-Yields name m Q s h = elim (Option-cases (get s.locks name)) [
    | inl e ↦ rw e (released-Yields name (m (locked name s)) Q h)
    | inr (b, e) ↦ rw e tt
  ]

module _ {L : Type 0} (env : Env L) where
  charge_usage-marks :
      (id : ℕ) (amount : ℤ) (s : State L)
      → Yields (charge_usage env id amount s) (IsPaidMarked id "usage" s)
  unfolding charge_usage require_not_emergency_stop locked unlock
  charge_usage-marks id amount s =
      fail_if-Yields (get_emergency_stop s) Error.emergency_stop_active _
        (IsPaidMarked id "usage" s) s
        λ _.
          guarded-Yields "charge_usage" (charge_usage_one env id amount "usage")
            (IsPaidMarked id "usage" s) s
            (charge_usage_one-marks env id amount "usage" (locked "charge_usage" s))

  charge_usage-unpaid :
      (id : ℕ) (amount : ℤ) (s : State L)
      → get s.billing.usage_refs (id, "usage") ≡ some true
      → Yields (charge_usage env id amount s) (λ _ u. u.merchants ≡ s.merchants)
  unfolding charge_usage require_not_emergency_stop locked unlock
  charge_usage-unpaid id amount s h =
      let Q : UsageChargeResult → State L → Type 0 = λ _ u. u.merchants ≡ s.merchants in
      fail_if-Yields (get_emergency_stop s) Error.emergency_stop_active _ Q s λ _.
        guarded-Yields "charge_usage" (charge_usage_one env id amount "usage") Q s
          (seen-unpaid env id amount "usage" (locked "charge_usage" s) h)

-- Of two calls of `charge_usage` for one subscription that both return, one after the other and
-- whatever their amounts and times, at most one pays the merchant.
pub charge_usage_paid_once :
    {L : Type 0} (first second : Env L) (id : ℕ) (amount other : ℤ) (s u v : State L)
    (r q : UsageChargeResult)
    → charge_usage first id amount s ≡ (ok r, u)
    → charge_usage second id other u ≡ (ok q, v)
    → (u.merchants ≡ s.merchants) ⊎ (v.merchants ≡ u.merchants)
charge_usage_paid_once first second id amount other s u v r q e f =
    elim (Yields-ok (charge_usage first id amount s) (IsPaidMarked id "usage" s)
      (charge_usage-marks first id amount s) e) [
        | inl same ↦ inl same
        | inr marked ↦ inr (
            Yields-ok (charge_usage second id other u) (λ _ w. w.merchants ≡ u.merchants)
              (charge_usage-unpaid second id other u marked) f)
      ]
