-- ===== src/Vault/Guards.antt =====
-- The emergency stop of lib.rs and the locks of reentrancy.rs.
use stellabill_contracts.Prelude.{
  ℕ, ℤ, ◌≡◌, refl, inl, inr, Bool, true, none, List, String, Map, string_eq, get, remove,
  get-set_self, get-remove, arith, Option-cases,
}
use stellabill_contracts.Types.Errors.{Error}
use stellabill_contracts.Types.Records.{Address}
use stellabill_contracts.Host.State.{State, Env}
use stellabill_contracts.Host.Calls.{Call, Result, ok, err, trap, guarded, lock, unlock, released}
use stellabill_contracts.Host.Outcomes.{Yields, Yields-ok, keep-Yields}
use stellabill_contracts.Vault.{
  get_emergency_stop, charge_subscription, deposit_funds, batch_charge, charge_one_off,
}
use stellabill_contracts.Subscription.Create.{Terms}
use stellabill_contracts.Vault.Entries.{
  charge_usage, charge_usage_with_reference, create_subscription, create_subscription_with_token,
  create_subscription_from_plan,
}

-- While the emergency stop is on, every entry point that charges, takes a deposit or makes a
-- subscription, nine in all, fails with `EmergencyStopActive` and leaves the state as it is.
pub emergency_stop_blocks :
    {L : Type 0} (env : Env L) (s : State L) (id : ℕ) (party : Address) (amount : ℤ) (ids : List ℕ)
    (nonce : ℕ) (reference : String) (terms : Terms) (plan_id : ℕ)
    → get_emergency_stop s ≡ true
    → (charge_subscription env id s ≡ (err Error.emergency_stop_active, s))
      × (deposit_funds env id party amount s ≡ (err Error.emergency_stop_active, s))
      × (charge_one_off env id party amount s ≡ (err Error.emergency_stop_active, s))
      × (batch_charge env ids nonce s ≡ (err Error.emergency_stop_active, s))
      × (charge_usage env id amount s ≡ (err Error.emergency_stop_active, s))
      × (charge_usage_with_reference env id amount reference s
          ≡ (err Error.emergency_stop_active, s))
      × (create_subscription env terms s ≡ (err Error.emergency_stop_active, s))
      × (create_subscription_with_token env party terms s ≡ (err Error.emergency_stop_active, s))
      × (create_subscription_from_plan env party plan_id s ≡ (err Error.emergency_stop_active, s))
unfolding charge_subscription deposit_funds charge_one_off batch_charge charge_usage
    charge_usage_with_reference create_subscription create_subscription_with_token
    create_subscription_from_plan
emergency_stop_blocks env s id party amount ids nonce reference terms plan_id h = (
  rw h refl,
  rw h refl,
  rw h refl,
  rw h refl,
  rw h refl,
  rw h refl,
  rw h refl,
  rw h refl,
  rw h refl,
)

removed : (m : Map String Bool) (k : String) → get (remove m k) k ≡ none
removed m k = ground (arith, get-remove m k k, string_eq.same_iff k k)

module _ {L : Type 0} where
  -- A guarded call that runs inside another of the same name fails with `Reentrancy`, and so does the
  -- outer one, whatever the inner call would do and whether the lock was free before.
  pub guarded-guarded :
      {A : Type 0} (name : String) (m : Call L A) (s : State L)
      → (guarded name (guarded name m) s).0 ≡ err Error.reentrancy
  unfolding guarded lock unlock
  guarded-guarded name m s = elim (Option-cases (get s.locks name)) [
    | inl e ↦ rw (e, get-set_self s.locks name true) refl
    | inr (b, e) ↦ rw e refl
  ]

  released-free :
      {A : Type 0} (name : String) (r : Result A × State L)
      → Yields (released name r) (λ _ u. get u.locks name ≡ none)
  unfolding unlock
  released-free name (ok a, s) = removed s.locks name
  released-free name (err e, s) = tt
  released-free name (trap, s) = tt

  -- A guarded call that returns a value has released its lock.
  pub guarded-released :
      {A : Type 0} (name : String) (m : Call L A) (s u : State L) {a : A}
      → guarded name m s ≡ (ok a, u)
      → get u.locks name ≡ none
  unfolding guarded
  guarded-released name m s u h =
      Yields-ok (guarded name m s) (λ _ v. get v.locks name ≡ none)
        (keep-Yields (lock name) _ (λ _ v. get v.locks name ≡ none) s (λ _. Unit {0}) tt
          λ _ v _. released-free name (m v))
        h
