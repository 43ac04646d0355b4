-- ===== src/ChargeCore/Usage/Refused.antt =====
-- `charge_usage_one` of charge_core.rs: the charges that it refuses without an error, for a
-- reference seen before or by the limits.
use stellabill_contracts.Prelude.{
  ℕ, ℤ, ◌≡◌, ◌≢◌, refl, Bool, true, false, Option, none, some, String, nat_eq, string_eq, pair_eq,
  get, is_some, subst, ◌∷◌, ◌⊎◌, inl, inr,
}
use stellabill_contracts.Types.Records.{Subscription, UsageLimits, UsageChargeResult, status_eq}
use stellabill_contracts.Types.Events.{usage_charge_rejected}
use stellabill_contracts.Host.State.{State, Env}
use stellabill_contracts.Host.Calls.{ok, publish}
use stellabill_contracts.Host.Outcomes.{Yields, or_abort-Yields, weaken, Yields-ok}
use stellabill_contracts.ChargeCore.Usage.Taken.{Taken, take_usage-Taken}
use stellabill_contracts.ChargeCore.Usage.Guarded.{charge_usage_one-Yields}
use stellabill_contracts.ChargeCore.Usage.{
  Admission, refused, admitted, reject_usage, take_usage, take_admitted, meter_usage, use_reference,
  charge_usage_one, current_period, set_usage_state,
}

module _ {L : Type 0} (env : Env L) where
  -- The state after a refusal.
  abbrev rejection : ℕ → Subscription → ℤ → String → UsageChargeResult → State L → State L
  rejection id sub amount reference r s =
      (publish (usage_charge_rejected id sub.merchant sub.token amount env.timestamp reference r)
        s).1

  -- Either the charge went through its steps, or all it left is the event.
  abbrev IsSettledOrRefused :
      ℕ → Subscription → ℤ → String → State L → UsageChargeResult → State L → Type 0
  IsSettledOrRefused id sub amount reference s r u =
      (r ≡ UsageChargeResult.charged) ⊎ (u ≡ rejection id sub amount reference r s)

  take_usage-charged :
      (id : ℕ) (sub : Subscription) (amount : ℤ) (reference : String) (s t : State L)
      → Yields
          (take_usage env id sub amount reference t)
          (IsSettledOrRefused id sub amount reference s)
  take_usage-charged id sub amount reference s t =
      weaken (take_usage env id sub amount reference t) (Taken id reference t)
        (IsSettledOrRefused id sub amount reference s)
        (take_usage-Taken env id sub amount reference t) λ r u k. inl k.charged

  take_admitted-settles :
      (id : ℕ) (sub : Subscription) (amount : ℤ) (reference : String) (a : Admission) (s : State L)
      → Yields
          (take_admitted env id sub amount reference a s)
          (IsSettledOrRefused id sub amount reference s)
  unfolding take_admitted reject_usage publish
  take_admitted-settles id sub amount reference (refused r) s = inr refl
  take_admitted-settles id sub amount reference (admitted state) s =
      take_usage-charged id sub amount reference s (set_usage_state id state s)

  meter_usage-settles :
      (id : ℕ) (sub : Subscription) (amount : ℤ) (reference : String) (limits : Option UsageLimits)
      (s : State L)
      → Yields
          (meter_usage env id sub amount reference limits s)
          (IsSettledOrRefused id sub amount reference s)
  unfolding meter_usage
  meter_usage-settles id sub amount reference none s =
      take_usage-charged id sub amount reference s s
  meter_usage-settles id sub amount reference (some limits) s =
      or_abort-Yields (current_period sub env.timestamp) _
        (IsSettledOrRefused id sub amount reference s) s
        λ period _. take_admitted-settles id sub amount reference _ s

  use_reference-settles :
      (id : ℕ) (sub : Subscription) (amount : ℤ) (reference : String) (seen : Bool) (s : State L)
      → Yields
          (use_reference env id sub amount reference seen s)
          (IsSettledOrRefused id sub amount reference s)
  unfolding use_reference reject_usage publish
  use_reference-settles id sub amount reference true s = inr refl
  use_reference-settles id sub amount reference false s =
      meter_usage-settles id sub amount reference (get s.billing.usage_limits id) s

  charge_usage_one-settles :
      (id : ℕ) (amount : ℤ) (reference : String) (s : State L) (sub : Subscription)
      → get s.subscriptions.subs id ≡ some sub
      → Yields
          (charge_usage_one env id amount reference s)
          (IsSettledOrRefused id sub amount reference s)
  charge_usage_one-settles id amount reference s sub g =
      charge_usage_one-Yields env id amount reference s
        (IsSettledOrRefused id sub amount reference s)
        λ sub' g' _.
          let same : sub ≡ sub' = cc in
          subst
            (λ (x : Subscription).
              Yields
                (use_reference env id x amount reference
                  (is_some (get s.billing.usage_refs (id, reference))) s)
                (IsSettledOrRefused id sub amount reference s))
            same
            (use_reference-settles id sub amount reference
              (is_some (get s.billing.usage_refs (id, reference))) s)

  -- A charge for use that returns a result other than Charged, for a reference seen before or by a
  -- limit, changes nothing but the event log, where it adds its rejection.
  pub charge_usage_one-refused :
      (id : ℕ) (amount : ℤ) (reference : String) (s u : State L) (sub : Subscription)
      (r : UsageChargeResult)
      → get s.subscriptions.subs id ≡ some sub
      → r ≢ UsageChargeResult.charged
      → charge_usage_one env id amount reference s ≡ (ok r, u)
      → u ≡ record s {
        events =
            usage_charge_rejected id sub.merchant sub.token amount env.timestamp reference r
            ∷ s.events;
      }
  unfolding publish
  charge_usage_one-refused id amount reference s u sub r g n e =
      elim (Yields-ok (charge_usage_one env id amount reference s)
        (IsSettledOrRefused id sub amount reference s)
        (charge_usage_one-settles id amount reference s sub g) e) [
          | inl c ↦ absurd (n c)
          | inr c ↦ c
        ]
