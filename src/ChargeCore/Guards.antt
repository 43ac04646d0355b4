-- ===== src/ChargeCore/Guards.antt =====
-- The guards that open a charge: expiration, and a lifetime cap that is used up.
use stellabill_contracts.Prelude.{
  ℕ, ℤ, pos, Option, none, some, not, ◌==◌, ◌||◌, leb_ℤ, ltb_ℤ, beq_ℤ, if◌then◌else◌,
}
use stellabill_contracts.Types.Errors.{Error}
use stellabill_contracts.Types.Records.{Subscription, SubscriptionStatus, is_expired, status_eq}
use stellabill_contracts.Types.Events.{subscription_expired, lifetime_cap_reached}
use stellabill_contracts.Host.Calls.{Call, Result, ok, ◌>>◌, fail, modify, when, lift, publish}
use stellabill_contracts.SafeMath.{safe_sub, on_ok}
use stellabill_contracts.StateMachine.{validate_status_transition}
use stellabill_contracts.Store.{put_subscription}

-- The cap, where the subscription has one and its lifetime charges have reached it.
unfoldable pub exhausted_cap : Subscription → Option ℤ
exhausted_cap sub = elim sub.lifetime_cap [
  | none ↦ none
  | some cap ↦ if leb_ℤ cap sub.lifetime_charged then some cap else none
]

remaining_cap : ℤ → ℤ → Result ℤ
unfolding safe_sub
remaining_cap cap charged = if leb_ℤ cap charged then ok (pos 0) else safe_sub cap charged

unfoldable pub exceeds : Option ℤ → ℤ → ℤ → Result (Option ℤ)
unfolding remaining_cap
exceeds none charged amount = ok none
exceeds (some cap) charged amount = on_ok (remaining_cap cap charged) λ remaining.
    if beq_ℤ remaining (pos 0) || ltb_ℤ remaining amount then ok (some cap) else ok none

-- The cap, where a charge of `amount` would exceed it.
unfoldable pub exceeded_cap : Subscription → ℤ → Result (Option ℤ)
unfolding exceeds
exceeded_cap sub amount = exceeds sub.lifetime_cap sub.lifetime_charged amount

module _ {L : Type 0} where
  -- `validate_status_transition(…)?`, the new status, and the write.
  unfoldable pub move_status : ℕ → Subscription → SubscriptionStatus → Call L (Unit {0})
  unfolding validate_status_transition put_subscription
  move_status id sub status = do
    lift (validate_status_transition sub.status status)
    modify (put_subscription id (record sub { status = status }))

  unfoldable pub expiration_guard : ℕ → ℕ → Subscription → Call L (Unit {0})
  unfolding move_status publish
  expiration_guard id now sub = when (is_expired sub now) (do
    when (not (sub.status == SubscriptionStatus.expired))
        (do move_status id sub SubscriptionStatus.expired; publish (subscription_expired id now))
    fail Error.subscription_expired)

  -- The cancellation of a subscription whose cap stands in the way of the charge.
  unfoldable pub cancel_at_cap : ℕ → ℕ → Subscription → ℤ → Call L (Unit {0})
  unfolding move_status publish
  cancel_at_cap id now sub cap = do
    move_status id sub SubscriptionStatus.cancelled
    publish (lifetime_cap_reached id cap sub.lifetime_charged now)

  unfoldable pub cancel_exhausted : ℕ → ℕ → Subscription → ℤ → Call L (Unit {0})
  unfolding cancel_at_cap
  cancel_exhausted id now sub cap =
      when (not (sub.status == SubscriptionStatus.cancelled)) (cancel_at_cap id now sub cap)
