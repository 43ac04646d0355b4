-- ===== src/StateMachine/Transitions.antt =====
-- The transition diagram as a relation, and what the checks of state_machine.rs say of it.
use stellabill_contracts.Prelude.{◌≡◌, refl, ◌↔◌, ◌⊎◌, ◌||◌, ◌==◌, arith, inl, inr}
use stellabill_contracts.Types.Records.{
  SubscriptionStatus, active, paused, cancelled, insufficient_balance, grace_period, expired,
  archived, status_eq,
}
use stellabill_contracts.Host.Calls.{ok}
use stellabill_contracts.StateMachine.{
  validate_status_transition, get_allowed_transitions, can_transition, one_of,
}

infix 40 ◌⟶◌ ◌⟶*◌
pub data ◌⟶◌ : SubscriptionStatus → SubscriptionStatus → Type 0 where
  pause : active ⟶ paused
  resume : paused ⟶ active
  underfund : active ⟶ insufficient_balance
  enter_grace : active ⟶ grace_period
  leave_grace : grace_period ⟶ insufficient_balance
  refund_grace : grace_period ⟶ active
  recover : insufficient_balance ⟶ active
  cancel_active : active ⟶ cancelled
  cancel_paused : paused ⟶ cancelled
  cancel_underfunded : insufficient_balance ⟶ cancelled
  cancel_grace : grace_period ⟶ cancelled
  expire_active : active ⟶ expired
  expire_paused : paused ⟶ expired
  expire_underfunded : insufficient_balance ⟶ expired
  expire_grace : grace_period ⟶ expired
  archive_cancelled : cancelled ⟶ archived
  archive_expired : expired ⟶ archived

-- A sequence of accepted transitions.
pub data ◌⟶*◌ : SubscriptionStatus → SubscriptionStatus → Type 0 where
  here : {s : SubscriptionStatus} → s ⟶* s
  step : {s t u : SubscriptionStatus} → validate_status_transition s t ≡ ok tt → t ⟶* u → s ⟶* u

pub ruleset edges = (
  pause, resume, underfund, enter_grace, leave_grace, refund_grace, recover, cancel_active,
  cancel_paused, cancel_underfunded, cancel_grace, expire_active, expire_paused, expire_underfunded,
  expire_grace, archive_cancelled, archive_expired,
)

-- A transition that is accepted keeps the status or follows an edge of the diagram.
pub validate-⟶ :
    (from to : SubscriptionStatus)
    → validate_status_transition from to ≡ ok tt
    → (from ≡ to) ⊎ (from ⟶ to)
unfolding validate_status_transition
validate-⟶ from to h = grind (arith, edges)

-- An edge of the diagram is accepted.
pub ⟶-validate :
    {from to : SubscriptionStatus} → from ⟶ to → validate_status_transition from to ≡ ok tt
unfolding validate_status_transition
⟶-validate pause = refl
⟶-validate _ = refl

validate_refl : (s : SubscriptionStatus) → validate_status_transition s s ≡ ok tt
unfolding validate_status_transition
validate_refl s = ground arith

-- The accepted transitions are exactly those to the same status and those along an edge of the
-- diagram.
pub validate_iff :
    (from to : SubscriptionStatus)
    → (validate_status_transition from to ≡ ok tt) ↔ ((from ≡ to) ⊎ (from ⟶ to))
validate_iff from to = (validate-⟶ from to, accepted)
  where
    accepted : (from ≡ to) ⊎ (from ⟶ to) → validate_status_transition from to ≡ ok tt
    accepted (inl e) = rw (← e) (validate_refl from)
    accepted (inr e) = ⟶-validate e

-- The list that `get_allowed_transitions` shows to clients agrees with the check: a transition is
-- possible exactly when it keeps the status or its target is in the list.
pub can_transition-allowed :
    (from to : SubscriptionStatus)
    → can_transition from to ≡ (from == to || one_of to (get_allowed_transitions from))
unfolding can_transition get_allowed_transitions
can_transition-allowed active to = ground arith
can_transition-allowed _ to = ground arith

abbrev pub HasEnded : SubscriptionStatus → Type 0
HasEnded s = (s ≡ cancelled) ⊎ (s ≡ expired) ⊎ (s ≡ archived)

ended_step :
    (s t : SubscriptionStatus)
    → validate_status_transition s t ≡ ok tt
    → HasEnded s
    → (t ≡ s) ⊎ (t ≡ archived)
unfolding validate_status_transition
ended_step s t e h = ground arith

-- A subscription that is `Cancelled`, `Expired` or `Archived` keeps that status, or becomes
-- `Archived`, through any sequence of accepted transitions.
pub ended_stays : {s t : SubscriptionStatus} → s ⟶* t → HasEnded s → (t ≡ s) ⊎ (t ≡ archived)
ended_stays here h = inl refl
ended_stays {s} (step {t = t} e p) h = elim (ended_step s t e h) [
  | inl same ↦ let rest = ended_stays p (rw same h) in ground arith
  | inr end ↦ let rest = ended_stays p (inr (inr end)) in ground arith
]
