-- ===== src/StateMachine.antt =====
-- contracts/subscription_vault/src/state_machine.rs: which status may follow which.
pub mod Transitions
use stellabill_contracts.Prelude.{Bool, true, false, List, [], ◌∷◌, ◌||◌, ◌==◌, if◌then◌else◌}
use stellabill_contracts.Types.Errors.{Error}
use stellabill_contracts.Types.Records.{
  SubscriptionStatus, active, paused, cancelled, insufficient_balance, grace_period, expired,
  archived, status_eq,
}
use stellabill_contracts.Host.Calls.{Result, ok, err, trap}

-- `matches!(to, a | b | …)`
abbrev pub one_of : SubscriptionStatus → List SubscriptionStatus → Bool
one_of to [] = false
one_of to (s ∷ ss) = to == s || one_of to ss

abbrev valid_transition : SubscriptionStatus → SubscriptionStatus → Bool
valid_transition active to =
    one_of to (paused ∷ cancelled ∷ insufficient_balance ∷ grace_period ∷ expired ∷ [])
valid_transition paused to = one_of to (active ∷ cancelled ∷ expired ∷ [])
valid_transition cancelled to = one_of to (archived ∷ [])
valid_transition insufficient_balance to = one_of to (active ∷ cancelled ∷ expired ∷ [])
valid_transition grace_period to =
    one_of to (active ∷ cancelled ∷ insufficient_balance ∷ expired ∷ [])
valid_transition expired to = one_of to (archived ∷ [])
valid_transition archived to = false

unfoldable pub validate_status_transition :
    SubscriptionStatus → SubscriptionStatus → Result (Unit {0})
validate_status_transition from to =
    if from == to
    then ok tt
    else if valid_transition from to
    then ok tt
    else err Error.invalid_status_transition

pub get_allowed_transitions : SubscriptionStatus → List SubscriptionStatus
get_allowed_transitions active =
    paused ∷ cancelled ∷ insufficient_balance ∷ grace_period ∷ expired ∷ []
get_allowed_transitions paused = active ∷ cancelled ∷ expired ∷ []
get_allowed_transitions cancelled = archived ∷ []
get_allowed_transitions insufficient_balance = active ∷ cancelled ∷ expired ∷ []
get_allowed_transitions grace_period = active ∷ cancelled ∷ insufficient_balance ∷ expired ∷ []
get_allowed_transitions expired = archived ∷ []
get_allowed_transitions archived = []

abbrev is_ok : {A : Type 0} → Result A → Bool
is_ok (ok a) = true
is_ok (err e) = false
is_ok trap = false

pub can_transition : SubscriptionStatus → SubscriptionStatus → Bool
unfolding validate_status_transition
can_transition from to = is_ok (validate_status_transition from to)
