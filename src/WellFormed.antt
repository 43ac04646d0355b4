-- ===== src/WellFormed.antt =====
-- An invariant of the subscriptions stored under `DataKey::Sub`: no balance is negative, and the
-- lifetime charges are within the cap.
pub mod Charges
pub mod Funds
pub mod OneOff
pub mod Creation
pub mod Usage
pub mod Reachable
use stellabill_contracts.Prelude.{
  ℕ, ℤ, pos, ◌≡◌, ◌≤ℤ◌, ◌==◌, arith, Option, none, some, nat_eq, get, get-set, Bool-cases, inl, inr,
  subst, sym, if◌then◌else◌,
}
use stellabill_contracts.Types.Records.{Subscription, SubscriptionStatus}
use stellabill_contracts.Host.State.{State, SubscriptionStore}
use stellabill_contracts.Store.{put_subscription}

abbrev pub IsWithinCap : Option ℤ → ℤ → Type 0
IsWithinCap none charged = Unit
IsWithinCap (some cap) charged = charged ≤ℤ cap

pub record IsSound (sub : Subscription) : Type 0 where
  pub prepaid_nonneg : pos 0 ≤ℤ sub.prepaid_balance
  pub charged_nonneg : pos 0 ≤ℤ sub.lifetime_charged
  pub within_cap : IsWithinCap sub.lifetime_cap sub.lifetime_charged

abbrev pub IsSoundEntry : Option Subscription → Type 0
IsSoundEntry none = Unit
IsSoundEntry (some sub) = IsSound sub

pub IsSound-status :
    (sub : Subscription) (status : SubscriptionStatus)
    → IsSound sub
    → IsSound (record sub { status = status })
IsSound-status sub status h = record {
  prepaid_nonneg = h.prepaid_nonneg;
  charged_nonneg = h.charged_nonneg;
  within_cap = h.within_cap;
}

module _ {L : Type 0} where
  abbrev pub IsWellFormed : State L → Type 0
  IsWellFormed s = (id : ℕ) → IsSoundEntry (get s.subscriptions.subs id)

  pub IsWellFormed-put :
      (s : State L) (id : ℕ) (new : Subscription)
      → IsWellFormed s
      → IsSound new
      → IsWellFormed (put_subscription id new s)
  unfolding put_subscription
  IsWellFormed-put s id new w h j =
      rw (get-set s.subscriptions.subs id j new)
        (elim (Bool-cases (id == j)) [ inl e ↦ rw e h | inr e ↦ rw e (w j) ])

  pub IsWellFormed-same :
      (s u : State L) → u.subscriptions ≡ s.subscriptions → IsWellFormed s → IsWellFormed u
  IsWellFormed-same s u e w id =
      subst (λ (x : SubscriptionStore). IsSoundEntry (get x.subs id)) (sym e) (w id)

  pub IsWellFormed-get :
      (s : State L) (id : ℕ) (sub : Subscription)
      → get s.subscriptions.subs id ≡ some sub
      → IsWellFormed s
      → IsSound sub
  IsWellFormed-get s id sub h w = subst IsSoundEntry h (w id)
