-- ===== src/ChargeCore/Interval/Conserved.antt =====
-- Steps of charge_core.rs that move money inside the books, or none.
use stellabill_contracts.Prelude.{
  ℕ, ℤ, ◌≡◌, refl, ◌+ℤ◌, ◌∙◌, ap, arith, int_laws, parts_of_eq, some, nat_eq, get, inl, inr, Bool,
  Bool-cases, not, ◌==◌,
}
use stellabill_contracts.Types.Records.{Address, Subscription, SubscriptionStatus, status_eq}
use stellabill_contracts.Host.State.{State}
use stellabill_contracts.Types.Events.{Event}
use stellabill_contracts.Host.Calls.{Result, publish, when, lift}
use stellabill_contracts.StateMachine.{validate_status_transition}
use stellabill_contracts.Host.Outcomes.{Yields, bind-Yields, lift-Yields, weaken}
use stellabill_contracts.Store.{put_subscription}
use stellabill_contracts.Books.{
  SameMoney, in_token, merchants_owed, prepaid_owed, owed, prepaid_owed-put, owed-SameMoney,
  owed-put, prepaid_owed-same, merchants_owed-put,
}
use stellabill_contracts.ChargeCore.Guards.{cancel_at_cap, cancel_exhausted, move_status}
use stellabill_contracts.ChargeCore.Interval.Steps.{Paid}

in_token_add :
    (t token : Address) (a b : ℤ)
    → in_token t token a +ℤ in_token t token b ≡ in_token t token (a +ℤ b)
in_token_add t token a b = grind int_laws

module _ {L : Type 0} where
  pub record Conserved (s u : State L) : Type 0 where
    pub owing : (t : Address) → owed u t ≡ owed s t
    pub accounted : u.total_accounted ≡ s.total_accounted
    pub ledger : u.ledger ≡ s.ledger

  pub when-lift-same :
      (b : Bool) (r : Result (Unit {0})) (s : State L) → Yields (when b (lift r) s) (λ _ u. u ≡ s)
  when-lift-same b r s = ground arith

  pub Conserved-SameMoney : (s u v : State L) → Conserved s u → SameMoney u v → Conserved s v
  Conserved-SameMoney s u v c m = record {
    owing = λ t. owed-SameMoney u v t m ∙ c.owing t;
    accounted = m.accounted ∙ c.accounted;
    ledger = m.ledger ∙ c.ledger;
  }

  -- A write that leaves the token and the prepaid balance alone.
  pub put-Conserved :
      (s : State L) (id : ℕ) (old new : Subscription)
      → get s.subscriptions.subs id ≡ some old
      → new.token ≡ old.token
      → new.prepaid_balance ≡ old.prepaid_balance
      → Conserved s (put_subscription id new s)
  unfolding put_subscription
  put-Conserved s id old new h e f = record {
    owing = λ t. grind (int_laws, owed-put s id old new t h);
    accounted = refl;
    ledger = refl;
  }

  -- The debit of the subscription balances the credit of the shares.
  pub settled-Conserved :
      (s u : State L) (id : ℕ) (old new : Subscription) (amount : ℤ)
      → get s.subscriptions.subs id ≡ some old
      → new.token ≡ old.token
      → new.prepaid_balance +ℤ amount ≡ old.prepaid_balance
      → Paid old.token amount s u
      → Conserved s (put_subscription id new u)
  unfolding put_subscription owed
  settled-Conserved s u id old new amount h e f p = record {
    owing = λ t.
        let before = prepaid_owed-put u id old new t (ap (λ x. get x.subs id) p.subs ∙ h) in
        let split : in_token t new.token new.prepaid_balance +ℤ in_token t old.token amount
            ≡ in_token t old.token old.prepaid_balance =
          rw (e, ← f) (in_token_add t old.token new.prepaid_balance amount) in
        omega (
          int_laws,
          parts_of_eq before,
          parts_of_eq split,
          parts_of_eq (merchants_owed-put u id new t),
          parts_of_eq (prepaid_owed-same s u t p.subs),
          parts_of_eq (p.balances t),
        );
    accounted = p.accounted;
    ledger = p.ledger;
  }

  pub Conserved-publish : (s u : State L) (e : Event) → Conserved s u → Conserved s (publish e u).1
  unfolding publish owed prepaid_owed merchants_owed
  Conserved-publish s u e c = record { owing = c.owing; accounted = c.accounted; ledger = c.ledger }

  pub move_status-Conserved :
      (id : ℕ) (sub : Subscription) (status : SubscriptionStatus) (s : State L)
      → get s.subscriptions.subs id ≡ some sub
      → Yields (move_status id sub status s) (λ _ u. Conserved s u)
  unfolding move_status
  move_status-Conserved id sub status s h =
      lift-Yields (validate_status_transition sub.status status) _ (λ _ u. Conserved s u) s
        λ _ e. put-Conserved s id sub (record sub { status = status }) h refl refl

  -- A cancellation at the cap moves no money.
  pub cancel_at_cap-Conserved :
      (id now : ℕ) (sub : Subscription) (reached : ℤ) (s : State L)
      → get s.subscriptions.subs id ≡ some sub
      → Yields (cancel_at_cap id now sub reached s) (λ _ u. Conserved s u)
  unfolding cancel_at_cap
  cancel_at_cap-Conserved id now sub reached s h =
      bind-Yields (move_status id sub SubscriptionStatus.cancelled) _ (λ _ u. Conserved s u) s
        (weaken _ _ _ (move_status-Conserved id sub SubscriptionStatus.cancelled s h)
          λ _ u c. Conserved-publish s u _ c)

  pub Conserved-refl : (s : State L) → Conserved s s
  Conserved-refl s = record { owing = λ t. refl; accounted = refl; ledger = refl }

  pub cancel_exhausted-Conserved :
      (id now : ℕ) (sub : Subscription) (reached : ℤ) (s : State L)
      → get s.subscriptions.subs id ≡ some sub
      → Yields (cancel_exhausted id now sub reached s) (λ _ u. Conserved s u)
  unfolding cancel_exhausted
  cancel_exhausted-Conserved id now sub reached s h =
      elim (Bool-cases (not (sub.status == SubscriptionStatus.cancelled))) [
        | inl e ↦ rw e (cancel_at_cap-Conserved id now sub reached s h)
        | inr e ↦ rw e (Conserved-refl s)
      ]
