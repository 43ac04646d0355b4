-- ===== src/Subscription/Moves.antt =====
-- The status changes of subscription.rs and the diagram of state_machine.rs.
use stellabill_contracts.Prelude.{
  ℕ, ◌≡◌, refl, ◌⊎◌, inl, inr, arith, some, nat_eq, get, not, ltb_ℤ, ◌&&◌, ◌==◌, Bool-cases, false,
}
use stellabill_contracts.Types.Errors.{Error}
use stellabill_contracts.Types.Records.{
  Address, Subscription, SubscriptionStatus, is_expired, status_eq,
}
use stellabill_contracts.Host.State.{State, Env}
use stellabill_contracts.Host.Calls.{Call, ok, publish, require_auth, when}
use stellabill_contracts.Host.Outcomes.{
  Yields, Yields-ok, check-Yields, fail_if-Yields, lift-Yields, when-Yields,
}
use stellabill_contracts.StateMachine.{validate_status_transition}
use stellabill_contracts.StateMachine.Transitions.{◌⟶◌, validate-⟶}
use stellabill_contracts.Store.{get_subscription, put_subscription}
use stellabill_contracts.Subscription.Lifecycle.{
  do_cancel_subscription, do_pause_subscription, do_resume_subscription, enter_paused, enter_active,
  is_party, awaits_funds,
}
use stellabill_contracts.Solvency.Steps.{require_auth-same, put_then, require_not_blocklisted-same}
use stellabill_contracts.Blocklist.{require_not_blocklisted}

module _ {L : Type 0} (env : Env L) where
  -- The status of the stored subscription is the old one or the next one in the diagram, and the
  -- money in it is the same.
  pub record Moved (id : ℕ) (old : Subscription) (target : SubscriptionStatus) (s u : State L)
      : Type 0 where
    pub moved : Subscription
    pub stored : get u.subscriptions.subs id ≡ some moved
    pub reached : moved.status ≡ target
    pub edge : (old.status ≡ moved.status) ⊎ (old.status ⟶ moved.status)
    pub same_money : moved.prepaid_balance ≡ old.prepaid_balance
    pub only :
        (u.subscriptions ≡ s.subscriptions)
        ⊎ (u.subscriptions ≡ (put_subscription id (record old { status = target }) s).subscriptions)
    pub totals : u.total_accounted ≡ s.total_accounted
    pub merchants : u.merchants ≡ s.merchants

  Moved-at :
      (id : ℕ) (sub : Subscription) (target : SubscriptionStatus) (s u : State L)
      → validate_status_transition sub.status target ≡ ok tt
      → u.subscriptions ≡ (put_subscription id (record sub { status = target }) s).subscriptions
      → u.total_accounted ≡ s.total_accounted
      → u.merchants ≡ s.merchants
      → Moved id sub target s u
  Moved-at id sub target s u v e totals merchants = record {
    moved = record sub { status = target };
    stored = put_then s u id (record sub { status = target }) e;
    reached = refl;
    edge = validate-⟶ sub.status target v;
    same_money = refl;
    only = inr e;
    totals = totals;
    merchants = merchants;
  }

  stayed :
      (id : ℕ) (sub : Subscription) (target : SubscriptionStatus) (s : State L)
      → get s.subscriptions.subs id ≡ some sub
      → not (sub.status == target) ≡ false
      → Moved id sub target s s
  stayed id sub target s g e = record {
    moved = sub;
    stored = g;
    reached = ground (arith, status_eq.same_iff sub.status target);
    edge = inl refl;
    same_money = refl;
    only = inl refl;
    totals = refl;
    merchants = refl;
  }

  do_cancel-Yields :
      (id : ℕ) (authorizer : Address) (s : State L) (sub : Subscription)
      → get s.subscriptions.subs id ≡ some sub
      → Yields
          (do_cancel_subscription env id authorizer s)
          (λ _ u. Moved id sub SubscriptionStatus.cancelled s u)
  unfolding do_cancel_subscription get_subscription put_subscription publish
  do_cancel-Yields id authorizer s sub g =
      let Q : Unit {0} → State L → Type 0 = λ _ u. Moved id sub SubscriptionStatus.cancelled s u in
      check-Yields (require_auth env authorizer) _ Q s (require_auth-same env authorizer s) λ _.
        rw g (
          fail_if-Yields (is_expired sub env.timestamp) Error.subscription_expired _ Q s λ _.
            fail_if-Yields (not (is_party sub authorizer)) Error.forbidden _ Q s λ _.
              lift-Yields (validate_status_transition sub.status SubscriptionStatus.cancelled) _ Q s
                λ _ v. Moved-at id sub SubscriptionStatus.cancelled s _ v refl refl refl)

  enter_paused-Yields :
      (id : ℕ) (authorizer : Address) (s : State L) (sub : Subscription)
      → validate_status_transition sub.status SubscriptionStatus.paused ≡ ok tt
      → Yields
          (enter_paused env id authorizer sub s)
          (λ _ u. Moved id sub SubscriptionStatus.paused s u)
  unfolding enter_paused put_subscription publish
  enter_paused-Yields id authorizer s sub v =
      Moved-at id sub SubscriptionStatus.paused s _ v refl refl refl

  enter_active-Yields :
      (id : ℕ) (authorizer : Address) (s : State L) (sub : Subscription)
      → validate_status_transition sub.status SubscriptionStatus.active ≡ ok tt
      → Yields
          (enter_active env id authorizer sub s)
          (λ _ u. Moved id sub SubscriptionStatus.active s u)
  unfolding enter_active put_subscription publish
  enter_active-Yields id authorizer s sub v =
      fail_if-Yields (awaits_funds sub && ltb_ℤ sub.prepaid_balance sub.amount)
        Error.insufficient_balance _ (λ _ u. Moved id sub SubscriptionStatus.active s u) s
        λ _. Moved-at id sub SubscriptionStatus.active s _ v refl refl refl

  -- A status change, or none where the target is reached already.
  enter_if-Yields :
      (id : ℕ) (sub : Subscription) (target : SubscriptionStatus) (m : Call L (Unit {0}))
      (s : State L)
      → get s.subscriptions.subs id ≡ some sub
      → Yields (m s) (λ _ u. Moved id sub target s u)
      → Yields (when (not (sub.status == target)) m s) (λ _ u. Moved id sub target s u)
  enter_if-Yields id sub target m s g h = elim (Bool-cases (not (sub.status == target))) [
    | inl e ↦ rw e h
    | inr e ↦ rw e (stayed id sub target s g e)
  ]

  do_pause-Yields :
      (id : ℕ) (authorizer : Address) (s : State L) (sub : Subscription)
      → get s.subscriptions.subs id ≡ some sub
      → Yields
          (do_pause_subscription env id authorizer s)
          (λ _ u. Moved id sub SubscriptionStatus.paused s u)
  unfolding do_pause_subscription get_subscription
  do_pause-Yields id authorizer s sub g =
      let Q : Unit {0} → State L → Type 0 = λ _ u. Moved id sub SubscriptionStatus.paused s u in
      check-Yields (require_auth env authorizer) _ Q s (require_auth-same env authorizer s) λ _.
        rw g (
          fail_if-Yields (is_expired sub env.timestamp) Error.subscription_expired _ Q s λ _.
            fail_if-Yields (not (is_party sub authorizer)) Error.forbidden _ Q s λ _.
              lift-Yields (validate_status_transition sub.status SubscriptionStatus.paused) _ Q s
                λ _ v.
                  enter_if-Yields id sub SubscriptionStatus.paused
                    (enter_paused env id authorizer sub) s g
                    (enter_paused-Yields id authorizer s sub v))

  do_resume-Yields :
      (id : ℕ) (authorizer : Address) (s : State L) (sub : Subscription)
      → get s.subscriptions.subs id ≡ some sub
      → Yields
          (do_resume_subscription env id authorizer s)
          (λ _ u. Moved id sub SubscriptionStatus.active s u)
  unfolding do_resume_subscription get_subscription
  do_resume-Yields id authorizer s sub g =
      let Q : Unit {0} → State L → Type 0 = λ _ u. Moved id sub SubscriptionStatus.active s u in
      check-Yields (require_auth env authorizer) _ Q s (require_auth-same env authorizer s) λ _.
        rw g (
          fail_if-Yields (is_expired sub env.timestamp) Error.subscription_expired _ Q s λ _.
            fail_if-Yields (not (is_party sub authorizer)) Error.forbidden _ Q s λ _.
              check-Yields
                (when (authorizer == sub.subscriber) (require_not_blocklisted sub.subscriber)) _ Q s
                (when-Yields (authorizer == sub.subscriber) _ (λ u. u ≡ s) s refl
                  (require_not_blocklisted-same sub.subscriber s))
                λ _.
                  lift-Yields (validate_status_transition sub.status SubscriptionStatus.active) _ Q
                    s
                    λ _ v.
                      enter_if-Yields id sub SubscriptionStatus.active
                        (enter_active env id authorizer sub) s g
                        (enter_active-Yields id authorizer s sub v))

  -- Cancelling, when it returns, leaves the subscription `Cancelled`, along an edge of the diagram or
  -- from `Cancelled` itself, with its prepaid balance as it was, and changes nothing else that is stored of
  -- subscriptions.
  pub do_cancel_subscription-Moved :
      (id : ℕ) (authorizer : Address) (s u : State L) (sub : Subscription)
      → get s.subscriptions.subs id ≡ some sub
      → do_cancel_subscription env id authorizer s ≡ (ok tt, u)
      → Moved id sub SubscriptionStatus.cancelled s u
  do_cancel_subscription-Moved id authorizer s u sub g e =
      Yields-ok (do_cancel_subscription env id authorizer s)
        (λ _ v. Moved id sub SubscriptionStatus.cancelled s v)
        (do_cancel-Yields id authorizer s sub g) e

  -- Pausing, when it returns, leaves the subscription `Paused`, along an edge of the diagram or from
  -- `Paused` itself, with its prepaid balance as it was, and changes nothing else that is stored of
  -- subscriptions.
  pub do_pause_subscription-Moved :
      (id : ℕ) (authorizer : Address) (s u : State L) (sub : Subscription)
      → get s.subscriptions.subs id ≡ some sub
      → do_pause_subscription env id authorizer s ≡ (ok tt, u)
      → Moved id sub SubscriptionStatus.paused s u
  do_pause_subscription-Moved id authorizer s u sub g e =
      Yields-ok (do_pause_subscription env id authorizer s)
        (λ _ v. Moved id sub SubscriptionStatus.paused s v) (do_pause-Yields id authorizer s sub g)
        e

  -- Resuming, when it returns, leaves the subscription `Active`, along an edge of the diagram or from
  -- `Active` itself, with its prepaid balance as it was, and changes nothing else that is stored of
  -- subscriptions.
  pub do_resume_subscription-Moved :
      (id : ℕ) (authorizer : Address) (s u : State L) (sub : Subscription)
      → get s.subscriptions.subs id ≡ some sub
      → do_resume_subscription env id authorizer s ≡ (ok tt, u)
      → Moved id sub SubscriptionStatus.active s u
  do_resume_subscription-Moved id authorizer s u sub g e =
      Yields-ok (do_resume_subscription env id authorizer s)
        (λ _ v. Moved id sub SubscriptionStatus.active s v) (do_resume-Yields id authorizer s sub g)
        e
