-- ===== src/WellFormed/Creation.antt =====
-- The creation of a subscription (subscription.rs) and the invariant of the stored subscriptions.
use stellabill_contracts.Prelude.{
  ℕ, ◌+◌, ℤ, pos, ◌≡◌, ◌≤◌, refl, arith, int_laws, Option, none, some, Option-cases, inl, inr, not,
  nat_eq, ◌==◌, beq_ℤ, ap, get, get-set_self, checked_add_u32, unwrap_or,
}
use stellabill_contracts.Types.Errors.{Error}
use stellabill_contracts.Types.Records.{Address, Subscription, SubscriptionStatus}
use stellabill_contracts.Types.Events.{Event}
use stellabill_contracts.Host.State.{State, Env}
use stellabill_contracts.Host.Calls.{ok, publish, require_auth}
use stellabill_contracts.Host.Outcomes.{
  Yields, lift-Yields, fail_if-Yields, or_fail-Yields, check-Yields, step-Yields, Yields-ok,
}
use stellabill_contracts.SafeMath.{validate_non_negative}
use stellabill_contracts.Store.{put_subscription}
use stellabill_contracts.Admin.{is_token_accepted}
use stellabill_contracts.Blocklist.{is_blocklisted}
use stellabill_contracts.Subscription.Limits.{
  validate_interval, resolve_cap, enforce_credit_limit_for_delta, min_subscription_interval_seconds,
  max_subscription_interval_seconds,
}
use stellabill_contracts.Subscription.Create.{
  Terms, admissible_cap, new_subscription, allocate, do_create_subscription_with_token,
  max_subscription_id, set_next_id, index_subscription,
}
use stellabill_contracts.Solvency.Steps.{require_auth-same}
use stellabill_contracts.WellFormed.{IsSound, IsWellFormed, IsWellFormed-put, IsWithinCap}

validate_interval-ok :
    (n : ℕ)
    → validate_interval n ≡ ok tt
    → (min_subscription_interval_seconds ≤ n) × (n ≤ max_subscription_interval_seconds)
unfolding validate_interval
validate_interval-ok n h = ground arith

admissible_cap-ok :
    (cap : Option ℤ) (amount : ℤ) → admissible_cap cap amount ≡ ok tt → IsWithinCap cap (pos 0)
unfolding admissible_cap
admissible_cap-ok none amount h = tt
admissible_cap-ok (some cap) amount h = grind int_laws

sum_of : (id next : ℕ) → checked_add_u32 id 1 ≡ some next → next ≡ id + 1
unfolding checked_add_u32
sum_of id next h = ground arith

new_subscription-IsSound :
    (terms : Terms) (token : Address) (cap : Option ℤ) (now : ℕ)
    → admissible_cap cap terms.amount ≡ ok tt
    → IsSound (new_subscription terms token cap now)
unfolding new_subscription
new_subscription-IsSound terms token cap now h = record {
  prepaid_nonneg = omega arith;
  charged_nonneg = omega arith;
  within_cap = admissible_cap-ok cap terms.amount h;
}

-- The subscription that the terms ask for.
abbrev pub agreed : Terms → Address → Option ℤ → ℕ → Subscription
agreed terms token cap now = record {
  subscriber = terms.subscriber;
  merchant = terms.merchant;
  token = token;
  amount = terms.amount;
  interval_seconds = terms.interval_seconds;
  last_payment_timestamp = now;
  status = SubscriptionStatus.active;
  prepaid_balance = pos 0;
  usage_enabled = terms.usage_enabled;
  lifetime_cap = cap;
  lifetime_charged = pos 0;
  start_time = now;
  expires_at = terms.expires_at;
  grace_start_timestamp = none;
}

-- The cap of a subscription: the one that is asked for; else the merchant's default; else the
-- contract's.
pub data IsCapOf (merchant_default global : Option ℤ) : Option ℤ → Option ℤ → Type 0 where
  asked : (cap : ℤ) → IsCapOf merchant_default global (some cap) (some cap)
  by_merchant :
      (cap : ℤ) → merchant_default ≡ some cap → IsCapOf merchant_default global none (some cap)
  by_contract : merchant_default ≡ none → IsCapOf merchant_default global none global

module _ {L : Type 0} where
  resolve_cap-IsCapOf :
      (s : State L) (merchant : Address) (explicit_cap : Option ℤ)
      → IsCapOf
          (get s.subscriptions.merchant_caps merchant)
          s.subscriptions.cap_default
          explicit_cap
          (resolve_cap s merchant explicit_cap)
  unfolding resolve_cap
  resolve_cap-IsCapOf s merchant (some cap) = asked cap
  resolve_cap-IsCapOf s merchant none =
      elim (Option-cases (get s.subscriptions.merchant_caps merchant)) [
        | inl e ↦ rw e (by_contract refl)
        | inr (cap, e) ↦ rw e (by_merchant cap refl)
      ]

  -- The subscription stands under its id, the next id is one higher, and the others are as before.
  pub record Allocated (sub : Subscription) (s : State L) (id : ℕ) (u : State L) : Type 0 where
    pub stored : get u.subscriptions.subs id ≡ some sub
    pub fresh : id ≡ unwrap_or s.subscriptions.next_id 0
    pub next : u.subscriptions.next_id ≡ some (id + 1)
    pub well_formed : IsWellFormed u

  allocate-Allocated :
      (sub : Subscription) (s : State L)
      → IsSound sub
      → IsWellFormed s
      → Yields (allocate sub s) (λ id u. Allocated sub s id u)
  unfolding allocate index_subscription set_next_id put_subscription
  allocate-Allocated sub s h w =
      let id = unwrap_or s.subscriptions.next_id 0 in
      fail_if-Yields (id == max_subscription_id) Error.subscription_limit_reached _
        (λ i u. Allocated sub s i u) s
        λ _.
          or_fail-Yields (checked_add_u32 id 1) Error.subscription_limit_reached _
            (λ i u. Allocated sub s i u) s
            λ next e. record {
              stored = get-set_self s.subscriptions.subs id sub;
              fresh = refl;
              next = ap some (sum_of id next e);
              well_formed = IsWellFormed-put (set_next_id next s) id sub w h;
            }

  Allocated-publish :
      (sub : Subscription) (s u : State L) (id : ℕ) (e : Event)
      → Allocated sub s id u
      → Allocated sub s id (publish e u).1
  unfolding publish
  Allocated-publish sub s u id e a = record {
    stored = a.stored;
    fresh = a.fresh;
    next = a.next;
    well_formed = a.well_formed;
  }

module _ {L : Type 0} (env : Env L) where
  -- What a creation from given terms leaves.
  pub record Created (token : Address) (terms : Terms) (s : State L) (id : ℕ) (u : State L)
      : Type 0 where
    pub cap : Option ℤ
    pub resolved :
        IsCapOf
          (get s.subscriptions.merchant_caps terms.merchant)
          s.subscriptions.cap_default
          terms.lifetime_cap
          cap
    pub allocated : Allocated (agreed terms token cap env.timestamp) s id u
    pub sound : IsSound (agreed terms token cap env.timestamp)
    pub long_enough : min_subscription_interval_seconds ≤ terms.interval_seconds
    pub short_enough : terms.interval_seconds ≤ max_subscription_interval_seconds

  do_create-Yields :
      (token : Address) (terms : Terms) (s : State L)
      → IsWellFormed s
      → Yields
          (do_create_subscription_with_token env token terms s)
          (λ id u. Created token terms s id u)
  unfolding do_create_subscription_with_token new_subscription
  do_create-Yields token terms s w =
      let Q : ℕ → State L → Type 0 = λ id u. Created token terms s id u in
      let cap = resolve_cap s terms.merchant terms.lifetime_cap in
      check-Yields (require_auth env terms.subscriber) _ Q s
        (require_auth-same env terms.subscriber s)
        λ _.
          fail_if-Yields (is_blocklisted s terms.subscriber) Error.subscriber_blocklisted _ Q s λ _.
            lift-Yields (validate_non_negative terms.amount) _ Q s λ _ _.
              fail_if-Yields (beq_ℤ terms.amount (pos 0)) Error.invalid_amount _ Q s λ _.
                lift-Yields (validate_interval terms.interval_seconds) _ Q s λ _ v.
                  fail_if-Yields (not (is_token_accepted s token)) Error.invalid_input _ Q s λ _.
                    lift-Yields (admissible_cap cap terms.amount) _ Q s λ _ c.
                      lift-Yields
                        (enforce_credit_limit_for_delta s terms.subscriber token terms.amount) _ Q s
                        λ _ _.
                          let new = new_subscription terms token cap env.timestamp in
                          let sound = new_subscription-IsSound terms token cap env.timestamp c in
                          let range = validate_interval-ok terms.interval_seconds v in
                          step-Yields (allocate new) _ Q s (λ id u. Allocated new s id u)
                            (allocate-Allocated new s sound w)
                            λ id u a. record {
                              cap = cap;
                              resolved = resolve_cap-IsCapOf s terms.merchant terms.lifetime_cap;
                              allocated = Allocated-publish new s u id _ a;
                              sound = sound;
                              long_enough = range.0;
                              short_enough = range.1;
                            }

  -- From well-formed subscriptions, a creation that returns stores a sound, active subscription with
  -- every term that is asked for, no balance and no charges, under the next id and raises that id
  -- by one. Its cap is the one that is asked for, else the merchant's default, else the contract's.
  -- Every stored subscription is well formed again, and the interval lies between a minute and 365
  -- days.
  pub do_create_subscription-Created :
      (token : Address) (terms : Terms) (s u : State L) (id : ℕ)
      → IsWellFormed s
      → do_create_subscription_with_token env token terms s ≡ (ok id, u)
      → Created token terms s id u
  do_create_subscription-Created token terms s u id w e =
      Yields-ok (do_create_subscription_with_token env token terms s)
        (λ i v. Created token terms s i v) (do_create-Yields token terms s w) e
