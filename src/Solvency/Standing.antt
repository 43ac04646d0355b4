-- ===== src/Solvency/Standing.antt =====
-- Calls of subscription.rs that write a subscription and move no money: status changes, migrations
-- and clean-up.
use stellabill_contracts.Prelude.{
  ℕ, pos, ◌≡◌, refl, ap, arith, weight, sum_over, int_laws, Option, none, some, not, ◌==◌, ◌||◌,
  nat_eq, get, set, sum_over-set, inl, inr, Map,
}
use stellabill_contracts.Types.Errors.{Error}
use stellabill_contracts.Types.Records.{
  Address, Subscription, SubscriptionStatus, is_expired, status_eq,
}
use stellabill_contracts.Host.State.{State, Env, SubscriptionStore, MerchantStore}
use stellabill_contracts.Host.Calls.{ok, publish, require_auth}
use stellabill_contracts.Host.Outcomes.{
  Yields, Yields-ok, check-Yields, fail_if-Yields, or_fail-Yields, lift-Yields, when-Yields,
}
use stellabill_contracts.Accounting.{get_total_accounted}
use stellabill_contracts.StateMachine.{validate_status_transition}
use stellabill_contracts.Store.{get_subscription, put_subscription}
use stellabill_contracts.Books.{owed, prepaid_owed, merchants_owed, prepaid_weight}
use stellabill_contracts.Solvency.Steps.{IsBalanced, require_auth-same}
use stellabill_contracts.Subscription.Moves.{Moved}
use stellabill_contracts.Subscription.Lifecycle.{archive, mark_expired, do_cleanup_subscription}
use stellabill_contracts.Subscription.Plans.Migration.{Migrated}

-- What an entry may hold for a subscription to take its place.
abbrev pub HoldsSame : Subscription → Option Subscription → Type 0
HoldsSame new none = new.prepaid_balance ≡ pos 0
HoldsSame new (some old) = (new.token ≡ old.token) × (new.prepaid_balance ≡ old.prepaid_balance)

same_weight :
    (t : Address) (id : ℕ) (new : Subscription) (entry : Option Subscription)
    → HoldsSame new entry
    → weight (prepaid_weight t) id entry ≡ prepaid_weight t id new
same_weight t id new none h = ground (arith, h)
same_weight t id new (some old) h = ground (arith, h)

same_sum :
    (t : Address) (id : ℕ) (new : Subscription) (subs : Map ℕ Subscription)
    → HoldsSame new (get subs id)
    → sum_over (prepaid_weight t) (set subs id new) ≡ sum_over (prepaid_weight t) subs
same_sum t id new subs h =
    grind
      (int_laws, sum_over-set (prepaid_weight t) subs id new, same_weight t id new (get subs id) h)

module _ {L : Type 0} where
  -- The money that the vault counts and owes is read from these three.
  pub record SameAccounts (s u : State L) : Type 0 where
    pub accounted : u.total_accounted ≡ s.total_accounted
    pub subs : u.subscriptions.subs ≡ s.subscriptions.subs
    pub balances : u.merchants.merchant_balances ≡ s.merchants.merchant_balances

  pub IsBalanced-SameAccounts : (s u : State L) → SameAccounts s u → IsBalanced s → IsBalanced u
  unfolding owed prepaid_owed merchants_owed get_total_accounted
  IsBalanced-SameAccounts s u h b t = rw (h.accounted, h.subs, h.balances) (b t)

  -- One subscription is written, under an id that held none or one with the same money.
  pub record Rewritten (id : ℕ) (new : Subscription) (s u : State L) : Type 0 where
    pub accounted : u.total_accounted ≡ s.total_accounted
    pub subs : u.subscriptions.subs ≡ set s.subscriptions.subs id new
    pub balances : u.merchants.merchant_balances ≡ s.merchants.merchant_balances

  pub IsBalanced-Rewritten :
      (s u : State L) (id : ℕ) (new : Subscription)
      → Rewritten id new s u
      → HoldsSame new (get s.subscriptions.subs id)
      → IsBalanced s
      → IsBalanced u
  unfolding owed prepaid_owed merchants_owed get_total_accounted
  IsBalanced-Rewritten s u id new w h b t =
      rw (w.accounted, w.subs, w.balances, same_sum t id new s.subscriptions.subs h) (b t)

  IsBalanced-put :
      (s u : State L) (id : ℕ) (old new : Subscription)
      → Rewritten id new s u
      → get s.subscriptions.subs id ≡ some old
      → (new.token ≡ old.token) × (new.prepaid_balance ≡ old.prepaid_balance)
      → IsBalanced s
      → IsBalanced u
  IsBalanced-put s u id old new w g h b = IsBalanced-Rewritten s u id new w (rw g h) b

  pub Migrated-IsBalanced :
      (id plan_id : ℕ) (s u : State L) → Migrated id plan_id s u → IsBalanced s → IsBalanced u
  Migrated-IsBalanced id plan_id s u m b =
      IsBalanced-put s u id m.sub
        (record m.sub {
          amount = m.new.amount;
          interval_seconds = m.new.interval_seconds;
          usage_enabled = m.new.usage_enabled;
          lifetime_cap = m.new.lifetime_cap;
        })
        (record {
          accounted = m.totals;
          subs = m.subs;
          balances = ap (λ (x : MerchantStore). x.merchant_balances) m.merchants;
        })
        m.stored (refl, refl) b

module _ {L : Type 0} (env : Env L) where
  pub Moved-IsBalanced :
      (id : ℕ) (sub : Subscription) (target : SubscriptionStatus) (s u : State L)
      → get s.subscriptions.subs id ≡ some sub
      → Moved env id sub target s u
      → IsBalanced s
      → IsBalanced u
  unfolding put_subscription
  Moved-IsBalanced id sub target s u g m b =
      let balances = ap (λ (x : MerchantStore). x.merchant_balances) m.merchants in
      elim m.only [
        | inl e ↦
            IsBalanced-SameAccounts s u
              (record {
                accounted = m.totals;
                subs = ap (λ (x : SubscriptionStore). x.subs) e;
                balances = balances;
              })
              b
        | inr e ↦
            IsBalanced-put s u id sub (record sub { status = target })
              (record {
                accounted = m.totals;
                subs = ap (λ (x : SubscriptionStore). x.subs) e;
                balances = balances;
              })
              g (refl, refl) b
      ]

  mark_expired-same :
      (sub marked : Subscription)
      → mark_expired sub env.timestamp ≡ ok marked
      → (marked.token ≡ sub.token) × (marked.prepaid_balance ≡ sub.prepaid_balance)
  unfolding mark_expired validate_status_transition
  mark_expired-same sub marked e = ground arith

  archive-IsBalanced :
      (id : ℕ) (sub : Subscription) (s : State L)
      → get s.subscriptions.subs id ≡ some sub
      → IsBalanced s
      → Yields (archive env id sub s) (λ _ u. IsBalanced u)
  unfolding archive put_subscription publish
  archive-IsBalanced id sub s g b =
      let Q : Unit {0} → State L → Type 0 = λ _ u. IsBalanced u in
      lift-Yields (mark_expired sub env.timestamp) _ Q s λ marked e.
        lift-Yields (validate_status_transition marked.status SubscriptionStatus.archived) _ Q s
          λ _ _.
            IsBalanced-put s _ id sub (record marked { status = SubscriptionStatus.archived })
              (record { accounted = refl; subs = refl; balances = refl }) g
              (mark_expired-same sub marked e) b

  pub do_cleanup_subscription-IsBalanced :
      (id : ℕ) (authorizer : Address) (s u : State L)
      → IsBalanced s
      → do_cleanup_subscription env id authorizer s ≡ (ok tt, u)
      → IsBalanced u
  unfolding do_cleanup_subscription get_subscription
  do_cleanup_subscription-IsBalanced id authorizer s u b e =
      let Q : Unit {0} → State L → Type 0 = λ _ v. IsBalanced v in
      Yields-ok (do_cleanup_subscription env id authorizer s) Q
        (check-Yields (require_auth env authorizer) _ Q s (require_auth-same env authorizer s) λ _.
          or_fail-Yields (get s.subscriptions.subs id) Error.not_found _ Q s λ sub g.
            fail_if-Yields
              (not (sub.status == SubscriptionStatus.cancelled || is_expired sub env.timestamp))
              Error.invalid_status_transition _ Q s
              λ _.
                when-Yields (not (sub.status == SubscriptionStatus.archived)) (archive env id sub)
                  IsBalanced s b (archive-IsBalanced id sub s g b))
        e
