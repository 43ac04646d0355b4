-- ===== src/Blocklist/Rights.antt =====
-- Who may put a subscriber on the blocklist of blocklist.rs, and what that stops.
use stellabill_contracts.Prelude.{
  ℕ, ◌≡◌, ◌≢◌, refl, ap, arith, Bool-cases, true, false, Option, none, some, String, List, [], ◌∷◌,
  not, ◌&&◌, ◌⊎◌, inl, inr, nat_eq, Map, get, get-set_self, unwrap_or,
}
use mathlib.Core.List.{Memᴰ}
use stellabill_contracts.Types.Errors.{Error}
use stellabill_contracts.Types.Records.{
  Address, Subscription, SubscriptionStatus, BlocklistEntry, status_eq,
}
use stellabill_contracts.Host.State.{State, Env}
use stellabill_contracts.Host.Calls.{ok, publish, require_auth}
use stellabill_contracts.Host.Outcomes.{Yields, fail_if-Yields, check-Yields, Yields-ok}
use stellabill_contracts.Blocklist.{is_blocklisted}
use stellabill_contracts.Blocklist.Refusals.{Refused, blocklisted-Refused}
use stellabill_contracts.Blocklist.Calls.{
  is_admin, is_relation, has_relation, has_merchant_subscription_with_subscriber, put_entry,
  do_add_to_blocklist,
}
use stellabill_contracts.Solvency.Steps.{require_auth-same}

-- A subscription of the merchant's index that is the subscriber's and not cancelled.
pub record Relation (subs : Map ℕ Subscription) (ids : List ℕ) (subscriber : Address) : Type 0 where
  pub id : ℕ
  pub sub : Subscription
  pub indexed : Memᴰ id ids
  pub stored : get subs id ≡ some sub
  pub theirs : sub.subscriber ≡ subscriber
  pub lasting : sub.status ≢ SubscriptionStatus.cancelled

is_relation-some :
    (subscriber : Address) (entry : Option Subscription)
    → is_relation subscriber entry ≡ true
    → (sub : Subscription) × (entry ≡ some sub)
      × (sub.subscriber ≡ subscriber)
      × (sub.status ≢ SubscriptionStatus.cancelled)
unfolding is_relation
is_relation-some subscriber none h = absurd cc
is_relation-some subscriber (some sub) h = (
  sub,
  refl,
  ground (arith, nat_eq.same_iff sub.subscriber subscriber),
  λ e. ground (arith, status_eq.same_iff sub.status SubscriptionStatus.cancelled, e),
)

has_relation-Relation :
    (subs : Map ℕ Subscription) (subscriber : Address) (ids : List ℕ)
    → has_relation subs subscriber ids ≡ true
    → Relation subs ids subscriber
unfolding has_relation
has_relation-Relation subs subscriber [] h = absurd cc
has_relation-Relation subs subscriber (id ∷ ids) h =
    elim (Bool-cases (is_relation subscriber (get subs id))) [
      | inl e ↦
          let r = is_relation-some subscriber (get subs id) e in
          record {
            id = id;
            sub = r.0;
            indexed = Memᴰ.head refl;
            stored = r.1;
            theirs = r.2;
            lasting = r.3;
          }
      | inr e ↦
          let r = has_relation-Relation subs subscriber ids (ground arith) in
          record {
            id = r.id;
            sub = r.sub;
            indexed = Memᴰ.tail r.indexed;
            stored = r.stored;
            theirs = r.theirs;
            lasting = r.lasting;
          }
    ]

by_admin :
    (admin : Option Address) (authorizer : Address)
    → is_admin admin authorizer ≡ true
    → admin ≡ some authorizer
by_admin none authorizer h = absurd cc
by_admin (some a) authorizer h = ap some ((nat_eq.same_iff a authorizer).0 h)

module _ {L : Type 0} where
  -- A subscriber is put on the list once, by the admin or by a merchant with a subscription of theirs
  -- that is not cancelled, and is refused afterwards.
  pub record Blocked (authorizer subscriber : Address) (s u : State L) : Type 0 where
    pub right :
        (s.admin_store.admin ≡ some authorizer)
        ⊎ Relation s.subscriptions.subs
            (unwrap_or (get s.subscriptions.merchant_subs authorizer) [])
            subscriber
    pub fresh : get s.admin_store.blocked subscriber ≡ none
    pub listed :
        (v : State L) → v.admin_store.blocked ≡ u.admin_store.blocked → Refused subscriber v
    pub subscriptions : u.subscriptions ≡ s.subscriptions

  related :
      (s : State L) (merchant subscriber : Address)
      → has_merchant_subscription_with_subscriber s merchant subscriber ≡ true
      → Relation s.subscriptions.subs
          (unwrap_or (get s.subscriptions.merchant_subs merchant) [])
          subscriber
  unfolding has_merchant_subscription_with_subscriber
  related s merchant subscriber h =
      has_relation-Relation s.subscriptions.subs subscriber
        (unwrap_or (get s.subscriptions.merchant_subs merchant) []) h

  has_right :
      (s : State L) (authorizer subscriber : Address)
      → not (is_admin s.admin_store.admin authorizer)
          && not (has_merchant_subscription_with_subscriber s authorizer subscriber)
        ≡ false
      → (s.admin_store.admin ≡ some authorizer)
        ⊎ Relation s.subscriptions.subs
            (unwrap_or (get s.subscriptions.merchant_subs authorizer) [])
            subscriber
  has_right s authorizer subscriber h =
      elim (Bool-cases (is_admin s.admin_store.admin authorizer)) [
        | inl e ↦ inl (by_admin s.admin_store.admin authorizer e)
        | inr e ↦ inr (related s authorizer subscriber (ground arith))
      ]

  not_listed :
      (s : State L) (subscriber : Address)
      → is_blocklisted s subscriber ≡ false
      → get s.admin_store.blocked subscriber ≡ none
  unfolding is_blocklisted
  not_listed s subscriber h = ground arith

  now_listed :
      (s v : State L) (subscriber : Address) (entry : BlocklistEntry)
      → entry.subscriber ≡ subscriber
      → v.admin_store.blocked ≡ (put_entry entry s).admin_store.blocked
      → is_blocklisted v subscriber ≡ true
  unfolding is_blocklisted put_entry
  now_listed s v subscriber entry e k =
      rw (k, ← e) (rw (get-set_self s.admin_store.blocked entry.subscriber entry) refl)

module _ {L : Type 0} (env : Env L) where
  do_add_to_blocklist-Yields :
      (authorizer subscriber : Address) (reason : Option String) (s : State L)
      → Yields
          (do_add_to_blocklist env authorizer subscriber reason s)
          (λ _ u. Blocked authorizer subscriber s u)
  unfolding do_add_to_blocklist put_entry publish
  do_add_to_blocklist-Yields authorizer subscriber reason s =
      let Q : Unit {0} → State L → Type 0 = λ _ u. Blocked authorizer subscriber s u in
      check-Yields (require_auth env authorizer) _ Q s (require_auth-same env authorizer s) λ _.
        fail_if-Yields
          (not (is_admin s.admin_store.admin authorizer)
            && not (has_merchant_subscription_with_subscriber s authorizer subscriber))
          Error.forbidden _ Q s
          λ r. fail_if-Yields (is_blocklisted s subscriber) Error.invalid_input _ Q s λ f. record {
            right = has_right s authorizer subscriber r;
            fresh = not_listed s subscriber f;
            listed = λ v k. blocklisted-Refused subscriber v (
                now_listed s v subscriber
                  (record {
                    subscriber = subscriber;
                    added_by = authorizer;
                    added_at = env.timestamp;
                    reason = reason;
                  })
                  refl k);
            subscriptions = refl;
          }

  -- A call that puts a subscriber on the blocklist and returns was made by the admin or by a
  -- merchant in whose index stands a subscription of that subscriber that is not cancelled; the
  -- subscriber was not on the list before, and keeps all subscriptions. As long as the blocklist
  -- stays as it is then, none of the subscriber's deposits, creations with the default token, with
  -- a given one and from a plan, migrations and resumptions succeeds.
  pub do_add_to_blocklist-Blocked :
      (authorizer subscriber : Address) (reason : Option String) (s u : State L)
      → do_add_to_blocklist env authorizer subscriber reason s ≡ (ok tt, u)
      → Blocked authorizer subscriber s u
  do_add_to_blocklist-Blocked authorizer subscriber reason s u e =
      Yields-ok (do_add_to_blocklist env authorizer subscriber reason s)
        (λ _ v. Blocked authorizer subscriber s v)
        (do_add_to_blocklist-Yields authorizer subscriber reason s) e
