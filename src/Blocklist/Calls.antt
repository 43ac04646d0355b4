-- ===== src/Blocklist/Calls.antt =====
-- The calls of blocklist.rs that add and remove subscribers.
use stellabill_contracts.Prelude.{
  ℕ, Bool, false, Option, none, some, String, List, [], ◌∷◌, not, ◌==◌, ◌&&◌, ◌||◌, nat_eq, get,
  set, remove, unwrap_or, Map,
}
use stellabill_contracts.Types.Errors.{Error}
use stellabill_contracts.Types.Records.{
  Address, Subscription, SubscriptionStatus, BlocklistEntry, status_eq,
}
use stellabill_contracts.Types.Events.{blocklist_added, blocklist_removed}
use stellabill_contracts.Host.State.{State, Env}
use stellabill_contracts.Host.Calls.{
  Call, ◌>>=◌, ◌>>◌, gets, modify, fail_if, or_fail, publish, require_auth,
}
use stellabill_contracts.Blocklist.{is_blocklisted}
use stellabill_contracts.Admin.{require_admin_auth}

-- A subscription of the subscriber that is not cancelled.
unfoldable pub is_relation : Address → Option Subscription → Bool
is_relation subscriber none = false
is_relation subscriber (some sub) =
    sub.subscriber == subscriber && not (sub.status == SubscriptionStatus.cancelled)

unfoldable pub has_relation : Map ℕ Subscription → Address → List ℕ → Bool
unfolding is_relation
has_relation subs subscriber [] = false
has_relation subs subscriber (id ∷ ids) =
    is_relation subscriber (get subs id) || has_relation subs subscriber ids

abbrev pub is_admin : Option Address → Address → Bool
is_admin none authorizer = false
is_admin (some admin) authorizer = admin == authorizer

module _ {L : Type 0} where
  unfoldable pub has_merchant_subscription_with_subscriber : State L → Address → Address → Bool
  unfolding has_relation
  has_merchant_subscription_with_subscriber s merchant subscriber =
      has_relation s.subscriptions.subs subscriber
        (unwrap_or (get s.subscriptions.merchant_subs merchant) [])

  unfoldable pub put_entry : BlocklistEntry → State L → State L
  put_entry entry s = record s {
    admin_store = record admin_store { blocked = set blocked entry.subscriber entry };
  }
    where
      open s use {admin_store}
      open admin_store use {blocked}

  unfoldable pub drop_entry : Address → State L → State L
  drop_entry subscriber s = record s {
    admin_store = record admin_store { blocked = remove blocked subscriber };
  }
    where
      open s use {admin_store}
      open admin_store use {blocked}

  unfoldable pub get_blocklist_entry : Address → Call L BlocklistEntry
  get_blocklist_entry subscriber s =
      or_fail (get s.admin_store.blocked subscriber) Error.not_found s

module _ {L : Type 0} (env : Env L) where
  unfoldable pub do_add_to_blocklist : Address → Address → Option String → Call L (Unit {0})
  unfolding require_auth has_merchant_subscription_with_subscriber is_blocklisted put_entry publish
  do_add_to_blocklist authorizer subscriber reason = do
    require_auth env authorizer
    by_admin ← gets (λ s. is_admin s.admin_store.admin authorizer)
    by_merchant ← gets (λ s. has_merchant_subscription_with_subscriber s authorizer subscriber)
    fail_if (not by_admin && not by_merchant) Error.forbidden
    blocked ← gets (λ s. is_blocklisted s subscriber)
    fail_if blocked Error.invalid_input
    modify (
        put_entry (record {
          subscriber = subscriber;
          added_by = authorizer;
          added_at = env.timestamp;
          reason = reason;
        }))
    publish (blocklist_added subscriber authorizer env.timestamp reason)

  unfoldable pub do_remove_from_blocklist : Address → Address → Call L (Unit {0})
  unfolding require_admin_auth is_blocklisted drop_entry publish
  do_remove_from_blocklist admin subscriber = do
    require_admin_auth env admin
    blocked ← gets (λ s. is_blocklisted s subscriber)
    fail_if (not blocked) Error.not_found
    modify (drop_entry subscriber)
    publish (blocklist_removed subscriber admin env.timestamp)
