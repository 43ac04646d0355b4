-- ===== src/Metadata.antt =====
-- contracts/subscription_vault/src/metadata.rs: keys and values that the parties of a subscription
-- attach to it. The length of a text is its length in bytes.
pub mod Keys
pub mod Indexed
use stellabill_contracts.Prelude.{
  ℕ, Bool, true, false, String, List, [], ◌∷◌, ◌++◌, not, ◌==◌, ◌||◌, nat_eq, string_eq, pair_eq,
  ltb, leb, length, get, set, remove, unwrap_or, if◌then◌else◌,
}
use Prim.Native.String.{len}
use stellabill_contracts.Types.Errors.{Error}
use stellabill_contracts.Types.Records.{Address, SubscriptionStatus, status_eq}
use stellabill_contracts.Types.Events.{metadata_set, metadata_deleted}
use stellabill_contracts.Host.State.{State, Env}
use stellabill_contracts.Host.Calls.{
  Call, ◌>>=◌, ◌>>◌, pure, gets, modify, fail_if, or_fail, publish, require_auth,
}
use stellabill_contracts.Store.{get_subscription}
use stellabill_contracts.Subscription.Lifecycle.{is_party}

abbrev pub max_metadata_keys : ℕ
max_metadata_keys = 10

abbrev pub max_metadata_key_length : ℕ
max_metadata_key_length = 32

abbrev pub max_metadata_value_length : ℕ
max_metadata_value_length = 256

-- The loop that looks for a key.
unfoldable pub has_key : String → List String → Bool
has_key key [] = false
has_key key (k ∷ ks) = k == key || has_key key ks

-- The keys without the first one that is equal.
unfoldable pub remove_key : String → List String → List String
remove_key key [] = []
remove_key key (k ∷ ks) = let rest = remove_key key ks in if k == key then ks else k ∷ rest

module _ {L : Type 0} where
  unfoldable pub metadata_keys_of : State L → ℕ → List String
  metadata_keys_of s id = unwrap_or (get s.metadata.metadata_keys id) []

  unfoldable pub set_metadata_keys : ℕ → List String → State L → State L
  set_metadata_keys id keys s = record s {
    metadata = record metadata { metadata_keys = set metadata_keys id keys };
  }
    where
      open s use {metadata}
      open metadata use {metadata_keys}

  unfoldable pub set_metadata_value : ℕ → String → String → State L → State L
  set_metadata_value id key value s = record s {
    metadata = record metadata { metadata_values = set metadata_values (id, key) value };
  }
    where
      open s use {metadata}
      open metadata use {metadata_values}

  unfoldable pub remove_metadata_value : ℕ → String → State L → State L
  remove_metadata_value id key s = record s {
    metadata = record metadata { metadata_values = remove metadata_values (id, key) };
  }
    where
      open s use {metadata}
      open metadata use {metadata_values}

  -- `if !found`: a new key goes to the end of the list, up to the limit.
  unfoldable pub add_key : ℕ → String → List String → Bool → Call L (Unit {0})
  unfolding set_metadata_keys
  add_key id key keys true = pure tt
  add_key id key keys false = do
    fail_if (leb max_metadata_keys (length keys)) Error.metadata_key_limit_reached
    modify (set_metadata_keys id (keys ++ key ∷ []))

  unfoldable pub do_get_metadata : ℕ → String → Call L String
  unfolding get_subscription
  do_get_metadata id key = do
    sub ← get_subscription id
    value ← gets (λ s. get s.metadata.metadata_values (id, key))
    or_fail value Error.not_found

  unfoldable pub do_list_metadata_keys : ℕ → Call L (List String)
  unfolding get_subscription metadata_keys_of
  do_list_metadata_keys id = do sub ← get_subscription id; gets (λ s. metadata_keys_of s id)

module _ {L : Type 0} (env : Env L) where
  unfoldable pub do_set_metadata : ℕ → Address → String → String → Call L (Unit {0})
  unfolding require_auth get_subscription metadata_keys_of has_key add_key set_metadata_value
      publish
  do_set_metadata id authorizer key value = do
    require_auth env authorizer
    sub ← get_subscription id
    fail_if (not (is_party sub authorizer)) Error.forbidden
    fail_if (sub.status == SubscriptionStatus.cancelled) Error.not_active
    fail_if (len key == 0 || ltb max_metadata_key_length (len key)) Error.metadata_key_too_long
    fail_if (ltb max_metadata_value_length (len value)) Error.metadata_value_too_long
    keys ← gets (λ s. metadata_keys_of s id)
    add_key id key keys (has_key key keys)
    modify (set_metadata_value id key value)
    publish (metadata_set id key authorizer)

  unfoldable pub do_delete_metadata : ℕ → Address → String → Call L (Unit {0})
  unfolding require_auth get_subscription metadata_keys_of has_key remove_key set_metadata_keys
      remove_metadata_value publish
  do_delete_metadata id authorizer key = do
    require_auth env authorizer
    sub ← get_subscription id
    fail_if (not (is_party sub authorizer)) Error.forbidden
    keys ← gets (λ s. metadata_keys_of s id)
    fail_if (not (has_key key keys)) Error.not_found
    modify (set_metadata_keys id (remove_key key keys))
    modify (remove_metadata_value id key)
    publish (metadata_deleted id key authorizer)
