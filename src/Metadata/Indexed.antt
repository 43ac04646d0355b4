-- ===== src/Metadata/Indexed.antt =====
-- The list of the keys and the values of metadata.rs, which the two calls that write keep in step.
use stellabill_contracts.Prelude.{
  ℕ, ◌≡◌, refl, sym, ap, subst, ◌∙◌, ◌≤◌, ◌<◌, arith, Bool, true, false, Bool-cases, inl, inr,
  Option, some, String, List, [], ◌∷◌, ◌++◌, not, ◌==◌, ◌||◌, nat_eq, string_eq, pair_eq, leb, ltb,
  Map, get, set, remove, get-set, get-set_self, get-remove, is_some, unwrap_or, length,
}
use Prim.Native.String.{len}
use stellabill_contracts.Store.{get_subscription}
use stellabill_contracts.Types.Errors.{Error}
use stellabill_contracts.Types.Records.{Address, SubscriptionStatus, status_eq}
use stellabill_contracts.Host.State.{State, Env}
use stellabill_contracts.Host.Calls.{ok, publish, require_auth}
use stellabill_contracts.Host.Outcomes.{
  Yields, check-Yields, fail_if-Yields, or_fail-Yields, step-Yields, Yields-ok,
}
use stellabill_contracts.Subscription.Lifecycle.{is_party}
use stellabill_contracts.Solvency.Steps.{require_auth-same}
use stellabill_contracts.Metadata.{
  max_metadata_keys, has_key, remove_key, metadata_keys_of, set_metadata_keys, set_metadata_value,
  remove_metadata_value, max_metadata_key_length, max_metadata_value_length, add_key,
  do_set_metadata, do_delete_metadata,
}
use stellabill_contracts.Metadata.Keys.{
  is_distinct, has_key-append, is_distinct-append, has_key-remove, is_distinct-remove,
  length-append, length-remove,
}

-- The keys are those that have a value, each once and no more than the limit.
pub record Indexed (keys : List String) (value : String → Option String) : Type 0 where
  pub listed : (key : String) → has_key key keys ≡ is_some (value key)
  pub distinct : is_distinct keys ≡ true
  pub bounded : length keys ≤ max_metadata_keys

abbrev AreIndexed : Map ℕ (List String) → Map (ℕ × String) String → Type 0
AreIndexed keys values =
    (id : ℕ) → Indexed (unwrap_or (get keys id) []) (λ key. get values (id, key))

module _ (keys : Map ℕ (List String)) (values : Map (ℕ × String) String) (id : ℕ) (key : String)
    (h : AreIndexed keys values) where
  abbrev old : List String
  old = unwrap_or (get keys id) []

  overwritten :
      (value : String) → has_key key old ≡ true → AreIndexed keys (set values (id, key) value)
  overwritten value k other = record {
    listed = λ x. ground (
      arith,
      k,
      (h other).listed x,
      get-set values (id, key) (other, x) value,
      nat_eq.same_iff id other,
      string_eq.same_iff key x,
    );
    distinct = (h other).distinct;
    bounded = (h other).bounded;
  }

  -- A new list of keys for `id`, in step with its values, where those of the others stay.
  replaced :
      (new : List String) (changed : Map (ℕ × String) String)
      → Indexed new (λ x. get changed (id, x))
      → ((other : ℕ) (x : String)
          → (id == other) ≡ false
          → get changed (other, x) ≡ get values (other, x))
      → AreIndexed (set keys id new) changed
  replaced new changed n same other = elim (Bool-cases (id == other)) [
    | inl e ↦
        let p : id ≡ other = (nat_eq.same_iff id other).0 e in
        subst
          (λ (o : ℕ). Indexed (unwrap_or (get (set keys id new) o) []) (λ x. get changed (o, x))) p
          (rw (get-set_self keys id new) n)
    | inr e ↦
        let kept : get (set keys id new) other ≡ get keys other =
          ground (arith, e, get-set keys id other new) in
        rw kept (record {
          listed = λ x. (h other).listed x ∙ ap is_some (sym (same other x e));
          distinct = (h other).distinct;
          bounded = (h other).bounded;
        })
  ]

  inserted :
      (value : String)
      → has_key key old ≡ false
      → length old < max_metadata_keys
      → AreIndexed (set keys id (old ++ key ∷ [])) (set values (id, key) value)
  inserted value k room =
      replaced (old ++ key ∷ []) (set values (id, key) value)
        (record {
          listed = λ x. ground (
            arith,
            (h id).listed x,
            has_key-append x key old,
            get-set values (id, key) (id, x) value,
            nat_eq.same_iff id id,
          );
          distinct = is_distinct-append key old (h id).distinct k;
          bounded = omega (arith, length-append key old, room);
        })
        λ other x e. ground (arith, e, get-set values (id, key) (other, x) value)

  deleted : AreIndexed (set keys id (remove_key key old)) (remove values (id, key))
  deleted =
      replaced (remove_key key old) (remove values (id, key))
        (record {
          listed = λ x. ground (
            arith,
            (h id).listed x,
            has_key-remove x key old (h id).distinct,
            get-remove values (id, key) (id, x),
            nat_eq.same_iff id id,
          );
          distinct = is_distinct-remove key old (h id).distinct;
          bounded = omega (arith, length-remove key old, (h id).bounded);
        })
        λ other x e. ground (arith, e, get-remove values (id, key) (other, x))

module _ {L : Type 0} where
  -- Every subscription's list of keys is in step with its values.
  unfoldable pub IsIndexed : State L → Type 0
  IsIndexed s =
      (id : ℕ) → Indexed (metadata_keys_of s id) (λ key. get s.metadata.metadata_values (id, key))

  -- Once the key is in the list, the value goes in.
  add_key-Yields :
      (id : ℕ) (key value : String) (seen : Bool) (s : State L)
      → IsIndexed s
      → has_key key (metadata_keys_of s id) ≡ seen
      → Yields
          (add_key id key (metadata_keys_of s id) seen s)
          (λ _ u. IsIndexed (set_metadata_value id key value u))
  unfolding IsIndexed metadata_keys_of add_key set_metadata_keys set_metadata_value
  add_key-Yields id key value true s h e =
      overwritten s.metadata.metadata_keys s.metadata.metadata_values id key h value e
  add_key-Yields id key value false s h e =
      let keys = metadata_keys_of s id in
      fail_if-Yields (leb max_metadata_keys (length keys)) Error.metadata_key_limit_reached _
        (λ _ u. IsIndexed (set_metadata_value id key value u)) s
        λ room.
          inserted s.metadata.metadata_keys s.metadata.metadata_values id key h value e
            (ground arith)

module _ {L : Type 0} (env : Env L) where
  do_set_metadata-Yields :
      (id : ℕ) (authorizer : Address) (key value : String) (s : State L)
      → IsIndexed s
      → Yields
          (do_set_metadata env id authorizer key value s)
          (λ _ u. IsIndexed u × (get u.metadata.metadata_values (id, key) ≡ some value))
  unfolding do_set_metadata get_subscription set_metadata_value publish IsIndexed metadata_keys_of
  do_set_metadata-Yields id authorizer key value s h =
      let Q : Unit {0} → State L → Type 0 =
        λ _ u. IsIndexed u × (get u.metadata.metadata_values (id, key) ≡ some value) in
      let keys = metadata_keys_of s id in
      check-Yields (require_auth env authorizer) _ Q s (require_auth-same env authorizer s) λ _.
        or_fail-Yields (get s.subscriptions.subs id) Error.not_found _ Q s λ sub g.
          fail_if-Yields (not (is_party sub authorizer)) Error.forbidden _ Q s λ _.
            fail_if-Yields (sub.status == SubscriptionStatus.cancelled) Error.not_active _ Q s λ _.
              fail_if-Yields (len key == 0 || ltb max_metadata_key_length (len key))
                Error.metadata_key_too_long _ Q s
                λ _.
                  fail_if-Yields (ltb max_metadata_value_length (len value))
                    Error.metadata_value_too_long _ Q s
                    λ _.
                      step-Yields (add_key id key keys (has_key key keys)) _ Q s
                        (λ _ u. IsIndexed (set_metadata_value id key value u))
                        (add_key-Yields id key value (has_key key keys) s h refl)
                        λ _ u k. (k, get-set_self u.metadata.metadata_values (id, key) value)

  do_delete_metadata-Yields :
      (id : ℕ) (authorizer : Address) (key : String) (s : State L)
      → IsIndexed s
      → Yields (do_delete_metadata env id authorizer key s) (λ _ u. IsIndexed u)
  unfolding do_delete_metadata get_subscription set_metadata_keys remove_metadata_value publish
      IsIndexed metadata_keys_of
  do_delete_metadata-Yields id authorizer key s h =
      let Q : Unit {0} → State L → Type 0 = λ _ u. IsIndexed u in
      check-Yields (require_auth env authorizer) _ Q s (require_auth-same env authorizer s) λ _.
        or_fail-Yields (get s.subscriptions.subs id) Error.not_found _ Q s λ sub g.
          fail_if-Yields (not (is_party sub authorizer)) Error.forbidden _ Q s λ _.
            fail_if-Yields (not (has_key key (metadata_keys_of s id))) Error.not_found _ Q s
              λ _. deleted s.metadata.metadata_keys s.metadata.metadata_values id key h

-- One call that returns.
pub data Edit {L : Type 0} : State L → State L → Type 0 where
  written :
      (env : Env L) (id : ℕ) (authorizer : Address) (key value : String) {s u : State L}
      → do_set_metadata env id authorizer key value s ≡ (ok tt, u)
      → Edit s u
  erased :
      (env : Env L) (id : ℕ) (authorizer : Address) (key : String) {s u : State L}
      → do_delete_metadata env id authorizer key s ≡ (ok tt, u)
      → Edit s u
  -- Any call that leaves the metadata alone.
  elsewhere : {s u : State L} → u.metadata ≡ s.metadata → Edit s u

pub data Edits {L : Type 0} : State L → State L → Type 0 where
  done : {s : State L} → Edits s s
  then : {s t u : State L} → Edit s t → Edits t u → Edits s u

module _ {L : Type 0} where
  Edit-IsIndexed : (s u : State L) → Edit s u → IsIndexed s → IsIndexed u
  unfolding IsIndexed metadata_keys_of
  Edit-IsIndexed s u (written env id authorizer key value e) h =
      (Yields-ok (do_set_metadata env id authorizer key value s)
        (λ _ v. IsIndexed v × (get v.metadata.metadata_values (id, key) ≡ some value))
        (do_set_metadata-Yields env id authorizer key value s h) e).0
  Edit-IsIndexed s u (erased env id authorizer key e) h =
      Yields-ok (do_delete_metadata env id authorizer key s) (λ _ v. IsIndexed v)
        (do_delete_metadata-Yields env id authorizer key s h) e
  Edit-IsIndexed s u (elsewhere e) h = λ id. rw e (h id)

  -- From metadata in step, any sequence of writes, deletions and calls that leave the metadata
  -- alone, each of which returns, in any order, leads to metadata in step: for every subscription
  -- the listed keys are those that have a value, each once, and no more than ten.
  pub Edits-IsIndexed : (s u : State L) → Edits s u → IsIndexed s → IsIndexed u
  Edits-IsIndexed s u done h = h
  Edits-IsIndexed s u (then {t = t} edit more) h =
      Edits-IsIndexed t u more (Edit-IsIndexed s t edit h)
