-- ===== src/Host/Calls.antt =====
-- The shape of every function of the contract: it reads and writes the state, and returns a value,
-- an error of its own, or a trap. What was written before an error stays in the state handed on;
-- `invoke` is the call of an entry point, of which the host keeps no effect unless it returns `Ok`.
use stellabill_contracts.Prelude.{
  ℤ, Bool, true, false, Option, none, some, String, ◌∷◌, get, set, remove, is_some, string_eq,
}
use stellabill_contracts.Types.Errors.{Error}
use stellabill_contracts.Types.Records.{Address}
use stellabill_contracts.Types.Events.{Event}
use stellabill_contracts.Host.State.{State, Env}

pub data Result (A : Type 0) : Type 0 where
  ok : A → Result A
  err : Error → Result A
  trap : Result A

abbrev pub Call : Type 0 → Type 0 → Type 0
Call L A = State L → Result A × State L

module _ {L : Type 0} where
  abbrev pub and_then : {A B : Type 0} → Result A × State L → (A → Call L B) → Result B × State L
  and_then (ok a, s) f = f a s
  and_then (err e, s) f = (err e, s)
  and_then (trap, s) f = (trap, s)

  infixl 5 ◌>>=◌ ◌>>◌
  abbrev pub ◌>>=◌ : {A B : Type 0} → Call L A → (A → Call L B) → Call L B
  ◌>>=◌ m f s = and_then (m s) f

  abbrev pub ◌>>◌ : {A B : Type 0} → Call L A → Call L B → Call L B
  m >> k = m >>= λ _. k

  abbrev pub pure : {A : Type 0} → A → Call L A
  pure a s = (ok a, s)

  abbrev pub fail : {A : Type 0} → Error → Call L A
  fail e s = (err e, s)

  abbrev pub abort : {A : Type 0} → Call L A
  abort s = (trap, s)

  abbrev pub gets : {A : Type 0} → (State L → A) → Call L A
  gets f s = (ok (f s), s)

  abbrev pub modify : (State L → State L) → Call L (Unit {0})
  modify f s = (ok tt, f s)

  abbrev pub fail_if : Bool → Error → Call L (Unit {0})
  fail_if true e = fail e
  fail_if false e = pure tt

  abbrev pub when : Bool → Call L (Unit {0}) → Call L (Unit {0})
  when true m = m
  when false m = pure tt

  -- `ok_or(e)?`
  abbrev pub or_fail : {A : Type 0} → Option A → Error → Call L A
  or_fail none e = fail e
  or_fail (some a) e = pure a

  -- `expect`
  abbrev pub or_abort : {A : Type 0} → Option A → Call L A
  or_abort none = abort
  or_abort (some a) = pure a

  -- `?` on a pure result.
  abbrev pub lift : {A : Type 0} → Result A → Call L A
  lift r s = (r, s)

  unfoldable pub publish : Event → Call L (Unit {0})
  publish e s = (ok tt, record s { events = e ∷ s.events })

  abbrev committed : {A : Type 0} → State L → Result A × State L → Result A × State L
  committed s (ok a, s') = (ok a, s')
  committed s (err e, s') = (err e, s)
  committed s (trap, s') = (trap, s)

  unfoldable pub invoke : {A : Type 0} → Call L A → Call L A
  invoke m s = committed s (m s)

  -- `ReentrancyGuard::lock`, and `drop` at the end of the guarded call. A trap skips the drop.
  unfoldable pub lock : String → Call L (Unit {0})
  lock name s =
      and_then (fail_if (is_some (get s.locks name)) Error.reentrancy s)
        λ _ s'. (ok tt, record s' { locks = set s'.locks name true })

  unfoldable pub unlock : String → State L → State L
  unlock name s = record s { locks = remove s.locks name }

  abbrev pub released : {A : Type 0} → String → Result A × State L → Result A × State L
  released name (ok a, s) = (ok a, unlock name s)
  released name (err e, s) = (err e, unlock name s)
  released name (trap, s) = (trap, s)

  unfoldable pub guarded : {A : Type 0} → String → Call L A → Call L A
  guarded name m = lock name >>= λ _ s. released name (m s)

  abbrev pub delivered : Option L → State L → Result (Unit {0}) × State L
  delivered none s = (trap, s)
  delivered (some l) s = (ok tt, record s { ledger = l })

module _ {L : Type 0} (env : Env L) where
  -- The host traps when the authorization is missing.
  unfoldable pub require_auth : Address → Call L (Unit {0})
  require_auth a s = (if_authorized (env.authorized a), s)
    where
      if_authorized : Bool → Result (Unit {0})
      if_authorized true = ok tt
      if_authorized false = trap

  unfoldable pub token_balance : Address → Address → Call L ℤ
  token_balance token holder s = (ok (env.token_contract.balance s.ledger token holder), s)

  unfoldable pub transfer : Address → Address → Address → ℤ → Call L (Unit {0})
  transfer token from to amount s =
      delivered (env.token_contract.transfer s.ledger token from to amount) s
