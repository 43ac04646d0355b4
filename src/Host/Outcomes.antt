-- ===== src/Host/Outcomes.antt =====
-- How properties of calls compose: `Yields` speaks of the runs that return a value, `Relates` of
-- every run, the failed ones included.
use stellabill_contracts.Prelude.{
  ◌≡◌, refl, subst, Bool, true, false, Option, none, some, if◌then◌else◌,
}
use stellabill_contracts.Types.Errors.{Error}
use stellabill_contracts.Host.State.{State}
use stellabill_contracts.Host.Calls.{
  Call, Result, ok, err, trap, and_then, ◌>>=◌, when, lift, fail_if, or_fail, or_abort, delivered,
}

module _ {L : Type 0} where
  abbrev pub Yields : {A : Type 0} → Result A × State L → (A → State L → Type 0) → Type 0
  Yields (ok a, s) Q = Q a s
  Yields (err e, s) Q = Unit
  Yields (trap, s) Q = Unit

  and_then-Yields :
      {A B : Type 0} (r : Result A × State L) (f : A → Call L B) (Q : B → State L → Type 0)
      → Yields r (λ a s. Yields (f a s) Q)
      → Yields (and_then r f) Q
  and_then-Yields (ok a, s) f Q h = h
  and_then-Yields (err e, s) f Q h = tt
  and_then-Yields (trap, s) f Q h = tt

  -- The rule for `m >>= f`.
  pub bind-Yields :
      {A B : Type 0} (m : Call L A) (f : A → Call L B) (Q : B → State L → Type 0) (s : State L)
      → Yields (m s) (λ a t. Yields (f a t) Q)
      → Yields ((m >>= f) s) Q
  bind-Yields m f Q s h = and_then-Yields (m s) f Q h

  -- A postcondition may be weakened.
  pub weaken :
      {A : Type 0} (r : Result A × State L) (P Q : A → State L → Type 0)
      → Yields r P
      → ((a : A) (s : State L) → P a s → Q a s)
      → Yields r Q
  weaken (ok a, s) P Q h w = w a s h
  weaken (err e, s) P Q h w = tt
  weaken (trap, s) P Q h w = tt

  -- The rule for a step that only reads the state, or stops.
  pub check-Yields :
      {A B : Type 0} (m : Call L A) (f : A → Call L B) (Q : B → State L → Type 0) (s : State L)
      → Yields (m s) (λ _ u. u ≡ s)
      → ((a : A) → Yields (f a s) Q)
      → Yields ((m >>= f) s) Q
  check-Yields m f Q s h k =
      bind-Yields m f Q s (weaken (m s) (λ _ u. u ≡ s) _ h λ a u e. rw e (k a))

  -- What holds of the state after every run holds after one that returns.
  pub Yields-always :
      {A : Type 0} (r : Result A × State L) (P : State L → Type 0) → P r.1 → Yields r (λ _ u. P u)
  Yields-always (ok a, s) P h = h
  Yields-always (err e, s) P h = tt
  Yields-always (trap, s) P h = tt

  -- The rule for a step of which every run leaves a state with a property.
  pub keep-Yields :
      {A B : Type 0} (m : Call L A) (f : A → Call L B) (Q : B → State L → Type 0) (s : State L)
      (P : State L → Type 0)
      → P (m s).1
      → ((a : A) (u : State L) → P u → Yields (f a u) Q)
      → Yields ((m >>= f) s) Q
  keep-Yields m f Q s P h k =
      bind-Yields m f Q s
        (weaken (m s) (λ _ u. P u) (λ a u. Yields (f a u) Q) (Yields-always (m s) P h) k)

  -- The rule for a step with a known postcondition.
  pub step-Yields :
      {A B : Type 0} (m : Call L A) (f : A → Call L B) (Q : B → State L → Type 0) (s : State L)
      (P : A → State L → Type 0)
      → Yields (m s) P
      → ((a : A) (u : State L) → P a u → Yields (f a u) Q)
      → Yields ((m >>= f) s) Q
  step-Yields m f Q s P h k = bind-Yields m f Q s (weaken (m s) P (λ a u. Yields (f a u) Q) h k)

  -- What a run that returned has reached.
  pub Yields-ok :
      {A : Type 0} (r : Result A × State L) (Q : A → State L → Type 0) {a : A} {s : State L}
      → Yields r Q
      → r ≡ (ok a, s)
      → Q a s
  Yields-ok r Q h e = subst (λ p. Yields p Q) e h

  pub Yields-of :
      {A : Type 0} (r : Result A × State L) (Q : A → State L → Type 0)
      → ((a : A) (s : State L) → r ≡ (ok a, s) → Q a s)
      → Yields r Q
  Yields-of (ok a, s) Q h = h a s refl
  Yields-of (err e, s) Q h = tt
  Yields-of (trap, s) Q h = tt

  -- The rules for the steps that may stop a call.
  pub lift-Yields :
      {A B : Type 0} (r : Result A) (f : A → Call L B) (Q : B → State L → Type 0) (s : State L)
      → ((a : A) → r ≡ ok a → Yields (f a s) Q)
      → Yields ((lift r >>= f) s) Q
  lift-Yields (ok a) f Q s h = h a refl
  lift-Yields (err e) f Q s h = tt
  lift-Yields trap f Q s h = tt

  pub fail_if-Yields :
      {B : Type 0} (b : Bool) (e : Error) (f : Unit {0} → Call L B) (Q : B → State L → Type 0)
      (s : State L)
      → (b ≡ false → Yields (f tt s) Q)
      → Yields ((fail_if b e >>= f) s) Q
  fail_if-Yields true e f Q s h = tt
  fail_if-Yields false e f Q s h = h refl

  pub or_fail-Yields :
      {A B : Type 0} (o : Option A) (e : Error) (f : A → Call L B) (Q : B → State L → Type 0)
      (s : State L)
      → ((a : A) → o ≡ some a → Yields (f a s) Q)
      → Yields ((or_fail o e >>= f) s) Q
  or_fail-Yields none e f Q s h = tt
  or_fail-Yields (some a) e f Q s h = h a refl

  pub or_abort-Yields :
      {A B : Type 0} (o : Option A) (f : A → Call L B) (Q : B → State L → Type 0) (s : State L)
      → ((a : A) → o ≡ some a → Yields (f a s) Q)
      → Yields ((or_abort o >>= f) s) Q
  or_abort-Yields none f Q s h = tt
  or_abort-Yields (some a) f Q s h = h a refl

  pub if-Yields :
      {A : Type 0} (b : Bool) (m n : Call L A) (Q : A → State L → Type 0) (s : State L)
      → Yields (m s) Q
      → Yields (n s) Q
      → Yields ((if b then m else n) s) Q
  if-Yields true m n Q s h k = h
  if-Yields false m n Q s h k = k

  pub when-Yields :
      (b : Bool) (m : Call L (Unit {0})) (P : State L → Type 0) (s : State L)
      → P s
      → Yields (m s) (λ _ u. P u)
      → Yields (when b m s) (λ _ u. P u)
  when-Yields true m P s p h = h
  when-Yields false m P s p h = p

  -- The rule for `transfer`.
  pub delivered-Yields :
      (o : Option L) (Q : Unit {0} → State L → Type 0) (s : State L)
      → ((l : L) → o ≡ some l → Q tt (record s { ledger = l }))
      → Yields (delivered o s) Q
  delivered-Yields none Q s h = tt
  delivered-Yields (some l) Q s h = h l refl

-- Every run of a call keeps a relation between the state before and the state after.
module _ {L : Type 0} (R : State L → State L → Type 0) where
  abbrev pub Relates : {A : Type 0} → Call L A → Type 0
  Relates m = (s : State L) → R s (m s).1

  module _ (R_refl : (s : State L) → R s s)
      (R_trans : (s t u : State L) → R s t → R t u → R s u) where
    and_then-Relates :
        {A B : Type 0} (r : Result A × State L) (f : A → Call L B) (s : State L)
        → R s r.1
        → ((a : A) → Relates (f a))
        → R s (and_then r f).1
    and_then-Relates (ok a, t) f s h k = R_trans s t (f a t).1 h (k a t)
    and_then-Relates (err e, t) f s h k = h
    and_then-Relates (trap, t) f s h k = h

    pub bind-Relates :
        {A B : Type 0} (m : Call L A) (f : A → Call L B)
        → Relates m
        → ((a : A) → Relates (f a))
        → Relates (m >>= f)
    bind-Relates m f h k s = and_then-Relates (m s) f s (h s) k

    pub when-Relates : (b : Bool) (m : Call L (Unit {0})) → Relates m → Relates (when b m)
    when-Relates true m h = h
    when-Relates false m h = R_refl
