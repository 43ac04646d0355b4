-- ===== src/Nonce/Replay.antt =====
-- Which calls `check_and_advance` of nonce.rs accepts.
use stellabill_contracts.Prelude.{
  ℕ, ◌+◌, ◌<◌, ◌≤◌, refl, ◌≡◌, ◌≢◌, ◌↔◌, arith, max_u64, checked_add_u64, get-set, pair_eq, nat_eq,
}
use stellabill_contracts.Types.Errors.{Error}
use stellabill_contracts.Types.Records.{Address}
use stellabill_contracts.Host.State.{State, Env}
use stellabill_contracts.Host.Calls.{ok, err}
use stellabill_contracts.Nonce.{get_nonce, check_and_advance}

module _ {L : Type 0} (env : Env L) (signer : Address) (domain provided : ℕ) (s : State L) where
  -- Short of the counter's maximum, a call is accepted exactly when it names the stored nonce.
  pub check_and_advance_iff :
      get_nonce s signer domain < max_u64
      → ((check_and_advance env signer domain provided s).0 ≡ ok tt)
        ↔ (provided ≡ get_nonce s signer domain)
  unfolding check_and_advance checked_add_u64
  check_and_advance_iff h = (λ e. ground arith, λ e. ground arith)

  -- A call whose nonce does not match is refused and leaves the state as it was.
  pub check_and_advance_mismatch :
      provided ≢ get_nonce s signer domain
      → check_and_advance env signer domain provided s ≡ (err Error.nonce_already_used, s)
  unfolding check_and_advance
  check_and_advance_mismatch h = ground arith

  -- An accepted call moves the stored nonce on by one.
  pub get_nonce-check_and_advance :
      {t : State L}
      → check_and_advance env signer domain provided s ≡ (ok tt, t)
      → get_nonce t signer domain ≡ provided + 1
  unfolding check_and_advance checked_add_u64
  get_nonce-check_and_advance h =
      ground
        (arith, get-set s.admin_store.admin_nonces (signer, domain) (signer, domain) (provided + 1))

-- What may happen in between: an attempt with any nonce, by any signer and in any domain, accepted
-- or refused, or a call that leaves the counters alone.
pub data Trial {L : Type 0} : State L → State L → Type 0 where
  attempt :
      (env : Env L) (signer : Address) (domain provided : ℕ) {s : State L}
      → Trial s (check_and_advance env signer domain provided s).1
  elsewhere : {s u : State L} → u.admin_store.admin_nonces ≡ s.admin_store.admin_nonces → Trial s u

pub data Trials {L : Type 0} : State L → State L → Type 0 where
  done : {s : State L} → Trials s s
  then : {s t u : State L} → Trial s t → Trials t u → Trials s u

module _ {L : Type 0} where
  -- No counter goes down.
  attempt-rises :
      (env : Env L) (signer other : Address) (domain domain' provided : ℕ) (s : State L)
      → get_nonce s other domain'
        ≤ get_nonce (check_and_advance env signer domain provided s).1 other domain'
  unfolding check_and_advance checked_add_u64
  attempt-rises env signer other domain domain' provided s = ground (
    arith,
    get-set s.admin_store.admin_nonces (signer, domain) (other, domain') (provided + 1),
    nat_eq.same_iff signer other,
    nat_eq.same_iff domain domain',
  )

  same_counters :
      (s u : State L) (signer : Address) (domain : ℕ)
      → u.admin_store.admin_nonces ≡ s.admin_store.admin_nonces
      → get_nonce u signer domain ≡ get_nonce s signer domain
  unfolding get_nonce
  same_counters s u signer domain e = rw e refl

  Trial-rises :
      (s u : State L) (signer : Address) (domain : ℕ)
      → Trial s u
      → get_nonce s signer domain ≤ get_nonce u signer domain
  Trial-rises s u signer domain (attempt env other domain' provided) =
      attempt-rises env other signer domain' domain provided s
  Trial-rises s u signer domain (elsewhere e) = omega (arith, same_counters s u signer domain e)

  Trials-rise :
      (s u : State L) (signer : Address) (domain : ℕ)
      → Trials s u
      → get_nonce s signer domain ≤ get_nonce u signer domain
  Trials-rise s u signer domain done = omega arith
  Trials-rise s u signer domain (then {t = t} trial more) =
      omega (arith, Trial-rises s t signer domain trial, Trials-rise t u signer domain more)

-- A nonce that was accepted is refused ever after for its signer and domain: after any sequence of
-- attempts, with any nonces and by anyone, and of calls that leave the counters alone, a call with
-- it fails with `NonceAlreadyUsed` and changes nothing.
pub nonce_used_once :
    {L : Type 0} (env later : Env L) (signer : Address) (domain provided : ℕ) (s t u : State L)
    → check_and_advance env signer domain provided s ≡ (ok tt, t)
    → Trials t u
    → check_and_advance later signer domain provided u ≡ (err Error.nonce_already_used, u)
nonce_used_once env later signer domain provided s t u h more =
    check_and_advance_mismatch later signer domain provided u λ e. omega (
      arith,
      get_nonce-check_and_advance env signer domain provided s h,
      Trials-rise t u signer domain more,
      e,
    )

-- An accepted call leaves the counters of every other signer and domain alone: a nonce of one
-- domain cannot stand in for another's.
pub nonce_domains_apart :
    {L : Type 0} (env : Env L) (signer other : Address) (domain domain' provided : ℕ) (s : State L)
    → ◌≢◌ {A = ℕ × ℕ} (signer, domain) (other, domain')
    → get_nonce (check_and_advance env signer domain provided s).1 other domain'
      ≡ get_nonce s other domain'
unfolding check_and_advance checked_add_u64
nonce_domains_apart env signer other domain domain' provided s h =
    ground
      (arith, get-set s.admin_store.admin_nonces (signer, domain) (other, domain') (provided + 1))
