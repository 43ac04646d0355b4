-- ===== src/Solvency/Steps.antt =====
-- The two sides of the books and the steps that move them: writes of a subscription or of a
-- merchant's balance, token transfers, and the accounted total.
use stellabill_contracts.Prelude.{
  ℕ, ℤ, pos, ◌≡◌, refl, sym, checked_add, checked_sub, ◌≤ℤ◌, ◌+ℤ◌, ◌-ℤ◌, ◌∙◌, ap, get-set_self,
  arith, int_laws, some, nat_eq, pair_eq, get, Bool-cases, inl, inr, leb_ℤ, true, get-set,
  sum_over-set,
}
use stellabill_contracts.Types.Errors.{Error}
use stellabill_contracts.Types.Records.{Address, Subscription}
use stellabill_contracts.Host.State.{State, Env, SubscriptionStore}
use stellabill_contracts.Host.Calls.{transfer, require_auth, publish, Result, ok, err, trap, lift}
use stellabill_contracts.Types.Events.{Event}
use stellabill_contracts.Blocklist.{require_not_blocklisted}
use stellabill_contracts.ChargeCore.Interval.Conserved.{Conserved}
use stellabill_contracts.Host.Outcomes.{Yields, or_fail-Yields}
use stellabill_contracts.Accounting.{
  get_total_accounted, add_total_accounted, sub_total_accounted, set_total_accounted,
}
use stellabill_contracts.Books.{
  owed, prepaid_owed, merchants_owed, in_token, balance_weight, owed-put,
}
use stellabill_contracts.Store.{put_subscription}
use stellabill_contracts.Merchant.{get_merchant_balance_by_token, set_merchant_balance}

checked_add-some : (a b : ℤ) {c : ℤ} → checked_add a b ≡ some c → c ≡ a +ℤ b
unfolding checked_add
checked_add-some a b h = ground arith

pub checked_sub-some : (a b : ℤ) {c : ℤ} → checked_sub a b ≡ some c → c ≡ a +ℤ (pos 0 -ℤ b)
unfolding checked_sub
checked_sub-some a b h = grind int_laws

leb_zero : (a : ℤ) → pos 0 ≤ℤ a → leb_ℤ a (pos 0) ≡ true → a ≡ pos 0
leb_zero a h e = grind int_laws

zero_minus : (a : ℤ) → a ≡ pos 0 → pos 0 -ℤ a ≡ pos 0
zero_minus a e = grind int_laws

module _ {L : Type 0} where
  -- The accounted total of every token is what the vault owes in it.
  abbrev pub IsBalanced : State L → Type 0
  IsBalanced s = (t : Address) → get_total_accounted s t ≡ owed s t

  -- A step that changes the accounted total of a token by an amount, and nothing that is owed.
  pub record Counted (token : Address) (amount : ℤ) (s u : State L) : Type 0 where
    pub accounted :
        (t : Address) → get_total_accounted u t ≡ get_total_accounted s t +ℤ in_token t token amount
    pub owing : (t : Address) → owed u t ≡ owed s t
    pub subs : u.subscriptions ≡ s.subscriptions

  -- A step that leaves both sides of the books alone.
  pub record SameBooks (s u : State L) : Type 0 where
    pub accounted : u.total_accounted ≡ s.total_accounted
    pub subs : u.subscriptions ≡ s.subscriptions
    pub balances : u.merchants.merchant_balances ≡ s.merchants.merchant_balances

  pub owed-SameBooks : (s u : State L) (t : Address) → SameBooks s u → owed u t ≡ owed s t
  unfolding owed prepaid_owed merchants_owed
  owed-SameBooks s u t h = ground arith

  pub total-SameBooks :
      (s u : State L) (t : Address)
      → SameBooks s u
      → get_total_accounted u t ≡ get_total_accounted s t
  unfolding get_total_accounted
  total-SameBooks s u t h = ground arith

  pub IsBalanced-SameBooks : (s u : State L) → SameBooks s u → IsBalanced s → IsBalanced u
  IsBalanced-SameBooks s u h b t = total-SameBooks s u t h ∙ b t ∙ sym (owed-SameBooks s u t h)

  set_total-Counted :
      (token : Address) (amount total : ℤ) (s : State L)
      → total ≡ get_total_accounted s token +ℤ amount
      → Counted token amount s (set_total_accounted token total s)
  unfolding get_total_accounted set_total_accounted owed prepaid_owed merchants_owed
  set_total-Counted token amount total s e = record {
    accounted = λ t. grind (int_laws, get-set s.total_accounted token t total);
    owing = λ t. refl;
    subs = refl;
  }

  Counted-none :
      (token : Address) (amount : ℤ) (s : State L) → amount ≡ pos 0 → Counted token amount s s
  Counted-none token amount s e = record {
    accounted = λ t. grind int_laws;
    owing = λ t. refl;
    subs = refl;
  }

  -- Adding and subtracting an amount of zero or more.
  pub add_total-Counted :
      (token : Address) (amount : ℤ) (s : State L)
      → pos 0 ≤ℤ amount
      → Yields (add_total_accounted token amount s) (λ _ u. Counted token amount s u)
  unfolding add_total_accounted
  add_total-Counted token amount s h = elim (Bool-cases (leb_ℤ amount (pos 0))) [
    | inl e ↦ rw e (Counted-none token amount s (leb_zero amount h e))
    | inr e ↦ rw e (
        or_fail-Yields (checked_add (get_total_accounted s token) amount) Error.overflow _
          (λ _ u. Counted token amount s u) s
          λ total f.
            set_total-Counted token amount total s
              (checked_add-some (get_total_accounted s token) amount f))
  ]

  pub sub_total-Counted :
      (token : Address) (amount : ℤ) (s : State L)
      → pos 0 ≤ℤ amount
      → Yields (sub_total_accounted token amount s) (λ _ u. Counted token (pos 0 -ℤ amount) s u)
  unfolding sub_total_accounted
  sub_total-Counted token amount s h = elim (Bool-cases (leb_ℤ amount (pos 0))) [
    | inl e ↦
        rw e (Counted-none token (pos 0 -ℤ amount) s (zero_minus amount (leb_zero amount h e)))
    | inr e ↦ rw e (
        or_fail-Yields (checked_sub (get_total_accounted s token) amount) Error.underflow _
          (λ _ u. Counted token (pos 0 -ℤ amount) s u) s
          λ total f.
            set_total-Counted token (pos 0 -ℤ amount) total s
              (checked_sub-some (get_total_accounted s token) amount f))
  ]

  -- A step that changes what is owed in a token by an amount, and no accounted total.
  pub record Owing (token : Address) (amount : ℤ) (s u : State L) : Type 0 where
    pub owing : (t : Address) → owed u t ≡ owed s t +ℤ in_token t token amount
    pub accounted : (t : Address) → get_total_accounted u t ≡ get_total_accounted s t

  pub put-Owing :
      (s : State L) (id : ℕ) (old new : Subscription) (amount : ℤ)
      → get s.subscriptions.subs id ≡ some old
      → new.token ≡ old.token
      → new.prepaid_balance ≡ old.prepaid_balance +ℤ amount
      → Owing old.token amount s (put_subscription id new s)
  unfolding put_subscription get_total_accounted
  put-Owing s id old new amount h e f = record {
    owing = λ t. grind (int_laws, owed-put s id old new t h);
    accounted = λ t. refl;
  }

  pub set_balance-Owing :
      (merchant token : Address) (balance amount : ℤ) (s : State L)
      → balance ≡ get_merchant_balance_by_token s merchant token +ℤ amount
      → Owing token amount s (set_merchant_balance merchant token balance s)
  unfolding owed prepaid_owed merchants_owed set_merchant_balance get_merchant_balance_by_token
      get_total_accounted
  set_balance-Owing merchant token balance amount s e = record {
    owing = λ t. grind (
      int_laws,
      sum_over-set (balance_weight t) s.merchants.merchant_balances (merchant, token) balance,
    );
    accounted = λ t. refl;
  }

  pub Owing-SameBooks :
      (token : Address) (amount : ℤ) (s u v : State L)
      → Owing token amount s u
      → SameBooks u v
      → Owing token amount s v
  Owing-SameBooks token amount s u v o m = record {
    owing = λ t. owed-SameBooks u v t m ∙ o.owing t;
    accounted = λ t. total-SameBooks u v t m ∙ o.accounted t;
  }

  -- A change of what is owed that the accounted total follows keeps the books balanced.
  pub balance_step :
      (token : Address) (amount : ℤ) (s u v : State L)
      → IsBalanced s
      → Owing token amount s u
      → Counted token amount u v
      → IsBalanced v
  balance_step token amount s u v b o c t =
      grind (int_laws, b t, o.owing t, o.accounted t, c.owing t, c.accounted t)

module _ {L : Type 0} where
  pub publish-SameBooks : (s : State L) (e : Event) → SameBooks s (publish e s).1
  unfolding publish
  publish-SameBooks s e = record { accounted = refl; subs = refl; balances = refl }

  pub put_then :
      (s u : State L) (id : ℕ) (new : Subscription)
      → u.subscriptions ≡ (put_subscription id new s).subscriptions
      → get u.subscriptions.subs id ≡ some new
  unfolding put_subscription
  put_then s u id new e =
      ap (λ (x : SubscriptionStore). get x.subs id) e ∙ get-set_self s.subscriptions.subs id new

  pub IsBalanced-Conserved : (s u : State L) → IsBalanced s → Conserved s u → IsBalanced u
  unfolding get_total_accounted
  IsBalanced-Conserved s u b c t = grind (int_laws, b t, c.owing t, c.accounted)

  pub lift_same : {A : Type 0} (r : Result A) (s : State L) → Yields (lift r s) (λ _ u. u ≡ s)
  lift_same (ok a) s = refl
  lift_same (err e) s = tt
  lift_same trap s = tt

  pub require_not_blocklisted-same :
      (subscriber : Address) (s : State L)
      → Yields (require_not_blocklisted subscriber s) (λ _ u. u ≡ s)
  unfolding require_not_blocklisted
  require_not_blocklisted-same subscriber s = ground arith

module _ {L : Type 0} (env : Env L) where
  pub transfer-SameBooks :
      (token from to : Address) (amount : ℤ) (s : State L)
      → Yields (transfer env token from to amount s) (λ _ u. SameBooks s u)
  unfolding transfer
  transfer-SameBooks token from to amount s = ground arith

  pub require_auth-same : (a : Address) (s : State L) → Yields (require_auth env a s) (λ _ u. u ≡ s)
  unfolding require_auth
  require_auth-same a s = ground arith
