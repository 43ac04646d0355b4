-- ===== src/Books.antt =====
-- What the vault owes in each token: the prepaid balances of the subscriptions and the balances of
-- the merchants. The functions of the contract never form this sum; it is what `TotalAccounted`
-- (accounting.rs) stands for.
use stellabill_contracts.Prelude.{
  ℕ, ℤ, pos, ◌≡◌, refl, some, ◌==◌, nat_eq, pair_eq, if◌then◌else◌, arith, int_laws, ◌+ℤ◌, get,
  sum_over, sum_over-set,
}
use stellabill_contracts.Types.Records.{Address, Subscription}
use stellabill_contracts.Host.State.{State}
use stellabill_contracts.Store.{put_subscription}

-- The part of an amount in one token that counts for another.
abbrev pub in_token : Address → Address → ℤ → ℤ
in_token t token amount = if token == t then amount else pos 0

abbrev pub prepaid_weight : Address → ℕ → Subscription → ℤ
prepaid_weight t id sub = in_token t sub.token sub.prepaid_balance

abbrev pub balance_weight : Address → Address × Address → ℤ → ℤ
balance_weight t (merchant, token) balance = in_token t token balance

module _ {L : Type 0} where
  unfoldable pub prepaid_owed : State L → Address → ℤ
  prepaid_owed s t = sum_over (prepaid_weight t) s.subscriptions.subs

  unfoldable pub merchants_owed : State L → Address → ℤ
  merchants_owed s t = sum_over (balance_weight t) s.merchants.merchant_balances

  unfoldable pub owed : State L → Address → ℤ
  owed s t = prepaid_owed s t +ℤ merchants_owed s t

  -- A write of a subscription moves what is owed by the difference of the prepaid balances.
  pub prepaid_owed-put :
      (s : State L) (id : ℕ) (old new : Subscription) (t : Address)
      → get s.subscriptions.subs id ≡ some old
      → prepaid_owed (put_subscription id new s) t +ℤ prepaid_weight t id old
        ≡ prepaid_owed s t +ℤ prepaid_weight t id new
  unfolding prepaid_owed put_subscription
  prepaid_owed-put s id old new t h =
      ground (arith, sum_over-set (prepaid_weight t) s.subscriptions.subs id new)

  pub owed-put :
      (s : State L) (id : ℕ) (old new : Subscription) (t : Address)
      → get s.subscriptions.subs id ≡ some old
      → owed (put_subscription id new s) t +ℤ prepaid_weight t id old
        ≡ owed s t +ℤ prepaid_weight t id new
  unfolding owed prepaid_owed merchants_owed put_subscription
  owed-put s id old new t h =
      grind (int_laws, sum_over-set (prepaid_weight t) s.subscriptions.subs id new)

  pub prepaid_owed-same :
      (s u : State L) (t : Address)
      → u.subscriptions ≡ s.subscriptions
      → prepaid_owed u t ≡ prepaid_owed s t
  unfolding prepaid_owed
  prepaid_owed-same s u t h = ground arith

  pub merchants_owed-put :
      (s : State L) (id : ℕ) (new : Subscription) (t : Address)
      → merchants_owed (put_subscription id new s) t ≡ merchants_owed s t
  unfolding merchants_owed put_subscription
  merchants_owed-put s id new t = refl

  -- A call keeps the money where it is.
  pub record SameMoney (s u : State L) : Type 0 where
    pub subs : u.subscriptions ≡ s.subscriptions
    pub balances : u.merchants.merchant_balances ≡ s.merchants.merchant_balances
    pub accounted : u.total_accounted ≡ s.total_accounted
    pub ledger : u.ledger ≡ s.ledger

  pub SameMoney-refl : (s : State L) → SameMoney s s
  SameMoney-refl s = record { subs = refl; balances = refl; accounted = refl; ledger = refl }

  pub SameMoney-trans : (s u v : State L) → SameMoney s u → SameMoney u v → SameMoney s v
  SameMoney-trans s u v h k = ground arith

  pub owed-SameMoney : (s u : State L) (t : Address) → SameMoney s u → owed u t ≡ owed s t
  unfolding owed prepaid_owed merchants_owed
  owed-SameMoney s u t h = ground arith
