-- ===== src/Solvency/Payouts.antt =====
-- Payouts of subscription.rs and merchant.rs and the accounted total.
use stellabill_contracts.Prelude.{
  ℕ, ℤ, pos, ◌≡◌, refl, ◌≤ℤ◌, ◌+ℤ◌, ◌-ℤ◌, arith, int_laws, some, nat_eq, pair_eq, get, ltb_ℤ, leb_ℤ,
  false, ◌==◌, not, checked_sub,
}
use stellabill_contracts.Types.Errors.{Error}
use stellabill_contracts.Types.Records.{Address, Subscription}
use stellabill_contracts.Types.Events.{Event, merchant_refund as refund_event}
use stellabill_contracts.Host.State.{State, Env}
use stellabill_contracts.Host.Calls.{
  ok, ◌>>◌, modify, publish, transfer, require_auth, token_balance,
}
use stellabill_contracts.Host.Outcomes.{
  Yields, bind-Yields, lift-Yields, fail_if-Yields, or_fail-Yields, check-Yields, weaken, Yields-ok,
}
use stellabill_contracts.SafeMath.{safe_sub}
use stellabill_contracts.SafeMath.Bounds.{safe_sub-ok}
use stellabill_contracts.Store.{get_subscription, put_subscription}
use stellabill_contracts.Accounting.{sub_total_accounted, get_total_accounted}
use stellabill_contracts.Admin.{require_admin_auth, is_token_accepted}
use stellabill_contracts.Books.{owed, in_token}
use stellabill_contracts.Merchant.{
  get_merchant_balance_by_token, set_merchant_balance, withdraw_merchant_funds_for_token,
  merchant_refund, record_refund, payable,
}
use stellabill_contracts.Subscription.Funds.{
  has_ended, do_withdraw_subscriber_funds, do_partial_refund,
}
use stellabill_contracts.Solvency.Steps.{
  IsBalanced, SameBooks, Owing, put-Owing, set_balance-Owing, Owing-SameBooks, balance_step,
  IsBalanced-SameBooks, transfer-SameBooks, sub_total-Counted, require_auth-same, publish-SameBooks,
  checked_sub-some,
}

pub positive : (a : ℤ) → leb_ℤ a (pos 0) ≡ false → pos 0 ≤ℤ a
positive a h = grind int_laws

minus_is_plus : (a b c : ℤ) → c ≡ a -ℤ b → c ≡ a +ℤ (pos 0 -ℤ b)
minus_is_plus a b c h = grind int_laws

module _ {L : Type 0} (env : Env L) where
  pub require_admin_auth-same :
      (admin : Address) (s : State L) → Yields (require_admin_auth env admin s) (λ _ u. u ≡ s)
  unfolding require_admin_auth
  require_admin_auth-same admin s = ground arith

  -- The tail that the two payouts of a subscription share.
  pay_back-IsBalanced :
      (id : ℕ) (old new : Subscription) (to : Address) (amount : ℤ) (event : Event) (s : State L)
      → get s.subscriptions.subs id ≡ some old
      → new.token ≡ old.token
      → new.prepaid_balance ≡ old.prepaid_balance +ℤ (pos 0 -ℤ amount)
      → pos 0 ≤ℤ amount
      → IsBalanced s
      → Yields
          ((modify (put_subscription id new)
              >> (transfer env old.token env.current_contract_address to amount
                  >> (sub_total_accounted old.token amount >> publish event)))
            s)
          (λ _ u. IsBalanced u)
  unfolding publish
  pay_back-IsBalanced id old new to amount event s h e f n b =
      let s1 = put_subscription id new s in
      bind-Yields (transfer env old.token env.current_contract_address to amount) _
        (λ _ u. IsBalanced u) s1
        (weaken _ _ _ (transfer-SameBooks env old.token env.current_contract_address to amount s1)
          λ _ s2 m.
            bind-Yields (sub_total_accounted old.token amount) _ (λ _ u. IsBalanced u) s2
              (weaken _ _ _ (sub_total-Counted old.token amount s2 n) λ _ s3 c.
                IsBalanced-SameBooks s3 (publish event s3).1 (publish-SameBooks s3 event) (
                  balance_step old.token (pos 0 -ℤ amount) s s2 s3 b
                    (Owing-SameBooks old.token (pos 0 -ℤ amount) s s1 s2
                      (put-Owing s id old new (pos 0 -ℤ amount) h e f) m)
                    c)))

  paid_out-IsBalanced :
      (merchant token : Address) (amount balance : ℤ) (event : Event) (s : State L)
      → balance ≡ get_merchant_balance_by_token s merchant token +ℤ (pos 0 -ℤ amount)
      → pos 0 ≤ℤ amount
      → IsBalanced s
      → Yields
          ((modify (set_merchant_balance merchant token balance)
              >> (sub_total_accounted token amount
                  >> (publish event
                      >> transfer env token env.current_contract_address merchant amount)))
            s)
          (λ _ u. IsBalanced u)
  unfolding publish
  paid_out-IsBalanced merchant token amount balance event s e n b =
      let s1 = set_merchant_balance merchant token balance s in
      bind-Yields (sub_total_accounted token amount) _ (λ _ u. IsBalanced u) s1
        (weaken _ _ _ (sub_total-Counted token amount s1 n) λ _ s2 c.
          let s3 = (publish event s2).1 in
          weaken _ _ _
            (transfer-SameBooks env token env.current_contract_address merchant amount s3)
            λ _ s4 m. IsBalanced-SameBooks s3 s4 m (
              IsBalanced-SameBooks s2 s3 (publish-SameBooks s2 event) (
                balance_step token (pos 0 -ℤ amount) s s1 s2 b
                  (set_balance-Owing merchant token balance (pos 0 -ℤ amount) s e) c)))

  do_withdraw_subscriber_funds-Yields :
      (id : ℕ) (subscriber : Address) (s : State L)
      → IsBalanced s
      → Yields (do_withdraw_subscriber_funds env id subscriber s) (λ _ u. IsBalanced u)
  unfolding do_withdraw_subscriber_funds get_subscription
  do_withdraw_subscriber_funds-Yields id subscriber s b =
      check-Yields (require_auth env subscriber) _ (λ _ u. IsBalanced u) s
        (require_auth-same env subscriber s)
        λ _.
          or_fail-Yields (get s.subscriptions.subs id) Error.not_found _ (λ _ u. IsBalanced u) s
            λ sub h.
              fail_if-Yields (not (subscriber == sub.subscriber)) Error.forbidden _
                (λ _ u. IsBalanced u) s
                λ _.
                  fail_if-Yields (leb_ℤ sub.prepaid_balance (pos 0)) Error.invalid_amount _
                    (λ _ u. IsBalanced u) s
                    λ p.
                      fail_if-Yields (not (has_ended sub env.timestamp))
                        Error.invalid_status_transition _ (λ _ u. IsBalanced u) s
                        λ _.
                          fail_if-Yields (leb_ℤ sub.prepaid_balance (pos 0))
                            Error.insufficient_balance _ (λ _ u. IsBalanced u) s
                            λ _.
                              pay_back-IsBalanced id sub (record sub { prepaid_balance = pos 0 })
                                subscriber sub.prepaid_balance _ s h refl (omega int_laws)
                                (positive sub.prepaid_balance p) b

  do_partial_refund-Yields :
      (admin : Address) (id : ℕ) (subscriber : Address) (amount : ℤ) (s : State L)
      → IsBalanced s
      → Yields (do_partial_refund env admin id subscriber amount s) (λ _ u. IsBalanced u)
  unfolding do_partial_refund get_subscription
  do_partial_refund-Yields admin id subscriber amount s b =
      check-Yields (require_admin_auth env admin) _ (λ _ u. IsBalanced u) s
        (require_admin_auth-same admin s)
        λ _.
          fail_if-Yields (leb_ℤ amount (pos 0)) Error.invalid_amount _ (λ _ u. IsBalanced u) s
            λ p.
              or_fail-Yields (get s.subscriptions.subs id) Error.not_found _ (λ _ u. IsBalanced u) s
                λ sub h.
                  fail_if-Yields (not (subscriber == sub.subscriber)) Error.unauthorized _
                    (λ _ u. IsBalanced u) s
                    λ _.
                      fail_if-Yields (ltb_ℤ sub.prepaid_balance amount) Error.insufficient_balance _
                        (λ _ u. IsBalanced u) s
                        λ _.
                          lift-Yields (safe_sub sub.prepaid_balance amount) _ (λ _ u. IsBalanced u)
                            s
                            λ balance e.
                              pay_back-IsBalanced id sub (record sub { prepaid_balance = balance })
                                subscriber amount _ s h refl
                                (minus_is_plus sub.prepaid_balance amount balance
                                  (safe_sub-ok sub.prepaid_balance amount e).0)
                                (positive amount p) b

  payable-same :
      (current amount : ℤ) (s : State L) → Yields (payable current amount s) (λ _ u. u ≡ s)
  unfolding payable
  payable-same current amount s = ground arith

  record_refund-SameBooks :
      (merchant token : Address) (amount : ℤ) (s : State L)
      → Yields (record_refund merchant token amount s) (λ _ u. SameBooks s u)
  unfolding record_refund
  record_refund-SameBooks merchant token amount s = ground arith

  withdraw_merchant-Yields :
      (merchant token : Address) (amount : ℤ) (s : State L)
      → IsBalanced s
      → Yields (withdraw_merchant_funds_for_token env merchant token amount s) (λ _ u. IsBalanced u)
  unfolding withdraw_merchant_funds_for_token publish token_balance
  withdraw_merchant-Yields merchant token amount s b =
      check-Yields (require_auth env merchant) _ (λ _ u. IsBalanced u) s
        (require_auth-same env merchant s)
        λ _.
          fail_if-Yields (leb_ℤ amount (pos 0)) Error.invalid_amount _ (λ _ u. IsBalanced u) s
            λ p.
              fail_if-Yields (not (is_token_accepted s token)) Error.invalid_input _
                (λ _ u. IsBalanced u) s
                λ _.
                  check-Yields (payable (get_merchant_balance_by_token s merchant token) amount) _
                    (λ _ u. IsBalanced u) s
                    (payable-same (get_merchant_balance_by_token s merchant token) amount s)
                    λ _.
                      fail_if-Yields
                        (ltb_ℤ
                          (env.token_contract.balance s.ledger token env.current_contract_address)
                          amount)
                        Error.insufficient_balance _ (λ _ u. IsBalanced u) s
                        λ _.
                          lift-Yields
                            (safe_sub (get_merchant_balance_by_token s merchant token) amount) _
                            (λ _ u. IsBalanced u) s
                            λ balance e.
                              paid_out-IsBalanced merchant token amount balance _ s
                                (minus_is_plus (get_merchant_balance_by_token s merchant token)
                                  amount balance
                                  (safe_sub-ok (get_merchant_balance_by_token s merchant token)
                                    amount e).0)
                                (positive amount p) b

  merchant_refund-Yields :
      (merchant subscriber token : Address) (amount : ℤ) (s : State L)
      → Yields
          (merchant_refund env merchant subscriber token amount s)
          (λ _ u. Owing token (pos 0 -ℤ amount) s u)
  unfolding merchant_refund publish
  merchant_refund-Yields merchant subscriber token amount s =
      let Q : Unit {0} → State L → Type 0 = λ _ u. Owing token (pos 0 -ℤ amount) s u in
      let current = get_merchant_balance_by_token s merchant token in
      check-Yields (require_auth env merchant) _ Q s (require_auth-same env merchant s) λ _.
        fail_if-Yields (leb_ℤ amount (pos 0)) Error.invalid_amount _ Q s λ _.
          check-Yields (payable current amount) _ Q s (payable-same current amount s) λ _.
            or_fail-Yields (checked_sub current amount) Error.overflow _ Q s λ balance e.
              let s1 = set_merchant_balance merchant token balance s in
              let o =
                set_balance-Owing merchant token balance (pos 0 -ℤ amount) s
                  (checked_sub-some current amount e) in
              bind-Yields (record_refund merchant token amount) _ Q s1 (
                weaken _ _ _ (record_refund-SameBooks merchant token amount s1) λ _ s2 m.
                  let s3 =
                    (publish (refund_event merchant subscriber token amount env.timestamp) s2).1 in
                  weaken _ _ _
                    (transfer-SameBooks env token env.current_contract_address subscriber amount s3)
                    λ _ s4 n.
                      Owing-SameBooks token (pos 0 -ℤ amount) s s3 s4
                        (Owing-SameBooks token (pos 0 -ℤ amount) s s2 s3
                          (Owing-SameBooks token (pos 0 -ℤ amount) s s1 s2 o m)
                          (publish-SameBooks s2 _))
                        n)

module _ {L : Type 0} (env : Env L) where
  -- A subscriber's withdrawal that returns keeps the books balanced, in every token.
  pub do_withdraw_subscriber_funds-IsBalanced :
      (id : ℕ) (subscriber : Address) (s u : State L)
      → IsBalanced s
      → do_withdraw_subscriber_funds env id subscriber s ≡ (ok tt, u)
      → IsBalanced u
  do_withdraw_subscriber_funds-IsBalanced id subscriber s u b e =
      Yields-ok (do_withdraw_subscriber_funds env id subscriber s) (λ _ v. IsBalanced v)
        (do_withdraw_subscriber_funds-Yields env id subscriber s b) e

  -- A partial refund that returns keeps the books balanced, in every token.
  pub do_partial_refund-IsBalanced :
      (admin : Address) (id : ℕ) (subscriber : Address) (amount : ℤ) (s u : State L)
      → IsBalanced s
      → do_partial_refund env admin id subscriber amount s ≡ (ok tt, u)
      → IsBalanced u
  do_partial_refund-IsBalanced admin id subscriber amount s u b e =
      Yields-ok (do_partial_refund env admin id subscriber amount s) (λ _ v. IsBalanced v)
        (do_partial_refund-Yields env admin id subscriber amount s b) e

  -- A merchant's withdrawal that returns keeps the books balanced, in every token.
  pub withdraw_merchant_funds-IsBalanced :
      (merchant token : Address) (amount : ℤ) (s u : State L)
      → IsBalanced s
      → withdraw_merchant_funds_for_token env merchant token amount s ≡ (ok tt, u)
      → IsBalanced u
  withdraw_merchant_funds-IsBalanced merchant token amount s u b e =
      Yields-ok (withdraw_merchant_funds_for_token env merchant token amount s)
        (λ _ v. IsBalanced v) (withdraw_merchant-Yields env merchant token amount s b) e

  -- A refund by the merchant that returns, from balanced books, leaves the accounted total of the
  -- token above what the vault owes in it, by the amount refunded: `merchant_refund` pays tokens out
  -- and never lowers the total. The other tokens stay balanced.
  pub merchant_refund-drift :
      (merchant subscriber token : Address) (amount : ℤ) (s u : State L) (t : Address)
      → IsBalanced s
      → merchant_refund env merchant subscriber token amount s ≡ (ok tt, u)
      → get_total_accounted u t ≡ owed u t +ℤ in_token t token amount
  merchant_refund-drift merchant subscriber token amount s u t b e =
      let o =
        Yields-ok (merchant_refund env merchant subscriber token amount s)
          (λ _ v. Owing token (pos 0 -ℤ amount) s v)
          (merchant_refund-Yields env merchant subscriber token amount s) e in
      grind (int_laws, b t, o.owing t, o.accounted t)
