-- ===== src/Subscription/Withdrawable.antt =====
-- When `do_withdraw_subscriber_funds` of subscription.rs pays out.
use stellabill_contracts.Prelude.{
  ℕ, ℤ, pos, ◌≡◌, ◌≤ℤ◌, ◌<ℤ◌, ◌-ℤ◌, arith, int_laws, true, some, nat_eq, get, get-set_self, IsI128,
  checked_sub,
}
use stellabill_contracts.Types.Records.{Subscription}
use stellabill_contracts.Host.State.{State, Env}
use stellabill_contracts.Host.Calls.{ok, require_auth, transfer, publish}
use stellabill_contracts.Store.{get_subscription, put_subscription}
use stellabill_contracts.Accounting.{sub_total_accounted, get_total_accounted}
use stellabill_contracts.Subscription.Funds.{has_ended, do_withdraw_subscriber_funds}

fits :
    (total amount : ℤ)
    → pos 0 <ℤ amount
    → amount ≤ℤ total
    → IsI128 total
    → checked_sub total amount ≡ some (total -ℤ amount)
unfolding checked_sub
fits total amount p h k = grind int_laws

module _ {L : Type 0} (env : Env L) where
  -- The subscriber of a subscription that is Cancelled, Expired, Archived or past its end, and has a
  -- prepaid balance, gets it paid out, when the subscriber authorizes the call, the accounted total
  -- of the token covers it and the token contract makes the transfer; the balance is then 0.
  pub do_withdraw_subscriber_funds-pays :
      (id : ℕ) (sub : Subscription) (s : State L) (l : L)
      → get s.subscriptions.subs id ≡ some sub
      → env.authorized sub.subscriber ≡ true
      → has_ended sub env.timestamp ≡ true
      → pos 0 <ℤ sub.prepaid_balance
      → sub.prepaid_balance ≤ℤ get_total_accounted s sub.token
      → IsI128 (get_total_accounted s sub.token)
      → env.token_contract.transfer s.ledger sub.token env.current_contract_address sub.subscriber
          sub.prepaid_balance
        ≡ some l
      → let run = do_withdraw_subscriber_funds env id sub.subscriber s in
        (run.0 ≡ ok tt)
        × (run.1.ledger ≡ l)
        × (get run.1.subscriptions.subs id ≡ some (record sub { prepaid_balance = pos 0 }))
  unfolding do_withdraw_subscriber_funds get_subscription require_auth put_subscription transfer
      sub_total_accounted get_total_accounted publish
  do_withdraw_subscriber_funds-pays id sub s l g a h p c r t = ground (
    arith,
    fits (get_total_accounted s sub.token) sub.prepaid_balance p c r,
    get-set_self s.subscriptions.subs id (record sub { prepaid_balance = pos 0 }),
  )
