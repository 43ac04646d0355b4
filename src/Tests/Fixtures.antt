-- ===== src/Tests/Fixtures.antt =====
-- A vault with one subscription, over a token contract that keeps balances in a map.
use stellabill_contracts.Prelude.{
  ℕ, ℤ, pos, true, false, Option, none, some, [], ◌∷◌, ◌==◌, nat_eq, pair_eq, Map, get, set,
  unwrap_or, if◌then◌else◌, ltb_ℤ, ◌+ℤ◌, ◌-ℤ◌, sum_over, arith, int_laws, Bool-cases, inl, inr,
}
use stellabill_contracts.Types.Records.{Address, TokenEarnings, Subscription, SubscriptionStatus}
use stellabill_contracts.Accounting.{get_total_accounted}
use stellabill_contracts.Books.{owed, prepaid_owed, merchants_owed}
use stellabill_contracts.Solvency.Steps.{IsBalanced}
use stellabill_contracts.WellFormed.{IsSound, IsWellFormed}
use stellabill_contracts.Host.State.{State, Env}

abbrev pub subscriber : Address
subscriber = 1

abbrev pub merchant : Address
merchant = 2

abbrev pub treasury : Address
treasury = 3

abbrev pub admin : Address
admin = 4

abbrev pub token : Address
token = 5

abbrev pub vault : Address
vault = 9

abbrev pub Ledger : Type 0
Ledger = Map (Address × Address) ℤ

abbrev pub balance : Ledger → Address → Address → ℤ
balance l t holder = unwrap_or (get l (t, holder)) (pos 0)

abbrev pub transfer : Ledger → Address → Address → Address → ℤ → Option Ledger
transfer l t from to amount =
    if ltb_ℤ (balance l t from) amount
    then none
    else let debited = set l (t, from) (balance l t from -ℤ amount) in
      some (set debited (t, to) (balance debited t to +ℤ amount))

abbrev pub env_at : ℕ → Env Ledger
env_at now = record {
  current_contract_address = vault;
  timestamp = now;
  authorized = λ _. true;
  token_contract = record { balance = balance; transfer = transfer };
  latest_price = λ _. none;
}

abbrev pub subscription : Subscription
subscription = record {
  subscriber = subscriber;
  merchant = merchant;
  token = token;
  amount = pos 100;
  interval_seconds = 3_600;
  last_payment_timestamp = 1_000_000;
  status = SubscriptionStatus.active;
  prepaid_balance = pos 250;
  usage_enabled = false;
  lifetime_cap = some (pos 1_000);
  lifetime_charged = pos 0;
  start_time = 1_000_000;
  expires_at = none;
  grace_start_timestamp = none;
}

-- What the merchant's balance comes from.
abbrev pub earned : TokenEarnings
earned = record {
  accruals = record { interval = pos 40; usage = pos 0; one_off = pos 0 };
  withdrawals = pos 0;
  refunds = pos 0;
}

abbrev pub vault_with : Subscription → State Ledger
vault_with sub = record {
  admin_store = record {
    default_token = some token;
    admin = some admin;
    min_topup = some (pos 10);
    schema_version = some 2;
    emergency_stop = none;
    grace_duration = some 600;
    fee_bps = some 250;
    treasury = some treasury;
    accepted_tokens = some (token ∷ []);
    token_decimals = (token, 7) ∷ [];
    oracle_config = none;
    admin_nonces = [];
    recoveries = [];
    blocked = [];
  };
  subscriptions = record {
    next_id = some 1;
    subs = (0, sub) ∷ [];
    merchant_subs = (merchant, 0 ∷ []) ∷ [];
    token_subs = (token, 0 ∷ []) ∷ [];
    credit_limits = [];
    cap_default = none;
    merchant_caps = [];
    next_plan_id = none;
    plans = [];
    sub_plans = [];
    plan_max_active = [];
    bare_id_subs = [];
    symbol_plans = [];
  };
  billing = record {
    charged_period = [];
    idem_key = [];
    statement_next = [];
    statement_live = [];
    statement_rows = [];
    retention = none;
    aggregates = [];
    period_snapshots = [];
    snapshot_index = [];
    usage_limits = [];
    usage_states = [];
    usage_refs = [];
  };
  merchants = record {
    paused_merchants = [];
    merchant_configs = [];
    merchant_balances = ((merchant, token), pos 40) ∷ [];
    merchant_earnings = ((merchant, token), earned) ∷ [];
    merchant_tokens = (merchant, token ∷ []) ∷ [];
  };
  metadata = record { metadata_keys = []; metadata_values = [] };
  total_accounted = (token, pos 290) ∷ [];
  locks = [];
  ledger = ((token, vault), pos 300) ∷ ((token, subscriber), pos 500) ∷ [];
  events = [];
}

abbrev pub start : State Ledger
start = vault_with subscription

pub start-IsBalanced : IsBalanced start
unfolding get_total_accounted owed prepaid_owed merchants_owed get sum_over
start-IsBalanced t = grind int_laws

pub subscription-IsSound : IsSound subscription
subscription-IsSound = record {
  prepaid_nonneg = omega arith;
  charged_nonneg = omega arith;
  within_cap = omega arith;
}

pub vault_with-IsWellFormed : (sub : Subscription) → IsSound sub → IsWellFormed (vault_with sub)
unfolding get
vault_with-IsWellFormed sub h id = elim (Bool-cases (0 == id)) [ inl e ↦ rw e h | inr e ↦ rw e tt ]

pub start-IsWellFormed : IsWellFormed start
start-IsWellFormed = vault_with-IsWellFormed subscription subscription-IsSound
